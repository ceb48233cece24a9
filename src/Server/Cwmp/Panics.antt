-- ===== src/Server/Cwmp/Panics.antt =====
-- Requests on which CwmpHandler panics.
use cwmp_acs_go.Prelude.{String, true, some, List, ◌∷◌, ◌≡◌}
use cwmp_acs_go.Xml.Structs.{SoapElement, local, children}
use cwmp_acs_go.Xml.Header.{parse_cpe_header}
use cwmp_acs_go.Xml.Namespaces.{build_namespace_map}
use cwmp_acs_go.Xml.Envelope.{TokenStream, parse_soap_envelope, ParsedEnvelope, ok}
use cwmp_acs_go.Server.World.{Env, World, Request, document, panic}
use cwmp_acs_go.Server.Incoming.{
  is_valid_namespace_map, invalid_header, handle_rpc, handle_envelope, handle_incoming_message,
}
use cwmp_acs_go.Server.Cwmp.{report_error, send_outgoing_msg, handle_body, cwmp_handler}

-- A SOAP envelope with all five namespaces and an RPC element whose header is refused for that
-- element makes the handler panic instead of answering with the fault, and changes nothing.
pub cwmp_handler-refused_header :
    (env : Env) (r : Request) (w : World) (stream : TokenStream) (parsed : ParsedEnvelope)
    (elem : SoapElement) (rest : List SoapElement) (text : String)
    → r.body ≡ document stream
    → parse_soap_envelope stream ≡ ok parsed
    → is_valid_namespace_map (build_namespace_map env.go parsed.namespaces) ≡ true
    → children parsed.body ≡ elem ∷ rest
    → invalid_header (parse_cpe_header parsed.header) (local elem) ≡ some text
    → cwmp_handler env r w ≡ (panic, w)
unfolding cwmp_handler handle_body handle_incoming_message handle_envelope handle_rpc report_error
    send_outgoing_msg
cwmp_handler-refused_header env r w stream parsed elem rest text body parse valid rpc refused =
    simp (body, parse, valid, rpc, refused)
