-- ===== src/Server/Incoming.antt =====
-- handleIncomingMessage of internal/controllers/cwmp_controller.go, and the checks that it makes.
pub mod Course
pub mod Sessions
pub mod Settled
pub mod Registered
use cwmp_acs_go.Prelude.{
  ℕ, String, Bool, true, false, not, ◌&&◌, Option, none, some, List, [], ◌∷◌, ◌==◌, if◌then◌else◌,
}
use cwmp_acs_go.Prelude.Int.{pos}
use cwmp_acs_go.Go.Runtime.{Runtime}
use cwmp_acs_go.Go.Text.{texts}
use cwmp_acs_go.Cwmp.Structs.{CwmpHeader, Message, get_name, DeviceId, Inform, cpe, server}
use cwmp_acs_go.Cwmp.Versions.{
  CwmpVersion, unknown, v1_0, v1_1, v1_2, v1_3, v1_4, max_common_version,
}
use cwmp_acs_go.Cwmp.Errors.{Error, incoming_message, xml_parsing, Result, ok, err}
use cwmp_acs_go.Xml.Structs.{
  SoapElement, local, children, cwmp_1_0_ns_url, cwmp_1_1_ns_url, cwmp_1_2_ns_url,
}
use cwmp_acs_go.Xml.Namespaces.{NamespaceMap, build_namespace_map, or_zero}
use cwmp_acs_go.Xml.Header.{parse_cpe_header}
use cwmp_acs_go.Xml.Envelope.{TokenStream, ParsedEnvelope, parse_soap_envelope}
use cwmp_acs_go.Xml.Envelope
use cwmp_acs_go.Parsers.Table.{MessageParser, cwmp_message_parsers}
use cwmp_acs_go.Server.Session.{
  SessionInfo, SessionState, initiating, receiving_cpe_rpcs, sending_acs_rpcs, Address, lookup,
  modify, with_incoming_time, create_new_session, allocate, register,
}
use cwmp_acs_go.Server.World.{Env, World}
use cwmp_acs_go.Server.Rpc.{
  is_request, process_incoming_request, process_incoming_response, send_next,
}

abbrev is_some {ℓ} : {A : Type ℓ} → Option A → Bool
is_some none = false
is_some (some a) = true

unfoldable pub is_valid_namespace_map : NamespaceMap → Bool
is_valid_namespace_map m =
    is_some m.soapenv && is_some m.soapenc && is_some m.xsd && is_some m.xsi && is_some m.cwmp

-- isHeaderValidForMessageType: `none` if valid, or the fault's text; the code is 8003.
unfoldable pub invalid_header : CwmpHeader → String → Option String
invalid_header h message_type =
    if not (h.use_cwmp_version == "")
    then some "UseCWMPVersion cannot be sent by CPE"
    else if not (h.hold_requests == "")
    then some "HoldRequests cannot be sent by CPE"
    else if message_type == "Inform"
    then none
    else if not (h.supported_cwmp_versions == "")
    then some "SupportedCWMPVersions cannot be sent by CPE for non-Inform messages"
    else if not (h.session_timeout == "")
    then some "SessionTimeout cannot be sent by CPE for non-Inform messages"
    else none

unfoldable pub determine_cwmp_version : CwmpHeader → String → CwmpVersion
determine_cwmp_version h url =
    if not (h.supported_cwmp_versions == "")
    then max_common_version h.supported_cwmp_versions
    else if url == cwmp_1_0_ns_url
    then v1_0
    else if url == cwmp_1_1_ns_url
    then v1_1
    else if url == cwmp_1_2_ns_url
    then (if not (h.session_timeout == "") then v1_3 else v1_2)
    else unknown

-- cwmpMessageParsers: only version 1.4 has an entry.
unfoldable pub version_parsers : Runtime → CwmpVersion → Option (String → Option MessageParser)
version_parsers go v1_4 = some (cwmp_message_parsers go)
version_parsers go _ = none

abbrev pub first_of_maps :
    Option (String → Option MessageParser)
    → (String → Option MessageParser)
    → String
    → Option MessageParser
first_of_maps none defaults name = defaults name
first_of_maps (some parsers) defaults name = elim (parsers name) [
  | none ↦ defaults name
  | some parser ↦ some parser
]

abbrev pub apply_parser : Option MessageParser → String → SoapElement → CwmpHeader → Result Message
apply_parser (some parser) name elem header = parser elem header
apply_parser none name elem header = err (
    incoming_message (record {
      header = header;
      source = server;
      fault_code = pos 8000;
      fault_string = texts ("Unsupported RPC method: " ∷ name ∷ []);
    }))

unfoldable pub parse_cwmp_message_via_map :
    Runtime → CwmpVersion → String → SoapElement → CwmpHeader → Result Message
parse_cwmp_message_via_map go version name elem header =
    apply_parser (first_of_maps (version_parsers go version) (cwmp_message_parsers go) name) name
      elem header

unfoldable pub generate_device_id_string : DeviceId → String
generate_device_id_string d =
    if not (d.product_class == "")
    then texts (d.oui ∷ "-" ∷ d.product_class ∷ "-" ∷ d.serial_number ∷ [])
    else texts (d.oui ∷ "-" ∷ d.serial_number ∷ [])

-- How handleIncomingMessage ends: with an outgoing message (or nil) and a session; with an error and
-- the session info (or nil) for the reply; or with a panic.
pub data Handled : Type 0 where
  done : Option Message → Address → Handled
  failed : Option SessionInfo → Error → Handled
  panic : Handled

abbrev pub session_fault : CwmpHeader → Error
session_fault header = incoming_message (record {
  header = header;
  source = server;
  fault_code = pos 8001;
  fault_string = "Invalid session state";
})

abbrev pub concluded : Address → World → Option (Option Message × World) → Handled × World
concluded a w none = (panic, w)
concluded a w (some (answer, w')) = (done answer a, w')

-- From the time stamp to the end of the function.
unfoldable pub dispatch : Env → ℕ → Address → Message → World → Handled × World
dispatch env now a message w =
    let w₁ = record w { sessions = modify a (with_incoming_time now) w.sessions } in
    if is_request (get_name message)
    then concluded a w₁ (process_incoming_request env now a message w₁)
    else (let (answer, w₂) = send_next env a (process_incoming_response now a message w₁) in
        (done answer a, w₂))

-- The new session of an Inform that parses is filled in and registered.
unfoldable pub open_session : String → SessionInfo → Inform → World → World
open_session uuid info m w =
    let s = record info {
      device_id = m.device_id;
      device_id_string = generate_device_id_string m.device_id;
      session_state = initiating;
    } in
    record w { sessions = register uuid w.sessions.next (allocate s w.sessions) }

abbrev pub opened : Env → ℕ → String → SessionInfo → Result Message → World → Handled × World
opened env now uuid info (ok (Message.inform m)) w =
    dispatch env now w.sessions.next (Message.inform m) (open_session uuid info m w)
opened env now uuid info (ok _) w = (panic, w)
opened env now uuid info (err e) w = (failed (some info) e, w)

-- `if rpcName == "Inform"`. Until it is registered nobody else can see the new session.
unfoldable pub handle_inform :
    Env → ℕ → String → NamespaceMap → CwmpHeader → SoapElement → World → Handled × World
handle_inform env now uuid namespaces header elem w =
    let version = determine_cwmp_version header (or_zero namespaces.cwmp).url in
    let info = record (create_new_session uuid) {
      cwmp_version = version;
      xml_namespaces = namespaces;
    } in
    opened env now uuid info (parse_cwmp_message_via_map env.go version "Inform" elem header) w

abbrev pub accepts_rpcs : SessionState → Bool
accepts_rpcs receiving_cpe_rpcs = true
accepts_rpcs sending_acs_rpcs = true
accepts_rpcs _ = false

abbrev pub continued : Env → ℕ → Address → SessionInfo → Result Message → World → Handled × World
continued env now a s (ok message) w = dispatch env now a message w
continued env now a s (err e) w = (failed (some s) e, w)

-- The temporary session info of a message that belongs to no session.
abbrev pub stray_session : String → NamespaceMap → CwmpHeader → SessionInfo
stray_session session_id namespaces header = record (create_new_session session_id) {
  cwmp_version = determine_cwmp_version header (or_zero namespaces.cwmp).url;
  xml_namespaces = namespaces;
}

-- The branch for everything but an Inform.
unfoldable pub handle_other :
    Env
    → ℕ
    → String
    → Option Address
    → NamespaceMap
    → CwmpHeader
    → String
    → SoapElement
    → World
    → Handled × World
handle_other env now session_id none namespaces header name elem w =
    (failed (some (stray_session session_id namespaces header)) (session_fault header), w)
handle_other env now session_id (some a) namespaces header name elem w =
    let s = w.sessions.heap a in
    if accepts_rpcs s.session_state
    then continued env now a s (parse_cwmp_message_via_map env.go s.cwmp_version name elem header) w
    else (failed none (session_fault header), w)

-- `sessionID` is "" if there is no cookie, and then no session is looked up.
unfoldable pub find_session : String → World → Option Address
find_session session_id w = if session_id == "" then none else lookup session_id w.sessions.by_id

abbrev pub header_error : CwmpHeader → String → Error
header_error header text =
    incoming_message
      (record { header = header; source = cpe; fault_code = pos 8003; fault_string = text })

-- The two branches behind the header check, on its result.
abbrev pub checked_rpc :
    Env
    → ℕ
    → String
    → String
    → NamespaceMap
    → CwmpHeader
    → SoapElement
    → Option String
    → World
    → Handled × World
checked_rpc env now uuid session_id namespaces header elem (some text) w =
    (failed none (header_error header text), w)
checked_rpc env now uuid session_id namespaces header elem none w =
    if local elem == "Inform"
    then handle_inform env now uuid namespaces header elem w
    else handle_other env now session_id (find_session session_id w) namespaces header (local elem)
        elem w

-- From the RPC element on: the header check, the session, the two branches.
unfoldable pub handle_rpc :
    Env → ℕ → String → String → NamespaceMap → CwmpHeader → SoapElement → World → Handled × World
handle_rpc env now uuid session_id namespaces header elem w =
    checked_rpc env now uuid session_id namespaces header elem (invalid_header header (local elem))
      w

-- `parsedEnv.Body.Children[0]` panics where the body is empty.
abbrev pub with_rpc : List SoapElement → (SoapElement → Handled × World) → World → Handled × World
with_rpc [] f w = (panic, w)
with_rpc (elem ∷ rest) f w = f elem

unfoldable pub handle_envelope :
    Env → ℕ → String → String → ParsedEnvelope → World → Handled × World
handle_envelope env now uuid session_id parsed w =
    let namespaces = build_namespace_map env.go parsed.namespaces in
    if is_valid_namespace_map namespaces
    then with_rpc (children parsed.body)
        (λ elem.
          handle_rpc env now uuid session_id namespaces (parse_cpe_header parsed.header) elem w)
        w
    else (failed none (xml_parsing "Invalid namespaces in SOAP message"), w)

abbrev pub handle_parsed :
    Env → ℕ → String → String → Envelope.Result ParsedEnvelope → World → Handled × World
handle_parsed env now uuid session_id (Envelope.err e) w =
    (failed none (xml_parsing (texts ("Failed to parse SOAP message: " ∷ e ∷ []))), w)
handle_parsed env now uuid session_id (Envelope.ok parsed) w =
    handle_envelope env now uuid session_id parsed w

unfoldable pub handle_incoming_message :
    Env → ℕ → String → String → TokenStream → World → Handled × World
handle_incoming_message env now uuid session_id stream w =
    handle_parsed env now uuid session_id (parse_soap_envelope stream) w
