-- ===== src/Tests/Requests.antt =====
-- Whole requests to CwmpHandler.
use cwmp_acs_go.Prelude.{some, List, [], ◌∷◌, ◌≡◌, refl, arith, eq_iff}
use cwmp_acs_go.Go.Text.{trim_space}
use cwmp_acs_go.Xml.Structs.{SoapElement, of_list}
use cwmp_acs_go.Xml.Namespaces.{
  insert, collect_namespaces, build_namespace_map, build_from, id_of_url,
}
use cwmp_acs_go.Xml.Header.{parse_cpe_header, header_from, header_field}
use cwmp_acs_go.Xml.Envelope.RoundTrip.{parse_soap_envelope-tokens}
use cwmp_acs_go.Cwmp.Structs.{Message, Inform, header_of_id}
use cwmp_acs_go.Server.Rpc.{
  process_incoming_response, process_inform_request, is_boot, register_device,
}
use cwmp_acs_go.Server.Rpc.Describes.{Describes}
use cwmp_acs_go.Server.Rpc.Informs.{process_inform_request-registers}
use cwmp_acs_go.Server.Database.{DeviceInfo, get_device_by_id, found, add_device}
use cwmp_acs_go.Server.Database.Devices.{stored}
use cwmp_acs_go.Server.Rpc.Answers.{Answers, process_incoming_response-Answers}
use cwmp_acs_go.Server.Session.{lookup, modify, with_active_rpc}
use cwmp_acs_go.Server.Session.Consistent.{IsConsistent}
use cwmp_acs_go.Server.World.{Request, World, Body, empty, document, panic}
use cwmp_acs_go.Server.Incoming.{is_valid_namespace_map, invalid_header}
use cwmp_acs_go.Server.Cwmp.{cwmp_handler}
use cwmp_acs_go.Server.Cwmp.Sessions.{cwmp_handler-IsConsistent}
use cwmp_acs_go.Server.Cwmp.Panics.{cwmp_handler-refused_header}
use cwmp_acs_go.Tests.Samples.{
  sample_inform, reboot, env, envelope_attrs, leaf, stream, envelope, world,
}

abbrev request : Body → Request
request body = record { cookie = some "cookie"; body = body; uuid = "new"; now = 9 }

world-IsConsistent : IsConsistent world.sessions
unfolding lookup
world-IsConsistent = record {
  by_id = λ k a h. ground (arith, eq_iff "cookie" k);
  by_device = λ k a h. ground (arith, eq_iff "00D09E-42" k);
}

-- The empty post of a device: the first queued RPC is sent.
cwmp_handler-IsConsistent_example : IsConsistent (cwmp_handler env (request empty) world).1.sessions
cwmp_handler-IsConsistent_example =
    cwmp_handler-IsConsistent env (request empty) world world-IsConsistent

abbrev timed : List SoapElement
timed = leaf "ID" "7" ∷ leaf "SessionTimeout" "30" ∷ []

abbrev methods : List SoapElement
methods = leaf "GetRPCMethods" "" ∷ []

cwmp_handler-refused_header_example :
    cwmp_handler env (request (document (stream timed methods))) world ≡ (panic, world)
unfolding trim_space insert collect_namespaces build_namespace_map build_from id_of_url
    parse_cpe_header header_from header_field is_valid_namespace_map invalid_header
cwmp_handler-refused_header_example =
    cwmp_handler-refused_header env (request (document (stream timed methods))) world
      (stream timed methods) (envelope timed methods) (leaf "GetRPCMethods" "") []
      "SessionTimeout cannot be sent by CPE for non-Inform messages" refl
      (parse_soap_envelope-tokens envelope_attrs [] (of_list timed) [] (of_list methods)
        (((refl, refl), refl, tt), (((refl, refl), refl, tt), tt)) (((refl, refl), refl, tt), tt))
      refl refl refl

-- The session waits for the answer to its Reboot.
abbrev waiting : World
waiting = record world { sessions = modify 0 (with_active_rpc (some (reboot "m1"))) world.sessions }

abbrev rebooted : Message
rebooted = Message.reboot_response (record { name = "RebootResponse"; header = header_of_id "m1" })

process_incoming_response-Answers_example :
    Answers 9 0 rebooted waiting (process_incoming_response 9 0 rebooted waiting)
process_incoming_response-Answers_example =
    process_incoming_response-Answers 9 0 rebooted (reboot "m1") waiting refl refl refl

abbrev booted : Inform
booted = sample_inform (header_of_id "7")

process_inform_request-registers_example :
    (info : DeviceInfo) × ((get_device_by_id "00D09E-42"
        (process_inform_request 9 0 booted world).1.db).0
      ≡ found (stored info))
    × Describes "00D09E-42" booted info
unfolding process_inform_request is_boot register_device add_device
process_inform_request-registers_example =
    process_inform_request-registers 9 0 booted world refl refl
