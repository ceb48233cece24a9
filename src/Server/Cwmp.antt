-- ===== src/Server/Cwmp.antt =====
-- CwmpHandler and sendOutgoingMsg of internal/controllers/cwmp_controller.go.
pub mod Sessions
pub mod Settled
pub mod Panics
pub mod Reachable
pub mod Opened
use cwmp_acs_go.Prelude.{
  ℕ, String, Bool, true, false, Option, none, some, List, [], ◌∷◌, ◌==◌, if◌then◌else◌,
}
use cwmp_acs_go.Go.Text.{texts}
use cwmp_acs_go.Cwmp.Structs.{Message, get_name}
use cwmp_acs_go.Cwmp.Structs
use cwmp_acs_go.Cwmp.Errors.{Error, IncomingMessageError, incoming_message, xml_parsing, other}
use cwmp_acs_go.Generators.{generate_tokens}
use cwmp_acs_go.Xml.Dom.{Token}
use cwmp_acs_go.Server.Session.{
  SessionInfo, SessionState, receiving_cpe_rpcs, sending_acs_rpcs, Address, modify, terminate,
}
use cwmp_acs_go.Server.World.{
  Env, World, Request, Response, Body, document, unreadable, empty, Content, plain, xml, Outcome,
  reply, panic,
}
use cwmp_acs_go.Server.Rpc.{send_next}
use cwmp_acs_go.Server.Incoming.{Handled, done, failed, find_session, handle_incoming_message}

abbrev pub status_only : ℕ → Response
status_only status = record { status = status; set_cookie = none; content = Content.none }

-- http.Error
abbrev pub error_text : ℕ → String → Response
error_text status text = record { status = status; set_cookie = none; content = plain text }

abbrev pub sent : String → String → Option (List Token) → Response
sent session_id name none = status_only 500
sent session_id name (some tokens) = record {
  status = 200;
  set_cookie = if name == "InformResponse" then some session_id else none;
  content = xml tokens;
}

-- sendOutgoingMsg. It reads the session info through a pointer, which panics if that is nil.
unfoldable pub send_outgoing_msg : Option SessionInfo → Message → Outcome
send_outgoing_msg none message = panic
send_outgoing_msg (some s) message =
    reply (sent s.session_id (get_name message) (generate_tokens s.xml_namespaces message))

abbrev pub fault_of : IncomingMessageError → Message
fault_of e = Message.fault (record {
  base = record { name = "Fault"; header = e.header };
  source = e.source;
  fault_code = e.fault_code;
  fault_string = e.fault_string;
})

-- The text of an error that is none of the two types is that of the error itself.
unfoldable pub report_error : Option SessionInfo → Error → Outcome
report_error s (xml_parsing text) =
    reply (error_text 400 (texts ("XML parsing error: " ∷ text ∷ [])))
report_error s (incoming_message e) = send_outgoing_msg s (fault_of e)
report_error s (other text) = reply (error_text 500 (texts ("Internal server error: " ∷ text ∷ [])))

abbrev pub after_send : ℕ → String → SessionInfo → SessionInfo
after_send now name s =
    if name == "InformResponse"
    then record s { last_outgoing_message_time = now; session_state = receiving_cpe_rpcs }
    else record s { last_outgoing_message_time = now }

-- The end of CwmpHandler: the message is sent, or the session ends. The key of the first deletion is
-- the value of the cookie.
unfoldable pub conclude : ℕ → String → Option Message → Address → World → Outcome × World
conclude now session_id none a w =
    (reply (status_only 204), record w { sessions = terminate session_id a w.sessions })
conclude now session_id (some message) a w = (
  send_outgoing_msg (some (w.sessions.heap a)) message,
  record w { sessions = modify a (after_send now (get_name message)) w.sessions },
)

abbrev pub is_receiving : SessionState → Bool
is_receiving receiving_cpe_rpcs = true
is_receiving _ = false

abbrev pub begin_sending : ℕ → SessionInfo → SessionInfo
begin_sending now s = record s {
  session_state = sending_acs_rpcs;
  last_incoming_message_time = now;
}

-- The branch for an empty post.
unfoldable pub handle_empty : Env → ℕ → String → Option Address → World → Outcome × World
handle_empty env now session_id none w = (reply (status_only 204), w)
handle_empty env now session_id (some a) w =
    if is_receiving (w.sessions.heap a).session_state
    then (let (message, w₁) =
          send_next env a (record w { sessions = modify a (begin_sending now) w.sessions }) in
        conclude now session_id message a w₁)
    else (reply (status_only 400), record w { sessions = terminate session_id a w.sessions })

abbrev pub after_handled : ℕ → String → Handled × World → Outcome × World
after_handled now session_id (done message a, w) = conclude now session_id message a w
after_handled now session_id (failed s e, w) = (report_error s e, w)
after_handled now session_id (Handled.panic, w) = (panic, w)

abbrev pub cookie_value : Option String → String
cookie_value none = ""
cookie_value (some v) = v

unfoldable pub handle_body : Env → Request → String → Body → World → Outcome × World
handle_body env r session_id unreadable w =
    (reply (error_text 500 "Failed to read request body"), w)
handle_body env r session_id empty w =
    handle_empty env r.now session_id (find_session session_id w) w
handle_body env r session_id (document stream) w =
    after_handled r.now session_id (handle_incoming_message env r.now r.uuid session_id stream w)

unfoldable pub cwmp_handler : Env → Request → World → Outcome × World
cwmp_handler env r w = handle_body env r (cookie_value r.cookie) r.body w
