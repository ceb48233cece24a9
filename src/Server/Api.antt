-- ===== src/Server/Api.antt =====
-- ApiHandler of internal/controllers/api_controller.go, and the connection requests that it sends.
pub mod Connection
pub mod Queue
pub mod Settled
pub mod Sent
use cwmp_acs_go.Prelude.{
  ℕ, String, Bool, true, false, not, ◌||◌, Option, none, some, List, [], ◌∷◌, ◌==◌, if◌then◌else◌,
  ltb, leb,
}
use cwmp_acs_go.Prelude.Int.{pos}
use cwmp_acs_go.Go.Text.{texts}
use cwmp_acs_go.Go.Strconv.{itoa}
use cwmp_acs_go.Cwmp.Structs.{Message, get_id}
use cwmp_acs_go.Cwmp.Errors.{Result, ok, err, error_string}
use cwmp_acs_go.Server.Database.{
  Db, DeviceInfo, DeviceResult, found, not_found, failed, get_device_by_id, queue_rpc,
}
use cwmp_acs_go.Server.Build.{
  Json, ApiRequest, Decoded, decoded, malformed, build_cwmp_message_from_parts,
}
use cwmp_acs_go.Server.Session.{SessionInfo, SessionState, terminated, Address, lookup}
use cwmp_acs_go.Server.World.{
  Env, World, Get, not_created, not_sent, answered, Response, Content, Outcome, reply,
}
use cwmp_acs_go.Server.Cwmp.{error_text}

-- The UUID is the one that newMessageID draws.
pub record ApiCall : Type 0 where
  pub body : String
  pub uuid : String

-- sendHttpConnectionRequest: `none` is success, or the error's text.
unfoldable pub send_http_connection_request : Env → String → Option String
send_http_connection_request env url = elim (env.get url) [
  | not_created e ↦ some (texts ("failed to create connection request: " ∷ e ∷ []))
  | not_sent e ↦ some (texts ("connection request failed: " ∷ e ∷ []))
  | answered status unread ↦
      if ltb status 200 || leb 300 status
      then some (texts ("connection request returned non-2xx status: " ∷ itoa (pos status) ∷ []))
      else elim unread [
        | none ↦ none
        | some e ↦ some (texts ("failed to read connection request response: " ∷ e ∷ []))
      ]
]

unfoldable pub send_connection_request : Env → DeviceInfo → Option String
send_connection_request env device =
    if device.connection_request_url == ""
    then some "device does not have a connection request URL"
    else send_http_connection_request env device.connection_request_url

abbrev pub is_terminated : SessionState → Bool
is_terminated terminated = true
is_terminated _ = false

-- No session of the device is registered, or it has ended.
unfoldable pub lacks_session : String → World → Bool
lacks_session device w = elim (lookup device w.sessions.by_device) [
  | none ↦ true
  | some a ↦ is_terminated (w.sessions.heap a).session_state
]

abbrev pub accepted : Message → Response
accepted message = record {
  status = 202;
  set_cookie = none;
  content = Content.json (("status", "queued") ∷ ("message_id", get_id message) ∷ []);
}

abbrev connected : Message → Option String → Response
connected message none = accepted message
connected message (some e) =
    error_text 500 (texts ("failed to trigger connection request: " ∷ e ∷ []))

-- From `if req.TriggerSession` on: the database and the sessions stay as they are.
unfoldable pub trigger : Env → ApiRequest → DeviceInfo → Message → World → Response
trigger env req device message w =
    if req.trigger_session
    then (if lacks_session req.device_id w
        then connected message (send_connection_request env device)
        else accepted message)
    else accepted message

-- From the call of QueueRPC on.
abbrev pub enqueue : Env → ApiRequest → DeviceInfo → Message → World → Response × World
enqueue env req device message w =
    let (queued, db) = queue_rpc req.device_id (get_id message) req.rpc req.parameters w.db in
    let w₁ = record w { db = db } in
    if queued
    then (trigger env req device message w₁, w₁)
    else (error_text 500 "failed to enqueue message", w₁)

abbrev pub built : Env → ApiRequest → DeviceInfo → Result Message → World → Response × World
built env req device (err e) w =
    (error_text 400 (texts ("failed to build message: " ∷ error_string e ∷ [])), w)
built env req device (ok message) w = enqueue env req device message w

abbrev pub fetched : Env → String → ApiRequest → DeviceResult → World → Response × World
fetched env uuid req (found device) w =
    built env req device (build_cwmp_message_from_parts env.json uuid req.rpc req.parameters) w
fetched env uuid req not_found w =
    (error_text 500 "failed to fetch device info: device not found", w)
fetched env uuid req failed w =
    (error_text 500 (texts ("failed to fetch device info: " ∷ env.driver_error ∷ [])), w)

-- The handler behind the decoder.
unfoldable pub handle_request : Env → String → ApiRequest → World → Response × World
handle_request env uuid req w =
    if req.device_id == ""
    then (error_text 400 "device_id is required", w)
    else if req.rpc == ""
    then (error_text 400 "RPC name is required", w)
    else (let (device, db) = get_device_by_id req.device_id w.db in
        fetched env uuid req device (record w { db = db }))

unfoldable pub api_handler : Env → ApiCall → World → Response × World
api_handler env call w = elim (env.json.api_request call.body) [
  | malformed e ↦ (error_text 400 (texts ("invalid JSON: " ∷ e ∷ [])), w)
  | decoded req ↦ handle_request env call.uuid req w
]
