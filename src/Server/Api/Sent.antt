-- ===== src/Server/Api/Sent.antt =====
-- The way of an accepted request to the device: the answer to its next empty post.
use cwmp_acs_go.Prelude.{
  ℕ, String, true, false, Option, none, some, List, [], ◌≡◌, refl, sym, ap, ◌∙◌, subst, ◌==◌,
  if◌then◌else◌,
}
use cwmp_acs_go.Cwmp.Structs.{Message, get_name}
use cwmp_acs_go.Generators.{asserts, generate_tokens}
use cwmp_acs_go.Generators.Written.{generate_tokens-Writes}
use cwmp_acs_go.Xml.Namespaces.{NamespaceMap}
use cwmp_acs_go.Xml.Dom.{Token}
use cwmp_acs_go.Xml.Dom.Written.{Nests}
use cwmp_acs_go.Server.Build.{ApiRequest, decoded}
use cwmp_acs_go.Server.Build.Requests.{
  IsRequest, add_object, delete_object, get_parameter_attributes, get_parameter_values,
  get_parameter_names, reboot, get_rpc_methods, set_parameter_attributes, set_parameter_values,
}
use cwmp_acs_go.Server.Database.Fifo.Refines.{queue_of}
use cwmp_acs_go.Server.Session.{SessionInfo, Sessions, lookup, Address, receiving_cpe_rpcs, modify}
use cwmp_acs_go.Server.Session.Consistent.{modify-device}
use cwmp_acs_go.Server.World.{Env, World, Request, empty, xml, Outcome, reply}
use cwmp_acs_go.Server.Rpc.{find_outgoing_rpc, send_next}
use cwmp_acs_go.Server.Rpc.Settled.{IsSettled}
use cwmp_acs_go.Server.Incoming.{find_session}
use cwmp_acs_go.Server.Cwmp.{
  cwmp_handler, handle_body, handle_empty, conclude, begin_sending, cookie_value, send_outgoing_msg,
}
use cwmp_acs_go.Server.Cwmp.Sessions.{begin_sending-IsMild}
use cwmp_acs_go.Server.Api.{ApiCall, api_handler}
use cwmp_acs_go.Server.Api.Queue.{api_handler-sessions}
use cwmp_acs_go.Server.Api.Settled.{api_handler-handed_out}

IsRequest-asserts :
    (id name : String) (m : Message)
    → IsRequest id name m
    → (asserts (get_name m) m ≡ true) × ((get_name m == "InformResponse") ≡ false)
unfolding asserts
IsRequest-asserts id _ _ (add_object object key) = (refl, refl)
IsRequest-asserts id _ _ (delete_object object key) = (refl, refl)
IsRequest-asserts id _ _ (get_parameter_attributes names) = (refl, refl)
IsRequest-asserts id _ _ (get_parameter_values names) = (refl, refl)
IsRequest-asserts id _ _ (get_parameter_names path next) = (refl, refl)
IsRequest-asserts id _ _ (reboot key) = (refl, refl)
IsRequest-asserts id _ _ get_rpc_methods = (refl, refl)
IsRequest-asserts id _ _ (set_parameter_attributes entries) = (refl, refl)
IsRequest-asserts id _ _ (set_parameter_values entries key) = (refl, refl)

abbrev begun : ℕ → Address → World → World
begun now a w = record w { sessions = modify a (begin_sending now) w.sessions }

-- What a device is sent: a document that is the message.
abbrev pub Sends : Message → Outcome → Type 0
Sends m o =
    (ns : NamespaceMap) × (ts : List Token) × (o
      ≡ reply (record { status = 200; set_cookie = none; content = xml ts }))
    × (generate_tokens ns m ≡ some ts)
    × Nests ts []

send-Sends :
    (s : SessionInfo) (m : Message)
    → asserts (get_name m) m ≡ true
    → (get_name m == "InformResponse") ≡ false
    → Sends m (send_outgoing_msg (some s) m)
unfolding send_outgoing_msg
send-Sends s m h other =
    let (ts, same, nests) = generate_tokens-Writes s.xml_namespaces m h in
    (s.xml_namespaces, ts, rw (same, other) refl, same, nests)

send_next-message :
    (env : Env) (now : ℕ) (a : Address) (w : World)
    → (send_next env a (begun now a w)).0
      ≡ (find_outgoing_rpc env.json (w.sessions.heap a).device_id_string w.db).0
unfolding send_next
send_next-message env now a w =
    ap (λ device. (find_outgoing_rpc env.json device w.db).0)
      (modify-device a a (begin_sending now) w.sessions (begin_sending-IsMild now))

conclude-Sends :
    (now : ℕ) (session_id : String) (o : Option Message) (a : Address) (w : World) (m : Message)
    → o ≡ some m
    → asserts (get_name m) m ≡ true
    → (get_name m == "InformResponse") ≡ false
    → Sends m (conclude now session_id o a w).0
unfolding conclude
conclude-Sends now session_id none a w m e h other = cc
conclude-Sends now session_id (some n) a w m e h other =
    let same : n ≡ m = cc in
    subst (λ x. Sends m (conclude now session_id (some x) a w).0) (sym same)
      (send-Sends (w.sessions.heap a) m h other)

-- The answer to the empty post of a session that may be sent RPCs.
post-Sends :
    (env : Env) (r : Request) (w : World) (a : Address) (m : Message)
    → r.body ≡ empty
    → find_session (cookie_value r.cookie) w ≡ some a
    → (w.sessions.heap a).session_state ≡ receiving_cpe_rpcs
    → (find_outgoing_rpc env.json (w.sessions.heap a).device_id_string w.db).0 ≡ some m
    → asserts (get_name m) m ≡ true
    → (get_name m == "InformResponse") ≡ false
    → Sends m (cwmp_handler env r w).0
unfolding cwmp_handler handle_body handle_empty
post-Sends env r w a m body own state found h other =
    rw (body, own, state)
      (conclude-Sends r.now (cookie_value r.cookie) (send_next env a (begun r.now a w)).0 a
        (send_next env a (begun r.now a w)).1 m (send_next-message env r.now a w ∙ found) h other)

find_session-sessions :
    (session_id : String) (v w : World)
    → w.sessions ≡ v.sessions
    → find_session session_id w ≡ find_session session_id v
unfolding find_session
find_session-sessions session_id v w h =
    ap (λ (s : Sessions). if session_id == "" then none else lookup session_id s.by_id) h

-- If the database is settled and nothing waits for a device, then once ApiHandler has accepted a request
-- for the device, an empty post of the device, in a session in the state RECEIVING_CPE_RPCS, is answered
-- with 200 and the document, in nested tokens, of a message of the RPC that was asked for, with the UUID
-- that was drawn.
pub api_handler-sent :
    (env : Env) (c : ApiCall) (w : World) (req : ApiRequest) (r : Request) (a : Address)
    → env.json.api_request c.body ≡ decoded req
    → IsSettled env.json w.db
    → (api_handler env c w).0.status ≡ 202
    → queue_of w.db req.device_id ≡ []
    → r.body ≡ empty
    → find_session (cookie_value r.cookie) w ≡ some a
    → (w.sessions.heap a).session_state ≡ receiving_cpe_rpcs
    → (w.sessions.heap a).device_id_string ≡ req.device_id
    → (m : Message) × IsRequest c.uuid req.rpc m
      × Sends m (cwmp_handler env r (api_handler env c w).1).0
api_handler-sent env c w req r a decodes s accepted empty_queue body own state device =
    let w₁ = (api_handler env c w).1 in
    let same : w₁.sessions ≡ w.sessions = api_handler-sessions env c w in
    let (m, found, made) = api_handler-handed_out env c w req decodes s accepted empty_queue in
    let (asserted, other) = IsRequest-asserts c.uuid req.rpc m made in
    (
      m,
      made,
      post-Sends env r w₁ a m body (find_session-sessions (cookie_value r.cookie) w w₁ same ∙ own)
          (ap (λ (x : Sessions). (x.heap a).session_state) same ∙ state)
          (ap (λ (x : Sessions). (find_outgoing_rpc env.json (x.heap a).device_id_string w₁.db).0)
              same
            ∙ ap (λ x. (find_outgoing_rpc env.json x w₁.db).0) device
            ∙ found)
          asserted other,
    )
