-- ===== src/Server/Cwmp/Settled.antt =====
-- CwmpHandler keeps the queue in order, and ends a session only when nothing is left to send.
use cwmp_acs_go.Prelude.{
  ℕ, String, List, subst, Option, none, some, ◌≡◌, ◌≢◌, refl, arith, inl, inr, Bool-cases,
}
use cwmp_acs_go.Cwmp.Structs.{Message, get_name}
use cwmp_acs_go.Generators.{generate_tokens}
use cwmp_acs_go.Xml.Dom.{Token}
use cwmp_acs_go.Server.Session.Consistent.{modify-device}
use cwmp_acs_go.Server.Cwmp.Sessions.{begin_sending-IsMild}
use cwmp_acs_go.Server.Database.{first_queued}
use cwmp_acs_go.Server.Session.{SessionInfo, Address, receiving_cpe_rpcs, modify}
use cwmp_acs_go.Server.World.{
  Env, World, Request, Body, unreadable, empty, document, Outcome, reply,
}
use cwmp_acs_go.Server.Rpc.{send_next}
use cwmp_acs_go.Server.Rpc.Settled.{IsSettled, find_outgoing_rpc-Delivers}
use cwmp_acs_go.Server.Incoming.{Handled, done, failed, find_session, handle_incoming_message}
use cwmp_acs_go.Server.Incoming.Settled.{send_next-IsSettled, handle_incoming_message-IsSettled}
use cwmp_acs_go.Server.Cwmp.{
  is_receiving, after_handled, begin_sending, cookie_value, conclude, handle_empty, handle_body,
  cwmp_handler, send_outgoing_msg, sent,
}

abbrev begun : ℕ → Address → World → World
begun now a w = record w { sessions = modify a (begin_sending now) w.sessions }

conclude-db :
    (now : ℕ) (session_id : String) (o : Option Message) (a : Address) (w : World)
    → (conclude now session_id o a w).1.db ≡ w.db
unfolding conclude
conclude-db now session_id none a w = refl
conclude-db now session_id (some m) a w = refl

handle_empty-IsSettled :
    (env : Env) (now : ℕ) (session_id : String) (o : Option Address) (w : World)
    → IsSettled env.json w.db
    → IsSettled env.json (handle_empty env now session_id o w).1.db
unfolding handle_empty
handle_empty-IsSettled env now session_id none w s = s
handle_empty-IsSettled env now session_id (some a) w s =
    elim (Bool-cases (is_receiving (w.sessions.heap a).session_state)) [
      | inl e ↦
          let w₁ = begun now a w in
          rw (e, conclude-db now session_id (send_next env a w₁).0 a (send_next env a w₁).1)
            (send_next-IsSettled env a w₁ s)
      | inr n ↦ rw n s
    ]

after_handled-db :
    (now : ℕ) (session_id : String) (h : Handled × World)
    → (after_handled now session_id h).1.db ≡ h.1.db
after_handled-db now session_id (done o a, w) = conclude-db now session_id o a w
after_handled-db now session_id (failed s e, w) = refl
after_handled-db now session_id (Handled.panic, w) = refl

handle_body-IsSettled :
    (env : Env) (r : Request) (session_id : String) (b : Body) (w : World)
    → IsSettled env.json w.db
    → IsSettled env.json (handle_body env r session_id b w).1.db
unfolding handle_body
handle_body-IsSettled env r session_id unreadable w s = s
handle_body-IsSettled env r session_id empty w s =
    handle_empty-IsSettled env r.now session_id (find_session session_id w) w s
handle_body-IsSettled env r session_id (document stream) w s =
    rw
      (after_handled-db r.now session_id
        (handle_incoming_message env r.now r.uuid session_id stream w))
      (handle_incoming_message-IsSettled env r.now r.uuid session_id stream w s)

-- If no call of the database is to fail, the ids in the queue rise up to the next one, and the message
-- of every row can be built and has been handed out at most six times, then all this still holds after
-- CwmpHandler has served a request.
pub cwmp_handler-IsSettled :
    (env : Env) (r : Request) (w : World)
    → IsSettled env.json w.db
    → IsSettled env.json (cwmp_handler env r w).1.db
unfolding cwmp_handler
cwmp_handler-IsSettled env r w = handle_body-IsSettled env r (cookie_value r.cookie) r.body w

abbrev pub status_of : Outcome → Option ℕ
status_of (reply r) = some r.status
status_of Outcome.panic = none

sent-status : (id name : String) (o : Option (List Token)) → some (sent id name o).status ≢ some 204
sent-status id name none h = ground arith
sent-status id name (some tokens) h = ground arith

send-status : (s : SessionInfo) (m : Message) → status_of (send_outgoing_msg (some s) m) ≢ some 204
unfolding send_outgoing_msg
send-status s m = sent-status s.session_id (get_name m) (generate_tokens s.xml_namespaces m)

conclude-drained :
    (now : ℕ) (session_id device : String) (o : Option Message) (a : Address) (w : World)
    → (o ≡ none → first_queued device w.db.queue ≡ none)
    → status_of (conclude now session_id o a w).0 ≡ some 204
    → first_queued device (conclude now session_id o a w).1.db.queue ≡ none
unfolding conclude
conclude-drained now session_id device none a w drained h = drained refl
conclude-drained now session_id device (some m) a w drained h =
    absurd (send-status (w.sessions.heap a) m h)

send_next-drained :
    (env : Env) (now : ℕ) (a : Address) (w : World)
    → IsSettled env.json w.db
    → (send_next env a (begun now a w)).0 ≡ none
    → first_queued (w.sessions.heap a).device_id_string (send_next env a (begun now a w)).1.db.queue
      ≡ none
unfolding send_next
send_next-drained env now a w s h =
    let device = modify-device a a (begin_sending now) w.sessions (begin_sending-IsMild now) in
    subst (λ x. first_queued x (send_next env a (begun now a w)).1.db.queue ≡ none) device
      ((find_outgoing_rpc-Delivers env.json ((begun now a w).sessions.heap a).device_id_string w.db
          s).drained
        h)

-- If the database is settled, and CwmpHandler answers the empty post of a session in the state
-- RECEIVING_CPE_RPCS with 204, then no message for the session's device is left in the queue.
pub cwmp_handler-drained :
    (env : Env) (r : Request) (w : World) (a : Address)
    → IsSettled env.json w.db
    → r.body ≡ empty
    → find_session (cookie_value r.cookie) w ≡ some a
    → (w.sessions.heap a).session_state ≡ receiving_cpe_rpcs
    → status_of (cwmp_handler env r w).0 ≡ some 204
    → first_queued (w.sessions.heap a).device_id_string (cwmp_handler env r w).1.db.queue ≡ none
unfolding cwmp_handler handle_body handle_empty
cwmp_handler-drained env r w a s body own state ended =
    let w₁ = begun r.now a w in
    let ended' : status_of
          (conclude r.now (cookie_value r.cookie) (send_next env a w₁).0 a (send_next env a w₁).1).0
        ≡ some 204 =
      rw (body, own, state) at ended in
    rw (body, own, state)
      (conclude-drained r.now (cookie_value r.cookie) (w.sessions.heap a).device_id_string
        (send_next env a w₁).0 a (send_next env a w₁).1 (send_next-drained env r.now a w s) ended')
