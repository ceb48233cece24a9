-- ===== src/Server/Cwmp/Opened.antt =====
-- A reply that sets the session cookie opens the session.
use cwmp_acs_go.Prelude.{
  ℕ, String, true, Option, none, some, List, ◌≡◌, ◌≢◌, refl, arith, ◌==◌, inl, inr, Bool-cases,
}
use cwmp_acs_go.Cwmp.Structs.{Message, get_name}
use cwmp_acs_go.Cwmp.Errors.{Error, incoming_message, xml_parsing, other}
use cwmp_acs_go.Server.Session.{SessionInfo, receiving_cpe_rpcs, Address, lookup, modify}
use cwmp_acs_go.Server.Session.Consistent.{IsConsistent}
use cwmp_acs_go.Server.World.{
  Env, World, Request, Body, unreadable, empty, document, Outcome, reply, panic,
}
use cwmp_acs_go.Server.Rpc.{send_next}
use cwmp_acs_go.Server.Rpc.Gentle.{IsGentle-of_modify, IsGentle-trans, send_next-IsGentle}
use cwmp_acs_go.Server.Incoming.{Handled, done, failed, find_session}
use cwmp_acs_go.Server.Incoming.Registered.{
  IsOpen, gentle-IsOpen, HandlesOpen, find_session-IsOpen, handle_incoming_message-HandlesOpen,
}
use cwmp_acs_go.Server.Cwmp.{
  is_receiving, after_handled, begin_sending, cookie_value, conclude, handle_empty, handle_body,
  cwmp_handler, send_outgoing_msg, report_error, fault_of, sent,
}
use cwmp_acs_go.Server.Cwmp.Sessions.{begin_sending-IsMild}
use cwmp_acs_go.Xml.Dom.{Token}

-- The cookie leads to a session that waits for the device's RPCs.
pub record Opens (cookie : String) (w : World) : Type 0 where
  pub address : Address
  pub registered : lookup cookie w.sessions.by_id ≡ some address
  pub own : (w.sessions.heap address).session_id ≡ cookie
  pub receiving : (w.sessions.heap address).session_state ≡ receiving_cpe_rpcs

abbrev pub cookie_of : Outcome → Option String
cookie_of (reply r) = r.set_cookie
cookie_of panic = none

-- A reply that sets a cookie opens the session of that cookie.
abbrev SetsOpen : Outcome × World → Type 0
SetsOpen o = (cookie : String) → cookie_of o.0 ≡ some cookie → Opens cookie o.1

-- What sets a cookie is an InformResponse, and it is the id of the session.
sent-cookie :
    (id name cookie : String) (o : Option (List Token))
    → (sent id name o).set_cookie ≡ some cookie
    → ((name == "InformResponse") ≡ true) × (id ≡ cookie)
sent-cookie id name cookie none h = cc
sent-cookie id name cookie (some tokens) h = ground arith

send-cookie :
    (s : SessionInfo) (m : Message) (cookie : String)
    → cookie_of (send_outgoing_msg (some s) m) ≡ some cookie
    → ((get_name m == "InformResponse") ≡ true) × (s.session_id ≡ cookie)
unfolding send_outgoing_msg
send-cookie s m cookie h = sent-cookie s.session_id (get_name m) cookie _ h

report-cookie :
    (s : Option SessionInfo) (e : Error) (cookie : String)
    → cookie_of (report_error s e) ≢ some cookie
unfolding report_error send_outgoing_msg
report-cookie s (xml_parsing t) cookie h = cc
report-cookie s (other t) cookie h = cc
report-cookie none (incoming_message e) cookie h = cc
report-cookie (some s) (incoming_message e) cookie h =
    absurd (let (name, own) = send-cookie s (fault_of e) cookie h in cc)

conclude-SetsOpen :
    (now : ℕ) (session_id : String) (o : Option Message) (a : Address) (w : World)
    → IsOpen a w
    → SetsOpen (conclude now session_id o a w)
unfolding conclude
conclude-SetsOpen now session_id none a w active = λ cookie h. cc
conclude-SetsOpen now session_id (some m) a w active = λ cookie h.
    let (name, own) = send-cookie (w.sessions.heap a) m cookie h in
    record {
      address = a;
      registered = rw own at active;
      own = ground arith;
      receiving = ground arith;
    }

after_handled-SetsOpen :
    (now : ℕ) (session_id : String) (h : Handled × World)
    → HandlesOpen h
    → SetsOpen (after_handled now session_id h)
after_handled-SetsOpen now session_id (done o a, w) f =
    conclude-SetsOpen now session_id o a w (f a o refl)
after_handled-SetsOpen now session_id (failed s e, w) f =
    λ cookie h. absurd (report-cookie s e cookie h)
after_handled-SetsOpen now session_id (Handled.panic, w) f = λ cookie h. cc

handle_empty-SetsOpen :
    (env : Env) (now : ℕ) (session_id : String) (o : Option Address) (w : World)
    → ((a : Address) → o ≡ some a → IsOpen a w)
    → SetsOpen (handle_empty env now session_id o w)
unfolding handle_empty
handle_empty-SetsOpen env now session_id none w active = λ cookie h. cc
handle_empty-SetsOpen env now session_id (some a) w active =
    elim (Bool-cases (is_receiving (w.sessions.heap a).session_state)) [
      | inl e ↦
          let w₁ = record w { sessions = modify a (begin_sending now) w.sessions } in
          let first =
            IsGentle-of_modify w w₁ a (begin_sending now) (begin_sending-IsMild now) refl in
          let gentle =
            IsGentle-trans w w₁ (send_next env a w₁).1 first (send_next-IsGentle env a w₁) in
          rw e (
            conclude-SetsOpen now session_id (send_next env a w₁).0 a (send_next env a w₁).1
              (gentle-IsOpen a w _ gentle (active a refl)))
      | inr n ↦ rw n (λ cookie h. cc)
    ]

handle_body-SetsOpen :
    (env : Env) (r : Request) (session_id : String) (b : Body) (w : World)
    → IsConsistent w.sessions
    → SetsOpen (handle_body env r session_id b w)
unfolding handle_body
handle_body-SetsOpen env r session_id unreadable w c = λ cookie h. cc
handle_body-SetsOpen env r session_id empty w c =
    handle_empty-SetsOpen env r.now session_id (find_session session_id w) w
      (λ a h. find_session-IsOpen session_id w a c h)
handle_body-SetsOpen env r session_id (document stream) w c =
    after_handled-SetsOpen r.now session_id _
      (handle_incoming_message-HandlesOpen env r.now r.uuid session_id stream w c)

-- If the maps of active sessions are consistent, and the reply of CwmpHandler sets the session cookie,
-- then afterwards the cookie leads to a session that bears it as its id and is in the state
-- RECEIVING_CPE_RPCS.
pub cwmp_handler-Opens :
    (env : Env) (r : Request) (w : World) (cookie : String)
    → IsConsistent w.sessions
    → cookie_of (cwmp_handler env r w).0 ≡ some cookie
    → Opens cookie (cwmp_handler env r w).1
unfolding cwmp_handler
cwmp_handler-Opens env r w cookie c =
    handle_body-SetsOpen env r (cookie_value r.cookie) r.body w c cookie
