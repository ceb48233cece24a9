-- ===== src/Server/Cwmp/Sessions.antt =====
-- CwmpHandler keeps the maps of active sessions consistent.
use cwmp_acs_go.Prelude.{
  ℕ, String, Option, none, some, ◌≡◌, refl, ap, ◌∙◌, arith, inl, inr, Bool-cases,
}
use cwmp_acs_go.Cwmp.Structs.{Message, get_name}
use cwmp_acs_go.Server.Session.{Address, modify}
use cwmp_acs_go.Server.Session.Consistent.{
  IsConsistent, IsMild, modify-IsConsistent, terminate-IsConsistent,
}
use cwmp_acs_go.Server.World.{Env, World, Request, Body, unreadable, empty, document}
use cwmp_acs_go.Server.Rpc.{send_next}
use cwmp_acs_go.Server.Incoming.{Handled, done, failed, find_session}
use cwmp_acs_go.Server.Cwmp.{
  is_receiving, after_handled, begin_sending, after_send, cookie_value, conclude, handle_empty,
  handle_body, cwmp_handler,
}
use cwmp_acs_go.Server.Rpc.Gentle.{IsGentle-trans, IsGentle-of_modify, send_next-IsGentle}
use cwmp_acs_go.Server.Incoming.Sessions.{Fits, handle_incoming_message-Fits, find_session-own}

after_send-IsMild : (now : ℕ) (name : String) → IsMild (after_send now name)
after_send-IsMild now name = record {
  same_id = λ s. ground arith;
  same_device = λ s. ground arith;
  active = λ s h. ground arith;
}

conclude-IsConsistent :
    (now : ℕ) (session_id : String) (o : Option Message) (a : Address) (w : World)
    → (o ≡ none → (w.sessions.heap a).session_id ≡ session_id)
    → IsConsistent w.sessions
    → IsConsistent (conclude now session_id o a w).1.sessions
unfolding conclude
conclude-IsConsistent now session_id none a w own c =
    terminate-IsConsistent session_id a w.sessions (own refl) c
conclude-IsConsistent now session_id (some m) a w own c =
    modify-IsConsistent a (after_send now (get_name m)) w.sessions
      (after_send-IsMild now (get_name m)) c

after_handled-IsConsistent :
    (now : ℕ) (session_id : String) (h : Handled × World)
    → Fits session_id h
    → IsConsistent (after_handled now session_id h).1.sessions
after_handled-IsConsistent now session_id (done o a, w) f =
    conclude-IsConsistent now session_id o a w (λ e. f.own a (ap (λ x. done x a) e)) f.consistent
after_handled-IsConsistent now session_id (failed s e, w) f = f.consistent
after_handled-IsConsistent now session_id (Handled.panic, w) f = f.consistent

pub begin_sending-IsMild : (now : ℕ) → IsMild (begin_sending now)
begin_sending-IsMild now = record {
  same_id = λ s. refl;
  same_device = λ s. refl;
  active = λ s h. tt;
}

handle_empty-IsConsistent :
    (env : Env) (now : ℕ) (session_id : String) (o : Option Address) (w : World)
    → ((a : Address) → o ≡ some a → (w.sessions.heap a).session_id ≡ session_id)
    → IsConsistent w.sessions
    → IsConsistent (handle_empty env now session_id o w).1.sessions
unfolding handle_empty
handle_empty-IsConsistent env now session_id none w own c = c
handle_empty-IsConsistent env now session_id (some a) w own c =
    elim (Bool-cases (is_receiving (w.sessions.heap a).session_state)) [
      | inl e ↦
          let w₁ = record w { sessions = modify a (begin_sending now) w.sessions } in
          let first =
            IsGentle-of_modify w w₁ a (begin_sending now) (begin_sending-IsMild now) refl in
          let gentle =
            IsGentle-trans w w₁ (send_next env a w₁).1 first (send_next-IsGentle env a w₁) in
          rw e (
            conclude-IsConsistent now session_id (send_next env a w₁).0 a (send_next env a w₁).1
              (λ h. gentle.same_id a ∙ own a refl) (gentle.consistent c))
      | inr n ↦ rw n (terminate-IsConsistent session_id a w.sessions (own a refl) c)
    ]

handle_body-IsConsistent :
    (env : Env) (r : Request) (session_id : String) (b : Body) (w : World)
    → IsConsistent w.sessions
    → IsConsistent (handle_body env r session_id b w).1.sessions
unfolding handle_body
handle_body-IsConsistent env r session_id unreadable w c = c
handle_body-IsConsistent env r session_id empty w c =
    handle_empty-IsConsistent env r.now session_id (find_session session_id w) w
      (λ a h. find_session-own session_id w a c h) c
handle_body-IsConsistent env r session_id (document stream) w c =
    after_handled-IsConsistent r.now session_id _
      (handle_incoming_message-Fits env r.now r.uuid session_id stream w c)

-- Whatever request CwmpHandler serves, and however the calls of the database end, the two maps of
-- active sessions stay consistent: each entry leads to an allocated session that bears the entry's
-- key and is in one of the three active states, never new and never terminated.
pub cwmp_handler-IsConsistent :
    (env : Env) (r : Request) (w : World)
    → IsConsistent w.sessions
    → IsConsistent (cwmp_handler env r w).1.sessions
unfolding cwmp_handler
cwmp_handler-IsConsistent env r w c =
    handle_body-IsConsistent env r (cookie_value r.cookie) r.body w c
