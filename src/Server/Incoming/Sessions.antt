-- ===== src/Server/Incoming/Sessions.antt =====
-- handleIncomingMessage and the maps of active sessions.
use cwmp_acs_go.Prelude.{
  ℕ, String, Option, none, some, ◌≡◌, ◌≢◌, ◌∙◌, subst, arith, eq_iff, inl, inr, Bool-cases,
}
use cwmp_acs_go.Cwmp.Structs.{Message, get_name, Inform}
use cwmp_acs_go.Xml.Envelope.{TokenStream}
use cwmp_acs_go.Server.Session.{SessionInfo, Address}
use cwmp_acs_go.Server.Session.Consistent.{IsConsistent, open-IsConsistent}
use cwmp_acs_go.Server.World.{Env, World}
use cwmp_acs_go.Server.Rpc.{process_incoming_response, process_incoming_request, is_request}
use cwmp_acs_go.Server.Incoming.Course.{
  Course, refuses, goes_on, opens, handle_incoming_message-Course,
}
use cwmp_acs_go.Server.Incoming.{
  Handled, done, dispatch, open_session, handle_incoming_message, find_session,
}
use cwmp_acs_go.Server.Rpc.Gentle.{
  IsGentle, IsGentle-trans, send_next-IsGentle, response-IsGentle,
  process_incoming_request-SameSessions, stamp, stamp-IsGentle, request-IsGentle,
}

pub dispatch-IsGentle :
    (env : Env) (now : ℕ) (a : Address) (m : Message) (w : World)
    → IsGentle w (dispatch env now a m w).1
unfolding dispatch process_incoming_response
dispatch-IsGentle env now a m w = elim (Bool-cases (is_request (get_name m))) [
  | inl e ↦ rw e (
      IsGentle-trans w (stamp now a w) _ (stamp-IsGentle now a w) (
        request-IsGentle a (stamp now a w) _
          (process_incoming_request-SameSessions env now a m (stamp now a w))))
  | inr n ↦ rw n (
      IsGentle-trans w (stamp now a w) _ (stamp-IsGentle now a w) (
        IsGentle-trans (stamp now a w) (process_incoming_response now a m (stamp now a w)) _
          (response-IsGentle _ now a m (stamp now a w)) (send_next-IsGentle env a _)))
]

-- The address that a message is handled at, and an Inform gets an answer.
pub dispatch-address :
    (env : Env) (now : ℕ) (a b : Address) (m : Message) (w : World) (o : Option Message)
    → (dispatch env now a m w).0 ≡ done o b
    → a ≡ b
unfolding dispatch
dispatch-address env now a b m w o h = ground arith

dispatch-inform :
    (env : Env) (now : ℕ) (a b : Address) (m : Inform) (w : World)
    → m.base.name ≡ "Inform"
    → (dispatch env now a (Message.inform m) w).0 ≢ done none b
unfolding dispatch process_incoming_request is_request
dispatch-inform env now a b m w e h = ground (arith, eq_iff m.base.name "Inform")

-- What CwmpHandler needs of handleIncomingMessage: consistent maps, and where nothing is to be sent,
-- that the session is the one of the cookie.
pub record Fits (session_id : String) (h : Handled × World) : Type 0 where
  pub consistent : IsConsistent h.1.sessions
  pub own : (a : Address) → h.0 ≡ done none a → (h.1.sessions.heap a).session_id ≡ session_id

dispatch-Fits :
    (env : Env) (now : ℕ) (a : Address) (m : Message) (session_id : String) (w : World)
    → (w.sessions.heap a).session_id ≡ session_id
    → IsConsistent w.sessions
    → Fits session_id (dispatch env now a m w)
dispatch-Fits env now a m session_id w own c =
    let gentle = dispatch-IsGentle env now a m w in
    record {
      consistent = gentle.consistent c;
      own = λ b h.
          subst (λ x. ((dispatch env now a m w).1.sessions.heap x).session_id ≡ session_id)
            (dispatch-address env now a b m w none h) (gentle.same_id a ∙ own);
    }

failed-Fits :
    (session_id : String) (h : Handled) (w : World)
    → ((a : Address) → h ≢ done none a)
    → IsConsistent w.sessions
    → Fits session_id (h, w)
failed-Fits session_id h w n c = record { consistent = c; own = λ a e. absurd (n a e) }

pub find_session-own :
    (session_id : String) (w : World) (a : Address)
    → IsConsistent w.sessions
    → find_session session_id w ≡ some a
    → (w.sessions.heap a).session_id ≡ session_id
unfolding find_session
find_session-own session_id w a c h = (c.by_id session_id a (ground arith)).1

open_session-IsConsistent :
    (uuid : String) (info : SessionInfo) (m : Inform) (w : World)
    → info.session_id ≡ uuid
    → IsConsistent w.sessions
    → IsConsistent (open_session uuid info m w).sessions
unfolding open_session
open_session-IsConsistent uuid info m w own c = open-IsConsistent uuid _ w.sessions own tt c

-- Each of the three courses fits.
Course-Fits :
    (env : Env) (now : ℕ) (uuid session_id : String) (w : World) (h : Handled × World)
    → Course env now uuid session_id w h
    → IsConsistent w.sessions
    → Fits session_id h
Course-Fits env now uuid session_id w _ (refuses h n) c =
    failed-Fits session_id h w (λ a e. n a none e) c
Course-Fits env now uuid session_id w _ (goes_on a m found) c =
    dispatch-Fits env now a m session_id w (find_session-own session_id w a c found) c
Course-Fits env now uuid session_id w _ (opens info m own named) c =
    let w₁ = open_session uuid info m w in
    record {
      consistent =
          (dispatch-IsGentle env now w.sessions.next (Message.inform m) w₁).consistent
            (open_session-IsConsistent uuid info m w own c);
      own = λ a h. absurd (dispatch-inform env now w.sessions.next a m w₁ named h);
    }

pub handle_incoming_message-Fits :
    (env : Env) (now : ℕ) (uuid session_id : String) (stream : TokenStream) (w : World)
    → IsConsistent w.sessions
    → Fits session_id (handle_incoming_message env now uuid session_id stream w)
handle_incoming_message-Fits env now uuid session_id stream w =
    Course-Fits env now uuid session_id w _
      (handle_incoming_message-Course env now uuid session_id w stream)
