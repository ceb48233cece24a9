-- ===== src/Server/Incoming/Registered.antt =====
-- The session that handleIncomingMessage answers in is registered under its id.
use cwmp_acs_go.Prelude.{ℕ, String, Option, some, ◌≡◌, subst, arith, eq_refl}
use cwmp_acs_go.Cwmp.Structs.{Message, Inform}
use cwmp_acs_go.Xml.Envelope.{TokenStream}
use cwmp_acs_go.Server.Session.{SessionInfo, Address, lookup, register}
use cwmp_acs_go.Server.Session.Consistent.{IsConsistent, lookup-insert}
use cwmp_acs_go.Server.World.{Env, World}
use cwmp_acs_go.Server.Rpc.Gentle.{IsGentle}
use cwmp_acs_go.Server.Incoming.Course.{
  Course, refuses, goes_on, opens, handle_incoming_message-Course,
}
use cwmp_acs_go.Server.Incoming.{
  Handled, done, dispatch, open_session, handle_incoming_message, find_session,
}
use cwmp_acs_go.Server.Incoming.Sessions.{dispatch-IsGentle, dispatch-address, find_session-own}

-- The session at `a` is in the map by id, under its own id.
abbrev pub IsOpen : Address → World → Type 0
IsOpen a w = lookup (w.sessions.heap a).session_id w.sessions.by_id ≡ some a

pub gentle-IsOpen : (a : Address) (w w' : World) → IsGentle w w' → IsOpen a w → IsOpen a w'
gentle-IsOpen a w w' g h = rw (g.same_by_id, g.same_id a) h

-- A message is handled in a session that is open.
abbrev pub HandlesOpen : Handled × World → Type 0
HandlesOpen h = (a : Address) (o : Option Message) → h.0 ≡ done o a → IsOpen a h.1

dispatch-HandlesOpen :
    (env : Env) (now : ℕ) (a : Address) (m : Message) (w : World)
    → IsOpen a w
    → HandlesOpen (dispatch env now a m w)
dispatch-HandlesOpen env now a m w is_open b o h =
    subst (λ x. IsOpen x (dispatch env now a m w).1) (dispatch-address env now a b m w o h)
      (gentle-IsOpen a w _ (dispatch-IsGentle env now a m w) is_open)

pub find_session-IsOpen :
    (session_id : String) (w : World) (a : Address)
    → IsConsistent w.sessions
    → find_session session_id w ≡ some a
    → IsOpen a w
unfolding find_session
find_session-IsOpen session_id w a c h = rw (find_session-own session_id w a c h) (ground arith)

open_session-IsOpen :
    (uuid : String) (info : SessionInfo) (m : Inform) (w : World)
    → info.session_id ≡ uuid
    → IsOpen w.sessions.next (open_session uuid info m w)
unfolding open_session register
open_session-IsOpen uuid info m w own =
    ground (arith, lookup-insert uuid uuid w.sessions.next w.sessions.by_id, eq_refl uuid)

Course-HandlesOpen :
    (env : Env) (now : ℕ) (uuid session_id : String) (w : World) (h : Handled × World)
    → Course env now uuid session_id w h
    → IsConsistent w.sessions
    → HandlesOpen h
Course-HandlesOpen env now uuid session_id w _ (refuses h n) c = λ a o e. absurd (n a o e)
Course-HandlesOpen env now uuid session_id w _ (goes_on a m found) c =
    dispatch-HandlesOpen env now a m w (find_session-IsOpen session_id w a c found)
Course-HandlesOpen env now uuid session_id w _ (opens info m own named) c =
    dispatch-HandlesOpen env now w.sessions.next (Message.inform m) (open_session uuid info m w)
      (open_session-IsOpen uuid info m w own)

pub handle_incoming_message-HandlesOpen :
    (env : Env) (now : ℕ) (uuid session_id : String) (stream : TokenStream) (w : World)
    → IsConsistent w.sessions
    → HandlesOpen (handle_incoming_message env now uuid session_id stream w)
handle_incoming_message-HandlesOpen env now uuid session_id stream w =
    Course-HandlesOpen env now uuid session_id w _
      (handle_incoming_message-Course env now uuid session_id w stream)
