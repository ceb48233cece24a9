-- ===== src/Server/Rpc/Gentle.antt =====
-- processIncomingRequest, processIncomingResponse and findOutgoingRpc change the sessions mildly.
use cwmp_acs_go.Prelude.{
  ℕ, Option, none, some, ◌≡◌, refl, ap, ◌∙◌, arith, ◌==◌, inl, inr, Bool-cases,
}
use cwmp_acs_go.Cwmp.Structs.{Message, get_id, Inform}
use cwmp_acs_go.Server.Session.{
  SessionInfo, Sessions, Address, modify, with_active_rpc, with_incoming_time,
}
use cwmp_acs_go.Server.Session.Consistent.{IsConsistent, IsMild, modify-id, modify-IsConsistent}
use cwmp_acs_go.Server.World.{Env, World}
use cwmp_acs_go.Server.Rpc.{
  send_next, response_to, clear_active, process_inform_request, register_device, refresh_device,
  process_incoming_request, find_outgoing_rpc,
}
use cwmp_acs_go.Server.Incoming.{concluded}

-- A step that changes sessions mildly: consistent maps stay consistent, the map by id is the same, and
-- no session's id changes.
pub record IsGentle (w w' : World) : Type 0 where
  pub consistent : IsConsistent w.sessions → IsConsistent w'.sessions
  pub same_by_id : w'.sessions.by_id ≡ w.sessions.by_id
  pub same_id : (a : Address) → (w'.sessions.heap a).session_id ≡ (w.sessions.heap a).session_id

process_inform_request-sessions :
    (now : ℕ) (a : Address) (m : Inform) (w : World)
    → (process_inform_request now a m w).1.sessions ≡ w.sessions
unfolding process_inform_request register_device refresh_device
process_inform_request-sessions now a m w = ground arith

IsGentle-refl : (w : World) → IsGentle w w
IsGentle-refl w = record { consistent = λ c. c; same_by_id = refl; same_id = λ a. refl }

pub IsGentle-trans : (u v w : World) → IsGentle u v → IsGentle v w → IsGentle u w
IsGentle-trans u v w g h = record {
  consistent = λ c. h.consistent (g.consistent c);
  same_by_id = h.same_by_id ∙ g.same_by_id;
  same_id = λ a. h.same_id a ∙ g.same_id a;
}

IsGentle-of_eq : (w w' : World) → w'.sessions ≡ w.sessions → IsGentle w w'
IsGentle-of_eq w w' e = record {
  consistent = λ c. rw e c;
  same_by_id = ap (λ (s : Sessions). s.by_id) e;
  same_id = λ a. ap (λ (s : Sessions). (s.heap a).session_id) e;
}

pub IsGentle-of_modify :
    (w w' : World) (a : Address) (f : SessionInfo → SessionInfo)
    → IsMild f
    → w'.sessions ≡ modify a f w.sessions
    → IsGentle w w'
IsGentle-of_modify w w' a f mild e = record {
  same_by_id = ap (λ (s : Sessions). s.by_id) e;
  consistent = λ c. rw e (modify-IsConsistent a f w.sessions mild c);
  same_id = λ b. ap (λ (s : Sessions). (s.heap b).session_id) e ∙ modify-id a b f w.sessions mild;
}

with_active_rpc-IsMild : {m : Option Message} → IsMild (with_active_rpc m)
with_active_rpc-IsMild = record { same_id = λ s. refl; same_device = λ s. refl; active = λ s h. h }

pub send_next-IsGentle : (env : Env) (a : Address) (w : World) → IsGentle w (send_next env a w).1
unfolding send_next
send_next-IsGentle env a w =
    IsGentle-of_modify w (send_next env a w).1 a
      (with_active_rpc (find_outgoing_rpc env.json (w.sessions.heap a).device_id_string w.db).0)
      with_active_rpc-IsMild refl

pub response-IsGentle :
    (active : Option Message) (now : ℕ) (a : Address) (m : Message) (w : World)
    → IsGentle w (response_to active now a m w)
unfolding clear_active
response-IsGentle none now a m w = IsGentle-refl w
response-IsGentle (some r) now a m w = elim (Bool-cases (get_id m == get_id r)) [
  | inl e ↦ rw e (
      IsGentle-of_modify w (clear_active now a r m w) a (with_active_rpc none)
        with_active_rpc-IsMild refl)
  | inr n ↦ rw n (IsGentle-refl w)
]

abbrev pub SameSessions : World → Option (Option Message × World) → Type 0
SameSessions w none = Unit {0}
SameSessions w (some (m, w')) = w'.sessions ≡ w.sessions

pub process_incoming_request-SameSessions :
    (env : Env) (now : ℕ) (a : Address) (m : Message) (w : World)
    → SameSessions w (process_incoming_request env now a m w)
unfolding process_incoming_request
process_incoming_request-SameSessions env now a (Message.inform m) w =
    ground (arith, process_inform_request-sessions now a m w)
process_incoming_request-SameSessions env now a _ w = ground arith

abbrev pub stamp : ℕ → Address → World → World
stamp now a w = record w { sessions = modify a (with_incoming_time now) w.sessions }

pub stamp-IsGentle : (now : ℕ) (a : Address) (w : World) → IsGentle w (stamp now a w)
stamp-IsGentle now a w =
    IsGentle-of_modify w (stamp now a w) a (with_incoming_time now)
      (record { same_id = λ s. refl; same_device = λ s. refl; active = λ s h. h }) refl

pub request-IsGentle :
    (a : Address) (w : World) (o : Option (Option Message × World))
    → SameSessions w o
    → IsGentle w (concluded a w o).1
request-IsGentle a w none h = IsGentle-refl w
request-IsGentle a w (some (m, w')) h = IsGentle-of_eq w w' h
