-- ===== src/Server/Incoming/Settled.antt =====
-- handleIncomingMessage keeps the queue in order.
use cwmp_acs_go.Prelude.{
  ℕ, String, Option, none, some, [], ◌≡◌, refl, arith, ◌==◌, inl, inr, Bool-cases,
}
use cwmp_acs_go.Cwmp.Structs.{Message, Inform, get_id, get_name}
use cwmp_acs_go.Server.Build.{Json}
use cwmp_acs_go.Server.Database.{Db, call, add_device, update_device, is_device_registered}
use cwmp_acs_go.Server.Session.{Address}
use cwmp_acs_go.Server.World.{Env, World}
use cwmp_acs_go.Server.Rpc.{
  send_next, response_to, clear_active, register_device, refresh_device, process_inform_request,
  process_incoming_request, process_incoming_response, is_request,
}
use cwmp_acs_go.Server.Rpc.Gentle.{stamp}
use cwmp_acs_go.Server.Rpc.Settled.{IsSettled, delete-IsSettled, find_outgoing_rpc-Delivers}
use cwmp_acs_go.Xml.Envelope.{TokenStream}
use cwmp_acs_go.Server.Incoming.{
  Handled, dispatch, concluded, open_session, handle_incoming_message,
}
use cwmp_acs_go.Server.Incoming.Course.{
  Course, refuses, goes_on, opens, handle_incoming_message-Course,
}

-- A change of the table of devices only.
record KeepsQueue (d d' : Db) : Type 0 where
  queue : d'.queue ≡ d.queue
  next_id : d'.next_id ≡ d.next_id
  calm : d.outcomes ≡ [] → d'.outcomes ≡ []

KeepsQueue-IsSettled :
    (json : Json) (d d' : Db) → KeepsQueue d d' → IsSettled json d → IsSettled json d'
KeepsQueue-IsSettled json d d' k s = record {
  calm = k.calm s.calm;
  rising = rw (k.queue, k.next_id) s.rising;
  sound = rw k.queue s.sound;
}

process_inform_request-KeepsQueue :
    (now : ℕ) (a : Address) (m : Inform) (w : World)
    → KeepsQueue w.db (process_inform_request now a m w).1.db
unfolding process_inform_request register_device refresh_device add_device update_device
    is_device_registered call
process_inform_request-KeepsQueue now a m w = record {
  queue = ground arith;
  next_id = ground arith;
  calm = λ e. ground arith;
}

pub send_next-IsSettled :
    (env : Env) (a : Address) (w : World)
    → IsSettled env.json w.db
    → IsSettled env.json (send_next env a w).1.db
unfolding send_next
send_next-IsSettled env a w s =
    (find_outgoing_rpc-Delivers env.json (w.sessions.heap a).device_id_string w.db s).settled

response-IsSettled :
    (json : Json) (active : Option Message) (now : ℕ) (a : Address) (m : Message) (w : World)
    → IsSettled json w.db
    → IsSettled json (response_to active now a m w).db
unfolding clear_active
response-IsSettled json none now a m w s = s
response-IsSettled json (some r) now a m w s = elim (Bool-cases (get_id m == get_id r)) [
  | inl e ↦ rw e (delete-IsSettled json (get_id r) w.db s)
  | inr n ↦ rw n s
]

abbrev Keeps : World → Option (Option Message × World) → Type 0
Keeps w none = Unit {0}
Keeps w (some (m, w')) = KeepsQueue w.db w'.db

KeepsQueue-refl : (d : Db) → KeepsQueue d d
KeepsQueue-refl d = record { queue = refl; next_id = refl; calm = λ e. e }

process_incoming_request-Keeps :
    (env : Env) (now : ℕ) (a : Address) (m : Message) (w : World)
    → Keeps w (process_incoming_request env now a m w)
unfolding process_incoming_request
process_incoming_request-Keeps env now a (Message.inform m) w =
    ground (arith, process_inform_request-KeepsQueue now a m w, KeepsQueue-refl w.db)
process_incoming_request-Keeps env now a _ w = ground (arith, KeepsQueue-refl w.db)

request-IsSettled :
    (json : Json) (a : Address) (w : World) (o : Option (Option Message × World))
    → Keeps w o
    → IsSettled json w.db
    → IsSettled json (concluded a w o).1.db
request-IsSettled json a w none k s = s
request-IsSettled json a w (some (m, w')) k s = KeepsQueue-IsSettled json w.db w'.db k s

dispatch-IsSettled :
    (env : Env) (now : ℕ) (a : Address) (m : Message) (w : World)
    → IsSettled env.json w.db
    → IsSettled env.json (dispatch env now a m w).1.db
unfolding dispatch process_incoming_response
dispatch-IsSettled env now a m w s = elim (Bool-cases (is_request (get_name m))) [
  | inl e ↦ rw e (
      request-IsSettled env.json a (stamp now a w) _
        (process_incoming_request-Keeps env now a m (stamp now a w)) s)
  | inr n ↦
      rw n (send_next-IsSettled env a _ (response-IsSettled env.json _ now a m (stamp now a w) s))
]

Course-IsSettled :
    (env : Env) (now : ℕ) (uuid session_id : String) (w : World) (h : Handled × World)
    → Course env now uuid session_id w h
    → IsSettled env.json w.db
    → IsSettled env.json h.1.db
unfolding open_session
Course-IsSettled env now uuid session_id w _ (refuses h n) s = s
Course-IsSettled env now uuid session_id w _ (goes_on a m found) s =
    dispatch-IsSettled env now a m w s
Course-IsSettled env now uuid session_id w _ (opens info m own named) s =
    dispatch-IsSettled env now w.sessions.next (Message.inform m) (open_session uuid info m w) s

pub handle_incoming_message-IsSettled :
    (env : Env) (now : ℕ) (uuid session_id : String) (stream : TokenStream) (w : World)
    → IsSettled env.json w.db
    → IsSettled env.json (handle_incoming_message env now uuid session_id stream w).1.db
handle_incoming_message-IsSettled env now uuid session_id stream w =
    Course-IsSettled env now uuid session_id w _
      (handle_incoming_message-Course env now uuid session_id w stream)
