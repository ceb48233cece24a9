-- ===== src/Server/Rpc/Answers.antt =====
-- What processIncomingResponse makes of a response.
use cwmp_acs_go.Prelude.{
  ℕ, String, none, some, List, [], ◌∷◌, ◌≡◌, ◌≢◌, refl, arith, eq_iff, In, inl, inr, ◌==◌,
  Bool-cases,
}
use cwmp_acs_go.Cwmp.Structs.{Message, get_id, get_name}
use cwmp_acs_go.Server.Database.{QueueRow, call, delete_queued_rpc, without}
use cwmp_acs_go.Server.Broker.Delivery.{find, delivered, find-publish}
use cwmp_acs_go.Server.Session.{Address}
use cwmp_acs_go.Server.World.{World}
use cwmp_acs_go.Server.Rpc.{event_of, clear_active, process_incoming_response}

without-gone :
    (id : String) (rows : List QueueRow) (row : QueueRow)
    → In row (without id rows)
    → row.message_id ≢ id
unfolding without
without-gone id [] row h = absurd h
without-gone id (r ∷ rows) row h = elim (Bool-cases (r.message_id == id)) [
  | inl e ↦ without-gone id rows row (rw e at h)
  | inr n ↦ elim (rw n at h) [
    | inl same ↦ ground (arith, eq_iff r.message_id id)
    | inr later ↦ without-gone id rows row later
  ]
]

without-kept :
    (id : String) (rows : List QueueRow) (row : QueueRow)
    → row.message_id ≢ id
    → In row rows
    → In row (without id rows)
unfolding without
without-kept id [] row n h = absurd h
without-kept id (r ∷ rows) row n h = elim (Bool-cases (r.message_id == id)) [
  | inl e ↦ elim h [
    | inl same ↦ ground (arith, eq_iff r.message_id id)
    | inr later ↦ rw e (without-kept id rows row n later)
  ]
  | inr differs ↦ elim h [
    | inl same ↦ rw differs (inl same)
    | inr later ↦ rw differs (inr (without-kept id rows row n later))
  ]
]

-- From `w` to `w'` the answer `m` to the active RPC of the session at `a` has been taken in.
pub record Answers (now : ℕ) (a : Address) (m : Message) (w w' : World) : Type 0 where
  pub gone : (row : QueueRow) → In row w'.db.queue → row.message_id ≢ get_id m
  pub kept : (row : QueueRow) → row.message_id ≢ get_id m → In row w.db.queue → In row w'.db.queue
  pub cleared : (w'.sessions.heap a).active_rpc ≡ none
  pub told :
      (id : String)
      → find id w'.broker
        ≡ delivered (event_of (get_name m) now (w.sessions.heap a) m) (find id w.broker)

delete-queue :
    (id : String) (w : World)
    → w.db.outcomes ≡ []
    → (delete_queued_rpc id w.db).1.queue ≡ without id w.db.queue
unfolding delete_queued_rpc call
delete-queue id w none_fails = rw none_fails refl

-- While the database does not fail, a response with the id of the session's active RPC takes the rows
-- with this id out of the queue and no others, clears the active RPC, and is offered to every
-- subscriber.
pub process_incoming_response-Answers :
    (now : ℕ) (a : Address) (m active : Message) (w : World)
    → w.db.outcomes ≡ []
    → (w.sessions.heap a).active_rpc ≡ some active
    → get_id m ≡ get_id active
    → Answers now a m w (process_incoming_response now a m w)
unfolding process_incoming_response clear_active
process_incoming_response-Answers now a m active w none_fails is_active same =
    rw (is_active, (eq_iff (get_id m) (get_id active)).1 same)
      (record {
        gone = λ row h. rw same (
            without-gone (get_id active) w.db.queue row
              (rw (delete-queue (get_id active) w none_fails) at h));
        kept = λ row n h.
            rw (delete-queue (get_id active) w none_fails)
              (without-kept (get_id active) w.db.queue row (rw same at n) h);
        cleared = ground arith;
        told = λ id. find-publish _ id w.broker;
      })
