-- ===== src/Server/Database/Queue.antt =====
-- The table rpc_queue: which row a fetch takes, and what fetches and deletions do to the size.
use cwmp_acs_go.Prelude.{
  ℕ, ◌+◌, ◌≤◌, ◌<◌, String, Bool, true, false, none, some, List, [], ◌∷◌, ◌++◌, ◌≡◌, refl, arith,
  eq_iff, eq_refl, ◌⊎◌, ◌==◌, if◌then◌else◌, length,
}
use cwmp_acs_go.Server.Database.{
  Db, QueueRow, call, first_queued, count_send, without, fetch_queued_rpc, delete_queued_rpc,
  queue_rpc, pending, nothing, PendingMessage, pending_of, nullable_string, string_or_empty,
  FetchResult,
}

length-count_send : (id : ℕ) (rows : List QueueRow) → length (count_send id rows) ≡ length rows
unfolding count_send
length-count_send id [] = refl
length-count_send id (r ∷ rows) = omega (arith, length-count_send id rows)

length-without-count_send :
    (n : ℕ) (id : String) (rows : List QueueRow)
    → length (without id (count_send n rows)) ≡ length (without id rows)
unfolding count_send without
length-without-count_send n id [] = refl
length-without-count_send n id (r ∷ rows) = ground (arith, length-without-count_send n id rows)

length-without-le : (id : String) (rows : List QueueRow) → length (without id rows) ≤ length rows
unfolding without
length-without-le id [] = omega arith
length-without-le id (r ∷ rows) = ground (arith, length-without-le id rows)

-- The row that is selected is deleted by its message id.
first_queued-shrinks :
    (device : String) (rows : List QueueRow) (r : QueueRow)
    → first_queued device rows ≡ some r
    → length (without r.message_id rows) < length rows
unfolding first_queued without
first_queued-shrinks device [] r e = cc
first_queued-shrinks device (q ∷ rows) r e = ground (
  arith,
  first_queued-shrinks device rows r,
  length-without-le r.message_id rows,
  eq_refl r.message_id,
)

abbrev pub size : Db → ℕ
size d = length d.queue + length d.outcomes

outcomes-call : (d : Db) → length (call d).1.outcomes ≤ length d.outcomes
unfolding call
outcomes-call d = ground arith

-- A fetch that returns a message has selected the first row of the device, and has counted the send.
pub record Fetches (device : String) (d d' : Db) (pm : PendingMessage) : Type 0 where
  pub row : QueueRow
  pub selected : first_queued device d.queue ≡ some row
  pub returned : pm ≡ pending_of row
  pub counted : d'.queue ≡ count_send row.id d.queue

pub fetch_queued_rpc-Fetches :
    (device : String) (d : Db) (pm : PendingMessage)
    → (fetch_queued_rpc device d).0 ≡ pending pm
    → Fetches device d (fetch_queued_rpc device d).1 pm
unfolding fetch_queued_rpc
fetch_queued_rpc-Fetches device d pm e =
    elim (first_queued device d.queue)
        as (λ o.
          first_queued device d.queue ≡ o → Fetches device d (fetch_queued_rpc device d).1 pm) [
            | none ↦ λ s. absurd (ground arith)
            | some r ↦ λ s. record {
              row = r;
              selected = s;
              returned = ground arith;
              counted = ground arith;
            }
          ]
      refl

fetch_queued_rpc-outcomes :
    (device : String) (d : Db) → length (fetch_queued_rpc device d).1.outcomes ≤ length d.outcomes
unfolding fetch_queued_rpc
fetch_queued_rpc-outcomes device d = ground arith

pub first_queued-append :
    (device : String) (rows : List QueueRow) (r : QueueRow)
    → first_queued device (rows ++ r ∷ []) ≡ elim (first_queued device rows) [
      | none ↦ if r.device_id == device then some r else none
      | some q ↦ some q
    ]
unfolding first_queued
first_queued-append device [] r = refl
first_queued-append device (q ∷ rows) r = ground (arith, first_queued-append device rows r)

-- What a fetch returns once one more message stands at the end of the queue.
abbrev pub behind : FetchResult → Bool → PendingMessage → FetchResult
behind (pending first) mine message = pending first
behind FetchResult.failed mine message = FetchResult.failed
behind nothing true message = pending message
behind nothing false message = nothing

pub string_or_empty-nullable_string : (s : String) → string_or_empty (nullable_string s) ≡ s
unfolding nullable_string
string_or_empty-nullable_string s = ground (arith, eq_iff s "")

-- While the database does not fail, a message that is queued waits behind those of its device: a
-- fetch for a device returns what it would have returned before, and the new message, with its
-- parameters and a count of 0, only if nothing was queued for the device and the message is for it.
pub fetch_queued_rpc-queue_rpc :
    (device to id name parameters : String) (d : Db)
    → d.outcomes ≡ []
    → (fetch_queued_rpc device (queue_rpc to id name parameters d).1).0
      ≡ behind
          (fetch_queued_rpc device d).0
          (to == device)
          (record { message_id = id; message_name = name; parameters = parameters; send_count = 0 })
unfolding fetch_queued_rpc queue_rpc
fetch_queued_rpc-queue_rpc device to id name parameters d e = ground (
  arith,
  string_or_empty-nullable_string parameters,
  first_queued-append device d.queue (record {
    id = d.next_id;
    message_id = id;
    device_id = to;
    message_name = name;
    parameters = nullable_string parameters;
    send_count = 0;
  }),
)

pub fetch_queued_rpc-shrinks :
    (device : String) (d : Db) (pm : PendingMessage)
    → (fetch_queued_rpc device d).0 ≡ pending pm
    → length (without pm.message_id (fetch_queued_rpc device d).1.queue) < length d.queue
fetch_queued_rpc-shrinks device d pm e =
    let f = fetch_queued_rpc-Fetches device d pm e in
    let shorter = first_queued-shrinks device d.queue f.row f.selected in
    rw (f.counted, f.returned)
      (rw (length-without-count_send f.row.id f.row.message_id d.queue) shorter)

delete_queued_rpc-size :
    (id : String) (d : Db)
    → (length (delete_queued_rpc id d).1.outcomes < length d.outcomes)
      ⊎ ((length (delete_queued_rpc id d).1.outcomes ≤ length d.outcomes)
          × (length (delete_queued_rpc id d).1.queue ≡ length (without id d.queue)))
unfolding delete_queued_rpc
delete_queued_rpc-size id d = ground arith

length-delete_queued_rpc :
    (id : String) (d : Db) → length (delete_queued_rpc id d).1.queue ≤ length d.queue
unfolding delete_queued_rpc
length-delete_queued_rpc id d = ground (arith, length-without-le id d.queue)

length-fetch_queued_rpc :
    (device : String) (d : Db) → length (fetch_queued_rpc device d).1.queue ≡ length d.queue
unfolding fetch_queued_rpc
length-fetch_queued_rpc device d = grind (arith, length-count_send)

-- A round of findOutgoingRpc that goes on leaves less to do.
pub skip-shrinks :
    (device : String) (d : Db) (pm : PendingMessage)
    → (fetch_queued_rpc device d).0 ≡ pending pm
    → size (delete_queued_rpc pm.message_id (fetch_queued_rpc device d).1).1 < size d
skip-shrinks device d pm e =
    let d₁ = (fetch_queued_rpc device d).1 in
    omega (
      arith,
      fetch_queued_rpc-shrinks device d pm e,
      fetch_queued_rpc-outcomes device d,
      length-fetch_queued_rpc device d,
      length-delete_queued_rpc pm.message_id d₁,
      delete_queued_rpc-size pm.message_id d₁,
    )
