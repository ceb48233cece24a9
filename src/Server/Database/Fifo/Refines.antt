-- ===== src/Server/Database/Fifo/Refines.antt =====
-- QueueRPC, FetchQueuedRPC and DeleteQueuedRPC as operations on the messages that wait.
use cwmp_acs_go.Prelude.{
  String, Bool, none, List, [], ◌∷◌, ◌++◌, ◌≡◌, ◌≢◌, refl, sym, ap, ◌∙◌, arith, eq_iff, ◌==◌, ◌&&◌,
  if◌then◌else◌,
}
use cwmp_acs_go.Server.Database.{
  Db, PendingMessage, FetchResult, pending, nothing, first_queued, fetch_queued_rpc, queue_rpc,
  delete_queued_rpc,
}
use cwmp_acs_go.Server.Database.Queue.{fetch_queued_rpc-Fetches, string_or_empty-nullable_string}
use cwmp_acs_go.Server.Database.Rows.{IsRising, first_queued-In, first_queued-device}
use cwmp_acs_go.Server.Database.Calls.{new_row, Appends, appends, queue_rpc-Appends}
use cwmp_acs_go.Server.Database.Calls
use cwmp_acs_go.Server.Database.Fifo.{
  waiting, remove, sent_once_more, waiting-append, waiting-without, waiting-none, waiting-Counts,
  waiting-count_send,
}

-- What waits for a device.
abbrev pub queue_of : Db → String → List PendingMessage
queue_of d device = waiting device d.queue

-- A fetch hands out the message that has waited longest and counts the send; or none waits; or the
-- database has failed. What waits for the other devices stays.
pub data Fetches (device : String) (d : Db) : FetchResult → Db → Type 0 where
  takes :
      (m : PendingMessage) (later : List PendingMessage) (d' : Db)
      → queue_of d device ≡ m ∷ later
      → queue_of d' device ≡ sent_once_more m ∷ later
      → ((other : String) → other ≢ device → queue_of d' other ≡ queue_of d other)
      → Fetches device d (pending m) d'
  finds_none :
      (d' : Db) → queue_of d device ≡ [] → queue_of d' ≡ queue_of d → Fetches device d nothing d'
  fails : (d' : Db) → queue_of d' ≡ queue_of d → Fetches device d FetchResult.failed d'

-- What the three operations promise: QueueRPC appends, FetchQueuedRPC takes from the front, and
-- DeleteQueuedRPC removes; an operation that fails changes nothing.
pub record IsFifo (d : Db) : Type 0 where
  pub queues :
      (to id name parameters device : String)
      → queue_of (queue_rpc to id name parameters d).1 device ≡ (
          if (queue_rpc to id name parameters d).0 && (to == device)
          then queue_of d device
            ++ (record {
              message_id = id;
              message_name = name;
              parameters = parameters;
              send_count = 0;
            })
              ∷ []
          else queue_of d device)
  pub fetches :
      (device : String)
      → Fetches device d (fetch_queued_rpc device d).0 (fetch_queued_rpc device d).1
  pub deletes :
      (id device : String)
      → queue_of (delete_queued_rpc id d).1 device
        ≡ (if (delete_queued_rpc id d).0 then remove id (queue_of d device) else queue_of d device)

nothing-lem :
    (device : String) (d : Db)
    → (fetch_queued_rpc device d).0 ≡ nothing
    → (first_queued device d.queue ≡ none) × ((fetch_queued_rpc device d).1.queue ≡ d.queue)
unfolding fetch_queued_rpc
nothing-lem device d h = ground arith

failed-lem :
    (device : String) (d : Db)
    → (fetch_queued_rpc device d).0 ≡ FetchResult.failed
    → (fetch_queued_rpc device d).1.queue ≡ d.queue
unfolding fetch_queued_rpc
failed-lem device d h = ground arith

module _ (d : Db) (rising : IsRising 0 d.next_id d.queue) where
  fetched-Fetches :
      (device : String) (r : FetchResult)
      → (fetch_queued_rpc device d).0 ≡ r
      → Fetches device d r (fetch_queued_rpc device d).1
  fetched-Fetches device (pending m) h =
      let f = fetch_queued_rpc-Fetches device d m h in
      let own = first_queued-device device d.queue f.row f.selected in
      let c = waiting-Counts device 0 d.next_id d.queue f.row rising f.selected in
      takes m c.later _ (c.before ∙ ap (λ x. x ∷ c.later) (sym f.returned))
        (ap (waiting device) f.counted
          ∙ c.after
          ∙ ap (λ x. sent_once_more x ∷ c.later) (sym f.returned))
        (λ other n.
          ap (waiting other) f.counted
          ∙ waiting-count_send other 0 d.next_id d.queue f.row rising
              (first_queued-In device d.queue f.row f.selected)
              (ground (arith, own, eq_iff f.row.device_id other, n)))
  fetched-Fetches device nothing h =
      let (first, same) = nothing-lem device d h in
      finds_none _ (waiting-none device d.queue first) (λ i other. waiting other (same i))
  fetched-Fetches device FetchResult.failed h =
      fails _ (λ i other. waiting other (failed-lem device d h i))

  queued-lem :
      (to id name parameters device : String) (r : Bool × Db)
      → Appends (new_row d.next_id to id name parameters) d r
      → queue_of r.1 device ≡ (
          if r.0 && (to == device)
          then queue_of d device
            ++ (record {
              message_id = id;
              message_name = name;
              parameters = parameters;
              send_count = 0;
            })
              ∷ []
          else queue_of d device)
  queued-lem to id name parameters device _ (appends ends le) =
      waiting-append device d.queue (new_row d.next_id to id name parameters)
      ∙ rw (string_or_empty-nullable_string parameters) refl
  queued-lem to id name parameters device _ (Calls.fails ends le) = refl

  deleted-lem :
      (id device : String) (executed : Bool)
      → (delete_queued_rpc id d).0 ≡ executed
      → queue_of (delete_queued_rpc id d).1 device
        ≡ (if executed then remove id (queue_of d device) else queue_of d device)
  unfolding delete_queued_rpc
  deleted-lem id device executed h = ground (arith, waiting-without device id d.queue)

-- If the ids of the rows in the queue rise up to the next one, the queue is one first-in-first-out queue
-- per device: QueueRPC appends to the queue of its device, FetchQueuedRPC hands out the first message of
-- the device's queue and counts that send, or finds the queue empty, DeleteQueuedRPC removes the
-- messages of an id, and an operation that reports an error changes nothing.
pub queue-IsFifo : (d : Db) → IsRising 0 d.next_id d.queue → IsFifo d
queue-IsFifo d rising = record {
  queues = λ to id name parameters device.
      queued-lem d rising to id name parameters device _
        (queue_rpc-Appends to id name parameters d);
  fetches = λ device. fetched-Fetches d rising device _ refl;
  deletes = λ id device. deleted-lem d rising id device _ refl;
}
