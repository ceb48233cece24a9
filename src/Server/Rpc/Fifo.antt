-- ===== src/Server/Rpc/Fifo.antt =====
-- findOutgoingRpc as an operation on the messages that wait for a device.
use cwmp_acs_go.Prelude.{
  ℕ, zero, suc, ◌≤◌, ◌<◌, String, Option, none, some, List, [], ◌∷◌, ◌≡◌, refl, sym, ap, ◌∙◌, subst,
  arith, eq_refl, true, ltb, inl, inr, Bool-cases, Option-cases,
}
use cwmp_acs_go.Cwmp.Structs.{Message}
use cwmp_acs_go.Server.Build.{Json}
use cwmp_acs_go.Server.Database.{Db, QueueRow, PendingMessage, pending_of, first_queued, count_send}
use cwmp_acs_go.Server.Database.Rows.{IsRising, IsRising-without, IsRising-count_send}
use cwmp_acs_go.Server.Database.Queue.{size, skip-shrinks}
use cwmp_acs_go.Server.Database.Fifo.{
  remove, sent_once_more, waiting-none, waiting-without, waiting-Counts,
}
use cwmp_acs_go.Server.Database.Fifo.Refines.{queue_of}
use cwmp_acs_go.Server.Rpc.{rebuilt, outgoing_loop, enough, find_outgoing_rpc}
use cwmp_acs_go.Server.Rpc.Settled.{fetch-some, fetch-none, delete_calm, counted, skipped}

-- What is handed out from a queue, and the queue behind it: nothing from an empty queue; the first
-- message, if it has been sent at most five times; else what is handed out once it is given up.
pub data Next (json : Json)
    : List PendingMessage → Option Message → List PendingMessage → Type 0 where
  none_left : Next json [] none []
  hands_out :
      (m : PendingMessage) (later : List PendingMessage)
      → m.send_count ≤ 5
      → Next json (m ∷ later) (rebuilt json m) (sent_once_more m ∷ later)
  gives_up :
      (m : PendingMessage) (later behind : List PendingMessage) (o : Option Message)
      → 5 < m.send_count
      → Next json (remove m.message_id later) o behind
      → Next json (m ∷ later) o behind

-- A message that can be sent is what comes next.
pub Next-first :
    (json : Json) (m : PendingMessage) (later behind : List PendingMessage) (o : Option Message)
    → Next json (m ∷ later) o behind
    → m.send_count ≤ 5
    → o ≡ rebuilt json m
Next-first json m later _ _ (hands_out _ _ few) h = refl
Next-first json m later behind o (gives_up _ _ _ _ many next) h = absurd (omega (arith, many, h))

remove-front :
    (m : PendingMessage) (later : List PendingMessage)
    → remove m.message_id (sent_once_more m ∷ later) ≡ remove m.message_id later
unfolding remove
remove-front m later = rw (eq_refl m.message_id) refl

module _ (json : Json) (device : String) where
  -- A round that gives the first message up.
  outgoing_loop-skip :
      (fuel : ℕ) (d : Db) (r : QueueRow) (result : Option Message × Db)
      → d.outcomes ≡ []
      → first_queued device d.queue ≡ some r
      → ltb 5 r.send_count ≡ true
      → outgoing_loop json fuel device (skipped r d) ≡ some result
      → outgoing_loop json (suc fuel) device d ≡ some result
  unfolding outgoing_loop
  outgoing_loop-skip fuel d r result calm first many h =
      rw (fetch-some device d r calm first, many, delete_calm r.message_id (counted r d) calm) h

  outgoing_loop-Next :
      (fuel : ℕ) (d : Db)
      → size d < fuel
      → d.outcomes ≡ []
      → IsRising 0 d.next_id d.queue
      → (r : Option Message × Db) × (outgoing_loop json fuel device d ≡ some r)
        × Next json (queue_of d device) r.0 (queue_of r.1 device)
  unfolding outgoing_loop
  outgoing_loop-Next zero d h calm rising = absurd (omega arith)
  outgoing_loop-Next (suc fuel) d h calm rising =
      elim (Option-cases (first_queued device d.queue)) [
        | inl n ↦
            let empty = waiting-none device d.queue n in
            ((none, d), rw (fetch-none device d calm n) refl, rw empty none_left)
        | inr (r, first) ↦
            let c = waiting-Counts device 0 d.next_id d.queue r rising first in
            elim (Bool-cases (ltb 5 r.send_count)) [
              | inr few ↦ (
                (rebuilt json (pending_of r), counted r d),
                rw (fetch-some device d r calm first, few) refl,
                rw (c.before, c.after) (hands_out (pending_of r) c.later (ground arith)),
              )
              | inl many ↦
                  let fetch = fetch-some device d r calm first in
                  let delete = delete_calm r.message_id (counted r d) calm in
                  let shorter : size (skipped r d) < size d =
                    rw (fetch, delete) at
                      (skip-shrinks device d (pending_of r) (ap (λ x. x.0) fetch)) in
                  let (result, loop, next) =
                    outgoing_loop-Next fuel (skipped r d) (omega (arith, shorter, h)) calm (
                      IsRising-without r.message_id 0 d.next_id (count_send r.id d.queue)
                        (IsRising-count_send r.id 0 d.next_id d.queue rising)) in
                  let left : queue_of (skipped r d) device ≡ remove r.message_id c.later =
                    waiting-without device r.message_id (count_send r.id d.queue)
                    ∙ ap (remove r.message_id) c.after
                    ∙ remove-front (pending_of r) c.later in
                  (
                    result,
                    outgoing_loop-skip fuel d r result calm first many loop,
                    subst (λ ms. Next json ms result.0 (queue_of result.1 device)) (sym c.before)
                        (gives_up (pending_of r) c.later _ _ (ground arith) (
                          subst (λ ms. Next json ms result.0 (queue_of result.1 device)) left
                            next)),
                  )
            ]
      ]

  -- If no call of the database is to fail and the ids of the rows in the queue rise up to the next one,
  -- findOutgoingRpc hands out what the device's queue has next: the first message that was handed out at
  -- most five times before, rebuilt, with its count raised by one; and it removes all that it passes over.
  pub find_outgoing_rpc-Next :
      (d : Db)
      → d.outcomes ≡ []
      → IsRising 0 d.next_id d.queue
      → Next json
          (queue_of d device)
          (find_outgoing_rpc json device d).0
          (queue_of (find_outgoing_rpc json device d).1 device)
  unfolding find_outgoing_rpc
  find_outgoing_rpc-Next d calm rising =
      let (r, loop, next) = outgoing_loop-Next (enough d) d (omega arith) calm rising in
      rw loop next
