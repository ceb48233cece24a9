-- ===== src/Server/Rpc/Settled.antt =====
-- A database whose queue is in order, and what findOutgoingRpc does with it.
use cwmp_acs_go.Prelude.{
  ℕ, zero, suc, ◌≤◌, ◌<◌, String, Option, none, some, [], ◌≡◌, ◌≢◌, refl, sym, ap, subst, arith,
  ltb, In, All, All-In, inl, inr, Bool-cases, Option-cases,
}
use cwmp_acs_go.Cwmp.Structs.{Message}
use cwmp_acs_go.Server.Build.{Json}
use cwmp_acs_go.Server.Database.{
  Db, QueueRow, pending, nothing, pending_of, fetch_queued_rpc, delete_queued_rpc, first_queued,
  count_send, without,
}
use cwmp_acs_go.Server.Database.Rows.{
  IsRising, IsRising-same, IsRising-without, IsRising-count_send, All-without, All-count_send,
  All-without-count_send, first_queued-In, one_more,
}
use cwmp_acs_go.Server.Database.Queue.{size, skip-shrinks}
use cwmp_acs_go.Server.Rpc.{rebuilt, outgoing_loop, enough, find_outgoing_rpc}

-- The message of a row can be built, and has been handed out at most six times.
abbrev pub IsSound : Json → QueueRow → Type 0
IsSound json r = (rebuilt json (pending_of r) ≢ none) × (r.send_count ≤ 6)

-- A settled database: no call of it is to fail, the ids of the rows rise up to the next one, and every
-- row is sound.
pub record IsSettled (json : Json) (d : Db) : Type 0 where
  pub calm : d.outcomes ≡ []
  pub rising : IsRising 0 d.next_id d.queue
  pub sound : All (IsSound json) d.queue

-- Selecting and counting, while nothing fails.
abbrev pub counted : QueueRow → Db → Db
counted r d = record d { queue = count_send r.id d.queue }

abbrev pub skipped : QueueRow → Db → Db
skipped r d = record d { queue = without r.message_id (count_send r.id d.queue) }

pub fetch-some :
    (device : String) (d : Db) (r : QueueRow)
    → d.outcomes ≡ []
    → first_queued device d.queue ≡ some r
    → fetch_queued_rpc device d ≡ (pending (pending_of r), counted r d)
unfolding fetch_queued_rpc
fetch-some device d r calm first = rw (calm, first) refl

pub fetch-none :
    (device : String) (d : Db)
    → d.outcomes ≡ []
    → first_queued device d.queue ≡ none
    → fetch_queued_rpc device d ≡ (nothing, d)
unfolding fetch_queued_rpc
fetch-none device d calm first = rw (calm, first) refl

pub delete_calm :
    (id : String) (d : Db)
    → d.outcomes ≡ []
    → (delete_queued_rpc id d).1 ≡ record d { queue = without id d.queue }
unfolding delete_queued_rpc
delete_calm id d calm = rw calm refl

module _ (json : Json) where
  row-IsSound : (d : Db) (r : QueueRow) → IsSettled json d → In r d.queue → IsSound json r
  row-IsSound d r s h = All-In (IsSound json) r d.queue s.sound h

  -- The row that was selected is handed out once more.
  counted-IsSettled :
      (device : String) (d : Db) (r : QueueRow)
      → first_queued device d.queue ≡ some r
      → r.send_count ≤ 5
      → IsSettled json d
      → IsSettled json (counted r d)
  counted-IsSettled device d r first few s = record {
    calm = s.calm;
    rising = IsRising-count_send r.id 0 d.next_id d.queue s.rising;
    sound =
        All-count_send (IsSound json) r.id d.queue
          (λ q i e.
            let same : r ≡ q =
              IsRising-same 0 d.next_id d.queue r q s.rising
                (first_queued-In device d.queue r first) i (sym e) in
            subst (λ x. IsSound json (one_more x)) same
              ((row-IsSound d r s (first_queued-In device d.queue r first)).0, omega arith))
          s.sound;
  }

  -- The row that was selected is counted, and dropped with all that share its message id.
  skipped-IsSettled :
      (device : String) (d : Db) (r : QueueRow)
      → first_queued device d.queue ≡ some r
      → IsSettled json d
      → IsSettled json (skipped r d)
  skipped-IsSettled device d r first s = record {
    calm = s.calm;
    rising =
        IsRising-without r.message_id 0 d.next_id (count_send r.id d.queue)
          (IsRising-count_send r.id 0 d.next_id d.queue s.rising);
    sound =
        All-without-count_send (IsSound json) r.id r.message_id d.queue
          (λ q i e.
            ap (λ (x : QueueRow). x.message_id)
              (IsRising-same 0 d.next_id d.queue q r s.rising i
                (first_queued-In device d.queue r first) e))
          s.sound;
  }

  pub delete-IsSettled :
      (id : String) (d : Db) → IsSettled json d → IsSettled json (delete_queued_rpc id d).1
  delete-IsSettled id d s = rw (delete_calm id d s.calm) (record {
    calm = s.calm;
    rising = IsRising-without id 0 d.next_id d.queue s.rising;
    sound = All-without (IsSound json) id d.queue s.sound;
  })

  -- The database is left settled, and a message goes out unless none is left for the device.
  pub record Delivers (device : String) (r : Option Message × Db) : Type 0 where
    pub settled : IsSettled json r.1
    pub drained : r.0 ≡ none → first_queued device r.1.queue ≡ none

  outgoing_loop-Delivers :
      (fuel : ℕ) (device : String) (d : Db)
      → size d < fuel
      → IsSettled json d
      → (r : Option Message × Db) × (outgoing_loop json fuel device d ≡ some r) × Delivers device r
  unfolding outgoing_loop
  outgoing_loop-Delivers zero device d h s = absurd (omega arith)
  outgoing_loop-Delivers (suc fuel) device d h s =
      elim (Option-cases (first_queued device d.queue)) [
        | inl n ↦ (
          (none, d),
          rw (fetch-none device d s.calm n) refl,
          record { settled = s; drained = λ e. n },
        )
        | inr (r, first) ↦ elim (Bool-cases (ltb 5 r.send_count)) [
          | inr few ↦
              let build = row-IsSound d r s (first_queued-In device d.queue r first) in
              (
                (rebuilt json (pending_of r), counted r d),
                rw (fetch-some device d r s.calm first, few) refl,
                record {
                  settled = counted-IsSettled device d r first (ground arith) s;
                  drained = λ e. absurd (build.0 e);
                },
              )
          | inl many ↦
              let fetch = fetch-some device d r s.calm first in
              let delete = delete_calm r.message_id (counted r d) s.calm in
              let shorter : size (skipped r d) < size d =
                rw (fetch, delete) at
                  (skip-shrinks device d (pending_of r) (ap (λ x. x.0) fetch)) in
              rw (fetch, many, delete)
                (outgoing_loop-Delivers fuel device (skipped r d) (omega (arith, shorter, h))
                  (skipped-IsSettled device d r first s))
        ]
      ]

  pub find_outgoing_rpc-Delivers :
      (device : String) (d : Db)
      → IsSettled json d
      → Delivers device (find_outgoing_rpc json device d)
  unfolding find_outgoing_rpc
  find_outgoing_rpc-Delivers device d s =
      let (r, loop, delivers) = outgoing_loop-Delivers (enough d) device d (omega arith) s in
      rw loop delivers
