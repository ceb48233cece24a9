-- ===== src/Server/Database/Fifo.antt =====
-- The table rpc_queue as what it stands for: the messages that wait for a device, oldest first.
pub mod Refines
use cwmp_acs_go.Prelude.{
  ℕ, suc, ◌+◌, ◌≤◌, ◌<◌, String, Option, none, some, List, [], ◌∷◌, ◌++◌, ◌≡◌, refl, sym, ap, ◌∙◌,
  true, false, not, subst, arith, eq_iff, ◌==◌, eqb, In, inl, inr, Bool-cases, if◌then◌else◌,
}
use cwmp_acs_go.Server.Database.{
  QueueRow, PendingMessage, pending_of, first_queued, count_send, without,
}
use cwmp_acs_go.Server.Database.Rows.{IsRising, IsRising-low, IsRising-member, first_queued-In}

unfoldable pub waiting : String → List QueueRow → List PendingMessage
waiting device [] = []
waiting device (r ∷ rows) =
    let rest = waiting device rows in if r.device_id == device then pending_of r ∷ rest else rest

unfoldable pub remove : String → List PendingMessage → List PendingMessage
remove id [] = []
remove id (m ∷ ms) = let rest = remove id ms in if m.message_id == id then rest else m ∷ rest

abbrev pub sent_once_more : PendingMessage → PendingMessage
sent_once_more m = record m { send_count = m.send_count + 1 }

pub waiting-append :
    (device : String) (rows : List QueueRow) (r : QueueRow)
    → waiting device (rows ++ r ∷ []) ≡ (
        if r.device_id == device
        then waiting device rows ++ pending_of r ∷ []
        else waiting device rows)
unfolding waiting
waiting-append device [] r = ground arith
waiting-append device (q ∷ rows) r = ground (arith, waiting-append device rows r)

pub waiting-without :
    (device id : String) (rows : List QueueRow)
    → waiting device (without id rows) ≡ remove id (waiting device rows)
unfolding waiting without remove
waiting-without device id [] = refl
waiting-without device id (r ∷ rows) = ground (arith, waiting-without device id rows)

pub waiting-none :
    (device : String) (rows : List QueueRow)
    → first_queued device rows ≡ none
    → waiting device rows ≡ []
unfolding waiting first_queued
waiting-none device [] h = refl
waiting-none device (r ∷ rows) h = elim (Bool-cases (r.device_id == device)) [
  | inl e ↦ absurd (let no : some r ≡ none = rw e at h in cc)
  | inr n ↦ rw n (waiting-none device rows (rw n at h))
]

-- Rows of later ids are not counted.
count_send-later :
    (n high : ℕ) (rows : List QueueRow) → IsRising (suc n) high rows → count_send n rows ≡ rows
unfolding count_send
count_send-later n high [] h = refl
count_send-later n high (r ∷ rows) (le, rising) =
    let later : eqb r.id n ≡ false = ground arith in
    rw
      (
        later,
        count_send-later n high rows
            (IsRising-low (suc n) (suc r.id) high rows (omega arith) rising),
      )
      refl

-- The selected row is the first that waits, and counting it counts the first that waits.
pub record Counts (device : String) (rows : List QueueRow) (r : QueueRow) : Type 0 where
  pub later : List PendingMessage
  pub before : waiting device rows ≡ pending_of r ∷ later
  pub after : waiting device (count_send r.id rows) ≡ sent_once_more (pending_of r) ∷ later

pub waiting-Counts :
    (device : String) (low high : ℕ) (rows : List QueueRow) (r : QueueRow)
    → IsRising low high rows
    → first_queued device rows ≡ some r
    → Counts device rows r
unfolding waiting first_queued count_send
waiting-Counts device low high [] r rising h = cc
waiting-Counts device low high (q ∷ rows) r (le, rising) h =
    elim (Bool-cases (q.device_id == device)) [
      | inl e ↦
          let k : some q ≡ some r = rw e at h in
          let same : q ≡ r = cc in
          subst (λ x. Counts device (q ∷ rows) x) same
            (record {
              later = waiting device rows;
              before = rw e refl;
              after =
                  let itself : eqb q.id q.id ≡ true = ground arith in
                  rw (itself, count_send-later q.id high rows rising, e) refl;
            })
      | inr n ↦
          let k : first_queued device rows ≡ some r = rw n at h in
          let c = waiting-Counts device (suc q.id) high rows r rising k in
          let above =
            IsRising-member (suc q.id) high rows r rising (first_queued-In device rows r k) in
          let other : eqb q.id r.id ≡ false = ground (arith, above) in
          record {
            later = c.later;
            before = rw (n, c.before) refl;
            after = rw (other, n, c.after) refl;
          }
    ]

-- For the other devices nothing changes.
pub waiting-count_send :
    (device : String) (low high : ℕ) (rows : List QueueRow) (r : QueueRow)
    → IsRising low high rows
    → In r rows
    → (r.device_id == device) ≡ false
    → waiting device (count_send r.id rows) ≡ waiting device rows
unfolding waiting count_send
waiting-count_send device low high [] r rising h other = absurd h
waiting-count_send device low high (q ∷ rows) r (le, rising) (inl e) other =
    let later : count_send r.id rows ≡ rows = rw e at (count_send-later q.id high rows rising) in
    let itself : eqb r.id r.id ≡ true = ground arith in rw (e, itself, other, later) refl
waiting-count_send device low high (q ∷ rows) r (le, rising) (inr h) other =
    let above = IsRising-member (suc q.id) high rows r rising h in
    let different : eqb q.id r.id ≡ false = ground (arith, above) in
    rw (different, waiting-count_send device (suc q.id) high rows r rising h other) refl
