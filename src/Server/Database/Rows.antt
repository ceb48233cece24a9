-- ===== src/Server/Database/Rows.antt =====
-- The rows of rpc_queue: their ids rise, and the two updates change what they are meant to change.
use cwmp_acs_go.Prelude.{
  ℕ, suc, ◌+◌, ◌≤◌, String, some, List, [], ◌∷◌, ◌++◌, ◌≡◌, refl, sym, ap, ◌∙◌, true, arith, eq_iff,
  ◌==◌, eqb, In, All, inl, inr, Bool-cases,
}
use cwmp_acs_go.Server.Database.{QueueRow, first_queued, count_send, without}

-- The ids rise from row to row, from `low` on and below `high`.
abbrev pub IsRising : ℕ → ℕ → List QueueRow → Type 0
IsRising low high [] = low ≤ high
IsRising low high (r ∷ rows) = (low ≤ r.id) × IsRising (suc r.id) high rows

pub IsRising-low :
    (k low high : ℕ) (rows : List QueueRow)
    → k ≤ low
    → IsRising low high rows
    → IsRising k high rows
IsRising-low k low high [] h rising = omega arith
IsRising-low k low high (r ∷ rows) h (le, rising) = (omega arith, rising)

pub IsRising-without :
    (id : String) (low high : ℕ) (rows : List QueueRow)
    → IsRising low high rows
    → IsRising low high (without id rows)
unfolding without
IsRising-without id low high [] h = h
IsRising-without id low high (r ∷ rows) (le, rising) =
    let rest = IsRising-without id (suc r.id) high rows rising in
    elim (Bool-cases (r.message_id == id)) [
      | inl e ↦ rw e (IsRising-low low (suc r.id) high (without id rows) (omega arith) rest)
      | inr n ↦ rw n (le, rest)
    ]

pub IsRising-count_send :
    (n low high : ℕ) (rows : List QueueRow)
    → IsRising low high rows
    → IsRising low high (count_send n rows)
unfolding count_send
IsRising-count_send n low high [] h = h
IsRising-count_send n low high (r ∷ rows) (le, rising) =
    let rest = IsRising-count_send n (suc r.id) high rows rising in
    elim (Bool-cases (eqb r.id n)) [ inl e ↦ rw e (le, rest) | inr m ↦ rw m (le, rest) ]

pub IsRising-append :
    (low high : ℕ) (rows : List QueueRow) (r : QueueRow)
    → r.id ≡ high
    → IsRising low high rows
    → IsRising low (suc high) (rows ++ r ∷ [])
IsRising-append low high [] r e h = (omega arith, omega arith)
IsRising-append low high (q ∷ rows) r e (le, rising) =
    (le, IsRising-append (suc q.id) high rows r e rising)

pub IsRising-member :
    (low high : ℕ) (rows : List QueueRow) (r : QueueRow)
    → IsRising low high rows
    → In r rows
    → low ≤ r.id
IsRising-member low high [] r rising h = absurd h
IsRising-member low high (q ∷ rows) r (le, rising) (inl e) = rw (sym e) le
IsRising-member low high (q ∷ rows) r (le, rising) (inr h) =
    omega (arith, IsRising-member (suc q.id) high rows r rising h)

-- Two rows with one id are one row.
pub IsRising-same :
    (low high : ℕ) (rows : List QueueRow) (r q : QueueRow)
    → IsRising low high rows
    → In r rows
    → In q rows
    → r.id ≡ q.id
    → r ≡ q
IsRising-same low high [] r q rising a b e = absurd a
IsRising-same low high (p ∷ rows) r q (le, rising) (inl a) (inl b) e = sym a ∙ b
IsRising-same low high (p ∷ rows) r q (le, rising) (inl a) (inr b) e =
    absurd (
      omega (arith, IsRising-member (suc p.id) high rows q rising b, ap (λ (x : QueueRow). x.id) a))
IsRising-same low high (p ∷ rows) r q (le, rising) (inr a) (inl b) e =
    absurd (
      omega (arith, IsRising-member (suc p.id) high rows r rising a, ap (λ (x : QueueRow). x.id) b))
IsRising-same low high (p ∷ rows) r q (le, rising) (inr a) (inr b) e =
    IsRising-same (suc p.id) high rows r q rising a b e

pub first_queued-In :
    (device : String) (rows : List QueueRow) (r : QueueRow)
    → first_queued device rows ≡ some r
    → In r rows
unfolding first_queued
first_queued-In device [] r h = cc
first_queued-In device (q ∷ rows) r h = elim (Bool-cases (q.device_id == device)) [
  | inl e ↦ inl (let k : some q ≡ some r = rw e at h in cc)
  | inr n ↦ inr (first_queued-In device rows r (rw n at h))
]

pub first_queued-device :
    (device : String) (rows : List QueueRow) (r : QueueRow)
    → first_queued device rows ≡ some r
    → r.device_id ≡ device
unfolding first_queued
first_queued-device device [] r h = cc
first_queued-device device (q ∷ rows) r h =
    ground (arith, eq_iff q.device_id device, first_queued-device device rows r)

-- A property of rows that deletions keep, since they only drop rows.
pub All-without :
    (P : QueueRow → Type 0) (id : String) (rows : List QueueRow)
    → All P rows
    → All P (without id rows)
unfolding without
All-without P id [] h = tt
All-without P id (r ∷ rows) (p, h) =
    let rest = All-without P id rows h in
    elim (Bool-cases (r.message_id == id)) [ inl e ↦ rw e rest | inr n ↦ rw n (p, rest) ]

abbrev pub one_more : QueueRow → QueueRow
one_more r = record r { send_count = r.send_count + 1 }

-- A property that holds of each row, counted where the count hits it.
pub All-count_send :
    (P : QueueRow → Type 0) (n : ℕ) (rows : List QueueRow)
    → ((r : QueueRow) → In r rows → r.id ≡ n → P (one_more r))
    → All P rows
    → All P (count_send n rows)
unfolding count_send
All-count_send P n [] hit h = tt
All-count_send P n (r ∷ rows) hit (p, h) =
    let rest = All-count_send P n rows (λ q i. hit q (inr i)) h in
    elim (Bool-cases (eqb r.id n)) [
      | inl e ↦ rw e (hit r (inl refl) (ground arith), rest)
      | inr m ↦ rw m (p, rest)
    ]

-- The same where the counted rows are then deleted.
pub All-without-count_send :
    (P : QueueRow → Type 0) (n : ℕ) (id : String) (rows : List QueueRow)
    → ((r : QueueRow) → In r rows → r.id ≡ n → r.message_id ≡ id)
    → All P rows
    → All P (without id (count_send n rows))
unfolding count_send without
All-without-count_send P n id [] hit h = tt
All-without-count_send P n id (r ∷ rows) hit (p, h) =
    let rest = All-without-count_send P n id rows (λ q i. hit q (inr i)) h in
    elim (Bool-cases (eqb r.id n)) [
      | inl e ↦
          let same : (r.message_id == id) ≡ true =
            (eq_iff r.message_id id).1 (hit r (inl refl) (ground arith)) in
          rw (e, same) rest
      | inr m ↦ elim (Bool-cases (r.message_id == id)) [
        | inl gone ↦ rw (m, gone) rest
        | inr stays ↦ rw (m, stays) (p, rest)
      ]
    ]
