-- ===== src/Server/Session/Consistent.antt =====
-- The maps of active sessions agree with the sessions that they point to.
use cwmp_acs_go.Prelude.{
  ℕ, ◌<◌, String, true, none, some, List, [], ◌∷◌, ◌≡◌, ◌≢◌, ◌⊎◌, sym, ap, ◌∙◌, subst, arith,
  eq_iff, ◌==◌, eqb, if◌then◌else◌, Bool-cases, inl, inr,
}
use cwmp_acs_go.Server.Session.{
  SessionState, initiating, receiving_cpe_rpcs, sending_acs_rpcs, SessionInfo, Address, Sessions,
  lookup, delete, insert, write, modify, allocate, register, terminate,
}

pub lookup-delete :
    (k j : String) (m : List (String × Address))
    → lookup j (delete k m) ≡ (if k == j then none else lookup j m)
unfolding lookup delete
lookup-delete k j [] = ground arith
lookup-delete k j ((i, a) ∷ m) =
    ground (arith, lookup-delete k j m, eq_iff i k, eq_iff i j, eq_iff k j)

pub lookup-insert :
    (k j : String) (a : Address) (m : List (String × Address))
    → lookup j (insert k a m) ≡ (if k == j then some a else lookup j m)
unfolding lookup
lookup-insert k j a m = ground (arith, lookup-delete k j m)

-- The states of a session that is in the maps.
abbrev pub IsActive : SessionState → Type 0
IsActive initiating = Unit {0}
IsActive receiving_cpe_rpcs = Unit {0}
IsActive sending_acs_rpcs = Unit {0}
IsActive _ = ⊥

-- Each entry leads to an allocated session that is active and bears the entry's key.
pub record IsConsistent (s : Sessions) : Type 0 where
  pub by_id :
      (k : String) (a : Address)
      → lookup k s.by_id ≡ some a
      → (a < s.next) × ((s.heap a).session_id ≡ k) × IsActive (s.heap a).session_state
  pub by_device :
      (k : String) (a : Address)
      → lookup k s.by_device ≡ some a
      → (a < s.next) × ((s.heap a).device_id_string ≡ k) × IsActive (s.heap a).session_state

-- A change of a session that keeps its two keys, and an active session active.
pub record IsMild (f : SessionInfo → SessionInfo) : Type 0 where
  pub same_id : (s : SessionInfo) → (f s).session_id ≡ s.session_id
  pub same_device : (s : SessionInfo) → (f s).device_id_string ≡ s.device_id_string
  pub active : (s : SessionInfo) → IsActive s.session_state → IsActive (f s).session_state

pub modify-id :
    (a b : Address) (f : SessionInfo → SessionInfo) (s : Sessions)
    → IsMild f
    → ((modify a f s).heap b).session_id ≡ (s.heap b).session_id
modify-id a b f s mild = ground (arith, mild.same_id (s.heap a))

pub modify-device :
    (a b : Address) (f : SessionInfo → SessionInfo) (s : Sessions)
    → IsMild f
    → ((modify a f s).heap b).device_id_string ≡ (s.heap b).device_id_string
modify-device a b f s mild = ground (arith, mild.same_device (s.heap a))

modify-IsActive :
    (a b : Address) (f : SessionInfo → SessionInfo) (s : Sessions)
    → IsMild f
    → IsActive (s.heap b).session_state
    → IsActive ((modify a f s).heap b).session_state
modify-IsActive a b f s mild h = elim (Bool-cases (eqb b a)) [
  | inl e ↦
      rw e (mild.active (s.heap a) (subst (λ x. IsActive (s.heap x).session_state) (same b a e) h))
  | inr n ↦ rw n h
]
  where
    same : (x y : ℕ) → eqb x y ≡ true → x ≡ y
    same x y e = ground arith

pub modify-IsConsistent :
    (a : Address) (f : SessionInfo → SessionInfo) (s : Sessions)
    → IsMild f
    → IsConsistent s
    → IsConsistent (modify a f s)
modify-IsConsistent a f s mild c = record {
  by_id = λ k b h.
      let (below, id, active) = c.by_id k b h in
      (below, modify-id a b f s mild ∙ id, modify-IsActive a b f s mild active);
  by_device = λ k b h.
      let (below, id, active) = c.by_device k b h in
      (below, modify-device a b f s mild ∙ id, modify-IsActive a b f s mild active);
}

lookup-delete-some :
    (k j : String) (b : Address) (m : List (String × Address))
    → lookup j (delete k m) ≡ some b
    → (k ≢ j) × (lookup j m ≡ some b)
lookup-delete-some k j b m h = (
  ground (arith, lookup-delete k j m, eq_iff k j),
  ground (arith, lookup-delete k j m, eq_iff k j),
)

lookup-insert-some :
    (k j : String) (a b : Address) (m : List (String × Address))
    → lookup j (insert k a m) ≡ some b
    → ((k ≡ j) × (a ≡ b)) ⊎ (lookup j m ≡ some b)
lookup-insert-some k j a b m h = ground (arith, lookup-insert k j a m, eq_iff k j)

write_ne :
    (a b : Address) (x : SessionInfo) (heap : Address → SessionInfo)
    → b ≢ a
    → write a x heap b ≡ heap b
write_ne a b x heap h = ground arith

write_self : (a : Address) (x : SessionInfo) (heap : Address → SessionInfo) → write a x heap a ≡ x
write_self a x heap = ground arith

-- What an entry of a map says of the session that it leads to; `key` reads the key that it bears.
abbrev Leads : (SessionInfo → String) → Sessions → String → Address → Type 0
Leads key s k a = (a < s.next) × (key (s.heap a) ≡ k) × IsActive (s.heap a).session_state

Leads-terminate :
    (key : SessionInfo → String) (session_id k : String) (a b : Address) (s : Sessions)
    → key (s.heap a) ≢ k
    → Leads key s k b
    → Leads key (terminate session_id a s) k b
unfolding terminate
Leads-terminate key session_id k a b s other (below, bears, active) =
    let apart = λ (e : b ≡ a). other (ap (λ x. key (s.heap x)) (sym e) ∙ bears) in
    (below, rw (write_ne a b _ s.heap apart) bears, rw (write_ne a b _ s.heap apart) active)

-- Ending a session under its own id leaves no entry that leads to it.
pub terminate-IsConsistent :
    (session_id : String) (a : Address) (s : Sessions)
    → (s.heap a).session_id ≡ session_id
    → IsConsistent s
    → IsConsistent (terminate session_id a s)
terminate-IsConsistent session_id a s own c = record {
  by_id = λ k b h.
      let (other, was) = lookup-delete-some session_id k b s.by_id (unfold terminate in h) in
      Leads-terminate (λ i. i.session_id) session_id k a b s (λ e. other (sym own ∙ e))
        (c.by_id k b was);
  by_device = λ k b h.
      let (other, was) =
        lookup-delete-some (s.heap a).device_id_string k b s.by_device (unfold terminate in h) in
      Leads-terminate (λ i. i.device_id_string) session_id k a b s other (c.by_device k b was);
}

Leads-old :
    (key : SessionInfo → String) (session_id k : String) (info : SessionInfo) (b : Address)
    (s : Sessions)
    → Leads key s k b
    → Leads key (register session_id s.next (allocate info s)) k b
unfolding register
Leads-old key session_id k info b s (below, bears, active) =
    let apart = λ (e : b ≡ s.next). absurd {A = ⊥} (omega arith) in
    (
      omega arith,
      rw (write_ne s.next b info s.heap apart) bears,
      rw (write_ne s.next b info s.heap apart) active,
    )

Leads-new :
    (key : SessionInfo → String) (session_id k : String) (info : SessionInfo) (b : Address)
    (s : Sessions)
    → key info ≡ k
    → IsActive info.session_state
    → s.next ≡ b
    → Leads key (register session_id s.next (allocate info s)) k b
unfolding register
Leads-new key session_id k info b s bears active at =
    subst (λ x. Leads key (register session_id s.next (allocate info s)) k x) at
      (
        omega arith,
        rw (write_self s.next info s.heap) bears,
        rw (write_self s.next info s.heap) active,
      )

by_device-register :
    (session_id : String) (info : SessionInfo) (s : Sessions)
    → (register session_id s.next (allocate info s)).by_device
      ≡ insert info.device_id_string s.next s.by_device
unfolding register
by_device-register session_id info s =
    ap (λ (i : SessionInfo). insert i.device_id_string s.next s.by_device)
      (write_self s.next info s.heap)

-- Registering a new session under its own id and device keeps the maps consistent, whatever entries
-- it replaces.
pub open-IsConsistent :
    (session_id : String) (info : SessionInfo) (s : Sessions)
    → info.session_id ≡ session_id
    → IsActive info.session_state
    → IsConsistent s
    → IsConsistent (register session_id s.next (allocate info s))
open-IsConsistent session_id info s own active c = record {
  by_id = λ k b h. elim (lookup-insert-some session_id k s.next b s.by_id (unfold register in h)) [
    | inl (e, at) ↦ Leads-new (λ i. i.session_id) session_id k info b s (own ∙ e) active at
    | inr was ↦ Leads-old (λ i. i.session_id) session_id k info b s (c.by_id k b was)
  ];
  by_device = λ k b h.
      elim (lookup-insert-some info.device_id_string k s.next b s.by_device
        (rw (by_device-register session_id info s) at h)) [
          | inl (e, at) ↦ Leads-new (λ i. i.device_id_string) session_id k info b s e active at
          | inr was ↦
              Leads-old (λ i. i.device_id_string) session_id k info b s (c.by_device k b was)
        ];
}
