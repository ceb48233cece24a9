-- ===== src/Cwmp/Versions/Max.antt =====
-- What MaxCommonVersion returns: the greatest supported version on offer.
use cwmp_acs_go.Prelude.{
  subst, ◌↔◌, sym, ap, ◌∙◌, ◌==◌, Bool-cases, if◌then◌else◌, ltb, ℕ, ◌≤◌, String, true, Option,
  none, some, List, [], ◌∷◌, ◌≡◌, ◌≢◌, refl, arith, ◌⊎◌, inl, inr, In, eq_iff,
}
use cwmp_acs_go.Prelude.Int.{ℤ, pos, eqb_ℤ}
use cwmp_acs_go.Cwmp.Versions.{
  CwmpVersion, unknown, v1_0, v1_1, v1_2, v1_3, v1_4, all_versions, version_major, version_minor,
  Best, no_best, consider_all, consider_entry, best_of, scanned, max_common_version,
}

abbrev pub rank : CwmpVersion → ℕ
rank unknown = 0
rank v1_0 = 1
rank v1_1 = 2
rank v1_2 = 3
rank v1_3 = 4
rank v1_4 = 5

-- The supported version that an entry names, `unknown` if none.
unfoldable pub named : Option (ℤ × ℤ) → CwmpVersion
named none = unknown
named (some (major, minor)) =
    if eqb_ℤ major (pos 1)
    then (if eqb_ℤ minor (pos 0)
        then v1_0
        else if eqb_ℤ minor (pos 1)
        then v1_1
        else if eqb_ℤ minor (pos 2)
        then v1_2
        else if eqb_ℤ minor (pos 3)
        then v1_3
        else if eqb_ℤ minor (pos 4)
        then v1_4
        else unknown)
    else unknown

abbrev later : CwmpVersion → CwmpVersion → CwmpVersion
later u v = if ltb (rank u) (rank v) then v else u

-- The loop variables are those of the best version so far.
abbrev best_at : CwmpVersion → Best
best_at unknown = no_best
best_at v = record { max_major = version_major v; max_minor = version_minor v; version = v }

named-major : (major minor : ℤ) → named (some (major, minor)) ≢ unknown → eqb_ℤ major (pos 1) ≡ true
unfolding named
named-major major minor h = elim (Bool-cases (eqb_ℤ major (pos 1))) [
  | inl e ↦ e
  | inr e ↦ absurd (h (rw e))
]

eqb-eq : (a b : ℤ) → eqb_ℤ a b ≡ true → a ≡ b
eqb-eq a b h = ground arith

eqb_self : (a : ℤ) → eqb_ℤ a a ≡ true
eqb_self a = ground arith

-- A supported version is named by its two numbers only.
named-minor :
    (major minor : ℤ) (w : CwmpVersion)
    → named (some (major, minor)) ≡ w
    → w ≢ unknown
    → eqb_ℤ minor (version_minor w) ≡ true
unfolding named
named-minor major minor w h n = ground arith

skip :
    (major minor : ℤ) (best : Best)
    → named (some (major, minor)) ≡ unknown
    → consider_all major minor best all_versions ≡ best
unfolding consider_all named
skip major minor best h = ground arith

take :
    (u w : CwmpVersion)
    → w ≢ unknown
    → consider_all (pos 1) (version_minor w) (best_at u) all_versions ≡ best_at (later u w)
unfolding consider_all
take u unknown h = absurd (h refl)
take unknown v h = refl
take v1_0 v h = refl
take u v h = refl

named-eq :
    (entry : Option (ℤ × ℤ)) (w : CwmpVersion)
    → named entry ≡ w
    → w ≢ unknown
    → entry ≡ some (version_major w, version_minor w)
named-eq none w e h = absurd (h (unfold named in sym e))
named-eq (some (major, minor)) w e h =
    let m = eqb-eq major (pos 1) (named-major major minor (λ u. h (sym e ∙ u))) in
    let n = eqb-eq minor (version_minor w) (named-minor major minor w e h) in cc

named_of : (v : CwmpVersion) → v ≢ unknown → named (some (version_major v, version_minor v)) ≡ v
unfolding named
named_of unknown h = absurd (h refl)
named_of v h = refl

known : (v : CwmpVersion) → (v ≡ unknown) ⊎ (v ≢ unknown)
known unknown = inl refl
known v1_0 = inr (ground arith)
known v = inr (ground arith)

later-unknown : (u : CwmpVersion) → later u unknown ≡ u
later-unknown unknown = refl
later-unknown u = refl

numbers :
    (u : CwmpVersion) (major minor : ℤ)
    → consider_all major minor (best_at u) all_versions
      ≡ best_at (later u (named (some (major, minor))))
numbers u major minor = elim (known (named (some (major, minor)))) [
  | inl e ↦
      skip major minor (best_at u) e
      ∙ sym (ap (λ w. best_at (later u w)) e ∙ ap best_at (later-unknown u))
  | inr n ↦
      let major_is = eqb-eq major (pos 1) (named-major major minor n) in
      let minor_is = eqb-eq minor _ (named-minor major minor _ refl n) in
      subst
        (λ a.
          consider_all a minor (best_at u) all_versions
          ≡ best_at (later u (named (some (major, minor)))))
        (sym major_is)
        (ap (λ b. consider_all (pos 1) b (best_at u) all_versions) minor_is ∙ take u _ n)
]

entry_lem :
    (u : CwmpVersion) (entry : Option (ℤ × ℤ))
    → consider_entry (best_at u) entry ≡ best_at (later u (named entry))
unfolding consider_entry named
entry_lem u none = sym (ap best_at (later-unknown u))
entry_lem u (some (major, minor)) = numbers u major minor

latest : CwmpVersion → List (Option (ℤ × ℤ)) → CwmpVersion
latest u [] = u
latest u (entry ∷ entries) = latest (later u (named entry)) entries

best_of-latest :
    (u : CwmpVersion) (entries : List (Option (ℤ × ℤ)))
    → best_of (best_at u) entries ≡ best_at (latest u entries)
unfolding best_of latest
best_of-latest u [] = refl
best_of-latest u (entry ∷ entries) =
    rw (entry_lem u entry) (best_of-latest (later u (named entry)) entries)

version-best_at : (u : CwmpVersion) → (best_at u).version ≡ u
version-best_at unknown = refl
version-best_at v = refl

empty : max_common_version "" ≡ latest unknown (scanned "")
unfolding max_common_version latest named
empty = refl

max-latest : (possible : String) → max_common_version possible ≡ latest unknown (scanned possible)
max-latest possible = elim (Bool-cases (possible == "")) [
  | inl e ↦ rw ((eq_iff possible "").0 e) empty
  | inr e ↦
      unfold max_common_version in
      rw (e, best_of-latest unknown (scanned possible)) (version-best_at _)
]

rank-later : (u v : CwmpVersion) → (rank u ≤ rank (later u v)) × (rank v ≤ rank (later u v))
rank-later u v = ground arith

rank-latest : (u : CwmpVersion) (entries : List (Option (ℤ × ℤ))) → rank u ≤ rank (latest u entries)
unfolding latest
rank-latest u [] = omega arith
rank-latest u (entry ∷ entries) =
    omega (arith, rank-latest (later u (named entry)) entries, rank-later u (named entry))

latest-greatest :
    (u v : CwmpVersion) (entries : List (Option (ℤ × ℤ)))
    → v ≢ unknown
    → In (some (version_major v, version_minor v)) entries
    → rank v ≤ rank (latest u entries)
unfolding latest
latest-greatest u v [] n h = absurd h
latest-greatest u v (entry ∷ entries) n (inl e) = omega (
  arith,
  rank-latest (later u (named entry)) entries,
  rank-later u (named entry),
  ap rank (named_of v n),
  ap (λ x. rank (named x)) e,
)
latest-greatest u v (entry ∷ entries) n (inr h) =
    latest-greatest (later u (named entry)) v entries n h

later-cases : (u v : CwmpVersion) → (later u v ≡ u) ⊎ (later u v ≡ v)
later-cases u v = ground arith

latest-named :
    (u : CwmpVersion) (entries : List (Option (ℤ × ℤ)))
    → (latest u entries ≡ u)
      ⊎ (In (some (version_major (latest u entries), version_minor (latest u entries))) entries)
unfolding latest
latest-named u [] = inl refl
latest-named u (entry ∷ entries) = elim (known (named entry)) [
  | inl e ↦ elim (latest-named (later u (named entry)) entries) [
    | inl h ↦ inl (h ∙ ap (later u) e ∙ later-unknown u)
    | inr h ↦ inr (inr h)
  ]
  | inr n ↦ elim (latest-named (later u (named entry)) entries) [
    | inl h ↦ elim (later-cases u (named entry)) [
      | inl old ↦ inl (h ∙ old)
      | inr new ↦ let is = h ∙ new in inr (inl (named-eq entry _ (sym is) (λ z. n (sym is ∙ z))))
    ]
    | inr h ↦ inr (inr h)
  ]
]

-- The version `v` is supported, and the text `possible` holds an entry with its two numbers.
abbrev pub Offers : String → CwmpVersion → Type 0
Offers possible v = (v ≢ unknown) × In (some (version_major v, version_minor v)) (scanned possible)

-- What MaxCommonVersion returns is on offer or UNKNOWN, and no version on offer is later.
pub record IsMaxCommon (possible : String) (r : CwmpVersion) : Type 0 where
  pub offered : (r ≡ unknown) ⊎ Offers possible r
  pub greatest : (v : CwmpVersion) → Offers possible v → rank v ≤ rank r

-- MaxCommonVersion returns the latest supported version whose two numbers are those of an entry of
-- the list, and UNKNOWN only if the list offers no supported version.
pub max_common_version-IsMaxCommon :
    (possible : String) → IsMaxCommon possible (max_common_version possible)
max_common_version-IsMaxCommon possible = rw (max-latest possible) (record {
  offered = elim (known (latest unknown (scanned possible))) [
    | inl e ↦ inl e
    | inr n ↦ elim (latest-named unknown (scanned possible)) [ inl e ↦ inl e | inr h ↦ inr (n, h) ]
  ];
  greatest = λ v o. latest-greatest unknown v (scanned possible) o.0 o.1;
})

rank-injective : (u v : CwmpVersion) → rank u ≤ rank v → rank v ≤ rank u → u ≡ v
rank-injective u v h k = ground arith

rank-eq :
    (p q : String)
    → ((v : CwmpVersion) → Offers p v → Offers q v)
    → rank (max_common_version p) ≤ rank (max_common_version q)
rank-eq p q h = elim ((max_common_version-IsMaxCommon p).offered) [
  | inl e ↦ rw e (omega arith)
  | inr o ↦ (max_common_version-IsMaxCommon q).greatest _ (h _ o)
]

-- Two lists that offer the same supported versions, in whatever order, spelling and number, lead to the same
-- choice.
pub max_common_version_order :
    (p q : String)
    → ((v : CwmpVersion) → Offers p v ↔ Offers q v)
    → max_common_version p ≡ max_common_version q
max_common_version_order p q h =
    rank-injective _ _ (rank-eq p q (λ v. (h v).0)) (rank-eq q p (λ v. (h v).1))
