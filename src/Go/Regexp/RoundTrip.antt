-- ===== src/Go/Regexp/RoundTrip.antt =====
-- The pattern of arrayType finds the count that was written.
use Prim.Native.String.{[], ◌∷◌, ◌++◌}
use text.Mathlib.TextLemmas.{nil-append, cons-append, append-nil}
use native.Mathlib.Nat.{pow-suc}
use cwmp_acs_go.Prelude.{
  ℕ, zero, suc, ◌/◌, ◌%◌, ◌^◌, ◌<◌, String, Char, code, Bool, true, false, none, some, ◌≡◌, refl,
  sym, ap, ◌∙◌, arith, ltb, eqb, inl, inr, Bool-cases,
}
use cwmp_acs_go.Prelude.Int.{pos}
use cwmp_acs_go.Go.Text.{after_first}
use cwmp_acs_go.Go.Strconv.{is_digit, digit, put_digits, itoa}
use cwmp_acs_go.Go.Strconv.RoundTrip.{code-digit, put_digits_last, put_digits_more}
use cwmp_acs_go.Go.Regexp.{strip_prefix, digits_then_bracket, after_prefix, array_count}

strip_prefix-append : (p s : String) → strip_prefix p (p ++ s) ≡ some s
unfolding strip_prefix
strip_prefix-append [] s = ap (strip_prefix []) (nil-append s)
strip_prefix-append (c ∷ p) s =
    let same : eqb (code c) (code c) ≡ true = ground arith in
    ap (strip_prefix (c ∷ p)) (cons-append c p s) ∙ rw same (strip_prefix-append p s)

-- A text in which no colon occurs.
abbrev pub HasNoColon : String → Type 0
HasNoColon p = after_first ":" p ≡ none

no_colon-first :
    (c : Char) (p : String) → HasNoColon (c ∷ p) → (eqb (code c) 58 ≡ false) × HasNoColon p
unfolding after_first
no_colon-first c p h = elim (Bool-cases (eqb (code c) 58)) [
  | inl e ↦ absurd (let no : some p ≡ none = rw e at h in cc)
  | inr n ↦ (n, rw n at h)
]

after_first-append : (p s : String) → HasNoColon p → after_first ":" (p ++ (":" ∷ s)) ≡ some s
unfolding after_first
after_first-append [] s h = ap (after_first ":") (nil-append (":" ∷ s))
after_first-append (c ∷ p) s h =
    let (n, later) = no_colon-first c p h in
    ap (after_first ":") (cons-append c p (":" ∷ s)) ∙ rw n (after_first-append p s later)

-- What is behind the colon.
pub after_first-own :
    (p own : String) → HasNoColon p → after_first ":" (p ++ (":" ++ (own ++ []))) ≡ some own
after_first-own p own h =
    let colon : ":" ++ (own ++ []) ≡ ":" ∷ (own ++ []) =
      cons-append ":" [] (own ++ []) ∙ ap (λ s. ":" ∷ s) (nil-append (own ++ [])) in
    ap (λ s. after_first ":" (p ++ s)) colon
    ∙ after_first-append p (own ++ []) h
    ∙ ap some (append-nil own)

after_prefix-append :
    (c : Char) (p s : String) → HasNoColon (c ∷ p) → after_prefix ((c ∷ p) ++ (":" ∷ s)) ≡ some s
unfolding after_prefix
after_prefix-append c p s h =
    let (n, later) = no_colon-first c p h in
    ap after_prefix (cons-append c p (":" ∷ s)) ∙ rw n (after_first-append p s later)

digit_taken :
    (seen : Bool) (d : ℕ) (e : Char) (s r : String)
    → d < 10
    → digits_then_bracket true (e ∷ s) ≡ some r
    → digits_then_bracket seen (digit d ∷ e ∷ s) ≡ some (digit d ∷ r)
unfolding digits_then_bracket
digit_taken true d e s r small h =
    let c = code-digit d small in
    let is : is_digit (digit d) ≡ true = ground (arith, c, small) in rw (is, h) refl
digit_taken false d e s r small h =
    let c = code-digit d small in
    let is : is_digit (digit d) ≡ true = ground (arith, c, small) in rw (is, h) refl

digits_then_bracket-put_digits :
    (fuel n : ℕ) (e : Char) (s r : String)
    → n < 10 ^ suc fuel
    → digits_then_bracket true (e ∷ s) ≡ some r
    → digits_then_bracket false (put_digits (suc fuel) n (e ∷ s)) ≡ some (put_digits (suc fuel) n r)
digits_then_bracket-put_digits zero n e s r h taken =
    let few : ltb n 10 ≡ true = ground (arith, h) in
    ap (digits_then_bracket false) (put_digits_last 0 n (e ∷ s) few)
    ∙ digit_taken false n e s r (omega (arith, h)) taken
    ∙ ap some (sym (put_digits_last 0 n r few))
digits_then_bracket-put_digits (suc fuel) n e s r h taken = elim (Bool-cases (ltb n 10)) [
  | inl few ↦
      ap (digits_then_bracket false) (put_digits_last (suc fuel) n (e ∷ s) few)
      ∙ digit_taken false n e s r (ground arith) taken
      ∙ ap some (sym (put_digits_last (suc fuel) n r few))
  | inr more ↦
      ap (digits_then_bracket false) (put_digits_more (suc fuel) n (e ∷ s) more)
      ∙ digits_then_bracket-put_digits fuel (n / 10) (digit (n % 10)) (e ∷ s) (digit (n % 10) ∷ r)
          (omega (arith, h, pow-suc 10 (suc fuel)))
          (digit_taken true (n % 10) e s r (omega arith) taken)
      ∙ ap some (sym (put_digits_more (suc fuel) n r more))
]

put_digits-append :
    (fuel n : ℕ) (out t : String) → put_digits fuel n (out ++ t) ≡ put_digits fuel n out ++ t
unfolding put_digits
put_digits-append zero n out t = refl
put_digits-append (suc fuel) n out t =
    let later : put_digits fuel (n / 10) (digit (n % 10) ∷ (out ++ t))
        ≡ put_digits fuel (n / 10) (digit (n % 10) ∷ out) ++ t =
      ap (put_digits fuel (n / 10)) (sym (cons-append (digit (n % 10)) out t))
      ∙ put_digits-append fuel (n / 10) (digit (n % 10) ∷ out) t in
    elim (Bool-cases (ltb n 10)) [
      | inl few ↦ rw few (sym (cons-append (digit n) out t))
      | inr more ↦ rw more later
    ]

bracketed :
    (fuel n : ℕ)
    → n < 10 ^ suc fuel
    → digits_then_bracket false (put_digits (suc fuel) n [] ++ "]")
      ≡ some (put_digits (suc fuel) n [])
unfolding digits_then_bracket
bracketed fuel n h =
    ap (digits_then_bracket false)
      (sym (put_digits-append (suc fuel) n [] "]") ∙ ap (put_digits (suc fuel) n) (nil-append "]"))
    ∙ digits_then_bracket-put_digits fuel n "]" [] [] h refl

-- The text `<prefix>:<name>[<count>]`.
abbrev pub array_type : Char → String → String → String → String
array_type c prefix name count = (c ∷ prefix) ++ (":" ++ (name ++ ("[" ++ (count ++ ("]" ++ [])))))

array_count-array_type :
    (c : Char) (prefix name count : String)
    → HasNoColon (c ∷ prefix)
    → digits_then_bracket false (count ++ "]") ≡ some count
    → array_count name (array_type c prefix name count) ≡ some count
unfolding array_count
array_count-array_type c prefix name count h digits =
    let inside = "[" ++ (count ++ ("]" ++ [])) in
    let colon : ":" ++ (name ++ inside) ≡ ":" ∷ (name ++ inside) =
      cons-append ":" [] (name ++ inside) ∙ ap (λ s. ":" ∷ s) (nil-append (name ++ inside)) in
    let after : after_prefix (array_type c prefix name count) ≡ some (name ++ inside) =
      ap (λ s. after_prefix ((c ∷ prefix) ++ s)) colon
      ∙ after_prefix-append c prefix (name ++ inside) h in
    rw
      (
        after,
        strip_prefix-append name inside,
        strip_prefix-append "[" (count ++ ("]" ++ [])),
        digits,
      )
      refl

pub array_count-itoa :
    (c : Char) (prefix name : String) (n : ℕ)
    → HasNoColon (c ∷ prefix)
    → n < 2 ^ 63
    → array_count name (array_type c prefix name (itoa (pos n))) ≡ some (itoa (pos n))
unfolding itoa
array_count-itoa c prefix name n h bound =
    array_count-array_type c prefix name (put_digits 20 n []) h
      (bracketed 19 n (omega (arith, bound)))
