-- ===== src/Go/Strconv/RoundTrip.antt =====
-- Atoi reads what Itoa writes.
use Prim.Native.String.{[], ◌∷◌}
use cwmp_acs_go.Prelude.{
  ℕ, zero, suc, ◌+◌, ◌-◌, ◌*◌, ◌/◌, ◌%◌, ◌^◌, ◌<◌, String, code, true, false, ◌≡◌, refl, sym, ap,
  ◌∙◌, arith, ltb, eqb, inl, inr, Bool-cases,
}
use native.Mathlib.Nat.{pow-suc}
use cwmp_acs_go.Prelude.Int.{pos}
use cwmp_acs_go.Go.Strconv.{ok, is_digit, parse_digits, parse_uint, atoi, digit, put_digits, itoa}

pub code-digit : (d : ℕ) → d < 10 → code (digit d) ≡ 48 + d
unfolding digit
code-digit zero h = refl
code-digit (suc zero) h = refl
code-digit (suc (suc zero)) h = refl
code-digit (suc (suc (suc zero))) h = refl
code-digit (suc (suc (suc (suc zero)))) h = refl
code-digit (suc (suc (suc (suc (suc zero))))) h = refl
code-digit (suc (suc (suc (suc (suc (suc zero)))))) h = refl
code-digit (suc (suc (suc (suc (suc (suc (suc zero))))))) h = refl
code-digit (suc (suc (suc (suc (suc (suc (suc (suc zero)))))))) h = refl
code-digit (suc (suc (suc (suc (suc (suc (suc (suc (suc d))))))))) h = omega (arith, h)

digit_read :
    (a d n : ℕ) (s : String)
    → d < 10
    → a * 10 + d ≡ n
    → n < 2 ^ 64
    → parse_digits a (digit d ∷ s) ≡ parse_digits n s
unfolding parse_digits
digit_read a d n s small e bound =
    let c = code-digit d small in
    let value : a * 10 + (code (digit d) - 48) ≡ n = omega (arith, c, e) in
    let is : is_digit (digit d) ≡ true = ground (arith, c, small) in
    let inside : ltb (2 ^ 64 - 1) n ≡ false = ground (arith, bound) in rw (value, is, inside) refl

parse_digits-put_digits :
    (fuel n : ℕ) (out : String)
    → n < 10 ^ fuel
    → n < 2 ^ 64
    → parse_digits 0 (put_digits fuel n out) ≡ parse_digits n out
unfolding put_digits
parse_digits-put_digits zero n out h bound =
    let none_left : n ≡ 0 = omega (arith, h) in ap (λ m. parse_digits m out) (sym none_left)
parse_digits-put_digits (suc fuel) n out h bound = elim (Bool-cases (ltb n 10)) [
  | inl e ↦ rw e (digit_read 0 n n out (ground arith) (omega arith) bound)
  | inr m ↦ rw m (
      parse_digits-put_digits fuel (n / 10) (digit (n % 10) ∷ out)
        (omega (arith, h, pow-suc 10 fuel)) (omega (arith, bound))
      ∙ digit_read (n / 10) (n % 10) n out (omega arith) (omega arith) bound)
]

-- A text that begins with a digit.
pub record StartsWithDigit (s : String) : Type 0 where
  pub first : ℕ
  pub rest : String
  pub small : first < 10
  pub same : s ≡ digit first ∷ rest

pub put_digits_last :
    (fuel n : ℕ) (out : String) → ltb n 10 ≡ true → put_digits (suc fuel) n out ≡ digit n ∷ out
unfolding put_digits
put_digits_last fuel n out h = rw h refl

pub put_digits_more :
    (fuel n : ℕ) (out : String)
    → ltb n 10 ≡ false
    → put_digits (suc fuel) n out ≡ put_digits fuel (n / 10) (digit (n % 10) ∷ out)
unfolding put_digits
put_digits_more fuel n out h = rw h refl

pub put_digits-StartsWithDigit :
    (fuel n : ℕ) (out : String) → n < 10 ^ suc fuel → StartsWithDigit (put_digits (suc fuel) n out)
put_digits-StartsWithDigit zero n out h = record {
  first = n;
  rest = out;
  small = omega (arith, h);
  same = put_digits_last 0 n out (ground (arith, h));
}
put_digits-StartsWithDigit (suc fuel) n out h = elim (Bool-cases (ltb n 10)) [
  | inl e ↦ record {
    first = n;
    rest = out;
    small = ground arith;
    same = put_digits_last (suc fuel) n out e;
  }
  | inr m ↦
      let s =
        put_digits-StartsWithDigit fuel (n / 10) (digit (n % 10) ∷ out)
          (omega (arith, h, pow-suc 10 (suc fuel))) in
      record {
        first = s.first;
        rest = s.rest;
        small = s.small;
        same = put_digits_more (suc fuel) n out m ∙ s.same;
      }
]

atoi-digit :
    (d n : ℕ) (s : String)
    → d < 10
    → n < 2 ^ 63
    → parse_digits 0 (digit d ∷ s) ≡ ok n
    → atoi (digit d ∷ s) ≡ ok (pos n)
unfolding atoi parse_uint
atoi-digit d n s small bound read =
    let c = code-digit d small in
    let unsigned : eqb (code (digit d)) 45 ≡ false = ground (arith, c) in
    let unsigned' : eqb (code (digit d)) 43 ≡ false = ground (arith, c) in
    let inside : ltb n (2 ^ 63) ≡ true = ground (arith, bound) in
    rw (unsigned, unsigned', read, inside) refl

atoi-put_digits :
    (fuel n : ℕ) → n < 10 ^ suc fuel → n < 2 ^ 63 → atoi (put_digits (suc fuel) n []) ≡ ok (pos n)
unfolding parse_digits
atoi-put_digits fuel n h bound =
    let s = put_digits-StartsWithDigit fuel n [] h in
    let read : parse_digits 0 (put_digits (suc fuel) n []) ≡ ok n =
      parse_digits-put_digits (suc fuel) n [] h (omega (arith, bound)) in
    ap atoi s.same
    ∙ atoi-digit s.first n s.rest s.small bound (ap (parse_digits 0) (sym s.same) ∙ read)

pub atoi-itoa : (n : ℕ) → n < 2 ^ 63 → atoi (itoa (pos n)) ≡ ok (pos n)
unfolding itoa
atoi-itoa n bound = atoi-put_digits 19 n (omega (arith, bound)) bound
