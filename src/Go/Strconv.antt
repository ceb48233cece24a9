-- ===== src/Go/Strconv.antt =====
-- Package strconv: Atoi, Itoa, ParseBool, FormatBool. An `int` has 64 bits.
pub mod RoundTrip
use Prim.Native.String.{[], ◌∷◌}
use cwmp_acs_go.Prelude.{
  ℕ, zero, suc, ◌+◌, ◌-◌, ◌*◌, ◌/◌, ◌%◌, ◌^◌, String, Char, code, Bool, true, false, ◌&&◌, ◌||◌,
  ltb, leb, eqb, ◌==◌, if◌then◌else◌,
}
use cwmp_acs_go.Prelude.Int.{ℤ, pos, negsuc}

-- The two errors of a conversion: `ErrSyntax` and `ErrRange`.
pub data NumResult (A : Type 0) : Type 0 where
  ok : A → NumResult A
  syntax range : NumResult A

infixl 5 ◌>>=◌
abbrev ◌>>=◌ : {A B : Type 0} → NumResult A → (A → NumResult B) → NumResult B
ok a >>= f = f a
syntax >>= f = syntax
range >>= f = range

abbrev pub is_digit : Char → Bool
is_digit c = leb b'0' (code c) && leb (code c) b'9'

-- The loop of ParseUint in base 10: it stops at the first bad digit, or as soon as the value
-- leaves 64 bits.
unfoldable pub parse_digits : ℕ → String → NumResult ℕ
parse_digits n [] = ok n
parse_digits n (c ∷ s) =
    let m = n * 10 + (code c - b'0') in
    let rest = parse_digits m s in
    if is_digit c then (if ltb (2 ^ 64 - 1) m then range else rest) else syntax

unfoldable pub parse_uint : String → NumResult ℕ
unfolding parse_digits
parse_uint [] = syntax
parse_uint (c ∷ s) = parse_digits 0 (c ∷ s)

abbrev negate : ℕ → ℤ
negate zero = pos zero
negate (suc n) = negsuc n

abbrev in_range : Bool → ℕ → NumResult ℤ
in_range false n = if ltb n (2 ^ 63) then ok (pos n) else range
in_range true n = if ltb (2 ^ 63) n then range else ok (negate n)

-- strconv.Atoi
unfoldable pub atoi : String → NumResult ℤ
unfolding parse_uint
atoi [] = syntax
atoi (c ∷ s) =
    if eqb (code c) b'-'
    then parse_uint s >>= in_range true
    else if eqb (code c) b'+'
    then parse_uint s >>= in_range false
    else parse_uint (c ∷ s) >>= in_range false

unfoldable pub digit : ℕ → Char
digit zero = "0"
digit (suc zero) = "1"
digit (suc (suc zero)) = "2"
digit (suc (suc (suc zero))) = "3"
digit (suc (suc (suc (suc zero)))) = "4"
digit (suc (suc (suc (suc (suc zero))))) = "5"
digit (suc (suc (suc (suc (suc (suc zero)))))) = "6"
digit (suc (suc (suc (suc (suc (suc (suc zero))))))) = "7"
digit (suc (suc (suc (suc (suc (suc (suc (suc zero)))))))) = "8"
digit _ = "9"

-- The decimal digits of `n`, in front of `out`; `fuel` bounds their number.
unfoldable pub put_digits : ℕ → ℕ → String → String
put_digits zero n out = out
put_digits (suc fuel) n out =
    let rest = put_digits fuel (n / 10) (digit (n % 10) ∷ out) in
    if ltb n 10 then digit n ∷ out else rest

-- Twenty digits hold every value of 64 bits.
unfoldable pub format_uint : ℕ → String
unfolding put_digits digit
format_uint n = put_digits 20 n []

-- strconv.Itoa
unfoldable pub itoa : ℤ → String
unfolding format_uint
itoa (pos n) = format_uint n
itoa (negsuc n) = "-" ∷ format_uint (suc n)

-- strconv.ParseBool
unfoldable pub parse_bool : String → NumResult Bool
parse_bool s =
    if s == "1" || s == "t" || s == "T" || s == "true" || s == "TRUE" || s == "True"
    then ok true
    else if s == "0" || s == "f" || s == "F" || s == "false" || s == "FALSE" || s == "False"
    then ok false
    else syntax

-- strconv.FormatBool
unfoldable pub format_bool : Bool → String
format_bool true = "true"
format_bool false = "false"
