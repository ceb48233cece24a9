-- ===== src/Go/Scan.antt =====
-- Package fmt: `Sscanf(s, "%d.%d", &major, &minor)`; `none` is any error.
use Prim.Native.String.{[], ◌∷◌}
use cwmp_acs_go.Prelude.{String, Char, code, ◌||◌, Option, none, some, eqb, if◌then◌else◌}
use cwmp_acs_go.Prelude.Int.{ℤ}
use cwmp_acs_go.Go.Strconv.{is_digit, NumResult, ok, syntax, range, atoi}
use cwmp_acs_go.Go.Text.{is_space}

infixl 5 ◌>>=◌
abbrev ◌>>=◌ : {A B : Type 0} → Option A → (A → Option B) → Option B
none >>= f = none
some a >>= f = f a

-- Blanks before a number are skipped; a newline there is an error.
unfoldable pub skip_space : String → Option String
skip_space [] = some []
skip_space (c ∷ s) =
    if eqb (code c) b'\n' then none else if is_space c then skip_space s else some (c ∷ s)

-- The longest run of digits in front, and what follows it.
unfoldable pub take_digits : String → String × String
take_digits [] = ([], [])
take_digits (c ∷ s) =
    let (ds, rest) = take_digits s in if is_digit c then (c ∷ ds, rest) else ([], c ∷ s)

abbrev value : NumResult ℤ → Option ℤ
value (ok n) = some n
value syntax = none
value range = none

-- A sign that is accepted stands in front of the digits that are read.
abbrev token : String → String × String
token [] = ([], [])
token (c ∷ s) =
    if eqb (code c) b'+' || eqb (code c) b'-'
    then (let (ds, rest) = take_digits s in (c ∷ ds, rest))
    else take_digits (c ∷ s)

-- The verb %d.
unfoldable pub scan_int : String → Option (ℤ × String)
unfolding skip_space take_digits atoi is_space
scan_int s = do
  t ← skip_space s
  let (number, rest) = token t
  n ← value (atoi number)
  some (n, rest)

abbrev literal : Char → String → Option String
literal ch [] = none
literal ch (c ∷ s) = if eqb (code c) (code ch) then some s else none

-- What is left behind the second number is not looked at.
unfoldable pub scan_version : String → Option (ℤ × ℤ)
unfolding scan_int
scan_version s = do
  (major, rest) ← scan_int s
  after ← literal "." rest
  (minor, ignored) ← scan_int after
  some (major, minor)
