-- ===== src/Go/Regexp.antt =====
-- Package regexp, for the one shape of pattern that the program compiles: `^[^:]+:NAME\[(\d+)\]$`.
pub mod RoundTrip
use Prim.Native.String.{[], ◌∷◌}
use cwmp_acs_go.Prelude.{String, code, Bool, true, false, Option, none, some, eqb, if◌then◌else◌}
use cwmp_acs_go.Go.Strconv.{is_digit}
use cwmp_acs_go.Go.Text.{after_first}

infixl 5 ◌>>=◌
abbrev ◌>>=◌ : {A B : Type 0} → Option A → (A → Option B) → Option B
none >>= f = none
some a >>= f = f a

-- What follows `prefix` in a text that begins with it.
unfoldable pub strip_prefix : String → String → Option String
strip_prefix [] s = some s
strip_prefix (c ∷ p) [] = none
strip_prefix (c ∷ p) (d ∷ s) = if eqb (code c) (code d) then strip_prefix p s else none

-- `(\d+)\]$`: the digits in front of a last bracket; `seen` tells whether one digit was read.
unfoldable pub digits_then_bracket : Bool → String → Option String
digits_then_bracket seen [] = none
digits_then_bracket false (c ∷ s) =
    if is_digit c then (do ds ← digits_then_bracket true s; some (c ∷ ds)) else none
digits_then_bracket true (c ∷ []) = if eqb (code c) b']' then some [] else none
digits_then_bracket true (c ∷ d ∷ s) =
    if is_digit c then (do ds ← digits_then_bracket true (d ∷ s); some (c ∷ ds)) else none

-- `^[^:]+:`: at least one character, none of them a colon, up to the first colon.
unfoldable pub after_prefix : String → Option String
unfolding after_first
after_prefix [] = none
after_prefix (c ∷ s) = if eqb (code c) b':' then none else after_first ":" s

-- FindStringSubmatch: the text of the one group, or `none` where the pattern does not match.
unfoldable pub array_count : String → String → Option String
unfolding after_prefix strip_prefix digits_then_bracket
array_count name s = do
  rest ← after_prefix s
  inside ← strip_prefix name rest
  open_bracket ← strip_prefix "[" inside
  digits_then_bracket false open_bracket
