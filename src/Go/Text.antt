-- ===== src/Go/Text.antt =====
-- Package strings: TrimSpace, HasSuffix, Split, Index, LastIndex, ToLower. A Go string is the text
-- of its code points; what is not valid UTF-8 is refused by the XML and JSON decoders beforehand.
use Prim.Native.String.{[], ◌∷◌}
use mathlib.Core.List.{List, ◌∷◌, []}
use Prim.Native.String
use cwmp_acs_go.Prelude.{
  ◌+◌, false, ℕ, String, Char, code, Bool, true, ◌&&◌, ◌||◌, Option, none, some, leb, eqb, ◌==◌,
  if◌then◌else◌,
}

abbrev within : ℕ → ℕ → ℕ → Bool
within lo hi c = leb lo c && leb c hi

-- unicode.IsSpace
unfoldable pub is_space : Char → Bool
is_space ch =
    let c = code ch in
    within 9 13 c
    || eqb c 32
    || eqb c 0x85
    || eqb c 0xa0
    || eqb c 0x1680
    || within 0x2000 0x200a c
    || eqb c 0x2028
    || eqb c 0x2029
    || eqb c 0x202f
    || eqb c 0x205f
    || eqb c 0x3000

unfoldable pub trim_left : String → String
trim_left [] = []
trim_left (c ∷ s) = if is_space c then trim_left s else c ∷ s

abbrev pub prepend : Char → String → String
prepend c [] = if is_space c then [] else c ∷ []
prepend c (d ∷ s) = c ∷ d ∷ s

unfoldable pub trim_right : String → String
trim_right [] = []
trim_right (c ∷ s) = prepend c (trim_right s)

-- strings.TrimSpace
unfoldable pub trim_space : String → String
unfolding trim_left trim_right is_space
trim_space s = trim_right (trim_left s)

-- strings.HasSuffix
unfoldable pub has_suffix : String → String → Bool
has_suffix [] suffix = [] == suffix
has_suffix (c ∷ s) suffix = (c ∷ s) == suffix || has_suffix s suffix

abbrev onto_head : Char → List String → List String
onto_head c [] = (c ∷ []) ∷ []
onto_head c (part ∷ parts) = (c ∷ part) ∷ parts

-- strings.Split by a separator of one character
unfoldable pub split : Char → String → List String
split sep [] = [] ∷ []
split sep (c ∷ s) =
    let parts = split sep s in if eqb (code c) (code sep) then [] ∷ parts else onto_head c parts

-- `s[strings.Index(s, sep)+1:]`, when the character occurs
unfoldable pub after_first : Char → String → Option String
after_first sep [] = none
after_first sep (c ∷ s) = if eqb (code c) (code sep) then some s else after_first sep s

abbrev or_else : Option String → Option String → Option String
or_else none o = o
or_else (some s) o = some s

-- `s[strings.LastIndex(s, sep)+1:]`, when the character occurs
unfoldable pub after_last : Char → String → Option String
after_last sep [] = none
after_last sep (c ∷ s) =
    or_else (after_last sep s) (if eqb (code c) (code sep) then some s else none)

abbrev pub join {ℓ} : {A : Type ℓ} → A → Option A → A
join d none = d
join d (some a) = a

-- Texts one after the other, as fmt.Sprintf puts them.
abbrev pub texts : List String → String
texts [] = []
texts (s ∷ ss) = String.◌++◌ s (texts ss)

-- unicode.ToLower, on the characters whose lower case is an ASCII letter. All others have lower
-- cases outside ASCII and stand for themselves here.
unfoldable pub lower_code : Char → ℕ
lower_code ch =
    let c = code ch in
    if within b'A' b'Z' c
    then c + 32
    else if eqb c 0x130
    then b'i'
    else if eqb c 0x212a
    then b'k'
    else c

-- `strings.ToLower(s) == word`, for a word of lower-case ASCII letters
unfoldable pub lower_is : String → String → Bool
unfolding lower_code
lower_is [] [] = true
lower_is [] (d ∷ word) = false
lower_is (c ∷ s) [] = false
lower_is (c ∷ s) (d ∷ word) = eqb (lower_code c) (code d) && lower_is s word
