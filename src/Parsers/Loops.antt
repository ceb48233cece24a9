-- ===== src/Parsers/Loops.antt =====
-- What the parsers share: the loop over an element's children, and conversions with their errors.
pub mod Laws
use cwmp_acs_go.Prelude.{String, Option, none, some, List, [], ◌∷◌}
use cwmp_acs_go.Prelude.Int.{ℤ}
use cwmp_acs_go.Go.Runtime.{Runtime}
use cwmp_acs_go.Go.Strconv.{NumResult, syntax, range, atoi}
use cwmp_acs_go.Go.Text.{texts}
use cwmp_acs_go.Cwmp.Errors.{Result, ok, ◌>>=◌, invalid_arguments}
use cwmp_acs_go.Xml.Structs.{SoapElement}

-- `for _, child := range elem.Children { switch child.Name.Local { … } }`, on the struct that the
-- loop fills in; an error ends it.
unfoldable pub for_each {ℓ} :
    {S : Type ℓ} → (SoapElement → S → Result S) → List SoapElement → S → Result S
for_each body [] s = ok s
for_each body (child ∷ rest) s = do s' ← body child s; for_each body rest s'

-- The value of a conversion, or the error that the caller makes of it.
abbrev pub or_error : {A : Type 0} → NumResult A → (String → Result A) → Result A
or_error (NumResult.ok a) f = ok a
or_error syntax f = f "invalid syntax"
or_error range f = f "value out of range"

-- (*strconv.NumError).Error
abbrev pub num_error : Runtime → String → String → String → String
num_error go function input why =
    texts ("strconv." ∷ function ∷ ": parsing " ∷ go.quote input ∷ ": " ∷ why ∷ [])

-- An integer element whose error message is fixed.
unfoldable pub int_or : String → String → Result ℤ
int_or text message = or_error (atoi text) (λ why. invalid_arguments message)
