-- ===== src/Cwmp/Errors.antt =====
-- internal/errors/errors.go, and the results of fallible functions.
use cwmp_acs_go.Prelude.{String, [], ◌∷◌, ◌≡◌, refl}
use cwmp_acs_go.Prelude.Int.{ℤ}
use cwmp_acs_go.Cwmp.Structs.{CwmpHeader, header_of_id, FaultSource, cpe, source_string}
use cwmp_acs_go.Go.Text.{texts}
use cwmp_acs_go.Go.Strconv.{itoa}

pub record IncomingMessageError : Type 0 where
  pub header : CwmpHeader
  pub source : FaultSource
  pub fault_code : ℤ
  pub fault_string : String

-- The error values that the program makes: its two error types, and those of fmt.Errorf.
pub data Error : Type 0 where
  incoming_message : IncomingMessageError → Error
  xml_parsing : String → Error
  other : String → Error

-- The methods `Error`; the text of an error of fmt.Errorf is its own.
unfoldable pub error_string : Error → String
error_string (incoming_message e) = texts (
    "IncomingMessageError: "
    ∷ source_string e.source
    ∷ " - "
    ∷ itoa e.fault_code
    ∷ ": "
    ∷ e.fault_string
    ∷ [])
error_string (xml_parsing text) = texts ("XmlParsingError: " ∷ text ∷ [])
error_string (other text) = text

-- A Go pair of a value and an error.
pub data Result {ℓ} (A : Type ℓ) : Type ℓ where
  err : Error → Result A
  ok : A → Result A

infixl 5 ◌>>=◌
abbrev pub ◌>>=◌ {ℓ κ} : {A : Type ℓ} {B : Type κ} → Result A → (A → Result B) → Result B
err problem >>= next = err problem
ok value >>= next = next value

-- The shape of nearly every error of the parsers: no header, source CPE, code 8003.
abbrev pub invalid_arguments {ℓ} : {A : Type ℓ} → String → Result A
invalid_arguments text = err (
    incoming_message (record {
      header = header_of_id "";
      source = cpe;
      fault_code = ℤ.pos 8003;
      fault_string = text;
    }))

-- What a sequence of two steps that succeeds went through.
pub >>=-eq-ok {ℓ κ} :
    {A : Type ℓ} {B : Type κ} (first : Result A) (next : A → Result B) {last : B}
    → (first >>= next) ≡ ok last
    → (middle : A) × (first ≡ ok middle) × (next middle ≡ ok last)
>>=-eq-ok (err problem) next succeeds = cc
>>=-eq-ok (ok middle) next succeeds = (middle, refl, succeeds)

pub ok-injective {ℓ} : {A : Type ℓ} {a b : A} → ok a ≡ ok b → a ≡ b
ok-injective same = cc
