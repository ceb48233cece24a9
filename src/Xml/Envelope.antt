-- ===== src/Xml/Envelope.antt =====
-- ParseSOAPEnvelope of internal/xml/parser.go, over the tokens that the decoder of encoding/xml gives.
-- A stack of pointers into the tree is a list of elements under construction, innermost first: a
-- pointer always points to the last child of the one below it, so closing an element is what hangs
-- it into its parent.
pub mod RoundTrip
use Prim.Native.String
use cwmp_acs_go.Prelude.{
  String, Bool, true, false, ◌&&◌, ◌||◌, not, Option, none, some, List, [], ◌∷◌, ◌++◌, ◌==◌,
  if◌then◌else◌,
}
use cwmp_acs_go.Go.Text.{texts, trim_space}
use cwmp_acs_go.Xml.Structs.{Name, Attr, SoapElement, element, of_list, soapenv_ns_url}
use cwmp_acs_go.Xml.Namespaces.{collect_namespaces}

pub data Token : Type 0 where
  start : Name → List Attr → Token
  text : String → Token
  end : Token
  -- comments, processing instructions, directives
  ignored : Token

-- What the decoder returns until it is at the end: `none` is io.EOF, `some` an error of its own.
pub record TokenStream : Type 0 where
  pub tokens : List Token
  pub failure : Option String

pub data Result (A : Type 0) : Type 0 where
  ok : A → Result A
  err : String → Result A

infixl 5 ◌>>=◌
abbrev pub ◌>>=◌ : {A B : Type 0} → Result A → (A → Result B) → Result B
ok a >>= f = f a
err e >>= f = err e

-- An element whose end tag has not been read.
pub record Frame : Type 0 where
  pub name : Name
  pub attrs : List Attr
  pub text : String
  pub children : List SoapElement

abbrev pub open_frame : Name → List Attr → Frame
open_frame name attrs = record { name = name; attrs = attrs; text = ""; children = [] }

abbrev pub close : Frame → SoapElement
close f = element f.name f.attrs f.text (of_list f.children)

abbrev pub add : SoapElement → Frame → Frame
add e f = record f { children = f.children ++ e ∷ [] }

-- The Header or the Body: not seen, open with its stack, or closed.
pub data Section : Type 0 where
  absent : Section
  building : Frame → List Frame → Section
  built : SoapElement → Section

-- `inHeader`, `inBody`
abbrev pub is_open : Section → Bool
is_open (building f fs) = true
is_open _ = false

abbrev pub is_absent : Section → Bool
is_absent absent = true
is_absent _ = false

abbrev pub push : Frame → Section → Section
push f (building g gs) = building f (g ∷ gs)
push f s = s

-- Character data is trimmed, and appended to the innermost element.
unfoldable pub write : String → Section → Section
write s (building f fs) =
    let t = trim_space s in
    if t == "" then building f fs else building (record f { text = String.◌++◌ f.text t }) fs
write s section = section

unfoldable pub pop : Section → Section
pop (building f []) = built (close f)
pop (building f (g ∷ gs)) = building (add (close f) g) gs
pop section = section

-- The tree as it stands when the tokens end.
abbrev pub collapse : Frame → List Frame → SoapElement
collapse f [] = close f
collapse f (g ∷ gs) = collapse (add (close f) g) gs

pub record Parser : Type 0 where
  pub envelope : Option (Name × List Attr)
  pub namespaces : List (String × String)
  pub header : Section
  pub body : Section

abbrev pub is_soap : Name → String → Bool
is_soap name tag = name.space == soapenv_ns_url && name.local == tag

-- The rest of `case xml.StartElement`, once the envelope has been seen.
unfoldable pub start_inside : Name → List Attr → Parser → Result Parser
start_inside name attrs p =
    if is_soap name "Header"
    then (if is_absent p.header
        then ok (record p { header = building (open_frame name attrs) [] })
        else err "multiple SOAP Header elements found")
    else if is_open p.header
    then ok (record p { header = push (open_frame name attrs) p.header })
    else if is_soap name "Body"
    then (if is_absent p.body
        then ok (record p { body = building (open_frame name attrs) [] })
        else err "multiple SOAP Body elements found")
    else ok (record p { body = push (open_frame name attrs) p.body })

unfoldable pub start_element : Option (Name × List Attr) → Name → List Attr → Parser → Result Parser
start_element none name attrs p =
    if is_soap name "Envelope"
    then ok (record p {
      envelope = some (name, attrs);
      namespaces = collect_namespaces attrs p.namespaces;
    })
    else err (texts ("expected SOAP Envelope, got " ∷ name.local ∷ " (" ∷ name.space ∷ ")" ∷ []))
start_element (some envelope) name attrs p = start_inside name attrs p

unfoldable pub step : Parser → Token → Result Parser
step p (start name attrs) = start_element p.envelope name attrs p
step p (text s) = ok (record p { header = write s p.header; body = write s p.body })
step p end = ok (record p { header = pop p.header; body = pop p.body })
step p ignored = ok p

unfoldable pub run : Parser → List Token → Result Parser
run p [] = ok p
run p (t ∷ ts) = do q ← step p t; run q ts

pub record ParsedEnvelope : Type 0 where
  pub envelope : Name × List Attr
  pub header : SoapElement
  pub body : SoapElement
  pub namespaces : List (String × String)

unfoldable pub section_of : String → Section → Result SoapElement
section_of missing absent = err missing
section_of missing (building f fs) = ok (collapse f fs)
section_of missing (built e) = ok e

unfoldable pub finish : Parser → Result ParsedEnvelope
finish p = elim p.envelope [
  | none ↦ err "SOAP envelope not found"
  | some envelope ↦ do
    header ← section_of "SOAP header not found" p.header
    body ← section_of "SOAP body not found" p.body
    ok (record { envelope = envelope; header = header; body = body; namespaces = p.namespaces })
]

abbrev pub initial : Parser
initial = record { envelope = none; namespaces = []; header = absent; body = absent }

abbrev after : Option String → Parser → Result ParsedEnvelope
after none p = finish p
after (some failure) p = err failure

unfoldable pub parse_soap_envelope : TokenStream → Result ParsedEnvelope
parse_soap_envelope stream = do p ← run initial stream.tokens; after stream.failure p
