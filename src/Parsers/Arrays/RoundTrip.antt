-- ===== src/Parsers/Arrays/RoundTrip.antt =====
-- The list parsers read the arrayType that the generators write.
use Prim.Native.String.{◌∷◌}
use text.Mathlib.TextLemmas.{cons-append, cons-ne-nil}
use cwmp_acs_go.Prelude.{
  ℕ, ◌^◌, ◌<◌, String, Char, false, List, [], ◌∷◌, ◌≡◌, ◌≢◌, refl, sym, map, ap, ◌∙◌, eq_iff, ◌==◌,
  length, Bool-cases, inl, inr,
}
use cwmp_acs_go.Prelude.Int.{pos}
use cwmp_acs_go.Cwmp.Errors.{Result, ok}
use cwmp_acs_go.Go.Runtime.{Runtime}
use cwmp_acs_go.Go.Text.{texts, after_first}
use cwmp_acs_go.Go.Strconv.{itoa}
use cwmp_acs_go.Go.Strconv.RoundTrip.{atoi-itoa}
use cwmp_acs_go.Go.Regexp.RoundTrip.{HasNoColon, array_type, array_count-itoa}
use cwmp_acs_go.Xml.Structs.{SoapElement, Attr, Namespace}
use cwmp_acs_go.Xml.Dom.{
  Attribute, Element, element, new_element, add_attr, add_child, add_children,
}
use cwmp_acs_go.Generators.{Spaces, array_element}
use cwmp_acs_go.Parsers.Arrays.{ArrayKind, attribute, count_of}

abbrev pub attributes : Element → List Attribute
attributes (element name attrs t cs) = attrs

attributes-add_children :
    (es : List Element) (e : Element) → attributes (add_children es e) ≡ attributes e
unfolding add_children
attributes-add_children [] (element name attrs t cs) = refl
attributes-add_children (d ∷ ds) (element name attrs t cs) =
    attributes-add_children ds (add_child d (element name attrs t cs))

-- How the decoder of encoding/xml reads an attribute: a name of two parts that are not empty, with one
-- colon between them, has the second as its local name; the value is read as it was written.
abbrev pub ReadsAttributes : (Attribute → Attr) → Type 0
ReadsAttributes read =
    (prefix own value : String)
    → prefix ≢ ""
    → own ≢ ""
    → HasNoColon prefix
    → HasNoColon own
    → ((read (record { name = texts (prefix ∷ ":" ∷ own ∷ []); value = value })).name.local ≡ own)
      × ((read (record { name = texts (prefix ∷ ":" ∷ own ∷ []); value = value })).value ≡ value)

written :
    (read : Attribute → Attr) (ns : Spaces) (name : String) (space : Namespace) (type : String)
    (items : List Element) (c : Char) (prefix : String)
    → ReadsAttributes read
    → ns.soapenc.prefix ≢ ""
    → HasNoColon ns.soapenc.prefix
    → space.prefix ≡ c ∷ prefix
    → attribute "arrayType" (map read (attributes (array_element ns name space type items)))
      ≡ array_type c prefix type (itoa (pos (length items)))
unfolding array_element add_attr new_element attribute after_first
written read ns name space type items c prefix reads there plain e =
    let value = texts (space.prefix ∷ ":" ∷ type ∷ "[" ∷ itoa (pos (length items)) ∷ "]" ∷ []) in
    let (named, valued) = reads ns.soapenc.prefix "arrayType" value there (λ no. cc) plain refl in
    ap (λ l. attribute "arrayType" (map read l)) (attributes-add_children items _)
    ∙ rw (named, valued)
        (ap (λ p. texts (p ∷ ":" ∷ type ∷ "[" ∷ itoa (pos (length items)) ∷ "]" ∷ [])) e)

module _ {A : Type 0} (go : Runtime) (kind : ArrayKind) (parse_item : SoapElement → Result A) where
  count_of-array_type :
      (c : Char) (prefix : String) (n : ℕ)
      → HasNoColon (c ∷ prefix)
      → n < 2 ^ 63
      → count_of go kind parse_item (array_type c prefix kind.type_name (itoa (pos n))) ≡ ok (pos n)
  unfolding count_of
  count_of-array_type c prefix n h bound =
      let s = array_type c prefix kind.type_name (itoa (pos n)) in
      let some_text : (s == "") ≡ false = elim (Bool-cases (s == "")) [
        | inl e ↦ absurd (cons-ne-nil c _ (sym (cons-append c prefix _) ∙ (eq_iff s "").0 e))
        | inr m ↦ m
      ] in
      rw (some_text, array_count-itoa c prefix kind.type_name n h bound, atoi-itoa n bound) refl

  -- Under prefixes of the SOAP encoding and of the type's namespace that are not empty and have no
  -- colon, and with attributes that are read as encoding/xml documents, the attribute arrayType that the
  -- list parser looks up in an element that a generator writes for fewer than 2^63 items is one that the
  -- parser of this type reads, and the count that it reads is the number of the items.
  pub count_of-array_element :
      (read : Attribute → Attr) (ns : Spaces) (name : String) (space : Namespace)
      (items : List Element) (c : Char) (prefix : String)
      → ReadsAttributes read
      → ns.soapenc.prefix ≢ ""
      → HasNoColon ns.soapenc.prefix
      → space.prefix ≡ c ∷ prefix
      → HasNoColon (c ∷ prefix)
      → length items < 2 ^ 63
      → count_of go kind parse_item (
          attribute "arrayType"
            (map read (attributes (array_element ns name space kind.type_name items))))
        ≡ ok (pos (length items))
  count_of-array_element read ns name space items c prefix reads there plain e h bound =
      ap (count_of go kind parse_item)
        (written read ns name space kind.type_name items c prefix reads there plain e)
      ∙ count_of-array_type c prefix (length items) h bound
