-- ===== src/Parsers/Arrays/Counted.antt =====
-- What a list that one of the five list parsers returns has to do with the element.
use cwmp_acs_go.Prelude.{
  String, some, List, [], ◌∷◌, ◌≡◌, ap, ◌∙◌, subst, arith, eq_iff, ◌==◌, inl, inr, Bool-cases,
  length,
}
use cwmp_acs_go.Prelude.Int.{ℤ, pos}
use cwmp_acs_go.Go.Runtime.{Runtime}
use cwmp_acs_go.Go.Strconv.{NumResult, atoi}
use cwmp_acs_go.Go.Regexp.{array_count}
use cwmp_acs_go.Cwmp.Errors.{Result, ok, err, >>=-eq-ok, ok-injective}
use cwmp_acs_go.Xml.Structs.{SoapElement, local, attrs, children}
use cwmp_acs_go.Parsers.Arrays.{
  ArrayKind, attribute, parse_items, check_count, count_of, parse_array,
}

module _ {A : Type 0} (go : Runtime) (kind : ArrayKind) (parse_item : SoapElement → Result A) where
  -- The items stand for the elements, one by one and in their order.
  abbrev pub Parsed : List SoapElement → List A → Type 0
  Parsed [] [] = Unit {0}
  Parsed (e ∷ es) (a ∷ as') = ((local e ≡ kind.item) × (parse_item e ≡ ok a)) × Parsed es as'
  Parsed _ _ = ⊥

  -- The element's arrayType has the right form, and its count is the number of items.
  pub record IsCounted (elem : SoapElement) (items : List A) : Type 0 where
    pub digits : String
    pub type_matches : array_count kind.type_name (attribute "arrayType" (attrs elem)) ≡ some digits
    pub count : atoi digits ≡ NumResult.ok (pos (length items))
    pub parsed : Parsed (children elem) items

  parse_items-Parsed :
      (es : List SoapElement) (items : List A)
      → parse_items go kind parse_item es ≡ ok items
      → Parsed es items
  unfolding parse_items
  parse_items-Parsed [] [] h = tt
  parse_items-Parsed [] (a ∷ as') h = cc
  parse_items-Parsed (e ∷ es) items h = elim (Bool-cases (local e == kind.item)) [
    | inr n ↦ absurd (let k : err _ ≡ ok items = rw n at h in cc)
    | inl y ↦
        let k = rw y at h in
        let (a, first, later) = >>=-eq-ok (parse_item e) _ k in
        let (rest, others, same) = >>=-eq-ok (parse_items go kind parse_item es) _ later in
        subst (Parsed (e ∷ es)) (ok-injective same)
          (((eq_iff (local e) kind.item).0 y, first), parse_items-Parsed es rest others)
  ]

  count_of-eq :
      (t : String) (n : ℤ)
      → count_of go kind parse_item t ≡ ok n
      → (digits : String) × (array_count kind.type_name t ≡ some digits)
        × (atoi digits ≡ NumResult.ok n)
  unfolding count_of
  count_of-eq t n h = ground arith

  check_count-eq :
      (n : ℤ) (items result : List A)
      → check_count go kind parse_item n items ≡ ok result
      → (n ≡ pos (length result)) × (items ≡ result)
  unfolding check_count
  check_count-eq n items result h = ground arith

  -- A list parser that succeeds has read an arrayType of its own kind whose count is the number of
  -- items that it returns, and every child of the element, in order, has the item's name and parses to
  -- the item at its place.
  pub parse_array-IsCounted :
      (elem : SoapElement) (items : List A)
      → parse_array go kind parse_item elem ≡ ok items
      → IsCounted elem items
  unfolding parse_array
  parse_array-IsCounted elem items h =
      let (n, counted, more) =
        >>=-eq-ok (count_of go kind parse_item (attribute "arrayType" (attrs elem))) _ h in
      let (all, read, checked) =
        >>=-eq-ok (parse_items go kind parse_item (children elem)) _ more in
      let (digits, matches, value) = count_of-eq (attribute "arrayType" (attrs elem)) n counted in
      let (is_n, is_all) = check_count-eq n all items checked in
      record {
        digits = digits;
        type_matches = matches;
        count = value ∙ ap NumResult.ok is_n;
        parsed =
            subst (Parsed (children elem)) is_all (parse_items-Parsed (children elem) all read);
      }
