-- ===== src/Tests/Documents.antt =====
-- What the generators write, read back.
use cwmp_acs_go.Prelude.{String, none, some, map, List, [], ◌∷◌, ◌≡◌, refl, arith}
use cwmp_acs_go.Prelude.Int.{pos}
use cwmp_acs_go.Go.Text.{after_first}
use cwmp_acs_go.Go.Regexp.RoundTrip.{after_first-own}
use cwmp_acs_go.Cwmp.Errors.{Result, ok}
use cwmp_acs_go.Xml.Structs.{SoapElement, Attr, Namespace, soapenc_ns_url, cwmp_1_2_ns_url}
use cwmp_acs_go.Xml.Namespaces.{NamespaceMap, no_namespaces}
use cwmp_acs_go.Xml.Dom.{Attribute, Element, new_element}
use cwmp_acs_go.Generators.{spaces_of, array_element}
use cwmp_acs_go.Parsers.Arrays.{value_kind, attribute, count_of}
use cwmp_acs_go.Parsers.Arrays.RoundTrip.{attributes, ReadsAttributes, count_of-array_element}
use cwmp_acs_go.Tests.Samples.{go}

abbrev cwmp_space : Namespace
cwmp_space = record { prefix = "cwmp"; url = cwmp_1_2_ns_url }

abbrev namespaces : NamespaceMap
namespaces = record no_namespaces {
  soapenc = some (record { prefix = "soapenc"; url = soapenc_ns_url });
}

abbrev two_values : List Element
two_values = new_element "ParameterValueStruct" ∷ new_element "ParameterValueStruct" ∷ []

abbrev to_text : SoapElement → Result String
to_text e = ok ""

-- What is behind the first colon is the local name.
abbrev read : Attribute → Attr
read a = record {
  name = elim (after_first ":" a.name) [
    | none ↦ record { space = ""; local = a.name }
    | some own ↦ record { space = ""; local = own }
  ];
  value = a.value;
}

read-ReadsAttributes : ReadsAttributes read
read-ReadsAttributes prefix own value there named plain plain_own =
    rw (read, after_first-own prefix own plain) (refl, refl)

count_of-array_element_example :
    count_of go value_kind to_text (
      attribute "arrayType" (
        map read (
          attributes (
            array_element
              (spaces_of namespaces)
              "ParameterList"
              cwmp_space
              "ParameterValueStruct"
              two_values))))
    ≡ ok (pos 2)
unfolding after_first
count_of-array_element_example =
    count_of-array_element go value_kind to_text read (spaces_of namespaces) "ParameterList"
      cwmp_space two_values "c" "wmp" read-ReadsAttributes
      (λ no. let named : "soapenc" ≡ "" = no in cc) refl refl refl (omega arith)
