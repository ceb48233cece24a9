-- ===== src/Tests/Messages.antt =====
-- Versions, envelopes and parsers at concrete inputs.
use cwmp_acs_go.Prelude.{[], ◌∷◌, ◌≡◌, refl, arith}
use cwmp_acs_go.Go.Text.{trim_space, has_suffix}
use cwmp_acs_go.Go.Strconv.{atoi}
use cwmp_acs_go.Go.Regexp.{array_count}
use cwmp_acs_go.Parsers.Loops.{for_each, int_or}
use cwmp_acs_go.Parsers.InformParser.{
  parse_inform, read_inform, inform_field, invalid_inform, first_missing, found, parse_device_id,
  device_field, check_device,
}
use cwmp_acs_go.Cwmp.Structs.{header_of_id}
use cwmp_acs_go.Cwmp.Versions.{scanned, max_common_version}
use cwmp_acs_go.Cwmp.Versions.Max.{
  IsMaxCommon, max_common_version-IsMaxCommon, max_common_version_order,
}
use cwmp_acs_go.Xml.Structs.{of_list}
use cwmp_acs_go.Xml.Namespaces.{insert, collect_namespaces, build_namespace_map}
use cwmp_acs_go.Xml.Namespaces.Declared.{FindsDeclared, build_namespace_map-FindsDeclared}
use cwmp_acs_go.Xml.Envelope.{parse_soap_envelope, ok}
use cwmp_acs_go.Xml.Envelope.RoundTrip.{parse_soap_envelope-tokens}
use cwmp_acs_go.Xml.Header.{parse_cpe_header}
use cwmp_acs_go.Xml.Header.Guards.{parse_cpe_header-guards}
use cwmp_acs_go.Parsers.Arrays.{
  attribute, parse_items, check_count, count_of, parse_array, event_kind, event_field, event_struct,
  parse_event_list, parse_parameter_value_struct_list, value_struct, value_field, type_of,
}
use cwmp_acs_go.Parsers.Arrays.Counted.{IsCounted, parse_array-IsCounted}
use cwmp_acs_go.Parsers.InformParser.Valid.{IsValid, parse_inform-IsValid}
use cwmp_acs_go.Tests.Samples.{
  go, leaf, node, event_list, boot_events, inform_element, sample_inform, stream, envelope,
  envelope_attrs,
}

max_common_version-IsMaxCommon_example : IsMaxCommon "1.0, 1.2" (max_common_version "1.0, 1.2")
max_common_version-IsMaxCommon_example = max_common_version-IsMaxCommon "1.0, 1.2"

max_common_version_order_example : max_common_version "1.2,1.0" ≡ max_common_version " 1.0, 1.2,1.0"
unfolding scanned
max_common_version_order_example =
    max_common_version_order "1.2,1.0" " 1.0, 1.2,1.0" (λ v. (λ h. ground arith, λ h. ground arith))

parse_soap_envelope-tokens_example :
    parse_soap_envelope (stream (leaf "ID" "7" ∷ []) (node "Ping" (leaf "Text" "a b" ∷ []) ∷ []))
    ≡ ok (envelope (leaf "ID" "7" ∷ []) (node "Ping" (leaf "Text" "a b" ∷ []) ∷ []))
unfolding trim_space collect_namespaces insert
parse_soap_envelope-tokens_example =
    parse_soap_envelope-tokens envelope_attrs [] (of_list (leaf "ID" "7" ∷ [])) []
      (of_list (node "Ping" (leaf "Text" "a b" ∷ []) ∷ [])) (((refl, refl), refl, tt), tt)
      (((refl, refl), refl, (((refl, refl), refl, tt), tt)), tt)

parse_cpe_header-guards_example :
    ((parse_cpe_header (node "Header" (leaf "HoldRequests" "1" ∷ []))).use_cwmp_version ≡ "")
    × ((parse_cpe_header (node "Header" (leaf "HoldRequests" "1" ∷ []))).hold_requests ≡ "")
parse_cpe_header-guards_example =
    parse_cpe_header-guards (node "Header" (leaf "HoldRequests" "1" ∷ []))

parse_array-IsCounted_example : IsCounted go event_kind event_struct event_list boot_events
unfolding parse_array parse_items count_of check_count attribute event_struct event_field for_each
    array_count atoi
parse_array-IsCounted_example =
    parse_array-IsCounted go event_kind event_struct event_list boot_events refl

parse_inform-IsValid_example : IsValid (header_of_id "7") (sample_inform (header_of_id "7"))
unfolding parse_inform read_inform inform_field invalid_inform first_missing found parse_device_id
    device_field check_device parse_event_list parse_parameter_value_struct_list value_struct
    value_field type_of parse_array parse_items count_of check_count attribute event_struct
    event_field for_each int_or array_count atoi has_suffix
parse_inform-IsValid_example =
    parse_inform-IsValid go inform_element (header_of_id "7") (sample_inform (header_of_id "7"))
      (λ name h. h) refl

build_namespace_map-FindsDeclared_example :
    FindsDeclared (envelope [] []).namespaces (build_namespace_map go (envelope [] []).namespaces)
build_namespace_map-FindsDeclared_example =
    build_namespace_map-FindsDeclared go (envelope [] []).namespaces (λ e. (λ h. h, λ h. h))
