-- ===== src/Tests/Opening.antt =====
-- The first Inform of a device, from the tokens of its message to the cookie of the reply.
use cwmp_acs_go.Prelude.{String, none, some, [], ◌∷◌, ◌≡◌, ◌≢◌, refl, inl}
use cwmp_acs_go.Go.Text.{trim_space, has_suffix}
use cwmp_acs_go.Go.Strconv.{atoi, itoa}
use cwmp_acs_go.Go.Regexp.{array_count}
use cwmp_acs_go.Cwmp.Versions.{version_string, max_common_version}
use cwmp_acs_go.Xml.Namespaces.{
  insert, collect_namespaces, build_namespace_map, build_from, id_of_url,
}
use cwmp_acs_go.Xml.Header.{parse_cpe_header, header_from, header_field}
use cwmp_acs_go.Xml.Envelope.{
  parse_soap_envelope, run, step, start_element, start_inside, write, pop, finish, section_of,
}
use cwmp_acs_go.Xml.Envelope.RoundTrip.{tokens, tokens_all}
use cwmp_acs_go.Xml.Dom.{encode, encode_all}
use cwmp_acs_go.Parsers.Loops.{for_each, int_or}
use cwmp_acs_go.Parsers.Arrays.{
  attribute, parse_items, check_count, count_of, parse_array, event_field, event_struct,
  parse_event_list, parse_parameter_value_struct_list, value_struct, value_field, type_of,
}
use cwmp_acs_go.Parsers.InformParser.{
  parse_inform, read_inform, inform_field, invalid_inform, first_missing, found, parse_device_id,
  device_field, check_device,
}
use cwmp_acs_go.Parsers.Table.{cwmp_message_parsers}
use cwmp_acs_go.Generators.{generate_tokens}
use cwmp_acs_go.Server.Database.{add_device}
use cwmp_acs_go.Server.Session.{create_new_session, register, terminated}
use cwmp_acs_go.Server.World.{Request, World, document}
use cwmp_acs_go.Server.Rpc.{
  is_request, process_incoming_request, process_inform_request, is_boot, register_device,
  device_info, device_parameters, device_parameter,
}
use cwmp_acs_go.Server.Incoming.{
  is_valid_namespace_map, invalid_header, determine_cwmp_version, version_parsers,
  parse_cwmp_message_via_map, generate_device_id_string, dispatch, open_session, handle_inform,
  handle_rpc, handle_envelope, handle_incoming_message, find_session,
}
use cwmp_acs_go.Server.Cwmp.{send_outgoing_msg, conclude, handle_body, cwmp_handler}
use cwmp_acs_go.Server.Cwmp.Opened.{cookie_of, Opens, cwmp_handler-Opens}
use cwmp_acs_go.Server.Cwmp.Reachable.{
  Reachable, starts, goes_on, handles, starts-IsConsistent, Reachable-cookies_differ,
  Reachable-never_terminated,
}
use cwmp_acs_go.Tests.Samples.{env, leaf, inform_element, stream, fresh}

abbrev boot : Request
boot = record {
  cookie = none;
  body = document (stream (leaf "ID" "7" ∷ []) (inform_element ∷ []));
  uuid = "new";
  now = 9;
}

inform_sets_cookie : cookie_of (cwmp_handler env boot fresh).0 ≡ some "new"
unfolding trim_space has_suffix atoi itoa array_count version_string max_common_version insert
    collect_namespaces build_namespace_map build_from id_of_url parse_cpe_header header_from
    header_field parse_soap_envelope run step start_element start_inside write pop finish section_of
    tokens tokens_all encode encode_all for_each int_or attribute parse_items check_count count_of
    parse_array event_field event_struct parse_event_list parse_parameter_value_struct_list
    value_struct value_field type_of parse_inform read_inform inform_field invalid_inform
    first_missing found parse_device_id device_field check_device cwmp_message_parsers
    generate_tokens add_device create_new_session register is_request process_incoming_request
    process_inform_request is_boot register_device device_info device_parameters device_parameter
    is_valid_namespace_map invalid_header determine_cwmp_version version_parsers
    parse_cwmp_message_via_map generate_device_id_string dispatch open_session handle_inform
    handle_rpc handle_envelope handle_incoming_message find_session send_outgoing_msg conclude
    handle_body cwmp_handler
inform_sets_cookie = refl

cwmp_handler-Opens_example : Opens "new" (cwmp_handler env boot fresh).1
cwmp_handler-Opens_example =
    cwmp_handler-Opens env boot fresh "new" (starts-IsConsistent fresh refl refl) inform_sets_cookie

-- The server behind the first Inform.
abbrev informed : World
informed = (cwmp_handler env boot fresh).1

informed_reached : Reachable informed
informed_reached = goes_on (starts refl refl) (handles env boot)

new_session : Opens "new" informed
new_session =
    cwmp_handler-Opens env boot fresh "new" (starts-IsConsistent fresh refl refl) inform_sets_cookie

Reachable-cookies_differ_example : ◌≡◌ {A = String} "new" "new"
Reachable-cookies_differ_example =
    Reachable-cookies_differ informed "new" "new" new_session.address informed_reached
      new_session.registered new_session.registered

Reachable-never_terminated_example :
    (informed.sessions.heap new_session.address).session_state ≢ terminated
Reachable-never_terminated_example =
    Reachable-never_terminated informed "new" new_session.address informed_reached
      (inl new_session.registered)
