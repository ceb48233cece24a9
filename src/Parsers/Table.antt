-- ===== src/Parsers/Table.antt =====
-- The map CwmpMessageParsers.
use cwmp_acs_go.Prelude.{String, Option, none, some, ◌==◌, if◌then◌else◌}
use cwmp_acs_go.Go.Runtime.{Runtime}
use cwmp_acs_go.Cwmp.Structs.{CwmpHeader, Message}
use cwmp_acs_go.Cwmp.Errors.{Result}
use cwmp_acs_go.Xml.Structs.{SoapElement}
use cwmp_acs_go.Parsers.Responses.{
  parse_add_object_response, parse_delete_object_response, parse_fault,
  parse_get_parameter_attributes_response, parse_get_parameter_names_response,
  parse_get_parameter_values_response, parse_get_rpc_methods, parse_get_rpc_methods_response,
  parse_reboot_response, parse_set_parameter_attributes_response,
  parse_set_parameter_values_response,
}
use cwmp_acs_go.Parsers.InformParser.{parse_inform}

abbrev pub MessageParser : Type 0
MessageParser = SoapElement → CwmpHeader → Result Message

unfoldable pub cwmp_message_parsers : Runtime → String → Option MessageParser
cwmp_message_parsers go name =
    if name == "AddObjectResponse"
    then some parse_add_object_response
    else if name == "DeleteObjectResponse"
    then some parse_delete_object_response
    else if name == "Fault"
    then some (parse_fault go)
    else if name == "GetParameterAttributesResponse"
    then some (parse_get_parameter_attributes_response go)
    else if name == "GetParameterNamesResponse"
    then some (parse_get_parameter_names_response go)
    else if name == "GetParameterValuesResponse"
    then some (parse_get_parameter_values_response go)
    else if name == "GetRPCMethods"
    then some parse_get_rpc_methods
    else if name == "GetRPCMethodsResponse"
    then some (parse_get_rpc_methods_response go)
    else if name == "Inform"
    then some (parse_inform go)
    else if name == "RebootResponse"
    then some parse_reboot_response
    else if name == "SetParameterAttributesResponse"
    then some parse_set_parameter_attributes_response
    else if name == "SetParameterValuesResponse"
    then some parse_set_parameter_values_response
    else none
