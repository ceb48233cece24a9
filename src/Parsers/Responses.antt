-- ===== src/Parsers/Responses.antt =====
-- The parsers of responses and faults.
use cwmp_acs_go.Prelude.{String, List, [], ◌∷◌, ◌==◌, if◌then◌else◌}
use cwmp_acs_go.Prelude.Int.{pos}
use cwmp_acs_go.Go.Runtime.{Runtime}
use cwmp_acs_go.Go.Strconv.{atoi}
use cwmp_acs_go.Go.Text.{texts, lower_is}
use cwmp_acs_go.Cwmp.Structs.{
  CwmpHeader, CwmpMessage, Message, AddObjectResponse, StatusResponse, Fault, FaultSource, cpe,
  server,
}
use cwmp_acs_go.Cwmp.Errors.{Result, ok, err, other, ◌>>=◌}
use cwmp_acs_go.Xml.Structs.{SoapElement, local, text, children}
use cwmp_acs_go.Parsers.Loops.{for_each, or_error, num_error, int_or}
use cwmp_acs_go.Parsers.Arrays.{
  parse_parameter_attribute_struct_list, parse_parameter_info_struct_list,
  parse_parameter_value_struct_list, parse_method_list,
}

abbrev pub named : String → CwmpHeader → CwmpMessage
named name header = record { name = name; header = header }

unfoldable pub add_object_field : SoapElement → AddObjectResponse → Result AddObjectResponse
add_object_field e m =
    if local e == "InstanceNumber"
    then (do
      n ← int_or (text e) "InstanceNumber is not valid integer in AddObjectResponse"
      ok (record m { instance_number = n }))
    else if local e == "Status"
    then (do
      n ← int_or (text e) "Status is not valid integer in AddObjectResponse"
      ok (record m { status = n }))
    else ok m

unfoldable pub parse_add_object_response : SoapElement → CwmpHeader → Result Message
parse_add_object_response elem header = do
  m ←
      for_each add_object_field (children elem) (record {
        base = named "AddObjectResponse" header;
        instance_number = pos 0;
        status = pos 0;
      })
  ok (Message.add_object_response m)

-- The loop of ParseDeleteObjectResponse and ParseSetParameterValuesResponse.
unfoldable pub status_field : String → SoapElement → StatusResponse → Result StatusResponse
status_field message e m =
    if local e == "Status"
    then (do n ← int_or (text e) message; ok (record m { status = n }))
    else ok m

unfoldable pub parse_delete_object_response : SoapElement → CwmpHeader → Result Message
parse_delete_object_response elem header = do
  m ←
      for_each (status_field "Status is not valid integer in DeleteObjectResponse") (children elem)
        (record { base = named "DeleteObjectResponse" header; status = pos 0 })
  ok (Message.delete_object_response m)

unfoldable pub parse_set_parameter_values_response : SoapElement → CwmpHeader → Result Message
parse_set_parameter_values_response elem header = do
  m ←
      for_each (status_field "SetParameterValuesResponse contains invalid Status value")
        (children elem)
        (record { base = named "SetParameterValuesResponse" header; status = pos 0 })
  ok (Message.set_parameter_values_response m)

-- A fault code outside SOAP's two words leaves the source as it is.
unfoldable pub source_of : String → FaultSource → FaultSource
source_of value old =
    if lower_is value "client" then cpe else if lower_is value "server" then server else old

unfoldable pub fault_detail_field : Runtime → SoapElement → Fault → Result Fault
fault_detail_field go e m =
    if local e == "FaultCode"
    then (do
      n ← or_error (atoi (text e)) λ why. err (
          other (
            texts (
              "invalid FaultCode value in Fault detail: " ∷ num_error go "Atoi" (text e) why ∷ [])))
      ok (record m { fault_code = n }))
    else if local e == "FaultString"
    then ok (record m { fault_string = text e })
    else ok m

unfoldable pub fault_detail : Runtime → SoapElement → Fault → Result Fault
fault_detail go e m =
    if local e == "Fault" then for_each (fault_detail_field go) (children e) m else ok m

unfoldable pub fault_field : Runtime → SoapElement → Fault → Result Fault
fault_field go e m =
    if local e == "faultcode"
    then ok (record m { source = source_of (text e) m.source })
    else if local e == "faultstring"
    then ok (record m { fault_string = text e })
    else if local e == "detail"
    then for_each (fault_detail go) (children e) m
    else ok m

-- The zero value of the source is FaultSourceCPE.
unfoldable pub parse_fault : Runtime → SoapElement → CwmpHeader → Result Message
parse_fault go elem header = do
  m ←
      for_each (fault_field go) (children elem) (record {
        base = named "Fault" header;
        source = cpe;
        fault_code = pos 0;
        fault_string = "";
      })
  ok (Message.fault m)

-- The loop of the four responses that hold one list: each element called `name` replaces the list.
unfoldable pub list_field :
    {A : Type 0} → String → (SoapElement → Result (List A)) → SoapElement → List A → Result (List A)
list_field name parse e old = if local e == name then parse e else ok old

unfoldable pub parse_get_parameter_attributes_response :
    Runtime → SoapElement → CwmpHeader → Result Message
parse_get_parameter_attributes_response go elem header = do
  l ←
      for_each (list_field "ParameterList" (parse_parameter_attribute_struct_list go))
        (children elem) []
  ok (
      Message.get_parameter_attributes_response
        (record { base = named "GetParameterAttributesResponse" header; parameter_list = l }))

unfoldable pub parse_get_parameter_names_response :
    Runtime → SoapElement → CwmpHeader → Result Message
parse_get_parameter_names_response go elem header = do
  l ← for_each (list_field "ParameterList" (parse_parameter_info_struct_list go)) (children elem) []
  ok (
      Message.get_parameter_names_response
        (record { base = named "GetParameterNamesResponse" header; parameter_list = l }))

unfoldable pub parse_get_parameter_values_response :
    Runtime → SoapElement → CwmpHeader → Result Message
parse_get_parameter_values_response go elem header = do
  l ←
      for_each (list_field "ParameterList" (parse_parameter_value_struct_list go)) (children elem)
        []
  ok (
      Message.get_parameter_values_response
        (record { base = named "GetParameterValuesResponse" header; parameter_list = l }))

unfoldable pub parse_get_rpc_methods_response : Runtime → SoapElement → CwmpHeader → Result Message
parse_get_rpc_methods_response go elem header = do
  l ← for_each (list_field "MethodList" (parse_method_list go)) (children elem) []
  ok (
      Message.get_rpc_methods_response
        (record { base = named "GetRPCMethodsResponse" header; method_list = l }))

-- The three messages with no content of their own.
unfoldable pub parse_get_rpc_methods : SoapElement → CwmpHeader → Result Message
parse_get_rpc_methods elem header = ok (Message.get_rpc_methods (named "GetRPCMethods" header))

unfoldable pub parse_reboot_response : SoapElement → CwmpHeader → Result Message
parse_reboot_response elem header = ok (Message.reboot_response (named "RebootResponse" header))

unfoldable pub parse_set_parameter_attributes_response : SoapElement → CwmpHeader → Result Message
parse_set_parameter_attributes_response elem header =
    ok (Message.set_parameter_attributes_response (named "SetParameterAttributesResponse" header))
