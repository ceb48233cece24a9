-- ===== src/Generators.antt =====
-- internal/xml/cwmp_1_4/generators.go: from a message to a document.
pub mod Content
pub mod Written
use cwmp_acs_go.Prelude.{
  String, Bool, Option, none, some, List, [], ◌∷◌, ◌==◌, if◌then◌else◌, map, length,
}
use cwmp_acs_go.Prelude.Int.{pos}
use cwmp_acs_go.Go.Strconv.{itoa, format_bool}
use cwmp_acs_go.Go.Text.{texts}
use cwmp_acs_go.Cwmp.Structs.{
  Message, get_name, get_id, ParameterValueStruct, SetParameterAttributesStruct, source_string,
}
use cwmp_acs_go.Xml.Structs.{Namespace}
use cwmp_acs_go.Xml.Namespaces.{NamespaceMap, or_zero}
use cwmp_acs_go.Xml.Dom.{
  Element, Token, new_element, add_attr, set_text, add_child, add_children, encode, serialize,
}

-- The five namespaces of a message, as `namespaces[id]` reads them.
pub record Spaces : Type 0 where
  pub soapenv : Namespace
  pub soapenc : Namespace
  pub xsd : Namespace
  pub xsi : Namespace
  pub cwmp : Namespace

abbrev pub spaces_of : NamespaceMap → Spaces
spaces_of m = record {
  soapenv = or_zero m.soapenv;
  soapenc = or_zero m.soapenc;
  xsd = or_zero m.xsd;
  xsi = or_zero m.xsi;
  cwmp = or_zero m.cwmp;
}

abbrev pub leaf : String → String → Element
leaf name t = set_text t (new_element name)

abbrev pub qualified : Namespace → String → String
qualified ns name = texts (ns.prefix ∷ ":" ∷ name ∷ [])

abbrev pub declare : Namespace → Element → Element
declare ns e = add_attr (texts ("xmlns:" ∷ ns.prefix ∷ [])) ns.url e

abbrev pub must_understand : Spaces → Element → Element
must_understand ns e = add_attr (qualified ns.soapenv "mustUnderstand") "1" e

-- generateMessageParts, with what the generator adds to the RPC element and to the header.
unfoldable pub generate_message : Spaces → Message → List Element → List Element → Element
unfolding new_element add_attr set_text add_child add_children
generate_message ns message extra_header rpc_children =
    let id = must_understand ns (leaf (qualified ns.cwmp "ID") (get_id message)) in
    let header =
      add_children extra_header (add_child id (new_element (qualified ns.soapenv "Header"))) in
    let rpc = add_children rpc_children (new_element (qualified ns.cwmp (get_name message))) in
    let body = add_child rpc (new_element (qualified ns.soapenv "Body")) in
    let envelope = declare ns.cwmp (
      declare ns.xsi (
        declare ns.xsd (
          declare ns.soapenc
            (declare ns.soapenv (new_element (qualified ns.soapenv "Envelope")))))) in
    add_child body (add_child header envelope)

-- An element with an `arrayType` attribute: `<prefix>:<type>[<count>]`.
unfoldable pub array_element : Spaces → String → Namespace → String → List Element → Element
unfolding new_element add_attr add_children
array_element ns name type_ns type items = add_children items (
    add_attr (qualified ns.soapenc "arrayType")
      (texts (type_ns.prefix ∷ ":" ∷ type ∷ "[" ∷ itoa (pos (length items)) ∷ "]" ∷ []))
      (new_element name))

abbrev pub string_array : Spaces → String → List String → Element
string_array ns name items = array_element ns name ns.xsd "string" (map (leaf "string") items)

unfoldable pub value_element : Spaces → ParameterValueStruct → Element
unfolding new_element add_attr set_text add_children
value_element ns p =
    add_children
      (leaf "Name" p.name
        ∷ add_attr (qualified ns.xsi "type") (texts (ns.xsd.prefix ∷ ":" ∷ p.type ∷ []))
            (leaf "Value" p.value)
        ∷ [])
      (new_element "ParameterValueStruct")

unfoldable pub attributes_element : Spaces → SetParameterAttributesStruct → Element
unfolding new_element set_text add_children array_element
attributes_element ns p =
    add_children
      (leaf "Name" p.name
        ∷ leaf "NotificationChange" (format_bool p.notification_change)
        ∷ leaf "Notification" (itoa p.notification)
        ∷ leaf "AccessListChange" (format_bool p.access_list_change)
        ∷ string_array ns "AccessList" p.access_list
        ∷ [])
      (new_element "SetParameterAttributesStruct")

-- Outside the header's ID: what each generator adds to the header.
abbrev pub header_extra : Spaces → Message → List Element
header_extra ns (Message.inform_response m) =
    if m.base.header.use_cwmp_version == ""
    then []
    else must_understand ns
        (leaf (qualified ns.cwmp "UseCWMPVersion") m.base.header.use_cwmp_version)
      ∷ []
header_extra ns m = []

-- The children of the RPC element, by the type of the message; `none` for the types that have no
-- generator.
unfoldable pub rpc_content : Spaces → Message → Option (List Element)
unfolding new_element set_text add_children array_element value_element attributes_element
rpc_content ns (Message.add_object m) =
    some (leaf "ObjectName" m.object_name ∷ leaf "ParameterKey" m.parameter_key ∷ [])
rpc_content ns (Message.delete_object m) =
    some (leaf "ObjectName" m.object_name ∷ leaf "ParameterKey" m.parameter_key ∷ [])
rpc_content ns (Message.fault m) = some (
    leaf "faultcode" (source_string m.source)
    ∷ leaf "faultstring" "CWMP fault"
    ∷ add_children
        (add_children
            (leaf "FaultCode" (itoa m.fault_code) ∷ leaf "FaultString" m.fault_string ∷ [])
            (new_element (qualified ns.cwmp "Fault"))
          ∷ [])
        (new_element "detail")
    ∷ [])
rpc_content ns (Message.get_parameter_attributes m) =
    some (string_array ns "ParameterNames" m.parameter_names ∷ [])
rpc_content ns (Message.get_parameter_names m) =
    some (leaf "ParameterPath" m.parameter_path ∷ leaf "NextLevel" (format_bool m.next_level) ∷ [])
rpc_content ns (Message.get_parameter_values m) =
    some (string_array ns "ParameterNames" m.parameter_names ∷ [])
rpc_content ns (Message.get_rpc_methods m) = some []
rpc_content ns (Message.get_rpc_methods_response m) =
    some (string_array ns "MethodList" m.method_list ∷ [])
rpc_content ns (Message.inform_response m) = some (leaf "MaxEnvelopes" (itoa m.max_envelopes) ∷ [])
rpc_content ns (Message.reboot m) = some (leaf "CommandKey" m.command_key ∷ [])
rpc_content ns (Message.set_parameter_attributes m) = some (
    array_element ns "ParameterList" ns.cwmp "SetParameterAttributesStruct"
      (map (attributes_element ns) m.parameter_list)
    ∷ [])
rpc_content ns (Message.set_parameter_values m) = some (
    array_element ns "ParameterList" ns.cwmp "ParameterValueStruct"
      (map (value_element ns) m.parameter_list)
    ∷ leaf "ParameterKey" m.parameter_key
    ∷ [])
rpc_content ns _ = none

-- The type of message that the generator under a name of the map asserts.
unfoldable pub asserts : String → Message → Bool
asserts name (Message.add_object m) = name == "AddObject"
asserts name (Message.delete_object m) = name == "DeleteObject"
asserts name (Message.fault m) = name == "Fault"
asserts name (Message.get_parameter_attributes m) = name == "GetParameterAttributes"
asserts name (Message.get_parameter_names m) = name == "GetParameterNames"
asserts name (Message.get_parameter_values m) = name == "GetParameterValues"
asserts name (Message.get_rpc_methods m) = name == "GetRPCMethods"
asserts name (Message.get_rpc_methods_response m) = name == "GetRPCMethodsResponse"
asserts name (Message.inform_response m) = name == "InformResponse"
asserts name (Message.reboot m) = name == "Reboot"
asserts name (Message.set_parameter_attributes m) = name == "SetParameterAttributes"
asserts name (Message.set_parameter_values m) = name == "SetParameterValues"
asserts name _ = Bool.false

abbrev pub document_of : NamespaceMap → Message → Option (List Element) → Option Element
document_of m message none = none
document_of m message (some content) =
    some (generate_message (spaces_of m) message (header_extra (spaces_of m) message) content)

-- The generator that the map CwmpMessageGenerators holds under the message's name, applied to it;
-- `none` where there is no generator, or where its type assertion fails.
unfoldable pub generate : NamespaceMap → Message → Option Element
unfolding rpc_content generate_message asserts
generate m message =
    if asserts (get_name message) message
    then document_of m message (rpc_content (spaces_of m) message)
    else none

-- Generation and Serialize.
unfoldable pub generate_tokens : NamespaceMap → Message → Option (List Token)
unfolding generate encode
generate_tokens m message = elim (generate m message) [ none ↦ none | some doc ↦ serialize doc ]
