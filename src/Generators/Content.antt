-- ===== src/Generators/Content.antt =====
-- What the generators put into the element of the RPC: every element in it has a name.
use cwmp_acs_go.Prelude.{
  String, false, Option, none, some, List, [], ◌∷◌, ◌≡◌, ◌≢◌, refl, arith, eq_iff, ◌==◌, All, map,
}
use text.Mathlib.TextLemmas.{append-eq-nil_iff}
use cwmp_acs_go.Cwmp.Structs.{Message, ParameterValueStruct, SetParameterAttributesStruct}
use cwmp_acs_go.Go.Text.{texts}
use cwmp_acs_go.Go.Strconv.{itoa, format_bool}
use cwmp_acs_go.Xml.Structs.{Namespace}
use cwmp_acs_go.Xml.Dom.{Element, new_element, add_attr, add_children}
use cwmp_acs_go.Xml.Dom.Written.{
  IsNamed, new_element-IsNamed, add_attr-IsNamed, set_text-IsNamed, add_children-IsNamed,
}
use cwmp_acs_go.Generators.{
  Spaces, leaf, qualified, array_element, string_array, value_element, attributes_element,
  rpc_content,
}

pub literal_named : (name : String) → (name == "") ≡ false → name ≢ ""
literal_named name h = ground (arith, h, eq_iff name "")

pub qualified_named : (ns : Namespace) (name : String) → qualified ns name ≢ ""
qualified_named ns name h =
    let behind : texts (":" ∷ name ∷ []) ≡ "" = (append-eq-nil_iff.0 h).1 in
    let colon : ":" ≡ "" = (append-eq-nil_iff.0 behind).0 in literal_named ":" refl colon

pub leaf-IsNamed : (name t : String) → (name == "") ≡ false → IsNamed (leaf name t)
leaf-IsNamed name t h = set_text-IsNamed t _ (new_element-IsNamed name (literal_named name h))

array_element-IsNamed :
    (ns : Spaces) (name : String) (type_ns : Namespace) (type : String) (items : List Element)
    → (name == "") ≡ false
    → All IsNamed items
    → IsNamed (array_element ns name type_ns type items)
unfolding array_element
array_element-IsNamed ns name type_ns type items h hs =
    add_children-IsNamed items _ hs
      (add_attr-IsNamed _ _ _ (new_element-IsNamed name (literal_named name h)))

All-map :
    {A : Type 0} (f : A → Element) (xs : List A)
    → ((a : A) → IsNamed (f a))
    → All IsNamed (map f xs)
All-map f [] h = tt
All-map f (x ∷ xs) h = (h x, All-map f xs h)

string_array-IsNamed :
    (ns : Spaces) (name : String) (items : List String)
    → (name == "") ≡ false
    → IsNamed (string_array ns name items)
string_array-IsNamed ns name items h =
    array_element-IsNamed ns name ns.xsd "string" (map (leaf "string") items) h
      (All-map (leaf "string") items (λ t. leaf-IsNamed "string" t refl))

value_element-IsNamed : (ns : Spaces) (p : ParameterValueStruct) → IsNamed (value_element ns p)
unfolding value_element
value_element-IsNamed ns p =
    let value =
      add_attr (qualified ns.xsi "type") (texts (ns.xsd.prefix ∷ ":" ∷ p.type ∷ []))
        (leaf "Value" p.value) in
    add_children-IsNamed (leaf "Name" p.name ∷ value ∷ []) (new_element "ParameterValueStruct")
      (
        leaf-IsNamed "Name" p.name refl,
        (add_attr-IsNamed _ _ (leaf "Value" p.value) (leaf-IsNamed "Value" p.value refl), tt),
      )
      (new_element-IsNamed "ParameterValueStruct" (literal_named "ParameterValueStruct" refl))

attributes_element-IsNamed :
    (ns : Spaces) (p : SetParameterAttributesStruct) → IsNamed (attributes_element ns p)
unfolding attributes_element
attributes_element-IsNamed ns p =
    add_children-IsNamed
      (leaf "Name" p.name
        ∷ leaf "NotificationChange" (format_bool p.notification_change)
        ∷ leaf "Notification" (itoa p.notification)
        ∷ leaf "AccessListChange" (format_bool p.access_list_change)
        ∷ string_array ns "AccessList" p.access_list
        ∷ [])
      (new_element "SetParameterAttributesStruct")
      (
        leaf-IsNamed "Name" _ refl,
        (
          leaf-IsNamed "NotificationChange" _ refl,
          (
            leaf-IsNamed "Notification" _ refl,
            (
              leaf-IsNamed "AccessListChange" _ refl,
              (string_array-IsNamed ns "AccessList" p.access_list refl, tt),
            ),
          ),
        ),
      )
      (new_element-IsNamed "SetParameterAttributesStruct" (literal_named _ refl))

abbrev pub ContentIsNamed : Option (List Element) → Type 0
ContentIsNamed none = Unit {0}
ContentIsNamed (some content) = All IsNamed content

detail-IsNamed :
    (ns : Spaces) (code text : String)
    → IsNamed (
        add_children
          (add_children
              (leaf "FaultCode" code ∷ leaf "FaultString" text ∷ [])
              (new_element (qualified ns.cwmp "Fault"))
            ∷ [])
          (new_element "detail"))
detail-IsNamed ns code text =
    let fault =
      add_children (leaf "FaultCode" code ∷ leaf "FaultString" text ∷ [])
        (new_element (qualified ns.cwmp "Fault")) in
    let fault_named : IsNamed fault =
      add_children-IsNamed (leaf "FaultCode" code ∷ leaf "FaultString" text ∷ [])
        (new_element (qualified ns.cwmp "Fault"))
        (leaf-IsNamed "FaultCode" code refl, (leaf-IsNamed "FaultString" text refl, tt))
        (new_element-IsNamed _ (qualified_named ns.cwmp "Fault")) in
    add_children-IsNamed (fault ∷ []) (new_element "detail") (fault_named, tt)
      (new_element-IsNamed "detail" (literal_named "detail" refl))

pub rpc_content-IsNamed :
    (ns : Spaces) (message : Message) → ContentIsNamed (rpc_content ns message)
unfolding rpc_content
rpc_content-IsNamed ns (Message.add_object m) =
    (leaf-IsNamed "ObjectName" _ refl, (leaf-IsNamed "ParameterKey" _ refl, tt))
rpc_content-IsNamed ns (Message.delete_object m) =
    (leaf-IsNamed "ObjectName" _ refl, (leaf-IsNamed "ParameterKey" _ refl, tt))
rpc_content-IsNamed ns (Message.fault m) = (
  leaf-IsNamed "faultcode" _ refl,
  (leaf-IsNamed "faultstring" _ refl, (detail-IsNamed ns _ _, tt)),
)
rpc_content-IsNamed ns (Message.get_parameter_attributes m) =
    (string_array-IsNamed ns "ParameterNames" m.parameter_names refl, tt)
rpc_content-IsNamed ns (Message.get_parameter_names m) =
    (leaf-IsNamed "ParameterPath" _ refl, (leaf-IsNamed "NextLevel" _ refl, tt))
rpc_content-IsNamed ns (Message.get_parameter_values m) =
    (string_array-IsNamed ns "ParameterNames" m.parameter_names refl, tt)
rpc_content-IsNamed ns (Message.get_rpc_methods m) = tt
rpc_content-IsNamed ns (Message.get_rpc_methods_response m) =
    (string_array-IsNamed ns "MethodList" m.method_list refl, tt)
rpc_content-IsNamed ns (Message.inform_response m) = (leaf-IsNamed "MaxEnvelopes" _ refl, tt)
rpc_content-IsNamed ns (Message.reboot m) = (leaf-IsNamed "CommandKey" _ refl, tt)
rpc_content-IsNamed ns (Message.set_parameter_attributes m) = (
  array_element-IsNamed ns "ParameterList" ns.cwmp "SetParameterAttributesStruct"
      (map (attributes_element ns) m.parameter_list) refl
      (All-map (attributes_element ns) m.parameter_list (attributes_element-IsNamed ns)),
  tt,
)
rpc_content-IsNamed ns (Message.set_parameter_values m) = (
  array_element-IsNamed ns "ParameterList" ns.cwmp "ParameterValueStruct"
      (map (value_element ns) m.parameter_list) refl
      (All-map (value_element ns) m.parameter_list (value_element-IsNamed ns)),
  (leaf-IsNamed "ParameterKey" _ refl, tt),
)
rpc_content-IsNamed ns _ = tt
