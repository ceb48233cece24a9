-- ===== src/Parsers/Arrays.antt =====
-- The five list parsers: parseParameterAttributeStructList, parseParameterInfoStructList,
-- parseMethodList, parseEventList, parseParameterValueStructList. Their common course is
-- `parse_array`; an `ArrayKind` holds the words in which they differ.
pub mod Counted
pub mod RoundTrip
use cwmp_acs_go.Prelude.{
  ℕ, String, Bool, true, false, not, Option, none, some, List, [], ◌∷◌, ◌++◌, ◌==◌, if◌then◌else◌,
  length,
}
use cwmp_acs_go.Prelude.Int.{ℤ, pos, eqb_ℤ}
use cwmp_acs_go.Go.Runtime.{Runtime}
use cwmp_acs_go.Go.Strconv.{atoi, itoa, parse_bool}
use cwmp_acs_go.Go.Text.{texts, trim_space, after_last, join}
use cwmp_acs_go.Go.Regexp.{array_count}
use cwmp_acs_go.Cwmp.Structs.{
  Event, ParameterAttributeStruct, ParameterInfoStruct, ParameterValueStruct,
}
use cwmp_acs_go.Cwmp.Errors.{Result, ok, ◌>>=◌, invalid_arguments}
use cwmp_acs_go.Xml.Structs.{SoapElement, Attr, local, text, attrs, children}
use cwmp_acs_go.Parsers.Loops.{for_each, or_error, num_error}

pub record ArrayKind : Type 0 where
  -- the element type in the pattern of arrayType
  pub type_name : String
  -- the name of an item's element
  pub item : String
  pub missing : String
  pub invalid : String
  pub unexpected : String
  pub mismatch : ℤ → ℕ → String

-- The value of the first attribute with the local name `key`, or "".
unfoldable pub attribute : String → List Attr → String
attribute key [] = ""
attribute key (a ∷ rest) = if a.name.local == key then a.value else attribute key rest

module _ {A : Type 0} (go : Runtime) (kind : ArrayKind) (parse_item : SoapElement → Result A) where
  unfoldable pub parse_items : List SoapElement → Result (List A)
  parse_items [] = ok []
  parse_items (e ∷ es) =
      if local e == kind.item
      then (do a ← parse_item e; rest ← parse_items es; ok (a ∷ rest))
      else invalid_arguments (texts (kind.unexpected ∷ local e ∷ []))

  unfoldable pub check_count : ℤ → List A → Result (List A)
  check_count count items =
      if eqb_ℤ (pos (length items)) count
      then ok items
      else invalid_arguments (kind.mismatch count (length items))

  unfoldable pub count_of : String → Result ℤ
  count_of array_type =
      if array_type == ""
      then invalid_arguments kind.missing
      else elim (array_count kind.type_name array_type) [
        | none ↦ invalid_arguments (texts (kind.invalid ∷ array_type ∷ []))
        | some digits ↦ or_error (atoi digits) λ why.
            invalid_arguments
              (texts ("invalid item count in arrayType: " ∷ num_error go "Atoi" digits why ∷ []))
      ]

  unfoldable pub parse_array : SoapElement → Result (List A)
  parse_array elem = do
    count ← count_of (attribute "arrayType" (attrs elem))
    items ← parse_items (children elem)
    check_count count items

-- `fmt.Sprintf("<what> item count mismatch: expected %d, got %d", itemCount, len)`
abbrev expected_got : String → ℤ → ℕ → String
expected_got what expected got =
    texts
      (what ∷ " item count mismatch: expected " ∷ itoa expected ∷ ", got " ∷ itoa (pos got) ∷ [])

-- The three kinds of ParameterList.
abbrev parameter_list : String → (ℤ → ℕ → String) → ArrayKind
parameter_list name mismatch = record {
  type_name = name;
  item = name;
  missing = "ParameterList is missing arrayType attribute";
  invalid = "invalid arrayType for ParameterList: ";
  unexpected = "unexpected element in ParameterList: ";
  mismatch = mismatch;
}

abbrev pub attribute_kind : ArrayKind
attribute_kind = parameter_list "ParameterAttributeStruct" λ expected got. texts (
    "mismatch between arrayType item count ("
    ∷ itoa expected
    ∷ ") and actual items ("
    ∷ itoa (pos got)
    ∷ ")"
    ∷ [])

abbrev pub info_kind : ArrayKind
info_kind = parameter_list "ParameterInfoStruct" (expected_got "ParameterList")

abbrev pub value_kind : ArrayKind
value_kind = parameter_list "ParameterValueStruct" (expected_got "ParameterList")

abbrev pub method_kind : ArrayKind
method_kind = record {
  type_name = "string";
  item = "string";
  missing = "MethodList is missing arrayType attribute";
  invalid = "invalid arrayType for MethodList: ";
  unexpected = "unexpected element in MethodList: ";
  mismatch = expected_got "MethodList";
}

abbrev pub event_kind : ArrayKind
event_kind = record {
  type_name = "EventStruct";
  item = "EventStruct";
  missing = "Event list is missing arrayType attribute";
  invalid = "invalid arrayType for Event list: ";
  unexpected = "unexpected element in Event list: ";
  mismatch = expected_got "Event";
}

-- The children named `string`, as an AccessList appends them.
unfoldable pub access_list : List SoapElement → List String
access_list [] = []
access_list (e ∷ es) =
    let rest = access_list es in if local e == "string" then text e ∷ rest else rest

unfoldable pub attribute_field :
    Runtime → SoapElement → ParameterAttributeStruct → Result ParameterAttributeStruct
attribute_field go e param =
    if local e == "Name"
    then ok (record param { name = text e })
    else if local e == "Notification"
    then (do
      n ← or_error (atoi (text e)) λ why. invalid_arguments (
          texts (
            "invalid integer value for Notification in ParameterAttributeStruct: "
            ∷ num_error go "Atoi" (text e) why
            ∷ []))
      ok (record param { notification = n }))
    else if local e == "AccessList"
    then ok (record param { access_list = param.access_list ++ access_list (children e) })
    else ok param

unfoldable pub attribute_struct : Runtime → SoapElement → Result ParameterAttributeStruct
attribute_struct go e =
    for_each (attribute_field go) (children e)
      (record { name = ""; notification = pos 0; access_list = [] })

unfoldable pub info_field : Runtime → SoapElement → ParameterInfoStruct → Result ParameterInfoStruct
info_field go e param =
    if local e == "Name"
    then ok (record param { name = text e })
    else if local e == "Writable"
    then (do
      b ← or_error (parse_bool (trim_space (text e))) λ why. invalid_arguments (
          texts (
            "invalid boolean value for Writable in ParameterInfoStruct: "
            ∷ num_error go "ParseBool" (trim_space (text e)) why
            ∷ []))
      ok (record param { writable = b }))
    else invalid_arguments (texts ("unexpected element in ParameterInfoStruct: " ∷ local e ∷ []))

unfoldable pub info_struct : Runtime → SoapElement → Result ParameterInfoStruct
info_struct go e = for_each (info_field go) (children e) (record { name = ""; writable = false })

-- The type of a value: its first `type` attribute without the prefix; kept as it was if none.
unfoldable pub type_of : List Attr → String → String
type_of [] old = old
type_of (a ∷ rest) old =
    if a.name.local == "type" then join a.value (after_last ":" a.value) else type_of rest old

unfoldable pub value_field : SoapElement → ParameterValueStruct → Result ParameterValueStruct
value_field e param =
    if local e == "Name"
    then ok (record param { name = text e })
    else if local e == "Value"
    then ok (record param { value = text e; type = type_of (attrs e) param.type })
    else invalid_arguments (texts ("unexpected element in ParameterValueStruct: " ∷ local e ∷ []))

unfoldable pub value_struct : SoapElement → Result ParameterValueStruct
value_struct e = for_each value_field (children e) (record { name = ""; value = ""; type = "" })

unfoldable pub event_field : SoapElement → Event → Result Event
event_field e event =
    if local e == "EventCode"
    then ok (record event { event_code = text e })
    else if local e == "CommandKey"
    then ok (record event { command_key = text e })
    else invalid_arguments (texts ("unexpected element in EventStruct: " ∷ local e ∷ []))

unfoldable pub event_struct : SoapElement → Result Event
event_struct e = for_each event_field (children e) (record { event_code = ""; command_key = "" })

unfoldable pub parse_parameter_attribute_struct_list :
    Runtime → SoapElement → Result (List ParameterAttributeStruct)
parse_parameter_attribute_struct_list go = parse_array go attribute_kind (attribute_struct go)

unfoldable pub parse_parameter_info_struct_list :
    Runtime → SoapElement → Result (List ParameterInfoStruct)
parse_parameter_info_struct_list go = parse_array go info_kind (info_struct go)

unfoldable pub parse_parameter_value_struct_list :
    Runtime → SoapElement → Result (List ParameterValueStruct)
parse_parameter_value_struct_list go = parse_array go value_kind value_struct

unfoldable pub parse_event_list : Runtime → SoapElement → Result (List Event)
parse_event_list go = parse_array go event_kind event_struct

unfoldable pub parse_method_list : Runtime → SoapElement → Result (List String)
parse_method_list go = parse_array go method_kind (λ e. ok (text e))
