-- ===== src/Server/Build/Requests.antt =====
-- The messages that buildCwmpMessageFromParts makes.
use cwmp_acs_go.Prelude.{
  String, Bool, true, false, List, [], ◌∷◌, ◌≡◌, refl, sym, subst, eq_iff, ◌==◌, if◌then◌else◌, inl,
  inr, Bool-cases,
}
use cwmp_acs_go.Cwmp.Structs.{Message, ParameterValueStruct, SetParameterAttributesStruct, get_id}
use cwmp_acs_go.Cwmp.Errors.{Result, ok, err, other, ◌>>=◌}
use cwmp_acs_go.Server.Build.{
  Json, base, Decoded, decoded, malformed, or_invalid, reboot_key, add_object_from,
  delete_object_from, get_attributes_from, get_values_from, get_names_from, reboot_from,
  set_attributes_from, set_values_from, build_cwmp_message_from_parts,
}

-- A request of the server to a device, with its id and its name: the nine forms.
pub data IsRequest (id : String) : String → Message → Type 0 where
  add_object :
      (object key : String)
      → IsRequest id "AddObject" (
          Message.add_object
            (record { base = base "AddObject" id; object_name = object; parameter_key = key }))
  delete_object :
      (object key : String)
      → IsRequest id "DeleteObject" (
          Message.delete_object
            (record { base = base "DeleteObject" id; object_name = object; parameter_key = key }))
  get_parameter_attributes :
      (names : List String)
      → IsRequest id "GetParameterAttributes" (
          Message.get_parameter_attributes
            (record { base = base "GetParameterAttributes" id; parameter_names = names }))
  get_parameter_values :
      (names : List String)
      → IsRequest id "GetParameterValues" (
          Message.get_parameter_values
            (record { base = base "GetParameterValues" id; parameter_names = names }))
  get_parameter_names :
      (path : String) (next : Bool)
      → IsRequest id "GetParameterNames" (
          Message.get_parameter_names (record {
            base = base "GetParameterNames" id;
            parameter_path = path;
            next_level = next;
          }))
  reboot :
      (key : String)
      → IsRequest id "Reboot"
          (Message.reboot (record { base = base "Reboot" id; command_key = key }))
  get_rpc_methods : IsRequest id "GetRPCMethods" (Message.get_rpc_methods (base "GetRPCMethods" id))
  set_parameter_attributes :
      (entries : List SetParameterAttributesStruct)
      → IsRequest id "SetParameterAttributes" (
          Message.set_parameter_attributes
            (record { base = base "SetParameterAttributes" id; parameter_list = entries }))
  set_parameter_values :
      (entries : List ParameterValueStruct) (key : String)
      → IsRequest id "SetParameterValues" (
          Message.set_parameter_values (record {
            base = base "SetParameterValues" id;
            parameter_list = entries;
            parameter_key = key;
          }))

pub IsRequest-id : (id name : String) (m : Message) → IsRequest id name m → get_id m ≡ id
IsRequest-id id _ _ (add_object object key) = refl
IsRequest-id id _ _ (delete_object object key) = refl
IsRequest-id id _ _ (get_parameter_attributes names) = refl
IsRequest-id id _ _ (get_parameter_values names) = refl
IsRequest-id id _ _ (get_parameter_names path next) = refl
IsRequest-id id _ _ (reboot key) = refl
IsRequest-id id _ _ get_rpc_methods = refl
IsRequest-id id _ _ (set_parameter_attributes entries) = refl
IsRequest-id id _ _ (set_parameter_values entries key) = refl

-- A result that is a request, if it is a message at all.
abbrev Makes : String → String → Result Message → Type 0
Makes id name (ok m) = IsRequest id name m
Makes id name (err e) = Unit {0}

or_invalid-Makes :
    {A : Type 0} (id name : String) (d : Decoded A) (next : A → Result Message)
    → ((a : A) → Makes id name (next a))
    → Makes id name (or_invalid name d >>= next)
or_invalid-Makes id name (decoded a) next h = h a
or_invalid-Makes id name (malformed why) next h = tt

if-Makes :
    (id name problem : String) (b : Bool) (m : Message)
    → IsRequest id name m
    → Makes id name (if b then err (other problem) else ok m)
if-Makes id name problem true m h = tt
if-Makes id name problem false m h = h

get_attributes-Makes :
    (id : String) (names : List String)
    → Makes id "GetParameterAttributes" (get_attributes_from id names)
get_attributes-Makes id [] = tt
get_attributes-Makes id (n ∷ names) = get_parameter_attributes (n ∷ names)

get_values-Makes :
    (id : String) (names : List String) → Makes id "GetParameterValues" (get_values_from id names)
get_values-Makes id [] = tt
get_values-Makes id (n ∷ names) = get_parameter_values (n ∷ names)

set_attributes-Makes :
    (id : String) (entries : List SetParameterAttributesStruct)
    → Makes id "SetParameterAttributes" (set_attributes_from id entries)
set_attributes-Makes id [] = tt
set_attributes-Makes id (e ∷ entries) = set_parameter_attributes (e ∷ entries)

set_values-Makes :
    (id key : String) (entries : List ParameterValueStruct)
    → Makes id "SetParameterValues"
        (set_values_from id (record { parameter_list = entries; parameter_key = key }))
set_values-Makes id key [] = tt
set_values-Makes id key (e ∷ entries) = set_parameter_values _ key

case-Makes :
    (id name literal : String) (yes_branch no_branch : Result Message)
    → Makes id literal yes_branch
    → Makes id name no_branch
    → Makes id name (if name == literal then yes_branch else no_branch)
case-Makes id name literal yes_branch no_branch h k = elim (Bool-cases (name == literal)) [
  | inl e ↦ rw e (subst (λ n. Makes id n yes_branch) (sym ((eq_iff name literal).0 e)) h)
  | inr n ↦ rw n k
]

build-Makes :
    (json : Json) (id name params : String)
    → Makes id name (build_cwmp_message_from_parts json id name params)
unfolding build_cwmp_message_from_parts
build-Makes json id name params =
    case-Makes id name "AddObject" _ _
      (or_invalid-Makes id "AddObject" (json.object_params params) (add_object_from id)
        (λ p. if-Makes id _ _ (p.object_name == "") _ (add_object p.object_name p.parameter_key)))
      (case-Makes id name "DeleteObject" _ _
        (or_invalid-Makes id "DeleteObject" (json.object_params params) (delete_object_from id)
          (λ p.
            if-Makes id _ _ (p.object_name == "") _ (delete_object p.object_name p.parameter_key)))
        (case-Makes id name "GetParameterAttributes" _ _
          (or_invalid-Makes id "GetParameterAttributes" (json.names_params params)
            (get_attributes_from id) (get_attributes-Makes id))
          (case-Makes id name "GetParameterValues" _ _
            (or_invalid-Makes id "GetParameterValues" (json.names_params params)
              (get_values_from id) (get_values-Makes id))
            (case-Makes id name "GetParameterNames" _ _
              (or_invalid-Makes id "GetParameterNames" (json.get_parameter_names_params params)
                (get_names_from id) (λ p. get_parameter_names p.parameter_path p.next_level))
              (case-Makes id name "Reboot" _ _
                (or_invalid-Makes id "Reboot" (reboot_key json params) (reboot_from id)
                  (λ key. reboot key))
                (case-Makes id name "GetRPCMethods" _ _ get_rpc_methods (
                  case-Makes id name "SetParameterAttributes" _ _
                    (or_invalid-Makes id "SetParameterAttributes"
                      (json.set_parameter_attributes_params params) (set_attributes_from id)
                      (set_attributes-Makes id))
                    (case-Makes id name "SetParameterValues" _ _
                      (or_invalid-Makes id "SetParameterValues"
                        (json.set_parameter_values_params params) (set_values_from id)
                        (λ p. set_values-Makes id p.parameter_key p.parameter_list))
                      tt))))))))

-- What buildCwmpMessageFromParts builds is one of the nine requests, with the id and the name that it
-- was asked for.
pub build_cwmp_message_from_parts-IsRequest :
    (json : Json) (id name parameters : String) (m : Message)
    → build_cwmp_message_from_parts json id name parameters ≡ ok m
    → IsRequest id name m
build_cwmp_message_from_parts-IsRequest json id name parameters m h =
    subst (Makes id name) h (build-Makes json id name parameters)
