-- ===== src/Server/Build.antt =====
-- buildCwmpMessageFromParts of internal/controllers/api_controller.go. The decoder of encoding/json
-- enters as one function for each struct that is decoded.
pub mod Requests
use cwmp_acs_go.Prelude.{
  String, Bool, not, ◌&&◌, Option, none, some, List, [], ◌∷◌, map, ◌==◌, if◌then◌else◌,
}
use cwmp_acs_go.Go.Text.{after_first, join, texts}
use cwmp_acs_go.Cwmp.Errors.{Result, ok, err, other, ◌>>=◌}
use cwmp_acs_go.Cwmp.Structs.{
  Message, CwmpMessage, ParameterValueStruct, SetParameterAttributesStruct, header_of_id,
}

-- AddObjectParams and DeleteObjectParams.
pub record ObjectParams : Type 0 where
  pub object_name : String
  pub parameter_key : String

pub record GetParameterNamesParams : Type 0 where
  pub parameter_path : String
  pub next_level : Bool

-- SetParameterAttributeEntry and SetParameterValueEntry have the fields of the structs of package
-- cwmp that they are copied into.
pub record SetParameterValuesParams : Type 0 where
  pub parameter_list : List ParameterValueStruct
  pub parameter_key : String

-- The body of a request to the API.
pub record ApiRequest : Type 0 where
  pub device_id : String
  pub rpc : String
  -- the raw text of the parameters, "" if there are none
  pub parameters : String
  pub trigger_session : Bool

-- What the decoder makes of a text: a value, or an error with its text.
pub data Decoded (A : Type 0) : Type 0 where
  decoded : A → Decoded A
  malformed : String → Decoded A

pub record Json : Type 0 where
  pub api_request : String → Decoded ApiRequest
  pub object_params : String → Decoded ObjectParams
  -- GetParameterAttributesParams and GetParameterValuesParams
  pub names_params : String → Decoded (List String)
  pub get_parameter_names_params : String → Decoded GetParameterNamesParams
  -- RebootParams: the command key
  pub reboot_params : String → Decoded String
  pub set_parameter_attributes_params : String → Decoded (List SetParameterAttributesStruct)
  pub set_parameter_values_params : String → Decoded SetParameterValuesParams
  -- the verb %q of fmt
  pub quoted : String → String

abbrev pub base : String → String → CwmpMessage
base name id = record { name = name; header = header_of_id id }

abbrev pub or_invalid : {A : Type 0} → String → Decoded A → Result A
or_invalid name (decoded a) = ok a
or_invalid name (malformed why) =
    err (other (texts ("invalid parameters for " ∷ name ∷ ": " ∷ why ∷ [])))

-- `typeValue[pos+1:]` behind the first colon, if there is one
unfoldable pub strip_type : ParameterValueStruct → ParameterValueStruct
unfolding after_first
strip_type p = record p { type = join p.type (after_first ":" p.type) }

-- The branches of the switch, behind the decoder.
abbrev pub add_object_from : String → ObjectParams → Result Message
add_object_from id p =
    if p.object_name == ""
    then err (other "AddObject requires object_name")
    else ok (
        Message.add_object (record {
          base = base "AddObject" id;
          object_name = p.object_name;
          parameter_key = p.parameter_key;
        }))

abbrev pub delete_object_from : String → ObjectParams → Result Message
delete_object_from id p =
    if p.object_name == ""
    then err (other "DeleteObject requires object_name")
    else ok (
        Message.delete_object (record {
          base = base "DeleteObject" id;
          object_name = p.object_name;
          parameter_key = p.parameter_key;
        }))

abbrev pub get_attributes_from : String → List String → Result Message
get_attributes_from id [] = err (other "GetParameterAttributes requires at least one name")
get_attributes_from id (n ∷ names) = ok (
    Message.get_parameter_attributes
      (record { base = base "GetParameterAttributes" id; parameter_names = n ∷ names }))

abbrev pub get_values_from : String → List String → Result Message
get_values_from id [] = err (other "GetParameterValues requires at least one name")
get_values_from id (n ∷ names) = ok (
    Message.get_parameter_values
      (record { base = base "GetParameterValues" id; parameter_names = n ∷ names }))

abbrev pub get_names_from : String → GetParameterNamesParams → Result Message
get_names_from id p = ok (
    Message.get_parameter_names (record {
      base = base "GetParameterNames" id;
      parameter_path = p.parameter_path;
      next_level = p.next_level;
    }))

abbrev pub reboot_from : String → String → Result Message
reboot_from id key = ok (Message.reboot (record { base = base "Reboot" id; command_key = key }))

abbrev pub set_attributes_from : String → List SetParameterAttributesStruct → Result Message
set_attributes_from id [] =
    err (other "SetParameterAttributes requires at least one attribute entry")
set_attributes_from id (a ∷ entries) = ok (
    Message.set_parameter_attributes
      (record { base = base "SetParameterAttributes" id; parameter_list = a ∷ entries }))

abbrev set_values_of : String → String → List ParameterValueStruct → Result Message
set_values_of id key [] = err (other "SetParameterValues requires at least one parameter entry")
set_values_of id key (v ∷ entries) = ok (
    Message.set_parameter_values (record {
      base = base "SetParameterValues" id;
      parameter_list = map strip_type (v ∷ entries);
      parameter_key = key;
    }))

abbrev pub set_values_from : String → SetParameterValuesParams → Result Message
set_values_from id p = set_values_of id p.parameter_key p.parameter_list

-- With no parameters, or with `null`, nothing is decoded and the key is empty.
abbrev pub reboot_key : Json → String → Decoded String
reboot_key json params =
    if not (params == "") && not (params == "null") then json.reboot_params params else decoded ""

unfoldable pub build_cwmp_message_from_parts : Json → String → String → String → Result Message
unfolding strip_type
build_cwmp_message_from_parts json id name params =
    if name == "AddObject"
    then or_invalid "AddObject" (json.object_params params) >>= add_object_from id
    else if name == "DeleteObject"
    then or_invalid "DeleteObject" (json.object_params params) >>= delete_object_from id
    else if name == "GetParameterAttributes"
    then or_invalid "GetParameterAttributes" (json.names_params params) >>= get_attributes_from id
    else if name == "GetParameterValues"
    then or_invalid "GetParameterValues" (json.names_params params) >>= get_values_from id
    else if name == "GetParameterNames"
    then or_invalid "GetParameterNames" (json.get_parameter_names_params params)
      >>= get_names_from id
    else if name == "Reboot"
    then or_invalid "Reboot" (reboot_key json params) >>= reboot_from id
    else if name == "GetRPCMethods"
    then ok (Message.get_rpc_methods (base "GetRPCMethods" id))
    else if name == "SetParameterAttributes"
    then or_invalid "SetParameterAttributes" (json.set_parameter_attributes_params params)
      >>= set_attributes_from id
    else if name == "SetParameterValues"
    then or_invalid "SetParameterValues" (json.set_parameter_values_params params)
      >>= set_values_from id
    else err (other (texts ("unsupported message type: " ∷ json.quoted name ∷ [])))
