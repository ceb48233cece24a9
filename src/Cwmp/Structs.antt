-- ===== src/Cwmp/Structs.antt =====
-- internal/cwmp/cwmp_structs.go. An interface value `CwmpMessageInterface` that is not nil is a
-- `Message`: one constructor for each message type of the package.
use cwmp_acs_go.Prelude.{String, Bool, List}
use cwmp_acs_go.Prelude.Int.{ℤ}

pub record CwmpHeader : Type 0 where
  pub id : String
  pub hold_requests : String
  pub session_timeout : String
  pub supported_cwmp_versions : String
  pub use_cwmp_version : String

-- The zero value with an ID.
abbrev pub header_of_id : String → CwmpHeader
header_of_id id = record {
  id = id;
  hold_requests = "";
  session_timeout = "";
  supported_cwmp_versions = "";
  use_cwmp_version = "";
}

pub record CwmpMessage : Type 0 where
  pub name : String
  pub header : CwmpHeader

pub data FaultSource : Type 0 where
  cpe server : FaultSource

unfoldable pub source_string : FaultSource → String
source_string cpe = "Client"
source_string server = "Server"

pub record DeviceId : Type 0 where
  pub manufacturer : String
  pub oui : String
  pub product_class : String
  pub serial_number : String

pub record Event : Type 0 where
  pub event_code : String
  pub command_key : String

pub record ParameterAttributeStruct : Type 0 where
  pub name : String
  pub notification : ℤ
  pub access_list : List String

pub record ParameterInfoStruct : Type 0 where
  pub name : String
  pub writable : Bool

pub record ParameterValueStruct : Type 0 where
  pub name : String
  pub value : String
  pub type : String

pub record SetParameterAttributesStruct : Type 0 where
  pub name : String
  pub notification_change : Bool
  pub notification : ℤ
  pub access_list_change : Bool
  pub access_list : List String

-- AddObject and DeleteObject have the same fields.
pub record ObjectRequest : Type 0 where
  pub base : CwmpMessage
  pub object_name : String
  pub parameter_key : String

pub record AddObjectResponse : Type 0 where
  pub base : CwmpMessage
  pub instance_number : ℤ
  pub status : ℤ

-- DeleteObjectResponse and SetParameterValuesResponse.
pub record StatusResponse : Type 0 where
  pub base : CwmpMessage
  pub status : ℤ

pub record Fault : Type 0 where
  pub base : CwmpMessage
  pub source : FaultSource
  pub fault_code : ℤ
  pub fault_string : String

-- GetParameterAttributes and GetParameterValues.
pub record NamesRequest : Type 0 where
  pub base : CwmpMessage
  pub parameter_names : List String

pub record GetParameterAttributesResponse : Type 0 where
  pub base : CwmpMessage
  pub parameter_list : List ParameterAttributeStruct

pub record GetParameterNames : Type 0 where
  pub base : CwmpMessage
  pub parameter_path : String
  pub next_level : Bool

pub record GetParameterNamesResponse : Type 0 where
  pub base : CwmpMessage
  pub parameter_list : List ParameterInfoStruct

pub record GetParameterValuesResponse : Type 0 where
  pub base : CwmpMessage
  pub parameter_list : List ParameterValueStruct

pub record GetRpcMethodsResponse : Type 0 where
  pub base : CwmpMessage
  pub method_list : List String

pub record Inform : Type 0 where
  pub base : CwmpMessage
  pub device_id : DeviceId
  pub events : List Event
  pub max_envelopes : ℤ
  pub current_time : String
  pub retry_count : ℤ
  pub parameters : List ParameterValueStruct

pub record InformResponse : Type 0 where
  pub base : CwmpMessage
  pub max_envelopes : ℤ

pub record Reboot : Type 0 where
  pub base : CwmpMessage
  pub command_key : String

pub record SetParameterAttributes : Type 0 where
  pub base : CwmpMessage
  pub parameter_list : List SetParameterAttributesStruct

pub record SetParameterValues : Type 0 where
  pub base : CwmpMessage
  pub parameter_list : List ParameterValueStruct
  pub parameter_key : String

pub data Message : Type 0 where
  add_object delete_object : ObjectRequest → Message
  add_object_response : AddObjectResponse → Message
  delete_object_response set_parameter_values_response : StatusResponse → Message
  fault : Fault → Message
  get_parameter_attributes get_parameter_values : NamesRequest → Message
  get_parameter_attributes_response : GetParameterAttributesResponse → Message
  get_parameter_names : GetParameterNames → Message
  get_parameter_names_response : GetParameterNamesResponse → Message
  get_parameter_values_response : GetParameterValuesResponse → Message
  get_rpc_methods reboot_response set_parameter_attributes_response : CwmpMessage → Message
  get_rpc_methods_response : GetRpcMethodsResponse → Message
  inform : Inform → Message
  inform_response : InformResponse → Message
  reboot : Reboot → Message
  set_parameter_attributes : SetParameterAttributes → Message
  set_parameter_values : SetParameterValues → Message

-- The embedded `CwmpMessage`.
abbrev pub base_of : Message → CwmpMessage
base_of (add_object m) = m.base
base_of (delete_object m) = m.base
base_of (add_object_response m) = m.base
base_of (delete_object_response m) = m.base
base_of (set_parameter_values_response m) = m.base
base_of (fault m) = m.base
base_of (get_parameter_attributes m) = m.base
base_of (get_parameter_values m) = m.base
base_of (get_parameter_attributes_response m) = m.base
base_of (get_parameter_names m) = m.base
base_of (get_parameter_names_response m) = m.base
base_of (get_parameter_values_response m) = m.base
base_of (get_rpc_methods m) = m
base_of (reboot_response m) = m
base_of (set_parameter_attributes_response m) = m
base_of (get_rpc_methods_response m) = m.base
base_of (inform m) = m.base
base_of (inform_response m) = m.base
base_of (reboot m) = m.base
base_of (set_parameter_attributes m) = m.base
base_of (set_parameter_values m) = m.base

abbrev pub get_name : Message → String
get_name m = (base_of m).name

abbrev pub get_id : Message → String
get_id m = (base_of m).header.id
