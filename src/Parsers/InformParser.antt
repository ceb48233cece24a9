-- ===== src/Parsers/InformParser.antt =====
-- ParseInform, parseDeviceId and isValidInform.
pub mod Valid
use cwmp_acs_go.Prelude.{
  String, Bool, true, false, ◌||◌, Option, none, some, List, [], ◌∷◌, ◌==◌, if◌then◌else◌,
}
use cwmp_acs_go.Prelude.Int.{pos}
use cwmp_acs_go.Go.Runtime.{Runtime}
use cwmp_acs_go.Go.Text.{texts, has_suffix}
use cwmp_acs_go.Cwmp.Structs.{CwmpHeader, Message, DeviceId, Inform, ParameterValueStruct}
use cwmp_acs_go.Cwmp.Errors.{Result, ok, ◌>>=◌, invalid_arguments}
use cwmp_acs_go.Xml.Structs.{SoapElement, local, text, children}
use cwmp_acs_go.Parsers.Loops.{for_each, int_or}
use cwmp_acs_go.Parsers.Arrays.{parse_event_list, parse_parameter_value_struct_list}
use cwmp_acs_go.Parsers.Responses.{named}

unfoldable pub device_field : SoapElement → DeviceId → Result DeviceId
device_field e d =
    if local e == "Manufacturer"
    then ok (record d { manufacturer = text e })
    else if local e == "OUI"
    then ok (record d { oui = text e })
    else if local e == "ProductClass"
    then ok (record d { product_class = text e })
    else if local e == "SerialNumber"
    then ok (record d { serial_number = text e })
    else ok d

unfoldable pub check_device : DeviceId → Result DeviceId
check_device d =
    if d.manufacturer == ""
    then invalid_arguments "Inform is missing Manufacturer element or it contains an empty value"
    else if d.oui == ""
    then invalid_arguments "Inform is missing OUI element or it contains an empty value"
    else if d.serial_number == ""
    then invalid_arguments "Inform is missing SerialNumber element or it contains an empty value"
    else ok d

abbrev pub no_device : DeviceId
no_device = record { manufacturer = ""; oui = ""; product_class = ""; serial_number = "" }

unfoldable pub parse_device_id : SoapElement → Result DeviceId
parse_device_id elem = do d ← for_each device_field (children elem) no_device; check_device d

abbrev pub minimum_forced_inform_parameters : List String
minimum_forced_inform_parameters =
    "DeviceInfo.HardwareVersion" ∷ "DeviceInfo.SoftwareVersion" ∷ "DeviceInfo.ProvisioningCode"
    ∷ "ManagementServer.ConnectionRequestURL" ∷ "ManagementServer.ParameterKey" ∷ []

-- `checkedParams[name]` after the two loops
unfoldable pub found : String → List ParameterValueStruct → Bool
found required [] = false
found required (p ∷ ps) = has_suffix p.name required || found required ps

-- `range checkedParams`: the first name in the order of the range that was not found
unfoldable pub first_missing : List String → List ParameterValueStruct → Option String
first_missing [] ps = none
first_missing (name ∷ names) ps = if found name ps then first_missing names ps else some name

abbrev is_empty {ℓ} : {A : Type ℓ} → List A → Bool
is_empty [] = true
is_empty (x ∷ xs) = false

-- isValidInform: `none` if valid, or the text of the error
unfoldable pub invalid_inform : Runtime → Inform → Option String
invalid_inform go m =
    if m.device_id.manufacturer == ""
    then some "Inform is missing DeviceId"
    else if is_empty m.events
    then some "Inform has no events, but should have at least one"
    else if is_empty m.parameters
    then some "Inform has no parameters, but should have at least some"
    else elim (first_missing go.range_forced m.parameters) [
      | none ↦ none
      | some name ↦ some (texts ("Inform is missing required parameter: " ∷ name ∷ []))
    ]

unfoldable pub inform_field : Runtime → SoapElement → Inform → Result Inform
inform_field go e m =
    if local e == "DeviceId"
    then (do d ← parse_device_id e; ok (record m { device_id = d }))
    else if local e == "Event"
    then (do l ← parse_event_list go e; ok (record m { events = l }))
    else if local e == "MaxEnvelopes"
    then (do
      n ← int_or (text e) "Inform message contains invalid MaxEnvelopes value"
      ok (record m { max_envelopes = n }))
    else if local e == "CurrentTime"
    then ok (record m { current_time = text e })
    else if local e == "RetryCount"
    then (do
      n ← int_or (text e) "Inform message contains invalid RetryCount value"
      ok (record m { retry_count = n }))
    else if local e == "ParameterList"
    then (do l ← parse_parameter_value_struct_list go e; ok (record m { parameters = l }))
    else ok m

abbrev pub new_inform : CwmpHeader → Inform
new_inform header = record {
  base = named "Inform" header;
  device_id = no_device;
  events = [];
  max_envelopes = pos 0;
  current_time = "";
  retry_count = pos 0;
  parameters = [];
}

abbrev pub accept : Option String → Inform → Result Inform
accept none m = ok m
accept (some problem) m = invalid_arguments problem

-- The `*cwmp.Inform` inside the message that ParseInform returns.
unfoldable pub read_inform : Runtime → SoapElement → CwmpHeader → Result Inform
read_inform go elem header = do
  m ← for_each (inform_field go) (children elem) (new_inform header)
  accept (invalid_inform go m) m

unfoldable pub parse_inform : Runtime → SoapElement → CwmpHeader → Result Message
parse_inform go elem header = do m ← read_inform go elem header; ok (Message.inform m)
