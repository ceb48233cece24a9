-- ===== src/Tests/Samples.antt =====
-- Test data: the elements of an Inform, envelopes, databases, sessions.
use cwmp_acs_go.Prelude.{String, true, ◌==◌, if◌then◌else◌, none, List, [], ◌∷◌}
use cwmp_acs_go.Prelude.Int.{pos}
use cwmp_acs_go.Go.Runtime.{Runtime}
use cwmp_acs_go.Cwmp.Structs.{
  Message, header_of_id, CwmpHeader, Event, ParameterValueStruct, Inform,
}
use cwmp_acs_go.Cwmp.Versions.{v1_2}
use cwmp_acs_go.Xml.Structs.{
  Name, Attr, SoapElement, element, nil, of_list, soapenv_ns_url, soapenc_ns_url, xsi_ns_url,
  xsd_ns_url, cwmp_1_2_ns_url,
}
use cwmp_acs_go.Xml.Namespaces.{no_namespaces}
use cwmp_acs_go.Xml.Envelope.{TokenStream, ParsedEnvelope}
use cwmp_acs_go.Xml.Envelope.RoundTrip.{envelope_tokens, soap_name}
use cwmp_acs_go.Parsers.InformParser.{minimum_forced_inform_parameters}
use cwmp_acs_go.Server.Build.{Json, decoded, malformed}
use cwmp_acs_go.Server.Database.{Db, DeviceInfo}
use cwmp_acs_go.Server.Session.{Sessions, SessionInfo, receiving_cpe_rpcs}
use cwmp_acs_go.Server.World.{Env, World, answered}

abbrev pub go : Runtime
go = record {
  range_forced = minimum_forced_inform_parameters;
  range_requests = "GetRPCMethods" ∷ "Inform" ∷ "TransferComplete" ∷ [];
  range_namespaces = λ m. m;
  quote = λ s. s;
}

-- A decoder that knows two documents: a request for a Reboot, and its parameters with an empty key.
abbrev pub json : Json
json = record {
  api_request = λ s.
      if s == "reboot"
      then decoded (record {
        device_id = "00D09E-42";
        rpc = "Reboot";
        parameters = "";
        trigger_session = true;
      })
      else malformed "no such document";
  object_params = λ s. malformed "no";
  names_params = λ s. malformed "no";
  get_parameter_names_params = λ s. malformed "no";
  reboot_params = λ s. decoded "";
  set_parameter_attributes_params = λ s. malformed "no";
  set_parameter_values_params = λ s. malformed "no";
  quoted = λ s. s;
}

abbrev pub env : Env
env = record {
  go = go;
  json = json;
  marshal = λ e. decoded e.message_id;
  get = λ url. answered 200 none;
  driver_error = "disk I/O error";
}

abbrev pub plain : String → Name
plain local = record { space = ""; local = local }

abbrev pub attr : String → String → String → Attr
attr space local value = record { name = record { space = space; local = local }; value = value }

abbrev pub leaf : String → String → SoapElement
leaf local text = element (plain local) [] text nil

abbrev pub node : String → List SoapElement → SoapElement
node local children = element (plain local) [] "" (of_list children)

abbrev pub array : String → String → List SoapElement → SoapElement
array local type children =
    element (plain local) (attr "" "arrayType" type ∷ []) "" (of_list children)

abbrev pub event_list : SoapElement
event_list =
    array "Event" "cwmp:EventStruct[1]"
      (node "EventStruct" (leaf "EventCode" "1 BOOT" ∷ leaf "CommandKey" "" ∷ []) ∷ [])

abbrev pub boot_events : List Event
boot_events = record { event_code = "1 BOOT"; command_key = "" } ∷ []

abbrev parameter : String → SoapElement
parameter name = node "ParameterValueStruct" (leaf "Name" name ∷ leaf "Value" "1" ∷ [])

abbrev pub inform_element : SoapElement
inform_element = node "Inform" (
    node "DeviceId" (
      leaf "Manufacturer" "Acme"
      ∷ leaf "OUI" "00D09E"
      ∷ leaf "ProductClass" ""
      ∷ leaf "SerialNumber" "42"
      ∷ [])
    ∷ event_list
    ∷ leaf "MaxEnvelopes" "1"
    ∷ array "ParameterList" "cwmp:ParameterValueStruct[5]" (
        parameter "Device.DeviceInfo.HardwareVersion"
        ∷ parameter "Device.DeviceInfo.SoftwareVersion"
        ∷ parameter "Device.DeviceInfo.ProvisioningCode"
        ∷ parameter "Device.ManagementServer.ConnectionRequestURL"
        ∷ parameter "Device.ManagementServer.ParameterKey"
        ∷ [])
    ∷ [])

abbrev value : String → ParameterValueStruct
value name = record { name = name; value = "1"; type = "" }

abbrev pub sample_inform : CwmpHeader → Inform
sample_inform header = record {
  base = record { name = "Inform"; header = header };
  device_id = record {
    manufacturer = "Acme";
    oui = "00D09E";
    product_class = "";
    serial_number = "42";
  };
  events = boot_events;
  max_envelopes = pos 1;
  current_time = "";
  retry_count = pos 0;
  parameters =
      value "Device.DeviceInfo.HardwareVersion"
      ∷ value "Device.DeviceInfo.SoftwareVersion"
      ∷ value "Device.DeviceInfo.ProvisioningCode"
      ∷ value "Device.ManagementServer.ConnectionRequestURL"
      ∷ value "Device.ManagementServer.ParameterKey"
      ∷ [];
}

abbrev pub envelope_attrs : List Attr
envelope_attrs =
    attr "xmlns" "soapenv" soapenv_ns_url
    ∷ attr "xmlns" "soapenc" soapenc_ns_url
    ∷ attr "xmlns" "xsi" xsi_ns_url
    ∷ attr "xmlns" "xsd" xsd_ns_url
    ∷ attr "xmlns" "cwmp" cwmp_1_2_ns_url
    ∷ []

-- The stream of an envelope with this header and this body.
abbrev pub stream : List SoapElement → List SoapElement → TokenStream
stream header body = record {
  tokens = envelope_tokens envelope_attrs [] (of_list header) [] (of_list body);
  failure = none;
}

abbrev pub envelope : List SoapElement → List SoapElement → ParsedEnvelope
envelope header body = record {
  envelope = (soap_name "Envelope", envelope_attrs);
  header = element (soap_name "Header") [] "" (of_list header);
  body = element (soap_name "Body") [] "" (of_list body);
  namespaces =
      ("soapenv", soapenv_ns_url)
      ∷ ("soapenc", soapenc_ns_url)
      ∷ ("xsi", xsi_ns_url)
      ∷ ("xsd", xsd_ns_url)
      ∷ ("cwmp", cwmp_1_2_ns_url)
      ∷ [];
}

abbrev pub device : DeviceInfo
device = record {
  device_id = "00D09E-42";
  manufacturer = "Acme";
  oui = "00D09E";
  product_class = "";
  serial_number = "42";
  software_version = "2.0";
  hardware_version = "1.0";
  connection_request_url = "http://cpe/";
  parameter_key = "";
  provisioning_code = "p";
}

abbrev pub empty_db : Db
empty_db = record { devices = []; queue = []; next_id = 1; outcomes = [] }

-- Two Reboots are queued for the device; the first has been sent six times.
abbrev pub busy_db : Db
busy_db = record {
  devices = [];
  queue =
      record {
        id = 1;
        message_id = "m1";
        device_id = "00D09E-42";
        message_name = "Reboot";
        parameters = none;
        send_count = 6;
      }
      ∷ record {
        id = 2;
        message_id = "m2";
        device_id = "00D09E-42";
        message_name = "Reboot";
        parameters = none;
        send_count = 0;
      }
      ∷ [];
  next_id = 3;
  outcomes = [];
}

abbrev pub session : SessionInfo
session = record {
  session_id = "cookie";
  device_id_string = "00D09E-42";
  device_id = record {
    manufacturer = "Acme";
    oui = "00D09E";
    product_class = "";
    serial_number = "42";
  };
  session_state = receiving_cpe_rpcs;
  cwmp_version = v1_2;
  last_incoming_message_time = 0;
  last_outgoing_message_time = 0;
  xml_namespaces = no_namespaces;
  active_rpc = none;
}

-- One session, in both maps.
abbrev pub world : World
world = record {
  db = busy_db;
  sessions = record {
    heap = λ a. session;
    next = 1;
    by_id = ("cookie", 0) ∷ [];
    by_device = ("00D09E-42", 0) ∷ [];
  };
  broker = [];
}

abbrev pub no_sessions : Sessions
no_sessions = record { heap = λ a. session; next = 0; by_id = []; by_device = [] }

-- The server as it starts, with messages in its database.
abbrev pub fresh : World
fresh = record { db = busy_db; sessions = no_sessions; broker = [] }

abbrev pub reboot : String → Message
reboot id =
    Message.reboot
      (record { base = record { name = "Reboot"; header = header_of_id id }; command_key = "" })
