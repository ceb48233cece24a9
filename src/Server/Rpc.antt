-- ===== src/Server/Rpc.antt =====
-- findOutgoingRpc, processIncomingResponse, processInformRequest and processIncomingRequest of
-- internal/controllers/cwmp_controller.go.
pub mod Outgoing
pub mod Gentle
pub mod Settled
pub mod Fifo
pub mod Sends
pub mod Describes
pub mod Informs
pub mod Answers
use cwmp_acs_go.Prelude.{
  ℕ, zero, suc, ◌+◌, String, Bool, true, false, ◌&&◌, ◌||◌, Option, none, some, List, [], ◌∷◌, ◌==◌,
  ltb, if◌then◌else◌, length,
}
use cwmp_acs_go.Prelude.Int.{ℤ, pos}
use cwmp_acs_go.Go.Text.{texts, has_suffix}
use cwmp_acs_go.Cwmp.Structs.{
  Message, get_name, get_id, Fault, FaultSource, server, Inform, InformResponse, DeviceId,
  ParameterValueStruct, header_of_id,
}
use cwmp_acs_go.Cwmp.Structs
use cwmp_acs_go.Cwmp.Versions.{version_string}
use cwmp_acs_go.Server.Broker.{Event, publish}
use cwmp_acs_go.Cwmp.Errors.{ok, err}
use cwmp_acs_go.Server.Build.{Json, build_cwmp_message_from_parts}
use cwmp_acs_go.Server.Database.{
  Db, DeviceInfo, PendingMessage, FetchResult, pending, nothing, fetch_queued_rpc,
  delete_queued_rpc, add_device, update_device, is_device_registered,
}
use cwmp_acs_go.Server.Session.{SessionInfo, Address, modify, with_active_rpc}
use cwmp_acs_go.Server.World.{Env, World}

-- `msg, err = buildCwmpMessageFromParts(…)`: an error is logged, and nil is returned.
abbrev pub rebuilt : Json → PendingMessage → Option Message
rebuilt json pm =
    elim (build_cwmp_message_from_parts json pm.message_id pm.message_name pm.parameters) [
      | err e ↦ none
      | ok message ↦ some message
    ]

-- The body of the loop behind the fetch; `skip` is what `continue` goes on with.
abbrev pub after_fetch :
    Json
    → (PendingMessage → Option (Option Message × Db))
    → FetchResult
    → Db
    → Option (Option Message × Db)
after_fetch json skip nothing d = some (none, d)
after_fetch json skip FetchResult.failed d = some (none, d)
after_fetch json skip (pending pm) d =
    if ltb 5 pm.send_count then skip pm else some (rebuilt json pm, d)

-- The loop of findOutgoingRpc; the outer `none` is that the fuel ran out.
unfoldable pub outgoing_loop : Json → ℕ → String → Db → Option (Option Message × Db)
outgoing_loop json zero device d = none
outgoing_loop json (suc fuel) device d =
    let (fetched, d₁) = fetch_queued_rpc device d in
    after_fetch json (λ pm. outgoing_loop json fuel device (delete_queued_rpc pm.message_id d₁).1)
      fetched d₁

-- Each round that goes on uses up a listed outcome of the database, or deletes a row.
abbrev pub enough : Db → ℕ
enough d = suc (length d.queue + length d.outcomes)

abbrev pub run_out : Db → Option (Option Message × Db) → Option Message × Db
run_out d none = (none, d)
run_out d (some r) = r

unfoldable pub find_outgoing_rpc : Json → String → Db → Option Message × Db
find_outgoing_rpc json device d = run_out d (outgoing_loop json (enough d) device d)

-- The session at `a` gets the next queued RPC, and remembers it.
unfoldable pub send_next : Env → Address → World → Option Message × World
send_next env a w =
    let (message, db) = find_outgoing_rpc env.json (w.sessions.heap a).device_id_string w.db in
    (message, record w { db = db; sessions = modify a (with_active_rpc message) w.sessions })

abbrev pub event_of : String → ℕ → SessionInfo → Message → Event
event_of type now s message = record {
  type = type;
  device_id = s.device_id_string;
  session_id = s.session_id;
  message_id = get_id message;
  timestamp = now;
  payload = message;
}

-- The answer to the active RPC: its row is deleted, whether or not the database manages to, and the
-- event is published.
unfoldable pub clear_active : ℕ → Address → Message → Message → World → World
clear_active now a active message w = record {
  db = (delete_queued_rpc (get_id active) w.db).1;
  sessions = modify a (with_active_rpc none) w.sessions;
  broker = publish (event_of (get_name message) now (w.sessions.heap a) message) w.broker;
}

abbrev pub response_to : Option Message → ℕ → Address → Message → World → World
response_to none now a message w = w
response_to (some active) now a message w =
    if get_id message == get_id active then clear_active now a active message w else w

unfoldable pub process_incoming_response : ℕ → Address → Message → World → World
process_incoming_response now a message w =
    response_to (w.sessions.heap a).active_rpc now a message w

unfoldable pub is_boot : List Structs.Event → Bool
is_boot [] = false
is_boot (e ∷ es) = e.event_code == "0 BOOTSTRAP" || e.event_code == "1 BOOT" || is_boot es

-- The variables that the loop over the parameters assigns, in a record of the device's columns.
unfoldable pub device_parameter : DeviceInfo → ParameterValueStruct → DeviceInfo
device_parameter d p =
    if has_suffix p.name ".ManagementServer.ConnectionRequestURL"
    then record d { connection_request_url = p.value }
    else if has_suffix p.name ".DeviceInfo.HardwareVersion"
    then record d { hardware_version = p.value }
    else if has_suffix p.name ".DeviceInfo.SoftwareVersion"
    then record d { software_version = p.value }
    else if has_suffix p.name ".DeviceInfo.ProvisioningCode"
    then record d { provisioning_code = p.value }
    else if has_suffix p.name ".ManagementServer.ParameterKey"
    then record d { parameter_key = p.value }
    else d

unfoldable pub device_parameters : DeviceInfo → List ParameterValueStruct → DeviceInfo
device_parameters d [] = d
device_parameters d (p ∷ ps) = device_parameters (device_parameter d p) ps

unfoldable pub device_info : String → Inform → DeviceInfo
device_info device m =
    device_parameters
      (record {
        device_id = device;
        manufacturer = m.device_id.manufacturer;
        oui = m.device_id.oui;
        product_class = m.device_id.product_class;
        serial_number = m.device_id.serial_number;
        software_version = "";
        hardware_version = "";
        connection_request_url = "";
        parameter_key = "";
        provisioning_code = "";
      })
      m.parameters

unfoldable pub generate_fault : String → FaultSource → ℤ → String → Message
generate_fault id source code text = Message.fault (record {
  base = record { name = "Fault"; header = header_of_id id };
  source = source;
  fault_code = code;
  fault_string = text;
})

abbrev pub inform_response : SessionInfo → Inform → Message
inform_response s m = Message.inform_response (record {
  base = record {
    name = "InformResponse";
    header = record (header_of_id m.base.header.id) {
      use_cwmp_version = version_string s.cwmp_version;
    };
  };
  max_envelopes = pos 1;
})

-- The last two statements of processInformRequest.
abbrev pub accept_inform : ℕ → Address → Inform → World → Message × World
accept_inform now a m w =
    let s = w.sessions.heap a in
    (
      inform_response s m,
      record w { broker = publish (event_of "Inform" now s (Message.inform m)) w.broker },
    )

abbrev pub refuse_inform : Inform → ℤ → String → World → Message × World
refuse_inform m code text w = (generate_fault m.base.header.id server code text, w)

-- The branch for a boot event.
unfoldable pub register_device : ℕ → Address → Inform → World → Message × World
register_device now a m w =
    let (done, db) = add_device (device_info (w.sessions.heap a).device_id_string m) w.db in
    if done
    then accept_inform now a m (record w { db = db })
    else refuse_inform m (pos 8002) "Failed to add device because of database error"
        (record w { db = db })

abbrev pub checked_update : ℕ → Address → Inform → Option Bool → World → Message × World
checked_update now a m none w =
    refuse_inform m (pos 8002) "Failed to check device registration because of database error" w
checked_update now a m (some false) w = refuse_inform m (pos 8001) "Device not registered" w
checked_update now a m (some true) w =
    let (done, db) = update_device (device_info (w.sessions.heap a).device_id_string m) w.db in
    if done
    then accept_inform now a m (record w { db = db })
    else refuse_inform m (pos 8002) "Failed to update device because of database error"
        (record w { db = db })

-- The branch for any other event.
unfoldable pub refresh_device : ℕ → Address → Inform → World → Message × World
refresh_device now a m w =
    let (registered, db) = is_device_registered (w.sessions.heap a).device_id_string w.db in
    checked_update now a m registered (record w { db = db })

unfoldable pub process_inform_request : ℕ → Address → Inform → World → Message × World
process_inform_request now a m w =
    if is_boot m.events then register_device now a m w else refresh_device now a m w

abbrev pub incoming_request_names : List String
incoming_request_names = "Inform" ∷ "GetRPCMethods" ∷ "TransferComplete" ∷ []

unfoldable pub is_request : String → Bool
is_request name = name == "Inform" || name == "GetRPCMethods" || name == "TransferComplete"

-- The method names stand in the order in which the range over the map visits them.
abbrev pub rpc_methods_response : Env → Message → Message
rpc_methods_response env message = Message.get_rpc_methods_response (record {
  base = record { name = "GetRPCMethodsResponse"; header = header_of_id (get_id message) };
  method_list = env.go.range_requests;
})

-- The outer `none` is the panic of a failed type assertion.
unfoldable pub process_incoming_request :
    Env → ℕ → Address → Message → World → Option (Option Message × World)
process_incoming_request env now a message w =
    if get_name message == "Inform"
    then elim message [
      | Message.inform m ↦
          (let (answer, w₁) = process_inform_request now a m w in some (some answer, w₁))
      | _ ↦ none
    ]
    else if get_name message == "GetRPCMethods"
    then some (some (rpc_methods_response env message), w)
    else some (none, w)
