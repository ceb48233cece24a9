-- ===== src/Tests/Storage.antt =====
-- The database and the broker at concrete inputs.
use cwmp_acs_go.Prelude.{true, none, some, [], ◌∷◌, ◌≡◌, refl}
use cwmp_acs_go.Server.Database.{
  update_device, found, get_device_by_id, add_device, fetch_queued_rpc, queue_rpc,
}
use cwmp_acs_go.Server.Database.Devices.{
  get_device_by_id-update_device, stored, get_device_by_id-add_device,
}
use cwmp_acs_go.Server.Database.Queue.{behind, fetch_queued_rpc-queue_rpc}
use cwmp_acs_go.Server.Broker.{Event, Broker, publish, subscribe_with_filter, unsubscribe}
use cwmp_acs_go.Server.Broker.Delivery.{
  find, find-publish, find-subscribe_with_filter, find-unsubscribe,
}
use cwmp_acs_go.Tests.Samples.{reboot, device, empty_db, busy_db}

get_device_by_id-add_device_example :
    (get_device_by_id "00D09E-42" (add_device device empty_db).1).0 ≡ found (stored device)
get_device_by_id-add_device_example = get_device_by_id-add_device device "00D09E-42" empty_db refl

fetch_queued_rpc-queue_rpc_example :
    (fetch_queued_rpc "00D09E-42" (queue_rpc "00D09E-42" "m3" "Reboot" "" busy_db).1).0
    ≡ behind
        (fetch_queued_rpc "00D09E-42" busy_db).0
        true
        (record { message_id = "m3"; message_name = "Reboot"; parameters = ""; send_count = 0 })
fetch_queued_rpc-queue_rpc_example =
    fetch_queued_rpc-queue_rpc "00D09E-42" "00D09E-42" "m3" "Reboot" "" busy_db refl

abbrev event : Event
event = record {
  type = "Reboot";
  device_id = "00D09E-42";
  session_id = "cookie";
  message_id = "m2";
  timestamp = 5;
  payload = reboot "m2";
}

abbrev broker : Broker
broker = ("s1", record { events = event ∷ []; filter = none }) ∷ []

find-publish_example :
    find "s1" (publish event broker) ≡ some (record { events = event ∷ event ∷ []; filter = none })
unfolding find
find-publish_example = find-publish event "s1" broker

find-subscribe_with_filter_example :
    find "s2" (subscribe_with_filter "s2" none broker)
    ≡ some (record { events = []; filter = none })
find-subscribe_with_filter_example = find-subscribe_with_filter "s2" "s2" none broker

find-unsubscribe_example : find "s1" (unsubscribe "s1" broker) ≡ none
unfolding find
find-unsubscribe_example = find-unsubscribe "s1" "s1" broker (refl, tt)

get_device_by_id-update_device_example :
    (get_device_by_id "00D09E-42" (update_device device (add_device device empty_db).1).1).0
    ≡ found (stored device)
unfolding get_device_by_id add_device
get_device_by_id-update_device_example =
    get_device_by_id-update_device device "00D09E-42" (add_device device empty_db).1 refl
