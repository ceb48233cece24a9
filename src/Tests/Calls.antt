-- ===== src/Tests/Calls.antt =====
-- ApiHandler, the router and EventsHandler at concrete inputs.
use cwmp_acs_go.Prelude.{String, true, some, List, [], ◌∷◌, ◌≡◌, ◌++◌, refl, arith, map}
use cwmp_acs_go.Cwmp.Structs.{Message}
use cwmp_acs_go.Server.Build.{build_cwmp_message_from_parts}
use cwmp_acs_go.Server.Build.Requests.{IsRequest}
use cwmp_acs_go.Server.Database.{
  row_of, call, get_device_by_id, find_device, queue_rpc, nullable_string,
}
use cwmp_acs_go.Server.Database.Fifo.{waiting}
use cwmp_acs_go.Server.Session.{lookup}
use cwmp_acs_go.Server.World.{World}
use cwmp_acs_go.Server.Rpc.{find_outgoing_rpc}
use cwmp_acs_go.Server.Rpc.Settled.{IsSettled}
use cwmp_acs_go.Server.Api.{
  ApiCall, api_handler, handle_request, trigger, lacks_session, send_connection_request,
  send_http_connection_request,
}
use cwmp_acs_go.Server.Api.Queue.{Serves, api_handler-Serves}
use cwmp_acs_go.Server.Api.Settled.{api_handler-handed_out}
use cwmp_acs_go.Server.Api.Sent.{Sends, api_handler-sent}
use cwmp_acs_go.Server.World.{Request, Body}
use cwmp_acs_go.Server.Incoming.{find_session}
use cwmp_acs_go.Server.Cwmp.{cwmp_handler}
use cwmp_acs_go.Generators.{asserts, generate_tokens}
use cwmp_acs_go.Generators.Written.{generate_tokens-Writes}
use cwmp_acs_go.Xml.Namespaces.{no_namespaces}
use cwmp_acs_go.Xml.Dom.{Token}
use cwmp_acs_go.Xml.Dom.Written.{Nests}
use cwmp_acs_go.Server.Serving.{starts, posts, calls, Serving-IsSettled}
use cwmp_acs_go.Server.Router.{router, routing_table}
use cwmp_acs_go.Server.Router.Table.{Routing, router-Routing}
use cwmp_acs_go.Server.Broker.{Event, Broker}
use cwmp_acs_go.Server.Events.{Turn, publishes, takes, leaves, streamed, events_handler, written}
use cwmp_acs_go.Server.Events.Stream.{asked, listen}
use cwmp_acs_go.Server.Events.Order.{
  Sublist, wanted, Stays, over, after_event, after_round, rounds, events_handler-Sublist,
  events_handler-no_loss,
}
use cwmp_acs_go.Tests.Samples.{world, reboot, env, device, no_sessions}

-- The device is known, nothing is queued, no session is open.
abbrev idle : World
idle = record {
  db = record { devices = row_of device ∷ []; queue = []; next_id = 1; outcomes = [] };
  sessions = no_sessions;
  broker = [];
}

idle-IsSettled : IsSettled env.json idle.db
idle-IsSettled = record { calm = refl; rising = omega arith; sound = tt }

abbrev reboot_call : ApiCall
reboot_call = record { body = "reboot"; uuid = "m1" }

api_handler-Serves_example : Serves env reboot_call idle (api_handler env reboot_call idle)
api_handler-Serves_example = api_handler-Serves env reboot_call idle

-- The connection request is answered with 200, and the Reboot waits for the device.
api_handler-handed_out_example :
    (m : Message) × ((find_outgoing_rpc env.json "00D09E-42"
        (api_handler env reboot_call idle).1.db).0
      ≡ some m)
    × IsRequest "m1" "Reboot" m
unfolding api_handler handle_request trigger lacks_session send_connection_request
    send_http_connection_request lookup get_device_by_id call find_device queue_rpc nullable_string
    build_cwmp_message_from_parts waiting
api_handler-handed_out_example =
    api_handler-handed_out env reboot_call idle
      (record { device_id = "00D09E-42"; rpc = "Reboot"; parameters = ""; trigger_session = true })
      refl idle-IsSettled refl refl

generate_tokens-Writes_example :
    (ts : List Token) × (generate_tokens no_namespaces (reboot "m1") ≡ some ts) × Nests ts []
unfolding asserts
generate_tokens-Writes_example = generate_tokens-Writes no_namespaces (reboot "m1") refl

abbrev empty_post : Request
empty_post = record { cookie = some "cookie"; body = Body.empty; uuid = "new"; now = 9 }

Serving-IsSettled_example :
    IsSettled env.json (cwmp_handler env empty_post (api_handler env reboot_call idle).1).1.db
Serving-IsSettled_example =
    Serving-IsSettled env idle (cwmp_handler env empty_post (api_handler env reboot_call idle).1).1
      idle-IsSettled (posts (calls starts reboot_call) empty_post)

-- The device has a session, and waits for RPCs.
abbrev waiting_device : World
waiting_device = record world { db = idle.db }

api_handler-sent_example :
    (m : Message) × IsRequest "m1" "Reboot" m
    × Sends m (cwmp_handler env empty_post (api_handler env reboot_call waiting_device).1).0
unfolding api_handler handle_request trigger lacks_session lookup get_device_by_id call find_device
    queue_rpc nullable_string build_cwmp_message_from_parts waiting find_session
api_handler-sent_example =
    api_handler-sent env reboot_call waiting_device
      (record { device_id = "00D09E-42"; rpc = "Reboot"; parameters = ""; trigger_session = true })
      empty_post 0 refl idle-IsSettled refl refl refl refl refl refl

router-Routing_example : Routing "/api" "GET" routing_table (router "/api" "GET")
router-Routing_example = router-Routing "/api" "GET"

abbrev event_of : String → Event
event_of device = record {
  type = "Reboot";
  device_id = device;
  session_id = "cookie";
  message_id = "m2";
  timestamp = 5;
  payload = reboot "m2";
}

abbrev turns : List Turn
turns =
    publishes (event_of "a")
    ∷ publishes (event_of "b")
    ∷ takes
    ∷ publishes (event_of "a")
    ∷ leaves
    ∷ []

events_handler-Sublist_example :
    (es : List Event) × (last : Broker) × (events_handler env.marshal true "s1" "a" turns []
      ≡ streamed (map (written env.marshal) es) last)
    × (es ≡ listen (asked "a") turns [])
    × Sublist es (wanted (asked "a") turns)
events_handler-Sublist_example = events_handler-Sublist env.marshal "s1" "a" turns []

-- Two events of the device and one of another, while the client stays.
abbrev staying : List Turn
staying =
    publishes (event_of "a") ∷ publishes (event_of "b") ∷ takes ∷ publishes (event_of "a") ∷ []

staying-Stays : Stays staying
staying-Stays = after_event _ _ (after_event _ _ (after_round _ (after_event _ _ over)))

events_handler-no_loss_example :
    (last : Broker) × (events_handler env.marshal true "s1" "a" (staying ++ rounds 2) []
      ≡ streamed (map (written env.marshal) (wanted (asked "a") staying)) last)
unfolding wanted
events_handler-no_loss_example =
    events_handler-no_loss env.marshal "s1" "a" staying 2 [] staying-Stays (omega arith)
      (omega arith)
