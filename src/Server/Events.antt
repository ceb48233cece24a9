-- ===== src/Server/Events.antt =====
-- EventsHandler of internal/controllers/events_controller.go: a client's stream of events. Each turn of
-- the loop's `select` is an input, since the client and the rest of the server choose what happens next.
pub mod Stream
pub mod Order
use cwmp_acs_go.Prelude.{
  String, Bool, true, false, Option, none, some, List, [], ◌∷◌, map, ◌==◌, if◌then◌else◌,
}
use cwmp_acs_go.Go.Text.{texts}
use cwmp_acs_go.Server.Build.{Decoded, decoded, malformed}
use cwmp_acs_go.Server.World.{Response}
use cwmp_acs_go.Server.Cwmp.{error_text}
use cwmp_acs_go.Server.Broker.{
  Event, Subscriber, Broker, publish, subscribe_with_filter, unsubscribe,
}

-- `<-ch`: the oldest event of the subscriber's channel, if there is one.
unfoldable pub receive : String → Broker → Option (Event × Broker)
receive id [] = none
receive id ((i, s) ∷ b) =
    let rest = receive id b in
    if i == id
    then elim s.events [ [] ↦ none | e ∷ es ↦ some (e, (i, record s { events = es }) ∷ b) ]
    else elim rest [ none ↦ none | some (e, b') ↦ some (e, (i, s) ∷ b') ]

-- What happens between two rounds of the loop, or in one: an event is published by another part of the
-- server, the loop takes an event if one waits, the client leaves.
pub data Turn : Type 0 where
  publishes : Event → Turn
  takes : Turn
  leaves : Turn

abbrev pub device_filter : String → Option (Event → Bool)
device_filter device = if device == "" then none else some (λ e. e.device_id == device)

-- The text that is written for an event.
abbrev pub written : (Event → Decoded String) → Event → String
written marshal e = elim (marshal e) [
  | malformed why ↦ texts ("event: error\ndata: " ∷ why ∷ "\n\n" ∷ [])
  | decoded text ↦ texts ("event: " ∷ e.type ∷ "\ndata: " ∷ text ∷ "\n\n" ∷ [])
]

-- The events that the loop takes, and the broker behind them. When the client leaves, the deferred
-- Unsubscribe runs; while nothing waits, the loop blocks. The turns end while the client still listens.
unfoldable pub stream : String → List Turn → Broker → List Event × Broker
stream id [] b = ([], b)
stream id (publishes e ∷ turns) b = stream id turns (publish e b)
stream id (leaves ∷ turns) b = ([], unsubscribe id b)
stream id (takes ∷ turns) b = elim (receive id b) as (λ o. List Event × Broker) [
  | none ↦ stream id turns b
  | some (e, b') ↦ (let (later, last) = stream id turns b' in (e ∷ later, last))
]

pub data Streamed : Type 0 where
  refused : Response → Streamed
  streamed : List String → Broker → Streamed

-- For a client that asks for the events of a device, or for all of them (""); `flushes` is whether the
-- connection can be flushed.
unfoldable pub events_handler :
    (Event → Decoded String) → Bool → String → String → List Turn → Broker → Streamed
events_handler marshal false id device turns b = refused (error_text 500 "streaming not supported")
events_handler marshal true id device turns b =
    let (events, last) = stream id turns (subscribe_with_filter id (device_filter device) b) in
    streamed (map (written marshal) events) last
