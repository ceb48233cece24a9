-- ===== src/Server/Broker.antt =====
-- internal/events: the event broker. The map of subscribers is the list of its entries; a channel is
-- its buffer, and a send that would block is dropped. Each method runs under the broker's lock.
pub mod Delivery
use cwmp_acs_go.Prelude.{
  ℕ, String, Bool, true, false, Option, none, some, List, [], ◌∷◌, ◌++◌, ◌==◌, ltb, if◌then◌else◌,
  length,
}
use cwmp_acs_go.Cwmp.Structs.{Message}

pub record Event : Type 0 where
  pub type : String
  pub device_id : String
  pub session_id : String
  pub message_id : String
  pub timestamp : ℕ
  pub payload : Message

pub record Subscriber : Type 0 where
  pub events : List Event
  pub filter : Option (Event → Bool)

abbrev pub Broker : Type 0
Broker = List (String × Subscriber)

-- make(chan Event, 32)
abbrev pub capacity : ℕ
capacity = 32

-- `b.subscribers[id] = s`
unfoldable pub register : String → Subscriber → Broker → Broker
register id s [] = (id, s) ∷ []
register id s ((i, t) ∷ b) =
    let rest = register id s b in if i == id then (id, s) ∷ b else (i, t) ∷ rest

-- The id is a new UUID, and the channel is empty.
unfoldable pub subscribe_with_filter : String → Option (Event → Bool) → Broker → Broker
unfolding register
subscribe_with_filter uuid filter b = register uuid (record { events = []; filter = filter }) b

unfoldable pub subscribe : String → Broker → Broker
unfolding subscribe_with_filter
subscribe uuid b = subscribe_with_filter uuid none b

unfoldable pub unsubscribe : String → Broker → Broker
unsubscribe id [] = []
unsubscribe id ((i, s) ∷ b) = let rest = unsubscribe id b in if i == id then b else (i, s) ∷ rest

abbrev pub wants : Option (Event → Bool) → Event → Bool
wants none e = true
wants (some f) e = f e

-- A full channel drops the event.
unfoldable pub offer : Event → Subscriber → Subscriber
offer e s =
    if wants s.filter e
    then (if ltb (length s.events) capacity then record s { events = s.events ++ e ∷ [] } else s)
    else s

unfoldable pub publish : Event → Broker → Broker
unfolding offer
publish e [] = []
publish e ((i, s) ∷ b) = (i, offer e s) ∷ publish e b
