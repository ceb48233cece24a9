-- ===== src/Server/Broker/Delivery.antt =====
-- What the broker delivers.
use cwmp_acs_go.Prelude.{
  ◌≤◌, String, Bool, Option, none, some, [], ◌∷◌, ◌++◌, ◌≡◌, refl, arith, eq_iff, ◌==◌, ltb, ◌&&◌,
  length, All, if◌then◌else◌,
}
use cwmp_acs_go.Server.Broker.{
  Event, Subscriber, Broker, capacity, wants, offer, publish, register, subscribe_with_filter,
  unsubscribe,
}

abbrev pub IsBounded : Broker → Type 0
IsBounded = All (λ (entry : String × Subscriber). length entry.1.events ≤ capacity)

unfoldable pub find : String → Broker → Option Subscriber
find id [] = none
find id ((i, s) ∷ b) = if i == id then some s else find id b

-- What a subscriber's channel holds after an event has been published.
abbrev pub delivered : Event → Option Subscriber → Option Subscriber
delivered e none = none
delivered e (some s) = some (
    if wants s.filter e && ltb (length s.events) capacity
    then record s { events = s.events ++ e ∷ [] }
    else s)

-- Publishing gives every subscriber the event, at the end of its channel, exactly if its filter lets
-- the event through and its channel is not full; otherwise the subscriber is as before. No
-- subscriber comes or goes.
pub find-publish :
    (e : Event) (id : String) (b : Broker) → find id (publish e b) ≡ delivered e (find id b)
unfolding find publish offer
find-publish e id [] = refl
find-publish e id ((i, s) ∷ b) = ground (arith, find-publish e id b)

find-register :
    (id j : String) (s : Subscriber) (b : Broker)
    → find j (register id s b) ≡ (if id == j then some s else find j b)
unfolding find register
find-register id j s [] = refl
find-register id j s ((i, t) ∷ b) =
    ground (arith, find-register id j s b, eq_iff i id, eq_iff i j, eq_iff id j)

-- The entries of a Go map have different keys.
abbrev pub HasKeysOnce : Broker → Type 0
HasKeysOnce [] = Unit {0}
HasKeysOnce ((i, s) ∷ b) = (find i b ≡ none) × HasKeysOnce b

-- A new subscription is found under its id with an empty channel and its filter, and every other
-- subscriber is as before.
pub find-subscribe_with_filter :
    (id j : String) (filter : Option (Event → Bool)) (b : Broker)
    → find j (subscribe_with_filter id filter b)
      ≡ (if id == j then some (record { events = []; filter = filter }) else find j b)
unfolding subscribe_with_filter
find-subscribe_with_filter id j filter b = find-register id j _ b

-- If no two subscribers share an id, unsubscribing removes the subscriber with the id, and no other.
pub find-unsubscribe :
    (id j : String) (b : Broker)
    → HasKeysOnce b
    → find j (unsubscribe id b) ≡ (if id == j then none else find j b)
unfolding find unsubscribe
find-unsubscribe id j [] h = ground arith
find-unsubscribe id j ((i, s) ∷ b) h =
    ground (arith, find-unsubscribe id j b h.1, h.0, eq_iff i id, eq_iff i j, eq_iff id j)
