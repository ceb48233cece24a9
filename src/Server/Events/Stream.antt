-- ===== src/Server/Events/Stream.antt =====
-- What a client of EventsHandler receives.
use cwmp_acs_go.Prelude.{
  String, Bool, true, none, some, List, [], ◌∷◌, ◌++◌, ◌≡◌, refl, ap, ◌∙◌, arith, eq_refl, ◌==◌,
  ltb, ◌&&◌, ◌||◌, length, map, if◌then◌else◌, inl, inr, Bool-cases,
}
use cwmp_acs_go.Server.Build.{Decoded}
use cwmp_acs_go.Server.Broker.{
  Event, Subscriber, Broker, capacity, wants, publish, subscribe_with_filter,
}
use cwmp_acs_go.Server.Broker.Delivery.{find, find-publish, find-subscribe_with_filter}
use cwmp_acs_go.Server.Events.{
  receive, Turn, publishes, takes, leaves, device_filter, written, stream, streamed, events_handler,
}

-- Whether a client that asked for a device, or for all of them (""), is to have an event.
abbrev pub asked : String → Event → Bool
asked device e = device == "" || e.device_id == device

wants-device_filter :
    (device : String) (e : Event) → wants (device_filter device) e ≡ asked device e
wants-device_filter device e = elim (Bool-cases (device == "")) [
  | inl all ↦ rw all refl
  | inr one ↦ rw one refl
]

abbrev pub offered : (Event → Bool) → Event → List Event → List Event
offered admits e waits = if admits e && ltb (length waits) capacity then waits ++ e ∷ [] else waits

-- A channel on its own, with what waits in it: a full one drops what is published.
unfoldable pub listen : (Event → Bool) → List Turn → List Event → List Event
listen admits [] waits = []
listen admits (publishes e ∷ turns) waits = listen admits turns (offered admits e waits)
listen admits (takes ∷ turns) [] = listen admits turns []
listen admits (takes ∷ turns) (e ∷ waits) = e ∷ listen admits turns waits
listen admits (leaves ∷ turns) waits = []

abbrev rest_of : List Event → List Event
rest_of [] = []
rest_of (e ∷ es) = es

abbrev taken : Subscriber → Subscriber
taken s = record s { events = rest_of s.events }

-- The broker with the oldest event of a subscriber taken.
unfoldable take_one : String → Broker → Broker
take_one id [] = []
take_one id ((i, s) ∷ b) =
    let rest = take_one id b in if i == id then (i, taken s) ∷ b else (i, s) ∷ rest

receive-empty :
    (id : String) (b : Broker) (s : Subscriber)
    → find id b ≡ some s
    → s.events ≡ []
    → receive id b ≡ none
unfolding find receive
receive-empty id [] s h e = cc
receive-empty id ((i, t) ∷ b) s h e = ground (arith, receive-empty id b s)

receive-some :
    (id : String) (b : Broker) (s : Subscriber) (e : Event) (es : List Event)
    → find id b ≡ some s
    → s.events ≡ e ∷ es
    → receive id b ≡ some (e, take_one id b)
unfolding find receive take_one
receive-some id [] s e es h k = cc
receive-some id ((i, t) ∷ b) s e es h k = ground (arith, receive-some id b s e es)

find-take_one :
    (id : String) (b : Broker) (s : Subscriber)
    → find id b ≡ some s
    → find id (take_one id b) ≡ some (taken s)
unfolding find take_one
find-take_one id [] s h = cc
find-take_one id ((i, t) ∷ b) s h = ground (arith, find-take_one id b s)

publish-offered :
    (id : String) (e : Event) (b : Broker) (s : Subscriber)
    → find id b ≡ some s
    → find id (publish e b) ≡ some (record s { events = offered (wants s.filter) e s.events })
publish-offered id e b s h =
    find-publish e id b
    ∙ rw h (elim (Bool-cases (wants s.filter e && ltb (length s.events) capacity)) [
      | inl y ↦ rw y refl
      | inr n ↦ rw n refl
    ])

stream-blocks :
    (id : String) (turns : List Turn) (b : Broker)
    → receive id b ≡ none
    → (stream id (takes ∷ turns) b).0 ≡ (stream id turns b).0
unfolding stream
stream-blocks id turns b h = rw (stream, h) refl

stream-takes :
    (id : String) (turns : List Turn) (b b' : Broker) (e : Event)
    → receive id b ≡ some (e, b')
    → (stream id (takes ∷ turns) b).0 ≡ e ∷ (stream id turns b').0
unfolding stream
stream-takes id turns b b' e h = rw (stream, h) refl

stream-listen :
    (id : String) (turns : List Turn) (b : Broker) (s : Subscriber)
    → find id b ≡ some s
    → (stream id turns b).0 ≡ listen (wants s.filter) turns s.events
unfolding stream listen
stream-listen id [] b s h = refl
stream-listen id (publishes e ∷ turns) b s h =
    stream-listen id turns (publish e b) (record s { events = offered (wants s.filter) e s.events })
      (publish-offered id e b s h)
stream-listen id (leaves ∷ turns) b s h = refl
stream-listen id (takes ∷ turns) b s h =
    elim s.events
        as (λ es.
          s.events ≡ es
          → (stream id (takes ∷ turns) b).0 ≡ listen (wants s.filter) (takes ∷ turns) es) [
            | [] ↦ λ e.
                stream-blocks id turns b (receive-empty id b s h e)
                ∙ (stream-listen id turns b s h ∙ ap (listen (wants s.filter) turns) e)
            | x ∷ es ↦ λ e.
                stream-takes id turns b _ x (receive-some id b s x es h e)
                ∙ (ap (λ l. x ∷ l)
                    (stream-listen id turns (take_one id b) (taken s) (find-take_one id b s h)
                      ∙ ap (λ l. listen (wants s.filter) turns (rest_of l)) e))
          ]
      refl

-- What the client is sent are the events that a channel of its own would have given it.
pub events_handler-listen :
    (marshal : Event → Decoded String) (id device : String) (turns : List Turn) (b : Broker)
    → (last : Broker) × (events_handler marshal true id device turns b
        ≡ streamed (map (written marshal) (listen (asked device) turns [])) last)
unfolding events_handler
events_handler-listen marshal id device turns b =
    let s : Subscriber = record { events = []; filter = device_filter device } in
    let b₁ = subscribe_with_filter id (device_filter device) b in
    let here : find id b₁ ≡ some s =
      find-subscribe_with_filter id id (device_filter device) b ∙ rw (eq_refl id) refl in
    (
      (stream id turns b₁).1,
      ap (λ es. streamed (map (written marshal) es) (stream id turns b₁).1)
          (stream-listen id turns b₁ s here
            ∙ ap (λ p. listen p turns []) (λ i e. wants-device_filter device e i)),
    )
