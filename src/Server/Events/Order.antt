-- ===== src/Server/Events/Order.antt =====
-- The order in which a client of EventsHandler receives events, and which it receives.
use cwmp_acs_go.Prelude.{
  ℕ, zero, suc, ◌+◌, ◌≤◌, String, Bool, true, List, [], ◌∷◌, ◌++◌, ◌≡◌, refl, sym, ap, ◌∙◌, subst,
  append-nil, arith, ltb, length, length-append, map, if◌then◌else◌, inl, inr, Bool-cases,
}
use cwmp_acs_go.Server.Build.{Decoded}
use cwmp_acs_go.Server.Broker.{Event, Broker, capacity}
use cwmp_acs_go.Server.Events.{Turn, publishes, takes, leaves, written, streamed, events_handler}
use cwmp_acs_go.Server.Events.Stream.{asked, offered, listen, events_handler-listen}

-- A list with some of the elements of another, in the same order.
pub data Sublist : List Event → List Event → Type 0 where
  ends : Sublist [] []
  keeps : (e : Event) (xs ys : List Event) → Sublist xs ys → Sublist (e ∷ xs) (e ∷ ys)
  drops : (e : Event) (xs ys : List Event) → Sublist xs ys → Sublist xs (e ∷ ys)

-- The admitted events of those published before the client leaves.
unfoldable pub wanted : (Event → Bool) → List Turn → List Event
wanted admits [] = []
wanted admits (publishes e ∷ turns) =
    let later = wanted admits turns in if admits e then e ∷ later else later
wanted admits (takes ∷ turns) = wanted admits turns
wanted admits (leaves ∷ turns) = []

-- The client does not leave.
pub data Stays : List Turn → Type 0 where
  over : Stays []
  after_event : (e : Event) (turns : List Turn) → Stays turns → Stays (publishes e ∷ turns)
  after_round : (turns : List Turn) → Stays turns → Stays (takes ∷ turns)

-- That many rounds of the loop.
unfoldable pub rounds : ℕ → List Turn
rounds zero = []
rounds (suc n) = takes ∷ rounds n

none-Sublist : (ys : List Event) → Sublist [] ys
none-Sublist [] = ends
none-Sublist (y ∷ ys) = drops y [] ys (none-Sublist ys)

-- One more element in the longer list.
Sublist-insert :
    (e : Event) (xs ys zs : List Event) → Sublist xs (ys ++ zs) → Sublist xs (ys ++ e ∷ zs)
Sublist-insert e xs [] zs h = drops e xs zs h
Sublist-insert e _ (y ∷ ys) zs (keeps _ xs _ h) = keeps y xs _ (Sublist-insert e xs ys zs h)
Sublist-insert e xs (y ∷ ys) zs (drops _ _ _ h) = drops y xs _ (Sublist-insert e xs ys zs h)

append_one : (ys zs : List Event) (e : Event) → (ys ++ e ∷ []) ++ zs ≡ ys ++ e ∷ zs
append_one [] zs e = refl
append_one (y ∷ ys) zs e = ap (λ l. y ∷ l) (append_one ys zs e)

module _ (admits : Event → Bool) where
  listen-Sublist :
      (turns : List Turn) (waits : List Event)
      → Sublist (listen admits turns waits) (waits ++ wanted admits turns)
  unfolding listen wanted
  listen-Sublist [] waits = none-Sublist (waits ++ [])
  listen-Sublist (leaves ∷ turns) waits = none-Sublist (waits ++ [])
  listen-Sublist (takes ∷ turns) [] = listen-Sublist turns []
  listen-Sublist (takes ∷ turns) (e ∷ waits) = keeps e _ _ (listen-Sublist turns waits)
  listen-Sublist (publishes e ∷ turns) waits = elim (Bool-cases (admits e)) [
    | inr n ↦ rw (wanted, n) (listen-Sublist turns waits)
    | inl w ↦ elim (Bool-cases (ltb (length waits) capacity)) [
      | inr full ↦ rw (w, full) (Sublist-insert e _ waits _ (listen-Sublist turns waits))
      | inl room ↦
          rw (w, room)
            (subst (Sublist (listen admits turns (waits ++ e ∷ [])))
              (append_one waits (wanted admits turns) e) (listen-Sublist turns (waits ++ e ∷ [])))
    ]
  ]

  listen-rounds :
      (n : ℕ) (waits : List Event) → length waits ≤ n → listen admits (rounds n) waits ≡ waits
  unfolding listen rounds
  listen-rounds zero [] h = refl
  listen-rounds zero (e ∷ waits) h = absurd (omega (arith, h))
  listen-rounds (suc n) [] h = listen-rounds n [] (omega arith)
  listen-rounds (suc n) (e ∷ waits) h = ap (λ l. e ∷ l) (listen-rounds n waits (omega (arith, h)))

  listen-all :
      (n : ℕ) (turns : List Turn) (waits : List Event)
      → Stays turns
      → length waits + length (wanted admits turns) ≤ capacity
      → length waits + length (wanted admits turns) ≤ n
      → listen admits (turns ++ rounds n) waits ≡ waits ++ wanted admits turns
  unfolding listen wanted
  listen-all n _ waits over h k = listen-rounds n waits (omega (arith, k)) ∙ sym (append-nil waits)
  listen-all n _ [] (after_round turns stays) h k = listen-all n turns [] stays h k
  listen-all n _ (e ∷ waits) (after_round turns stays) h k =
      ap (λ l. e ∷ l) (listen-all n turns waits stays (omega (arith, h)) (omega (arith, k)))
  listen-all n _ waits (after_event e turns stays) h k = elim (Bool-cases (admits e)) [
    | inr other ↦
        let same : offered admits e waits ≡ waits = rw other refl in
        let now : wanted admits (publishes e ∷ turns) ≡ wanted admits turns =
          rw (wanted, other) refl in
        ap (λ l. listen admits (turns ++ rounds n) l) same
        ∙ listen-all n turns waits stays (rw (wanted, other) at h) (rw (wanted, other) at k)
        ∙ ap (λ l. waits ++ l) (sym now)
    | inl w ↦
        let h' : length waits + length (e ∷ wanted admits turns) ≤ capacity = rw (wanted, w) at h in
        let k' : length waits + length (e ∷ wanted admits turns) ≤ n = rw (wanted, w) at k in
        let room : ltb (length waits) capacity ≡ true = ground arith in
        let kept : offered admits e waits ≡ waits ++ e ∷ [] = rw (w, room) refl in
        let now : wanted admits (publishes e ∷ turns) ≡ e ∷ wanted admits turns =
          rw (wanted, w) refl in
        ap (λ l. listen admits (turns ++ rounds n) l) kept
        ∙ listen-all n turns (waits ++ e ∷ []) stays
            (omega (arith, h', length-append waits (e ∷ [])))
            (omega (arith, k', length-append waits (e ∷ [])))
        ∙ append_one waits (wanted admits turns) e
        ∙ ap (λ l. waits ++ l) (sym now)
  ]

-- The events that a client of EventsHandler is sent are those that a channel of its own, with room for
-- 32 events, would have given it: a part of the events published for the device it asked for, or for
-- any device if it asked for none, before it left, in the order of their publication.
pub events_handler-Sublist :
    (marshal : Event → Decoded String) (id device : String) (turns : List Turn) (b : Broker)
    → (es : List Event) × (last : Broker) × (events_handler marshal true id device turns b
        ≡ streamed (map (written marshal) es) last)
      × (es ≡ listen (asked device) turns [])
      × Sublist es (wanted (asked device) turns)
events_handler-Sublist marshal id device turns b =
    let (last, same) = events_handler-listen marshal id device turns b in
    (listen (asked device) turns [], last, same, refl, listen-Sublist (asked device) turns [])

-- If a client of EventsHandler stays, at most 32 events of the device it asked for, or of any device if
-- it asked for none, are published, and the loop then makes at least as many rounds as there are such
-- events, then the client is sent every one of them, in the order of their publication.
pub events_handler-no_loss :
    (marshal : Event → Decoded String) (id device : String) (turns : List Turn) (n : ℕ) (b : Broker)
    → Stays turns
    → length (wanted (asked device) turns) ≤ 32
    → length (wanted (asked device) turns) ≤ n
    → (last : Broker) × (events_handler marshal true id device (turns ++ rounds n) b
        ≡ streamed (map (written marshal) (wanted (asked device) turns)) last)
events_handler-no_loss marshal id device turns n b stays few enough =
    let (last, same) = events_handler-listen marshal id device (turns ++ rounds n) b in
    (
      last,
      same
          ∙ ap (λ es. streamed (map (written marshal) es) last)
              (listen-all (asked device) n turns [] stays (omega (arith, few))
                (omega (arith, enough))),
    )
