-- ===== src/Server/Rpc/Sends.antt =====
-- How often findOutgoingRpc hands out the messages of a queue.
use cwmp_acs_go.Prelude.{
  ℕ, zero, suc, ◌+◌, ◌-◌, ◌*◌, ◌⊎◌, ◌≤◌, ◌<◌, String, Option, none, some, List, [], ◌∷◌, ◌≡◌, refl,
  arith, inl, inr, length,
}
use cwmp_acs_go.Cwmp.Structs.{Message}
use cwmp_acs_go.Server.Build.{Json}
use cwmp_acs_go.Server.Database.{Db, PendingMessage}
use cwmp_acs_go.Server.Database.Fifo.{remove}
use cwmp_acs_go.Server.Database.Fifo.Refines.{queue_of}
use cwmp_acs_go.Server.Rpc.{find_outgoing_rpc}
use cwmp_acs_go.Server.Rpc.Fifo.{Next, none_left, hands_out, gives_up, find_outgoing_rpc-Next}
use cwmp_acs_go.Server.Rpc.Settled.{IsSettled, find_outgoing_rpc-Delivers}

-- How often the messages of a queue can still be sent, at most six times each.
unfoldable pub budget : List PendingMessage → ℕ
budget [] = 0
budget (m ∷ ms) = (6 - m.send_count) + budget ms

budget-remove : (id : String) (ms : List PendingMessage) → budget (remove id ms) ≤ budget ms
unfolding budget remove
budget-remove id [] = omega arith
budget-remove id (m ∷ ms) = ground (arith, budget-remove id ms)

-- A queue can still be sent `budget` times: handing out spends one, nothing else adds to it.
Next-budget :
    (json : Json) (ms behind : List PendingMessage) (o : Option Message)
    → Next json ms o behind
    → ((o ≡ none) × (budget behind ≤ budget ms)) ⊎ (budget behind < budget ms)
unfolding budget
Next-budget json _ _ _ none_left = inl (refl, omega arith)
Next-budget json _ _ _ (hands_out m later few) = inr (omega (arith, few))
Next-budget json _ _ o (gives_up m later behind _ many next) =
    elim (Next-budget json _ behind o next) [
      | inl (e, le) ↦ inl (e, omega (arith, le, budget-remove m.message_id later))
      | inr less ↦ inr (omega (arith, less, budget-remove m.message_id later))
    ]

-- What polls of the queue hand out, one after the other.
unfoldable pub polls : Json → String → ℕ → Db → List Message
polls json device zero d = []
polls json device (suc n) d =
    let (message, d₁) = find_outgoing_rpc json device d in
    let rest = polls json device n d₁ in elim message [ none ↦ rest | some m ↦ m ∷ rest ]

budget-le : (ms : List PendingMessage) → budget ms ≤ 6 * length ms
unfolding budget
budget-le [] = omega arith
budget-le (m ∷ ms) = omega (arith, budget-le ms)

polls-budget :
    (json : Json) (device : String) (n : ℕ) (d : Db)
    → IsSettled json d
    → length (polls json device n d) ≤ budget (queue_of d device)
unfolding polls
polls-budget json device zero d s = omega arith
polls-budget json device (suc n) d s =
    let settled = (find_outgoing_rpc-Delivers json device d s).settled in
    let rest = polls-budget json device n (find_outgoing_rpc json device d).1 settled in
    let next = find_outgoing_rpc-Next json device d s.calm s.rising in
    ground (arith, rest, Next-budget json _ _ _ next)

-- If the database is settled, and nothing is queued in between, then however often findOutgoingRpc is
-- called for a device, it hands out at most six messages for each that waits for the device.
pub length-polls :
    (json : Json) (device : String) (n : ℕ) (d : Db)
    → IsSettled json d
    → length (polls json device n d) ≤ 6 * length (queue_of d device)
length-polls json device n d s =
    omega (arith, polls-budget json device n d s, budget-le (queue_of d device))
