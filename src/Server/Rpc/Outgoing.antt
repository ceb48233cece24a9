-- ===== src/Server/Rpc/Outgoing.antt =====
-- findOutgoingRpc: its loop ends, and what it hands out.
use cwmp_acs_go.Prelude.{◌≤◌, String, Option, none, some, ◌≡◌}
use cwmp_acs_go.Cwmp.Structs.{Message}
use cwmp_acs_go.Server.Build.{Json}
use cwmp_acs_go.Server.Database.{Db, PendingMessage}
use cwmp_acs_go.Server.Database.Queue.{Fetches}
use cwmp_acs_go.Server.Rpc.{rebuilt}

abbrev IsResult : {A : Type 0} → Option A → Type 0
IsResult none = ⊥
IsResult (some a) = Unit {0}

-- A message that findOutgoingRpc hands out, as it leaves the database in `d'`: it is built from the
-- first row of the device at the time of the last fetch, which had been sent at most five times
-- before, and whose count is now one higher.
pub record HandsOut (json : Json) (device : String) (d' : Db) (m : Message) : Type 0 where
  pub before : Db
  pub message : PendingMessage
  pub fetches : Fetches device before d' message
  pub few : message.send_count ≤ 5
  pub built : rebuilt json message ≡ some m
