-- ===== src/Server/Database/Calls.antt =====
-- How QueueRPC and GetDeviceByID can end, whatever the database does.
use cwmp_acs_go.Prelude.{
  ℕ, suc, String, Bool, true, false, none, some, List, [], ◌∷◌, ◌++◌, ◌≡◌, ◌≤◌, length, arith, refl,
  inl, inr, Option-cases,
}
use cwmp_acs_go.Server.Database.{
  Db, DeviceRow, DeviceResult, found, not_found, failed, info_of, find_device, QueueRow, call,
  nullable_string, get_device_by_id, queue_rpc,
}

abbrev pub calls_to_come : List Bool → Db → Db
calls_to_come ends d = record d { outcomes = ends }

-- A call of the database.
data Calls (d : Db) : Bool × Db → Type 0 where
  calls :
      (success : Bool) (ends : List Bool)
      → length ends ≤ length d.outcomes
      → Calls d (success, calls_to_come ends d)

call-Calls : (d : Db) → Calls d (call d)
unfolding call
call-Calls d =
    elim d.outcomes
        as (λ o.
          d.outcomes ≡ o
          → Calls d (elim o [ [] ↦ (true, d) | b ∷ rest ↦ (b, record d { outcomes = rest }) ])) [
            | [] ↦ λ e. calls true d.outcomes (omega arith)
            | b ∷ rest ↦ λ e. calls b rest (rw e (omega arith))
          ]
      refl

-- One more row at the end of the queue.
abbrev pub append_row : QueueRow → Db → Db
append_row r d = record d { queue = d.queue ++ r ∷ []; next_id = suc d.next_id }

abbrev pub new_row : ℕ → String → String → String → String → QueueRow
new_row n to id name parameters = record {
  id = n;
  message_id = id;
  device_id = to;
  message_name = name;
  parameters = nullable_string parameters;
  send_count = 0;
}

-- QueueRPC fails, or it appends a row.
pub data Appends (row : QueueRow) (d : Db) : Bool × Db → Type 0 where
  appends :
      (ends : List Bool)
      → length ends ≤ length d.outcomes
      → Appends row d (true, append_row row (calls_to_come ends d))
  fails :
      (ends : List Bool)
      → length ends ≤ length d.outcomes
      → Appends row d (false, calls_to_come ends d)

module _ (to id name parameters : String) (d : Db) where
  called-Appends :
      (r : Bool × Db)
      → Calls d r
      → call d ≡ r
      → Appends (new_row d.next_id to id name parameters) d (queue_rpc to id name parameters d)
  unfolding queue_rpc
  called-Appends _ (calls true ends le) e = rw e (appends ends le)
  called-Appends _ (calls false ends le) e = rw e (fails ends le)

  pub queue_rpc-Appends :
      Appends (new_row d.next_id to id name parameters) d (queue_rpc to id name parameters d)
  queue_rpc-Appends = called-Appends (call d) (call-Calls d) refl

-- GetDeviceByID finds a row of the device, finds none, or fails.
pub data Looks (id : String) (d : Db) : DeviceResult × Db → Type 0 where
  finds :
      (row : DeviceRow) (ends : List Bool)
      → length ends ≤ length d.outcomes
      → find_device id d.devices ≡ some row
      → Looks id d (found (record (info_of row) { device_id = id }), calls_to_come ends d)
  misses :
      (ends : List Bool)
      → length ends ≤ length d.outcomes
      → find_device id d.devices ≡ none
      → Looks id d (not_found, calls_to_come ends d)
  fails :
      (ends : List Bool)
      → length ends ≤ length d.outcomes
      → Looks id d (failed, calls_to_come ends d)

module _ (id : String) (d : Db) where
  called-Looks : (r : Bool × Db) → Calls d r → call d ≡ r → Looks id d (get_device_by_id id d)
  unfolding get_device_by_id
  called-Looks _ (calls false ends le) e = rw e (Looks.fails ends le)
  called-Looks _ (calls true ends le) e = elim (Option-cases (find_device id d.devices)) [
    | inl n ↦ rw (e, n) (misses ends le n)
    | inr (row, s) ↦ rw (e, s) (finds row ends le s)
  ]

  pub get_device_by_id-Looks : Looks id d (get_device_by_id id d)
  get_device_by_id-Looks = called-Looks (call d) (call-Calls d) refl
