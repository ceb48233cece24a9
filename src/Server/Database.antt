-- ===== src/Server/Database.antt =====
-- db/db.go and db/db_structs.go. A table is the list of its rows in the order of their ids, and each
-- SQL statement is what it does to the rows. SQLite itself can fail at any call: `outcomes` lists
-- how the calls to come end (`false` is an error), and calls beyond that list succeed. A call that
-- fails changes nothing. The columns that the program never reads (timestamps) are left out.
pub mod Devices
pub mod Queue
pub mod Rows
pub mod Calls
pub mod Fifo
use cwmp_acs_go.Prelude.{
  ℕ, suc, ◌+◌, String, Bool, true, false, not, Option, none, some, List, [], ◌∷◌, ◌++◌, ◌==◌, eqb,
  ltb, if◌then◌else◌,
}

pub record PendingMessage : Type 0 where
  pub message_id : String
  pub message_name : String
  pub parameters : String
  pub send_count : ℕ

pub record DeviceInfo : Type 0 where
  pub device_id : String
  pub manufacturer : String
  pub oui : String
  pub product_class : String
  pub serial_number : String
  pub software_version : String
  pub hardware_version : String
  pub connection_request_url : String
  pub parameter_key : String
  pub provisioning_code : String

-- A row of the table device; `none` is NULL.
pub record DeviceRow : Type 0 where
  pub device_id : String
  pub manufacturer : String
  pub oui : String
  pub product_class : String
  pub serial_number : String
  pub connection_request_url : String
  pub parameter_key : Option String
  pub provisioning_code : Option String

-- A row of the table rpc_queue.
pub record QueueRow : Type 0 where
  pub id : ℕ
  pub message_id : String
  pub device_id : String
  pub message_name : String
  pub parameters : Option String
  pub send_count : ℕ

pub record Db : Type 0 where
  pub devices : List DeviceRow
  pub queue : List QueueRow
  -- AUTOINCREMENT: the id of the next row of rpc_queue
  pub next_id : ℕ
  pub outcomes : List Bool

-- A call of the driver: whether it succeeds.
unfoldable pub call : Db → Bool × Db
call d = elim d.outcomes [ [] ↦ (true, d) | ok ∷ rest ↦ (ok, record d { outcomes = rest }) ]

unfoldable pub nullable_string : String → Option String
nullable_string s = if s == "" then none else some s

-- `sql.NullString.String`
abbrev pub string_or_empty : Option String → String
string_or_empty none = ""
string_or_empty (some s) = s

abbrev pub row_of : DeviceInfo → DeviceRow
row_of info = record {
  device_id = info.device_id;
  manufacturer = info.manufacturer;
  oui = info.oui;
  product_class = info.product_class;
  serial_number = info.serial_number;
  connection_request_url = info.connection_request_url;
  parameter_key = nullable_string info.parameter_key;
  provisioning_code = nullable_string info.provisioning_code;
}

-- INSERT … ON CONFLICT(device_id) DO UPDATE
unfoldable pub upsert : DeviceRow → List DeviceRow → List DeviceRow
upsert row [] = row ∷ []
upsert row (r ∷ rows) =
    let rest = upsert row rows in if r.device_id == row.device_id then row ∷ rows else r ∷ rest

-- UPDATE … WHERE device_id = ?
unfoldable pub update : DeviceRow → List DeviceRow → List DeviceRow
update row [] = []
update row (r ∷ rows) = (if r.device_id == row.device_id then row else r) ∷ update row rows

unfoldable pub find_device : String → List DeviceRow → Option DeviceRow
find_device id [] = none
find_device id (r ∷ rows) = if r.device_id == id then some r else find_device id rows

-- ExecContext and RowsAffected each can fail; the first failure leaves the table as it was.
unfoldable pub add_device : DeviceInfo → Db → Bool × Db
unfolding call upsert nullable_string
add_device info d =
    let (executed, d₁) = call d in
    if executed then call (record d₁ { devices = upsert (row_of info) d₁.devices }) else (false, d₁)

unfoldable pub update_device : DeviceInfo → Db → Bool × Db
unfolding call update nullable_string
update_device info d =
    let (executed, d₁) = call d in
    if executed then call (record d₁ { devices = update (row_of info) d₁.devices }) else (false, d₁)

-- The three ways in which GetDeviceByID returns. It never returns a nil device without an error.
pub data DeviceResult : Type 0 where
  found : DeviceInfo → DeviceResult
  not_found : DeviceResult
  failed : DeviceResult

abbrev pub info_of : DeviceRow → DeviceInfo
info_of r = record {
  device_id = r.device_id;
  manufacturer = r.manufacturer;
  oui = r.oui;
  product_class = r.product_class;
  serial_number = r.serial_number;
  software_version = "";
  hardware_version = "";
  connection_request_url = r.connection_request_url;
  parameter_key = string_or_empty r.parameter_key;
  provisioning_code = string_or_empty r.provisioning_code;
}

abbrev pub device_result : String → Option DeviceRow → DeviceResult
device_result id none = not_found
device_result id (some r) = found (record (info_of r) { device_id = id })

unfoldable pub get_device_by_id : String → Db → DeviceResult × Db
unfolding call find_device
get_device_by_id id d =
    let (queried, d₁) = call d in
    if queried then (device_result id (find_device id d₁.devices), d₁) else (failed, d₁)

abbrev is_some : Option DeviceRow → Bool
is_some none = false
is_some (some r) = true

-- `none` is an error.
unfoldable pub is_device_registered : String → Db → Option Bool × Db
unfolding call find_device
is_device_registered id d =
    let (queried, d₁) = call d in
    if queried then (some (is_some (find_device id d₁.devices)), d₁) else (none, d₁)

unfoldable pub queue_rpc : String → String → String → String → Db → Bool × Db
unfolding call nullable_string
queue_rpc device_id message_id message_name parameters d =
    let (executed, d₁) = call d in
    if executed
    then (
      true,
      record d₁ {
        queue =
            d₁.queue
            ++ (record {
              id = d₁.next_id;
              message_id = message_id;
              device_id = device_id;
              message_name = message_name;
              parameters = nullable_string parameters;
              send_count = 0;
            })
              ∷ [];
        next_id = suc d₁.next_id;
      },
    )
    else (false, d₁)

-- SELECT … WHERE device_id = ? ORDER BY id ASC LIMIT 1, on rows in the order of their ids
unfoldable pub first_queued : String → List QueueRow → Option QueueRow
first_queued device [] = none
first_queued device (r ∷ rows) = if r.device_id == device then some r else first_queued device rows

-- UPDATE rpc_queue SET send_count = send_count + 1 WHERE id = ?
unfoldable pub count_send : ℕ → List QueueRow → List QueueRow
count_send id [] = []
count_send id (r ∷ rows) =
    (if eqb r.id id then record r { send_count = r.send_count + 1 } else r) ∷ count_send id rows

abbrev pub pending_of : QueueRow → PendingMessage
pending_of r = record {
  message_id = r.message_id;
  message_name = r.message_name;
  parameters = string_or_empty r.parameters;
  send_count = r.send_count;
}

pub data FetchResult : Type 0 where
  pending : PendingMessage → FetchResult
  nothing : FetchResult
  failed : FetchResult

-- The UPDATE and the Commit of the transaction: a failure of either rolls it back.
abbrev commit_fetch : QueueRow → Db → FetchResult × Db
commit_fetch r d =
    let (updated, d₁) = call d in
    if updated
    then (let (committed, d₂) = call d₁ in
        if committed
        then (pending (pending_of r), record d₂ { queue = count_send r.id d₂.queue })
        else (FetchResult.failed, d₂))
    else (FetchResult.failed, d₁)

abbrev after_select : Option QueueRow → Db → FetchResult × Db
after_select none d = (nothing, d)
after_select (some r) d = commit_fetch r d

-- The count that is returned is the one before the increment.
unfoldable pub fetch_queued_rpc : String → Db → FetchResult × Db
unfolding call first_queued count_send
fetch_queued_rpc device d =
    let (begun, d₁) = call d in
    if begun
    then (let (queried, d₂) = call d₁ in
        if queried
        then after_select (first_queued device d₂.queue) d₂
        else (FetchResult.failed, d₂))
    else (FetchResult.failed, d₁)

-- DELETE FROM rpc_queue WHERE message_id = ?
unfoldable pub without : String → List QueueRow → List QueueRow
without id [] = []
without id (r ∷ rows) = let rest = without id rows in if r.message_id == id then rest else r ∷ rest

unfoldable pub delete_queued_rpc : String → Db → Bool × Db
unfolding call without
delete_queued_rpc id d =
    let (executed, d₁) = call d in
    if executed then (true, record d₁ { queue = without id d₁.queue }) else (false, d₁)
