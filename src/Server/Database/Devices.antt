-- ===== src/Server/Database/Devices.antt =====
-- The table of devices: what AddDevice and UpdateDevice leave for GetDeviceByID to find.
use cwmp_acs_go.Prelude.{
  String, true, false, ◌⊎◌, inl, inr, Option-cases, Option, none, some, List, [], ◌∷◌, ◌≡◌, refl,
  arith, eq_iff, ◌==◌, if◌then◌else◌,
}
use cwmp_acs_go.Server.Database.{
  Db, DeviceInfo, DeviceRow, row_of, info_of, upsert, update, find_device, add_device,
  get_device_by_id, DeviceResult, found, not_found, failed, update_device, is_device_registered,
  nullable_string, string_or_empty,
}

find_device-upsert :
    (row : DeviceRow) (id : String) (rows : List DeviceRow)
    → find_device id (upsert row rows)
      ≡ (if row.device_id == id then some row else find_device id rows)
unfolding find_device upsert
find_device-upsert row id [] = refl
find_device-upsert row id (r ∷ rows) = ground (
  arith,
  find_device-upsert row id rows,
  eq_iff r.device_id row.device_id,
  eq_iff r.device_id id,
  eq_iff row.device_id id,
)

abbrev when_there : Option DeviceRow → DeviceRow → Option DeviceRow
when_there none row = none
when_there (some r) row = some row

find_device-update :
    (row : DeviceRow) (id : String) (rows : List DeviceRow)
    → find_device id (update row rows)
      ≡ (if row.device_id == id then when_there (find_device id rows) row else find_device id rows)
unfolding find_device update
find_device-update row id [] = ground arith
find_device-update row id (r ∷ rows) = ground (
  arith,
  find_device-update row id rows,
  eq_iff r.device_id row.device_id,
  eq_iff r.device_id id,
  eq_iff row.device_id id,
)

string_or_empty-nullable_string : (s : String) → string_or_empty (nullable_string s) ≡ s
unfolding nullable_string
string_or_empty-nullable_string s = ground (arith, eq_iff s "")

-- The columns of a device that the table has.
abbrev pub stored : DeviceInfo → DeviceInfo
stored info = record info { software_version = ""; hardware_version = "" }

info_of-row_of : (info : DeviceInfo) → info_of (row_of info) ≡ stored info
info_of-row_of info = ground (
  arith,
  string_or_empty-nullable_string info.parameter_key,
  string_or_empty-nullable_string info.provisioning_code,
)

-- While the database does not fail, a device that was added is found under its identifier with every
-- column that the table has, its two version fields empty; every other device is found as before.
pub get_device_by_id-add_device :
    (info : DeviceInfo) (id : String) (d : Db)
    → d.outcomes ≡ []
    → (get_device_by_id id (add_device info d).1).0
      ≡ (if info.device_id == id then found (stored info) else (get_device_by_id id d).0)
unfolding get_device_by_id add_device
get_device_by_id-add_device info id d e = ground (
  arith,
  find_device-upsert (row_of info) id d.devices,
  info_of-row_of info,
  eq_iff info.device_id id,
)

-- What a device is found as once it has been updated.
abbrev pub updated : DeviceResult → DeviceInfo → DeviceResult
updated (found old) info = found (stored info)
updated not_found info = not_found
updated failed info = failed

-- While the database does not fail, a device that was found is found as updated afterwards, one that
-- was not found still is not, and every other device is found as before.
pub get_device_by_id-update_device :
    (info : DeviceInfo) (id : String) (d : Db)
    → d.outcomes ≡ []
    → (get_device_by_id id (update_device info d).1).0 ≡ (
        if info.device_id == id
        then updated (get_device_by_id id d).0 info
        else (get_device_by_id id d).0)
unfolding get_device_by_id update_device
get_device_by_id-update_device info id d e = ground (
  arith,
  find_device-update (row_of info) id d.devices,
  info_of-row_of info,
  eq_iff info.device_id id,
)

pub is_device_registered-found :
    (id : String) (d : Db)
    → d.outcomes ≡ []
    → (is_device_registered id d ≡ (some true, d))
        × ((old : DeviceInfo) × ((get_device_by_id id d).0 ≡ found old))
      ⊎ (is_device_registered id d ≡ (some false, d))
unfolding is_device_registered get_device_by_id
is_device_registered-found id d e = elim (Option-cases (find_device id d.devices)) [
  | inl n ↦ inr (rw (e, n) refl)
  | inr (r, s) ↦ inl (rw (e, s) refl, (record (info_of r) { device_id = id }, rw (e, s) refl))
]
