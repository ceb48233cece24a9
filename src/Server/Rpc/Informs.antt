-- ===== src/Server/Rpc/Informs.antt =====
-- What an Inform that is accepted leaves in the database.
use cwmp_acs_go.Prelude.{
  ℕ, String, true, some, [], ◌≡◌, refl, ◌∙◌, arith, eq_refl, inl, inr, Bool-cases,
}
use cwmp_acs_go.Cwmp.Structs.{Inform, get_name}
use cwmp_acs_go.Server.Database.{Db, DeviceInfo, found, get_device_by_id, add_device, update_device}
use cwmp_acs_go.Server.Database.Devices.{
  stored, get_device_by_id-add_device, get_device_by_id-update_device, is_device_registered-found,
}
use cwmp_acs_go.Server.Session.{Address}
use cwmp_acs_go.Server.World.{World}
use cwmp_acs_go.Server.Rpc.Describes.{Describes, device_info-Describes}
use cwmp_acs_go.Server.Rpc.{
  is_boot, device_info, generate_fault, checked_update, register_device, refresh_device,
  process_inform_request,
}

device_info-id : (device : String) (m : Inform) → (device_info device m).device_id ≡ device
device_info-id device m = Describes.device_id (device_info-Describes device m)

-- The device of the session at `a`, as the Inform describes it.
abbrev pub device_at : Address → World → String
device_at a w = (w.sessions.heap a).device_id_string

added :
    (device : String) (m : Inform) (d : Db)
    → d.outcomes ≡ []
    → (get_device_by_id device (add_device (device_info device m) d).1).0
      ≡ found (stored (device_info device m))
added device m d e =
    get_device_by_id-add_device (device_info device m) device d e
    ∙ rw (device_info-id device m, eq_refl device) refl

renewed :
    (device : String) (m : Inform) (d : Db) (old : DeviceInfo)
    → d.outcomes ≡ []
    → (get_device_by_id device d).0 ≡ found old
    → (get_device_by_id device (update_device (device_info device m) d).1).0
      ≡ found (stored (device_info device m))
renewed device m d old e was =
    get_device_by_id-update_device (device_info device m) device d e
    ∙ rw (device_info-id device m, eq_refl device, was) refl

register_device-db :
    (now : ℕ) (a : Address) (m : Inform) (w : World)
    → (register_device now a m w).1.db ≡ (add_device (device_info (device_at a w) m) w.db).1
unfolding register_device
register_device-db now a m w = ground arith

checked_update-db :
    (now : ℕ) (a : Address) (m : Inform) (w : World)
    → (checked_update now a m (some true) w).1.db
      ≡ (update_device (device_info (device_at a w) m) w.db).1
checked_update-db now a m w = ground arith

refresh_device-registers :
    (now : ℕ) (a : Address) (m : Inform) (w : World)
    → w.db.outcomes ≡ []
    → get_name (refresh_device now a m w).0 ≡ "InformResponse"
    → (get_device_by_id (device_at a w) (refresh_device now a m w).1.db).0
      ≡ found (stored (device_info (device_at a w) m))
unfolding refresh_device generate_fault
refresh_device-registers now a m w e h = elim (is_device_registered-found (device_at a w) w.db e) [
  | inr missing ↦ absurd (let k : "Fault" ≡ "InformResponse" = rw missing at h in cc)
  | inl (there, (old, was)) ↦
      rw (there, checked_update-db now a m w) (renewed (device_at a w) m w.db old e was)
]

process_inform_request-stores :
    (now : ℕ) (a : Address) (m : Inform) (w : World)
    → w.db.outcomes ≡ []
    → get_name (process_inform_request now a m w).0 ≡ "InformResponse"
    → (get_device_by_id (device_at a w) (process_inform_request now a m w).1.db).0
      ≡ found (stored (device_info (device_at a w) m))
unfolding process_inform_request
process_inform_request-stores now a m w e h = elim (Bool-cases (is_boot m.events)) [
  | inl boot ↦ rw (boot, register_device-db now a m w) (added (device_at a w) m w.db e)
  | inr later ↦ rw later (refresh_device-registers now a m w e (rw later at h))
]

-- While the database does not fail, an Inform that is answered with an InformResponse leaves the
-- session's device in the database: its columns hold the manufacturer, the OUI, the product class and the
-- serial number of the Inform, and, as connection request URL, provisioning code and parameter key, the
-- value of the last of its parameters whose name ends in .ManagementServer.ConnectionRequestURL, in
-- .DeviceInfo.ProvisioningCode and in .ManagementServer.ParameterKey, or nothing if there is none.
pub process_inform_request-registers :
    (now : ℕ) (a : Address) (m : Inform) (w : World)
    → w.db.outcomes ≡ []
    → get_name (process_inform_request now a m w).0 ≡ "InformResponse"
    → (info : DeviceInfo) × ((get_device_by_id
          (device_at a w)
          (process_inform_request now a m w).1.db).0
        ≡ found (stored info))
      × Describes (device_at a w) m info
process_inform_request-registers now a m w e h = (
  device_info (device_at a w) m,
  process_inform_request-stores now a m w e h,
  device_info-Describes (device_at a w) m,
)
