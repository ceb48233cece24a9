-- ===== src/Server/Rpc/Describes.antt =====
-- The columns that the loop of processInformRequest over an Inform's parameters fills.
use Prim.Native.String.{[], ◌∷◌}
use mathlib.Core.List.{List, ◌∷◌, []}
use cwmp_acs_go.Prelude.{
  String, true, false, ◌++◌, ◌≡◌, ◌⊎◌, inl, inr, refl, sym, ap, ◌∙◌, subst, arith, eq_iff, ◌==◌,
  Bool-cases, All,
}
use cwmp_acs_go.Go.Text.{has_suffix}
use cwmp_acs_go.Cwmp.Structs.{Inform, ParameterValueStruct}
use cwmp_acs_go.Server.Database.{DeviceInfo}
use cwmp_acs_go.Server.Rpc.{device_parameter, device_parameters, device_info}

abbrev pub Lacks : String → ParameterValueStruct → Type 0
Lacks suffix p = has_suffix p.name suffix ≡ false

-- The value of the last parameter whose name ends so, or the default if there is none.
pub data IsLast (suffix default v : String) : List ParameterValueStruct → Type 0 where
  kept :
      (ps : List ParameterValueStruct)
      → All (Lacks suffix) ps
      → v ≡ default
      → IsLast suffix default v ps
  last :
      (before : List ParameterValueStruct) (p : ParameterValueStruct)
      (after : List ParameterValueStruct)
      → has_suffix p.name suffix ≡ true
      → All (Lacks suffix) after
      → v ≡ p.value
      → IsLast suffix default v (before ++ p ∷ after)

-- Of two suffixes of a text, one is a suffix of the other.
suffixes :
    (s a b : String)
    → has_suffix s a ≡ true
    → has_suffix s b ≡ true
    → (has_suffix a b ≡ true) ⊎ (has_suffix b a ≡ true)
unfolding has_suffix
suffixes [] a b h k = inl (subst (λ x. has_suffix x b ≡ true) ((eq_iff [] a).0 h) k)
suffixes (c ∷ s) a b h k = elim (Bool-cases ((c ∷ s) == a)) [
  | inl e ↦ inl (subst (λ x. has_suffix x b ≡ true) ((eq_iff (c ∷ s) a).0 e) k)
  | inr n ↦ elim (Bool-cases ((c ∷ s) == b)) [
    | inl e ↦ inr (subst (λ x. has_suffix x a ≡ true) ((eq_iff (c ∷ s) b).0 e) h)
    | inr m ↦ suffixes s a b (rw n at h) (rw m at k)
  ]
]

exclusive :
    (s a b : String)
    → has_suffix a b ≡ false
    → has_suffix b a ≡ false
    → has_suffix s b ≡ true
    → has_suffix s a ≡ false
exclusive s a b n m k = elim (Bool-cases (has_suffix s a)) [
  | inr h ↦ h
  | inl h ↦ elim (suffixes s a b h k) [
    | inl x ↦ absurd (let no : true ≡ false = sym x ∙ n in cc)
    | inr x ↦ absurd (let no : true ≡ false = sym x ∙ m in cc)
  ]
]

-- A column that a parameter with a suffix sets, and no other does.
module _ (suffix : String) (column : DeviceInfo → String)
    (sets : (d : DeviceInfo) (p : ParameterValueStruct)
      → has_suffix p.name suffix ≡ true
      → column (device_parameter d p) ≡ p.value)
    (keeps : (d : DeviceInfo) (p : ParameterValueStruct)
      → has_suffix p.name suffix ≡ false
      → column (device_parameter d p) ≡ column d) where
  one_more :
      (d : DeviceInfo) (p : ParameterValueStruct) (v : String) (ps : List ParameterValueStruct)
      → IsLast suffix (column (device_parameter d p)) v ps
      → IsLast suffix (column d) v (p ∷ ps)
  one_more d p v _ (last before q after h none_after e) = last (p ∷ before) q after h none_after e
  one_more d p v _ (kept ps none_in e) = elim (Bool-cases (has_suffix p.name suffix)) [
    | inl h ↦ last [] p ps h none_in (e ∙ sets d p h)
    | inr n ↦ kept (p ∷ ps) (n, none_in) (e ∙ keeps d p n)
  ]

  column-IsLast :
      (d : DeviceInfo) (ps : List ParameterValueStruct)
      → IsLast suffix (column d) (column (device_parameters d ps)) ps
  unfolding device_parameters
  column-IsLast d [] = kept [] tt refl
  column-IsLast d (p ∷ ps) = one_more d p _ ps (column-IsLast (device_parameter d p) ps)

abbrev pub url_suffix : String
url_suffix = ".ManagementServer.ConnectionRequestURL"

abbrev pub code_suffix : String
code_suffix = ".DeviceInfo.ProvisioningCode"

abbrev pub key_suffix : String
key_suffix = ".ManagementServer.ParameterKey"

sets_url :
    (d : DeviceInfo) (p : ParameterValueStruct)
    → has_suffix p.name url_suffix ≡ true
    → (device_parameter d p).connection_request_url ≡ p.value
unfolding device_parameter
sets_url d p h = rw (device_parameter, h) refl

keeps_url :
    (d : DeviceInfo) (p : ParameterValueStruct)
    → has_suffix p.name url_suffix ≡ false
    → (device_parameter d p).connection_request_url ≡ d.connection_request_url
unfolding device_parameter
keeps_url d p h = ground arith

code_excludes :
    (s : String)
    → has_suffix s code_suffix ≡ true
    → (has_suffix s url_suffix ≡ false)
      × (has_suffix s ".DeviceInfo.HardwareVersion" ≡ false)
      × (has_suffix s ".DeviceInfo.SoftwareVersion" ≡ false)
unfolding has_suffix
code_excludes s h = (
  exclusive s url_suffix code_suffix refl refl h,
  exclusive s ".DeviceInfo.HardwareVersion" code_suffix refl refl h,
  exclusive s ".DeviceInfo.SoftwareVersion" code_suffix refl refl h,
)

sets_code :
    (d : DeviceInfo) (p : ParameterValueStruct)
    → has_suffix p.name code_suffix ≡ true
    → (device_parameter d p).provisioning_code ≡ p.value
unfolding device_parameter
sets_code d p h = let (a, b, c) = code_excludes p.name h in rw (device_parameter, a, b, c, h) refl

keeps_code :
    (d : DeviceInfo) (p : ParameterValueStruct)
    → has_suffix p.name code_suffix ≡ false
    → (device_parameter d p).provisioning_code ≡ d.provisioning_code
unfolding device_parameter
keeps_code d p h = ground arith

key_excludes :
    (s : String)
    → has_suffix s key_suffix ≡ true
    → (has_suffix s url_suffix ≡ false)
      × (has_suffix s ".DeviceInfo.HardwareVersion" ≡ false)
      × (has_suffix s ".DeviceInfo.SoftwareVersion" ≡ false)
      × (has_suffix s code_suffix ≡ false)
unfolding has_suffix
key_excludes s h = (
  exclusive s url_suffix key_suffix refl refl h,
  exclusive s ".DeviceInfo.HardwareVersion" key_suffix refl refl h,
  exclusive s ".DeviceInfo.SoftwareVersion" key_suffix refl refl h,
  exclusive s code_suffix key_suffix refl refl h,
)

sets_key :
    (d : DeviceInfo) (p : ParameterValueStruct)
    → has_suffix p.name key_suffix ≡ true
    → (device_parameter d p).parameter_key ≡ p.value
unfolding device_parameter
sets_key d p h =
    let (a, b, c, e) = key_excludes p.name h in rw (device_parameter, a, b, c, e, h) refl

keeps_key :
    (d : DeviceInfo) (p : ParameterValueStruct)
    → has_suffix p.name key_suffix ≡ false
    → (device_parameter d p).parameter_key ≡ d.parameter_key
unfolding device_parameter
keeps_key d p h = ground arith

-- The part of the columns that the parameters do not touch.
abbrev identity : DeviceInfo → String × String × String × String × String
identity d = (d.device_id, d.manufacturer, d.oui, d.product_class, d.serial_number)

device_parameters-identity :
    (d : DeviceInfo) (ps : List ParameterValueStruct)
    → identity (device_parameters d ps) ≡ identity d
unfolding device_parameters device_parameter
device_parameters-identity d [] = refl
device_parameters-identity d (p ∷ ps) =
    device_parameters-identity (device_parameter d p) ps ∙ ground arith

-- What the columns of a device hold that an Inform describes: its identity, and the values of the last
-- parameters whose names end so.
pub record Describes (device : String) (m : Inform) (info : DeviceInfo) : Type 0 where
  pub device_id : info.device_id ≡ device
  pub manufacturer : info.manufacturer ≡ m.device_id.manufacturer
  pub oui : info.oui ≡ m.device_id.oui
  pub product_class : info.product_class ≡ m.device_id.product_class
  pub serial_number : info.serial_number ≡ m.device_id.serial_number
  pub url : IsLast url_suffix "" info.connection_request_url m.parameters
  pub code : IsLast code_suffix "" info.provisioning_code m.parameters
  pub key : IsLast key_suffix "" info.parameter_key m.parameters

pub device_info-Describes :
    (device : String) (m : Inform) → Describes device m (device_info device m)
unfolding device_info
device_info-Describes device m =
    let same = device_parameters-identity _ m.parameters in
    record {
      device_id = ap (λ (x : String × String × String × String × String). x.0) same;
      manufacturer = ap (λ (x : String × String × String × String × String). x.1) same;
      oui = ap (λ (x : String × String × String × String × String). x.2) same;
      product_class = ap (λ (x : String × String × String × String × String). x.3) same;
      serial_number = ap (λ (x : String × String × String × String × String). x.4) same;
      url =
          column-IsLast url_suffix (λ d. d.connection_request_url) sets_url keeps_url _
            m.parameters;
      code =
          column-IsLast code_suffix (λ d. d.provisioning_code) sets_code keeps_code _ m.parameters;
      key = column-IsLast key_suffix (λ d. d.parameter_key) sets_key keeps_key _ m.parameters;
    }
