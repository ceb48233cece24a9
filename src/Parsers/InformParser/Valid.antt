-- ===== src/Parsers/InformParser/Valid.antt =====
-- What an Inform that the parser accepts satisfies.
use cwmp_acs_go.Prelude.{
  String, true, Option, none, some, List, [], ◌∷◌, ◌≡◌, ◌≢◌, refl, ap, subst, arith, eq_iff, ◌⊎◌,
  inl, inr, In, Bool-cases,
}
use cwmp_acs_go.Go.Runtime.{Runtime}
use cwmp_acs_go.Go.Text.{has_suffix}
use cwmp_acs_go.Cwmp.Structs.{
  CwmpHeader, CwmpMessage, Message, DeviceId, Inform, ParameterValueStruct,
}
use cwmp_acs_go.Cwmp.Errors.{Result, ok, err, >>=-eq-ok}
use cwmp_acs_go.Xml.Structs.{SoapElement, children}
use cwmp_acs_go.Parsers.Loops.{for_each}
use cwmp_acs_go.Parsers.Loops.Laws.{for_each_inv}
use cwmp_acs_go.Parsers.Responses.{named}
use cwmp_acs_go.Parsers.InformParser.{
  parse_device_id, check_device, device_field, no_device, inform_field, read_inform, parse_inform,
  new_inform, invalid_inform, accept, first_missing, found, minimum_forced_inform_parameters,
}

-- The three values that identify a device are there.
pub record IsIdentified (d : DeviceId) : Type 0 where
  pub manufacturer : d.manufacturer ≢ ""
  pub oui : d.oui ≢ ""
  pub serial_number : d.serial_number ≢ ""

check_device-IsIdentified : (c d : DeviceId) → check_device c ≡ ok d → IsIdentified d
unfolding check_device
check_device-IsIdentified c d h =
    ground (arith, eq_iff c.manufacturer "", eq_iff c.oui "", eq_iff c.serial_number "")

parse_device_id-IsIdentified :
    (e : SoapElement) (d : DeviceId) → parse_device_id e ≡ ok d → IsIdentified d
unfolding parse_device_id
parse_device_id-IsIdentified e d h =
    let (c, filled, checked) =
      >>=-eq-ok (for_each device_field (children e) no_device) check_device h in
    check_device-IsIdentified c d checked

abbrev OkIdentified : Result DeviceId → Type 0
OkIdentified (ok d) = IsIdentified d
OkIdentified (err e) = Unit {0}

parse_device_id-OkIdentified : (e : SoapElement) → OkIdentified (parse_device_id e)
parse_device_id-OkIdentified e =
    elim (parse_device_id e) as (λ r. parse_device_id e ≡ r → OkIdentified r) [
      | ok d ↦ λ h. parse_device_id-IsIdentified e d h
      | err x ↦ λ h. tt
    ]
      refl

-- What the loop of ParseInform keeps.
abbrev Inv : CwmpMessage → Inform → Type 0
Inv base m = (m.base ≡ base) × ((m.device_id ≡ no_device) ⊎ IsIdentified m.device_id)

inform_field-Inv :
    (go : Runtime) (base : CwmpMessage) (e : SoapElement) (m m' : Inform)
    → Inv base m
    → inform_field go e m ≡ ok m'
    → Inv base m'
unfolding inform_field
inform_field-Inv go base e m m' inv h = ground (arith, parse_device_id-OkIdentified e)

-- Some parameter's name ends in `required`.
abbrev pub Supplies : List ParameterValueStruct → String → Type 0
Supplies ps required = (p : ParameterValueStruct) × In p ps × (has_suffix p.name required ≡ true)

found-Supplies :
    (required : String) (ps : List ParameterValueStruct)
    → found required ps ≡ true
    → Supplies ps required
unfolding found
found-Supplies required [] h = absurd (cc)
found-Supplies required (p ∷ ps) h = elim (Bool-cases (has_suffix p.name required)) [
  | inl e ↦ (p, inl refl, e)
  | inr n ↦ let (q, at, e) = found-Supplies required ps (rw n at h) in (q, inr at, e)
]

first_missing-found :
    (names : List String) (ps : List ParameterValueStruct) (required : String)
    → first_missing names ps ≡ none
    → In required names
    → found required ps ≡ true
unfolding first_missing
first_missing-found [] ps required h i = absurd i
first_missing-found (n ∷ ns) ps required h (inl e) = ground arith
first_missing-found (n ∷ ns) ps required h (inr i) =
    first_missing-found ns ps required (ground arith) i

-- An Inform as the rest of the server may rely on it.
pub record IsValid (header : CwmpHeader) (m : Inform) : Type 0 where
  pub base : m.base ≡ named "Inform" header
  pub identified : IsIdentified m.device_id
  pub has_events : m.events ≢ []
  pub has_parameters : m.parameters ≢ []
  pub supplied :
      (required : String)
      → In required minimum_forced_inform_parameters
      → Supplies m.parameters required

-- What isValidInform has seen when it finds nothing wrong.
record IsChecked (go : Runtime) (m : Inform) : Type 0 where
  manufacturer : m.device_id.manufacturer ≢ ""
  has_events : m.events ≢ []
  has_parameters : m.parameters ≢ []
  none_missing : first_missing go.range_forced m.parameters ≡ none

invalid_inform-none : (go : Runtime) (m : Inform) → invalid_inform go m ≡ none → IsChecked go m
unfolding invalid_inform
invalid_inform-none go m h = record {
  manufacturer = ground (arith, eq_iff m.device_id.manufacturer "");
  has_events = ground arith;
  has_parameters = ground arith;
  none_missing = ground arith;
}

-- A range over the map visits all its keys.
abbrev pub VisitsAll : Runtime → Type 0
VisitsAll go = (name : String) → In name minimum_forced_inform_parameters → In name go.range_forced

IsValid-of_checked :
    (go : Runtime) (header : CwmpHeader) (m : Inform)
    → VisitsAll go
    → Inv (named "Inform" header) m
    → IsChecked go m
    → IsValid header m
IsValid-of_checked go header m visits inv c = record {
  base = inv.0;
  identified = elim inv.1 [
    | inl e ↦ absurd (c.manufacturer (ap (λ (d : DeviceId). d.manufacturer) e))
    | inr i ↦ i
  ];
  has_events = c.has_events;
  has_parameters = c.has_parameters;
  supplied = λ required i. found-Supplies required m.parameters (
      first_missing-found go.range_forced m.parameters required c.none_missing (visits required i));
}

accept-none :
    (go : Runtime) (l m : Inform) (o : Option String) → accept o l ≡ ok m → (o ≡ none) × (l ≡ m)
accept-none go l m none h = (refl, cc)
accept-none go l m (some t) h = absurd (cc)

-- The base of an Inform that is read is the one that ParseInform starts from.
pub read_inform-base :
    (go : Runtime) (elem : SoapElement) (header : CwmpHeader) (m : Inform)
    → read_inform go elem header ≡ ok m
    → Inv (named "Inform" header) m
unfolding read_inform
read_inform-base go elem header m h =
    let (l, filled, accepted) =
      >>=-eq-ok (for_each (inform_field go) (children elem) (new_inform header))
        (λ l. accept (invalid_inform go l) l) h in
    let (valid, same) = accept-none go l m (invalid_inform go l) accepted in
    subst (Inv (named "Inform" header)) same (
      for_each_inv (Inv (named "Inform" header)) (inform_field go)
        (inform_field-Inv go (named "Inform" header)) (children elem) (new_inform header) l
        (refl, inl refl) filled)

-- An Inform that ParseInform returns bears the header of the message,
-- names its device (manufacturer, OUI and serial number are not empty), and holds an event, a
-- parameter, and a parameter for each of the five required names, as a suffix of the parameter's
-- name. The one hypothesis is that Go's range over the map of required names visits all of them.
pub parse_inform-IsValid :
    (go : Runtime) (elem : SoapElement) (header : CwmpHeader) (m : Inform)
    → VisitsAll go
    → parse_inform go elem header ≡ ok (Message.inform m)
    → IsValid header m
unfolding parse_inform read_inform
parse_inform-IsValid go elem header m visits h =
    let (r, read, same) = >>=-eq-ok (read_inform go elem header) (λ x. ok (Message.inform x)) h in
    let (l, filled, accepted) =
      >>=-eq-ok (for_each (inform_field go) (children elem) (new_inform header))
        (λ l. accept (invalid_inform go l) l) read in
    let (valid, is_r) = accept-none go l r (invalid_inform go l) accepted in
    let is_m : l ≡ m = cc in
    subst (IsValid header) is_m (
      IsValid-of_checked go header l visits
        (for_each_inv (Inv (named "Inform" header)) (inform_field go)
          (inform_field-Inv go (named "Inform" header)) (children elem) (new_inform header) l
          (refl, inl refl) filled)
        (invalid_inform-none go l valid))

pub parse_inform-base :
    (go : Runtime) (elem : SoapElement) (header : CwmpHeader) (m : Inform)
    → parse_inform go elem header ≡ ok (Message.inform m)
    → m.base ≡ named "Inform" header
unfolding parse_inform
parse_inform-base go elem header m h =
    let (r, read, same) = >>=-eq-ok (read_inform go elem header) (λ x. ok (Message.inform x)) h in
    let is_m : r ≡ m = cc in
    subst (λ (x : Inform). x.base ≡ named "Inform" header) is_m
      (read_inform-base go elem header r read).0
