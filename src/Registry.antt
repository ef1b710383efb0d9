-- ===== src/Registry.antt =====
-- ms605/registry.py: `Registry`, the sites, the sensors and the pending imports. A method takes what
-- it reads from outside as arguments: `save` is the outcome of `_save`, `lower` is `str.lower`, and
-- `now` is the time. Records are values, so who else holds a record is not modelled, and neither are
-- the reading of the file (`_load`) nor the splitting of an import's text into lines.
pub mod Matching
pub mod Importing
pub mod Calls
pub mod Tests
pub mod Invariant
use ms605_ble.Prelude.{
  ℕ, List, [], ◌∷◌, ◌++◌, Option, none, some, Bool, true, false, not, ◌&&◌, if◌then◌else◌, Result,
  ok, err, Error, key_error, value_error,
}
use ms605_ble.Dicts.{Str, Dict, str_eq, lookup, contains, set_item, del_item, is_member, is_some}

pub record Site : Type 0 where
  pub site_id : Str
  pub name : Str

pub record Sensor : Type 0 where
  pub device_id : Str
  pub site_id : Str
  pub alias : Str
  pub location : Str
  pub notes : Str
  pub addresses : Dict Str
  pub last_seen : Option Str
  pub battery_pct : Option ℕ

pub record PendingSensor : Type 0 where
  pub site_id : Str
  pub alias : Str
  pub address : Str
  pub host : Str
  pub source : Str

pub record MatchResult : Type 0 where
  pub sensor : Option Sensor
  pub resolved_pending : Bool

pub record Registry : Type 0 where
  pub host : Str
  pub sites : Dict Site
  pub sensors : Dict Sensor
  pub pending : List PendingSensor

abbrev pub Save : Type 0
Save = Registry → Result (Unit {0})

-- `with self._mutation(): ...`, whose block turns `before` into `after`
unfoldable pub mutation : {A : Type 0} → Save → Registry → Registry → A → Result A × Registry
mutation save before after a = elim (save after) [
  | ok saved ↦ (ok a, after)
  | err e ↦ (err e, before)
]

unfoldable pub add_site : Save → Str → Str → Registry → Result Site × Registry
unfolding mutation
add_site save site_id name r =
    if contains r.sites site_id
    then (err value_error, r)
    else let site : Site = record { site_id = site_id; name = name } in
      mutation save r (record r { sites = set_item r.sites site_id site }) site

-- `Sensor(device_id, site_id, alias, location=location, notes=notes)`
abbrev pub new_sensor : Str → Str → Str → Str → Str → Sensor
new_sensor device_id site_id alias location notes = record {
  device_id = device_id;
  site_id = site_id;
  alias = alias;
  location = location;
  notes = notes;
  addresses = [];
  last_seen = none;
  battery_pct = none;
}

unfoldable pub add_sensor : Save → Str → Str → Str → Str → Str → Registry → Result Sensor × Registry
unfolding mutation
add_sensor save device_id site_id alias location notes r =
    if not (contains r.sites site_id)
    then (err key_error, r)
    else if contains r.sensors device_id
    then (err value_error, r)
    else let sensor = new_sensor device_id site_id alias location notes in
      mutation save r (record r { sensors = set_item r.sensors device_id sensor }) sensor

-- `if value is not None: field = value`
abbrev pub or_kept : Option Str → Str → Str
or_kept none kept = kept
or_kept (some value) kept = value

-- `site_id is None or site_id in self._sites`
abbrev pub names_site : Option Str → Registry → Bool
names_site none r = true
names_site (some site_id) r = contains r.sites site_id

unfoldable pub update_sensor :
    Save
    → Str
    → Option Str
    → Option Str
    → Option Str
    → Option Str
    → Registry
    → Result Sensor × Registry
unfolding mutation
update_sensor save device_id site_id alias location notes r = elim (lookup r.sensors device_id) [
  | none ↦ (err key_error, r)
  | some s ↦
      if not (names_site site_id r)
      then (err key_error, r)
      else let sensor : Sensor = record s {
        site_id = or_kept site_id s.site_id;
        alias = or_kept alias s.alias;
        location = or_kept location s.location;
        notes = or_kept notes s.notes;
      } in
        mutation save r (record r { sensors = set_item r.sensors device_id sensor }) sensor
]

unfoldable pub remove_sensor : Save → Str → Registry → Result (Unit {0}) × Registry
unfolding mutation
remove_sensor save device_id r =
    if not (contains r.sensors device_id)
    then (err key_error, r)
    else mutation save r (record r { sensors = del_item r.sensors device_id }) tt
