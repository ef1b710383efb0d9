-- ===== src/Fleet/Changes.antt =====
-- `ThresholdChange`, `SensorChanges` and `Draft` of ms605/fleet.py, with fields of the annotated
-- types. A device id is a string.
pub mod Taken
pub mod Restore
pub mod Merging
pub mod Tests
use ms605_ble.Prelude.{
  ℕ, List, [], ◌∷◌, Option, none, some, Bool, true, false, not, ◌==◌, ◌||◌, if◌then◌else◌, length,
  map, Result, ok, err, profile_error, index_error, raise_if, ◌>>=◌, ◌>>◌, ℤ, ◌+ℤ◌,
}
use ms605_ble.Dicts.{Str, Dict, lookup}
use ms605_ble.Profiles.{
  Section, sensitivity, detect_mode, zone_enable, zone_thresholds, subsensor_zones,
  subsensor_timing, subsensor_enable, profile_section_keys, ConfigProfile, validate, in_range,
  all_of,
}

pub record ThresholdChange : Type 0 where
  pub relative : Bool
  pub trigger : List (Option ℤ)
  pub maintain : List (Option ℤ)

-- `value is None or change.relative or 0 <= value <= 0xFFFF`
abbrev pub is_threshold : Bool → Option ℤ → Bool
is_threshold relative none = true
is_threshold relative (some value) = relative || in_range 0 0xFFFF value

abbrev pub check_values : Bool → List (Option ℤ) → Result (Unit {0})
check_values relative values = do
  raise_if (not (length values == 7)) profile_error
  raise_if (not (all_of (is_threshold relative) values)) profile_error

unfoldable pub check_threshold_change : ThresholdChange → Result (Unit {0})
check_threshold_change change = do
  check_values change.relative change.trigger
  check_values change.relative change.maintain

pub record SensorChanges : Type 0 where
  pub sensitivity : Option ℤ
  pub detect_mode : Option ℤ
  pub zone_enable : Option (List Bool)
  pub zone_thresholds : Option ThresholdChange
  pub subsensor_zones : Option (List (List ℤ))
  pub subsensor_timing : Option (List (ℤ × ℤ))
  pub subsensor_enable : Option (List Bool)
  pub dnd : Option Bool

abbrev pub no_changes : SensorChanges
no_changes = record {
  sensitivity = none;
  detect_mode = none;
  zone_enable = none;
  zone_thresholds = none;
  subsensor_zones = none;
  subsensor_timing = none;
  subsensor_enable = none;
  dnd = none;
}

-- `SensorChanges._plain_profile`, with thresholds added by `resolve`
abbrev pub plain_profile : SensorChanges → Option (List (ℤ × ℤ)) → ConfigProfile
plain_profile c thresholds = record {
  sensitivity = c.sensitivity;
  detect_mode = c.detect_mode;
  zone_enable = c.zone_enable;
  zone_thresholds = thresholds;
  subsensor_zones = c.subsensor_zones;
  subsensor_timing = c.subsensor_timing;
  subsensor_enable = c.subsensor_enable;
}

abbrev pub check_change : Option ThresholdChange → Result (Unit {0})
check_change none = ok tt
check_change (some change) = check_threshold_change change

-- `SensorChanges.validate`
unfoldable pub validate_changes : SensorChanges → Result (Unit {0})
validate_changes c = do
  check_change c.zone_thresholds
  validate profile_section_keys (plain_profile c none)

abbrev pub new_value : Bool → ℤ → Option ℤ → ℤ
new_value relative cur none = cur
new_value relative cur (some value) = if relative then cur +ℤ value else value

-- `if not 0 <= new <= 0xFFFF: raise ProfileError`
abbrev pub check_new : ℤ → Result ℤ
check_new new = do raise_if (not (in_range 0 0xFFFF new)) profile_error; ok new

-- `for zone, (cur_t, cur_m) in enumerate(...)`, the lists of the change from `zone` on
unfoldable pub new_pairs :
    Bool → List (ℤ × ℤ) → List (Option ℤ) → List (Option ℤ) → Result (List (ℤ × ℤ))
new_pairs relative [] triggers maintains = ok []
new_pairs relative ((t, m) ∷ current) [] maintains = err index_error
new_pairs relative ((t, m) ∷ current) (x ∷ triggers) [] = err index_error
new_pairs relative ((t, m) ∷ current) (x ∷ triggers) (y ∷ maintains) = do
  new_t ← check_new (new_value relative t x)
  new_m ← check_new (new_value relative m y)
  rest ← new_pairs relative current triggers maintains
  ok ((new_t, new_m) ∷ rest)

abbrev pub changed_pairs : ThresholdChange → Option (List (ℤ × ℤ)) → Result (Option (List (ℤ × ℤ)))
changed_pairs change none = err profile_error
changed_pairs change (some current) = do
  pairs ← new_pairs change.relative current change.trigger change.maintain
  ok (some pairs)

abbrev pub target_thresholds :
    Option ThresholdChange → Option (List (ℤ × ℤ)) → Result (Option (List (ℤ × ℤ)))
target_thresholds none current = ok none
target_thresholds (some change) current = changed_pairs change current

-- `SensorChanges.resolve`
unfoldable pub resolve : SensorChanges → ConfigProfile → Result ConfigProfile
resolve c current = do
  validate_changes c
  thresholds ← target_thresholds c.zone_thresholds current.zone_thresholds
  validate profile_section_keys (plain_profile c thresholds)
  ok (plain_profile c thresholds)

-- A name in `sections`: a section of a profile or DND_SECTION.
pub data ChangeSection : Type 0 where
  of_profile : Section → ChangeSection
  dnd_section : ChangeSection

abbrev pub absolute_change : Option (List (ℤ × ℤ)) → Option ThresholdChange
absolute_change none = none
absolute_change (some pairs) = some (record {
  relative = false;
  trigger = map (λ p. some (p.0)) pairs;
  maintain = map (λ p. some (p.1)) pairs;
})

-- `setattr(changes, key, value)`
abbrev pub set_change : ConfigProfile → Section → SensorChanges → SensorChanges
set_change p sensitivity c = record c { sensitivity = p.sensitivity }
set_change p detect_mode c = record c { detect_mode = p.detect_mode }
set_change p zone_enable c = record c { zone_enable = p.zone_enable }
set_change p zone_thresholds c = record c { zone_thresholds = absolute_change p.zone_thresholds }
set_change p subsensor_zones c = record c { subsensor_zones = p.subsensor_zones }
set_change p subsensor_timing c = record c { subsensor_timing = p.subsensor_timing }
set_change p subsensor_enable c = record c { subsensor_enable = p.subsensor_enable }

-- `for key in sections`
unfoldable pub set_changes :
    ConfigProfile → Option Bool → List ChangeSection → SensorChanges → Result SensorChanges
set_changes p dnd [] c = ok c
set_changes p none (dnd_section ∷ sections) c = err profile_error
set_changes p (some d) (dnd_section ∷ sections) c =
    set_changes p (some d) sections (record c { dnd = some d })
set_changes p dnd (of_profile k ∷ sections) c = set_changes p dnd sections (set_change p k c)

-- `SensorChanges.from_profile`
unfoldable pub from_profile :
    ConfigProfile → List ChangeSection → Option Bool → Result SensorChanges
unfolding set_changes
from_profile p sections dnd = set_changes p dnd sections no_changes

pub record Draft : Type 0 where
  pub targets : List Str
  pub bulk : SensorChanges
  pub per_sensor : Dict SensorChanges

-- `if value is not None: setattr(changes, f.name, value)`
abbrev pub replaced : {A : Type 0} → Option A → Option A → Option A
replaced none kept = kept
replaced (some value) kept = some value

abbrev pub overridden : SensorChanges → Option SensorChanges → SensorChanges
overridden changes none = changes
overridden changes (some o) = record {
  sensitivity = replaced o.sensitivity changes.sensitivity;
  detect_mode = replaced o.detect_mode changes.detect_mode;
  zone_enable = replaced o.zone_enable changes.zone_enable;
  zone_thresholds = replaced o.zone_thresholds changes.zone_thresholds;
  subsensor_zones = replaced o.subsensor_zones changes.subsensor_zones;
  subsensor_timing = replaced o.subsensor_timing changes.subsensor_timing;
  subsensor_enable = replaced o.subsensor_enable changes.subsensor_enable;
  dnd = replaced o.dnd changes.dnd;
}

-- `Draft.changes_for`
unfoldable pub changes_for : Draft → Str → SensorChanges
changes_for draft device_id = overridden draft.bulk (lookup draft.per_sensor device_id)

abbrev pub validate_each : Dict SensorChanges → Result (Unit {0})
validate_each [] = ok tt
validate_each ((device_id, changes) ∷ rest) = do validate_changes changes; validate_each rest

-- `Draft.validate`
unfoldable pub validate_draft : Draft → Result (Unit {0})
validate_draft draft = do
  raise_if (length draft.targets == 0) profile_error
  validate_changes draft.bulk
  validate_each draft.per_sensor
