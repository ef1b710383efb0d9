-- ===== src/Profiles.antt =====
-- `ConfigProfile` of ms605/models.py, with fields of the annotated types: the checks of `validate`
-- that a value is of its type at all are not modelled, and neither is the JSON form.
pub mod ZoneSets
pub mod Checks
pub mod Same
use ms605_ble.Prelude.{
  ℕ, List, [], ◌∷◌, Option, none, some, Bool, true, false, not, ◌&&◌, ◌==◌, leb, ltb, if◌then◌else◌,
  length, map, Result, ok, err, Error, profile_error, raise_if, ◌>>=◌, ◌>>◌, ℤ, pos, negsuc, int_eq,
  int_lt,
}
use ms605_ble.Equality.{opt_eq, list_eq, pair_eq, bool_eq}
use ms605_ble.Models.Segments.{flags_from}
use ms605_ble.Models.Zones.{ZoneThreshold, SubSensorTiming}
use ms605_ble.Models.Segments.{SubSensorZoneMap}
use ms605_ble.Models.Config.{Ms605Config, zones_enabled}

-- The keys of PROFILE_SECTIONS.
pub data Section : Type 0 where
  sensitivity detect_mode zone_enable zone_thresholds : Section
  subsensor_zones subsensor_timing subsensor_enable : Section

abbrev pub profile_section_keys : List Section
profile_section_keys =
    sensitivity ∷ detect_mode ∷ zone_enable ∷ zone_thresholds ∷ subsensor_zones ∷ subsensor_timing
    ∷ subsensor_enable ∷ []

-- The place of a key in PROFILE_SECTIONS.
abbrev pub section_number : Section → ℕ
section_number sensitivity = 0
section_number detect_mode = 1
section_number zone_enable = 2
section_number zone_thresholds = 3
section_number subsensor_zones = 4
section_number subsensor_timing = 5
section_number subsensor_enable = 6

-- `key in keys`
abbrev pub has_section : Section → List Section → Bool
has_section s [] = false
has_section s (k ∷ keys) = if section_number k == section_number s then true else has_section s keys

-- The fields `source_name` and `source_address`, which no operation here reads, are left out.
pub record ConfigProfile : Type 0 where
  pub sensitivity : Option ℤ
  pub detect_mode : Option ℤ
  pub zone_enable : Option (List Bool)
  pub zone_thresholds : Option (List (ℤ × ℤ))
  pub subsensor_zones : Option (List (List ℤ))
  pub subsensor_timing : Option (List (ℤ × ℤ))
  pub subsensor_enable : Option (List Bool)

-- `ConfigProfile.from_config`
unfoldable pub from_config : Ms605Config → ConfigProfile
unfolding zones_enabled
from_config cfg = record {
  sensitivity = some (pos cfg.sensitivity);
  detect_mode = some (pos cfg.detect_mode);
  zone_enable = some (zones_enabled cfg);
  zone_thresholds = some (map (λ z. (pos z.trigger, pos z.maintain)) cfg.zone_thresholds);
  subsensor_zones = some (map (λ zm. map (λ z. pos z) zm.zones) cfg.segment_map);
  subsensor_timing =
      some (map (λ t. (pos t.presence_seconds, pos t.absence_seconds)) cfg.presence_absence_times);
  subsensor_enable = some (flags_from 3 0 cfg.sub_sensor_enable);
}

-- `all(test(x) for x in xs)`
abbrev pub all_of : {A : Type 0} → (A → Bool) → List A → Bool
all_of test [] = true
all_of test (x ∷ xs) = test x && all_of test xs

-- `lo <= value <= hi`
abbrev pub in_range : ℕ → ℕ → ℤ → Bool
in_range lo hi (pos n) = leb lo n && leb n hi
in_range lo hi (negsuc n) = false

-- `if value is not None and not check(value): raise ProfileError`
abbrev pub checked : {A : Type 0} → (A → Bool) → Option A → Result (Unit {0})
checked check none = ok tt
checked check (some value) = raise_if (not (check value)) profile_error

-- The conditions of `_check_flags` and `_check_u16_pairs`.
abbrev pub are_flags : ℕ → List Bool → Bool
are_flags n flags = length flags == n

abbrev pub is_u16_pair : ℤ × ℤ → Bool
is_u16_pair (a, b) = in_range 0 0xFFFF a && in_range 0 0xFFFF b

abbrev pub are_u16_pairs : ℕ → List (ℤ × ℤ) → Bool
are_u16_pairs n pairs = length pairs == n && all_of is_u16_pair pairs

abbrev pub are_zone_lists : List (List ℤ) → Bool
are_zone_lists zone_lists =
    length zone_lists == 3 && all_of (λ zones. all_of (in_range 0 6) zones) zone_lists

-- `if key in keys and ...`
abbrev pub check_section : List Section → Section → Result (Unit {0}) → Result (Unit {0})
check_section keys key check = if has_section key keys then check else ok tt

-- `ConfigProfile.validate`
unfoldable pub validate : List Section → ConfigProfile → Result (Unit {0})
validate keys p = do
  check_section keys sensitivity (checked (in_range 1 4) p.sensitivity)
  check_section keys detect_mode (checked (in_range 1 4) p.detect_mode)
  check_section keys zone_enable (checked (are_flags 7) p.zone_enable)
  check_section keys zone_thresholds (checked (are_u16_pairs 7) p.zone_thresholds)
  check_section keys subsensor_zones (checked are_zone_lists p.subsensor_zones)
  check_section keys subsensor_timing (checked (are_u16_pairs 3) p.subsensor_timing)
  check_section keys subsensor_enable (checked (are_flags 3) p.subsensor_enable)

abbrev pub present : {A : Type 0} → Option A → Bool
present none = false
present (some a) = true

-- `getattr(self, k) is not None`
abbrev pub has_value : ConfigProfile → Section → Bool
has_value p sensitivity = present p.sensitivity
has_value p detect_mode = present p.detect_mode
has_value p zone_enable = present p.zone_enable
has_value p zone_thresholds = present p.zone_thresholds
has_value p subsensor_zones = present p.subsensor_zones
has_value p subsensor_timing = present p.subsensor_timing
has_value p subsensor_enable = present p.subsensor_enable

-- `[k for k in keys if test(k)]`
abbrev pub select : (Section → Bool) → List Section → List Section
select test [] = []
select test (k ∷ keys) = let rest = select test keys in if test k then k ∷ rest else rest

unfoldable pub sections_present : ConfigProfile → List Section
sections_present p = select (has_value p) profile_section_keys

-- `sorted(set(zones))`, the numbers put in one by one
unfoldable pub insert : ℤ → List ℤ → List ℤ
insert z [] = z ∷ []
insert z (x ∷ xs) =
    let rest = insert z xs in
    if int_lt z x then z ∷ x ∷ xs else if int_eq z x then x ∷ xs else x ∷ rest

unfoldable pub sorted_set : List ℤ → List ℤ
unfolding insert
sorted_set [] = []
sorted_set (z ∷ zones) = insert z (sorted_set zones)

abbrev pub zones_value : Option (List (List ℤ)) → Option (List (List ℤ))
zones_value none = none
zones_value (some v) = some (map sorted_set v)

-- `value(self, k) == value(other, k)`
unfoldable pub same_value : ConfigProfile → ConfigProfile → Section → Bool
same_value p q sensitivity = opt_eq int_eq p.sensitivity q.sensitivity
same_value p q detect_mode = opt_eq int_eq p.detect_mode q.detect_mode
same_value p q zone_enable = opt_eq (list_eq bool_eq) p.zone_enable q.zone_enable
same_value p q zone_thresholds =
    opt_eq (list_eq (pair_eq int_eq int_eq)) p.zone_thresholds q.zone_thresholds
same_value p q subsensor_zones =
    opt_eq (list_eq (list_eq int_eq)) (zones_value p.subsensor_zones)
      (zones_value q.subsensor_zones)
same_value p q subsensor_timing =
    opt_eq (list_eq (pair_eq int_eq int_eq)) p.subsensor_timing q.subsensor_timing
same_value p q subsensor_enable = opt_eq (list_eq bool_eq) p.subsensor_enable q.subsensor_enable

-- `ConfigProfile.diff_sections`
unfoldable pub diff_sections : ConfigProfile → ConfigProfile → List Section → List Section
diff_sections p q sections = select (λ k. not (same_value p q k)) sections
