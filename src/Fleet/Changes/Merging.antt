-- ===== src/Fleet/Changes/Merging.antt =====
-- What `Draft.validate` says of the changes that `changes_for` merges.
use ms605_ble.Prelude.{
  List, [], ◌∷◌, Option, none, some, Bool, ◌==◌, length, ok, raise_if, profile_error, ◌≡◌, refl,
  subst, arith, >>=-eq-ok, Bool-cases, inl, inr, Option-cases,
}
use ms605_ble.Dicts.{Str, Dict, lookup, str_eq}
use ms605_ble.Profiles.{
  Section, sensitivity, detect_mode, zone_enable, subsensor_zones, subsensor_timing,
  subsensor_enable, profile_section_keys, in_range, are_u16_pairs, are_flags, are_zone_lists,
  checked, check_section,
}
use ms605_ble.Profiles.Checks.{IsChecked, validate-IsChecked, IsChecked-validate}
use ms605_ble.Fleet.Changes.{
  ThresholdChange, SensorChanges, plain_profile, check_change, validate_changes, replaced,
  overridden, Draft, changes_for, validate_each, validate_draft,
}

record IsGood (c : SensorChanges) : Type 0 where
  change : check_change c.zone_thresholds ≡ ok tt
  plain : IsChecked profile_section_keys (plain_profile c none)

validate_changes-IsGood : (c : SensorChanges) → validate_changes c ≡ ok tt → IsGood c
unfolding validate_changes
validate_changes-IsGood c h =
    let (u, first, second) = >>=-eq-ok (check_change c.zone_thresholds) _ h in
    record {
      change = first;
      plain = validate-IsChecked profile_section_keys (plain_profile c none) second;
    }

IsGood-validate_changes : (c : SensorChanges) → IsGood c → validate_changes c ≡ ok tt
unfolding validate_changes
IsGood-validate_changes c good =
    rw (good.change) (IsChecked-validate profile_section_keys (plain_profile c none) good.plain)

replaced-checked :
    {A : Type 0} (key : Section) (keys : List Section) (check : A → Bool) (value kept : Option A)
    → check_section keys key (checked check value) ≡ ok tt
    → check_section keys key (checked check kept) ≡ ok tt
    → check_section keys key (checked check (replaced value kept)) ≡ ok tt
replaced-checked key keys check none kept p q = q
replaced-checked key keys check (some value) kept p q = p

replaced-change :
    (value kept : Option ThresholdChange)
    → check_change value ≡ ok tt
    → check_change kept ≡ ok tt
    → check_change (replaced value kept) ≡ ok tt
replaced-change none kept p q = q
replaced-change (some value) kept p q = p

overridden-IsGood : (o c : SensorChanges) → IsGood o → IsGood c → IsGood (overridden c (some o))
overridden-IsGood o c p q = record {
  change = replaced-change o.zone_thresholds c.zone_thresholds p.change q.change;
  plain = record {
    sensitivity_checked =
        replaced-checked sensitivity profile_section_keys (in_range 1 4) o.sensitivity c.sensitivity
          p.plain.sensitivity_checked q.plain.sensitivity_checked;
    detect_mode_checked =
        replaced-checked detect_mode profile_section_keys (in_range 1 4) o.detect_mode c.detect_mode
          p.plain.detect_mode_checked q.plain.detect_mode_checked;
    zone_enable_checked =
        replaced-checked zone_enable profile_section_keys (are_flags 7) o.zone_enable c.zone_enable
          p.plain.zone_enable_checked q.plain.zone_enable_checked;
    zone_thresholds_checked = refl;
    subsensor_zones_checked =
        replaced-checked subsensor_zones profile_section_keys are_zone_lists o.subsensor_zones
          c.subsensor_zones p.plain.subsensor_zones_checked q.plain.subsensor_zones_checked;
    subsensor_timing_checked =
        replaced-checked subsensor_timing profile_section_keys (are_u16_pairs 3) o.subsensor_timing
          c.subsensor_timing p.plain.subsensor_timing_checked q.plain.subsensor_timing_checked;
    subsensor_enable_checked =
        replaced-checked subsensor_enable profile_section_keys (are_flags 3) o.subsensor_enable
          c.subsensor_enable p.plain.subsensor_enable_checked q.plain.subsensor_enable_checked;
  };
}

each-IsGood :
    (d : Dict SensorChanges) (device_id : Str) (o : SensorChanges)
    → validate_each d ≡ ok tt
    → lookup d device_id ≡ some o
    → IsGood o
unfolding lookup
each-IsGood [] device_id o h found = absurd (cc found)
each-IsGood ((key, c) ∷ d) device_id o h found =
    let (u, first, rest) = >>=-eq-ok (validate_changes c) _ h in
    elim (Bool-cases (str_eq key device_id)) [
      | inl e ↦
          let same : c ≡ o = ground (arith, e, found) in
          subst IsGood same (validate_changes-IsGood c first)
      | inr e ↦ each-IsGood d device_id o rest (ground (arith, e, found))
    ]

-- Where `Draft.validate` accepts a draft, `validate` accepts the changes that `changes_for` merges
-- for any device.
pub changes_for-valid :
    (draft : Draft) (device_id : Str)
    → validate_draft draft ≡ ok tt
    → validate_changes (changes_for draft device_id) ≡ ok tt
unfolding validate_draft changes_for
changes_for-valid draft device_id h =
    let (u1, named, h1) = >>=-eq-ok (raise_if (length draft.targets == 0) profile_error) _ h in
    let (u2, bulk, each) = >>=-eq-ok (validate_changes draft.bulk) _ h1 in
    let good = validate_changes-IsGood draft.bulk bulk in
    elim (Option-cases (lookup draft.per_sensor device_id)) [
      | inl missing ↦ rw missing bulk
      | inr (o, found) ↦ rw found (
          IsGood-validate_changes (overridden draft.bulk (some o)) (
            overridden-IsGood o draft.bulk (each-IsGood draft.per_sensor device_id o each found)
              good))
    ]
