-- ===== src/Fleet/Changes/Tests.antt =====
-- Changes of one profile and a draft for two sensors.
use ms605_ble.Prelude.{
  ℕ, List, [], ◌∷◌, none, some, true, false, replicate, ok, err, profile_error, ℤ, pos, negsuc,
  ◌+ℤ◌, ◌≡◌, refl,
}
use ms605_ble.Profiles.{sensitivity, zone_thresholds, profile_section_keys, ConfigProfile, validate}
use ms605_ble.Fleet.Changes.{
  SensorChanges, no_changes, resolve, validate_changes, new_pairs, check_threshold_change,
  ChangeSection, of_profile, dnd_section, from_profile, set_changes, Draft, changes_for,
  validate_draft,
}
use ms605_ble.Fleet.Changes.Restore.{restricted, resolve-from_profile}
use ms605_ble.Fleet.Changes.Merging.{changes_for-valid}

abbrev empty : ConfigProfile
empty = record {
  sensitivity = none;
  detect_mode = none;
  zone_enable = none;
  zone_thresholds = none;
  subsensor_zones = none;
  subsensor_timing = none;
  subsensor_enable = none;
}

abbrev thresholds : ℕ → List (ℤ × ℤ)
thresholds n = replicate 7 (pos n, pos 0)

abbrev current : ConfigProfile
current = record empty { zone_thresholds = some (thresholds 65000) }

abbrev snapshot : ConfigProfile
snapshot = record empty {
  sensitivity = some (pos 2);
  detect_mode = some (pos 1);
  zone_thresholds = some (thresholds 40);
}

abbrev sections : List ChangeSection
sections = of_profile zone_thresholds ∷ dnd_section ∷ of_profile sensitivity ∷ []

abbrev taken : SensorChanges
taken = record no_changes {
  sensitivity = some (pos 2);
  zone_thresholds = some (record {
    relative = false;
    trigger = replicate 7 (some (pos 40));
    maintain = replicate 7 (some (pos 0));
  });
  dnd = some true;
}

snapshot-valid : validate profile_section_keys snapshot ≡ ok tt
unfolding validate
snapshot-valid = refl

snapshot-taken : from_profile snapshot sections (some true) ≡ ok taken
unfolding from_profile set_changes
snapshot-taken = refl

resolve-from_profile_example : resolve taken current ≡ ok (restricted sections snapshot)
resolve-from_profile_example =
    resolve-from_profile snapshot current sections (some true) taken (thresholds 65000)
      snapshot-valid snapshot-taken refl refl

-- Relative changes add, and a sum out of range is refused.
abbrev shifted : ℤ → SensorChanges
shifted by = record no_changes {
  zone_thresholds =
      some
        (record { relative = true; trigger = replicate 7 (some by); maintain = replicate 7 none });
}

shifted-down :
    resolve (shifted (negsuc 999)) current
    ≡ ok (record empty { zone_thresholds = some (thresholds 64000) })
unfolding resolve validate_changes check_threshold_change validate new_pairs ◌+ℤ◌
shifted-down = refl

shifted-out : resolve (shifted (pos 536)) current ≡ err profile_error
unfolding resolve validate_changes check_threshold_change validate new_pairs ◌+ℤ◌
shifted-out = refl

abbrev draft : Draft
draft = record {
  targets = (1 ∷ []) ∷ (2 ∷ []) ∷ [];
  bulk = taken;
  per_sensor = (2 ∷ [], shifted (pos 5)) ∷ [];
}

draft-valid : validate_draft draft ≡ ok tt
unfolding validate_draft validate_changes check_threshold_change validate
draft-valid = refl

changes_for-valid_example : validate_changes (changes_for draft (2 ∷ [])) ≡ ok tt
changes_for-valid_example = changes_for-valid draft (2 ∷ []) draft-valid
