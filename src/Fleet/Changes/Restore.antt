-- ===== src/Fleet/Changes/Restore.antt =====
-- Changes made of sections of a profile, as a clone or a rollback makes them, resolve to these
-- sections.
use ms605_ble.Prelude.{
  List, [], ◌∷◌, Option, none, some, Bool, true, false, length, map, ok, ◌>>=◌, ℤ, ◌≡◌, refl, sym,
  ap, ap₂, ◌∙◌, subst, arith, length-map,
}
use ms605_ble.Profiles.{
  Section, sensitivity, detect_mode, zone_enable, zone_thresholds, subsensor_zones,
  subsensor_timing, subsensor_enable, profile_section_keys, ConfigProfile, validate, in_range,
  all_of, is_u16_pair, are_u16_pairs, are_flags, are_zone_lists, checked, check_section,
}
use ms605_ble.Profiles.Checks.{IsChecked, validate-IsChecked, IsChecked-validate, checked-left_out}
use ms605_ble.Fleet.Changes.{
  SensorChanges, plain_profile, check_threshold_change, is_threshold, check_change,
  validate_changes, new_pairs, target_thresholds, resolve, ChangeSection, absolute_change,
  from_profile,
}
use ms605_ble.Fleet.Changes.Taken.{names, chosen, IsTaken, from_profile-IsTaken}

-- A profile with these of its sections only.
abbrev pub restricted : List ChangeSection → ConfigProfile → ConfigProfile
restricted sections p = record {
  sensitivity = chosen (names sensitivity sections) p.sensitivity none;
  detect_mode = chosen (names detect_mode sections) p.detect_mode none;
  zone_enable = chosen (names zone_enable sections) p.zone_enable none;
  zone_thresholds = chosen (names zone_thresholds sections) p.zone_thresholds none;
  subsensor_zones = chosen (names subsensor_zones sections) p.subsensor_zones none;
  subsensor_timing = chosen (names subsensor_timing sections) p.subsensor_timing none;
  subsensor_enable = chosen (names subsensor_enable sections) p.subsensor_enable none;
}

checked-chosen :
    {A : Type 0} (key : Section) (keys : List Section) (check : A → Bool) (b : Bool) (o : Option A)
    → check_section keys key (checked check o) ≡ ok tt
    → check_section keys key (checked check (chosen b o none)) ≡ ok tt
checked-chosen key keys check true o h = h
checked-chosen key keys check false o h = checked-left_out key keys check

restricted-IsChecked :
    (keys : List Section) (sections : List ChangeSection) (p : ConfigProfile)
    → IsChecked keys p
    → IsChecked keys (restricted sections p)
restricted-IsChecked keys sections p r = record {
  sensitivity_checked =
      checked-chosen sensitivity keys (in_range 1 4) (names sensitivity sections) p.sensitivity
        r.sensitivity_checked;
  detect_mode_checked =
      checked-chosen detect_mode keys (in_range 1 4) (names detect_mode sections) p.detect_mode
        r.detect_mode_checked;
  zone_enable_checked =
      checked-chosen zone_enable keys (are_flags 7) (names zone_enable sections) p.zone_enable
        r.zone_enable_checked;
  zone_thresholds_checked =
      checked-chosen zone_thresholds keys (are_u16_pairs 7) (names zone_thresholds sections)
        p.zone_thresholds r.zone_thresholds_checked;
  subsensor_zones_checked =
      checked-chosen subsensor_zones keys are_zone_lists (names subsensor_zones sections)
        p.subsensor_zones r.subsensor_zones_checked;
  subsensor_timing_checked =
      checked-chosen subsensor_timing keys (are_u16_pairs 3) (names subsensor_timing sections)
        p.subsensor_timing r.subsensor_timing_checked;
  subsensor_enable_checked =
      checked-chosen subsensor_enable keys (are_flags 3) (names subsensor_enable sections)
        p.subsensor_enable r.subsensor_enable_checked;
}

-- Absolute values that are in range replace the current ones.
new_pairs-absolute :
    (current pairs : List (ℤ × ℤ))
    → length current ≡ length pairs
    → all_of is_u16_pair pairs ≡ true
    → new_pairs false current (map (λ p. some (p.0)) pairs) (map (λ p. some (p.1)) pairs) ≡ ok pairs
unfolding new_pairs
new_pairs-absolute [] [] len good = refl
new_pairs-absolute [] (p ∷ pairs) len good = absurd (omega (arith, len))
new_pairs-absolute ((a, b) ∷ current) [] len good = absurd (omega (arith, len))
new_pairs-absolute ((a, b) ∷ current) ((x, y) ∷ pairs) len good =
    ground
      (arith, new_pairs-absolute current pairs (omega (arith, len)) (ground (arith, good)), good)

values-checked :
    (get : ℤ × ℤ → ℤ) (pairs : List (ℤ × ℤ))
    → ((p : ℤ × ℤ) → is_u16_pair p ≡ true → in_range 0 0xFFFF (get p) ≡ true)
    → all_of is_u16_pair pairs ≡ true
    → all_of (is_threshold false) (map (λ p. some (get p)) pairs) ≡ true
values-checked get [] inside good = refl
values-checked get (p ∷ pairs) inside good =
    ground (
      arith,
      inside p (ground (arith, good)),
      values-checked get pairs inside (ground (arith, good)),
    )

change-checked :
    (pairs : List (ℤ × ℤ))
    → are_u16_pairs 7 pairs ≡ true
    → check_change (absolute_change (some pairs)) ≡ ok tt
unfolding check_threshold_change
change-checked pairs good = ground (
  arith,
  good,
  length-map (λ (p : ℤ × ℤ). some (p.0)) pairs,
  length-map (λ (p : ℤ × ℤ). some (p.1)) pairs,
  values-checked (λ p. p.0) pairs (λ p h. ground (arith, h)) (ground (arith, good)),
  values-checked (λ p. p.1) pairs (λ p h. ground (arith, h)) (ground (arith, good)),
)

thresholds-target :
    (b : Bool) (o : Option (List (ℤ × ℤ))) (current : List (ℤ × ℤ))
    → length current ≡ 7
    → checked (are_u16_pairs 7) o ≡ ok tt
    → (check_change (chosen b (absolute_change o) none) ≡ ok tt)
      × (target_thresholds (chosen b (absolute_change o) none) (some current)
          ≡ ok (chosen b o none))
thresholds-target false o current len h = (refl, refl)
thresholds-target true none current len h = (refl, refl)
thresholds-target true (some pairs) current len h =
    let good : are_u16_pairs 7 pairs ≡ true = ground (arith, h) in
    (
      change-checked pairs good,
      ap (λ r. r >>= λ pairs. ok (some pairs))
          (new_pairs-absolute current pairs (ground (arith, len, good)) (ground (arith, good))),
    )

plain_profile-restricted :
    (p : ConfigProfile) (sections : List ChangeSection) (d : SensorChanges)
    → IsTaken p sections d
    → plain_profile d (chosen (names zone_thresholds sections) p.zone_thresholds none)
      ≡ restricted sections p
plain_profile-restricted p sections d r =
    rw
      (
        r.sensitivity_taken, r.detect_mode_taken, r.zone_enable_taken, r.subsensor_zones_taken,
        r.subsensor_timing_taken, r.subsensor_enable_taken,
      )
      refl

-- Without thresholds, which `validate` of the changes checks apart, it is as good.
plain-IsChecked :
    (p : ConfigProfile) (sections : List ChangeSection) (d : SensorChanges)
    → plain_profile d (chosen (names zone_thresholds sections) p.zone_thresholds none)
      ≡ restricted sections p
    → IsChecked profile_section_keys (restricted sections p)
    → IsChecked profile_section_keys (plain_profile d none)
plain-IsChecked p sections d same r =
    let whole = subst (IsChecked profile_section_keys) (sym same) r in
    record {
      sensitivity_checked = whole.sensitivity_checked;
      detect_mode_checked = whole.detect_mode_checked;
      zone_enable_checked = whole.zone_enable_checked;
      zone_thresholds_checked = refl;
      subsensor_zones_checked = whole.subsensor_zones_checked;
      subsensor_timing_checked = whole.subsensor_timing_checked;
      subsensor_enable_checked = whole.subsensor_enable_checked;
    }

-- Changes made by `from_profile` of sections of a profile that `validate` accepts, resolved for a
-- sensor whose seven thresholds were read, are a profile of exactly these sections, with the values
-- that the profile has.
pub resolve-from_profile :
    (p current : ConfigProfile) (sections : List ChangeSection) (dnd : Option Bool)
    (d : SensorChanges) (thresholds : List (ℤ × ℤ))
    → validate profile_section_keys p ≡ ok tt
    → from_profile p sections dnd ≡ ok d
    → current.zone_thresholds ≡ some thresholds
    → length thresholds ≡ 7
    → resolve d current ≡ ok (restricted sections p)
unfolding resolve validate_changes
resolve-from_profile p current sections dnd d thresholds valid made known len =
    let r = from_profile-IsTaken p sections dnd d made in
    let all = validate-IsChecked profile_section_keys p valid in
    let good = restricted-IsChecked profile_section_keys sections p all in
    let same = plain_profile-restricted p sections d r in
    let (checked, made) =
      thresholds-target (names zone_thresholds sections) p.zone_thresholds thresholds len
        all.zone_thresholds_checked in
    let passed : check_change d.zone_thresholds ≡ ok tt =
      ap check_change r.zone_thresholds_taken ∙ checked in
    let target : target_thresholds d.zone_thresholds current.zone_thresholds
        ≡ ok (chosen (names zone_thresholds sections) p.zone_thresholds none) =
      ap₂ target_thresholds r.zone_thresholds_taken known ∙ made in
    rw
      (
        passed,
        IsChecked-validate profile_section_keys (plain_profile d none)
            (plain-IsChecked p sections d same good),
        target,
        same,
        IsChecked-validate profile_section_keys (restricted sections p) good,
      )
      refl
