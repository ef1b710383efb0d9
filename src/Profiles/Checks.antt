-- ===== src/Profiles/Checks.antt =====
-- The seven checks of `validate`.
use ms605_ble.Prelude.{List, none, Bool, true, Result, ok, ◌≡◌, >>=-eq-ok, arith}
use ms605_ble.Profiles.{
  Section, sensitivity, detect_mode, zone_enable, zone_thresholds, subsensor_zones,
  subsensor_timing, subsensor_enable, ConfigProfile, in_range, checked, are_flags, are_u16_pairs,
  are_zone_lists, has_section, check_section, validate,
}

pub record IsChecked (keys : List Section) (p : ConfigProfile) : Type 0 where
  pub sensitivity_checked :
      check_section keys sensitivity (checked (in_range 1 4) p.sensitivity) ≡ ok tt
  pub detect_mode_checked :
      check_section keys detect_mode (checked (in_range 1 4) p.detect_mode) ≡ ok tt
  pub zone_enable_checked :
      check_section keys zone_enable (checked (are_flags 7) p.zone_enable) ≡ ok tt
  pub zone_thresholds_checked :
      check_section keys zone_thresholds (checked (are_u16_pairs 7) p.zone_thresholds) ≡ ok tt
  pub subsensor_zones_checked :
      check_section keys subsensor_zones (checked are_zone_lists p.subsensor_zones) ≡ ok tt
  pub subsensor_timing_checked :
      check_section keys subsensor_timing (checked (are_u16_pairs 3) p.subsensor_timing) ≡ ok tt
  pub subsensor_enable_checked :
      check_section keys subsensor_enable (checked (are_flags 3) p.subsensor_enable) ≡ ok tt

pub validate-IsChecked :
    (keys : List Section) (p : ConfigProfile) → validate keys p ≡ ok tt → IsChecked keys p
unfolding validate
validate-IsChecked keys p h =
    let (u1, e1, h1) =
      >>=-eq-ok (check_section keys sensitivity (checked (in_range 1 4) p.sensitivity)) _ h in
    let (u2, e2, h2) =
      >>=-eq-ok (check_section keys detect_mode (checked (in_range 1 4) p.detect_mode)) _ h1 in
    let (u3, e3, h3) =
      >>=-eq-ok (check_section keys zone_enable (checked (are_flags 7) p.zone_enable)) _ h2 in
    let (u4, e4, h4) =
      >>=-eq-ok (check_section keys zone_thresholds (checked (are_u16_pairs 7) p.zone_thresholds)) _
        h3 in
    let (u5, e5, h5) =
      >>=-eq-ok (check_section keys subsensor_zones (checked are_zone_lists p.subsensor_zones)) _
        h4 in
    let (u6, e6, h6) =
      >>=-eq-ok (check_section keys subsensor_timing (checked (are_u16_pairs 3) p.subsensor_timing))
        _ h5 in
    record {
      sensitivity_checked = e1;
      detect_mode_checked = e2;
      zone_enable_checked = e3;
      zone_thresholds_checked = e4;
      subsensor_zones_checked = e5;
      subsensor_timing_checked = e6;
      subsensor_enable_checked = h6;
    }

pub IsChecked-validate :
    (keys : List Section) (p : ConfigProfile) → IsChecked keys p → validate keys p ≡ ok tt
unfolding validate
IsChecked-validate keys p r =
    rw
      (
        r.sensitivity_checked, r.detect_mode_checked, r.zone_enable_checked,
        r.zone_thresholds_checked, r.subsensor_zones_checked, r.subsensor_timing_checked,
      )
      r.subsensor_enable_checked

-- A check of a section that is asked for was made.
pub checked-passed :
    (key : Section) (keys : List Section) (check : Result (Unit {0}))
    → has_section key keys ≡ true
    → check_section keys key check ≡ ok tt
    → check ≡ ok tt
checked-passed key keys check named h = ground (arith, h, named)

-- A check passes too where the section is left out.
pub checked-left_out :
    {A : Type 0} (key : Section) (keys : List Section) (check : A → Bool)
    → check_section keys key (checked check none) ≡ ok tt
checked-left_out key keys check = ground arith
