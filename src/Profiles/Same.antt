-- ===== src/Profiles/Same.antt =====
-- What `diff_sections` says of two profiles where it finds no section that differs.
use ms605_ble.Prelude.{List, [], ◌∷◌, Bool, true, false, not, if◌then◌else◌, All, ◌≡◌, refl}
use ms605_ble.Equality.{list_Eq, pair_Eq, bool_Eq, int_Eq, opt_sound}
use ms605_ble.Profiles.{
  Section, sensitivity, detect_mode, zone_enable, zone_thresholds, subsensor_zones,
  subsensor_timing, subsensor_enable, ConfigProfile, zones_value, same_value, select, diff_sections,
}

-- Two profiles have the same value for a section; zones are sets, whose order and repeats do not
-- count.
abbrev pub IsSame : ConfigProfile → ConfigProfile → Section → Type 0
IsSame p q sensitivity = p.sensitivity ≡ q.sensitivity
IsSame p q detect_mode = p.detect_mode ≡ q.detect_mode
IsSame p q zone_enable = p.zone_enable ≡ q.zone_enable
IsSame p q zone_thresholds = p.zone_thresholds ≡ q.zone_thresholds
IsSame p q subsensor_zones = zones_value p.subsensor_zones ≡ zones_value q.subsensor_zones
IsSame p q subsensor_timing = p.subsensor_timing ≡ q.subsensor_timing
IsSame p q subsensor_enable = p.subsensor_enable ≡ q.subsensor_enable

same_value-IsSame : (p q : ConfigProfile) (k : Section) → same_value p q k ≡ true → IsSame p q k
unfolding same_value
same_value-IsSame p q sensitivity h = opt_sound int_Eq _ _ h
same_value-IsSame p q detect_mode h = opt_sound int_Eq _ _ h
same_value-IsSame p q zone_enable h = opt_sound (list_Eq bool_Eq) _ _ h
same_value-IsSame p q zone_thresholds h = opt_sound (list_Eq (pair_Eq int_Eq int_Eq)) _ _ h
same_value-IsSame p q subsensor_zones h = opt_sound (list_Eq (list_Eq int_Eq)) _ _ h
same_value-IsSame p q subsensor_timing h = opt_sound (list_Eq (pair_Eq int_Eq int_Eq)) _ _ h
same_value-IsSame p q subsensor_enable h = opt_sound (list_Eq bool_Eq) _ _ h

kept_or_dropped :
    (same : Bool) (k : Section) (rest : List Section)
    → (if not same then k ∷ rest else rest) ≡ []
    → (same ≡ true) × (rest ≡ [])
kept_or_dropped true k rest h = (refl, h)
kept_or_dropped false k rest h = absurd (cc h)

pub diff_sections-IsSame :
    (p q : ConfigProfile) (sections : List Section)
    → diff_sections p q sections ≡ []
    → All (λ k. IsSame p q k) sections
unfolding diff_sections
diff_sections-IsSame p q [] h = tt
diff_sections-IsSame p q (k ∷ sections) h =
    let (same, rest) =
      kept_or_dropped (same_value p q k) k (select (λ j. not (same_value p q j)) sections) h in
    (same_value-IsSame p q k same, diff_sections-IsSame p q sections rest)
