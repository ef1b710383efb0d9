-- ===== src/Driver/Tests.antt =====
-- `apply_profile` on a device that is a list of attributes.
use ms605_ble.Prelude.{
  ℕ, List, [], ◌∷◌, ◌++◌, Option, none, some, Bool, true, false, not, ◌==◌, ==_refl, Result, ok,
  err, pos, ◌≡◌, refl, ap, subst, arith, replicate,
}
use ms605_ble.Protocol.Frame.{Attr, ParsedFrame, get}
use ms605_ble.Models.Config.{Ms605Config, decode_config}
use ms605_ble.Profiles.{
  Section, sensitivity, zone_enable, subsensor_zones, subsensor_timing, subsensor_enable,
  profile_section_keys, ConfigProfile, from_config, diff_sections, select, validate,
}
use ms605_ble.Models.Fields.{read_pairs, write_pairs}
use ms605_ble.Models.Zones.{
  encode_presence_absence_times, decode_presence_absence_times, decode_zone_thresholds,
}
use ms605_ble.Models.Segments.{encode_segment_map, decode_segment_map, encode_subsensor_enable}
use ms605_ble.Bytes.{bytes_eq}
use ms605_ble.Driver.{writes, set_section, zone_enable_value, apply_profile}
use ms605_ble.Driver.Applied.{IsStore, apply_profile-verifies}
use ms605_ble.Driver.Learning.{starts_learning, apply_profile-never_learns}

abbrev put : List Attr → List Attr → Result (Unit {0}) × List Attr
put attrs d = (ok tt, attrs ++ d)

newest : (t : ℕ) (v : List ℕ) (d : List Attr) → get ((t, v) ∷ d) t ≡ some v
unfolding get
newest t v d = ground (arith, ==_refl t)

others : (t s : ℕ) (v : List ℕ) (d : List Attr) → (t == s) ≡ false → get ((t, v) ∷ d) s ≡ get d s
unfolding get
others t s v d h = ground (arith, h)

put-IsStore : IsStore put get
put-IsStore = record {
  stored = λ t v d d' h. subst (λ l. get l t ≡ some v) (ap (λ r. r.1) h) (newest t v d);
  kept = λ t s v d d' h q. subst (λ l. get l s ≡ get d s) (ap (λ r. r.1) h) (others t s v d q);
}

abbrev device : List Attr
device =
    (41, 7 ∷ [])
    ∷ (48, 0 ∷ 0 ∷ 0 ∷ 0 ∷ [])
    ∷ (49, replicate 16 0)
    ∷ (50, 127 ∷ [])
    ∷ (51, replicate 28 0)
    ∷ (52, 1 ∷ [])
    ∷ (53, [])
    ∷ (61, 1 ∷ [])
    ∷ []

-- The zones of a sub-sensor out of order, and twice; and a detect mode that is not written.
abbrev profile : ConfigProfile
profile = record {
  sensitivity = some (pos 3);
  detect_mode = some (pos 4);
  zone_enable = some (true ∷ false ∷ true ∷ false ∷ true ∷ false ∷ true ∷ []);
  zone_thresholds = none;
  subsensor_zones = some ((pos 6 ∷ pos 0 ∷ pos 6 ∷ []) ∷ [] ∷ (pos 1 ∷ []) ∷ []);
  subsensor_timing = some ((pos 10, pos 300) ∷ (pos 0, pos 60) ∷ (pos 5, pos 65535) ∷ []);
  subsensor_enable = some (true ∷ true ∷ false ∷ []);
}

abbrev outcome : Result (List Section) × List Attr
outcome = apply_profile put profile profile_section_keys device

abbrev response : ParsedFrame
response = record {
  subdev_type = 0;
  trigger_src = 0;
  msg_id = 1;
  attributes = outcome.1;
  crc_ok = true;
  expected_crc = 0;
  actual_crc = 0;
  is_push = false;
}

abbrev applied_of : Result (List Section) → List Section
applied_of (ok applied) = applied
applied_of (err e) = []

abbrev no_config : Ms605Config
no_config = record {
  sub_sensor_enable = 0;
  segment_map = [];
  presence_absence_times = [];
  zone_enable = 0;
  zone_thresholds = [];
  detect_mode = 0;
  zone_distances_m = [];
  sensitivity = 0;
  raw_attributes = [];
}

abbrev config_of : Result Ms605Config → Ms605Config
config_of (ok cfg) = cfg
config_of (err e) = no_config

outcome-applied :
    applied_of (outcome.0)
    ≡ sensitivity ∷ zone_enable ∷ subsensor_zones ∷ subsensor_timing ∷ subsensor_enable ∷ []
unfolding apply_profile validate set_section zone_enable_value encode_segment_map
    encode_presence_absence_times write_pairs encode_subsensor_enable
outcome-applied = refl

outcome-ok : outcome ≡ (ok (applied_of (outcome.0)), outcome.1)
unfolding apply_profile validate set_section zone_enable_value encode_segment_map
    encode_presence_absence_times write_pairs encode_subsensor_enable
outcome-ok = refl

response-decoded : decode_config response ≡ ok (config_of (decode_config response))
unfolding apply_profile validate set_section zone_enable_value encode_segment_map
    encode_presence_absence_times write_pairs encode_subsensor_enable decode_config get
    decode_segment_map decode_presence_absence_times read_pairs decode_zone_thresholds
response-decoded = refl

apply_profile-verifies_example :
    (applied_of (outcome.0) ≡ select (writes profile profile_section_keys) profile_section_keys)
    × (diff_sections profile
          (from_config (config_of (decode_config response)))
          (applied_of (outcome.0))
        ≡ [])
apply_profile-verifies_example =
    apply_profile-verifies put get profile profile_section_keys (applied_of (outcome.0)) device
      (outcome.1) response (config_of (decode_config response)) put-IsStore outcome-ok (λ k. refl)
      response-decoded

-- The device's detect mode is not that of space learning.
abbrev not_learning : Option (List ℕ) → Bool
not_learning none = true
not_learning (some v) = not (bytes_eq v (4 ∷ []))

put-not_learning :
    (tag : ℕ) (value : List ℕ) (d : List Attr)
    → starts_learning tag value ≡ false
    → not_learning (get d 52) ≡ true
    → not_learning (get ((tag, value) ∷ d) 52) ≡ true
unfolding get
put-not_learning tag value d safe h = ground (arith, safe, h)

device-not_learning : not_learning (get device 52) ≡ true
unfolding get
device-not_learning = refl

apply_profile-never_learns_example : not_learning (get (outcome.1) 52) ≡ true
apply_profile-never_learns_example =
    apply_profile-never_learns put (λ d. not_learning (get d 52) ≡ true) profile
      profile_section_keys device put-not_learning device-not_learning
