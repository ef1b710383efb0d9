-- ===== src/Models/Config.antt =====
-- `MS605Config` (here Ms605Config), `decode_config`, `decode_zone_distances` and `zone_distances` of ms605/models.py. A
-- distance, a float of tenths of a metre in the code, is its number of tenths.
pub mod Laws
pub mod Reads
pub mod Tests
use ms605_ble.Prelude.{
  ℕ, List, [], ◌∷◌, Option, none, some, Bool, leb, not, ◌==◌, if◌then◌else◌, length, Result, ok,
  err, frame_error, or_raise, ◌>>=◌,
}
use ms605_ble.Bytes.{slice}
use ms605_ble.Protocol.Frame.{Attr, ParsedFrame, get}
use ms605_ble.Models.Zones.{
  ZoneThreshold, SubSensorTiming, decode_zone_thresholds, decode_presence_absence_times,
}
use ms605_ble.Models.Segments.{SubSensorZoneMap, decode_segment_map, flags_from}

pub record Ms605Config : Type 0 where
  pub sub_sensor_enable : ℕ
  pub segment_map : List SubSensorZoneMap
  pub presence_absence_times : List SubSensorTiming
  pub zone_enable : ℕ
  pub zone_thresholds : List ZoneThreshold
  pub detect_mode : ℕ
  pub zone_distances_m : List ℕ
  pub sensitivity : ℕ
  pub raw_attributes : List Attr

-- `MS605Config.zones_enabled`
unfoldable pub zones_enabled : Ms605Config → List Bool
zones_enabled cfg = flags_from 7 0 cfg.zone_enable

unfoldable pub require : ParsedFrame → ℕ → Result (List ℕ)
require response tag = or_raise (get response.attributes tag) frame_error

-- `if not value: raise FrameError` and `value[0]`
abbrev pub first_byte : List ℕ → Result ℕ
first_byte [] = err frame_error
first_byte (b ∷ value) = ok b

unfoldable pub require_byte : ParsedFrame → ℕ → Result ℕ
unfolding require
require_byte response tag = do value ← require response tag; first_byte value

-- One tenth of a metre each.
abbrev pub decode_zone_distances : List ℕ → List ℕ
decode_zone_distances value = value

unfoldable pub decode_config : ParsedFrame → Result Ms605Config
unfolding require require_byte
decode_config response = do
  sub_sensor_enable ← require_byte response 41
  segments ← require response 48
  segment_map ← decode_segment_map segments
  times ← require response 49
  presence_absence_times ← decode_presence_absence_times times
  zone_enable ← require_byte response 50
  thresholds ← require response 51
  zone_thresholds ← decode_zone_thresholds thresholds
  detect_mode ← require_byte response 52
  distances ← require response 53
  sensitivity ← require_byte response 61
  ok (record {
    sub_sensor_enable = sub_sensor_enable;
    segment_map = segment_map;
    presence_absence_times = presence_absence_times;
    zone_enable = zone_enable;
    zone_thresholds = zone_thresholds;
    detect_mode = detect_mode;
    zone_distances_m = decode_zone_distances distances;
    sensitivity = sensitivity;
    raw_attributes = response.attributes;
  })

abbrev pub fallback_distances_m : List ℕ
fallback_distances_m = 8 ∷ 16 ∷ 24 ∷ 32 ∷ 40 ∷ 50 ∷ 60 ∷ []

-- `tuple(cfg.zone_distances_m or ())`
abbrev pub or_empty : Option (List ℕ) → List ℕ
or_empty none = []
or_empty (some d) = d

unfoldable pub zone_distances : Option (List ℕ) → List ℕ
zone_distances reported =
    let d = or_empty reported in
    let d1 = if leb 8 (length d) then slice 1 8 d else d in
    if not (length d1 == 7) then fallback_distances_m else d1
