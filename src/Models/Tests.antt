-- ===== src/Models/Tests.antt =====
-- The codecs of ms605/models.py at concrete payloads, and their theorems there.
use ms605_ble.Prelude.{
  ℕ, ◌<◌, ℤ, pos, List, [], ◌∷◌, map, length, true, false, ok, err, ◌≡◌, refl, arith, value_error,
  All,
}
use ms605_ble.Bytes.{AreBytes, pack_u16}
use ms605_ble.Models.Fields.{read_u16, read_pairs, check_u16, write_pairs}
use ms605_ble.Models.Zones.{
  ZoneThreshold, SubSensorTiming, decode_zone_thresholds, encode_zone_thresholds,
  decode_presence_absence_times, encode_presence_absence_times,
}
use ms605_ble.Models.Zones.Laws.{
  threshold_arg, timing_arg, decode-encode_zone_thresholds, encode-decode_zone_thresholds,
  decode-encode_presence_absence_times,
}
use ms605_ble.Models.Segments.{
  SubSensorZoneMap, encode_segment_map, decode_segment_map, encode_subsensor_enable, flags_from,
}
use ms605_ble.Models.Segments.Laws.{decode-encode_segment_map, flags_from-encode_subsensor_enable}

abbrev seven_pairs : List (ℤ × ℤ)
seven_pairs =
    (pos 300, pos 200)
    ∷ (pos 1, pos 2)
    ∷ (pos 3, pos 4)
    ∷ (pos 5, pos 6)
    ∷ (pos 7, pos 8)
    ∷ (pos 9, pos 10)
    ∷ (pos 0, pos 65535)
    ∷ []

abbrev seven_bytes : List ℕ
seven_bytes =
    1 ∷ 44 ∷ 0 ∷ 200 ∷ 0 ∷ 1 ∷ 0 ∷ 2 ∷ 0 ∷ 3 ∷ 0 ∷ 4 ∷ 0 ∷ 5 ∷ 0 ∷ 6 ∷ 0 ∷ 7 ∷ 0 ∷ 8 ∷ 0 ∷ 9 ∷ 0
    ∷ 10 ∷ 0 ∷ 0 ∷ 255 ∷ 255 ∷ []

seven_written : encode_zone_thresholds seven_pairs ≡ ok seven_bytes
unfolding encode_zone_thresholds write_pairs check_u16 pack_u16
seven_written = refl

abbrev seven_zones : List ZoneThreshold
seven_zones =
    record { trigger = 300; maintain = 200 }
    ∷ record { trigger = 1; maintain = 2 }
    ∷ record { trigger = 3; maintain = 4 }
    ∷ record { trigger = 5; maintain = 6 }
    ∷ record { trigger = 7; maintain = 8 }
    ∷ record { trigger = 9; maintain = 10 }
    ∷ record { trigger = 0; maintain = 65535 }
    ∷ []

seven_read : decode_zone_thresholds seven_bytes ≡ ok seven_zones
unfolding decode_zone_thresholds read_pairs read_u16
seven_read = refl

-- One pair too many, and one value too large.
too_large : encode_zone_thresholds ((pos 65536, pos 0) ∷ seven_pairs) ≡ err value_error
unfolding encode_zone_thresholds write_pairs check_u16 pack_u16
too_large = refl

decode-encode_zone_thresholds_example :
    (zones : List ZoneThreshold) × (decode_zone_thresholds seven_bytes ≡ ok zones)
    × (map threshold_arg zones ≡ seven_pairs)
decode-encode_zone_thresholds_example =
    decode-encode_zone_thresholds seven_pairs seven_bytes seven_written

seven_bytes-AreBytes : AreBytes seven_bytes
seven_bytes-AreBytes = ground arith

encode-decode_zone_thresholds_example :
    encode_zone_thresholds (map threshold_arg seven_zones) ≡ ok seven_bytes
encode-decode_zone_thresholds_example =
    encode-decode_zone_thresholds seven_bytes seven_zones seven_bytes-AreBytes seven_read

abbrev three_timings : List (ℤ × ℤ)
three_timings = (pos 10, pos 300) ∷ (pos 0, pos 5) ∷ (pos 1, pos 65535) ∷ []

abbrev timing_bytes : List ℕ
timing_bytes = 0 ∷ 10 ∷ 1 ∷ 44 ∷ 0 ∷ 0 ∷ 0 ∷ 5 ∷ 0 ∷ 1 ∷ 255 ∷ 255 ∷ 0 ∷ 0 ∷ 0 ∷ 0 ∷ []

timings_written : encode_presence_absence_times three_timings ≡ ok timing_bytes
unfolding encode_presence_absence_times write_pairs check_u16 pack_u16
timings_written = refl

decode-encode_presence_absence_times_example :
    (length timing_bytes ≡ 16)
    × (timings : List SubSensorTiming) × (decode_presence_absence_times timing_bytes ≡ ok timings)
    × (map timing_arg timings ≡ three_timings)
decode-encode_presence_absence_times_example =
    decode-encode_presence_absence_times three_timings timing_bytes timings_written

abbrev segment_bytes : List ℕ
segment_bytes = 17 ∷ 64 ∷ 0 ∷ 0 ∷ []

-- Zones in any order, repeated, and none at all.
abbrev three_zone_lists : List (List ℤ)
three_zone_lists = (pos 4 ∷ pos 0 ∷ pos 4 ∷ []) ∷ (pos 6 ∷ []) ∷ [] ∷ []

segments_written : encode_segment_map three_zone_lists ≡ ok segment_bytes
unfolding encode_segment_map
segments_written = refl

decode-encode_segment_map_example :
    (length segment_bytes ≡ 4)
    × All (λ b. b < 128) segment_bytes
    × (maps : List SubSensorZoneMap) × (decode_segment_map segment_bytes ≡ ok maps)
    × (map (λ m. m.zones) maps ≡ (0 ∷ 4 ∷ []) ∷ (6 ∷ []) ∷ [] ∷ [])
decode-encode_segment_map_example =
    decode-encode_segment_map three_zone_lists segment_bytes segments_written

flags_packed : encode_subsensor_enable (true ∷ false ∷ true ∷ []) ≡ ok 5
unfolding encode_subsensor_enable
flags_packed = refl

flags_from-encode_subsensor_enable_example :
    (5 < 256) × (flags_from 3 0 5 ≡ true ∷ false ∷ true ∷ [])
flags_from-encode_subsensor_enable_example =
    flags_from-encode_subsensor_enable (true ∷ false ∷ true ∷ []) 5 flags_packed
