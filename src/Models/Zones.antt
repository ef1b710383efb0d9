-- ===== src/Models/Zones.antt =====
-- Zone thresholds (tag 51) and the presence and absence times of the sub-sensors (tag 49) of
-- ms605/models.py. The number of sub-sensors, a keyword that no caller changes, is its default 3.
pub mod Laws
use ms605_ble.Prelude.{
  ℕ, ◌+◌, ◌*◌, ℤ, List, [], ◌∷◌, ◌++◌, map, not, ◌==◌, ltb, length, Result, ok, frame_error,
  value_error, raise_if, ◌>>=◌, ◌>>◌,
}
use ms605_ble.Models.Fields.{read_pairs, write_pairs}

pub record ZoneThreshold : Type 0 where
  pub trigger : ℕ
  pub maintain : ℕ

abbrev pub zone_threshold : ℕ × ℕ → ZoneThreshold
zone_threshold (t, m) = record { trigger = t; maintain = m }

unfoldable pub decode_zone_thresholds : List ℕ → Result (List ZoneThreshold)
decode_zone_thresholds value = do
  raise_if (not (length value == 28)) frame_error
  pairs ← read_pairs 7 0 value
  ok (map zone_threshold pairs)

unfoldable pub encode_zone_thresholds : List (ℤ × ℤ) → Result (List ℕ)
encode_zone_thresholds pairs = do raise_if (not (length pairs == 7)) value_error; write_pairs pairs

pub record SubSensorTiming : Type 0 where
  pub index : ℕ
  pub presence_seconds : ℕ
  pub absence_seconds : ℕ

-- `for i in range(...): out.append(SubSensorTiming(index=i, ...))`
abbrev pub timings_from : ℕ → List (ℕ × ℕ) → List SubSensorTiming
timings_from i [] = []
timings_from i ((p, a) ∷ pairs) =
    record { index = i; presence_seconds = p; absence_seconds = a } ∷ timings_from (i + 1) pairs

abbrev pub sub_sensor_count : ℕ
sub_sensor_count = 3

unfoldable pub decode_presence_absence_times : List ℕ → Result (List SubSensorTiming)
decode_presence_absence_times value = do
  raise_if (ltb (length value) (sub_sensor_count * 4)) frame_error
  pairs ← read_pairs sub_sensor_count 0 value
  ok (timings_from 0 pairs)

unfoldable pub encode_presence_absence_times : List (ℤ × ℤ) → Result (List ℕ)
encode_presence_absence_times timings = do
  raise_if (not (length timings == 3)) value_error
  out ← write_pairs timings
  ok (out ++ (0 ∷ 0 ∷ 0 ∷ 0 ∷ []))
