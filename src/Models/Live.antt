-- ===== src/Models/Live.antt =====
-- Sub-sensor status (tag 64) and live radar output (tag 55) of ms605/models.py. The keywords
-- `sub_sensor_count` and `zone_count` are their defaults, 3 and 7.
pub mod Laws
pub mod Tests
use ms605_ble.Prelude.{
  ℕ, zero, suc, ◌+◌, ◌-◌, ◌*◌, ℤ, List, [], ◌∷◌, Bool, not, ◌==◌, ltb, length, Result, ok,
  frame_error, raise_if, ◌>>=◌, ◌>>◌,
}
use ms605_ble.Bits.Flags.{has_bit}
use ms605_ble.Bytes.{get_item}
use ms605_ble.Models.Fields.{read_u32, read_i16}
use ms605_ble.Models.Segments.{flags_from}

pub record SubSensorStatus : Type 0 where
  pub index : ℕ
  pub has_presence : Bool
  pub presence_timestamp : ℕ
  pub absence_timestamp : ℕ

-- `for i in range(i, i + rounds): stride = i * 4; ...`
unfoldable pub statuses_from : ℕ → ℕ → ℕ → List ℕ → Result (List SubSensorStatus)
statuses_from zero i presence_mask value = ok []
statuses_from (suc rounds) i presence_mask value = do
  let stride = i * 4
  presence_ts ← read_u32 value (stride + 1)
  absence_ts ← read_u32 value (stride + 17)
  rest ← statuses_from rounds (i + 1) presence_mask value
  ok (
      record {
        index = i;
        has_presence = has_bit presence_mask i;
        presence_timestamp = presence_ts;
        absence_timestamp = absence_ts;
      }
      ∷ rest)

unfoldable pub decode_sub_sensor_status : List ℕ → Result (List SubSensorStatus)
decode_sub_sensor_status value = do
  let min_len = (3 - 1) * 4 + 21
  raise_if (ltb (length value) min_len) frame_error
  presence_mask ← get_item value 0
  statuses_from 3 0 presence_mask value

pub record RadarZoneLive : Type 0 where
  pub index : ℕ
  pub current_trigger : ℤ
  pub current_maintain : ℤ
  pub enabled : Bool
  pub trigger_active : Bool
  pub trigger_threshold : ℤ
  pub maintain_threshold : ℤ

pub record RadarOutputSnapshot : Type 0 where
  pub sub_sensor_presence : List Bool
  pub zones : List RadarZoneLive

-- `bool(n)`
abbrev pub nonzero : ℕ → Bool
nonzero n = not (n == 0)

-- The body of the loop, for the zone `i`.
unfoldable pub radar_zone : ℕ → List ℕ → Result RadarZoneLive
radar_zone i value = do
  let off = 1 + i * 10
  cur_trig ← read_i16 value off
  cur_maint ← read_i16 value (off + 2)
  trig_thresh ← read_i16 value (off + 6)
  maint_thresh ← read_i16 value (off + 6 + 2)
  enabled ← get_item value (off + 4)
  trigger_active ← get_item value (off + 5)
  ok (record {
    index = i;
    current_trigger = cur_trig;
    current_maintain = cur_maint;
    enabled = nonzero enabled;
    trigger_active = nonzero trigger_active;
    trigger_threshold = trig_thresh;
    maintain_threshold = maint_thresh;
  })

-- `for i in range(i, i + rounds): ...`
unfoldable pub radar_zones : ℕ → ℕ → List ℕ → Result (List RadarZoneLive)
unfolding radar_zone
radar_zones zero i value = ok []
radar_zones (suc rounds) i value = do
  zone ← radar_zone i value
  rest ← radar_zones rounds (i + 1) value
  ok (zone ∷ rest)

unfoldable pub decode_radar_output : List ℕ → Result RadarOutputSnapshot
unfolding radar_zones
decode_radar_output value = do
  let min_len = 1 + 7 * 10
  raise_if (ltb (length value) min_len) frame_error
  presence_mask ← get_item value 0
  zones ← radar_zones 7 0 value
  ok (record { sub_sensor_presence = flags_from 3 0 presence_mask; zones = zones })
