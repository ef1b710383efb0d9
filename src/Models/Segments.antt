-- ===== src/Models/Segments.antt =====
-- Zone assignment masks (tag 48), the sub-sensor flags (tag 41) and the zone flags (tag 50) of
-- ms605/models.py. The keywords `sub_sensor_count` and `zone_count` are their defaults, 3 and 7.
pub mod Masks
pub mod Laws
use ms605_ble.Prelude.{
  ℕ, zero, suc, ◌+◌, ◌^◌, ℤ, pos, negsuc, List, [], ◌∷◌, ◌++◌, Bool, true, false, not, ◌==◌, ltb,
  leb, ◌&&◌, if◌then◌else◌, bit_or, length, Result, ok, err, frame_error, value_error, raise_if,
  ◌>>=◌, ◌>>◌,
}
use ms605_ble.Bits.Flags.{has_bit}
use ms605_ble.Bytes.{get_item}

pub record SubSensorZoneMap : Type 0 where
  pub index : ℕ
  pub zones : List ℕ
  pub mask : ℕ

-- `tuple(z for z in range(z, z + rounds) if mask & (1 << z))`
pub zones_from : ℕ → ℕ → ℕ → List ℕ
zones_from zero z mask = []
zones_from (suc rounds) z mask =
    let rest = zones_from rounds (z + 1) mask in if has_bit mask z then z ∷ rest else rest

-- `for i in range(i, i + rounds): mask = value[i]; ...`
unfoldable pub maps_from : ℕ → ℕ → List ℕ → Result (List SubSensorZoneMap)
unfolding zones_from
maps_from zero i value = ok []
maps_from (suc rounds) i value = do
  mask ← get_item value i
  rest ← maps_from rounds (i + 1) value
  ok (record { index = i; zones = zones_from 7 0 mask; mask = mask } ∷ rest)

unfoldable pub decode_segment_map : List ℕ → Result (List SubSensorZoneMap)
unfolding maps_from
decode_segment_map value = do raise_if (ltb (length value) 3) frame_error; maps_from 3 0 value

-- `if not 0 <= z < zone_count: raise ValueError`
unfoldable pub check_zone : ℤ → Result ℕ
check_zone (pos z) = if ltb z 7 then ok z else err value_error
check_zone (negsuc z) = err value_error

-- `for z in zones: ... mask |= 1 << z`
unfoldable pub mask_from : ℕ → List ℤ → Result ℕ
unfolding check_zone
mask_from mask [] = ok mask
mask_from mask (z ∷ zones) = do n ← check_zone z; mask_from (bit_or mask (2 ^ n)) zones

unfoldable pub masks_of : List (List ℤ) → Result (List ℕ)
unfolding mask_from
masks_of [] = ok []
masks_of (zones ∷ zone_lists) = do
  mask ← mask_from 0 zones
  rest ← masks_of zone_lists
  ok (mask ∷ rest)

-- The fourth byte is reserved. A mask is below 128, so that it fits its byte.
unfoldable pub encode_segment_map : List (List ℤ) → Result (List ℕ)
unfolding masks_of
encode_segment_map zone_lists = do
  raise_if (not (length zone_lists == 3)) value_error
  masks ← masks_of zone_lists
  ok (masks ++ (0 ∷ []))

-- `sum(1 << i for i, e in enumerate(enabled) if e)`
unfoldable pub flags_sum : ℕ → List Bool → ℕ
flags_sum i [] = 0
flags_sum i (e ∷ enabled) = (if e then 2 ^ i else 0) + flags_sum (i + 1) enabled

unfoldable pub encode_subsensor_enable : List Bool → Result ℕ
unfolding flags_sum
encode_subsensor_enable enabled = do
  raise_if (not (leb 1 (length enabled) && leb (length enabled) 8)) value_error
  ok (flags_sum 0 enabled)

-- `bool(mask & (1 << i)) for i in range(i, i + rounds)`: `MS605Config.zones_enabled` with 7 rounds,
-- and the sub-sensor flags with 3.
pub flags_from : ℕ → ℕ → ℕ → List Bool
flags_from zero i mask = []
flags_from (suc rounds) i mask = has_bit mask i ∷ flags_from rounds (i + 1) mask
