-- ===== src/Models/Intervals.antt =====
-- The sample intervals of the sub-sensors (tag 98) of ms605/models.py, and the payloads that are read
-- byte by byte (tag 21, do-not-disturb, and the PIR state).
pub mod Laws
pub mod Tests
use ms605_ble.Prelude.{
  ℕ, zero, suc, ◌+◌, ◌/◌, ◌%◌, ℤ, pos, negsuc, List, [], ◌∷◌, ◌++◌, Option, none, some, Bool, false,
  not, ◌==◌, leb, if◌then◌else◌, length, Result, ok, err, frame_error, value_error, raise_if, ◌>>=◌,
  ◌>>◌,
}
use ms605_ble.Bytes.{get_item, pack_u16}
use ms605_ble.Models.Fields.{read_u16, check_u16}

-- `out[idx] = secs`
unfoldable pub set_seconds : List (ℕ × ℕ) → ℕ → ℕ → List (ℕ × ℕ)
set_seconds [] idx secs = (idx, secs) ∷ []
set_seconds ((k, s) ∷ out) idx secs =
    let rest = set_seconds out idx secs in if k == idx then (k, secs) ∷ out else (k, s) ∷ rest

-- `for i in range(i, len(value), 3): ...`, on a count of rounds
unfoldable pub intervals_from : ℕ → ℕ → List ℕ → List (ℕ × ℕ) → Result (List (ℕ × ℕ))
intervals_from zero i value out = ok out
intervals_from (suc rounds) i value out = do
  idx ← get_item value i
  secs ← read_u16 value (i + 1)
  intervals_from rounds (i + 3) value (set_seconds out idx secs)

unfoldable pub decode_sample_intervals : List ℕ → Result (List (ℕ × ℕ))
decode_sample_intervals value = do
  raise_if (not (length value % 3 == 0)) frame_error
  intervals_from (length value / 3) 0 value []

-- `0 <= sensor_index <= 0xFF`, or the ValueError
unfoldable pub check_u8 : ℤ → Result ℕ
check_u8 (pos n) = if leb n 0xFF then ok n else err value_error
check_u8 (negsuc n) = err value_error

unfoldable pub encode_sample_interval : ℤ → ℤ → Result (List ℕ)
encode_sample_interval sensor_index seconds = do
  i ← check_u8 sensor_index
  s ← check_u16 seconds
  packed ← pack_u16 s
  ok (i ∷ packed)

pub decode_supported_tags : List ℕ → List ℕ
decode_supported_tags value = value

pub decode_dnd : List ℕ → Bool
decode_dnd [] = false
decode_dnd (b ∷ value) = not (b == 0)

pub decode_pir_state : Option (List ℕ) → Option Bool
decode_pir_state none = none
decode_pir_state (some []) = some false
decode_pir_state (some (b ∷ value)) = some (not (b == 0))
