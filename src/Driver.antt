-- ===== src/Driver.antt =====
-- The writing of settings in ms605/driver.py: the `set_...` methods that `apply_profile` calls, and
-- `apply_profile`. `send` stands for `_send`, the exchange with a device over the radio.
pub mod Values
pub mod Applied
pub mod Learning
pub mod Tests
use ms605_ble.Prelude.{
  ℕ, List, [], ◌∷◌, Option, none, some, Bool, true, false, not, ◌&&◌, leb, length, if◌then◌else◌,
  Result, ok, err, value_error, raise_if, ◌>>=◌, ◌>>◌, ◌==◌, ℤ, pos, negsuc, int_eq,
}
use ms605_ble.Protocol.Frame.{Attr}
use ms605_ble.Models.Zones.{encode_zone_thresholds, encode_presence_absence_times}
use ms605_ble.Models.Segments.{encode_segment_map, encode_subsensor_enable, flags_sum}
use ms605_ble.Profiles.{
  Section, sensitivity, detect_mode, zone_enable, zone_thresholds, subsensor_zones,
  subsensor_timing, subsensor_enable, profile_section_keys, has_section, ConfigProfile, in_range,
  validate, has_value,
}

abbrev pub tag_of : Section → ℕ
tag_of sensitivity = 61
tag_of detect_mode = 52
tag_of zone_enable = 50
tag_of zone_thresholds = 51
tag_of subsensor_zones = 48
tag_of subsensor_timing = 49
tag_of subsensor_enable = 41

-- `if level not in (1, 2, 3, 4): raise ValueError` and `bytes([level])`
abbrev pub level_byte : ℤ → Result (List ℕ)
level_byte (pos n) = if in_range 1 4 (pos n) then ok (n ∷ []) else err value_error
level_byte (negsuc n) = err value_error

-- `set_zone_enable`
unfoldable pub zone_enable_value : List Bool → Result (List ℕ)
zone_enable_value flags = do
  raise_if (not (leb 1 (length flags) && leb (length flags) 8)) value_error
  ok (flags_sum 0 flags ∷ [])

abbrev pub enable_value : List Bool → Result (List ℕ)
enable_value flags = do mask ← encode_subsensor_enable flags; ok (mask ∷ [])

-- `set_subsensor_zones` by `set_subsensor_config`
abbrev pub segment_value : List (List ℤ) → Result (List ℕ)
segment_value zone_lists = do
  value ← encode_segment_map zone_lists
  raise_if (not (length value == 4)) value_error
  ok value

abbrev pub value_or_error : {A : Type 0} → (A → Result (List ℕ)) → Option A → Result (List ℕ)
value_or_error encode none = err value_error
value_or_error encode (some a) = encode a

-- The bytes that the `set_...` method for a section sends.
abbrev pub section_value : ConfigProfile → Section → Result (List ℕ)
section_value p sensitivity = value_or_error level_byte p.sensitivity
section_value p detect_mode = value_or_error level_byte p.detect_mode
section_value p zone_enable = value_or_error zone_enable_value p.zone_enable
section_value p zone_thresholds = value_or_error encode_zone_thresholds p.zone_thresholds
section_value p subsensor_zones = value_or_error segment_value p.subsensor_zones
section_value p subsensor_timing = value_or_error encode_presence_absence_times p.subsensor_timing
section_value p subsensor_enable = value_or_error enable_value p.subsensor_enable

-- `int(profile.detect_mode) != int(DetectMode.SPACE_LEARNING)`, asked for this section only
abbrev pub is_learning : Option ℤ → Bool
is_learning none = false
is_learning (some mode) = int_eq mode (pos 4)

abbrev pub skips : ConfigProfile → Section → Bool
skips p detect_mode = is_learning p.detect_mode
skips p sensitivity = false
skips p zone_enable = false
skips p zone_thresholds = false
skips p subsensor_zones = false
skips p subsensor_timing = false
skips p subsensor_enable = false

-- `"key" in wanted and profile.key is not None`, and not learning
abbrev pub writes : ConfigProfile → List Section → Section → Bool
writes p wanted k = has_section k wanted && (has_value p k && not (skips p k))

module _ {Device : Type 0} where
  -- An exception of `validate` ends it before anything is sent.
  abbrev pub after_check :
      Result (Unit {0}) → Device → Result (List Section) × Device → Result (List Section) × Device
  after_check (err e) d writing = (err e, d)
  after_check (ok checked) d writing = writing

  -- `applied.append(key)` after the `set_...`, and what is written after it
  abbrev pub and_applied : Section → Result (List Section) × Device → Result (List Section) × Device
  and_applied k (err e, d) = (err e, d)
  and_applied k (ok applied, d) = (ok (k ∷ applied), d)

  abbrev pub then_write :
      Section
      → (Device → Result (List Section) × Device)
      → Result (Unit {0}) × Device
      → Result (List Section) × Device
  then_write k rest (err e, d) = (err e, d)
  then_write k rest (ok done, d) = and_applied k (rest d)

module _ {Device : Type 0} (send : List Attr → Device → Result (Unit {0}) × Device) where
  -- `await self._send({tag: value}, get=False)`, once the value is made
  abbrev pub send_value : ℕ → Result (List ℕ) → Device → Result (Unit {0}) × Device
  send_value tag (err e) d = (err e, d)
  send_value tag (ok value) d = send ((tag, value) ∷ []) d

  -- `await self.set_...(profile.key)`
  unfoldable pub set_section : ConfigProfile → Section → Device → Result (Unit {0}) × Device
  set_section p k d = send_value (tag_of k) (section_value p k) d

  -- The `if`s of `apply_profile`, one for each key in turn, with what each appends to `applied`.
  unfoldable pub write_sections :
      ConfigProfile → List Section → List Section → Device → Result (List Section) × Device
  write_sections p wanted [] d = (ok [], d)
  write_sections p wanted (k ∷ keys) d =
      let skipped = write_sections p wanted keys d in
      if writes p wanted k
      then then_write k (write_sections p wanted keys) (set_section p k d)
      else skipped

  unfoldable pub apply_profile :
      ConfigProfile → List Section → Device → Result (List Section) × Device
  unfolding write_sections
  apply_profile p wanted d =
      after_check (validate wanted p) d (write_sections p wanted profile_section_keys d)
