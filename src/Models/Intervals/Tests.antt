-- ===== src/Models/Intervals/Tests.antt =====
-- Three settings, two of them of the same sub-sensor, and the theorem there.
use ms605_ble.Prelude.{ℕ, List, [], ◌∷◌, map, ok, ◌≡◌, refl}
use ms605_ble.Bytes.{pack_u16}
use ms605_ble.Models.Fields.{check_u16}
use ms605_ble.Models.Fields.Pairs.{pair_arg}
use ms605_ble.Models.Intervals.{
  set_seconds, decode_sample_intervals, encode_sample_interval, check_u8,
}
use ms605_ble.Models.Intervals.Laws.{
  encode_all, set_all, lookup_seconds, last_setting, decode-encode_sample_intervals,
}

abbrev entries : List (ℕ × ℕ)
entries = (0, 30) ∷ (2, 600) ∷ (0, 5) ∷ []

abbrev entry_bytes : List ℕ
entry_bytes = 0 ∷ 0 ∷ 30 ∷ 2 ∷ 2 ∷ 88 ∷ 0 ∷ 0 ∷ 5 ∷ []

entries_written : encode_all (map pair_arg entries) ≡ ok entry_bytes
unfolding encode_sample_interval check_u8 check_u16 pack_u16
entries_written = refl

later_counts : set_all [] entries ≡ (0, 5) ∷ (2, 600) ∷ []
unfolding set_seconds
later_counts = refl

decode-encode_sample_intervals_example :
    (out : List (ℕ × ℕ)) × (decode_sample_intervals entry_bytes ≡ ok out)
    × ((idx : ℕ) → lookup_seconds out idx ≡ last_setting entries idx)
decode-encode_sample_intervals_example =
    decode-encode_sample_intervals entries entry_bytes entries_written
