-- ===== src/Models/Zones/Laws.antt =====
-- The threshold and timing payloads: encoding and decoding undo each other.
use ms605_ble.Prelude.{
  ℕ, ◌+◌, ◌*◌, ℤ, pos, List, [], ◌∷◌, ◌++◌, map, length, drop, ok, ◌≡◌, refl, sym, ap, ◌∙◌, arith,
  append-nil, length-append, length-map, Result-cases, inl, inr, drop-all,
}
use ms605_ble.Bytes.{AreBytes}
use ms605_ble.Models.Fields.{read_pairs, write_pairs}
use ms605_ble.Models.Fields.Pairs.{
  pairs_bytes, pair_arg, read_pairs-eq_rest, pairs_rest-bytes, pairs_rest-ok, write_pairs-bytes,
  write_pairs-ok,
}
use ms605_ble.Models.Zones.{
  ZoneThreshold, zone_threshold, decode_zone_thresholds, encode_zone_thresholds, SubSensorTiming,
  timings_from, decode_presence_absence_times, encode_presence_absence_times,
}

length-pairs_bytes : (pairs : List (ℕ × ℕ)) → length (pairs_bytes pairs) ≡ length pairs * 4
length-pairs_bytes [] = omega arith
length-pairs_bytes ((a, b) ∷ pairs) = omega (arith, length-pairs_bytes pairs)

-- What the encoder takes, from what the decoder returns.
abbrev pub threshold_arg : ZoneThreshold → ℤ × ℤ
threshold_arg z = (pos z.trigger, pos z.maintain)

abbrev pub timing_arg : SubSensorTiming → ℤ × ℤ
timing_arg t = (pos t.presence_seconds, pos t.absence_seconds)

map-threshold_arg :
    (pairs : List (ℕ × ℕ)) → map threshold_arg (map zone_threshold pairs) ≡ map pair_arg pairs
map-threshold_arg [] = refl
map-threshold_arg ((a, b) ∷ pairs) = ap (λ l. (pos a, pos b) ∷ l) (map-threshold_arg pairs)

map-timing_arg :
    (i : ℕ) (pairs : List (ℕ × ℕ)) → map timing_arg (timings_from i pairs) ≡ map pair_arg pairs
map-timing_arg i [] = refl
map-timing_arg i ((a, b) ∷ pairs) = ap (λ l. (pos a, pos b) ∷ l) (map-timing_arg (i + 1) pairs)

-- Reading a row of pairs that was written, with something behind it.
read_written :
    (pairs : List (ℕ × ℕ)) (tail : List ℕ)
    → read_pairs (length pairs) 0 (pairs_bytes pairs ++ tail) ≡ ok pairs
read_written pairs tail =
    read_pairs-eq_rest (length pairs) 0 (pairs_bytes pairs ++ tail) (pairs_bytes pairs ++ tail) refl
    ∙ pairs_rest-bytes pairs tail

-- What the encoders' loop wrote for `n` pairs is read back.
read_back :
    (n : ℕ) (args : List (ℤ × ℤ)) (bs tail : List ℕ)
    → length args ≡ n
    → write_pairs args ≡ ok bs
    → (pairs : List (ℕ × ℕ)) × (read_pairs n 0 (bs ++ tail) ≡ ok pairs)
      × (map pair_arg pairs ≡ args)
      × (length bs ≡ n * 4)
read_back n args bs tail len h =
    let (pairs, ea, eb, good) = write_pairs-ok args bs h in
    let same : length pairs ≡ n =
      omega (arith, length-map pair_arg pairs, ap (λ (l : List (ℤ × ℤ)). length l) ea) in
    (
      pairs,
      ap (λ k. read_pairs k 0 (bs ++ tail)) (sym same)
          ∙ ap (λ b. read_pairs (length pairs) 0 (b ++ tail)) eb
          ∙ read_written pairs tail,
      ea,
      omega (arith, ap (λ (l : List ℕ). length l) eb, length-pairs_bytes pairs),
    )

-- And what was read is written so.
write_back :
    (n : ℕ) (value : List ℕ) (pairs : List (ℕ × ℕ))
    → AreBytes value
    → read_pairs n 0 value ≡ ok pairs
    → (bs : List ℕ) × (write_pairs (map pair_arg pairs) ≡ ok bs)
      × (value ≡ bs ++ drop (n * 4) value)
      × (length pairs ≡ n)
write_back n value pairs b h =
    let (len, good, whole) =
      pairs_rest-ok n value pairs b (sym (read_pairs-eq_rest n 0 value value refl) ∙ h) in
    (pairs_bytes pairs, write_pairs-bytes pairs good, whole, len)

-- Seven pairs that `encode_zone_thresholds` accepts come back from `decode_zone_thresholds` as they
-- were, in order.
pub decode-encode_zone_thresholds :
    (args : List (ℤ × ℤ)) (value : List ℕ)
    → encode_zone_thresholds args ≡ ok value
    → (zones : List ZoneThreshold) × (decode_zone_thresholds value ≡ ok zones)
      × (map threshold_arg zones ≡ args)
unfolding encode_zone_thresholds decode_zone_thresholds
decode-encode_zone_thresholds args value h =
    let (pairs, read, e, len) = read_back 7 args value [] (ground (arith, h)) (ground (arith, h)) in
    (
      map zone_threshold pairs,
      ground (arith, sym (ap (read_pairs 7 0) (append-nil value)) ∙ read, len),
      map-threshold_arg pairs ∙ e,
    )

thresholds_read :
    (value : List ℕ) (zones : List ZoneThreshold)
    → decode_zone_thresholds value ≡ ok zones
    → (length value ≡ 28)
      × (pairs : List (ℕ × ℕ)) × (read_pairs 7 0 value ≡ ok pairs)
      × (map zone_threshold pairs ≡ zones)
unfolding decode_zone_thresholds
thresholds_read value zones h = elim (Result-cases (read_pairs 7 0 value)) [
  | inl (pairs, read) ↦ (ground (arith, h), pairs, read, ground (arith, h, read))
  | inr (e, failed) ↦ absurd (ground (arith, h, failed))
]

-- A payload that `decode_zone_thresholds` accepts is what `encode_zone_thresholds` makes of the
-- seven zones that were read.
pub encode-decode_zone_thresholds :
    (value : List ℕ) (zones : List ZoneThreshold)
    → AreBytes value
    → decode_zone_thresholds value ≡ ok zones
    → encode_zone_thresholds (map threshold_arg zones) ≡ ok value
unfolding encode_zone_thresholds
encode-decode_zone_thresholds value zones b h =
    let (size, pairs, read, e) = thresholds_read value zones h in
    let (bs, written, whole, len) = write_back 7 value pairs b read in
    let all : value ≡ bs =
      whole ∙ ap (λ l. bs ++ l) (drop-all 28 value (omega arith)) ∙ append-nil bs in
    rw (← e, map-threshold_arg pairs) (ground (arith, written, len, length-map pair_arg pairs, all))

-- Three pairs of seconds that `encode_presence_absence_times` accepts fill sixteen bytes, and come
-- back from `decode_presence_absence_times` as they were, in order.
pub decode-encode_presence_absence_times :
    (args : List (ℤ × ℤ)) (value : List ℕ)
    → encode_presence_absence_times args ≡ ok value
    → (length value ≡ 16)
      × (timings : List SubSensorTiming) × (decode_presence_absence_times value ≡ ok timings)
      × (map timing_arg timings ≡ args)
unfolding encode_presence_absence_times decode_presence_absence_times
decode-encode_presence_absence_times args value h = elim (Result-cases (write_pairs args)) [
  | inr (e, failed) ↦ absurd (ground (arith, h, failed))
  | inl (bs, written) ↦
      let (pairs, read, e, len) =
        read_back 3 args bs (0 ∷ 0 ∷ 0 ∷ 0 ∷ []) (ground (arith, h)) written in
      let padded : value ≡ bs ++ (0 ∷ 0 ∷ 0 ∷ 0 ∷ []) = ground (arith, h, written) in
      let size : length value ≡ 16 =
        omega
          (arith, ap (λ (l : List ℕ). length l) padded, length-append bs (0 ∷ 0 ∷ 0 ∷ 0 ∷ [])) in
      (
        size,
        timings_from 0 pairs,
        ground (arith, size, ap (read_pairs 3 0) padded ∙ read),
        map-timing_arg 0 pairs ∙ e,
      )
]
