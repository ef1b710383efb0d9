-- ===== src/Models/Intervals/Laws.antt =====
-- Sample intervals written one after the other, and read as a dictionary.
use ms605_ble.Prelude.{
  ℕ, ◌+◌, ◌*◌, ◌/◌, ◌%◌, ℤ, pos, List, [], ◌∷◌, ◌++◌, length, drop, map, Result, ok, ◌>>=◌, ◌≡◌,
  refl, ap, ◌∙◌, arith, inl, inr, Result-cases, false, not, ◌==◌, raise_if, Option, none, some,
  Bool, true, if◌then◌else◌, ◌>>◌, frame_error,
}
use ms605_ble.Bytes.{first, get_item, u16_bytes, pack_u16}
use ms605_ble.Bytes.Laws.{u16_value-bytes}
use ms605_ble.Models.Fields.{check_u16}
use ms605_ble.Models.Fields.Pairs.{field_at, drop_more, pair_arg}
use ms605_ble.Models.Intervals.{
  set_seconds, intervals_from, decode_sample_intervals, check_u8, encode_sample_interval,
}

-- The settings written one after the other.
abbrev pub encode_all : List (ℤ × ℤ) → Result (List ℕ)
encode_all [] = ok []
encode_all ((i, s) ∷ args) = do
  x ← encode_sample_interval i s
  rest ← encode_all args
  ok (x ++ rest)

-- The settings entered one after the other, a later one in the place of an earlier one.
abbrev pub set_all : List (ℕ × ℕ) → List (ℕ × ℕ) → List (ℕ × ℕ)
set_all out [] = out
set_all out ((i, s) ∷ entries) = set_all (set_seconds out i s) entries

encoded :
    (i s : ℕ) (value : List ℕ)
    → encode_sample_interval (pos i) (pos s) ≡ ok value
    → value ≡ i ∷ u16_bytes s
unfolding encode_sample_interval check_u8 check_u16 pack_u16
encoded i s value h = ground (arith, h)

all_encoded :
    (i s : ℕ) (args : List (ℤ × ℤ)) (value : List ℕ)
    → encode_all ((pos i, pos s) ∷ args) ≡ ok value
    → (rest : List ℕ) × (encode_all args ≡ ok rest) × (value ≡ i ∷ (u16_bytes s ++ rest))
all_encoded i s args value h = elim (Result-cases (encode_sample_interval (pos i) (pos s))) [
  | inr (e, failed) ↦ absurd (ground (arith, failed, h))
  | inl (x, made) ↦ elim (Result-cases (encode_all args)) [
    | inr (e, failed) ↦ absurd (ground (arith, made, failed, h))
    | inl (rest, more) ↦ (rest, more, ground (arith, made, more, h, encoded i s x made))
  ]
]

length-encoded :
    (entries : List (ℕ × ℕ)) (value : List ℕ)
    → encode_all (map pair_arg entries) ≡ ok value
    → length value ≡ length entries * 3
length-encoded [] value h = ground (arith, h)
length-encoded ((i, s) ∷ entries) value h =
    let (rest, more, whole) = all_encoded i s (map pair_arg entries) value h in
    omega (arith, ap (λ (l : List ℕ). length l) whole, length-encoded entries rest more)

intervals_read :
    (whole : List ℕ) (i : ℕ) (entries : List (ℕ × ℕ)) (value : List ℕ) (out : List (ℕ × ℕ))
    → encode_all (map pair_arg entries) ≡ ok value
    → drop i whole ≡ value
    → intervals_from (length entries) i whole out ≡ ok (set_all out entries)
unfolding intervals_from
intervals_read whole i [] value out h p = refl
intervals_read whole i ((k, s) ∷ entries) value out h p =
    let (rest, more, e) = all_encoded k s (map pair_arg entries) value h in
    let here : drop i whole ≡ k ∷ (u16_bytes s ++ rest) = p ∙ e in
    let key : get_item whole i ≡ ok k = ap first here in
    let next = drop_more 1 i whole _ here in
    let later : drop (i + 3) whole ≡ rest = drop_more 3 i whole _ here in
    ground (
      arith,
      key,
      field_at whole (i + 1) (u16_bytes s ++ rest) next,
      u16_value-bytes s,
      intervals_read whole (i + 3) entries rest (set_seconds out k s) more later,
    )

-- `out.get(idx)`
abbrev pub lookup_seconds : List (ℕ × ℕ) → ℕ → Option ℕ
lookup_seconds [] idx = none
lookup_seconds ((k, s) ∷ out) idx = if k == idx then some s else lookup_seconds out idx

abbrev pub or_else : Option ℕ → Option ℕ → Option ℕ
or_else none other = other
or_else (some s) other = some s

-- The last setting that is written for a sub-sensor.
abbrev pub last_setting : List (ℕ × ℕ) → ℕ → Option ℕ
last_setting [] idx = none
last_setting ((i, s) ∷ entries) idx =
    or_else (last_setting entries idx) (if i == idx then some s else none)

lookup-set_seconds :
    (out : List (ℕ × ℕ)) (i s idx : ℕ)
    → lookup_seconds (set_seconds out i s) idx
      ≡ (if i == idx then some s else lookup_seconds out idx)
unfolding set_seconds
lookup-set_seconds [] i s idx = refl
lookup-set_seconds ((k, t) ∷ out) i s idx = ground (arith, lookup-set_seconds out i s idx)

chosen :
    (last other : Option ℕ) (b : Bool) (s : ℕ)
    → or_else last (if b then some s else other)
      ≡ or_else (or_else last (if b then some s else none)) other
chosen none other true s = refl
chosen none other false s = refl
chosen (some t) other b s = refl

lookup-set_all :
    (out entries : List (ℕ × ℕ)) (idx : ℕ)
    → lookup_seconds (set_all out entries) idx
      ≡ or_else (last_setting entries idx) (lookup_seconds out idx)
lookup-set_all out [] idx = refl
lookup-set_all out ((i, s) ∷ entries) idx =
    lookup-set_all (set_seconds out i s) entries idx
    ∙ ap (λ o. or_else (last_setting entries idx) o) (lookup-set_seconds out i s idx)
    ∙ chosen (last_setting entries idx) (lookup_seconds out idx) (i == idx) s

or_else-none : (o : Option ℕ) → or_else o none ≡ o
or_else-none none = refl
or_else-none (some s) = refl

decode-encode_all :
    (entries : List (ℕ × ℕ)) (value : List ℕ)
    → encode_all (map pair_arg entries) ≡ ok value
    → decode_sample_intervals value ≡ ok (set_all [] entries)
unfolding decode_sample_intervals
decode-encode_all entries value h =
    ap (λ b. raise_if b frame_error >> intervals_from (length value / 3) 0 value []) whole_records
    ∙ ap (λ n. intervals_from n 0 value []) count
    ∙ intervals_read value 0 entries value [] h refl
  where
    whole_records : not (length value % 3 == 0) ≡ false
    whole_records = ground (arith, length-encoded entries value h)

    count : length value / 3 ≡ length entries
    count = omega (arith, length-encoded entries value h)

-- Any settings that `encode_sample_interval` accepts, written one after the other, are read by
-- `decode_sample_intervals` as a dictionary, in which each sub-sensor has the seconds of the last
-- setting that was written for it, and a sub-sensor without a setting has no entry.
pub decode-encode_sample_intervals :
    (entries : List (ℕ × ℕ)) (value : List ℕ)
    → encode_all (map pair_arg entries) ≡ ok value
    → (out : List (ℕ × ℕ)) × (decode_sample_intervals value ≡ ok out)
      × ((idx : ℕ) → lookup_seconds out idx ≡ last_setting entries idx)
decode-encode_sample_intervals entries value h = (
  set_all [] entries,
  decode-encode_all entries value h,
  λ idx. lookup-set_all [] entries idx ∙ or_else-none (last_setting entries idx),
)
