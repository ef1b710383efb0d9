-- ===== src/Models/Segments/Laws.antt =====
-- What the zone assignment and the flags say is what was put into them.
use ms605_ble.Prelude.{
  ℕ, zero, suc, ◌+◌, ◌^◌, ◌*◌, ◌/◌, ◌<◌, ◌≤◌, ℤ, inl, inr, Result-cases, List, [], ◌∷◌, Bool, map,
  if◌then◌else◌, length, ok, All, arith, ◌≡◌, refl, ap, ap₂, ◌∙◌,
}
use native.Mathlib.Nat.{pow-suc, pow-le-pow_right}
use ms605_ble.Bits.Mask.{digit}
use ms605_ble.Bits.Flags.{has_bit, has_bit-eq-digit}
use ms605_ble.Models.Segments.{
  SubSensorZoneMap, zones_from, maps_from, decode_segment_map, mask_from, masks_of,
  encode_segment_map, flags_sum, encode_subsensor_enable, flags_from,
}
use ms605_ble.Models.Segments.Masks.{holds, has_bit-zero, mask_from-has_bit, mask_from-bound}

-- The numbers from `z` on, `rounds` of them, that stand in `zones`: in ascending order, each once.
abbrev pub zones_held : ℕ → ℕ → List ℤ → List ℕ
zones_held zero z zones = []
zones_held (suc rounds) z zones =
    let rest = zones_held rounds (z + 1) zones in if holds zones z then z ∷ rest else rest

zones_from-held :
    (rounds z : ℕ) (zones : List ℤ) (m : ℕ)
    → mask_from 0 zones ≡ ok m
    → zones_from rounds z m ≡ zones_held rounds z zones
unfolding zones_from
zones_from-held zero z zones m h = refl
zones_from-held (suc rounds) z zones m h = ground (
  arith,
  zones_from-held rounds (z + 1) zones m h,
  mask_from-has_bit 0 zones m z h,
  has_bit-zero z,
)

pub masks_of-three :
    (a b c : List ℤ) (masks : List ℕ)
    → masks_of (a ∷ b ∷ c ∷ []) ≡ ok masks
    → (x y z : ℕ) × (masks ≡ x ∷ y ∷ z ∷ [])
      × (mask_from 0 a ≡ ok x)
      × (mask_from 0 b ≡ ok y)
      × (mask_from 0 c ≡ ok z)
unfolding masks_of
masks_of-three a b c masks h = elim (Result-cases (mask_from 0 a)) [
  | inr (e, failed) ↦ absurd (ground (arith, h, failed))
  | inl (x, ea) ↦ elim (Result-cases (mask_from 0 b)) [
    | inr (e, failed) ↦ absurd (ground (arith, h, ea, failed))
    | inl (y, eb) ↦ elim (Result-cases (mask_from 0 c)) [
      | inr (e, failed) ↦ absurd (ground (arith, h, ea, eb, failed))
      | inl (z, ec) ↦ (x, y, z, ground (arith, h, ea, eb, ec), ea, eb, ec)
    ]
  ]
]

abbrev three_maps : ℕ → ℕ → ℕ → List SubSensorZoneMap
three_maps x y z =
    record { index = 0; zones = zones_from 7 0 x; mask = x }
    ∷ record { index = 1; zones = zones_from 7 0 y; mask = y }
    ∷ record { index = 2; zones = zones_from 7 0 z; mask = z }
    ∷ []

segment_bound : (mask : ℕ) (zones : List ℤ) → mask_from 0 zones ≡ ok mask → mask < 128
segment_bound mask zones h = mask_from-bound 0 zones mask (omega arith) h

-- Zone lists that `encode_segment_map` accepts make four bytes below 128, and what
-- `decode_segment_map` reads back from them is, for each sub-sensor, its zones in ascending order,
-- each once.
pub decode-encode_segment_map :
    (zone_lists : List (List ℤ)) (value : List ℕ)
    → encode_segment_map zone_lists ≡ ok value
    → (length value ≡ 4)
      × All (λ b. b < 128) value
      × (maps : List SubSensorZoneMap) × (decode_segment_map value ≡ ok maps)
      × (map (λ m. m.zones) maps ≡ map (zones_held 7 0) zone_lists)
unfolding encode_segment_map decode_segment_map maps_from
decode-encode_segment_map (a ∷ b ∷ c ∷ []) value h =
    elim (Result-cases (masks_of (a ∷ b ∷ c ∷ []))) [
      | inr (e, failed) ↦ absurd (ground (arith, h, failed))
      | inl (masks, made) ↦
          let (x, y, z, e, ea, eb, ec) = masks_of-three a b c masks made in
          let whole : value ≡ x ∷ y ∷ z ∷ 0 ∷ [] = ground (arith, h, made, e) in
          rw whole (
            refl,
            (
              segment_bound x a ea,
              (segment_bound y b eb, (segment_bound z c ec, (omega arith, tt))),
            ),
            (three_maps x y z),
            refl,
            rw (zones_from-held 7 0 a x ea, zones_from-held 7 0 b y eb, zones_from-held 7 0 c z ec)
                refl,
          )
    ]
decode-encode_segment_map [] value h = absurd (ground (arith, h))
decode-encode_segment_map (a ∷ []) value h = absurd (ground (arith, h))
decode-encode_segment_map (a ∷ b ∷ []) value h = absurd (ground (arith, h))
decode-encode_segment_map (a ∷ b ∷ c ∷ d ∷ more) value h = absurd (ground (arith, h))

flags_sum-suc : (i : ℕ) (enabled : List Bool) → flags_sum (i + 1) enabled ≡ 2 * flags_sum i enabled
unfolding flags_sum
flags_sum-suc i [] = refl
flags_sum-suc i (e ∷ enabled) = ground (arith, flags_sum-suc (i + 1) enabled, pow-suc 2 i)

abbrev flag : Bool → ℕ
flag e = if e then 1 else 0

has_bit-next : (e : Bool) (mask k : ℕ) → has_bit (flag e + 2 * mask) (k + 1) ≡ has_bit mask k
has_bit-next e mask k = ground (
  arith,
  has_bit-eq-digit (flag e + 2 * mask) (suc k),
  has_bit-eq-digit mask k,
  ap (digit k) half,
)
  where
    half : (flag e + 2 * mask) / 2 ≡ mask
    half = ground arith

has_bit-lowest : (e : Bool) (mask : ℕ) → has_bit (flag e + 2 * mask) 0 ≡ e
has_bit-lowest e mask = ground (arith, has_bit-eq-digit (flag e + 2 * mask) 0)

flags_from-next :
    (rounds i : ℕ) (e : Bool) (mask : ℕ)
    → flags_from rounds (i + 1) (flag e + 2 * mask) ≡ flags_from rounds i mask
unfolding flags_from
flags_from-next zero i e mask = refl
flags_from-next (suc rounds) i e mask =
    ap₂ (λ b bs. b ∷ bs) (has_bit-next e mask i) (flags_from-next rounds (i + 1) e mask)

pub flags_from-sum :
    (enabled : List Bool) → flags_from (length enabled) 0 (flags_sum 0 enabled) ≡ enabled
unfolding flags_from flags_sum
flags_from-sum [] = refl
flags_from-sum (e ∷ enabled) = rw (flags_sum-suc 0 enabled) (
    ap₂ (λ b bs. b ∷ bs) (has_bit-lowest e (flags_sum 0 enabled))
      (flags_from-next (length enabled) 0 e (flags_sum 0 enabled) ∙ flags_from-sum enabled))

flags_sum-lt : (enabled : List Bool) → flags_sum 0 enabled < 2 ^ length enabled
unfolding flags_sum
flags_sum-lt [] = omega arith
flags_sum-lt (e ∷ enabled) =
    ground (arith, flags_sum-suc 0 enabled, flags_sum-lt enabled, pow-suc 2 (length enabled))

eight_flags : (enabled : List Bool) → length enabled ≤ 8 → flags_sum 0 enabled < 256
eight_flags enabled p = omega (arith, flags_sum-lt enabled, below)
  where
    two : 0 < 2
    two = omega arith

    below : 2 ^ length enabled ≤ 2 ^ 8
    below = pow-le-pow_right two p

-- A list of flags that `encode_subsensor_enable` accepts, one of 1 to 8, packs into a byte whose
-- bits, read one by one from the lowest, are the flags.
pub flags_from-encode_subsensor_enable :
    (enabled : List Bool) (mask : ℕ)
    → encode_subsensor_enable enabled ≡ ok mask
    → (mask < 256) × (flags_from (length enabled) 0 mask ≡ enabled)
unfolding encode_subsensor_enable
flags_from-encode_subsensor_enable enabled mask h =
    (rw (← packed) (eight_flags enabled few), rw (← packed) (flags_from-sum enabled))
  where
    few : length enabled ≤ 8
    few = ground (arith, h)

    packed : flags_sum 0 enabled ≡ mask
    packed = ground (arith, h)
