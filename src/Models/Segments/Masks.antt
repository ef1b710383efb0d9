-- ===== src/Models/Segments/Masks.antt =====
-- A mask is the set of the zones that were put into it.
use ms605_ble.Prelude.{
  ℕ, ◌^◌, ◌<◌, ◌≤◌, ℤ, pos, negsuc, List, [], ◌∷◌, Bool, false, ◌==◌, ◌||◌, bit_or, ok, ◌≡◌, arith,
}
use native.Mathlib.Nat.{pow-le-pow_right}
use ms605_ble.Bits.Flags.{has_bit, has_bit-eq-digit, digit-bit_or, digit-pow, digit-zero, bit_or-lt}
use ms605_ble.Bits.Mask.{digit-lt}
use ms605_ble.Models.Segments.{check_zone, mask_from}

-- `z in zones`
abbrev pub holds : List ℤ → ℕ → Bool
holds [] k = false
holds (pos z ∷ zones) k = k == z || holds zones k
holds (negsuc z ∷ zones) k = holds zones k

pub has_bit-zero : (k : ℕ) → has_bit 0 k ≡ false
has_bit-zero k = ground (arith, has_bit-eq-digit 0 k, digit-zero k)

has_bit-set : (mask n k : ℕ) → has_bit (bit_or mask (2 ^ n)) k ≡ (k == n || has_bit mask k)
has_bit-set mask n k = ground (
  arith,
  has_bit-eq-digit (bit_or mask (2 ^ n)) k,
  has_bit-eq-digit mask k,
  digit-bit_or k mask (2 ^ n),
  digit-pow k n,
  digit-lt k mask,
)

-- The mask of the rest is of a mask with one more zone, which is below 7.
mask_from-step :
    (mask z : ℕ) (zones : List ℤ) (m : ℕ)
    → mask_from mask (pos z ∷ zones) ≡ ok m
    → (z < 7) × (mask_from (bit_or mask (2 ^ z)) zones ≡ ok m)
unfolding mask_from check_zone
mask_from-step mask z zones m r = ground (arith, r)

-- A mask is the zones that it had and those that were put into it.
pub mask_from-has_bit :
    (mask : ℕ) (zones : List ℤ) (m k : ℕ)
    → mask_from mask zones ≡ ok m
    → has_bit m k ≡ (has_bit mask k || holds zones k)
unfolding mask_from check_zone
mask_from-has_bit mask [] m k r = ground (arith, r)
mask_from-has_bit mask (negsuc z ∷ zones) m k r = ground (arith, r)
mask_from-has_bit mask (pos z ∷ zones) m k r =
    let (inside, next) = mask_from-step mask z zones m r in
    ground (arith, mask_from-has_bit (bit_or mask (2 ^ z)) zones m k next, has_bit-set mask z k)

zone_bit : (z : ℕ) → z < 7 → 2 ^ z < 128
zone_bit z p = omega (arith, below)
  where
    two : 0 < 2
    two = omega arith

    top : z ≤ 6
    top = omega arith

    below : 2 ^ z ≤ 2 ^ 6
    below = pow-le-pow_right two top

-- It stays below 128, so that it fits a byte.
pub mask_from-bound :
    (mask : ℕ) (zones : List ℤ) (m : ℕ) → mask < 128 → mask_from mask zones ≡ ok m → m < 128
unfolding mask_from check_zone
mask_from-bound mask [] m bound r = ground (arith, r)
mask_from-bound mask (negsuc z ∷ zones) m bound r = ground (arith, r)
mask_from-bound mask (pos z ∷ zones) m bound r =
    let (inside, next) = mask_from-step mask z zones m r in
    mask_from-bound (bit_or mask (2 ^ z)) zones m
      (bit_or-lt 7 mask (2 ^ z) bound (zone_bit z inside)) next
