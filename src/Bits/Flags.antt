-- ===== src/Bits/Flags.antt =====
-- Bit masks as sets of flags: `bool(mask & (1 << k))` and `mask |= 1 << k`.
use native.Mathlib.Nat.{pow-suc, one-le-pow}
use ms605_ble.Prelude.{
  ℕ, zero, suc, ◌<◌, ◌/◌, ◌^◌, max, bit_and, bit_or, ◌≡◌, refl, ap, ◌∙◌, Bool, not, arith, ◌==◌,
  if◌then◌else◌,
}
use ms605_ble.Bits.Steps.{bit_or_step}
use ms605_ble.Bits.Mask.{digit, digit-lt, bit_and-pow}

-- `bool(mask & (1 << k))`
unfoldable pub has_bit : ℕ → ℕ → Bool
has_bit mask k = not (bit_and mask (2 ^ k) == 0)

-- The test reads the digit.
pub has_bit-eq-digit : (mask k : ℕ) → has_bit mask k ≡ (digit k mask == 1)
unfolding has_bit
has_bit-eq-digit mask k = grind (arith, bit_and-pow k mask, digit-lt k mask, one-le-pow k 2)

pub digit-bit_or : (k a b : ℕ) → digit k (bit_or a b) ≡ max (digit k a) (digit k b)
digit-bit_or zero a b = omega (arith, bit_or_step a b)
digit-bit_or (suc k) a b = ap (digit k) half ∙ digit-bit_or k (a / 2) (b / 2)
  where
    half : bit_or a b / 2 ≡ bit_or (a / 2) (b / 2)
    half = omega (arith, bit_or_step a b)

pub digit-zero : (k : ℕ) → digit k 0 ≡ 0
digit-zero zero = refl
digit-zero (suc k) = digit-zero k

pub digit-pow : (k z : ℕ) → digit k (2 ^ z) ≡ (if k == z then 1 else 0)
digit-pow zero zero = refl
digit-pow zero (suc z) = ground (arith, pow-suc 2 z)
digit-pow (suc k) zero = digit-zero k ∙ ground arith
digit-pow (suc k) (suc z) = ap (digit k) half ∙ digit-pow k z ∙ ground arith
  where
    half : 2 ^ suc z / 2 ≡ 2 ^ z
    half = omega (arith, pow-suc 2 z)

-- No operand has a higher bit, so neither does the result.
pub bit_or-lt : (k a b : ℕ) → a < 2 ^ k → b < 2 ^ k → bit_or a b < 2 ^ k
bit_or-lt zero zero zero p q = p
bit_or-lt zero (suc a) b p q = absurd (omega arith)
bit_or-lt zero zero (suc b) p q = absurd (omega arith)
bit_or-lt (suc k) a b p q = omega (
  arith,
  pow-suc 2 k,
  bit_or_step a b,
  bit_or-lt k (a / 2) (b / 2) (omega (arith, pow-suc 2 k)) (omega (arith, pow-suc 2 k)),
)
