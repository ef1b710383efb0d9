-- ===== src/Bits/Mask.antt =====
-- `&` with a mask of low ones, and with a single bit.
use native.Mathlib.Nat.{pow-suc, one-le-pow, div-add-mod, mul_comm, mod-lt}
use ms605_ble.Prelude.{
  ℕ, zero, suc, ◌+◌, ◌-◌, ◌*◌, ◌/◌, ◌%◌, ◌^◌, ◌≤◌, ◌<◌, bit_and, ◌≡◌, refl, ap, sym, ◌∙◌, arith,
}
use ms605_ble.Bits.Steps.{bit_and_step}

zero_steps : (n a : ℕ) → a ≤ n → bit_and a 0 ≡ 0
zero_steps zero zero p = refl
zero_steps zero (suc a) p = absurd (omega arith)
zero_steps (suc n) a p = omega (arith, bit_and_step a 0, zero_steps n (a / 2) (omega arith))

pub bit_and-zero : (a : ℕ) → bit_and a 0 ≡ 0
bit_and-zero a = zero_steps a a (omega arith)

-- With `q` the higher part and `r` the lower one.
mask_parts : (k q r : ℕ) → r < 2 ^ k → bit_and (q * 2 ^ k + r) (2 ^ k - 1) ≡ r
mask_parts zero q r fits = omega (arith, bit_and-zero (q * 2 ^ zero + r))
mask_parts (suc k) q r fits = omega (
  arith,
  bit_and_step (q * 2 ^ suc k + r) (2 ^ suc k - 1),
  ap (λ (t : ℕ). q * t) (pow-suc 2 k),
  pow-suc 2 k,
  one-le-pow k 2,
  ap (λ (t : ℕ). bit_and t (2 ^ k - 1)) half,
  ap (λ (t : ℕ). bit_and ((q * 2 ^ suc k + r) / 2) t) half_mask,
  mask_parts k q (r / 2) (omega (arith, pow-suc 2 k)),
)
  where
    half : (q * 2 ^ suc k + r) / 2 ≡ q * 2 ^ k + r / 2
    half = omega (arith, ap (λ (t : ℕ). q * t) (pow-suc 2 k))

    half_mask : (2 ^ suc k - 1) / 2 ≡ 2 ^ k - 1
    half_mask = omega (arith, pow-suc 2 k, one-le-pow k 2)

-- `& 0xFF`, `& 0xFFFF` and the like are remainders.
pub bit_and_mask : (k a : ℕ) → bit_and a (2 ^ k - 1) ≡ a % 2 ^ k
bit_and_mask k a = ap (λ (t : ℕ). bit_and t (2 ^ k - 1)) (sym parts) ∙ low
  where
    parts : a / 2 ^ k * 2 ^ k + a % 2 ^ k ≡ a
    parts = grind (arith, div-add-mod, mul_comm)

    low : bit_and (a / 2 ^ k * 2 ^ k + a % 2 ^ k) (2 ^ k - 1) ≡ a % 2 ^ k
    low = mask_parts k (a / 2 ^ k) (a % 2 ^ k) (mod-lt a (one-le-pow k 2 (omega arith)))

-- The binary digit `k` of a number.
abbrev pub digit : ℕ → ℕ → ℕ
digit zero a = a % 2
digit (suc k) a = digit k (a / 2)

pub digit-lt : (k a : ℕ) → digit k a < 2
digit-lt zero a = omega arith
digit-lt (suc k) a = digit-lt k (a / 2)

-- `&` with one bit keeps that digit.
pub bit_and-pow : (k a : ℕ) → bit_and a (2 ^ k) ≡ digit k a * 2 ^ k
bit_and-pow zero a = omega (arith, bit_and_step a 1, bit_and-zero (a / 2))
bit_and-pow (suc k) a = omega (
  arith,
  pow-suc 2 k,
  bit_and_step a (2 ^ suc k),
  ap (λ (t : ℕ). bit_and (a / 2) t) half,
  bit_and-pow k (a / 2),
  ap (λ (t : ℕ). digit k (a / 2) * t) (pow-suc 2 k),
)
  where
    half : 2 ^ suc k / 2 ≡ 2 ^ k
    half = omega (arith, pow-suc 2 k)
