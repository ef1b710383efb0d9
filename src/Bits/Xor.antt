-- ===== src/Bits/Xor.antt =====
-- `^`: its bound, its lowest digit, and that it can be cancelled on either side.
use native.Mathlib.Nat.{pow-suc}
use ms605_ble.Prelude.{
  ℕ, zero, suc, ◌+◌, ◌*◌, ◌/◌, ◌%◌, ◌^◌, ◌≤◌, ◌<◌, max, bit_xor, ◌≡◌, refl, ap, ap₂, arith,
}
use ms605_ble.Bits.Steps.{bit_xor_step}

-- The numbers of `k` digits are closed under `^`.
pub bit_xor_bound : (k a b : ℕ) → a < 2 ^ k → b < 2 ^ k → bit_xor a b < 2 ^ k
bit_xor_bound zero zero zero p q = omega arith
bit_xor_bound zero (suc a) b p q = absurd (omega arith)
bit_xor_bound zero a (suc b) p q = absurd (omega arith)
bit_xor_bound (suc k) a b p q = omega (
  arith,
  pow-suc 2 k,
  bit_xor_step a b,
  bit_xor_bound k (a / 2) (b / 2) (omega (arith, pow-suc 2 k)) (omega (arith, pow-suc 2 k)),
)

pub bit_xor_parity : (a b : ℕ) → bit_xor a b % 2 ≡ (a + b) % 2
bit_xor_parity a b = omega (arith, bit_xor_step a b)

bit_xor_comm_steps : (n a b : ℕ) → a ≤ n → b ≤ n → bit_xor a b ≡ bit_xor b a
bit_xor_comm_steps zero zero zero p q = refl
bit_xor_comm_steps zero (suc a) b p q = absurd (omega arith)
bit_xor_comm_steps zero a (suc b) p q = absurd (omega arith)
bit_xor_comm_steps (suc n) a b p q = omega (
  arith,
  bit_xor_step a b,
  bit_xor_step b a,
  bit_xor_comm_steps n (a / 2) (b / 2) (omega arith) (omega arith),
)

pub bit_xor_comm : (a b : ℕ) → bit_xor a b ≡ bit_xor b a
bit_xor_comm a b = bit_xor_comm_steps (max a b) a b (omega arith) (omega arith)

cancel_steps : (n a b c : ℕ) → a ≤ n → c ≤ n → bit_xor a b ≡ bit_xor c b → a ≡ c
cancel_steps zero a b c p q e = omega arith
cancel_steps (suc n) a b c p q e = omega (
  arith,
  bit_xor_step a b,
  bit_xor_step c b,
  cancel_steps n (a / 2) (b / 2) (c / 2) (omega arith) (omega arith)
      (omega (arith, bit_xor_step a b, bit_xor_step c b)),
)

pub bit_xor_cancel_right : (a b c : ℕ) → bit_xor a b ≡ bit_xor c b → a ≡ c
bit_xor_cancel_right a b c e = cancel_steps (max a c) a b c (omega arith) (omega arith) e

pub bit_xor_cancel_left : (a b c : ℕ) → bit_xor a b ≡ bit_xor a c → b ≡ c
bit_xor_cancel_left a b c e =
    bit_xor_cancel_right b a c (omega (arith, bit_xor_comm a b, bit_xor_comm a c))

zero_steps : (n a : ℕ) → a ≤ n → bit_xor a 0 ≡ a
zero_steps zero zero p = refl
zero_steps zero (suc a) p = absurd (omega arith)
zero_steps (suc n) a p = omega (arith, bit_xor_step a 0, zero_steps n (a / 2) (omega arith))

pub bit_xor_zero : (a : ℕ) → bit_xor a 0 ≡ a
bit_xor_zero a = zero_steps a a (omega arith)

-- A second number of `k` digits leaves the higher part of the first alone.
pub bit_xor_parts :
    (k q r b : ℕ) → r < 2 ^ k → b < 2 ^ k → bit_xor (q * 2 ^ k + r) b ≡ q * 2 ^ k + bit_xor r b
bit_xor_parts zero q r b p s = omega (
  arith,
  bit_xor_zero q,
  ap₂ bit_xor (let e : q * 2 ^ zero + r ≡ q = omega arith in e) (let e : b ≡ 0 = omega arith in e),
  ap₂ bit_xor (let e : r ≡ 0 = omega arith in e) (let e : b ≡ 0 = omega arith in e),
  bit_xor_zero 0,
)
bit_xor_parts (suc k) q r b p s = omega (
  arith,
  bit_xor_step (q * 2 ^ suc k + r) b,
  bit_xor_step r b,
  ap (λ (t : ℕ). q * t) (pow-suc 2 k),
  ap (λ (t : ℕ). bit_xor t (b / 2)) half,
  bit_xor_parts k q (r / 2) (b / 2) (omega (arith, pow-suc 2 k)) (omega (arith, pow-suc 2 k)),
)
  where
    half : (q * 2 ^ suc k + r) / 2 ≡ q * 2 ^ k + r / 2
    half = omega (arith, ap (λ (t : ℕ). q * t) (pow-suc 2 k))
