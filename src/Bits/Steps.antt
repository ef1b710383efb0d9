-- ===== src/Bits/Steps.antt =====
-- Python's `&`, `|` and `^` on numbers that are not negative, one binary digit at a time. The
-- native operations stand for a recursion on digits whose count of steps is the first number.
use Prim.Native.Nat.{digits, bitwise, differ, bit_and-bitwise, bit_or-bitwise, bit_xor-bitwise}
use ms605_ble.Prelude.{
  ℕ, zero, suc, ◌+◌, ◌*◌, ◌/◌, ◌%◌, ◌≤◌, ◌<◌, min, max, bit_and, bit_or, bit_xor, ◌≡◌, refl, arith,
}

module _ (z : ℕ → ℕ) (f : ℕ → ℕ → ℕ) where
  -- Two counts of steps that both cover the first number give the same digits.
  counts_agree : (a b n m : ℕ) → a ≤ m → a ≤ n → digits z f n a b ≡ digits z f m a b
  counts_agree zero b zero zero _ _ = refl
  counts_agree zero b zero (suc m) _ _ = refl
  counts_agree zero b (suc n) zero _ _ = refl
  counts_agree zero b (suc n) (suc m) _ _ = refl
  counts_agree (suc a) b zero m _ k = absurd (omega arith)
  counts_agree (suc a) b (suc n) zero h _ = absurd (omega arith)
  counts_agree (suc a) b (suc n) (suc m) h k =
      let halves = counts_agree (suc a / 2) (b / 2) n m (omega arith) (omega arith) in rw halves

  lowest_digit :
      (m n : ℕ)
      → f (suc m % 2) (n % 2) + 2 * bitwise z f (suc m / 2) (n / 2) ≡ bitwise z f (suc m) n
  lowest_digit m n =
      omega (arith, counts_agree (suc m / 2) (n / 2) m (suc m / 2) (omega arith) (omega arith))

differ_digit : (x y : ℕ) → x < 2 → y < 2 → differ x y ≡ (x + y) % 2
differ_digit zero zero p q = refl
differ_digit zero (suc zero) p q = refl
differ_digit (suc zero) zero p q = refl
differ_digit (suc zero) (suc zero) p q = refl
differ_digit (suc (suc x)) y p q = absurd (omega arith)
differ_digit x (suc (suc y)) p q = absurd (omega arith)

pub bit_xor_step : (m n : ℕ) → bit_xor m n ≡ (m + n) % 2 + 2 * bit_xor (m / 2) (n / 2)
bit_xor_step zero n = simp bit_xor-bitwise (omega arith)
bit_xor_step (suc m) n = omega (
  arith,
  bit_xor-bitwise (suc m) n,
  bit_xor-bitwise (suc m / 2) (n / 2),
  lowest_digit (λ y. y) differ m n,
  differ_digit (suc m % 2) (n % 2) (omega arith) (omega arith),
)

pub bit_and_step : (m n : ℕ) → bit_and m n ≡ min (m % 2) (n % 2) + 2 * bit_and (m / 2) (n / 2)
bit_and_step zero n = omega (arith, bit_and-bitwise 0 n, bit_and-bitwise 0 (n / 2))
bit_and_step (suc m) n = omega (
  arith,
  bit_and-bitwise (suc m) n,
  bit_and-bitwise (suc m / 2) (n / 2),
  lowest_digit (λ y. 0) min m n,
)

pub bit_or_step : (m n : ℕ) → bit_or m n ≡ max (m % 2) (n % 2) + 2 * bit_or (m / 2) (n / 2)
bit_or_step zero n = omega (arith, bit_or-bitwise 0 n, bit_or-bitwise 0 (n / 2))
bit_or_step (suc m) n = omega (
  arith,
  bit_or-bitwise (suc m) n,
  bit_or-bitwise (suc m / 2) (n / 2),
  lowest_digit (λ y. y) max m n,
)
