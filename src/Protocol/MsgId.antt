-- ===== src/Protocol/MsgId.antt =====
-- `msg_id_sequence` of ms605/protocol.py: the numbers that commands carry, 1 to 255 and round
-- again. The generator's state is the number that it yields next.
use ms605_ble.Prelude.{
  ℕ, zero, suc, ◌+◌, ◌-◌, ◌%◌, ◌<◌, ◌≤◌, ℤ, pos, negsuc, leb, ◌&&◌, ◌==◌, if◌then◌else◌, Result, ok,
  err, value_error, ◌≡◌, arith,
}

-- The check on `start`, which is made when the first number is asked for.
unfoldable pub msg_id_sequence : ℤ → Result ℕ
msg_id_sequence (pos n) = if leb 1 n && leb n 255 then ok n else err value_error
msg_id_sequence (negsuc n) = err value_error

-- `n = 1 if n == 255 else n + 1`
pub next_msg_id : ℕ → ℕ
next_msg_id n = if n == 255 then 1 else n + 1

-- The number that is yielded after `k` others.
unfoldable pub nth_msg_id : ℕ → ℕ → ℕ
unfolding next_msg_id
nth_msg_id start zero = start
nth_msg_id start (suc k) = next_msg_id (nth_msg_id start k)

nth_msg_id-eq :
    (start k : ℕ) → 1 ≤ start → start ≤ 255 → nth_msg_id start k ≡ (start - 1 + k) % 255 + 1
unfolding nth_msg_id
nth_msg_id-eq start zero h h' = omega arith
nth_msg_id-eq start (suc k) h h' = ground (arith, nth_msg_id-eq start k h h')

-- From a start that the check admits, the number in place `k` is `(start - 1 + k) % 255 + 1`. So it
-- lies in 1 to 255, is never the 0 of a push, and two places have the same number only if they are a
-- multiple of 255 apart.
pub nth_msg_id_cycle :
    (z : ℤ) (start k : ℕ)
    → msg_id_sequence z ≡ ok start
    → (z ≡ pos start)
      × (nth_msg_id start k ≡ (start - 1 + k) % 255 + 1)
      × (1 ≤ nth_msg_id start k)
      × (nth_msg_id start k ≤ 255)
      × ((d : ℕ) → nth_msg_id start (k + d) ≡ nth_msg_id start k → d % 255 ≡ 0)
unfolding msg_id_sequence
nth_msg_id_cycle (pos n) start k h =
    let e : n ≡ start = ground (arith, h) in
    let low : 1 ≤ start = ground (arith, h) in
    let high : start ≤ 255 = ground (arith, h) in
    let at = nth_msg_id-eq start k low high in
    (
      ground (arith, h),
      at,
      omega arith,
      omega arith,
      λ d same. omega (arith, nth_msg_id-eq start (k + d) low high),
    )
nth_msg_id_cycle (negsuc n) start k h = absurd (cc h)

-- A start outside 1 to 255 is refused.
pub msg_id_sequence-err : (n : ℕ) → 255 < n → msg_id_sequence (pos n) ≡ err value_error
unfolding msg_id_sequence
msg_id_sequence-err n h = ground arith
