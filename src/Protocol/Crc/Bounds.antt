-- ===== src/Protocol/Crc/Bounds.antt =====
-- The checksum register stays within sixteen bits, and one round in closed form.
use ms605_ble.Prelude.{
  ℕ, zero, suc, ◌+◌, ◌-◌, ◌*◌, ◌%◌, ◌^◌, ◌≤◌, ◌<◌, List, [], ◌∷◌, bit_and, bit_xor, ◌==◌, ltb,
  if◌then◌else◌, ◌≡◌, ap, arith, inl, inr, lt_or_le,
}
use ms605_ble.Bits.Mask.{bit_and_mask, bit_and-pow}
use ms605_ble.Bits.Xor.{bit_xor_bound, bit_xor_parts}
use ms605_ble.Protocol.Crc.{crc_round, crc_rounds, crc_byte, crc_bytes, crc16_ccitt_false}

-- `& 0xFFFF` is the remainder by 65536.
word_mask : (a : ℕ) → bit_and a 0xFFFF ≡ a % 65536
word_mask a = bit_and_mask 16 a

pub byte_mask : (a : ℕ) → bit_and a 0xFF ≡ a % 256
byte_mask a = bit_and_mask 8 a

-- The test of the top bit, on a register of sixteen bits.
top_bit : (a : ℕ) → a < 65536 → (bit_and a 0x8000 == 0) ≡ ltb a 0x8000
top_bit a h = ground (arith, bit_and-pow 15 a)

-- A set top bit is shifted out of the register.
overflow :
    (a : ℕ)
    → 0x8000 ≤ a
    → a < 65536
    → bit_xor (a * 2 ^ 1) 0x1021 ≡ 65536 + bit_xor (2 * a - 65536) 0x1021
overflow a h k = omega (
  arith,
  ap (λ (t : ℕ). bit_xor t 0x1021) carried,
  bit_xor_parts 16 1 (2 * a - 65536) 0x1021 (omega arith) (omega arith),
)
  where
    carried : a * 2 ^ 1 ≡ 1 * 2 ^ 16 + (2 * a - 65536)
    carried = omega arith

-- The register after a round: doubled, and with the polynomial taken off if it overflowed.
pub crc_round-eq :
    (a : ℕ)
    → a < 65536
    → crc_round a ≡ (if ltb a 0x8000 then 2 * a else bit_xor (2 * a - 65536) 0x1021)
unfolding crc_round
crc_round-eq a h = elim (lt_or_le a 0x8000) [
  | inl low ↦ ground (arith, top_bit a h, word_mask (a * 2 ^ 1))
  | inr high ↦ ground (
    arith,
    top_bit a h,
    overflow a high h,
    word_mask (bit_xor (a * 2 ^ 1) 0x1021),
    bit_xor_bound 16 (2 * a - 65536) 0x1021 (omega arith) (omega arith),
  )
]

pub crc_round-lt : (a : ℕ) → crc_round a < 65536
unfolding crc_round
crc_round-lt a = ground (arith, word_mask (a * 2 ^ 1), word_mask (bit_xor (a * 2 ^ 1) 0x1021))

pub crc_rounds-lt : (n a : ℕ) → a < 65536 → crc_rounds n a < 65536
unfolding crc_rounds
crc_rounds-lt zero a h = h
crc_rounds-lt (suc n) a h = crc_rounds-lt n (crc_round a) (crc_round-lt a)

-- What a byte is mixed in as.
pub shifted-lt : (byte : ℕ) → bit_and byte 0xFF * 2 ^ 8 < 65536
shifted-lt byte = omega (arith, byte_mask byte)

pub crc_byte-lt : (a byte : ℕ) → a < 65536 → crc_byte a byte < 65536
crc_byte-lt a byte h =
    unfold crc_byte in
    crc_rounds-lt 8 _ (bit_xor_bound 16 a (bit_and byte 0xFF * 2 ^ 8) h (shifted-lt byte))

pub crc_bytes-lt : (a : ℕ) (xs : List ℕ) → a < 65536 → crc_bytes a xs < 65536
unfolding crc_bytes
crc_bytes-lt a [] h = h
crc_bytes-lt a (x ∷ xs) h = crc_bytes-lt (crc_byte a x) xs (crc_byte-lt a x h)

-- The closing mask changes nothing.
pub crc16_ccitt_false-eq : (xs : List ℕ) → crc16_ccitt_false xs ≡ crc_bytes 0xFFFF xs
unfolding crc16_ccitt_false
crc16_ccitt_false-eq xs =
    omega (arith, word_mask (crc_bytes 0xFFFF xs), crc_bytes-lt 0xFFFF xs (omega arith))

-- The checksum of any data fits the two bytes that a frame has for it.
pub crc16_ccitt_false-lt : (xs : List ℕ) → crc16_ccitt_false xs < 65536
crc16_ccitt_false-lt xs =
    omega (arith, crc16_ccitt_false-eq xs, crc_bytes-lt 0xFFFF xs (omega arith))
