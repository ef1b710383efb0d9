-- ===== src/Protocol/Crc/Detect.antt =====
-- The checksum notices every change of a single byte: a round is injective on the register, so two
-- registers that differ stay different, whatever bytes follow.
use ms605_ble.Prelude.{
  ℕ, zero, suc, ◌-◌, ◌*◌, ◌^◌, ◌≤◌, ◌<◌, List, [], ◌∷◌, ◌++◌, bit_and, bit_xor, ◌≡◌, ◌≢◌, arith,
  inl, inr, lt_or_le,
}
use ms605_ble.Bits.Xor.{bit_xor_bound, bit_xor_parity, bit_xor_cancel_left, bit_xor_cancel_right}
use ms605_ble.Protocol.Crc.{crc_round, crc_rounds, crc_byte, crc_bytes, crc16_ccitt_false}
use ms605_ble.Protocol.Crc.Bounds.{
  byte_mask, crc_round-eq, crc_round-lt, crc_byte-lt, shifted-lt, crc16_ccitt_false-eq,
}

-- The polynomial is odd, so the lowest bit tells whether it was taken off.
crc_round_mixed : (a b : ℕ) → a < 0x8000 → 0x8000 ≤ b → b < 65536 → crc_round a ≢ crc_round b
crc_round_mixed a b h k m e =
    ground
      (arith, crc_round-eq a (omega arith), crc_round-eq b m, bit_xor_parity (2 * b - 65536) 0x1021)

crc_round_injective : (a b : ℕ) → a < 65536 → b < 65536 → crc_round a ≡ crc_round b → a ≡ b
crc_round_injective a b h k e = elim (lt_or_le a 0x8000) [
  | inl low_a ↦ elim (lt_or_le b 0x8000) [
    | inl low_b ↦ ground (arith, crc_round-eq a h, crc_round-eq b k)
    | inr high_b ↦ absurd (crc_round_mixed a b low_a high_b k e)
  ]
  | inr high_a ↦ elim (lt_or_le b 0x8000) [
    | inl low_b ↦ absurd (crc_round_mixed b a low_b high_a h (omega arith))
    | inr high_b ↦ ground (
      arith,
      crc_round-eq a h,
      crc_round-eq b k,
      bit_xor_cancel_right (2 * a - 65536) 0x1021 (2 * b - 65536),
    )
  ]
]

crc_rounds_injective : (n a b : ℕ) → a < 65536 → b < 65536 → crc_rounds n a ≡ crc_rounds n b → a ≡ b
unfolding crc_rounds
crc_rounds_injective zero a b h k e = e
crc_rounds_injective (suc n) a b h k e =
    crc_round_injective a b h k
      (crc_rounds_injective n (crc_round a) (crc_round b) (crc_round-lt a) (crc_round-lt b) e)

module _ (a b x y : ℕ) (ha : a < 65536) (hb : b < 65536) (e : crc_byte a x ≡ crc_byte b y) where
  crc_byte_mixed : bit_xor a (bit_and x 0xFF * 2 ^ 8) ≡ bit_xor b (bit_and y 0xFF * 2 ^ 8)
  unfolding crc_byte
  crc_byte_mixed =
      crc_rounds_injective 8 _ _ (bit_xor_bound 16 a _ ha (shifted-lt x))
        (bit_xor_bound 16 b _ hb (shifted-lt y)) e

crc_byte_register : (a b x : ℕ) → a < 65536 → b < 65536 → crc_byte a x ≡ crc_byte b x → a ≡ b
crc_byte_register a b x h k e = bit_xor_cancel_right a _ b (crc_byte_mixed a b x x h k e)

crc_byte_byte : (a x y : ℕ) → a < 65536 → x < 256 → y < 256 → crc_byte a x ≡ crc_byte a y → x ≡ y
crc_byte_byte a x y h p q e = omega (
  arith,
  byte_mask x,
  byte_mask y,
  bit_xor_cancel_left a (bit_and x 0xFF * 2 ^ 8) (bit_and y 0xFF * 2 ^ 8)
      (crc_byte_mixed a a x y h h e),
)

crc_bytes_register :
    (a b : ℕ) (xs : List ℕ) → a < 65536 → b < 65536 → crc_bytes a xs ≡ crc_bytes b xs → a ≡ b
unfolding crc_bytes
crc_bytes_register a b [] h k e = e
crc_bytes_register a b (x ∷ xs) h k e =
    crc_byte_register a b x h k (
      crc_bytes_register (crc_byte a x) (crc_byte b x) xs (crc_byte-lt a x h) (crc_byte-lt b x k) e)

crc_bytes_change :
    (a : ℕ) (xs : List ℕ) (x y : ℕ) (ys : List ℕ)
    → a < 65536
    → x < 256
    → y < 256
    → crc_bytes a (xs ++ x ∷ ys) ≡ crc_bytes a (xs ++ y ∷ ys)
    → x ≡ y
unfolding crc_bytes
crc_bytes_change a [] x y ys h p q e =
    crc_byte_byte a x y h p q (
      crc_bytes_register (crc_byte a x) (crc_byte a y) ys (crc_byte-lt a x h) (crc_byte-lt a y h) e)
crc_bytes_change a (w ∷ xs) x y ys h p q e =
    crc_bytes_change (crc_byte a w) xs x y ys (crc_byte-lt a w h) p q e

-- Two byte strings that differ in exactly one byte have different checksums, wherever the byte
-- stands.
pub crc_detects_byte_change :
    (xs : List ℕ) (x y : ℕ) (ys : List ℕ)
    → x < 256
    → y < 256
    → x ≢ y
    → crc16_ccitt_false (xs ++ x ∷ ys) ≢ crc16_ccitt_false (xs ++ y ∷ ys)
crc_detects_byte_change xs x y ys p q ne e = ne (
    crc_bytes_change 0xFFFF xs x y ys (omega arith) p q
      (omega (arith, crc16_ccitt_false-eq (xs ++ x ∷ ys), crc16_ccitt_false-eq (xs ++ y ∷ ys))))
