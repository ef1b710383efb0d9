-- ===== src/Protocol/Crc.antt =====
-- `crc16_ccitt_false` of ms605/protocol.py: CRC-16/CCITT-FALSE, bit by bit.
pub mod Bounds
pub mod Detect
use ms605_ble.Prelude.{
  ℕ, zero, suc, ◌*◌, ◌^◌, List, [], ◌∷◌, bit_and, bit_xor, ◌==◌, if◌then◌else◌, ◌≡◌, refl,
}

-- One round of the inner loop: shift left, and take the polynomial off if the top bit was set.
pub crc_round : ℕ → ℕ
crc_round crc =
    if bit_and crc 0x8000 == 0
    then bit_and (crc * 2 ^ 1) 0xFFFF
    else bit_and (bit_xor (crc * 2 ^ 1) 0x1021) 0xFFFF

-- `for _ in range(n)`
pub crc_rounds : ℕ → ℕ → ℕ
crc_rounds zero crc = crc
crc_rounds (suc n) crc = crc_rounds n (crc_round crc)

-- The body of the outer loop, for one byte.
pub crc_byte : ℕ → ℕ → ℕ
unfolding crc_rounds crc_round
crc_byte crc byte = crc_rounds 8 (bit_xor crc (bit_and byte 0xFF * 2 ^ 8))

-- `for byte in data`
pub crc_bytes : ℕ → List ℕ → ℕ
unfolding crc_byte
crc_bytes crc [] = crc
crc_bytes crc (byte ∷ data') = crc_bytes (crc_byte crc byte) data'

unfoldable pub crc16_ccitt_false : List ℕ → ℕ
unfolding crc_bytes
crc16_ccitt_false data' = bit_and (crc_bytes 0xFFFF data') 0xFFFF

-- The standard check value, of the bytes "123456789".
check_value :
    crc16_ccitt_false (0x31 ∷ 0x32 ∷ 0x33 ∷ 0x34 ∷ 0x35 ∷ 0x36 ∷ 0x37 ∷ 0x38 ∷ 0x39 ∷ []) ≡ 0x29B1
unfolding crc16_ccitt_false
check_value = refl
