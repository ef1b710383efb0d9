-- ===== src/Models/Fields.antt =====
-- Fields inside a payload: `struct.unpack_from` at an offset, rows of (u16, u16) pairs, and the range
-- checks of the encoders.
pub mod Pairs
use ms605_ble.Prelude.{
  ℕ, zero, suc, ◌+◌, ◌-◌, ◌*◌, ℤ, pos, negsuc, List, [], ◌∷◌, ◌++◌, leb, ltb, if◌then◌else◌, Result,
  ok, err, Error, value_error, struct_error, ◌>>=◌,
}
use ms605_ble.Bytes.{slice, u16_value, unpack_u16, pack_u16}

-- `struct.unpack_from(">H", value, offset)[0]`
unfoldable pub read_u16 : List ℕ → ℕ → Result ℕ
read_u16 value offset = unpack_u16 (slice offset (offset + 2) value)

-- The sixteen bits of a field as the signed number that they stand for.
unfoldable pub signed_u16 : ℕ → ℤ
signed_u16 n = if ltb n 0x8000 then pos n else negsuc (0xFFFF - n)

-- `struct.unpack_from(">h", value, offset)[0]`
unfoldable pub read_i16 : List ℕ → ℕ → Result ℤ
unfolding read_u16 signed_u16
read_i16 value offset = do n ← read_u16 value offset; ok (signed_u16 n)

-- `struct.unpack(">I", xs)[0]`, which wants exactly four bytes
abbrev pub unpack_u32 : List ℕ → Result ℕ
unpack_u32 (a ∷ b ∷ c ∷ d ∷ []) = ok (u16_value a b * 65536 + u16_value c d)
unpack_u32 _ = err struct_error

-- `struct.unpack_from(">I", value, offset)[0]`
unfoldable pub read_u32 : List ℕ → ℕ → Result ℕ
read_u32 value offset = unpack_u32 (slice offset (offset + 4) value)

-- `for i in range(i, i + rounds): struct.unpack_from(">HH", value, i * 4)`
unfoldable pub read_pairs : ℕ → ℕ → List ℕ → Result (List (ℕ × ℕ))
unfolding read_u16
read_pairs zero i value = ok []
read_pairs (suc rounds) i value = do
  a ← read_u16 value (i * 4)
  b ← read_u16 value (i * 4 + 2)
  rest ← read_pairs rounds (i + 1) value
  ok ((a, b) ∷ rest)

-- `0 <= x <= 0xFFFF`, or the ValueError that the encoders raise
unfoldable pub check_u16 : ℤ → Result ℕ
check_u16 (pos n) = if leb n 0xFFFF then ok n else err value_error
check_u16 (negsuc n) = err value_error

-- `for a, b in pairs: ... out += struct.pack(">HH", a, b)`
unfoldable pub write_pairs : List (ℤ × ℤ) → Result (List ℕ)
unfolding check_u16 pack_u16
write_pairs [] = ok []
write_pairs ((a, b) ∷ pairs) = do
  m ← check_u16 a
  n ← check_u16 b
  x ← pack_u16 m
  y ← pack_u16 n
  rest ← write_pairs pairs
  ok (x ++ (y ++ rest))
