-- ===== src/Bytes.antt =====
-- Python's `bytes` as lists of numbers below 256, and the parts of `struct` that the package
-- calls: big-endian fields of two and four bytes, unsigned and signed.
pub mod Laws
use ms605_ble.Prelude.{
  ℕ, zero, suc, ◌+◌, ◌-◌, ◌*◌, ◌/◌, ◌%◌, ◌<◌, List, [], ◌∷◌, Option, none, some, Bool, true, false,
  ◌&&◌, ◌==◌, ltb, if◌then◌else◌, take, drop, length, Result, ok, err, index_error, struct_error,
  All,
}

abbrev pub IsByte : ℕ → Type 0
IsByte b = b < 256

abbrev pub AreBytes : List ℕ → Type 0
AreBytes = All IsByte

-- `xs[i:j]`
abbrev pub slice {ℓ} : {A : Type ℓ} → ℕ → ℕ → List A → List A
slice i j xs = take (j - i) (drop i xs)

abbrev pub first {ℓ} : {A : Type ℓ} → List A → Result A
first [] = err index_error
first (x ∷ xs) = ok x

-- `xs[i]`
abbrev pub get_item {ℓ} : {A : Type ℓ} → List A → ℕ → Result A
get_item xs i = first (drop i xs)

-- `xs == ys`
abbrev pub bytes_eq : List ℕ → List ℕ → Bool
bytes_eq [] [] = true
bytes_eq [] (y ∷ ys) = false
bytes_eq (x ∷ xs) [] = false
bytes_eq (x ∷ xs) (y ∷ ys) = x == y && bytes_eq xs ys

abbrev pub u16_bytes : ℕ → List ℕ
u16_bytes n = n / 256 ∷ n % 256 ∷ []

abbrev pub u16_value : ℕ → ℕ → ℕ
u16_value hi lo = hi * 256 + lo

-- `struct.pack(">H", n)`
unfoldable pub pack_u16 : ℕ → Result (List ℕ)
pack_u16 n = if ltb n 65536 then ok (u16_bytes n) else err struct_error

-- `struct.unpack(">H", xs)[0]`, which wants exactly two bytes
abbrev pub unpack_u16 : List ℕ → Result ℕ
unpack_u16 (hi ∷ lo ∷ []) = ok (u16_value hi lo)
unpack_u16 _ = err struct_error
