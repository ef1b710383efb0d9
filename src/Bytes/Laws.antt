-- ===== src/Bytes/Laws.antt =====
-- Laws of slices, of byte comparison and of the two-byte fields.
use ms605_ble.Prelude.{
  ◌≤◌, drop, drop-append_le, take-append_le, length-drop, ℕ, ◌+◌, ◌-◌, ◌/◌, ◌%◌, ◌<◌, List, [], ◌∷◌,
  ◌++◌, true, ◌≡◌, refl, ap, ◌∙◌, take, length, ok, arith, take-append, drop-append,
}
use ms605_ble.Bytes.{slice, bytes_eq, u16_bytes, u16_value, pack_u16}

pub bytes_eq_refl : (xs : List ℕ) → bytes_eq xs xs ≡ true
bytes_eq_refl [] = refl
bytes_eq_refl (x ∷ xs) = ground (arith, bytes_eq_refl xs)

pub bytes_eq→eq : (xs ys : List ℕ) → bytes_eq xs ys ≡ true → xs ≡ ys
bytes_eq→eq [] [] h = refl
bytes_eq→eq [] (y ∷ ys) h = cc
bytes_eq→eq (x ∷ xs) [] h = cc
bytes_eq→eq (x ∷ xs) (y ∷ ys) h = ground (arith, bytes_eq→eq xs ys)

-- The part of a list behind a prefix.
pub slice-append :
    (n m : ℕ) (xs ys zs : List ℕ)
    → n ≡ length xs
    → m ≡ length xs + length ys
    → slice n m (xs ++ (ys ++ zs)) ≡ ys
slice-append n m xs ys zs p q =
    ap (take (m - n)) (drop-append n xs (ys ++ zs) p) ∙ take-append (m - n) ys zs (omega arith)

pub pack_u16-ok : (n : ℕ) → n < 65536 → pack_u16 n ≡ ok (u16_bytes n)
unfolding pack_u16
pack_u16-ok n h = ground arith

-- What was packed is read back.
pub u16_value-bytes : (n : ℕ) → u16_value (n / 256) (n % 256) ≡ n
u16_value-bytes n = omega arith

-- What was read is packed back, if it was two bytes.
pub u16_bytes-value : (hi lo : ℕ) → lo < 256 → u16_bytes (u16_value hi lo) ≡ hi ∷ lo ∷ []
u16_bytes-value hi lo h = ground arith

-- A slice that lies in the first list does not see the second one.
pub slice-append_le :
    (i j : ℕ) (xs ys : List ℕ) → i ≤ j → j ≤ length xs → slice i j (xs ++ ys) ≡ slice i j xs
slice-append_le i j xs ys h k =
    ap (take (j - i)) (drop-append_le i xs ys (omega arith))
    ∙ take-append_le (j - i) (drop i xs) ys (omega (arith, length-drop i xs))
