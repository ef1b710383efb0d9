-- ===== src/Models/Fields/Pairs.antt =====
-- Rows of pairs: what is written is read back, and what is read was written so.
use ms605_ble.Prelude.{
  ℕ, zero, suc, ◌+◌, ◌-◌, ◌*◌, ◌<◌, ◌≤◌, ℤ, pos, negsuc, List, [], ◌∷◌, ◌++◌, map, length, take,
  drop, All, Result, ok, err, struct_error, ◌>>=◌, ◌≡◌, refl, sym, ap, ◌∙◌, arith, drop-drop,
  >>=-eq-ok,
}
use ms605_ble.Bytes.{AreBytes, u16_value, u16_bytes, unpack_u16, pack_u16}
use ms605_ble.Bytes.Laws.{u16_value-bytes, u16_bytes-value, pack_u16-ok}
use ms605_ble.Models.Fields.{read_u16, read_pairs, check_u16, write_pairs}

abbrev pub pairs_bytes : List (ℕ × ℕ) → List ℕ
pairs_bytes [] = []
pairs_bytes ((a, b) ∷ pairs) = u16_bytes a ++ (u16_bytes b ++ pairs_bytes pairs)

-- Both numbers fit sixteen bits.
abbrev pub ArePairs : List (ℕ × ℕ) → Type 0
ArePairs = All (λ (p : ℕ × ℕ). (p.0 < 65536) × (p.1 < 65536))

abbrev pub pair_arg : ℕ × ℕ → ℤ × ℤ
pair_arg (a, b) = (pos a, pos b)

-- The loop on what stands from its place on.
unfoldable pub pairs_rest : ℕ → List ℕ → Result (List (ℕ × ℕ))
pairs_rest zero rest = ok []
pairs_rest (suc n) (a ∷ b ∷ c ∷ d ∷ rest) =
    pairs_rest n rest >>= λ pairs. ok ((u16_value a b, u16_value c d) ∷ pairs)
pairs_rest (suc n) _ = err struct_error

pub field_at :
    (value : List ℕ) (i : ℕ) (rest : List ℕ)
    → drop i value ≡ rest
    → read_u16 value i ≡ unpack_u16 (take 2 rest)
unfolding read_u16
field_at value i rest e =
    ap (λ n. unpack_u16 (take n (drop i value))) (let q : i + 2 - i ≡ 2 = omega arith in q)
    ∙ ap (λ r. unpack_u16 (take 2 r)) e

pub drop_more :
    (k i : ℕ) (value rest : List ℕ) → drop i value ≡ rest → drop (i + k) value ≡ drop k rest
drop_more k i value rest e = sym (drop-drop k i value) ∙ ap (drop k) e

pub read_pairs-eq_rest :
    (n i : ℕ) (value rest : List ℕ)
    → drop (i * 4) value ≡ rest
    → read_pairs n i value ≡ pairs_rest n rest
unfolding read_pairs pairs_rest
read_pairs-eq_rest zero i value rest e = refl
read_pairs-eq_rest (suc n) i value [] e = ground (arith, field_at value (i * 4) [] e)
read_pairs-eq_rest (suc n) i value (a ∷ []) e = ground (arith, field_at value (i * 4) (a ∷ []) e)
read_pairs-eq_rest (suc n) i value (a ∷ b ∷ []) e = ground (
  arith,
  field_at value (i * 4) (a ∷ b ∷ []) e,
  field_at value (i * 4 + 2) [] (drop_more 2 (i * 4) value _ e),
)
read_pairs-eq_rest (suc n) i value (a ∷ b ∷ c ∷ []) e = ground (
  arith,
  field_at value (i * 4) (a ∷ b ∷ c ∷ []) e,
  field_at value (i * 4 + 2) (c ∷ []) (drop_more 2 (i * 4) value _ e),
)
read_pairs-eq_rest (suc n) i value (a ∷ b ∷ c ∷ d ∷ rest) e = ground (
  arith,
  field_at value (i * 4) (a ∷ b ∷ c ∷ d ∷ rest) e,
  field_at value (i * 4 + 2) (c ∷ d ∷ rest) (drop_more 2 (i * 4) value _ e),
  read_pairs-eq_rest n (i + 1) value rest (
      ap (λ k. drop k value) (let q : (i + 1) * 4 ≡ i * 4 + 4 = omega arith in q)
      ∙ drop_more 4 (i * 4) value _ e),
)

-- Reading stops where it has its pairs, whatever follows.
pub pairs_rest-bytes :
    (pairs : List (ℕ × ℕ)) (tail : List ℕ)
    → pairs_rest (length pairs) (pairs_bytes pairs ++ tail) ≡ ok pairs
unfolding pairs_rest
pairs_rest-bytes [] tail = refl
pairs_rest-bytes ((a, b) ∷ pairs) tail =
    rw (pairs_rest-bytes pairs tail, u16_value-bytes a, u16_value-bytes b)

pub pairs_rest-ok :
    (n : ℕ) (rest : List ℕ) (pairs : List (ℕ × ℕ))
    → AreBytes rest
    → pairs_rest n rest ≡ ok pairs
    → (length pairs ≡ n) × ArePairs pairs × (rest ≡ pairs_bytes pairs ++ drop (n * 4) rest)
unfolding pairs_rest
pairs_rest-ok zero rest pairs b h = (ground arith, ground arith, ground arith)
pairs_rest-ok (suc n) [] pairs b h = absurd (cc h)
pairs_rest-ok (suc n) (a ∷ []) pairs b h = absurd (cc h)
pairs_rest-ok (suc n) (a ∷ c ∷ []) pairs b h = absurd (cc h)
pairs_rest-ok (suc n) (a ∷ c ∷ d ∷ []) pairs b h = absurd (cc h)
pairs_rest-ok (suc n) (a ∷ c ∷ d ∷ e ∷ rest) pairs b h =
    let (later, read, q) = >>=-eq-ok (pairs_rest n rest) _ h in
    let (len, fits, whole) = pairs_rest-ok n rest later b.1.1.1.1 read in
    let same : (u16_value a c, u16_value d e) ∷ later ≡ pairs = cc q in
    let behind : drop (suc n * 4) (a ∷ c ∷ d ∷ e ∷ rest) ≡ drop (n * 4) rest =
      ap (λ k. drop k (a ∷ c ∷ d ∷ e ∷ rest))
        (let k : suc n * 4 ≡ suc (suc (suc (suc (n * 4)))) = omega arith in k) in
    rw (← same, behind)
      (
        omega arith,
        (
          (
            (let p : u16_value a c < 65536 = omega arith in p),
            (let p : u16_value d e < 65536 = omega arith in p),
          ),
          fits,
        ),
        cc (whole, u16_bytes-value a c b.1.0, u16_bytes-value d e b.1.1.1.0),
      )

-- Enough bytes are read, whatever they are.
pub pairs_rest-total :
    (n : ℕ) (rest : List ℕ)
    → n * 4 ≤ length rest
    → (pairs : List (ℕ × ℕ)) × (pairs_rest n rest ≡ ok pairs)
unfolding pairs_rest
pairs_rest-total zero rest h = ([], refl)
pairs_rest-total (suc n) [] h = absurd (omega arith)
pairs_rest-total (suc n) (a ∷ []) h = absurd (omega arith)
pairs_rest-total (suc n) (a ∷ c ∷ []) h = absurd (omega arith)
pairs_rest-total (suc n) (a ∷ c ∷ d ∷ []) h = absurd (omega arith)
pairs_rest-total (suc n) (a ∷ c ∷ d ∷ e ∷ rest) h =
    let (pairs, read) = pairs_rest-total n rest (omega arith) in
    ((u16_value a c, u16_value d e) ∷ pairs, rw read)

check_u16-ok : (z : ℤ) (n : ℕ) → check_u16 z ≡ ok n → (z ≡ pos n) × (n < 65536)
unfolding check_u16
check_u16-ok (pos m) n h = ground arith
check_u16-ok (negsuc m) n h = cc

-- The encoders' loop succeeds on the pairs that fit, and writes their bytes.
pub write_pairs-bytes :
    (pairs : List (ℕ × ℕ))
    → ArePairs pairs
    → write_pairs (map pair_arg pairs) ≡ ok (pairs_bytes pairs)
unfolding write_pairs
write_pairs-bytes [] h = refl
write_pairs-bytes ((a, b) ∷ pairs) h =
    ground (arith, pack_u16-ok a, pack_u16-ok b, write_pairs-bytes pairs h.1)

pub write_pairs-ok :
    (args : List (ℤ × ℤ)) (bs : List ℕ)
    → write_pairs args ≡ ok bs
    → (pairs : List (ℕ × ℕ)) × (map pair_arg pairs ≡ args)
      × (bs ≡ pairs_bytes pairs)
      × ArePairs pairs
unfolding write_pairs
write_pairs-ok [] bs h = ([], refl, ground arith, tt)
write_pairs-ok ((y, z) ∷ args) bs h =
    let (m, hm, h1) = >>=-eq-ok (check_u16 y) _ h in
    let (n, hn, h2) = >>=-eq-ok (check_u16 z) _ h1 in
    let (xm, hxm, h3) = >>=-eq-ok (pack_u16 m) _ h2 in
    let (xn, hxn, h4) = >>=-eq-ok (pack_u16 n) _ h3 in
    let (rest, hr, e) = >>=-eq-ok (write_pairs args) (λ rest. ok (xm ++ (xn ++ rest))) h4 in
    let (ey, ly) = check_u16-ok y m hm in
    let (ez, lz) = check_u16-ok z n hn in
    let (pairs, ea, eb, good) = write_pairs-ok args rest hr in
    (
      (m, n) ∷ pairs,
      cc (ey, ez, ea),
      cc (e, eb, hxm, hxn, pack_u16-ok m ly, pack_u16-ok n lz),
      ((ly, lz), good),
    )
