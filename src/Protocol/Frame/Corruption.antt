-- ===== src/Protocol/Frame/Corruption.antt =====
-- What the checksum protects: a change of one byte anywhere but in the subdevice byte is noticed.
use ms605_ble.Prelude.{
  ℕ, ◌<◌, List, [], ◌∷◌, ◌++◌, true, false, length, ok, ◌≡◌, ◌≢◌, ◌⊎◌, inl, inr, refl, ap, arith,
  length-append, Bool-cases, All-append_left, append_split, All-append_right, All-append, subst,
  subst₂,
}
use ms605_ble.Bytes.{IsByte, AreBytes, u16_bytes}
use ms605_ble.Protocol.Crc.{crc16_ccitt_false}
use ms605_ble.Protocol.Crc.Detect.{crc_detects_byte_change}
use ms605_ble.Protocol.Frame.{ParsedFrame, parse_frame, magic_tail}
use ms605_ble.Protocol.Frame.Encode.{body_bytes, frame_bytes}
use ms605_ble.Protocol.Frame.Canonical.{parse_frame-read}

-- The lists differ in exactly one place.
abbrev Differ : List ℕ → List ℕ → Type 0
Differ [] ys = ⊥
Differ (x ∷ xs) [] = ⊥
Differ (x ∷ xs) (y ∷ ys) = ((x ≢ y) × (xs ≡ ys)) ⊎ ((x ≡ y) × Differ xs ys)

Differ-change : (xs : List ℕ) (x y : ℕ) (ys : List ℕ) → x ≢ y → Differ (xs ++ x ∷ ys) (xs ++ y ∷ ys)
Differ-change [] x y ys ne = inl (ne, refl)
Differ-change (a ∷ xs) x y ys ne = inr (refl, Differ-change xs x y ys ne)

Differ-irrefl : (xs ys : List ℕ) → xs ≡ ys → ¬ Differ xs ys
Differ-irrefl [] ys e d = d
Differ-irrefl (x ∷ xs) [] e d = d
Differ-irrefl (x ∷ xs) (y ∷ ys) e (inl (ne, _)) = ne (cc e)
Differ-irrefl (x ∷ xs) (y ∷ ys) e (inr (_, d)) = Differ-irrefl xs ys (cc e) d

-- The place lies in the first part or in the second one.
Differ-append :
    (b b' r r' : List ℕ)
    → length b ≡ length b'
    → Differ (b ++ r) (b' ++ r')
    → (Differ b b' × (r ≡ r')) ⊎ ((b ≡ b') × Differ r r')
Differ-append [] [] r r' e d = inr (refl, d)
Differ-append [] (y ∷ b') r r' e d = absurd (omega arith)
Differ-append (x ∷ b) [] r r' e d = absurd (omega arith)
Differ-append (x ∷ b) (y ∷ b') r r' e (inl (ne, same)) =
    let (p, q) = append_split b b' r r' (omega arith) same in inl (inl (ne, p), q)
Differ-append (x ∷ b) (y ∷ b') r r' e (inr (eq, d)) =
    elim (Differ-append b b' r r' (omega arith) d) [
      | inl (db, er) ↦ inl (inr (eq, db), er)
      | inr (eb, dr) ↦ inr (cc, dr)
    ]

Differ-parts :
    (b b' : List ℕ)
    → Differ b b'
    → (xs : List ℕ) × (x : ℕ) × (y : ℕ) × (ys : List ℕ) × (x ≢ y)
      × (b ≡ xs ++ x ∷ ys)
      × (b' ≡ xs ++ y ∷ ys)
Differ-parts [] b' d = absurd d
Differ-parts (x ∷ b) [] d = absurd d
Differ-parts (x ∷ b) (y ∷ b') (inl (ne, e)) = ([], x, y, b', ne, ap (λ t. x ∷ t) e, refl)
Differ-parts (x ∷ b) (y ∷ b') (inr (e, d)) =
    let (xs, u, v, ys, ne, p, q) = Differ-parts b b' d in
    (x ∷ xs, u, v, ys, ne, ap (λ t. x ∷ t) p, cc)

crc-Differ :
    (b b' : List ℕ)
    → AreBytes b
    → AreBytes b'
    → Differ b b'
    → crc16_ccitt_false b ≢ crc16_ccitt_false b'
crc-Differ b b' h h' d same =
    let (xs, x, y, ys, ne, p, q) = Differ-parts b b' d in
    crc_detects_byte_change xs x y ys ((All-append_right IsByte xs (x ∷ ys) (subst AreBytes p h)).0)
      ((All-append_right IsByte xs (y ∷ ys) (subst AreBytes q h')).0) ne (cc (same, p, q))

-- Behind the subdevice byte.
abbrev after_subdev : List ℕ → ℕ → List ℕ
after_subdev body crc = u16_bytes (length body) ++ (body ++ (u16_bytes crc ++ magic_tail))

-- Two frames with matching checksums do not differ in one byte there.
one_byte_apart :
    (b b' : List ℕ)
    → AreBytes b
    → AreBytes b'
    → length b ≡ length b'
    → ¬ Differ (after_subdev b (crc16_ccitt_false b)) (after_subdev b' (crc16_ccitt_false b'))
one_byte_apart b b' h h' e d =
    elim (Differ-append (u16_bytes (length b)) (u16_bytes (length b')) (rest b) (rest b') refl d) [
      | inl (in_size, _) ↦ Differ-irrefl _ _ (ap u16_bytes e) in_size
      | inr (_, behind) ↦ elim (Differ-append b b' (tail b) (tail b') e behind) [
        | inl (in_body, same) ↦ crc-Differ b b' h h' in_body (crc_eq b b' same)
        | inr (same, in_crc) ↦ Differ-irrefl _ _ (ap tail same) in_crc
      ]
    ]
  where
    tail : List ℕ → List ℕ
    tail body = u16_bytes (crc16_ccitt_false body) ++ magic_tail

    rest : List ℕ → List ℕ
    rest body = body ++ tail body

    crc_eq : (b b' : List ℕ) → tail b ≡ tail b' → crc16_ccitt_false b ≡ crc16_ccitt_false b'
    crc_eq b b' same = ground arith

-- Two packets with their parts, of which each has its own checksum, do not differ in one byte
-- other than the third.
frames_apart :
    (xs : List ℕ) (x y : ℕ) (ys : List ℕ) (s s' : ℕ) (b b' : List ℕ)
    → AreBytes b
    → AreBytes b'
    → x ≢ y
    → length xs ≢ 2
    → xs ++ x ∷ ys ≡ frame_bytes s b (crc16_ccitt_false b)
    → xs ++ y ∷ ys ≡ frame_bytes s' b' (crc16_ccitt_false b')
    → ⊥
frames_apart [] x y ys s s' b b' h h' ne i p q = ne (cc (p, q))
frames_apart (a ∷ []) x y ys s s' b b' h h' ne i p q = ne (cc (p, q))
frames_apart (a ∷ c ∷ []) x y ys s s' b b' h h' ne i p q = i refl
frames_apart (a ∷ c ∷ d ∷ xs) x y ys s s' b b' h h' ne i p q =
    one_byte_apart b b' h h' same_length (subst2 (Differ-change xs x y ys ne))
  where
    p' : xs ++ x ∷ ys ≡ after_subdev b (crc16_ccitt_false b)
    p' = cc p

    q' : xs ++ y ∷ ys ≡ after_subdev b' (crc16_ccitt_false b')
    q' = cc q

    subst2 :
        Differ (xs ++ x ∷ ys) (xs ++ y ∷ ys)
        → Differ (after_subdev b (crc16_ccitt_false b)) (after_subdev b' (crc16_ccitt_false b'))
    subst2 d = subst₂ Differ p' q' d

    same_length : length b ≡ length b'
    same_length = omega (
      arith,
      ap (λ (l : List ℕ). length l) p',
      ap (λ (l : List ℕ). length l) q',
      length-append xs (x ∷ ys),
      length-append xs (y ∷ ys),
      length-append b (u16_bytes (crc16_ccitt_false b) ++ magic_tail),
      length-append b' (u16_bytes (crc16_ccitt_false b') ++ magic_tail),
    )

-- If `parse_frame` accepts a packet of bytes with the right checksum, and accepts it still after one
-- byte has been changed, which is not the third byte of the packet (the subdevice type, which the
-- checksum does not cover), then it reports the checksum of the changed packet as wrong.
pub parse_frame_detects_byte_change :
    (xs : List ℕ) (x y : ℕ) (ys : List ℕ) (f g : ParsedFrame)
    → AreBytes (xs ++ x ∷ ys)
    → y < 256
    → x ≢ y
    → length xs ≢ 2
    → parse_frame (xs ++ x ∷ ys) ≡ ok f
    → f.crc_ok ≡ true
    → parse_frame (xs ++ y ∷ ys) ≡ ok g
    → g.crc_ok ≡ false
parse_frame_detects_byte_change xs x y ys f g h lt ne i pf valid pg = elim (Bool-cases g.crc_ok) [
  | inl still ↦
      let a = parse_frame-read _ f h pf in
      let c = parse_frame-read _ g changed pg in
      absurd (
        frames_apart xs x y ys a.s c.s (body_bytes a.t a.m a.attrs) (body_bytes c.t c.m c.attrs)
          a.body_are_bytes c.body_are_bytes ne i (a.packet_valid valid) (c.packet_valid still))
  | inr wrong ↦ wrong
]
  where
    changed : AreBytes (xs ++ y ∷ ys)
    changed =
        All-append IsByte xs (y ∷ ys) (All-append_left IsByte xs (x ∷ ys) h)
          (lt, (All-append_right IsByte xs (x ∷ ys) h).1)
