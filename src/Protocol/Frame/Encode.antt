-- ===== src/Protocol/Frame/Encode.antt =====
-- What serializing writes: it succeeds on exactly the attributes that the format can carry.
use ms605_ble.Prelude.{
  ℕ, ◌<◌, ℤ, pos, negsuc, List, [], ◌∷◌, ◌++◌, map, length, All, ok, ◌≡◌, refl, arith, >>=-eq-ok,
}
use ms605_ble.Bytes.{AreBytes, u16_bytes, pack_u16}
use ms605_ble.Bytes.Laws.{pack_u16-ok}
use ms605_ble.Protocol.Crc.Bounds.{byte_mask, crc16_ccitt_false-lt}
use ms605_ble.Protocol.Crc.{crc16_ccitt_false}
use ms605_ble.Protocol.Frame.{
  Attr, AttrArg, check_byte, serialize_attr, serialize_attrs, serialize_frame, magic_head,
  magic_tail,
}
use ms605_ble.Protocol.Frame.Attrs.{attr_bytes, attrs_bytes, IsAttr, attr_arg}

-- The check passes exactly on the bytes, and returns them.
pub check_byte-pos : (n : ℕ) → n < 256 → check_byte (pos n) ≡ ok n
unfolding check_byte
check_byte-pos n h = ground (arith, byte_mask n)

pub check_byte-ok : (z : ℤ) (n : ℕ) → check_byte z ≡ ok n → (z ≡ pos n) × (n < 256)
unfolding check_byte
check_byte-ok (pos m) n h = ground (arith, byte_mask m)
check_byte-ok (negsuc m) n h = cc

pub serialize_attr-bytes :
    (t : ℕ) (v : List ℕ) → IsAttr (t, v) → serialize_attr (pos t, v) ≡ ok (attr_bytes (t, v))
unfolding serialize_attr
serialize_attr-bytes t v h = ground (arith, check_byte-pos t h.0, pack_u16-ok (length v) h.1)

pub serialize_attr-ok :
    (z : ℤ) (v bs : List ℕ)
    → serialize_attr (z, v) ≡ ok bs
    → (t : ℕ) × (z ≡ pos t) × (t < 256) × (length v < 65536) × (bs ≡ attr_bytes (t, v))
unfolding serialize_attr pack_u16
serialize_attr-ok z v bs h =
    let (t, c, h') = >>=-eq-ok (check_byte z) _ h in
    let (e, lt) = check_byte-ok z t c in (t, e, lt, ground (arith, h'), ground (arith, h'))

pub serialize_attrs-bytes :
    (attrs : List Attr)
    → All IsAttr attrs
    → serialize_attrs (map attr_arg attrs) ≡ ok (attrs_bytes attrs)
unfolding serialize_attrs
serialize_attrs-bytes [] h = refl
serialize_attrs-bytes ((t, v) ∷ attrs) h =
    rw (serialize_attr-bytes t v h.0, serialize_attrs-bytes attrs h.1)

-- The values that a caller hands in are bytes.
abbrev pub AreValues : List AttrArg → Type 0
AreValues = All (λ (a : AttrArg). AreBytes a.1)

pub serialize_attrs-ok :
    (args : List AttrArg) (bs : List ℕ)
    → AreValues args
    → serialize_attrs args ≡ ok bs
    → (attrs : List Attr) × (map attr_arg attrs ≡ args)
      × (bs ≡ attrs_bytes attrs)
      × All IsAttr attrs
unfolding serialize_attrs
serialize_attrs-ok [] bs v h = ([], refl, ground arith, tt)
serialize_attrs-ok ((z, value) ∷ args) bs v h =
    let (x, hx, h') = >>=-eq-ok (serialize_attr (z, value)) _ h in
    let (rest, hr, e) = >>=-eq-ok (serialize_attrs args) (λ rest. ok (x ++ rest)) h' in
    let (t, ez, lt, size, ex) = serialize_attr-ok z value x hx in
    let (attrs, ea, er, good) = serialize_attrs-ok args rest v.1 hr in
    ((t, value) ∷ attrs, cc, cc, ((lt, size, v.0), good))

-- A frame around a body, with whatever checksum.
abbrev pub frame_bytes : ℕ → List ℕ → ℕ → List ℕ
frame_bytes s body crc =
    magic_head ++ (s ∷ (u16_bytes (length body) ++ (body ++ (u16_bytes crc ++ magic_tail))))

abbrev pub body_bytes : ℕ → ℕ → List Attr → List ℕ
body_bytes t m attrs = t ∷ m ∷ attrs_bytes attrs

pub serialize_frame-bytes :
    (attrs : List Attr) (m s t : ℕ)
    → All IsAttr attrs
    → m < 256
    → s < 256
    → t < 256
    → length (body_bytes t m attrs) < 65536
    → serialize_frame (map attr_arg attrs) (pos m) (pos s) (pos t)
      ≡ ok (frame_bytes s (body_bytes t m attrs) (crc16_ccitt_false (body_bytes t m attrs)))
unfolding serialize_frame
serialize_frame-bytes attrs m s t good hm hs ht fits = rw (
  check_byte-pos m hm,
  check_byte-pos s hs,
  check_byte-pos t ht,
  serialize_attrs-bytes attrs good,
  pack_u16-ok (length (body_bytes t m attrs)) fits,
  pack_u16-ok (crc16_ccitt_false (body_bytes t m attrs))
      (crc16_ccitt_false-lt (body_bytes t m attrs)),
)

pub pack_u16-lt : (n : ℕ) (bs : List ℕ) → pack_u16 n ≡ ok bs → n < 65536
unfolding pack_u16
pack_u16-lt n bs h = ground arith

-- What a call that succeeded was given.
pub record Serialized (args : List AttrArg) (mz sz tz : ℤ) (packet : List ℕ) : Type 0 where
  pub attrs : List Attr
  pub m : ℕ
  pub s : ℕ
  pub t : ℕ
  pub args_eq : map attr_arg attrs ≡ args
  pub m_eq : mz ≡ pos m
  pub s_eq : sz ≡ pos s
  pub t_eq : tz ≡ pos t
  pub good : All IsAttr attrs
  pub m_lt : m < 256
  pub s_lt : s < 256
  pub t_lt : t < 256
  pub fits : length (body_bytes t m attrs) < 65536
  pub packet_eq :
      packet ≡ frame_bytes s (body_bytes t m attrs) (crc16_ccitt_false (body_bytes t m attrs))

pub serialize_frame-ok :
    (args : List AttrArg) (mz sz tz : ℤ) (packet : List ℕ)
    → AreValues args
    → serialize_frame args mz sz tz ≡ ok packet
    → Serialized args mz sz tz packet
unfolding serialize_frame
serialize_frame-ok args mz sz tz packet v h =
    let (m, hm, h1) = >>=-eq-ok (check_byte mz) _ h in
    let (s, hs, h2) = >>=-eq-ok (check_byte sz) _ h1 in
    let (t, ht, h3) = >>=-eq-ok (check_byte tz) _ h2 in
    let (rest, hr, h4) = >>=-eq-ok (serialize_attrs args) _ h3 in
    let (size, hsize, h5) = >>=-eq-ok (pack_u16 (length (t ∷ m ∷ rest))) _ h4 in
    let (attrs, ea, er, good) = serialize_attrs-ok args rest v hr in
    let (em, lm) = check_byte-ok mz m hm in
    let (es, ls) = check_byte-ok sz s hs in
    let (et, lt) = check_byte-ok tz t ht in
    let fits = rw er at (pack_u16-lt (length (t ∷ m ∷ rest)) size hsize) in
    record {
      attrs = attrs;
      m = m;
      s = s;
      t = t;
      args_eq = ea;
      m_eq = em;
      s_eq = es;
      t_eq = et;
      good = good;
      m_lt = lm;
      s_lt = ls;
      t_lt = lt;
      fits = fits;
      packet_eq = cc (serialize_frame-bytes attrs m s t good lm ls lt fits, h, ea, em, es, et);
    }
