-- ===== src/Protocol/Frame/Canonical.antt =====
-- The other direction: `parse_frame` accepts one spelling of each frame.
use ms605_ble.Prelude.{
  ℕ, ◌<◌, pos, List, [], ◌∷◌, map, All, length, true, ok, ◌≡◌, sym, ap, ◌∙◌, arith, Result-cases,
  inl, inr, ==_iff, subst, All-append_left, All-append_right,
}
use ms605_ble.Bytes.{IsByte, AreBytes, u16_value}
use ms605_ble.Bytes.Laws.{u16_bytes-value}
use ms605_ble.Protocol.Crc.{crc16_ccitt_false}
use ms605_ble.Protocol.Frame.{
  Attr, ParsedFrame, serialize_frame, parse_attrs, parse_body, parse_frame,
}
use ms605_ble.Protocol.Frame.Attrs.{
  attrs_bytes, IsAttr, attr_arg, parse_rest-canonical, parse_attrs-eq,
}
use ms605_ble.Protocol.Frame.Encode.{body_bytes, frame_bytes, serialize_frame-bytes}
use ms605_ble.Protocol.Frame.Shape.{parse_frame-ok}
use ms605_ble.Protocol.Frame.RoundTrip.{parsed}

-- What a body that was read consists of.
pub record BodyRead (s : ℕ) (body : List ℕ) (crc : ℕ) (f : ParsedFrame) : Type 0 where
  pub t : ℕ
  pub m : ℕ
  pub attrs : List Attr
  pub body_eq : body ≡ body_bytes t m attrs
  pub frame_eq : f ≡ parsed s t m attrs crc
  pub t_lt : t < 256
  pub m_lt : m < 256
  pub good : All IsAttr attrs

parse_body-attrs :
    (s t m : ℕ) (rest : List ℕ) (chi clo : ℕ) (f : ParsedFrame)
    → parse_body s (t ∷ m ∷ rest) (chi ∷ clo ∷ []) ≡ ok f
    → (attrs : List Attr) × (parse_attrs (length (t ∷ m ∷ rest)) (t ∷ m ∷ rest) 2 ≡ ok attrs)
      × (attrs_bytes attrs ≡ rest → f ≡ parsed s t m attrs (u16_value chi clo))
unfolding parse_body
parse_body-attrs s t m rest chi clo f h =
    elim (Result-cases (parse_attrs (length (t ∷ m ∷ rest)) (t ∷ m ∷ rest) 2)) [
      | inl (attrs, read) ↦ (attrs, read, λ e. rw e (ground (arith, h, read)))
      | inr (e, failed) ↦ absurd (ground (arith, h, failed))
    ]

pub parse_body-ok :
    (s : ℕ) (body : List ℕ) (chi clo : ℕ) (f : ParsedFrame)
    → AreBytes body
    → parse_body s body (chi ∷ clo ∷ []) ≡ ok f
    → BodyRead s body (u16_value chi clo) f
parse_body-ok s [] chi clo f b h = unfold parse_body in cc
parse_body-ok s (t ∷ []) chi clo f b h = unfold parse_body in cc
parse_body-ok s (t ∷ m ∷ rest) chi clo f b h =
    let (attrs, read, e) = parse_body-attrs s t m rest chi clo f h in
    let (same, good) =
      parse_rest-canonical (length (t ∷ m ∷ rest)) rest attrs b.1.1
        (sym (parse_attrs-eq (length (t ∷ m ∷ rest)) t m rest) ∙ read) in
    record {
      t = t;
      m = m;
      attrs = attrs;
      body_eq = ap (λ r. t ∷ m ∷ r) (sym same);
      frame_eq = e same;
      t_lt = b.0;
      m_lt = b.1.0;
      good = good;
    }

-- A packet of bytes that `parse_frame` accepts, with its parts.
pub record FrameRead (packet : List ℕ) (f : ParsedFrame) : Type 0 where
  pub s : ℕ
  pub t : ℕ
  pub m : ℕ
  pub attrs : List Attr
  pub crc : ℕ
  pub packet_eq : packet ≡ frame_bytes s (body_bytes t m attrs) crc
  pub frame_eq : f ≡ parsed s t m attrs crc
  pub s_lt : s < 256
  pub t_lt : t < 256
  pub m_lt : m < 256
  pub crc_lt : crc < 65536
  pub fits : length (body_bytes t m attrs) < 65536
  pub good : All IsAttr attrs
  pub body_are_bytes : AreBytes (body_bytes t m attrs)
  -- A frame with the right checksum carries its body's.
  pub packet_valid :
      f.crc_ok ≡ true
      → packet ≡ frame_bytes s (body_bytes t m attrs) (crc16_ccitt_false (body_bytes t m attrs))

own_crc :
    (s t m crc : ℕ) (attrs : List Attr) (f : ParsedFrame)
    → f ≡ parsed s t m attrs crc
    → f.crc_ok ≡ true
    → crc ≡ crc16_ccitt_false (body_bytes t m attrs)
own_crc s t m crc attrs f e valid =
    (==_iff crc (crc16_ccitt_false (body_bytes t m attrs))).0
      (sym (ap (λ (g : ParsedFrame). g.crc_ok) e) ∙ valid)

pub parse_frame-read :
    (packet : List ℕ) (f : ParsedFrame)
    → AreBytes packet
    → parse_frame packet ≡ ok f
    → FrameRead packet f
parse_frame-read packet f b h =
    let v = parse_frame-ok packet f h in
    let inner = subst AreBytes v.packet_eq b in
    let tail = inner.1.1.1.1.1 in
    let end = All-append_right IsByte v.body _ tail in
    let r = parse_body-ok v.s v.body v.chi v.clo f (All-append_left IsByte v.body _ tail) v.read in
    let size : length (body_bytes r.t r.m r.attrs) ≡ u16_value v.hi v.lo =
      sym (ap (λ (xs : List ℕ). length xs) r.body_eq) ∙ v.size in
    let whole : packet ≡ frame_bytes v.s (body_bytes r.t r.m r.attrs) (u16_value v.chi v.clo) = cc (
      v.packet_eq,
      r.body_eq,
      size,
      u16_bytes-value v.hi v.lo (inner.1.1.1.1.0),
      u16_bytes-value v.chi v.clo (end.1.0),
    ) in
    record {
      s = v.s;
      t = r.t;
      m = r.m;
      attrs = r.attrs;
      crc = u16_value v.chi v.clo;
      packet_eq = whole;
      frame_eq = r.frame_eq;
      s_lt = inner.1.1.0;
      t_lt = r.t_lt;
      m_lt = r.m_lt;
      crc_lt = omega arith;
      fits = omega arith;
      good = r.good;
      body_are_bytes = subst AreBytes r.body_eq (All-append_left IsByte v.body _ tail);
      packet_valid = λ valid.
          whole
          ∙ ap (frame_bytes v.s (body_bytes r.t r.m r.attrs))
              (own_crc v.s r.t r.m (u16_value v.chi v.clo) r.attrs f r.frame_eq valid);
    }

-- A packet of bytes that `parse_frame` accepts with the right checksum is what `_serialize_frame`
-- writes for the fields that were read: every field is kept, and each frame has one spelling.
pub serialize_frame-parse_frame :
    (packet : List ℕ) (f : ParsedFrame)
    → AreBytes packet
    → parse_frame packet ≡ ok f
    → f.crc_ok ≡ true
    → serialize_frame
        (map attr_arg f.attributes)
        (pos f.msg_id)
        (pos f.subdev_type)
        (pos f.trigger_src)
      ≡ ok packet
serialize_frame-parse_frame packet f b h valid =
    let r = parse_frame-read packet f b h in
    rw r.frame_eq (
      serialize_frame-bytes r.attrs r.m r.s r.t r.good r.m_lt r.s_lt r.t_lt r.fits
      ∙ ap ok (sym (r.packet_valid valid)))
