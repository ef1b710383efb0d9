-- ===== src/Protocol/Frame/RoundTrip.antt =====
-- `parse_frame` undoes `_serialize_frame`.
use ms605_ble.Prelude.{
  ℕ, ◌/◌, ◌%◌, ◌≤◌, ℤ, pos, List, [], ◌∷◌, map, All, ◌==◌, length, true, ok, ◌≡◌, refl, sym, ap,
  ◌∙◌, arith, length-append,
}
use ms605_ble.Bytes.{u16_value}
use ms605_ble.Bytes.Laws.{u16_value-bytes}
use ms605_ble.Protocol.Crc.{crc16_ccitt_false}
use ms605_ble.Protocol.Frame.{Attr, AttrArg, ParsedFrame, serialize_frame, parse_body, parse_frame}
use ms605_ble.Protocol.Frame.Attrs.{attrs_bytes, IsAttr, attr_arg, parse_rest-bytes, parse_attrs-eq}
use ms605_ble.Protocol.Frame.Encode.{AreValues, serialize_frame-ok, body_bytes}
use ms605_ble.Protocol.Frame.Shape.{parse_frame-envelope}

length-attrs_bytes : (attrs : List Attr) → length attrs ≤ length (attrs_bytes attrs)
length-attrs_bytes [] = omega arith
length-attrs_bytes ((t, v) ∷ attrs) =
    omega (arith, length-append v (attrs_bytes attrs), length-attrs_bytes attrs)

-- What the parser makes of a body and a checksum field.
abbrev pub parsed : ℕ → ℕ → ℕ → List Attr → ℕ → ParsedFrame
parsed s t m attrs crc = record {
  subdev_type = s;
  trigger_src = t;
  msg_id = m;
  attributes = attrs;
  crc_ok = crc == crc16_ccitt_false (body_bytes t m attrs);
  expected_crc = crc16_ccitt_false (body_bytes t m attrs);
  actual_crc = crc;
  is_push = m == 0;
}

pub parse_body-bytes :
    (s t m : ℕ) (attrs : List Attr) (chi clo : ℕ)
    → All IsAttr attrs
    → parse_body s (body_bytes t m attrs) (chi ∷ clo ∷ [])
      ≡ ok (parsed s t m attrs (u16_value chi clo))
unfolding parse_body
parse_body-bytes s t m attrs chi clo good = ground (
  arith,
  parse_attrs-eq (length (body_bytes t m attrs)) t m (attrs_bytes attrs),
  parse_rest-bytes (length (body_bytes t m attrs)) attrs good
      (omega (arith, length-attrs_bytes attrs)),
)

-- Whatever `_serialize_frame` returns, for values that are bytes, is accepted by `parse_frame`,
-- which gives back the attributes in order, the message number, the subdevice type and the trigger
-- source, finds the checksum right, and takes the frame for a push exactly if its number is 0.
pub parse_frame-serialize_frame :
    (args : List AttrArg) (msg_id subdev trigger : ℤ) (packet : List ℕ)
    → AreValues args
    → serialize_frame args msg_id subdev trigger ≡ ok packet
    → (f : ParsedFrame) × (parse_frame packet ≡ ok f)
      × (map attr_arg f.attributes ≡ args)
      × (pos f.msg_id ≡ msg_id)
      × (pos f.subdev_type ≡ subdev)
      × (pos f.trigger_src ≡ trigger)
      × (f.crc_ok ≡ true)
      × (f.is_push ≡ (f.msg_id == 0))
parse_frame-serialize_frame args mz sz tz packet values h =
    let z = serialize_frame-ok args mz sz tz packet values h in
    let body = body_bytes z.t z.m z.attrs in
    let crc = crc16_ccitt_false body in
    (
      parsed z.s z.t z.m z.attrs (u16_value (crc / 256) (crc % 256)),
      ap parse_frame z.packet_eq
          ∙ parse_frame-envelope z.s (length body / 256) (length body % 256) body (crc / 256)
              (crc % 256) (sym (u16_value-bytes (length body)))
          ∙ parse_body-bytes z.s z.t z.m z.attrs (crc / 256) (crc % 256) z.good,
      z.args_eq,
      sym z.m_eq,
      sym z.s_eq,
      sym z.t_eq,
      (ground (arith, u16_value-bytes crc)),
      refl,
    )
