-- ===== src/Protocol/Reassembler/Delivery.antt =====
-- Frames that were sent come out of the reassembler, whole and in order.
use ms605_ble.Prelude.{
  ℕ, ◌+◌, ◌-◌, ◌≤◌, ℤ, List, [], ◌∷◌, ◌++◌, length, concat, All, ok, ◌≡◌, sym, ap, ◌∙◌, subst,
  arith, append_assoc, length-append, take-append, drop-append,
}
use ms605_ble.Bytes.{slice, u16_bytes}
use ms605_ble.Bytes.Laws.{u16_value-bytes, slice-append}
use ms605_ble.Protocol.Crc.{crc16_ccitt_false}
use ms605_ble.Protocol.Frame.{AttrArg, serialize_frame, magic_tail}
use ms605_ble.Protocol.Frame.Encode.{AreValues, frame_bytes, body_bytes, serialize_frame-ok}
use ms605_ble.Protocol.Reassembler.{round, emit, feed_all, max_frame_body_len}
use ms605_ble.Protocol.Reassembler.Drains.{Drains, stopped, emitted, Drains-unique}
use ms605_ble.Protocol.Reassembler.Streaming.{feed_all-Drains, Settled-nil}

module _ (s : ℕ) (body : List ℕ) (crc : ℕ) (rest : List ℕ) where
  abbrev packet : List ℕ
  packet = frame_bytes s body crc

  size : length packet ≡ 5 + length body + 4
  size = omega (arith, length-append body (u16_bytes crc ++ magic_tail))

  tail_part : slice (5 + length body + 4 - 2) (5 + length body + 4) (packet ++ rest) ≡ magic_tail
  tail_part =
      ap (slice (5 + length body + 4 - 2) (5 + length body + 4)) regrouped
      ∙ slice-append (5 + length body + 4 - 2) (5 + length body + 4) (front (body ++ u16_bytes crc))
          magic_tail rest (omega (arith, length-append body (u16_bytes crc)))
          (omega (arith, length-append body (u16_bytes crc)))
    where
      front : List ℕ → List ℕ
      front xs = 0x55 ∷ 0xaa ∷ s ∷ (u16_bytes (length body) ++ xs)

      regrouped : packet ++ rest ≡ front (body ++ u16_bytes crc) ++ (magic_tail ++ rest)
      regrouped = ap front (
          append_assoc body (u16_bytes crc ++ magic_tail) rest
          ∙ sym (append_assoc body (u16_bytes crc) (magic_tail ++ rest)))

  frame_first : length body ≤ max_frame_body_len → round (packet ++ rest) ≡ emit packet rest
  unfolding round
  frame_first fits = ground (
    arith,
    u16_value-bytes (length body),
    size,
    length-append packet rest,
    tail_part,
    take-append (5 + length body + 4) packet rest (sym size),
    drop-append (5 + length body + 4) packet rest (sym size),
  )

-- A packet that `_serialize_frame` wrote, with a body within the reassembler's limit.
pub record Sent (packet : List ℕ) : Type 0 where
  pub args : List AttrArg
  pub msg_id : ℤ
  pub subdev : ℤ
  pub trigger : ℤ
  pub values : AreValues args
  pub written : serialize_frame args msg_id subdev trigger ≡ ok packet
  pub short : length packet ≤ max_frame_body_len + 9

Sent-first : (packet rest : List ℕ) → Sent packet → round (packet ++ rest) ≡ emit packet rest
Sent-first packet rest sent =
    let z =
      serialize_frame-ok sent.args sent.msg_id sent.subdev sent.trigger packet sent.values
        sent.written in
    let body = body_bytes z.t z.m z.attrs in
    let crc = crc16_ccitt_false body in
    subst (λ p. round (p ++ rest) ≡ emit p rest) (sym z.packet_eq)
      (frame_first z.s body crc rest (
        omega
          (arith, sent.short, ap (λ (l : List ℕ). length l) z.packet_eq, size z.s body crc rest)))

packets-Drain : (packets : List (List ℕ)) → All Sent packets → Drains (concat packets) packets []
packets-Drain [] sent = stopped Settled-nil
packets-Drain (p ∷ packets) sent =
    emitted p (concat packets) (Sent-first p (concat packets) sent.0) (packets-Drain packets sent.1)

-- Packets that `_serialize_frame` wrote, none over the limit, sent one after another and cut into
-- chunks in any way, come out of a fresh reassembler exactly as they were sent and in order, and
-- nothing stays in its buffer.
pub feed_all-delivers :
    (packets chunks : List (List ℕ))
    → All Sent packets
    → concat chunks ≡ concat packets
    → ((feed_all [] chunks).0 ≡ packets) × ((feed_all [] chunks).1 ≡ [])
feed_all-delivers packets chunks sent e =
    Drains-unique
      (subst (λ b. Drains b (feed_all [] chunks).0 (feed_all [] chunks).1) e
        (feed_all-Drains chunks))
      (packets-Drain packets sent)
