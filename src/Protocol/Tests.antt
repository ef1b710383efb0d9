-- ===== src/Protocol/Tests.antt =====
-- The golden frames of ms605/protocol.py, and the protocol's theorems at concrete inputs.
use ms605_ble.Prelude.{
  ℕ, ◌+◌, ◌<◌, pos, List, [], ◌∷◌, ◌++◌, map, concat, length, All, ◌==◌, true, false, ok, ◌≡◌, ◌≢◌,
  refl, arith, none, ◌↔◌, err, Error, frame_error, ◌-◌, ◌%◌, ◌≤◌,
}
use ms605_ble.Protocol.Crc.{crc16_ccitt_false}
use ms605_ble.Protocol.Crc.Detect.{crc_detects_byte_change}
use ms605_ble.Protocol.Frame.{
  AttrArg, ParsedFrame, subdev_type, trigger_src, serialize_frame, build_command, parse_frame,
  first_error_status,
}
use ms605_ble.Protocol.Frame.Attrs.{attr_arg}
use ms605_ble.Protocol.Frame.RoundTrip.{parse_frame-serialize_frame}
use ms605_ble.Protocol.Frame.Canonical.{serialize_frame-parse_frame}
use ms605_ble.Protocol.Frame.Corruption.{parse_frame_detects_byte_change}
use ms605_ble.Protocol.Frame.Errors.{parse_frame-err}
use ms605_ble.Protocol.Frame.Status.{
  AllZero, FirstError, first_error_status-none_iff, first_error_status-some,
}
use ms605_ble.Protocol.MsgId.{msg_id_sequence, nth_msg_id, nth_msg_id_cycle}
use ms605_ble.Protocol.Chunks.{chunk_frame}
use ms605_ble.Protocol.Chunks.Laws.{Pieces, chunk_frame-Pieces}
use ms605_ble.Protocol.Reassembler.{feed, feed_all}
use ms605_ble.Protocol.Reassembler.Streaming.{feed_all-same_stream}
use ms605_ble.Protocol.Reassembler.Delivery.{feed_all-delivers}
use ms605_ble.Protocol.Reassembler.Bounds.{IsCandidate, feed-bounds}

-- set sensitivity=4, msgId=0x2A
abbrev set_sensitivity : List ℕ
set_sensitivity =
    0x55 ∷ 0xaa ∷ 0xc0 ∷ 0x00 ∷ 0x0a ∷ 0x11 ∷ 0x2a ∷ 0x3d ∷ 0x00 ∷ 0x01 ∷ 0x04 ∷ 0x01 ∷ 0x00 ∷ 0x01
    ∷ 0x06 ∷ 0xab ∷ 0xd3 ∷ 0xaa ∷ 0x55 ∷ []

-- space-learning result push (tag62=1)
abbrev learning_result : List ℕ
learning_result =
    0x55 ∷ 0xaa ∷ 0xc0 ∷ 0x00 ∷ 0x06 ∷ 0x00 ∷ 0x00 ∷ 0x3e ∷ 0x00 ∷ 0x01 ∷ 0x01 ∷ 0xa3 ∷ 0xb3 ∷ 0xaa
    ∷ 0x55 ∷ []

golden_command :
    build_command ((pos 61, 4 ∷ []) ∷ []) (pos 0x2a) (pos subdev_type) (pos trigger_src)
    ≡ ok set_sensitivity
unfolding build_command crc16_ccitt_false
golden_command = refl

abbrev push_frame : ParsedFrame
push_frame = record {
  subdev_type = 0xc0;
  trigger_src = 0;
  msg_id = 0;
  attributes = (62, 1 ∷ []) ∷ [];
  crc_ok = true;
  expected_crc = 0xa3b3;
  actual_crc = 0xa3b3;
  is_push = true;
}

golden_push : parse_frame learning_result ≡ ok push_frame
unfolding parse_frame crc16_ccitt_false
golden_push = refl

abbrev command_args : List AttrArg
command_args = (pos 61, 4 ∷ []) ∷ (pos 1, 6 ∷ []) ∷ []

golden_serialized :
    serialize_frame command_args (pos 0x2a) (pos subdev_type) (pos trigger_src) ≡ ok set_sensitivity
unfolding serialize_frame crc16_ccitt_false
golden_serialized = refl

parse_frame-serialize_frame_example :
    (f : ParsedFrame) × (parse_frame set_sensitivity ≡ ok f)
    × (map attr_arg f.attributes ≡ command_args)
    × (pos f.msg_id ≡ pos 0x2a)
    × (pos f.subdev_type ≡ pos 0xc0)
    × (pos f.trigger_src ≡ pos 0x11)
    × (f.crc_ok ≡ true)
    × (f.is_push ≡ (f.msg_id == 0))
parse_frame-serialize_frame_example =
    parse_frame-serialize_frame command_args (pos 0x2a) (pos 0xc0) (pos 0x11) set_sensitivity
      (omega arith) golden_serialized

serialize_frame-parse_frame_example :
    serialize_frame ((pos 62, 1 ∷ []) ∷ []) (pos 0) (pos 0xc0) (pos 0) ≡ ok learning_result
serialize_frame-parse_frame_example =
    serialize_frame-parse_frame learning_result push_frame (omega arith) golden_push refl

crc_detects_byte_change_example :
    crc16_ccitt_false (1 ∷ 2 ∷ 3 ∷ []) ≢ crc16_ccitt_false (1 ∷ 0xff ∷ 3 ∷ [])
crc_detects_byte_change_example =
    crc_detects_byte_change (1 ∷ []) 2 0xff (3 ∷ []) (omega arith) (omega arith) (omega arith)

-- The learning result's value byte, 1, has become 0.
abbrev corrupted : ParsedFrame
corrupted = record push_frame {
  attributes = (62, 0 ∷ []) ∷ [];
  crc_ok = false;
  expected_crc = 0xb392;
}

abbrev before_value : List ℕ
before_value = 0x55 ∷ 0xaa ∷ 0xc0 ∷ 0x00 ∷ 0x06 ∷ 0x00 ∷ 0x00 ∷ 0x3e ∷ 0x00 ∷ 0x01 ∷ []

corrupted_parse : parse_frame (before_value ++ 0 ∷ 0xa3 ∷ 0xb3 ∷ 0xaa ∷ 0x55 ∷ []) ≡ ok corrupted
unfolding parse_frame crc16_ccitt_false
corrupted_parse = refl

parse_frame_detects_byte_change_example : corrupted.crc_ok ≡ false
parse_frame_detects_byte_change_example =
    parse_frame_detects_byte_change before_value 1 0 (0xa3 ∷ 0xb3 ∷ 0xaa ∷ 0x55 ∷ []) push_frame
      corrupted (omega arith) (omega arith) (omega arith) (omega arith) golden_push refl
      corrupted_parse

-- Two status attributes, the second an error.
abbrev late_failure : ParsedFrame
late_failure = record push_frame { attributes = (3, 0 ∷ []) ∷ (61, []) ∷ (3, 5 ∷ 1 ∷ []) ∷ [] }

first_error_status-none_iff_example :
    (first_error_status push_frame ≡ none) ↔ AllZero push_frame.attributes
first_error_status-none_iff_example = first_error_status-none_iff push_frame

first_error_status-some_example : FirstError late_failure.attributes 5
unfolding first_error_status
first_error_status-some_example = first_error_status-some late_failure 5 refl

short_packet : parse_frame (0x55 ∷ 0xaa ∷ []) ≡ err frame_error
unfolding parse_frame
short_packet = refl

parse_frame-err_example : ◌≡◌ {A = Error} frame_error frame_error
parse_frame-err_example = parse_frame-err (0x55 ∷ 0xaa ∷ []) frame_error short_packet

nth_msg_id_cycle_example :
    (pos 254 ≡ pos 254)
    × (nth_msg_id 254 3 ≡ (254 - 1 + 3) % 255 + 1)
    × (1 ≤ nth_msg_id 254 3)
    × (nth_msg_id 254 3 ≤ 255)
    × ((d : ℕ) → nth_msg_id 254 (3 + d) ≡ nth_msg_id 254 3 → d % 255 ≡ 0)
unfolding msg_id_sequence
nth_msg_id_cycle_example = nth_msg_id_cycle (pos 254) 254 3 refl

chunk_frame-Pieces_example :
    (pieces : List (List ℕ)) × (chunk_frame set_sensitivity (pos 8) ≡ ok pieces)
    × Pieces set_sensitivity 8 pieces
chunk_frame-Pieces_example = chunk_frame-Pieces set_sensitivity 8 (omega arith)

-- The command in pieces of eight bytes, with the push behind it.
abbrev pieces : List (List ℕ)
pieces =
    (0x55 ∷ 0xaa ∷ 0xc0 ∷ 0x00 ∷ 0x0a ∷ 0x11 ∷ 0x2a ∷ 0x3d ∷ [])
    ∷ (0x00 ∷ 0x01 ∷ 0x04 ∷ 0x01 ∷ 0x00 ∷ 0x01 ∷ 0x06 ∷ 0xab ∷ [])
    ∷ (0xd3 ∷ 0xaa ∷ 0x55 ∷ 0x55 ∷ 0xaa ∷ 0xc0 ∷ 0x00 ∷ 0x06 ∷ [])
    ∷ (0x00 ∷ 0x00 ∷ 0x3e ∷ 0x00 ∷ 0x01 ∷ 0x01 ∷ 0xa3 ∷ 0xb3 ∷ [])
    ∷ (0xaa ∷ 0x55 ∷ [])
    ∷ []

push_serialized :
    serialize_frame ((pos 62, 1 ∷ []) ∷ []) (pos 0) (pos 0xc0) (pos 0) ≡ ok learning_result
unfolding serialize_frame crc16_ccitt_false
push_serialized = refl

feed_all-delivers_example :
    ((feed_all [] pieces).0 ≡ set_sensitivity ∷ learning_result ∷ [])
    × ((feed_all [] pieces).1 ≡ [])
feed_all-delivers_example =
    feed_all-delivers (set_sensitivity ∷ learning_result ∷ []) pieces
      ((
        record {
          args = command_args;
          msg_id = pos 0x2a;
          subdev = pos 0xc0;
          trigger = pos 0x11;
          values = omega arith;
          written = golden_serialized;
          short = omega arith;
        },
        (
          record {
            args = (pos 62, 1 ∷ []) ∷ [];
            msg_id = pos 0;
            subdev = pos 0xc0;
            trigger = pos 0;
            values = omega arith;
            written = push_serialized;
            short = omega arith;
          },
          tt,
        ),
      ))
      refl

feed_all-same_stream_example :
    ((feed_all [] pieces).0 ≡ (feed_all [] (concat pieces ∷ [])).0)
    × ((feed_all [] pieces).1 ≡ (feed_all [] (concat pieces ∷ [])).1)
feed_all-same_stream_example = feed_all-same_stream pieces (concat pieces ∷ []) refl

feed-bounds_example :
    All IsCandidate (feed (0x55 ∷ []) (0xaa ∷ 7 ∷ [])).0
    × (length (feed (0x55 ∷ []) (0xaa ∷ 7 ∷ [])).1 < 4096 + 9)
feed-bounds_example = feed-bounds (0x55 ∷ []) (0xaa ∷ 7 ∷ [])
