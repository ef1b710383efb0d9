-- ===== src/Protocol/Frame.antt =====
-- `_serialize_frame`, `build_command`, `build_frame_raw` and `parse_frame` of ms605/protocol.py,
-- with `ParsedFrame`. The arguments that the code checks for a sign are integers; `bytes` are lists
-- of numbers.
pub mod Attrs
pub mod Encode
pub mod Shape
pub mod RoundTrip
pub mod Canonical
pub mod Corruption
pub mod Errors
pub mod Status
use ms605_ble.Prelude.{
  ℕ, zero, suc, ◌+◌, ◌-◌, ℤ, pos, negsuc, List, [], ◌∷◌, ◌++◌, Option, none, some, Bool, true,
  false, not, ◌==◌, ltb, leb, if◌then◌else◌, bit_and, length, drop, Result, ok, err, frame_error,
  no_fuel, raise_if, ◌>>=◌, ◌>>◌,
}
use ms605_ble.Bytes.{slice, get_item, bytes_eq, pack_u16, unpack_u16}
use ms605_ble.Protocol.Crc.{crc16_ccitt_false}

abbrev pub magic_head : List ℕ
magic_head = 0x55 ∷ 0xaa ∷ []

abbrev pub magic_tail : List ℕ
magic_tail = 0xaa ∷ 0x55 ∷ []

abbrev pub subdev_type : ℕ
subdev_type = 0xc0

abbrev pub trigger_src : ℕ
trigger_src = 0x11

abbrev pub tag_system_subcommand : ℕ
tag_system_subcommand = 1

abbrev pub system_subcommand_value : ℕ
system_subcommand_value = 0x06

-- A TLV attribute as the parser returns it: a tag and its value.
abbrev pub Attr : Type 0
Attr = ℕ × List ℕ

-- One as a caller hands it in: the tag is any integer.
abbrev pub AttrArg : Type 0
AttrArg = ℤ × List ℕ

-- `if not 0 <= x <= 0xFF: raise FrameError(...)`, and then `x & 0xFF`.
pub check_byte : ℤ → Result ℕ
check_byte (pos n) = if leb n 0xFF then ok (bit_and n 0xFF) else err frame_error
check_byte (negsuc n) = err frame_error

-- What one attribute adds to the body.
pub serialize_attr : AttrArg → Result (List ℕ)
unfolding check_byte pack_u16
serialize_attr (tag, value) = do
  t ← check_byte tag
  raise_if (ltb 0xFFFF (length value)) frame_error
  size ← pack_u16 (length value)
  ok (t ∷ (size ++ value))

-- `for tag, value in attrs: ... body += ...`
pub serialize_attrs : List AttrArg → Result (List ℕ)
unfolding serialize_attr
serialize_attrs [] = ok []
serialize_attrs (a ∷ attrs) = do x ← serialize_attr a; rest ← serialize_attrs attrs; ok (x ++ rest)

unfoldable pub serialize_frame : List AttrArg → ℤ → ℤ → ℤ → Result (List ℕ)
unfolding serialize_attrs
serialize_frame attrs msg_id subdev trigger = do
  m ← check_byte msg_id
  s ← check_byte subdev
  t ← check_byte trigger
  rest ← serialize_attrs attrs
  let body = t ∷ m ∷ rest
  size ← pack_u16 (length body)
  crc ← pack_u16 (crc16_ccitt_false body)
  ok (magic_head ++ (s ∷ (size ++ (body ++ (crc ++ magic_tail)))))

-- The keyword arguments `subdev_type` and `trigger_src` are the last two.
unfoldable pub build_command : List AttrArg → ℤ → ℤ → ℤ → Result (List ℕ)
unfolding serialize_frame
build_command attrs =
    serialize_frame (attrs ++ (pos tag_system_subcommand, system_subcommand_value ∷ []) ∷ [])

pub build_frame_raw : List AttrArg → ℤ → ℤ → ℤ → Result (List ℕ)
unfolding serialize_frame
build_frame_raw attrs = serialize_frame attrs

pub record ParsedFrame : Type 0 where
  pub subdev_type : ℕ
  pub trigger_src : ℕ
  pub msg_id : ℕ
  pub attributes : List Attr
  pub crc_ok : Bool
  pub expected_crc : ℕ
  pub actual_crc : ℕ
  pub is_push : Bool

-- `while offset < len(body)`; the first number is the count of rounds left.
pub parse_attrs : ℕ → List ℕ → ℕ → Result (List Attr)
parse_attrs zero body offset = err no_fuel
parse_attrs (suc rounds) body offset = elim (ltb offset (length body)) [
  | false ↦ ok []
  | true ↦ elim (ltb (length body) (offset + 3)) [
    | true ↦ err frame_error
    | false ↦ (do
      tag ← get_item body offset
      vlen ← unpack_u16 (slice (offset + 1) (offset + 3) body)
      let value_start = offset + 3
      let value_end = value_start + vlen
      raise_if (ltb (length body) value_end) frame_error
      rest ← parse_attrs rounds body value_end
      ok ((tag, slice value_start value_end body) ∷ rest))
  ]
]

-- The part of `parse_frame` that reads the body and the checksum behind it. Each round of the loop
-- moves on by three bytes or more, so the body's length is rounds enough.
pub parse_body : ℕ → List ℕ → List ℕ → Result ParsedFrame
unfolding parse_attrs
parse_body subdev body crc_field = do
  raise_if (ltb (length body) 2) frame_error
  trigger ← get_item body 0
  msg_id ← get_item body 1
  attributes ← parse_attrs (length body) body 2
  actual_crc ← unpack_u16 crc_field
  let expected_crc = crc16_ccitt_false body
  ok (record {
    subdev_type = subdev;
    trigger_src = trigger;
    msg_id = msg_id;
    attributes = attributes;
    crc_ok = actual_crc == expected_crc;
    expected_crc = expected_crc;
    actual_crc = actual_crc;
    is_push = msg_id == 0;
  })

unfoldable pub parse_frame : List ℕ → Result ParsedFrame
unfolding parse_body
parse_frame packet = do
  raise_if (ltb (length packet) 11) frame_error
  raise_if (not (bytes_eq (slice 0 2 packet) magic_head)) frame_error
  raise_if (not (bytes_eq (drop (length packet - 2) packet) magic_tail)) frame_error
  subdev ← get_item packet 2
  declared_length ← unpack_u16 (slice 3 5 packet)
  let body_end = 5 + declared_length
  let crc_end = body_end + 2
  raise_if (not (crc_end + 2 == length packet)) frame_error
  parse_body subdev (slice 5 body_end packet) (slice body_end crc_end packet)

-- `ParsedFrame.get`
unfoldable pub get : List Attr → ℕ → Option (List ℕ)
get [] tag = none
get ((t, v) ∷ attrs) tag = if t == tag then some v else get attrs tag

-- `ParsedFrame.get_all`
pub get_all : List Attr → ℕ → List (List ℕ)
get_all [] tag = []
get_all ((t, v) ∷ attrs) tag = let rest = get_all attrs tag in if t == tag then v ∷ rest else rest

abbrev pub tag_status : ℕ
tag_status = 3

-- `v[0] for v in ... if v`
abbrev pub first_bytes : List (List ℕ) → List ℕ
first_bytes [] = []
first_bytes ([] ∷ vs) = first_bytes vs
first_bytes ((b ∷ v) ∷ vs) = b ∷ first_bytes vs

-- `next((s for s in statuses if s != 0), None)`
abbrev pub first_nonzero : List ℕ → Option ℕ
first_nonzero [] = none
first_nonzero (s ∷ ss) = if s == 0 then first_nonzero ss else some s

-- `ParsedFrame.status`
pub status : ParsedFrame → Option ℕ
unfolding get
status f = elim (get f.attributes tag_status) [
  | none ↦ none
  | some v ↦ elim v [ [] ↦ none | b ∷ bs ↦ some b ]
]

-- `ParsedFrame.statuses`
pub statuses : ParsedFrame → List ℕ
unfolding get_all
statuses f = first_bytes (get_all f.attributes tag_status)

-- `ParsedFrame.first_error_status`
unfoldable pub first_error_status : ParsedFrame → Option ℕ
unfolding statuses
first_error_status f = first_nonzero (statuses f)
