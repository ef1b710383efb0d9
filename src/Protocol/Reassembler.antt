-- ===== src/Protocol/Reassembler.antt =====
-- `FrameReassembler` of ms605/protocol.py: frames out of a stream of notification chunks. The state
-- is the buffer. The warning that is logged for an oversize header is not modelled.
pub mod Rounds
pub mod Bounds
pub mod Drains
pub mod Streaming
pub mod Delivery
use ms605_ble.Prelude.{
  ℕ, zero, suc, ◌+◌, ◌-◌, List, [], ◌∷◌, ◌++◌, Option, none, some, ◌==◌, ◌&&◌, ltb, if◌then◌else◌,
  length, take, drop,
}
use ms605_ble.Bytes.{slice, bytes_eq, u16_value}
use ms605_ble.Protocol.Frame.{magic_tail}

abbrev pub max_frame_body_len : ℕ
max_frame_body_len = 4096

-- `self._buffer.find(MAGIC_HEAD)`
pub find_magic : List ℕ → Option ℕ
find_magic [] = none
find_magic (x ∷ []) = none
find_magic (x ∷ y ∷ rest) =
    let later = find_magic (y ∷ rest) in
    if x == 0x55 && y == 0xaa then some 0 else elim later [ none ↦ none | some i ↦ some (suc i) ]

-- How one round of the `while True` loop ends: by `break`, by `continue` with nothing found, or by
-- appending a frame.
pub data Round : Type 0 where
  stop : List ℕ → Round
  skip : List ℕ → Round
  emit : List ℕ → List ℕ → Round

-- No magic in the buffer: a last byte is kept, which may be half of one.
pub keep_last : List ℕ → List ℕ
keep_last buffer = if ltb 1 (length buffer) then drop (length buffer - 1) buffer else buffer

-- The round once the buffer begins with the magic.
pub at_magic : List ℕ → Round
at_magic (m0 ∷ m1 ∷ s ∷ hi ∷ lo ∷ rest) =
    let buffer = m0 ∷ m1 ∷ s ∷ hi ∷ lo ∷ rest in
    let declared_length = u16_value hi lo in
    let total_len = 5 + declared_length + 4 in
    if ltb max_frame_body_len declared_length
    then skip (drop 1 buffer)
    else if ltb (length buffer) total_len
    then stop buffer
    else if bytes_eq (slice (total_len - 2) total_len buffer) magic_tail
    then emit (take total_len buffer) (drop total_len buffer)
    else skip (drop 1 buffer)
at_magic buffer = stop buffer

pub round : List ℕ → Round
unfolding find_magic keep_last at_magic
round buffer = elim (find_magic buffer) [
  | none ↦ stop (keep_last buffer)
  | some idx ↦ at_magic (drop idx buffer)
]

-- The loop, on a count of rounds left: the frames and the buffer that it leaves.
pub drain : ℕ → List ℕ → List (List ℕ) × List ℕ
unfolding round
drain zero buffer = ([], buffer)
drain (suc n) buffer = elim (round buffer) [
  | stop left ↦ ([], left)
  | skip left ↦ drain n left
  | emit frame left ↦ (let (frames, last) = drain n left in (frame ∷ frames, last))
]

-- Every round but the last shortens the buffer, so its length is rounds enough.
unfoldable pub feed : List ℕ → List ℕ → List (List ℕ) × List ℕ
unfolding drain
feed buffer chunk = drain (suc (length (buffer ++ chunk))) (buffer ++ chunk)

-- A stream that arrives in pieces.
unfoldable pub feed_all : List ℕ → List (List ℕ) → List (List ℕ) × List ℕ
unfolding feed
feed_all buffer [] = ([], buffer)
feed_all buffer (chunk ∷ chunks) =
    let (frames, left) = feed buffer chunk in
    let (later, last) = feed_all left chunks in (frames ++ later, last)
