-- ===== src/Protocol/Chunks.antt =====
-- `chunk_frame` of ms605/protocol.py: a frame in pieces of the size of a BLE write.
pub mod Laws
use ms605_ble.Prelude.{
  ℕ, zero, suc, ◌+◌, ℤ, pos, negsuc, List, [], ◌∷◌, true, false, ltb, length, Result, ok, err,
  frame_error,
}
use ms605_ble.Bytes.{slice}

abbrev pub default_chunk_size : ℕ
default_chunk_size = 20

-- `[frame[i : i + chunk_size] for i in range(i, len(frame), chunk_size)]`; the first number is the
-- count of rounds left, of which one for each byte is enough.
pub chunks_from : ℕ → ℕ → List ℕ → ℕ → List (List ℕ)
chunks_from zero i frame size = []
chunks_from (suc rounds) i frame size = elim (ltb i (length frame)) [
  | true ↦ slice i (i + size) frame ∷ chunks_from rounds (i + size) frame size
  | false ↦ []
]

unfoldable pub chunk_frame : List ℕ → ℤ → Result (List (List ℕ))
unfolding chunks_from
chunk_frame frame (pos zero) = err frame_error
chunk_frame [] (pos (suc n)) = ok []
chunk_frame (b ∷ frame) (pos (suc n)) = ok (chunks_from (length (b ∷ frame)) 0 (b ∷ frame) (suc n))
chunk_frame frame (negsuc n) = err frame_error
