-- ===== src/Protocol/Chunks/Laws.antt =====
-- The pieces of a frame hold the frame, in order, and each fits a write.
use ms605_ble.Prelude.{
  ℕ, zero, suc, ◌+◌, ◌-◌, ◌*◌, ◌<◌, ◌≤◌, pos, List, [], ◌∷◌, length, take, drop, concat, All, ok,
  ◌≡◌, refl, sym, ap, arith, drop-drop, length-drop, length-take, take-append-drop, inl, inr,
  lt_or_le, drop-all,
}
use ms605_ble.Bytes.{slice}
use ms605_ble.Protocol.Chunks.{chunks_from, chunk_frame}

-- A piece is not empty and not longer than `size`.
abbrev pub Fits : ℕ → List ℕ → Type 0
Fits size piece = (1 ≤ length piece) × (length piece ≤ size)

module _ (frame : List ℕ) (size : ℕ) (positive : 1 ≤ size) where
  slice-eq : (i : ℕ) → slice i (i + size) frame ≡ take size (drop i frame)
  slice-eq i = ap (λ n. take n (drop i frame)) (let e : i + size - i ≡ size = omega arith in e)

  more :
      (n i : ℕ)
      → i < length frame
      → chunks_from (suc n) i frame size
        ≡ take size (drop i frame) ∷ chunks_from n (i + size) frame size
  unfolding chunks_from
  more n i h = ground (arith, slice-eq i)

  done : (n i : ℕ) → length frame ≤ i → chunks_from n i frame size ≡ []
  unfolding chunks_from
  done zero i h = refl
  done (suc n) i h = ground arith

  concat-chunks_from :
      (n i : ℕ) → length frame ≤ i + n → concat (chunks_from n i frame size) ≡ drop i frame
  concat-chunks_from zero i h =
      rw (done zero i (omega arith)) (sym (drop-all i frame (omega arith)))
  concat-chunks_from (suc n) i h = elim (lt_or_le i (length frame)) [
    | inr end ↦ rw (done (suc n) i end) (sym (drop-all i frame end))
    | inl rest ↦
        rw (more n i rest, concat-chunks_from n (i + size) (omega arith), ← drop-drop size i frame)
          (take-append-drop size (drop i frame))
  ]

  chunks_from-Fits : (n i : ℕ) → All (Fits size) (chunks_from n i frame size)
  chunks_from-Fits zero i = unfold chunks_from in tt
  chunks_from-Fits (suc n) i = elim (lt_or_le i (length frame)) [
    | inr end ↦ rw (done (suc n) i end) tt
    | inl rest ↦ rw (more n i rest) (
      omega (arith, length-take size (drop i frame), length-drop i frame),
      chunks_from-Fits n (i + size),
    )
  ]

  length-chunks_from :
      (n i : ℕ)
      → length frame ≤ i + n
      → i < length frame + size
      → (length frame ≤ i + length (chunks_from n i frame size) * size)
        × (i + length (chunks_from n i frame size) * size < length frame + size)
  length-chunks_from zero i h k = rw (done zero i (omega arith)) (omega arith)
  length-chunks_from (suc n) i h k = elim (lt_or_le i (length frame)) [
    | inr end ↦ rw (done (suc n) i end) (omega arith)
    | inl rest ↦
        rw (more n i rest)
          (omega (arith, length-chunks_from n (i + size) (omega arith) (omega arith)))
  ]

-- What a caller of `chunk_frame` gets.
pub record Pieces (frame : List ℕ) (size : ℕ) (pieces : List (List ℕ)) : Type 0 where
  pub whole : concat pieces ≡ frame
  pub fit : All (Fits size) pieces
  pub enough : length frame ≤ length pieces * size
  pub fewest : length pieces * size < length frame + size

-- `chunk_frame` with a positive size always returns: its pieces joined in order are the frame, no
-- piece is empty or longer than the size, and there are as many as the size makes necessary.
pub chunk_frame-Pieces :
    (frame : List ℕ) (size : ℕ)
    → 1 ≤ size
    → (pieces : List (List ℕ)) × (chunk_frame frame (pos size) ≡ ok pieces)
      × Pieces frame size pieces
unfolding chunk_frame
chunk_frame-Pieces frame zero h = absurd (omega arith)
chunk_frame-Pieces [] (suc n) h =
    ([], refl, record { whole = refl; fit = tt; enough = omega arith; fewest = omega arith })
chunk_frame-Pieces (b ∷ frame) (suc n) h =
    let (enough, fewest) =
      length-chunks_from (b ∷ frame) (suc n) h (length (b ∷ frame)) 0 (omega arith) (omega arith) in
    (
      chunks_from (length (b ∷ frame)) 0 (b ∷ frame) (suc n),
      refl,
      record {
        whole = concat-chunks_from (b ∷ frame) (suc n) h (length (b ∷ frame)) 0 (omega arith);
        fit = chunks_from-Fits (b ∷ frame) (suc n) h (length (b ∷ frame)) 0;
        enough = omega arith;
        fewest = omega arith;
      },
    )
