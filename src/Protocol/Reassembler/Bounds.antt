-- ===== src/Protocol/Reassembler/Bounds.antt =====
-- What the reassembler hands out and what it keeps, whatever arrives.
use ms605_ble.Prelude.{
  ℕ, suc, ◌+◌, ◌-◌, ◌<◌, ◌≤◌, List, [], ◌∷◌, some, take, drop, length, All, ok, ◌≡◌, refl, sym, ap,
  ◌∙◌, subst, arith, drop-take, length-take, length-drop, inl, inr, Option-cases, append-nil,
}
use ms605_ble.Bytes.{slice, u16_value, unpack_u16}
use ms605_ble.Bytes.Laws.{bytes_eq→eq}
use ms605_ble.Protocol.Frame.{magic_head, magic_tail}
use ms605_ble.Protocol.Reassembler.{
  Round, stop, skip, emit, find_magic, keep_last, at_magic, round, feed, max_frame_body_len,
}
use ms605_ble.Protocol.Reassembler.Rounds.{round-some, round-none, find_magic-drop}
use ms605_ble.Protocol.Reassembler.Drains.{Drains, stopped, skipped, emitted, feed-Drains}

-- The two magic words, a body of the declared length between them, and a length within the limit.
pub record IsCandidate (frame : List ℕ) : Type 0 where
  pub head : slice 0 2 frame ≡ magic_head
  pub tail : drop (length frame - 2) frame ≡ magic_tail
  pub declared : unpack_u16 (slice 3 5 frame) ≡ ok (length frame - 9)
  pub whole : 9 ≤ length frame
  pub short : length frame ≤ max_frame_body_len + 9

-- What a round that has found the magic may do.
abbrev Allowed : Round → Type 0
Allowed (stop left) = length left < max_frame_body_len + 9
Allowed (skip left) = Unit
Allowed (emit frame left) = IsCandidate frame

module _ (s hi lo : ℕ) (rest : List ℕ) where
  abbrev buffer : List ℕ
  buffer = 0x55 ∷ 0xaa ∷ s ∷ hi ∷ lo ∷ rest

  candidate :
      (total : ℕ)
      → total ≡ 5 + u16_value hi lo + 4
      → total ≤ length buffer
      → u16_value hi lo ≤ max_frame_body_len
      → slice (total - 2) total buffer ≡ magic_tail
      → IsCandidate (take total buffer)
  candidate total e fits small h =
      let len : length (take total buffer) ≡ total = omega (arith, length-take total buffer) in
      let open5 : total ≡ suc (suc (suc (suc (suc (u16_value hi lo + 4))))) = omega arith in
      record {
        head = ap (λ n. slice 0 2 (take n buffer)) open5;
        tail =
            ap (λ n. drop (n - 2) (take total buffer)) len ∙ drop-take (total - 2) total buffer ∙ h;
        declared = ap (λ n. unpack_u16 (slice 3 5 (take n buffer))) open5 ∙ ap ok (omega arith);
        whole = omega arith;
        short = omega arith;
      }

  emitted_parts :
      (frame left : List ℕ)
      → at_magic buffer ≡ emit frame left
      → (frame ≡ take (5 + u16_value hi lo + 4) buffer)
        × (5 + u16_value hi lo + 4 ≤ length buffer)
        × (u16_value hi lo ≤ max_frame_body_len)
        × (slice (5 + u16_value hi lo + 4 - 2) (5 + u16_value hi lo + 4) buffer ≡ magic_tail)
  unfolding at_magic
  emitted_parts frame left h = ground (
    arith,
    bytes_eq→eq (slice (5 + u16_value hi lo + 4 - 2) (5 + u16_value hi lo + 4) buffer) magic_tail,
  )

  stopped_short :
      (left : List ℕ) → at_magic buffer ≡ stop left → length left < max_frame_body_len + 9
  unfolding at_magic
  stopped_short left h = ground arith

  at_magic-Allowed : (r : Round) → at_magic buffer ≡ r → Allowed r
  at_magic-Allowed (stop left) h = stopped_short left h
  at_magic-Allowed (skip left) h = tt
  at_magic-Allowed (emit frame left) h =
      let (e, fits, small, t) = emitted_parts frame left h in
      subst IsCandidate (sym e) (candidate (5 + u16_value hi lo + 4) refl fits small t)

-- A list in which the magic stands first begins with it.
magic_first : (b : List ℕ) → find_magic b ≡ some 0 → (rest : List ℕ) × (b ≡ 0x55 ∷ 0xaa ∷ rest)
unfolding find_magic
magic_first [] h = absurd (cc h)
magic_first (a ∷ []) h = absurd (cc h)
magic_first (a ∷ c ∷ rest) h = (rest, ground arith)

at_magic_short : (b : List ℕ) → find_magic b ≡ some 0 → Allowed (at_magic b)
unfolding at_magic
at_magic_short [] h = omega arith
at_magic_short (a ∷ []) h = omega arith
at_magic_short (a ∷ c ∷ []) h = omega arith
at_magic_short (a ∷ c ∷ s ∷ []) h = omega arith
at_magic_short (a ∷ c ∷ s ∷ hi ∷ []) h = omega arith
at_magic_short (a ∷ c ∷ s ∷ hi ∷ lo ∷ rest) h =
    let (tail, e) = magic_first (a ∷ c ∷ s ∷ hi ∷ lo ∷ rest) h in
    subst (λ b. Allowed (at_magic b))
      (let q : 0x55 ∷ 0xaa ∷ s ∷ hi ∷ lo ∷ rest ≡ a ∷ c ∷ s ∷ hi ∷ lo ∷ rest = cc e in q)
      (at_magic-Allowed s hi lo rest _ refl)

keep_last-short : (b : List ℕ) → length (keep_last b) ≤ 1
unfolding keep_last
keep_last-short b = ground (arith, length-drop (length b - 1) b)

round-Allowed : (b : List ℕ) → Allowed (round b)
round-Allowed b = elim (Option-cases (find_magic b)) [
  | inl absent ↦ rw (round-none b absent) (omega (arith, keep_last-short b))
  | inr (i, found) ↦ rw (round-some b i found) (
      at_magic_short (drop i b)
        (ap find_magic (sym (append-nil (drop i b))) ∙ find_magic-drop b [] i found))
]

Drains-Allowed :
    {b last : List ℕ} {frames : List (List ℕ)}
    → Drains b frames last
    → All IsCandidate frames × (length last < max_frame_body_len + 9)
Drains-Allowed {b} (stopped h) = (tt, subst Allowed h (round-Allowed b))
Drains-Allowed (skipped left h d) = Drains-Allowed d
Drains-Allowed {b} (emitted frame left h d) =
    let (all, short) = Drains-Allowed d in ((subst Allowed h (round-Allowed b), all), short)

-- Whatever the buffer and the chunk hold, every frame that `feed` returns begins and ends with its
-- magic word and has the length that its header declares, of at most 4096 bytes of body; and the
-- buffer that is kept is shorter than the longest frame.
pub feed-bounds :
    (buffer chunk : List ℕ)
    → All IsCandidate (feed buffer chunk).0
      × (length (feed buffer chunk).1 < max_frame_body_len + 9)
feed-bounds buffer chunk = Drains-Allowed (feed-Drains buffer chunk)
