-- ===== src/Protocol/Reassembler/Drains.antt =====
-- The reassembler's loop as a relation: it always ends, and in one way.
use ms605_ble.Prelude.{
  ℕ, zero, suc, ◌+◌, ◌<◌, ◌≤◌, List, [], ◌∷◌, ◌++◌, length, drop, ◌≡◌, refl, subst, arith,
  length-drop, inl, inr, Option-cases,
}
use ms605_ble.Bytes.{u16_value}
use ms605_ble.Protocol.Reassembler.{
  Round, stop, skip, emit, find_magic, at_magic, round, drain, feed,
}

-- `while True`, run to its `break`: from a buffer to the frames found and the buffer left.
pub data Drains : List ℕ → List (List ℕ) → List ℕ → Type 0 where
  stopped : {buffer last : List ℕ} → round buffer ≡ stop last → Drains buffer [] last
  skipped :
      {buffer last : List ℕ} {frames : List (List ℕ)} (left : List ℕ)
      → round buffer ≡ skip left
      → Drains left frames last
      → Drains buffer frames last
  emitted :
      {buffer last : List ℕ} {frames : List (List ℕ)} (frame left : List ℕ)
      → round buffer ≡ emit frame left
      → Drains left frames last
      → Drains buffer (frame ∷ frames) last

-- A round that goes on leaves a shorter buffer.
abbrev Shorter : ℕ → Round → Type 0
Shorter n (stop left) = Unit
Shorter n (skip left) = length left < n
Shorter n (emit frame left) = length left < n

at_magic-Shorter : (b : List ℕ) (n : ℕ) → length b ≤ n → Shorter n (at_magic b)
unfolding at_magic
at_magic-Shorter [] n h = tt
at_magic-Shorter (a ∷ []) n h = tt
at_magic-Shorter (a ∷ b ∷ []) n h = tt
at_magic-Shorter (a ∷ b ∷ c ∷ []) n h = tt
at_magic-Shorter (a ∷ b ∷ c ∷ d ∷ []) n h = tt
at_magic-Shorter (a ∷ b ∷ c ∷ d ∷ e ∷ rest) n h =
    ground (arith, length-drop (5 + u16_value d e + 4) (a ∷ b ∷ c ∷ d ∷ e ∷ rest))

round-Shorter : (b : List ℕ) → Shorter (length b) (round b)
unfolding round
round-Shorter b = elim (Option-cases (find_magic b)) [
  | inl absent ↦ rw (absent, round) tt
  | inr (i, found) ↦
      rw (found, round) (at_magic-Shorter (drop i b) (length b) (omega (arith, length-drop i b)))
]

-- One round, by how it ends; the rest of the loop is given.
drain_step :
    (n : ℕ) (b : List ℕ) (r : Round)
    → round b ≡ r
    → ((left : List ℕ) → length left < length b → Drains left (drain n left).0 (drain n left).1)
    → Drains b (drain (suc n) b).0 (drain (suc n) b).1
unfolding drain
drain_step n b (stop left) e rest = rw (e, drain) (stopped e)
drain_step n b (skip left) e rest =
    rw (e, drain) (skipped left e (rest left (subst (Shorter (length b)) e (round-Shorter b))))
drain_step n b (emit frame left) e rest =
    rw (e, drain)
      (emitted frame left e (rest left (subst (Shorter (length b)) e (round-Shorter b))))

-- Rounds enough: the count in `drain` never runs out, and the loop ends by its `break`.
drain-Drains : (n : ℕ) (b : List ℕ) → length b < n → Drains b (drain n b).0 (drain n b).1
drain-Drains zero b h = absurd (omega arith)
drain-Drains (suc n) b h =
    drain_step n b (round b) refl (λ left k. drain-Drains n left (omega arith))

-- Whatever arrives, `feed` ends, and returns what the loop appends and leaves.
pub feed-Drains :
    (buffer chunk : List ℕ) → Drains (buffer ++ chunk) (feed buffer chunk).0 (feed buffer chunk).1
unfolding feed
feed-Drains buffer chunk =
    drain-Drains (suc (length (buffer ++ chunk))) (buffer ++ chunk) (omega arith)

-- The loop is deterministic.
pub Drains-unique :
    {b last last' : List ℕ} {frames frames' : List (List ℕ)}
    → Drains b frames last
    → Drains b frames' last'
    → (frames ≡ frames') × (last ≡ last')
Drains-unique (stopped e) (stopped e') = (refl, cc)
Drains-unique (stopped e) (skipped l e' d') = absurd (cc (e, e'))
Drains-unique (stopped e) (emitted f l e' d') = absurd (cc (e, e'))
Drains-unique (skipped l e d) (stopped e') = absurd (cc (e, e'))
Drains-unique (skipped l e d) (skipped {last = w} {frames = fs} l' e' d') =
    Drains-unique d (subst (λ x. Drains x fs w) (cc (e, e')) d')
Drains-unique (skipped l e d) (emitted f l' e' d') = absurd (cc (e, e'))
Drains-unique (emitted f l e d) (stopped e') = absurd (cc (e, e'))
Drains-unique (emitted f l e d) (skipped l' e' d') = absurd (cc (e, e'))
Drains-unique (emitted f l e d) (emitted {last = w} {frames = fs} f' l' e' d') =
    let (p, q) = Drains-unique d (subst (λ x. Drains x fs w) (cc (e, e')) d') in (cc (e, e', p), q)
