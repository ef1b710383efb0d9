-- ===== src/Protocol/Reassembler/Rounds.antt =====
-- One round of the reassembler's loop: what it decides on a buffer it decides too when more bytes
-- stand behind it.
use ms605_ble.Prelude.{
  ℕ, zero, suc, ◌+◌, ◌-◌, ◌≤◌, List, [], ◌∷◌, ◌++◌, none, some, length, drop, ◌≡◌, refl, sym, ap,
  ◌∙◌, arith, length-append, drop-append_le, take-append_le, drop-append_add, append_assoc, inl,
  inr, Option-cases, last-cases,
}
use ms605_ble.Bytes.{u16_value}
use ms605_ble.Bytes.Laws.{slice-append_le}
use ms605_ble.Protocol.Reassembler.{stop, skip, emit, find_magic, keep_last, at_magic, round}

-- The magic that is found first stays the first one, and begins what stands from there.
find_magic-append : (b y : List ℕ) (i : ℕ) → find_magic b ≡ some i → find_magic (b ++ y) ≡ some i
unfolding find_magic
find_magic-append [] y i h = cc
find_magic-append (a ∷ []) y i h = cc
find_magic-append (a ∷ c ∷ b) y i h = ground (arith, find_magic-append (c ∷ b) y (i - 1))

find_magic-le : (b : List ℕ) (i : ℕ) → find_magic b ≡ some i → i + 2 ≤ length b
unfolding find_magic
find_magic-le [] i h = cc
find_magic-le (a ∷ []) i h = cc
find_magic-le (a ∷ c ∷ b) i h = ground (arith, find_magic-le (c ∷ b) (i - 1))

pub find_magic-drop :
    (b y : List ℕ) (i : ℕ) → find_magic b ≡ some i → find_magic (drop i b ++ y) ≡ some 0
unfolding find_magic
find_magic-drop [] y i h = cc
find_magic-drop (a ∷ []) y i h = cc
find_magic-drop (a ∷ c ∷ b) y zero h = ground arith
find_magic-drop (a ∷ c ∷ b) y (suc i) h = find_magic-drop (c ∷ b) y i (ground arith)

-- Without a magic in the buffer, the first one behind it is found from the last byte on.
find_magic-none :
    (b : List ℕ) (z : ℕ) (y : List ℕ)
    → find_magic (b ++ z ∷ []) ≡ none
    → (i : ℕ) → find_magic (z ∷ y) ≡ some i
    → find_magic (b ++ z ∷ y) ≡ some (length b + i)
unfolding find_magic
find_magic-none [] z y h i k = ground arith
find_magic-none (a ∷ []) z y h i k = ground arith
find_magic-none (a ∷ c ∷ b) z y h i k =
    ground (arith, find_magic-none (c ∷ b) z y (ground arith) i k)

find_magic-none_both :
    (b : List ℕ) (z : ℕ) (y : List ℕ)
    → find_magic (b ++ z ∷ []) ≡ none
    → find_magic (z ∷ y) ≡ none
    → find_magic (b ++ z ∷ y) ≡ none
unfolding find_magic
find_magic-none_both [] z y h k = k
find_magic-none_both (a ∷ []) z y h k = ground arith
find_magic-none_both (a ∷ c ∷ b) z y h k =
    ground (arith, find_magic-none_both (c ∷ b) z y (ground arith) k)

-- The same, for a round that has found a magic.
at_magic-skip : (b y left : List ℕ) → at_magic b ≡ skip left → at_magic (b ++ y) ≡ skip (left ++ y)
unfolding at_magic
at_magic-skip (a ∷ b ∷ s ∷ hi ∷ lo ∷ rest) y left h = ground (
  arith,
  length-append rest y,
  slice-append_le (5 + u16_value hi lo + 4 - 2) (5 + u16_value hi lo + 4)
      (a ∷ b ∷ s ∷ hi ∷ lo ∷ rest) y,
)
at_magic-skip [] y left h = cc
at_magic-skip (a ∷ []) y left h = cc
at_magic-skip (a ∷ b ∷ []) y left h = cc
at_magic-skip (a ∷ b ∷ c ∷ []) y left h = cc
at_magic-skip (a ∷ b ∷ c ∷ d ∷ []) y left h = cc

at_magic-emit :
    (b y frame left : List ℕ)
    → at_magic b ≡ emit frame left
    → at_magic (b ++ y) ≡ emit frame (left ++ y)
unfolding at_magic
at_magic-emit (a ∷ b ∷ s ∷ hi ∷ lo ∷ rest) y frame left h = ground (
  arith,
  length-append rest y,
  slice-append_le (5 + u16_value hi lo + 4 - 2) (5 + u16_value hi lo + 4)
      (a ∷ b ∷ s ∷ hi ∷ lo ∷ rest) y,
  take-append_le (5 + u16_value hi lo + 4) (a ∷ b ∷ s ∷ hi ∷ lo ∷ rest) y,
  drop-append_le (5 + u16_value hi lo + 4) (a ∷ b ∷ s ∷ hi ∷ lo ∷ rest) y,
)
at_magic-emit [] y frame left h = cc
at_magic-emit (a ∷ []) y frame left h = cc
at_magic-emit (a ∷ b ∷ []) y frame left h = cc
at_magic-emit (a ∷ b ∷ c ∷ []) y frame left h = cc
at_magic-emit (a ∷ b ∷ c ∷ d ∷ []) y frame left h = cc

at_magic-stop : (b left : List ℕ) → at_magic b ≡ stop left → left ≡ b
unfolding at_magic
at_magic-stop (a ∷ b ∷ s ∷ hi ∷ lo ∷ rest) left h = ground arith
at_magic-stop [] left h = cc
at_magic-stop (a ∷ []) left h = cc
at_magic-stop (a ∷ b ∷ []) left h = cc
at_magic-stop (a ∷ b ∷ c ∷ []) left h = cc
at_magic-stop (a ∷ b ∷ c ∷ d ∷ []) left h = cc

-- A round by where the magic is.
pub round-some : (b : List ℕ) (i : ℕ) → find_magic b ≡ some i → round b ≡ at_magic (drop i b)
unfolding round
round-some b i h = rw (h, round)

pub round-none : (b : List ℕ) → find_magic b ≡ none → round b ≡ stop (keep_last b)
unfolding round
round-none b h = rw (h, round)

round-append_some :
    (b y : List ℕ) (i : ℕ) → find_magic b ≡ some i → round (b ++ y) ≡ at_magic (drop i b ++ y)
round-append_some b y i h =
    round-some (b ++ y) i (find_magic-append b y i h)
    ∙ ap at_magic (drop-append_le i b y (omega (arith, find_magic-le b i h)))

-- A round that goes on goes on alike with more bytes behind the buffer.
pub round-skip : (b y left : List ℕ) → round b ≡ skip left → round (b ++ y) ≡ skip (left ++ y)
round-skip b y left h = elim (Option-cases (find_magic b)) [
  | inl absent ↦ absurd (cc (h, round-none b absent))
  | inr (i, found) ↦
      round-append_some b y i found
      ∙ at_magic-skip (drop i b) y left (sym (round-some b i found) ∙ h)
]

pub round-emit :
    (b y frame left : List ℕ) → round b ≡ emit frame left → round (b ++ y) ≡ emit frame (left ++ y)
round-emit b y frame left h = elim (Option-cases (find_magic b)) [
  | inl absent ↦ absurd (cc (h, round-none b absent))
  | inr (i, found) ↦
      round-append_some b y i found
      ∙ at_magic-emit (drop i b) y frame left (sym (round-some b i found) ∙ h)
]

-- What `keep_last` keeps is the last byte.
keep_last-eq : (b : List ℕ) (z : ℕ) → keep_last (z ∷ b) ≡ drop (length b) (z ∷ b)
unfolding keep_last
keep_last-eq b z = ground arith

keep_last-nil : keep_last [] ≡ []
unfolding keep_last
keep_last-nil = refl

keep_last-append : (b : List ℕ) (z : ℕ) (y : List ℕ) → keep_last (b ++ z ∷ y) ≡ keep_last (z ∷ y)
keep_last-append [] z y = refl
keep_last-append (a ∷ b) z y =
    keep_last-eq (b ++ z ∷ y) a
    ∙ ap (λ n. drop n (a ∷ (b ++ z ∷ y)))
        (let e : length (b ++ z ∷ y) ≡ suc (length b) + length y =
            omega (arith, length-append b (z ∷ y)) in
          e)
    ∙ drop-append_add (length y) (a ∷ b) (z ∷ y)
    ∙ sym (keep_last-eq y z)

-- A buffer without a magic may be cut down to its last byte before more arrives.
round-last :
    (b : List ℕ) (z : ℕ) (y : List ℕ)
    → find_magic (b ++ z ∷ []) ≡ none
    → round (b ++ z ∷ y) ≡ round (z ∷ y)
round-last b z y h = elim (Option-cases (find_magic (z ∷ y))) [
  | inl absent ↦
      round-none (b ++ z ∷ y) (find_magic-none_both b z y h absent)
      ∙ ap stop (keep_last-append b z y)
      ∙ sym (round-none (z ∷ y) absent)
  | inr (i, found) ↦
      round-some (b ++ z ∷ y) (length b + i) (find_magic-none b z y h i found)
      ∙ ap at_magic (drop-append_add i b (z ∷ y))
      ∙ sym (round-some (z ∷ y) i found)
]

-- A round that ends the loop leaves a buffer that serves as well as its own, whatever follows.
pub round-resume : (b y left : List ℕ) → round b ≡ stop left → round (b ++ y) ≡ round (left ++ y)
round-resume b y left h = elim (Option-cases (find_magic b)) [
  | inr (i, found) ↦
      let e = at_magic-stop (drop i b) left (sym (round-some b i found) ∙ h) in
      round-append_some b y i found
      ∙ sym (round-some (drop i b ++ y) 0 (find_magic-drop b y i found))
      ∙ ap (λ l. round (l ++ y)) (sym e)
  | inl absent ↦ elim (last-cases b) [
    | inl empty ↦ ap (λ l. round (l ++ y)) (cc (empty, h, round-none b absent, keep_last-nil))
    | inr (front, z, e) ↦
        let kept : left ≡ z ∷ [] =
          cc (h, e, round-none b absent, keep_last-append front z [], keep_last-eq [] z) in
        ap (λ l. round (l ++ y)) e
        ∙ ap round (append_assoc front (z ∷ []) y)
        ∙ round-last front z y (sym (ap find_magic e) ∙ absent)
        ∙ ap (λ l. round (l ++ y)) (sym kept)
  ]
]
