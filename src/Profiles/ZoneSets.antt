-- ===== src/Profiles/ZoneSets.antt =====
-- The sorting of zone numbers: a list of zones below 7 is sorted into those that it holds.
use ms605_ble.Prelude.{
  ℕ, zero, suc, ◌+◌, ◌<◌, ◌≤◌, ℤ, pos, negsuc, List, [], ◌∷◌, true, false, map, All, bit_or, ◌^◌,
  subst, ◌≡◌, refl, sym, ap, ◌∙◌, arith, lt_or_le, inl, inr, Bool-cases, ok,
}
use ms605_ble.Models.Segments.{mask_from, check_zone}
use ms605_ble.Models.Segments.Masks.{holds}
use ms605_ble.Models.Segments.Laws.{zones_held}
use ms605_ble.Profiles.{insert, sorted_set, in_range}

abbrev pub held : ℕ → ℕ → List ℤ → List ℤ
held n i zones = map (λ z. pos z) (zones_held n i zones)

held_below : (n i z : ℕ) (zones : List ℤ) → z < i → held n i (pos z ∷ zones) ≡ held n i zones
held_below zero i z zones p = refl
held_below (suc n) i z zones p = ground (arith, held_below n (i + 1) z zones (omega (arith, p)), p)

insert_low :
    (n i z : ℕ) (zones : List ℤ) → z < i → insert (pos z) (held n i zones) ≡ pos z ∷ held n i zones
unfolding insert
insert_low zero i z zones p = refl
insert_low (suc n) i z zones p = ground (arith, insert_low n (i + 1) z zones (omega (arith, p)), p)

insert-held :
    (n i z : ℕ) (zones : List ℤ)
    → i ≤ z
    → z < i + n
    → insert (pos z) (held n i zones) ≡ held n i (pos z ∷ zones)
unfolding insert
insert-held zero i z zones p q = absurd (omega (arith, p, q))
insert-held (suc n) i z zones p q = elim (lt_or_le i z) [
  | inl above ↦
      ground (arith, insert-held n (i + 1) z zones (omega (arith, above)) (omega (arith, q)), above)
  | inr at ↦ ground (
    arith,
    p,
    at,
    held_below n (i + 1) z zones (omega (arith, at)),
    insert_low n (i + 1) z zones (omega (arith, at)),
  )
]

abbrev IsZone : ℤ → Type 0
IsZone z = in_range 0 6 z ≡ true

pub sorted_set-held : (zones : List ℤ) → All IsZone zones → sorted_set zones ≡ held 7 0 zones
unfolding sorted_set
sorted_set-held [] h = refl
sorted_set-held (negsuc z ∷ zones) (h, rest) = cc
sorted_set-held (pos z ∷ zones) (h, rest) =
    ap (insert (pos z)) (sorted_set-held zones rest)
    ∙ insert-held 7 0 z zones (omega arith) (ground (arith, h))

below-held : (n i k : ℕ) (zones : List ℤ) → k < i → holds (held n i zones) k ≡ false
below-held zero i k zones p = refl
below-held (suc n) i k zones p = ground (arith, p, below-held n (i + 1) k zones (omega (arith, p)))

holds-held :
    (n i k : ℕ) (zones : List ℤ) → i ≤ k → k < i + n → holds (held n i zones) k ≡ holds zones k
holds-held zero i k zones p q = absurd (omega (arith, p, q))
holds-held (suc n) i k zones p q = elim (lt_or_le i k) [
  | inl above ↦
      ground (arith, above, holds-held n (i + 1) k zones (omega (arith, above)) (omega (arith, q)))
  | inr at ↦
      let same : i ≡ k = omega (arith, p, at) in
      ground (arith, p, at, below-held n (i + 1) k zones (omega (arith, at)), same)
]

held_cong :
    (n i : ℕ) (zones others : List ℤ)
    → ((k : ℕ) → i ≤ k → k < i + n → holds zones k ≡ holds others k)
    → held n i zones ≡ held n i others
held_cong zero i zones others h = refl
held_cong (suc n) i zones others h = ground (
  arith,
  h i (omega arith) (omega arith),
  held_cong n (i + 1) zones others (λ k p q. h k (omega (arith, p)) (omega (arith, q))),
)

held-IsZone : (n i : ℕ) (zones : List ℤ) → i + n ≤ 7 → All IsZone (held n i zones)
held-IsZone zero i zones p = tt
held-IsZone (suc n) i zones p =
    let rest = held-IsZone n (i + 1) zones (omega (arith, p)) in
    elim (Bool-cases (holds zones i)) [
      | inl e ↦
          let here : held (suc n) i zones ≡ pos i ∷ held n (i + 1) zones = ground (arith, e) in
          subst (All IsZone) (sym here) (ground (arith, p), rest)
      | inr e ↦
          let gone : held (suc n) i zones ≡ held n (i + 1) zones = ground (arith, e) in
          subst (All IsZone) (sym gone) rest
    ]

-- What is sorted stays as it is.
pub sorted_set-sorted :
    (zones : List ℤ) → All IsZone zones → sorted_set (held 7 0 zones) ≡ sorted_set zones
sorted_set-sorted zones h =
    sorted_set-held (held 7 0 zones) (held-IsZone 7 0 zones (omega arith))
    ∙ held_cong 7 0 (held 7 0 zones) zones (λ k p q. holds-held 7 0 k zones p q)
    ∙ sym (sorted_set-held zones h)

pub mask_from-IsZone :
    (mask : ℕ) (zones : List ℤ) (m : ℕ) → mask_from mask zones ≡ ok m → All IsZone zones
unfolding mask_from check_zone
mask_from-IsZone mask [] m h = tt
mask_from-IsZone mask (negsuc z ∷ zones) m h = absurd (ground (arith, h))
mask_from-IsZone mask (pos z ∷ zones) m h = elim (lt_or_le z 7) [
  | inl below ↦ (
    ground (arith, below),
    mask_from-IsZone (bit_or mask (2 ^ z)) zones m (ground (arith, h, below)),
  )
  | inr above ↦ absurd (ground (arith, h, above))
]
