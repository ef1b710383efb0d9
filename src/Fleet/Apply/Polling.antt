-- ===== src/Fleet/Apply/Polling.antt =====
-- `poll_verify` that finds nothing left saw the target on the device.
use ms605_ble.Prelude.{
  ℕ, zero, suc, List, [], ◌∷◌, ◌++◌, Option, none, some, Bool, true, false, if◌then◌else◌, map, ok,
  ◌≡◌, refl, ap, ap₂, ◌∙◌, ok-inj,
}
use ms605_ble.Equality.{bool_eq}
use ms605_ble.Profiles.{Section, ConfigProfile, from_config, diff_sections}
use ms605_ble.Profiles.Same.{diff_sections-IsSame}
use ms605_ble.Fleet.Changes.{ChangeSection, of_profile, dnd_section}
use ms605_ble.Fleet.Apply.Prepared.{then_do-ok, IsDndRead, IsDndShown, here, next, IsShown}
use ms605_ble.Fleet.Apply.{Device, dnd_differs, compare_once, is_nil, poll_verify}

both_nil :
    (ks : List Section) (s : List ChangeSection)
    → map (λ k. of_profile k) ks ++ s ≡ []
    → (ks ≡ []) × (s ≡ [])
both_nil [] s h = (refl, h)
both_nil (k ∷ ks) s h = absurd (cc h)

module _ {D : Type 0} (ms : Device D) where
  dnd_differs-IsDndRead :
      (dnd : Option Bool) (d : D) (differs : List ChangeSection) (d' : D)
      → dnd_differs ms dnd d ≡ (ok differs, d')
      → (now : Option Bool) × IsDndRead ms dnd d now d'
  dnd_differs-IsDndRead none d differs d' h = (none, (refl, ap (λ r. r.1) h))
  dnd_differs-IsDndRead (some dnd) d differs d' h =
      let (b, d1, asked, h1) = then_do-ok (ms.read_dnd d) _ differs d' h in
      (some b, (b, refl, asked ∙ ap (λ x. (ok b, x)) (ap (λ r. r.1) h1)))

  same_dnd : (now dnd : Bool) → (if bool_eq now dnd then [] else dnd_section ∷ []) ≡ [] → now ≡ dnd
  same_dnd true true h = refl
  same_dnd true false h = absurd (cc h)
  same_dnd false true h = absurd (cc h)
  same_dnd false false h = refl

  dnd_differs-IsDndShown :
      (dnd : Option Bool) (d d' : D) → dnd_differs ms dnd d ≡ (ok [], d') → IsDndShown ms dnd d d'
  dnd_differs-IsDndShown none d d' h = ap (λ r. r.1) h
  dnd_differs-IsDndShown (some dnd) d d' h =
      let (b, d1, asked, h1) = then_do-ok (ms.read_dnd d) _ [] d' h in
      asked ∙ ap₂ (λ x y. (ok x, y)) (same_dnd b dnd (ok-inj (ap (λ r. r.0) h1))) (ap (λ r. r.1) h1)

  compare_once-IsShown :
      (target : ConfigProfile) (sections : List Section) (dnd : Option Bool) (d d' : D)
      → compare_once ms target sections dnd d ≡ (ok [], d')
      → IsShown ms target sections dnd d d'
  unfolding compare_once
  compare_once-IsShown target sections dnd d d' h =
      let (cfg, d2, read, h1) = then_do-ok (ms.read_config d) _ [] d' h in
      let (differs, d3, asked, h2) = then_do-ok (dnd_differs ms dnd d2) _ [] d' h1 in
      let (same, none_left) =
        both_nil (diff_sections target (from_config cfg) sections) differs
          (ok-inj (ap (λ r. r.0) h2)) in
      let shown =
        dnd_differs-IsDndShown dnd d2 d'
          (asked ∙ ap₂ (λ l x. (ok l, x)) none_left (ap (λ r. r.1) h2)) in
      (d, here, cfg, d2, read, diff_sections-IsSame target (from_config cfg) sections same, shown)

  -- A reading with an answer, before what was shown after it.
  compare_once-more :
      (target : ConfigProfile) (sections : List Section) (dnd : Option Bool) (d d1 d' : D)
      (m : List ChangeSection)
      → compare_once ms target sections dnd d ≡ (ok m, d1)
      → IsShown ms target sections dnd d1 d'
      → IsShown ms target sections dnd d d'
  unfolding compare_once
  compare_once-more target sections dnd d d1 d' m h (dr, readings, cfg2, d4, last, same, shown) =
      let (cfg, d2, read, h1) = then_do-ok (ms.read_config d) _ m d1 h in
      let (differs, d3, asked, h2) = then_do-ok (dnd_differs ms dnd d2) _ m d1 h1 in
      let (now, asked_dnd) =
        dnd_differs-IsDndRead dnd d2 differs d1
          (asked ∙ ap (λ x. (ok differs, x)) (ap (λ r. r.1) h2)) in
      (dr, next cfg now read asked_dnd readings, cfg2, d4, last, same, shown)

  polled :
      (rounds : ℕ) (target : ConfigProfile) (sections : List Section) (dnd : Option Bool) (d d' : D)
      (m : List ChangeSection) (d1 : D)
      → compare_once ms target sections dnd d ≡ (ok m, d1)
      → (poll_verify ms rounds target sections dnd d1 ≡ (ok [], d')
          → IsShown ms target sections dnd d1 d')
      → (if is_nil m then (ok m, d1) else poll_verify ms rounds target sections dnd d1)
        ≡ (ok [], d')
      → IsShown ms target sections dnd d d'
  polled rounds target sections dnd d d' [] d1 compared again h =
      compare_once-IsShown target sections dnd d d' (compared ∙ h)
  polled rounds target sections dnd d d' (s ∷ m) d1 compared again h =
      compare_once-more target sections dnd d d1 d' (s ∷ m) compared (again h)

  pub poll_verify-IsShown :
      (rounds : ℕ) (target : ConfigProfile) (sections : List Section) (dnd : Option Bool) (d d' : D)
      → poll_verify ms rounds target sections dnd d ≡ (ok [], d')
      → IsShown ms target sections dnd d d'
  unfolding poll_verify
  poll_verify-IsShown zero target sections dnd d d' h =
      compare_once-IsShown target sections dnd d d' h
  poll_verify-IsShown (suc rounds) target sections dnd d d' h =
      let (m, d1, compared, h1) = then_do-ok (compare_once ms target sections dnd d) _ [] d' h in
      polled rounds target sections dnd d d' m d1 compared
        (poll_verify-IsShown rounds target sections dnd d1 d') h1
