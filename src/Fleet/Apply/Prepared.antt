-- ===== src/Fleet/Apply/Prepared.antt =====
-- What `_apply_locked` did before it wrote, and what the device showed after it: chains of calls,
-- each from the state that the one before it led to.
use ms605_ble.Prelude.{
  All, ℕ, List, ◌++◌, Option, none, some, Bool, map, Result, ok, err, ◌≡◌, refl, ap, ap₂, ◌∙◌,
  ok-inj, sym,
}
use ms605_ble.Models.Config.{Ms605Config}
use ms605_ble.Driver.{apply_profile}
use ms605_ble.Profiles.{Section, ConfigProfile, from_config, sections_present}
use ms605_ble.Profiles.Same.{IsSame}
use ms605_ble.Fleet.Changes.{SensorChanges, resolve, of_profile}
use ms605_ble.Fleet.Apply.{
  Device, ApplyResult, then_do, dnd_part, read_dnd_if, prepare, written_sections,
}

pub then_do-ok :
    {A B D : Type 0} (x : Result A × D) (next : A → D → Result B × D) (b : B) (d' : D)
    → then_do x next ≡ (ok b, d')
    → (a : A) × (d : D) × (x ≡ (ok a, d)) × (next a d ≡ (ok b, d'))
then_do-ok (err e, d) next b d' h = absurd (cc h)
then_do-ok (ok a, d) next b d' h = (a, d, refl, h)

module _ {D : Type 0} (ms : Device D) where
  -- Where do-not-disturb is to change, it was read as this value; else nothing was asked.
  abbrev pub IsDndRead : Option Bool → D → Option Bool → D → Type 0
  IsDndRead none d before d' = (before ≡ none) × (d ≡ d')
  IsDndRead (some dnd) d before d' = (b : Bool) × (before ≡ some b) × (ms.read_dnd d ≡ (ok b, d'))

  -- Where do-not-disturb is to change, it was set to the wanted value.
  abbrev pub IsDndSet : Option Bool → D → D → Type 0
  IsDndSet none d d' = d ≡ d'
  IsDndSet (some dnd) d d' = ms.set_dnd dnd d ≡ (ok tt, d')

  -- Where do-not-disturb is to change, the device answered the wanted value.
  abbrev pub IsDndShown : Option Bool → D → D → Type 0
  IsDndShown none d d' = d ≡ d'
  IsDndShown (some dnd) d d' = ms.read_dnd d ≡ (ok dnd, d')

  -- The configuration was read, then do-not-disturb; the changes were resolved for that
  -- configuration, and a snapshot of it was saved under this name.
  abbrev pub IsPrepared : SensorChanges → D → ConfigProfile → ℕ → D → Type 0
  IsPrepared c d target name d' =
      (cfg : Ms605Config) × (d1 : D) × (before : Option Bool) × (d2 : D) × (ms.read_config d
        ≡ (ok cfg, d1))
      × IsDndRead c.dnd d1 before d2
      × (resolve c (from_config cfg) ≡ ok target)
      × (ms.save_snapshot (from_config cfg) (written_sections c target) before d2 ≡ (ok name, d'))

  -- Any number of readings, one after the other, each with an answer.
  pub data Readings (dnd : Option Bool) : D → D → Type 0 where
    here : {d : D} → Readings dnd d d
    next :
        {d d1 d2 d3 : D} (cfg : Ms605Config) (now : Option Bool)
        → ms.read_config d ≡ (ok cfg, d1)
        → IsDndRead dnd d1 now d2
        → Readings dnd d2 d3
        → Readings dnd d d3

  -- After readings that began in the first state, a last one ended in the second: its configuration
  -- has the target's value for each of these sections, and its do-not-disturb is the wanted one.
  abbrev pub IsShown : ConfigProfile → List Section → Option Bool → D → D → Type 0
  IsShown target sections dnd d d' =
      (d1 : D) × Readings dnd d d1
      × (cfg : Ms605Config) × (d2 : D) × (ms.read_config d1 ≡ (ok cfg, d2))
      × All (λ k. IsSame target (from_config cfg) k) sections
      × IsDndShown dnd d2 d'

  -- From the snapshot's state `apply_profile` wrote the target, then do-not-disturb was set, then the
  -- device showed both.
  abbrev pub IsSeen : SensorChanges → D → ApplyResult × D → Type 0
  IsSeen c d (result, d') =
      (target : ConfigProfile) × (name : ℕ) × (d1 : D) × IsPrepared c d target name d1
      × (result.snapshot ≡ some name)
      × (applied : List Section) × (d2 : D) × (d3 : D) × (apply_profile ms.send target
            (sections_present target) d1
          ≡ (ok applied, d2))
      × IsDndSet c.dnd d2 d3
      × (result.applied ≡ map (λ k. of_profile k) applied ++ dnd_part c.dnd)
      × IsShown target applied c.dnd d3 d'

  read_dnd_if-IsDndRead :
      (dnd : Option Bool) (d : D) (before : Option Bool) (d' : D)
      → read_dnd_if ms dnd d ≡ (ok before, d')
      → IsDndRead dnd d before d'
  read_dnd_if-IsDndRead none d before d' h = (ok-inj (ap (λ r. r.0) (sym h)), ap (λ r. r.1) h)
  read_dnd_if-IsDndRead (some dnd) d before d' h =
      let (b, d1, asked, h1) = then_do-ok (ms.read_dnd d) _ before d' h in
      (b, sym (ok-inj (ap (λ r. r.0) h1)), asked ∙ ap (λ x. (ok b, x)) (ap (λ r. r.1) h1))

  -- The target and the name that were returned are those of the calls.
  retarget :
      (r : Result ConfigProfile) (c : SensorChanges) (p : ConfigProfile) (before : Option Bool)
      (t target : ConfigProfile) (n name : ℕ) (d2 d3 d4 d' : D)
      → ◌≡◌ {A = Result ConfigProfile × D} (r, d2) (ok t, d3)
      → ms.save_snapshot p (written_sections c t) before d3 ≡ (ok n, d4)
      → ◌≡◌ {A = Result (ConfigProfile × ℕ) × D} (ok (t, n), d4) (ok (target, name), d')
      → (r ≡ ok target) × (ms.save_snapshot p (written_sections c target) before d2 ≡ (ok name, d'))
  retarget r c p before t target n name d2 d3 d4 d' resolved saved h =
      let pair = ok-inj (ap (λ x. x.0) h) in
      let to_target = ap (λ x. x.0) pair in
      (
        ap (λ x. x.0) resolved ∙ ap (λ x. ok x) to_target,
        ap₂ (λ x y. ms.save_snapshot p (written_sections c x) before y) (sym to_target)
              (ap (λ x. x.1) resolved)
            ∙ saved
            ∙ ap₂ (λ x y. (ok x, y)) (ap (λ x. x.1) pair) (ap (λ x. x.1) h),
      )

  pub prepare-IsPrepared :
      (c : SensorChanges) (d d' : D) (target : ConfigProfile) (name : ℕ)
      → prepare ms c d ≡ (ok (target, name), d')
      → IsPrepared c d target name d'
  unfolding prepare
  prepare-IsPrepared c d d' target name h =
      let (cfg, d1, read, h1) = then_do-ok (ms.read_config d) _ (target, name) d' h in
      let (before, d2, asked, h2) = then_do-ok (read_dnd_if ms c.dnd d1) _ (target, name) d' h1 in
      let (t, d3, resolved, h3) =
        then_do-ok (resolve c (from_config cfg), d2) _ (target, name) d' h2 in
      let (n, d4, saved, h4) =
        then_do-ok (ms.save_snapshot (from_config cfg) (written_sections c t) before d3) _
          (target, name) d' h3 in
      let (same, kept) =
        retarget (resolve c (from_config cfg)) c (from_config cfg) before t target n name d2 d3 d4
          d' resolved saved h4 in
      (cfg, d1, before, d2, read, read_dnd_if-IsDndRead c.dnd d1 before d2 asked, same, kept)
