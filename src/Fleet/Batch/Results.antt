-- ===== src/Fleet/Batch/Results.antt =====
-- The results of a batch as a dictionary: each is the one wanted for its device.
use ms605_ble.Prelude.{
  List, [], ◌∷◌, some, Bool, true, false, ◌||◌, if◌then◌else◌, All, ◌≡◌, refl, sym, ap, ◌∙◌, subst,
  arith, inl, inr, Option-cases,
}
use ms605_ble.Dicts.{Str, Dict, str_eq, lookup, contains, set_item}
use ms605_ble.Dicts.Laws.{
  str_eq_cases, lookup-set_item_cases, contains-set_item, contains-set_item_same,
}
use ms605_ble.Calibration.{CalibrationResult}
use ms605_ble.Fleet.Batch.{
  BatchCalibration, emit_result, cancelled_result, job_result, take_result, lacks_result,
  cancel_all,
}

-- `device_id in ids`
abbrev pub has_id : Str → List Str → Bool
has_id id [] = false
has_id id (i ∷ ids) = if str_eq i id then true else has_id id ids

-- Every result is the one wanted for its device.
abbrev pub Right : (Str → CalibrationResult) → Dict CalibrationResult → Type 0
Right want d = (id : Str) (r : CalibrationResult) → lookup d id ≡ some r → r ≡ want id

pub set_item-Right :
    (want : Str → CalibrationResult) (d : Dict CalibrationResult) (i : Str) (r : CalibrationResult)
    → r ≡ want i
    → Right want d
    → Right want (set_item d i r)
set_item-Right want d i r e right id found h = elim (lookup-set_item_cases d i r id found h) [
  | inl (same, is) ↦ is ∙ e ∙ ap want (sym same)
  | inr before ↦ right id found before
]

-- What holds of all entries, and of a new one, holds after it is set.
pub set_item-All :
    {A : Type 0} (P : Str × A → Type 0) (d : Dict A) (key : Str) (a : A)
    → P (key, a)
    → All P d
    → All P (set_item d key a)
unfolding set_item
set_item-All P [] key a p all = (p, tt)
set_item-All P ((k, b) ∷ d) key a p (q, all) = elim (str_eq_cases k key) [
  | inl (same, e) ↦ rw same (subst (λ x. P (x, a)) (sym e) p, all)
  | inr other ↦ rw other (q, set_item-All P d key a p all)
]

pub contains-nil : (A : Type 0) (id : Str) → contains {A = A} [] id ≡ false
unfolding contains lookup
contains-nil A id = refl

pub contains-cons :
    {A : Type 0} (k : Str) (a : A) (d : Dict A) (id : Str)
    → contains ((k, a) ∷ d) id ≡ (if str_eq k id then true else contains d id)
unfolding contains lookup
contains-cons k a d id = ground arith

-- Setting `i` answers for whom was answered, and for `i`.
pub contains-set :
    {A : Type 0} (d : Dict A) (i : Str) (a : A) (id : Str)
    → (contains d id || str_eq i id) ≡ true
    → contains (set_item d i a) id ≡ true
contains-set d i a id h = elim (str_eq_cases i id) [
  | inl (same, e) ↦ subst (λ x. contains (set_item d i a) x ≡ true) e (contains-set_item_same d i a)
  | inr other ↦ contains-set_item d i a id (ground (arith, h, other))
]

pub cancel_all-Right :
    (ids : List Str) (b : BatchCalibration)
    → Right (λ i. cancelled_result) b.results
    → Right (λ i. cancelled_result) ((cancel_all ids b).results)
cancel_all-Right [] b right = right
cancel_all-Right (i ∷ ids) b right =
    cancel_all-Right ids (emit_result i cancelled_result b)
      (set_item-Right (λ i. cancelled_result) b.results i cancelled_result refl right)

pub cancel_all-contains :
    (ids : List Str) (b : BatchCalibration) (id : Str)
    → (contains b.results id || has_id id ids) ≡ true
    → contains ((cancel_all ids b).results) id ≡ true
cancel_all-contains [] b id h = ground (arith, h)
cancel_all-contains (i ∷ ids) b id h =
    cancel_all-contains ids (emit_result i cancelled_result b) id
      (ground (arith, h, contains-set b.results i cancelled_result id))

pub take_result-results :
    (i : Str) (ends : _) (b : BatchCalibration)
    → (take_result i ends b).results ≡ set_item b.results i (job_result ends)
take_result-results i ends b = if_results (lacks_result ends)
  where
    if_results :
        (t : Bool)
        → (if t
            then emit_result i (job_result ends) b
            else record b { results = set_item b.results i (job_result ends) }).results
          ≡ set_item b.results i (job_result ends)
    if_results true = refl
    if_results false = refl

pub contains-some :
    {A : Type 0} (d : Dict A) (id : Str) → contains d id ≡ true → (a : A) × (lookup d id ≡ some a)
unfolding contains
contains-some d id h = elim (Option-cases (lookup d id)) [
  | inl missing ↦ absurd (ground (arith, h, missing))
  | inr (a, found) ↦ (a, found)
]

-- Right results that answer for everyone.
pub answered :
    (want : Str → CalibrationResult) (d : Dict CalibrationResult) (id : Str)
    → Right want d
    → contains d id ≡ true
    → lookup d id ≡ some (want id)
answered want d id right h =
    let (r, found) = contains-some d id h in found ∙ ap (λ x. some x) (right id r found)

pub nothing-Right : (want : Str → CalibrationResult) → Right want []
unfolding lookup
nothing-Right want id r found = absurd (cc found)
