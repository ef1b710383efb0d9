-- ===== src/Registry/Calls/Laws.antt =====
-- What holds after any calls of the registry's methods.
use ms605_ble.Prelude.{
  List, [], ◌∷◌, Option, none, some, Bool, true, false, Result, ok, err, Error, not, ◌&&◌,
  if◌then◌else◌, ◌≡◌, refl, sym, subst, arith, inl, inr, Result-cases,
}
use ms605_ble.Dicts.{Str, contains, lookup}
use ms605_ble.Registry.{
  Registry, Save, mutation, add_site, add_sensor, update_sensor, remove_sensor, names_site,
}
use ms605_ble.Registry.Matching.{match_device, find_pending}
use ms605_ble.Registry.Importing.{import_entries, is_empty, new_pending, known_addresses}
use ms605_ble.Registry.Calls.{
  Call, adds_site, adds_sensor, updates_sensor, removes_sensor, matches, imports, outcome, perform,
  perform_all,
}
use ms605_ble.Registry.Invariant.{IsWellFormed}
use ms605_ble.Registry.Invariant.Methods.{
  add_site-IsWellFormed, add_sensor-IsWellFormed, remove_sensor-IsWellFormed,
  update_sensor-IsWellFormed, match_device-IsWellFormed, import_entries-IsWellFormed,
}

outcome-state : {A : Type 0} (o : Result A × Registry) → (outcome o).1 ≡ o.1
outcome-state (ok a, r) = refl
outcome-state (err e, r) = refl

kept : {A : Type 0} (o : Result A × Registry) → IsWellFormed (o.1) → IsWellFormed ((outcome o).1)
kept o w = subst IsWellFormed (sym (outcome-state o)) w

perform-IsWellFormed :
    (lower : Str → Str) (save : Save) (call : Call) (r : Registry)
    → IsWellFormed r
    → IsWellFormed ((perform lower save call r).1)
unfolding perform
perform-IsWellFormed lower save (adds_site site_id name) r w =
    kept (add_site save site_id name r) (add_site-IsWellFormed save site_id name r w)
perform-IsWellFormed lower save (adds_sensor id site_id alias location notes) r w =
    kept (add_sensor save id site_id alias location notes r)
      (add_sensor-IsWellFormed save id site_id alias location notes r w)
perform-IsWellFormed lower save (updates_sensor id site_id alias location notes) r w =
    kept (update_sensor save id site_id alias location notes r)
      (update_sensor-IsWellFormed save id site_id alias location notes r w)
perform-IsWellFormed lower save (removes_sensor id) r w =
    kept (remove_sensor save id r) (remove_sensor-IsWellFormed save id r w)
perform-IsWellFormed lower save (matches id address now battery_pct) r w =
    kept (match_device lower save id address now battery_pct r)
      (match_device-IsWellFormed lower save id address now battery_pct r w)
perform-IsWellFormed lower save (imports source entries site_id site_name) r w =
    kept (import_entries lower save source entries site_id site_name r)
      (import_entries-IsWellFormed lower save source entries site_id site_name r w)

-- From a well-formed registry, any calls with any arguments, whichever saves fail, lead to a
-- well-formed one: every sensor is found under its own device id, its site exists, and so does the
-- site of every pending import.
pub perform_all-IsWellFormed :
    (lower : Str → Str) (calls : List (Save × Call)) (r : Registry)
    → IsWellFormed r
    → IsWellFormed (perform_all lower calls r)
unfolding perform_all
perform_all-IsWellFormed lower [] r w = w
perform_all-IsWellFormed lower ((save, call) ∷ calls) r w =
    perform_all-IsWellFormed lower calls ((perform lower save call r).1)
      (perform-IsWellFormed lower save call r w)

-- An exception leaves the registry as it was.
abbrev Unchanged : {A : Type 0} → Registry → Result A × Registry → Type 0
Unchanged r o = (e : Error) → (o.0) ≡ err e → o.1 ≡ r

module _ (r : Registry) {A : Type 0} where
  raised : (e : Error) → Unchanged {A = A} r (err e, r)
  raised e e' h = refl

  mutation-Unchanged :
      (save : Save) (after : Registry) (a : A) → Unchanged r (mutation save r after a)
  unfolding mutation
  mutation-Unchanged save after a e h = elim (Result-cases (save after)) [
    | inl (saved, made) ↦ absurd (ground (arith, made, h))
    | inr (failure, made) ↦ ground (arith, made)
  ]

  outcome-Unchanged : (o : Result A × Registry) → Unchanged r o → Unchanged r (outcome o)
  outcome-Unchanged (ok a, r') u e h = absurd (ground (arith, h))
  outcome-Unchanged (err e', r') u e h = u e' refl

  either :
      (test : Bool) (x y : Result A × Registry)
      → Unchanged r x
      → Unchanged r y
      → Unchanged r (if test then x else y)
  either true x y p q = p
  either false x y p q = q

  found_or_not :
      {B : Type 0} (o : Option B) (missing : Result A × Registry) (next : B → Result A × Registry)
      → Unchanged r missing
      → ((b : B) → Unchanged r (next b))
      → Unchanged r (elim o as (λ o'. Result A × Registry) [ none ↦ missing | some b ↦ next b ])
  found_or_not none missing next p q = p
  found_or_not (some b) missing next p q = q b

-- A call that raises an exception, because of a check or because its save failed, leaves the
-- registry in memory as it was.
pub perform-rolls_back :
    (lower : Str → Str) (save : Save) (call : Call) (r : Registry) (e : Error)
    → (perform lower save call r).0 ≡ err e
    → (perform lower save call r).1 ≡ r
unfolding perform add_site add_sensor update_sensor remove_sensor match_device import_entries
perform-rolls_back lower save (adds_site site_id name) r =
    outcome-Unchanged r (add_site save site_id name r)
      (either r (contains r.sites site_id) _ _ (raised r _) (mutation-Unchanged r save _ _))
perform-rolls_back lower save (adds_sensor id site_id alias location notes) r =
    outcome-Unchanged r (add_sensor save id site_id alias location notes r) (
      either r (not (contains r.sites site_id)) _ _ (raised r _)
        (either r (contains r.sensors id) _ _ (raised r _) (mutation-Unchanged r save _ _)))
perform-rolls_back lower save (updates_sensor id site_id alias location notes) r =
    outcome-Unchanged r (update_sensor save id site_id alias location notes r) (
      found_or_not r (lookup r.sensors id) _ _ (raised r _) (λ s.
        either r (not (names_site site_id r)) _ _ (raised r _) (mutation-Unchanged r save _ _)))
perform-rolls_back lower save (removes_sensor id) r =
    outcome-Unchanged r (remove_sensor save id r)
      (either r (not (contains r.sensors id)) _ _ (raised r _) (mutation-Unchanged r save _ _))
perform-rolls_back lower save (matches id address now battery_pct) r =
    outcome-Unchanged r (match_device lower save id address now battery_pct r) (
      found_or_not r (lookup r.sensors id) _ _
        (found_or_not r (find_pending lower r.host address r.pending) _ _ (λ e h. refl)
          (λ p. mutation-Unchanged r save _ _))
        (λ s. mutation-Unchanged r save _ _))
perform-rolls_back lower save (imports source entries site_id site_name) r =
    let added = new_pending lower site_id r.host source (known_addresses lower site_id r) entries in
    outcome-Unchanged r (import_entries lower save source entries site_id site_name r) (
      either r (contains r.sites site_id && is_empty added) _ _ (λ e h. refl)
        (mutation-Unchanged r save _ _))
