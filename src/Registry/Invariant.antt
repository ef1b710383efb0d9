-- ===== src/Registry/Invariant.antt =====
-- Every sensor stands under its own id, and its site exists, as does the site of every pending import.
pub mod Methods
use ms605_ble.Prelude.{
  ℕ, List, [], ◌∷◌, ◌++◌, Option, none, some, Bool, true, false, Result, ok, err, ◌⊎◌,
  if◌then◌else◌, subst, Result-cases, ◌≡◌, refl, sym, ap, ◌∙◌, inl, inr, All, arith, Bool-cases,
}
use ms605_ble.Dicts.{Str, Dict, lookup, contains, set_item, del_item, str_eq}
use ms605_ble.Dicts.Laws.{
  lookup-set_item_cases, contains-set_item, contains-set_item_same, lookup-del_item,
  lookup-del_item_other, str_eq_cases,
}
use ms605_ble.Registry.{Site, Sensor, PendingSensor, Registry, Save, mutation}

abbrev pub SensorsHome : Dict Site → Dict Sensor → Type 0
SensorsHome sites sensors =
    (id : Str) (s : Sensor)
    → lookup sensors id ≡ some s
    → (s.device_id ≡ id) × (contains sites s.site_id ≡ true)

abbrev pub PendingHome : Dict Site → List PendingSensor → Type 0
PendingHome sites = All (λ p. contains sites p.site_id ≡ true)

abbrev pub IsWellFormed : Registry → Type 0
IsWellFormed r = SensorsHome r.sites r.sensors × PendingHome r.sites r.pending

-- A save decides which of the two registries is left.
pub mutation_cases :
    {A : Type 0} (save : Save) (before after : Registry) (a : A)
    → ((mutation save before after a).1 ≡ before) ⊎ ((mutation save before after a).1 ≡ after)
unfolding mutation
mutation_cases save before after a = elim (Result-cases (save after)) [
  | inl (saved, e) ↦ inr (ground (arith, e))
  | inr (failure, e) ↦ inl (ground (arith, e))
]

pub mutation-keeps :
    {A : Type 0} (P : Registry → Type 0) (save : Save) (before after : Registry) (a : A)
    → P before
    → P after
    → P ((mutation save before after a).1)
mutation-keeps P save before after a p q = elim (mutation_cases save before after a) [
  | inl e ↦ subst P (sym e) p
  | inr e ↦ subst P (sym e) q
]

pub if-keeps :
    {A : Type 0} (P : A → Type 0) (test : Bool) (x y : A)
    → (test ≡ true → P x)
    → (test ≡ false → P y)
    → P (if test then x else y)
if-keeps P true x y p q = p refl
if-keeps P false x y p q = q refl

pub SensorsHome-set_item :
    (sites : Dict Site) (sensors : Dict Sensor) (id : Str) (s : Sensor)
    → SensorsHome sites sensors
    → s.device_id ≡ id
    → contains sites s.site_id ≡ true
    → SensorsHome sites (set_item sensors id s)
SensorsHome-set_item sites sensors id s home own known sought found h =
    elim (lookup-set_item_cases sensors id s sought found h) [
      | inl (at, same) ↦
          (ap (λ (x : Sensor). x.device_id) same ∙ own ∙ sym at, ground (arith, known, same))
      | inr old ↦ home sought found old
    ]

pub SensorsHome-del_item :
    (sites : Dict Site) (sensors : Dict Sensor) (id : Str)
    → SensorsHome sites sensors
    → SensorsHome sites (del_item sensors id)
SensorsHome-del_item sites sensors id home sought found h = elim (str_eq_cases id sought) [
  | inl (same, e) ↦
      absurd (ground (arith, lookup-del_item sensors id, ap (lookup (del_item sensors id)) e, h))
  | inr other ↦ home sought found (sym (lookup-del_item_other sensors id sought other) ∙ h)
]

module _ (sites more : Dict Site)
    (kept : (id : Str) → contains sites id ≡ true → contains more id ≡ true) where
  pub SensorsHome-more :
      (sensors : Dict Sensor) → SensorsHome sites sensors → SensorsHome more sensors
  SensorsHome-more sensors home id s h =
      let (own, known) = home id s h in (own, kept s.site_id known)

  pub PendingHome-more : (ps : List PendingSensor) → PendingHome sites ps → PendingHome more ps
  PendingHome-more [] h = tt
  PendingHome-more (p ∷ ps) (known, rest) = (kept p.site_id known, PendingHome-more ps rest)
