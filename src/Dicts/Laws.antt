-- ===== src/Dicts/Laws.antt =====
-- What a lookup finds after a dictionary was changed.
use ms605_ble.Prelude.{
  [], ◌∷◌, none, some, true, false, ◌≡◌, refl, ap, sym, ◌∙◌, arith, ◌⊎◌, inl, inr, Bool-cases,
}
use ms605_ble.Bytes.Laws.{bytes_eq_refl, bytes_eq→eq}
use ms605_ble.Dicts.{Str, Dict, str_eq, lookup, contains, set_item, del_item}

pub str_eq_cases : (s t : Str) → ((str_eq s t ≡ true) × (s ≡ t)) ⊎ (str_eq s t ≡ false)
str_eq_cases s t = elim (Bool-cases (str_eq s t)) [
  | inl same ↦ inl (same, bytes_eq→eq s t same)
  | inr other ↦ inr other
]

pub str_eq_same : (s t : Str) → s ≡ t → str_eq s t ≡ true
str_eq_same s t e = rw e (bytes_eq_refl t)

pub str_eq_other : (s t u : Str) → str_eq s t ≡ true → str_eq t u ≡ false → str_eq s u ≡ false
str_eq_other s t u same other = rw (bytes_eq→eq s t same) other

module _ {A : Type 0} where
  pub lookup-set_item_same :
      (d : Dict A) (key : Str) (a : A) → lookup (set_item d key a) key ≡ some a
  unfolding lookup set_item
  lookup-set_item_same [] key a = ground (arith, bytes_eq_refl key)
  lookup-set_item_same ((k, b) ∷ d) key a = elim (Bool-cases (str_eq k key)) [
    | inl same ↦ ground (arith, same)
    | inr other ↦ ground (arith, other, lookup-set_item_same d key a)
  ]

  pub lookup-set_item_other :
      (d : Dict A) (key : Str) (a : A) (other : Str)
      → str_eq key other ≡ false
      → lookup (set_item d key a) other ≡ lookup d other
  unfolding lookup set_item
  lookup-set_item_other [] key a other h = ground (arith, h)
  lookup-set_item_other ((k, b) ∷ d) key a other h = elim (Bool-cases (str_eq k key)) [
    | inl same ↦ ground (arith, same, h, str_eq_other k key other same h)
    | inr differ ↦ ground (arith, differ, lookup-set_item_other d key a other h)
  ]

  -- What is found after `set_item` is the new item, or was there under another key.
  pub lookup-set_item_cases :
      (d : Dict A) (key : Str) (a : A) (sought : Str) (found : A)
      → lookup (set_item d key a) sought ≡ some found
      → ((sought ≡ key) × (found ≡ a)) ⊎ (lookup d sought ≡ some found)
  lookup-set_item_cases d key a sought found h = elim (str_eq_cases key sought) [
    | inl (same, e) ↦
        inl
          (sym e, ground (arith, lookup-set_item_same d key a, ap (lookup (set_item d key a)) e, h))
    | inr other ↦ inr (sym (lookup-set_item_other d key a sought other) ∙ h)
  ]

  pub lookup-del_item : (d : Dict A) (key : Str) → lookup (del_item d key) key ≡ none
  unfolding lookup del_item
  lookup-del_item [] key = refl
  lookup-del_item ((k, b) ∷ d) key = elim (Bool-cases (str_eq k key)) [
    | inl same ↦ ground (arith, same, lookup-del_item d key)
    | inr other ↦ ground (arith, other, lookup-del_item d key)
  ]

  -- What is left after `del_item` was there.
  pub lookup-del_item_other :
      (d : Dict A) (key sought : Str)
      → str_eq key sought ≡ false
      → lookup (del_item d key) sought ≡ lookup d sought
  unfolding lookup del_item
  lookup-del_item_other [] key sought h = refl
  lookup-del_item_other ((k, b) ∷ d) key sought h = elim (Bool-cases (str_eq k key)) [
    | inl same ↦
        ground (arith, same, str_eq_other k key sought same h, lookup-del_item_other d key sought h)
    | inr other ↦ ground (arith, other, lookup-del_item_other d key sought h)
  ]

  pub contains-set_item :
      (d : Dict A) (key : Str) (a : A) (sought : Str)
      → contains d sought ≡ true
      → contains (set_item d key a) sought ≡ true
  unfolding contains
  contains-set_item d key a sought h = elim (str_eq_cases key sought) [
    | inl (same, e) ↦ ground (arith, lookup-set_item_same d key a, ap (lookup (set_item d key a)) e)
    | inr other ↦ ground (arith, h, lookup-set_item_other d key a sought other)
  ]

  pub contains-set_item_same :
      (d : Dict A) (key : Str) (a : A) → contains (set_item d key a) key ≡ true
  unfolding contains
  contains-set_item_same d key a = ground (arith, lookup-set_item_same d key a)
