-- ===== src/Dicts.antt =====
-- Python's `str` as a list of code points, and its `dict` with such keys as a list of entries in the
-- order of insertion, each key once.
pub mod Laws
use ms605_ble.Prelude.{ℕ, List, [], ◌∷◌, Option, none, some, Bool, true, false, if◌then◌else◌}
use ms605_ble.Bytes.{bytes_eq}

abbrev pub Str : Type 0
Str = List ℕ

abbrev pub Dict : Type 0 → Type 0
Dict A = List (Str × A)

-- `s == t`
abbrev pub str_eq : Str → Str → Bool
str_eq s t = bytes_eq s t

-- `d.get(key)`
unfoldable pub lookup : {A : Type 0} → Dict A → Str → Option A
lookup [] key = none
lookup ((k, a) ∷ d) key = if str_eq k key then some a else lookup d key

abbrev pub is_some : {A : Type 0} → Option A → Bool
is_some none = false
is_some (some a) = true

-- `key in d`
unfoldable pub contains : {A : Type 0} → Dict A → Str → Bool
contains d key = is_some (lookup d key)

-- `d[key] = a`: an entry keeps its place, a new one comes last
unfoldable pub set_item : {A : Type 0} → Dict A → Str → A → Dict A
set_item [] key a = (key, a) ∷ []
set_item ((k, b) ∷ d) key a =
    let rest = set_item d key a in if str_eq k key then (k, a) ∷ d else (k, b) ∷ rest

-- `del d[key]`
unfoldable pub del_item : {A : Type 0} → Dict A → Str → Dict A
del_item [] key = []
del_item ((k, b) ∷ d) key =
    let rest = del_item d key in if str_eq k key then rest else (k, b) ∷ rest

-- `key in keys`, for a list or a set of strings
unfoldable pub is_member : List Str → Str → Bool
is_member [] key = false
is_member (k ∷ keys) key = if str_eq k key then true else is_member keys key
