-- ===== src/Registry/Tests.antt =====
-- A registry at work, and its theorems there.
use ms605_ble.Prelude.{
  ℕ, List, [], ◌∷◌, none, some, true, ok, err, storage_error, map, ltb, ◌&&◌, ◌+◌, if◌then◌else◌,
  ◌≡◌, refl, arith,
}
use ms605_ble.Dicts.{Str, lookup, contains, set_item, is_member}
use ms605_ble.Registry.{Sensor, PendingSensor, Registry, Save, mutation, add_site, new_sensor}
use ms605_ble.Registry.Matching.{match_device, seen}
use ms605_ble.Registry.Matching.Laws.{IsRegistered, match_device-IsRegistered}
use ms605_ble.Registry.Importing.{import_entries}
use ms605_ble.Registry.Importing.Laws.{import_entries-again}
use ms605_ble.Registry.Calls.{Call, adds_site, imports, matches, perform, perform_all}
use ms605_ble.Registry.Calls.Laws.{perform_all-IsWellFormed, perform-rolls_back}
use ms605_ble.Registry.Invariant.{IsWellFormed}

-- ASCII letters in lower case
abbrev lower_char : ℕ → ℕ
lower_char c = if ltb 64 c && ltb c 91 then c + 32 else c

abbrev lower : Str → Str
lower s = map lower_char s

abbrev saved : Save
saved r = ok tt

abbrev disk_full : Save
disk_full r = err storage_error

abbrev pc : Str
pc = 112 ∷ 99 ∷ []

abbrev lab : Str
lab = 108 ∷ 97 ∷ 98 ∷ []

abbrev id : Str
id = 49 ∷ 50 ∷ []

abbrev upper_address : Str
upper_address = 65 ∷ 58 ∷ 66 ∷ []

abbrev lower_address : Str
lower_address = 97 ∷ 58 ∷ 98 ∷ []

abbrev door : Str
door = 100 ∷ []

abbrev file : Str
file = 102 ∷ []

abbrev now : Str
now = 116 ∷ []

abbrev empty : Registry
empty = record { host = pc; sites = []; sensors = []; pending = [] }

empty-IsWellFormed : IsWellFormed empty
unfolding lookup
empty-IsWellFormed = (λ id s h. absurd (ground (arith, h)), tt)

-- The same address twice, in upper and in lower case.
abbrev entries : List (Str × Str)
entries = (door, upper_address) ∷ (file, lower_address) ∷ []

abbrev imported : PendingSensor
imported = record { site_id = lab; alias = door; address = upper_address; host = pc; source = file }

abbrev after_import : Registry
after_import = record {
  host = pc;
  sites = (lab, record { site_id = lab; name = lab }) ∷ [];
  sensors = [];
  pending = imported ∷ [];
}

import_works :
    import_entries lower saved file entries lab none empty ≡ (ok (imported ∷ []), after_import)
unfolding import_entries contains lookup set_item is_member mutation
import_works = refl

import_entries-again_example :
    import_entries lower disk_full file entries lab none after_import ≡ (ok [], after_import)
import_entries-again_example =
    import_entries-again lower saved disk_full file entries lab none empty (imported ∷ [])
      after_import import_works

abbrev matched : Sensor
matched = seen pc lower_address now (some 80) (new_sensor id lab door [] [])

abbrev after_match : Registry
after_match = record {
  host = pc;
  sites = (lab, record { site_id = lab; name = lab }) ∷ [];
  sensors = (id, matched) ∷ [];
  pending = [];
}

match_works :
    match_device lower saved id lower_address now (some 80) after_import
    ≡ (ok (record { sensor = some matched; resolved_pending = true }), after_match)
unfolding match_device lookup set_item mutation
match_works = refl

match_device-IsRegistered_example : IsRegistered id lower_address after_import matched after_match
match_device-IsRegistered_example =
    match_device-IsRegistered lower saved id lower_address now (some 80) after_import
      (record { sensor = some matched; resolved_pending = true }) matched after_match match_works
      refl

abbrev calls : List (Save × Call)
calls =
    (disk_full, adds_site lab door)
    ∷ (saved, imports file entries lab none)
    ∷ (saved, matches id lower_address now none)
    ∷ []

perform_all-IsWellFormed_example : IsWellFormed (perform_all lower calls empty)
perform_all-IsWellFormed_example = perform_all-IsWellFormed lower calls empty empty-IsWellFormed

save_fails : (perform lower disk_full (adds_site lab door) empty).0 ≡ err storage_error
unfolding perform add_site contains lookup mutation
save_fails = refl

perform-rolls_back_example : (perform lower disk_full (adds_site lab door) empty).1 ≡ empty
perform-rolls_back_example =
    perform-rolls_back lower disk_full (adds_site lab door) empty storage_error save_fails
