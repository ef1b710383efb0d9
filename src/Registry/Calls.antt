-- ===== src/Registry/Calls.antt =====
-- A call of a method that can change the registry, with its arguments and with the outcome of its
-- save, and its effect.
pub mod Laws
use ms605_ble.Prelude.{ℕ, List, [], ◌∷◌, Option, Result, ok, err}
use ms605_ble.Dicts.{Str}
use ms605_ble.Registry.{Registry, Save, add_site, add_sensor, update_sensor, remove_sensor}
use ms605_ble.Registry.Matching.{match_device}
use ms605_ble.Registry.Importing.{import_entries}

pub data Call : Type 0 where
  adds_site : Str → Str → Call
  adds_sensor : Str → Str → Str → Str → Str → Call
  updates_sensor : Str → Option Str → Option Str → Option Str → Option Str → Call
  removes_sensor : Str → Call
  matches : Str → Str → Str → Option ℕ → Call
  imports : Str → List (Str × Str) → Str → Option Str → Call

-- The result without its value, and the registry.
abbrev pub outcome : {A : Type 0} → Result A × Registry → Result (Unit {0}) × Registry
outcome (ok a, r) = (ok tt, r)
outcome (err e, r) = (err e, r)

unfoldable pub perform : (Str → Str) → Save → Call → Registry → Result (Unit {0}) × Registry
perform lower save (adds_site site_id name) r = outcome (add_site save site_id name r)
perform lower save (adds_sensor device_id site_id alias location notes) r =
    outcome (add_sensor save device_id site_id alias location notes r)
perform lower save (updates_sensor device_id site_id alias location notes) r =
    outcome (update_sensor save device_id site_id alias location notes r)
perform lower save (removes_sensor device_id) r = outcome (remove_sensor save device_id r)
perform lower save (matches device_id address now battery_pct) r =
    outcome (match_device lower save device_id address now battery_pct r)
perform lower save (imports source entries site_id site_name) r =
    outcome (import_entries lower save source entries site_id site_name r)

-- Calls one after the other, each with the outcome of its own save.
unfoldable pub perform_all : (Str → Str) → List (Save × Call) → Registry → Registry
unfolding perform
perform_all lower [] r = r
perform_all lower ((save, call) ∷ calls) r = perform_all lower calls ((perform lower save call r).1)
