-- ===== src/Registry/Matching.antt =====
-- `Registry.match` and `Registry.address_for`.
pub mod Laws
use ms605_ble.Prelude.{
  ℕ, List, [], ◌∷◌, Option, none, some, Bool, true, false, not, ◌&&◌, if◌then◌else◌, Result, ok,
}
use ms605_ble.Dicts.{Str, Dict, str_eq, lookup, set_item}
use ms605_ble.Registry.{Sensor, PendingSensor, MatchResult, Registry, Save, mutation, new_sensor}

-- `p.host == self.host and p.address.lower() == address.lower()`
abbrev pub is_here : (Str → Str) → Str → Str → PendingSensor → Bool
is_here lower host address p = str_eq p.host host && str_eq (lower p.address) (lower address)

-- `next((p for p in self._pending if ...), None)`
unfoldable pub find_pending : (Str → Str) → Str → Str → List PendingSensor → Option PendingSensor
find_pending lower host address [] = none
find_pending lower host address (p ∷ ps) =
    let later = find_pending lower host address ps in
    if is_here lower host address p then some p else later

-- `p == q`, field by field
abbrev pub pending_eq : PendingSensor → PendingSensor → Bool
pending_eq p q =
    str_eq p.site_id q.site_id
    && (str_eq p.alias q.alias
        && (str_eq p.address q.address && (str_eq p.host q.host && str_eq p.source q.source)))

-- `self._pending.remove(pending)`
unfoldable pub remove_first : PendingSensor → List PendingSensor → List PendingSensor
remove_first q [] = []
remove_first q (p ∷ ps) = let rest = remove_first q ps in if pending_eq p q then ps else p ∷ rest

-- `[p for p in self._pending if not (...)]`
unfoldable pub drop_pending : (Str → Str) → Str → Str → List PendingSensor → List PendingSensor
drop_pending lower host address [] = []
drop_pending lower host address (p ∷ ps) =
    let rest = drop_pending lower host address ps in
    if is_here lower host address p then rest else p ∷ rest

-- `sensor.addresses[self.host] = address; sensor.last_seen = ...; sensor.battery_pct = battery_pct`
abbrev pub seen : Str → Str → Str → Option ℕ → Sensor → Sensor
seen host address now battery_pct s = record s {
  addresses = set_item s.addresses host address;
  last_seen = some now;
  battery_pct = battery_pct;
}

-- The block of `match` and its result, for the sensor with the pending list that is left.
abbrev pub match_block :
    Save
    → Str
    → Str
    → Str
    → Option ℕ
    → Sensor
    → List PendingSensor
    → Bool
    → Registry
    → Result MatchResult × Registry
match_block save device_id address now battery_pct s left resolved r =
    let sensor = seen r.host address now battery_pct s in
    mutation save r (record r { sensors = set_item r.sensors device_id sensor; pending = left })
      (record { sensor = some sensor; resolved_pending = resolved })

-- `Registry.match`
unfoldable pub match_device :
    (Str → Str) → Save → Str → Str → Str → Option ℕ → Registry → Result MatchResult × Registry
unfolding find_pending remove_first drop_pending
match_device lower save device_id address now battery_pct r = elim (lookup r.sensors device_id) [
  | some s ↦
      match_block save device_id address now battery_pct s
        (drop_pending lower r.host address r.pending) false r
  | none ↦ elim (find_pending lower r.host address r.pending) [
    | none ↦ (ok (record { sensor = none; resolved_pending = false }), r)
    | some p ↦
        match_block save device_id address now battery_pct
          (new_sensor device_id p.site_id p.alias [] []) (remove_first p r.pending) true r
  ]
]

unfoldable pub address_for : Str → Registry → Option Str
address_for device_id r = elim (lookup r.sensors device_id) [
  | none ↦ none
  | some s ↦ lookup s.addresses r.host
]
