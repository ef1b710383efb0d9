-- ===== src/Registry/Importing.antt =====
-- `Registry.import_sensor_info`, from the entries that the file's lines were split into. `lower` is
-- `str.lower`, `source` the file's name.
pub mod Laws
use ms605_ble.Prelude.{
  List, [], ◌∷◌, ◌++◌, Option, none, some, Bool, true, false, not, ◌&&◌, if◌then◌else◌, Result, ok,
}
use ms605_ble.Dicts.{Str, Dict, str_eq, lookup, contains, set_item, is_member}
use ms605_ble.Registry.{Site, Sensor, PendingSensor, Registry, Save, mutation}

-- `{p.address.lower() for p in self._pending if p.site_id == site_id and p.host == self.host}`
unfoldable pub pending_addresses : (Str → Str) → Str → Str → List PendingSensor → List Str
pending_addresses lower site_id host [] = []
pending_addresses lower site_id host (p ∷ ps) =
    let rest = pending_addresses lower site_id host ps in
    if str_eq p.site_id site_id && str_eq p.host host then lower p.address ∷ rest else rest

-- `{s.addresses[self.host].lower() for s in self._sensors.values() if self.host in s.addresses}`
unfoldable pub sensor_addresses : (Str → Str) → Str → Dict Sensor → List Str
sensor_addresses lower host [] = []
sensor_addresses lower host ((k, s) ∷ sensors) =
    let rest = sensor_addresses lower host sensors in
    elim (lookup s.addresses host) [ none ↦ rest | some address ↦ lower address ∷ rest ]

unfoldable pub known_addresses : (Str → Str) → Str → Registry → List Str
unfolding pending_addresses sensor_addresses
known_addresses lower site_id r =
    pending_addresses lower site_id r.host r.pending ++ sensor_addresses lower r.host r.sensors

-- `for name, address in entries: ...`, on what is known so far
unfoldable pub new_pending :
    (Str → Str) → Str → Str → Str → List Str → List (Str × Str) → List PendingSensor
new_pending lower site_id host source known [] = []
new_pending lower site_id host source known ((name, address) ∷ entries) =
    let same = new_pending lower site_id host source known entries in
    let more = new_pending lower site_id host source (lower address ∷ known) entries in
    if is_member known (lower address)
    then same
    else record { site_id = site_id; alias = name; address = address; host = host; source = source }
      ∷ more

-- `site_name or site_id`
abbrev pub name_or : Option Str → Str → Str
name_or none site_id = site_id
name_or (some []) site_id = site_id
name_or (some (c ∷ cs)) site_id = c ∷ cs

abbrev pub is_empty : List PendingSensor → Bool
is_empty [] = true
is_empty (p ∷ ps) = false

-- `if site_id not in self._sites: self._sites[site_id] = Site(...)`
abbrev pub with_site : Str → Option Str → Dict Site → Dict Site
with_site site_id site_name sites =
    if contains sites site_id
    then sites
    else set_item sites site_id (record { site_id = site_id; name = name_or site_name site_id })

unfoldable pub import_entries :
    (Str → Str)
    → Save
    → Str
    → List (Str × Str)
    → Str
    → Option Str
    → Registry
    → Result (List PendingSensor) × Registry
unfolding known_addresses new_pending
import_entries lower save source entries site_id site_name r =
    let added = new_pending lower site_id r.host source (known_addresses lower site_id r) entries in
    if contains r.sites site_id && is_empty added
    then (ok [], r)
    else mutation save r
        (record r { sites = with_site site_id site_name r.sites; pending = r.pending ++ added })
        added
