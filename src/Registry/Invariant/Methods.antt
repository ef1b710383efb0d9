-- ===== src/Registry/Invariant/Methods.antt =====
-- Every method leaves a well-formed registry well formed, whether its save succeeds or not.
use ms605_ble.Prelude.{
  ℕ, List, [], ◌∷◌, ◌++◌, Option, none, some, Bool, true, false, not, ◌&&◌, Result, ok, err, Error,
  value_error, key_error, if◌then◌else◌, ◌≡◌, refl, inl, inr, arith, Bool-cases,
}
use ms605_ble.Dicts.{Str, Dict, lookup, contains, is_member}
use ms605_ble.Dicts.Laws.{contains-set_item, contains-set_item_same}
use ms605_ble.Registry.{
  Site, PendingSensor, Registry, Save, add_site, add_sensor, update_sensor, remove_sensor,
  new_sensor, or_kept, names_site,
}
use ms605_ble.Registry.Matching.{
  is_here, find_pending, remove_first, drop_pending, match_device, pending_eq, seen,
}
use ms605_ble.Registry.Importing.{import_entries, new_pending, with_site, known_addresses, is_empty}
use ms605_ble.Registry.Invariant.{
  PendingHome, IsWellFormed, mutation-keeps, SensorsHome-set_item, SensorsHome-del_item,
  SensorsHome-more, if-keeps, PendingHome-more,
}

-- A well-formed registry is kept where a check fails.
module _ {A : Type 0} where
  pub checked :
      (test : Bool) (e : Error) (r : Registry) (next : Result A × Registry)
      → IsWellFormed r
      → (test ≡ false → IsWellFormed (next.1))
      → IsWellFormed ((if test then (err e, r) else next).1)
  checked true e r next w q = w
  checked false e r next w q = q refl

  pub found_or_not :
      {B : Type 0} (o : Option B) (missing : Result A × Registry) (next : B → Result A × Registry)
      → (o ≡ none → IsWellFormed (missing.1))
      → ((b : B) → o ≡ some b → IsWellFormed ((next b).1))
      → IsWellFormed
          ((elim o as (λ o'. Result A × Registry) [ none ↦ missing | some b ↦ next b ]).1)
  found_or_not none missing next p q = p refl
  found_or_not (some b) missing next p q = q b refl

pub add_site-IsWellFormed :
    (save : Save) (site_id name : Str) (r : Registry)
    → IsWellFormed r
    → IsWellFormed ((add_site save site_id name r).1)
unfolding add_site
add_site-IsWellFormed save site_id name r w =
    checked (contains r.sites site_id) value_error r _ w (λ absent.
      mutation-keeps IsWellFormed save r _ _ w (
        SensorsHome-more r.sites _ (contains-set_item r.sites site_id _) r.sensors (w.0),
        PendingHome-more r.sites _ (contains-set_item r.sites site_id _) r.pending (w.1),
      ))

pub add_sensor-IsWellFormed :
    (save : Save) (id site_id alias location notes : Str) (r : Registry)
    → IsWellFormed r
    → IsWellFormed ((add_sensor save id site_id alias location notes r).1)
unfolding add_sensor
add_sensor-IsWellFormed save id site_id alias location notes r w =
    checked (not (contains r.sites site_id)) key_error r _ w (λ known.
      checked (contains r.sensors id) value_error r _ w (λ absent.
        mutation-keeps IsWellFormed save r _ _ w (
          SensorsHome-set_item r.sites r.sensors id (new_sensor id site_id alias location notes)
              (w.0) refl (ground (arith, known)),
          w.1,
        )))

pub remove_sensor-IsWellFormed :
    (save : Save) (id : Str) (r : Registry)
    → IsWellFormed r
    → IsWellFormed ((remove_sensor save id r).1)
unfolding remove_sensor
remove_sensor-IsWellFormed save id r w =
    checked (not (contains r.sensors id)) key_error r _ w (λ known.
      mutation-keeps IsWellFormed save r _ _ w
        (SensorsHome-del_item r.sites r.sensors id (w.0), w.1))

chosen_site :
    (site_id : Option Str) (r : Registry) (kept : Str)
    → contains r.sites kept ≡ true
    → not (names_site site_id r) ≡ false
    → contains r.sites (or_kept site_id kept) ≡ true
chosen_site none r kept known h = known
chosen_site (some id) r kept known h = ground (arith, h)

pub update_sensor-IsWellFormed :
    (save : Save) (id : Str) (site_id alias location notes : Option Str) (r : Registry)
    → IsWellFormed r
    → IsWellFormed ((update_sensor save id site_id alias location notes r).1)
unfolding update_sensor
update_sensor-IsWellFormed save id site_id alias location notes r w =
    found_or_not (lookup r.sensors id) _ _ (λ missing. w)
      (λ s e.
        let (own, home) = w.0 id s e in
        (checked (not (names_site site_id r)) key_error r _ w (λ named.
          mutation-keeps IsWellFormed save r _ _ w (
            SensorsHome-set_item r.sites r.sensors id _ (w.0) own
                (chosen_site site_id r s.site_id home named),
            w.1,
          ))))

module _ (sites : Dict Site) (lower : Str → Str) (host address : Str) where
  find_pending-home :
      (ps : List PendingSensor) (p : PendingSensor)
      → PendingHome sites ps
      → find_pending lower host address ps ≡ some p
      → contains sites p.site_id ≡ true
  unfolding find_pending
  find_pending-home [] p h e = absurd (ground (arith, e))
  find_pending-home (q ∷ ps) p (known, rest) e = elim (Bool-cases (is_here lower host address q)) [
    | inl here ↦ (let same : q ≡ p = ground (arith, e, here) in rw (← same) known)
    | inr other ↦ find_pending-home ps p rest (ground (arith, e, other))
  ]

  remove_first-home :
      (q : PendingSensor) (ps : List PendingSensor)
      → PendingHome sites ps
      → PendingHome sites (remove_first q ps)
  unfolding remove_first
  remove_first-home q [] h = tt
  remove_first-home q (p ∷ ps) (known, rest) =
      if-keeps (PendingHome sites) (pending_eq p q) ps (p ∷ remove_first q ps) (λ same. rest)
        (λ other. (known, remove_first-home q ps rest))

  drop_pending-home :
      (ps : List PendingSensor)
      → PendingHome sites ps
      → PendingHome sites (drop_pending lower host address ps)
  unfolding drop_pending
  drop_pending-home [] h = tt
  drop_pending-home (p ∷ ps) (known, rest) =
      if-keeps (PendingHome sites) (is_here lower host address p)
        (drop_pending lower host address ps) (p ∷ drop_pending lower host address ps)
        (λ here. drop_pending-home ps rest) (λ other. (known, drop_pending-home ps rest))

pub match_device-IsWellFormed :
    (lower : Str → Str) (save : Save) (id address now : Str) (battery_pct : Option ℕ) (r : Registry)
    → IsWellFormed r
    → IsWellFormed ((match_device lower save id address now battery_pct r).1)
unfolding match_device
match_device-IsWellFormed lower save id address now battery_pct r w =
    found_or_not (lookup r.sensors id) _ _
      (λ absent.
        found_or_not (find_pending lower r.host address r.pending) _ _ (λ missing. w)
          (λ p e.
            let home = find_pending-home r.sites lower r.host address r.pending p (w.1) e in
            mutation-keeps IsWellFormed save r _ _ w (
              SensorsHome-set_item r.sites r.sensors id
                  (seen r.host address now battery_pct (new_sensor id p.site_id p.alias [] []))
                  (w.0) refl home,
              remove_first-home r.sites lower r.host address p r.pending (w.1),
            )))
      (λ s e.
        let (own, home) = w.0 id s e in
        mutation-keeps IsWellFormed save r _ _ w (
          SensorsHome-set_item r.sites r.sensors id (seen r.host address now battery_pct s) (w.0)
              own home,
          drop_pending-home r.sites lower r.host address r.pending (w.1),
        ))

new_pending-home :
    (sites : Dict Site) (lower : Str → Str) (site_id host source : Str) (known : List Str)
    (entries : List (Str × Str))
    → contains sites site_id ≡ true
    → PendingHome sites (new_pending lower site_id host source known entries)
unfolding new_pending
new_pending-home sites lower site_id host source known [] home = tt
new_pending-home sites lower site_id host source known ((name, address) ∷ entries) home =
    if-keeps (PendingHome sites) (is_member known (lower address)) _ _
      (λ old. new_pending-home sites lower site_id host source known entries home)
      (λ new. (
        home,
        new_pending-home sites lower site_id host source (lower address ∷ known) entries home,
      ))

PendingHome-append :
    (sites : Dict Site) (ps qs : List PendingSensor)
    → PendingHome sites ps
    → PendingHome sites qs
    → PendingHome sites (ps ++ qs)
PendingHome-append sites [] qs h k = k
PendingHome-append sites (p ∷ ps) qs (known, rest) k =
    (known, PendingHome-append sites ps qs rest k)

pub with_site-contains :
    (site_id : Str) (site_name : Option Str) (sites : Dict Site)
    → contains (with_site site_id site_name sites) site_id ≡ true
with_site-contains site_id site_name sites =
    if-keeps (λ (d : Dict Site). contains d site_id ≡ true) (contains sites site_id) sites _
      (λ known. known) (λ new. contains-set_item_same sites site_id _)

with_site-keeps :
    (site_id : Str) (site_name : Option Str) (sites : Dict Site) (id : Str)
    → contains sites id ≡ true
    → contains (with_site site_id site_name sites) id ≡ true
with_site-keeps site_id site_name sites id h =
    if-keeps (λ (d : Dict Site). contains d id ≡ true) (contains sites site_id) sites _ (λ known. h)
      (λ new. contains-set_item sites site_id _ id h)

pub import_entries-IsWellFormed :
    (lower : Str → Str) (save : Save) (source : Str) (entries : List (Str × Str)) (site_id : Str)
    (site_name : Option Str) (r : Registry)
    → IsWellFormed r
    → IsWellFormed ((import_entries lower save source entries site_id site_name r).1)
unfolding import_entries
import_entries-IsWellFormed lower save source entries site_id site_name r w =
    let more = with_site site_id site_name r.sites in
    let kept = with_site-keeps site_id site_name r.sites in
    let added = new_pending lower site_id r.host source (known_addresses lower site_id r) entries in
    if-keeps (λ (o : Result (List PendingSensor) × Registry). IsWellFormed (o.1))
      (contains r.sites site_id && is_empty added) (ok [], r) _ (λ nothing. w)
      (λ some_new. mutation-keeps IsWellFormed save r _ _ w (
        SensorsHome-more r.sites more kept r.sensors (w.0),
        PendingHome-append more r.pending added (PendingHome-more r.sites more kept r.pending (w.1))
            (new_pending-home more lower site_id r.host source (known_addresses lower site_id r)
              entries (with_site-contains site_id site_name r.sites)),
      ))
