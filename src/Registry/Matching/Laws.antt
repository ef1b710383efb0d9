-- ===== src/Registry/Matching/Laws.antt =====
-- What `match` registers.
use ms605_ble.Prelude.{
  ℕ, List, [], Option, some, Bool, true, false, ok, ◌≡◌, refl, subst, arith, inl, inr, Option-cases,
  Result-cases,
}
use ms605_ble.Dicts.{Str, lookup, set_item, str_eq}
use ms605_ble.Dicts.Laws.{lookup-set_item_same, lookup-set_item_other}
use ms605_ble.Registry.{Sensor, PendingSensor, MatchResult, Registry, Save, mutation, new_sensor}
use ms605_ble.Registry.Matching.{
  find_pending, remove_first, drop_pending, seen, match_block, match_device, address_for,
}

-- A method that returned has saved, and left what its block made.
pub mutation-ok :
    {A : Type 0} (save : Save) (before after : Registry) (a b : A) (r' : Registry)
    → mutation save before after a ≡ (ok b, r')
    → (a ≡ b) × (after ≡ r')
unfolding mutation
mutation-ok save before after a b r' h = elim (Result-cases (save after)) [
  | inr (e, failed) ↦ absurd (ground (arith, failed, h))
  | inl (saved, made) ↦ (ground (arith, made, h), ground (arith, made, h))
]

-- The sensor is found under the id, with the address for this host, and all else is as it was.
abbrev pub IsRegistered : Str → Str → Registry → Sensor → Registry → Type 0
IsRegistered id address r s r' =
    (lookup r'.sensors id ≡ some s)
    × (address_for id r' ≡ some address)
    × (r'.sites ≡ r.sites)
    × ((other : Str) → str_eq id other ≡ false → lookup r'.sensors other ≡ lookup r.sensors other)

module _ (lower : Str → Str) (save : Save) (id address now : Str) (battery_pct : Option ℕ)
    (r : Registry) where
  seen-IsRegistered :
      (old : Sensor) (left : List PendingSensor)
      → IsRegistered id address r (seen r.host address now battery_pct old) (record r {
        sensors = set_item r.sensors id (seen r.host address now battery_pct old);
        pending = left;
      })
  unfolding address_for
  seen-IsRegistered old left =
      let sensor = seen r.host address now battery_pct old in
      let there = lookup-set_item_same r.sensors id sensor in
      (
        there,
        ground (arith, there, lookup-set_item_same old.addresses r.host address),
        refl,
        λ other differ. lookup-set_item_other r.sensors id sensor other differ,
      )

  block_registers :
      (r' : Registry) (m : MatchResult) (s : Sensor) (old : Sensor) (left : List PendingSensor)
      (resolved : Bool)
      → match_block save id address now battery_pct old left resolved r ≡ (ok m, r')
      → m.sensor ≡ some s
      → IsRegistered id address r s r'
  block_registers r' m s old left resolved h found =
      let sensor = seen r.host address now battery_pct old in
      let (em, er) = mutation-ok save r _ _ m r' h in
      let es : sensor ≡ s = ground (arith, em, found) in
      subst (IsRegistered id address r s) er (
        subst
          (λ x.
            IsRegistered id address r x
              (record r { sensors = set_item r.sensors id sensor; pending = left }))
          es (seen-IsRegistered old left))

  -- If `match` returns a sensor, then the sensor is registered under the device id, its address for
  -- this host is the one that was given, and the sites and all other sensors are as they were.
  pub match_device-IsRegistered :
      (m : MatchResult) (s : Sensor) (r' : Registry)
      → match_device lower save id address now battery_pct r ≡ (ok m, r')
      → m.sensor ≡ some s
      → IsRegistered id address r s r'
  unfolding match_device
  match_device-IsRegistered m s r' h found = elim (Option-cases (lookup r.sensors id)) [
    | inr (old, e) ↦
        block_registers r' m s old (drop_pending lower r.host address r.pending) false
          (ground (arith, e, h)) found
    | inl absent ↦ elim (Option-cases (find_pending lower r.host address r.pending)) [
      | inl e ↦ absurd (ground (arith, absent, e, h, found))
      | inr (p, e) ↦
          block_registers r' m s (new_sensor id p.site_id p.alias [] []) (remove_first p r.pending)
            true (ground (arith, absent, e, h)) found
    ]
  ]
