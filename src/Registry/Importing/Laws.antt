-- ===== src/Registry/Importing/Laws.antt =====
-- Importing the same file again.
use ms605_ble.Prelude.{
  List, [], ◌∷◌, ◌++◌, Option, true, false, ◌&&◌, ◌||◌, ok, ◌≡◌, refl, sym, subst, arith, inl, inr,
  Bool-cases, All,
}
use ms605_ble.Bytes.Laws.{bytes_eq_refl}
use ms605_ble.Dicts.{Str, contains, is_member}
use ms605_ble.Registry.{PendingSensor, Registry, Save}
use ms605_ble.Registry.Importing.{
  pending_addresses, sensor_addresses, known_addresses, new_pending, with_site, is_empty,
  import_entries,
}
use ms605_ble.Registry.Matching.Laws.{mutation-ok}
use ms605_ble.Registry.Invariant.Methods.{with_site-contains}

is_member-append :
    (xs ys : List Str) (key : Str)
    → is_member (xs ++ ys) key ≡ (is_member xs key || is_member ys key)
unfolding is_member
is_member-append [] ys key = refl
is_member-append (x ∷ xs) ys key = ground (arith, is_member-append xs ys key)

module _ (lower : Str → Str) (site_id host source : Str) where
  abbrev addresses : List PendingSensor → List Str
  addresses = pending_addresses lower site_id host

  abbrev fresh : List Str → List (Str × Str) → List PendingSensor
  fresh = new_pending lower site_id host source

  -- The addresses of all entries.
  abbrev AreKnown : List Str → List (Str × Str) → Type 0
  AreKnown known = All (λ e. is_member known (lower (e.1)) ≡ true)

  AreKnown-more :
      (known more : List Str) (entries : List (Str × Str))
      → ((key : Str) → is_member known key ≡ true → is_member more key ≡ true)
      → AreKnown known entries
      → AreKnown more entries
  AreKnown-more known more [] keep h = tt
  AreKnown-more known more (e ∷ entries) keep (h, rest) =
      (keep (lower (e.1)) h, AreKnown-more known more entries keep rest)

  fresh-old :
      (known : List Str) (name address : Str) (entries : List (Str × Str))
      → is_member known (lower address) ≡ true
      → fresh known ((name, address) ∷ entries) ≡ fresh known entries
  unfolding new_pending
  fresh-old known name address entries h = ground (arith, h)

  addresses-new :
      (known : List Str) (name address : Str) (entries : List (Str × Str))
      → is_member known (lower address) ≡ false
      → addresses (fresh known ((name, address) ∷ entries))
        ≡ lower address ∷ addresses (fresh (lower address ∷ known) entries)
  unfolding new_pending pending_addresses
  addresses-new known name address entries h =
      ground (arith, h, bytes_eq_refl site_id, bytes_eq_refl host)

  moved :
      (seen known : List Str) (a key : Str)
      → is_member (seen ++ (a ∷ known)) key ≡ true
      → is_member ((a ∷ seen) ++ known) key ≡ true
  unfolding is_member
  moved seen known a key h =
      ground
        (arith, h, is_member-append seen (a ∷ known) key, is_member-append (a ∷ seen) known key)

  first_there : (a : Str) (keys : List Str) → is_member (a ∷ keys) a ≡ true
  unfolding is_member
  first_there a keys = ground (arith, bytes_eq_refl a)

  -- Every entry was known before, or is among those that were added.
  fresh-AreKnown :
      (known : List Str) (entries : List (Str × Str))
      → AreKnown (addresses (fresh known entries) ++ known) entries
  fresh-AreKnown known [] = tt
  fresh-AreKnown known ((name, address) ∷ entries) =
      elim (Bool-cases (is_member known (lower address))) [
        | inl old ↦
            subst
              (λ (ps : List PendingSensor).
                AreKnown (addresses ps ++ known) ((name, address) ∷ entries))
              (sym (fresh-old known name address entries old))
              (
                ground (
                  arith,
                  old,
                  is_member-append (addresses (fresh known entries)) known (lower address),
                ),
                fresh-AreKnown known entries,
              )
        | inr new ↦
            let found = addresses (fresh (lower address ∷ known) entries) in
            subst (λ (keys : List Str). AreKnown (keys ++ known) ((name, address) ∷ entries))
              (sym (addresses-new known name address entries new))
              (
                first_there (lower address) (found ++ known),
                AreKnown-more (found ++ (lower address ∷ known)) ((lower address ∷ found) ++ known)
                    entries (moved found known (lower address))
                    (fresh-AreKnown (lower address ∷ known) entries),
              )
      ]

  fresh-nothing :
      (known : List Str) (entries : List (Str × Str))
      → AreKnown known entries
      → fresh known entries ≡ []
  unfolding new_pending
  fresh-nothing known [] h = refl
  fresh-nothing known ((name, address) ∷ entries) (h, rest) =
      ground (arith, h, fresh-nothing known entries rest)

  addresses-append :
      (ps qs : List PendingSensor) → addresses (ps ++ qs) ≡ addresses ps ++ addresses qs
  unfolding pending_addresses
  addresses-append [] qs = refl
  addresses-append (p ∷ ps) qs = ground (arith, addresses-append ps qs)

  -- After the import every entry is known.
  after-AreKnown :
      (ps : List PendingSensor) (others : List Str) (entries : List (Str × Str))
      → AreKnown (addresses (ps ++ fresh (addresses ps ++ others) entries) ++ others) entries
  after-AreKnown ps others entries =
      AreKnown-more _ _ entries
        (λ key h. ground (
          arith,
          h,
          addresses-append ps (fresh (addresses ps ++ others) entries),
          is_member-append (addresses (fresh (addresses ps ++ others) entries))
              (addresses ps ++ others) key,
          is_member-append (addresses ps) others key,
          is_member-append (addresses ps ++ addresses (fresh (addresses ps ++ others) entries))
              others key,
          is_member-append (addresses ps) (addresses (fresh (addresses ps ++ others) entries)) key,
        ))
        (fresh-AreKnown (addresses ps ++ others) entries)

-- Importing a file a second time into the same site, after it was imported with success, adds
-- nothing, saves nothing and leaves the registry as it is.
pub import_entries-again :
    (lower : Str → Str) (save later_save : Save) (source : Str) (entries : List (Str × Str))
    (site_id : Str) (site_name : Option Str) (r : Registry) (added : List PendingSensor)
    (r' : Registry)
    → import_entries lower save source entries site_id site_name r ≡ (ok added, r')
    → import_entries lower later_save source entries site_id site_name r' ≡ (ok [], r')
unfolding import_entries
import_entries-again lower save later_save source entries site_id site_name r added r' h =
    let old = sensor_addresses lower r.host r.sensors in
    let new = new_pending lower site_id r.host source (known_addresses lower site_id r) entries in
    elim (Bool-cases (contains r.sites site_id && is_empty new)) [
      | inl nothing ↦
          let same : r ≡ r' = ground (arith, h, nothing) in
          subst
            (λ x. import_entries lower later_save source entries site_id site_name x ≡ (ok [], x))
            same (ground (arith, nothing))
      | inr something ↦
          let (ea, er) =
            mutation-ok save r
              (record r { sites = with_site site_id site_name r.sites; pending = r.pending ++ new })
              new added r' (ground (arith, something, h)) in
          subst
            (λ x. import_entries lower later_save source entries site_id site_name x ≡ (ok [], x))
            er
            (ground (
              arith,
              with_site-contains site_id site_name r.sites,
              fresh-nothing lower site_id r.host source _ entries
                  (after-AreKnown lower site_id r.host source r.pending old entries),
            ))
    ]
