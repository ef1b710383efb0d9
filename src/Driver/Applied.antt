-- ===== src/Driver/Applied.antt =====
-- What `apply_profile` wrote is what a configuration read afterwards shows.
use ms605_ble.Prelude.{
  ℕ, List, [], ◌∷◌, Option, some, true, false, not, ◌==◌, Result, ok, err, All, ◌≡◌, refl, sym, ap,
  ◌∙◌, subst, arith, Result-cases, Bool-cases, inl, inr,
}
use ms605_ble.Protocol.Frame.{Attr, ParsedFrame, get}
use ms605_ble.Models.Config.{Ms605Config, decode_config}
use ms605_ble.Models.Config.Reads.{IsRead, decode_config-IsRead}
use ms605_ble.Profiles.{
  Section, profile_section_keys, ConfigProfile, validate, same_value, from_config, diff_sections,
  select,
}
use ms605_ble.Driver.{
  tag_of, section_value, writes, set_section, and_applied, then_write, write_sections, after_check,
  apply_profile,
}
use ms605_ble.Driver.Values.{section_value-read}

abbrev Fresh : Section → List Section → Type 0
Fresh k keys = All (λ j. (tag_of j == tag_of k) ≡ false) keys

abbrev Distinct : List Section → Type 0
Distinct [] = Unit
Distinct (k ∷ keys) = Fresh k keys × Distinct keys

module _ {Device : Type 0} (setting : Device → ℕ → Option (List ℕ)) where
  -- A section that `apply_profile` is to write, whose attribute holds what was made of it.
  abbrev IsWritten : ConfigProfile → List Section → Device → Section → Type 0
  IsWritten p wanted d k =
      (writes p wanted k ≡ true)
      × (v : List ℕ) × (section_value p k ≡ ok v)
      × (setting d (tag_of k) ≡ some v)

module _ {Device : Type 0} (send : List Attr → Device → Result (Unit {0}) × Device)
    (setting : Device → ℕ → Option (List ℕ)) where
  -- A device that keeps what an acknowledged SET of one attribute brought, and changes no other
  -- attribute for it.
  pub record IsStore : Type 0 where
    pub stored :
        (t : ℕ) (v : List ℕ) (d d' : Device)
        → send ((t, v) ∷ []) d ≡ (ok tt, d')
        → setting d' t ≡ some v
    pub kept :
        (t s : ℕ) (v : List ℕ) (d d' : Device)
        → send ((t, v) ∷ []) d ≡ (ok tt, d')
        → (t == s) ≡ false
        → setting d' s ≡ setting d s

  and_applied-ok :
      (k : Section) (r : Result (List Section) × Device) (applied : List Section) (d' : Device)
      → and_applied k r ≡ (ok applied, d')
      → (rest : List Section) × (r ≡ (ok rest, d')) × (applied ≡ k ∷ rest)
  and_applied-ok k (err e, d) applied d' h = absurd (cc h)
  and_applied-ok k (ok rest, d) applied d' h = (rest, cc h, cc h)

  then_write-ok :
      (k : Section) (next : Device → Result (List Section) × Device)
      (r : Result (Unit {0}) × Device) (applied : List Section) (d' : Device)
      → then_write k next r ≡ (ok applied, d')
      → (d1 : Device) × (r ≡ (ok tt, d1)) × (and_applied k (next d1) ≡ (ok applied, d'))
  then_write-ok k next (err e, d) applied d' h = absurd (cc h)
  then_write-ok k next (ok done, d) applied d' h = (d, refl, h)

  set_section-ok :
      (p : ConfigProfile) (k : Section) (d d1 : Device)
      → set_section send p k d ≡ (ok tt, d1)
      → (v : List ℕ) × (section_value p k ≡ ok v) × (send ((tag_of k, v) ∷ []) d ≡ (ok tt, d1))
  unfolding set_section
  set_section-ok p k d d1 h = elim (Result-cases (section_value p k)) [
    | inr (e, failed) ↦ absurd (cc (h, failed))
    | inl (v, made) ↦ (v, made, cc (h, made))
  ]

  module _ (store : IsStore) (p : ConfigProfile) (wanted : List Section) where
    HasWritten : List Section → Device → List Section → Device → Type 0
    HasWritten keys d applied d' =
        All (IsWritten setting p wanted d') applied
        × (applied ≡ select (writes p wanted) keys)
        × ((s : Section) → Fresh s keys → setting d' (tag_of s) ≡ setting d (tag_of s))

    write_sections-HasWritten :
        (keys : List Section) (d d' : Device) (applied : List Section)
        → Distinct keys
        → write_sections send p wanted keys d ≡ (ok applied, d')
        → HasWritten keys d applied d'
    unfolding write_sections HasWritten
    write_sections-HasWritten [] d d' applied distinct h =
        let none_written : [] ≡ applied = cc h in
        let untouched : d ≡ d' = cc h in
        (
          subst (All (IsWritten setting p wanted d')) none_written tt,
          sym none_written,
          λ s q. ap (λ x. setting x (tag_of s)) (sym untouched),
        )
    write_sections-HasWritten (k ∷ keys) d d' applied (fresh, distinct) h =
        elim (Bool-cases (writes p wanted k)) [
          | inr e ↦
              let (all, chosen, same) =
                write_sections-HasWritten keys d d' applied distinct (cc (h, e)) in
              (all, ground (arith, e, chosen), λ s q. same s (q.1))
          | inl e ↦
              let (d1, sent, after) =
                then_write-ok k (write_sections send p wanted keys) (set_section send p k d) applied
                  d' (cc (h, e)) in
              let (v, made, set) = set_section-ok p k d d1 sent in
              let (rest, below, whole) =
                and_applied-ok k (write_sections send p wanted keys d1) applied d' after in
              let (all, chosen, same) = write_sections-HasWritten keys d1 d' rest distinct below in
              (
                subst (All (IsWritten setting p wanted d')) (sym whole)
                    ((e, v, made, same k fresh ∙ store.stored (tag_of k) v d d1 set), all),
                ground (arith, e, whole, chosen),
                λ s q. same s (q.1) ∙ store.kept (tag_of k) (tag_of s) v d d1 set (q.0),
              )
        ]

all_same-select :
    (p q : ConfigProfile) (ks : List Section)
    → All (λ k. same_value p q k ≡ true) ks
    → select (λ k. not (same_value p q k)) ks ≡ []
all_same-select p q [] h = refl
all_same-select p q (k ∷ ks) (h, rest) = ground (arith, h, all_same-select p q ks rest)

shown-same :
    {Device : Type 0} (setting : Device → ℕ → Option (List ℕ)) (p : ConfigProfile)
    (wanted : List Section) (d : Device) (f : ParsedFrame) (cfg : Ms605Config)
    → validate wanted p ≡ ok tt
    → ((k : Section) → get f.attributes (tag_of k) ≡ setting d (tag_of k))
    → IsRead f cfg
    → (ks : List Section) → All (IsWritten setting p wanted d) ks
    → All (λ k. same_value p (from_config cfg) k ≡ true) ks
shown-same setting p wanted d f cfg valid shown r [] h = tt
shown-same setting p wanted d f cfg valid shown r (k ∷ ks) ((w, v, made, set), rest) = (
  section_value-read f cfg p wanted k v r valid (ground (arith, w)) made (shown k ∙ set),
  shown-same setting p wanted d f cfg valid shown r ks rest,
)

after_check-ok :
    {Device : Type 0} (c : Result (Unit {0})) (d d' : Device)
    (writing : Result (List Section) × Device) (applied : List Section)
    → after_check c d writing ≡ (ok applied, d')
    → (c ≡ ok tt) × (writing ≡ (ok applied, d'))
after_check-ok (err e) d d' writing applied h = absurd (cc h)
after_check-ok (ok u) d d' writing applied h = (refl, h)

-- The keys go to different attributes.
distinct : Distinct profile_section_keys
distinct = (
  (refl, (refl, (refl, (refl, (refl, (refl, tt)))))),
  (
    (refl, (refl, (refl, (refl, (refl, tt))))),
    (
      (refl, (refl, (refl, (refl, tt)))),
      ((refl, (refl, (refl, tt))), ((refl, (refl, tt)), ((refl, tt), (tt, tt)))),
    ),
  ),
)

-- With a device that keeps what an acknowledged SET brought: when `apply_profile` returns, it has
-- written the wanted sections that the profile has, in the order of the keys, except a detect mode
-- of space learning; and where a response shows the device's attributes and `decode_config` accepts
-- it, `diff_sections` finds each of these sections of the profile in the configuration.
pub apply_profile-verifies :
    {Device : Type 0} (send : List Attr → Device → Result (Unit {0}) × Device)
    (setting : Device → ℕ → Option (List ℕ)) (p : ConfigProfile) (wanted applied : List Section)
    (d d' : Device) (f : ParsedFrame) (cfg : Ms605Config)
    → IsStore send setting
    → apply_profile send p wanted d ≡ (ok applied, d')
    → ((k : Section) → get f.attributes (tag_of k) ≡ setting d' (tag_of k))
    → decode_config f ≡ ok cfg
    → (applied ≡ select (writes p wanted) profile_section_keys)
      × (diff_sections p (from_config cfg) applied ≡ [])
unfolding apply_profile diff_sections HasWritten
apply_profile-verifies send setting p wanted applied d d' f cfg store h shown read =
    let (valid, wrote) =
      after_check-ok (validate wanted p) d d' (write_sections send p wanted profile_section_keys d)
        applied h in
    let (all, chosen, same) =
      write_sections-HasWritten send setting store p wanted profile_section_keys d d' applied
        distinct wrote in
    (
      chosen,
      all_same-select p (from_config cfg) applied (
          shown-same setting p wanted d' f cfg valid shown (decode_config-IsRead f cfg read) applied
            all),
    )
