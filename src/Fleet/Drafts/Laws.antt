-- ===== src/Fleet/Drafts/Laws.antt =====
-- A draft is refused as a whole, or answered for every target.
use ms605_ble.Prelude.{
  ℕ, List, [], ◌∷◌, Option, Bool, true, ◌||◌, Result, ok, err, Error, key_error, or_raise, ◌>>◌,
  if◌then◌else◌, ◌≡◌, refl, sym, subst, ap, ◌∙◌, arith, >>=-eq-ok, ok-inj,
}
use ms605_ble.Dicts.{Str, Dict, str_eq, contains, set_item}
use ms605_ble.Fleet.Changes.{Draft, validate_draft, changes_for}
use ms605_ble.Fleet.Apply.{ApplyResult, apply_changes}
use ms605_ble.Fleet.Batch.Results.{has_id, contains-set}
use ms605_ble.Fleet.Drafts.{Target, find_sessions, apply_targets, apply_found, apply_draft}

module _ {D : Type 0} (sessions : Str → Option (Target D)) where
  -- The ids of the sessions found are those asked for.
  abbrev ids_of : List (Str × Target D) → List Str
  ids_of [] = []
  ids_of ((i, t) ∷ targets) = i ∷ ids_of targets

  find_sessions-ids :
      (ids : List Str) (targets : List (Str × Target D))
      → find_sessions sessions ids ≡ ok targets
      → ids_of targets ≡ ids
  unfolding find_sessions
  find_sessions-ids [] targets h = sym (ap ids_of (ok-inj h))
  find_sessions-ids (i ∷ ids) targets h =
      let (t, found, h1) = >>=-eq-ok (or_raise (sessions i) key_error) _ h in
      let (rest, others, h2) = >>=-eq-ok (find_sessions sessions ids) _ h1 in
      sym (ap ids_of (ok-inj h2)) ∙ ap (λ l. i ∷ l) (find_sessions-ids ids rest others)

  apply_targets-contains :
      (rounds : ℕ) (draft : Draft) (targets : List (Str × Target D)) (results : Dict ApplyResult)
      (d : D) (id : Str)
      → (contains results id || has_id id (ids_of targets)) ≡ true
      → contains ((apply_targets sessions rounds draft targets results d).0) id ≡ true
  unfolding apply_targets
  apply_targets-contains rounds draft [] results d id h = ground (arith, h)
  apply_targets-contains rounds draft ((i, t) ∷ targets) results d id h =
      let (r, d1) =
        apply_changes t.device rounds (t.identified d) (t.busy d) (t.link d) (changes_for draft i)
          d in
      apply_targets-contains rounds draft targets (set_item results i r) d1 id (
        one_of (str_eq i id) (has_id id (ids_of targets)) (contains results id)
          (contains (set_item results i r) id) h (contains-set results i r id))
    where
      one_of :
          (e m s s' : Bool)
          → (s || (if e then true else m)) ≡ true
          → ((s || e) ≡ true → s' ≡ true)
          → (s' || m) ≡ true
      one_of e m s s' h grow = ground (arith, h, grow)

  -- Refused, and nothing touched; or every target has a result.
  abbrev IsWhole : List Str → D → Result (Dict ApplyResult) × D → Type 0
  IsWhole ids d (err e, d') = d' ≡ d
  IsWhole ids d (ok results, d') = (id : Str) → has_id id ids ≡ true → contains results id ≡ true

  apply_found-IsWhole :
      (rounds : ℕ) (draft : Draft) (found : Result (List (Str × Target D))) (d : D)
      → ((targets : List (Str × Target D)) → found ≡ ok targets → ids_of targets ≡ draft.targets)
      → IsWhole draft.targets d (apply_found sessions rounds draft found d)
  apply_found-IsWhole rounds draft (err e) d same = refl
  apply_found-IsWhole rounds draft (ok targets) d same = λ id named.
      apply_targets-contains rounds draft targets [] d id
        (ground (arith, ap (has_id id) (same targets refl) ∙ named))

  found_ids :
      (draft : Draft) (targets : List (Str × Target D))
      → (validate_draft draft >> find_sessions sessions draft.targets) ≡ ok targets
      → ids_of targets ≡ draft.targets
  found_ids draft targets h =
      let (u, valid, found) = >>=-eq-ok (validate_draft draft) _ h in
      find_sessions-ids draft.targets targets found

-- Where `Fleet.apply` raises, for a draft that is not valid or a target without a session, no
-- device was touched; where it returns, every target has a result.
pub apply_draft-all_or_nothing :
    {D : Type 0} (sessions : Str → Option (Target D)) (rounds : ℕ) (draft : Draft) (d : D)
    → ((e : Error) (d' : D) → apply_draft sessions rounds draft d ≡ (err e, d') → d' ≡ d)
      × ((results : Dict ApplyResult) (d' : D) (id : Str)
          → apply_draft sessions rounds draft d ≡ (ok results, d')
          → has_id id draft.targets ≡ true
          → contains results id ≡ true)
unfolding apply_draft
apply_draft-all_or_nothing sessions rounds draft d = (
  λ e d' h. subst (IsWhole sessions draft.targets d) h whole,
  λ results d' id h. subst (IsWhole sessions draft.targets d) h whole id,
)
  where
    whole : IsWhole sessions draft.targets d (
        apply_found sessions rounds draft
          (validate_draft draft >> find_sessions sessions draft.targets)
          d)
    whole =
        apply_found-IsWhole sessions rounds draft
          (validate_draft draft >> find_sessions sessions draft.targets) d
          (found_ids sessions draft)
