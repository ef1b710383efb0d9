-- ===== src/Fleet/Drafts.antt =====
-- `Fleet.apply` of ms605/fleet.py: a draft applied to its targets, one at a time and in order.
pub mod Laws
pub mod Tests
use ms605_ble.Prelude.{
  ℕ, List, [], ◌∷◌, Option, none, some, Bool, Result, ok, err, key_error, or_raise, ◌>>=◌, ◌>>◌,
}
use ms605_ble.Dicts.{Str, Dict, set_item}
use ms605_ble.Events.{LinkState}
use ms605_ble.Fleet.Changes.{Draft, changes_for, validate_draft}
use ms605_ble.Fleet.Apply.{Device, ApplyResult, apply_changes}

-- A session, as `apply_changes` meets it when its turn comes.
pub record Target (D : Type 0) : Type 0 where
  pub device : Device D
  pub identified : D → Bool
  pub busy : D → Bool
  pub link : D → LinkState

module _ {D : Type 0} (sessions : Str → Option (Target D)) where
  -- `[self._sessions[t] for t in draft.targets]`, each with its id
  unfoldable pub find_sessions : List Str → Result (List (Str × Target D))
  find_sessions [] = ok []
  find_sessions (device_id ∷ ids) = do
    session ← or_raise (sessions device_id) key_error
    rest ← find_sessions ids
    ok ((device_id, session) ∷ rest)

  -- `results[device_id] = await apply_changes(...)`, in turn
  unfoldable pub apply_targets :
      ℕ → Draft → List (Str × Target D) → Dict ApplyResult → D → Dict ApplyResult × D
  apply_targets rounds draft [] results d = (results, d)
  apply_targets rounds draft ((device_id, t) ∷ targets) results d =
      let (result, d1) =
        apply_changes t.device rounds (t.identified d) (t.busy d) (t.link d)
          (changes_for draft device_id) d in
      apply_targets rounds draft targets (set_item results device_id result) d1

  -- Once the draft is valid and its sessions are found.
  abbrev pub apply_found :
      ℕ → Draft → Result (List (Str × Target D)) → D → Result (Dict ApplyResult) × D
  apply_found rounds draft (err e) d = (err e, d)
  apply_found rounds draft (ok targets) d =
      let (results, d1) = apply_targets rounds draft targets [] d in (ok results, d1)

  -- `Fleet.apply`
  unfoldable pub apply_draft : ℕ → Draft → D → Result (Dict ApplyResult) × D
  apply_draft rounds draft d =
      apply_found rounds draft (validate_draft draft >> find_sessions draft.targets) d
