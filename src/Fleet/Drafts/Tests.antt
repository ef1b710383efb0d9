-- ===== src/Fleet/Drafts/Tests.antt =====
-- A draft for a sensor that answers nothing, and for one without a session.
use ms605_ble.Prelude.{
  ℕ, ◌+◌, [], ◌∷◌, Option, none, some, true, false, if◌then◌else◌, ok, err, Error, key_error,
  timeout_error, pos, ◌≡◌, refl,
}
use ms605_ble.Dicts.{Str, Dict, contains, str_eq}
use ms605_ble.Events.{LinkState}
use ms605_ble.Profiles.{validate}
use ms605_ble.Fleet.Changes.{no_changes, Draft, validate_draft, validate_changes}
use ms605_ble.Fleet.Apply.{Device, ApplyResult}
use ms605_ble.Fleet.Batch.Results.{has_id}
use ms605_ble.Fleet.Drafts.{Target, find_sessions, apply_draft}
use ms605_ble.Fleet.Drafts.Laws.{apply_draft-all_or_nothing}

-- The state counts the attempts to read.
abbrev silent : Device ℕ
silent = record {
  read_config = λ d. (err timeout_error, d + 1);
  read_dnd = λ d. (err timeout_error, d + 1);
  send = λ attrs d. (err timeout_error, d);
  set_dnd = λ b d. (err timeout_error, d);
  connected = λ d. true;
  save_snapshot = λ p sections dnd d. (ok 1, d);
}

abbrev target : Target ℕ
target = record {
  device = silent;
  identified = λ d. true;
  busy = λ d. false;
  link = λ d. LinkState.connected;
}

abbrev sessions : Str → Option (Target ℕ)
sessions i = if str_eq i (1 ∷ []) then some target else none

abbrev draft : Draft
draft = record {
  targets = (1 ∷ []) ∷ (2 ∷ []) ∷ [];
  bulk = record no_changes { sensitivity = some (pos 3) };
  per_sensor = [];
}

draft-refused : apply_draft sessions 2 draft 0 ≡ (err key_error, 0)
unfolding apply_draft validate_draft validate_changes validate find_sessions
draft-refused = refl

apply_draft-all_or_nothing_example :
    ((e : Error) (d' : ℕ) → apply_draft sessions 2 draft 0 ≡ (err e, d') → d' ≡ 0)
    × ((results : Dict ApplyResult) (d' : ℕ) (id : Str)
        → apply_draft sessions 2 draft 0 ≡ (ok results, d')
        → has_id id draft.targets ≡ true
        → contains results id ≡ true)
apply_draft-all_or_nothing_example = apply_draft-all_or_nothing sessions 2 draft 0
