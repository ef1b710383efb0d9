-- ===== src/Fleet/Apply/Safety.antt =====
-- Nothing is written before the snapshot is saved.
use ms605_ble.Prelude.{
  ℕ, List, [], Option, none, some, Bool, true, false, not, if◌then◌else◌, Result, ok, err,
  ms605_error, session_busy, connection_error, ◌≡◌, refl, sym, subst, Error,
}
use ms605_ble.Events.{LinkState, is_connected}
use ms605_ble.Profiles.{Section, ConfigProfile, from_config, sections_present}
use ms605_ble.Fleet.Changes.{SensorChanges, resolve, ChangeSection}
use ms605_ble.Fleet.Apply.Prepared.{IsPrepared, prepare-IsPrepared}
use ms605_ble.Fleet.Apply.{
  Device, ApplyResult, failed_with, then_do, read_dnd_if, prepare, written_sections, write_target,
  verified, poll_verify, after_write, after_prepare, apply_locked, apply_changes, or_nothing,
  compare_once,
}

-- What reading a device and saving a snapshot leave true.
pub record IsKept {D : Type 0} (ms : Device D) (P : D → Type 0) : Type 0 where
  pub by_config : (d : D) → P d → P ((ms.read_config d).1)
  pub by_dnd : (d : D) → P d → P ((ms.read_dnd d).1)
  pub by_saving :
      (p : ConfigProfile) (sections : List ChangeSection) (dnd : Option Bool) (d : D)
      → P d
      → P ((ms.save_snapshot p sections dnd d).1)

module _ {D : Type 0} (ms : Device D) (P : D → Type 0) where
  -- Without a name, the property still holds at the end. A name is that of a snapshot that was saved
  -- of the configuration as it was read, in a state where the property still held.
  abbrev pub IsSavedFirst : SensorChanges → D → Option ℕ → D → Type 0
  IsSavedFirst c d none d' = P d'
  IsSavedFirst c d (some name) d' =
      (target : ConfigProfile) × (d1 : D) × IsPrepared ms c d target name d1 × P d1

  SavedFirst : SensorChanges → D → ApplyResult × D → Type 0
  SavedFirst c d x = IsSavedFirst c d ((x.0).snapshot) (x.1)

module _ {D : Type 0} (ms : Device D) (P : D → Type 0) (kept : IsKept ms P) where
  then_do-keeps :
      {A B : Type 0} (x : Result A × D) (next : A → D → Result B × D)
      → P (x.1)
      → ((a : A) (d : D) → P d → P ((next a d).1))
      → P ((then_do x next).1)
  then_do-keeps (err e, d) next p q = p
  then_do-keeps (ok a, d) next p q = q a d p

  read_dnd_if-keeps : (dnd : Option Bool) (d : D) → P d → P ((read_dnd_if ms dnd d).1)
  read_dnd_if-keeps none d p = p
  read_dnd_if-keeps (some b) d p = then_do-keeps (ms.read_dnd d) _ (kept.by_dnd d p) (λ now d q. q)

  prepare-keeps : (c : SensorChanges) (d : D) → P d → P ((prepare ms c d).1)
  unfolding prepare
  prepare-keeps c d p = then_do-keeps (ms.read_config d) _ (kept.by_config d p) (λ cfg d p.
      then_do-keeps (read_dnd_if ms c.dnd d) _ (read_dnd_if-keeps c.dnd d p) (λ before d p.
        then_do-keeps (resolve c (from_config cfg), d) _ p
          (λ target d p.
            then_do-keeps (ms.save_snapshot (from_config cfg) (written_sections c target) before d)
              _ (kept.by_saving (from_config cfg) (written_sections c target) before d p)
              (λ name d p. p))))

  either-SavedFirst :
      (c : SensorChanges) (d : D) (b : Bool) (x y : ApplyResult × D)
      → SavedFirst ms P c d x
      → SavedFirst ms P c d y
      → SavedFirst ms P c d (if b then x else y)
  either-SavedFirst c d true x y p q = p
  either-SavedFirst c d false x y p q = q

  kept-SavedFirst :
      (c : SensorChanges) (d d' : D) (e : Error)
      → P d'
      → SavedFirst ms P c d (failed_with none [] e, d')
  unfolding SavedFirst
  kept-SavedFirst c d d' e p = p

  -- A result with a snapshot.
  saved-SavedFirst :
      (c : SensorChanges) (d : D) (target : ConfigProfile) (name : ℕ) (d1 : D) (x : ApplyResult × D)
      → IsPrepared ms c d target name d1
      → P d1
      → (x.0).snapshot ≡ some name
      → SavedFirst ms P c d x
  unfolding SavedFirst
  saved-SavedFirst c d target name d1 x ready p e =
      subst (λ o. IsSavedFirst ms P c d o (x.1)) (sym e) (target, d1, ready, p)

  after_write-SavedFirst :
      (rounds : ℕ) (c : SensorChanges) (d : D) (target : ConfigProfile) (name : ℕ) (d1 : D)
      (r : Result (List Section) × D)
      → IsPrepared ms c d target name d1
      → P d1
      → SavedFirst ms P c d (after_write ms rounds c target name r)
  after_write-SavedFirst rounds c d target name d1 (err e, d') ready p =
      let reread = or_nothing (compare_once ms target (sections_present target) c.dnd d') in
      let saved : (x : ApplyResult × D) → (x.0).snapshot ≡ some name → SavedFirst ms P c d x =
        λ x. saved-SavedFirst c d target name d1 x ready p in
      either-SavedFirst c d (ms.connected d') (failed_with (some name) (reread.0) e, reread.1)
        (failed_with (some name) [] e, d')
        (saved (failed_with (some name) (reread.0) e, reread.1) refl)
        (saved (failed_with (some name) [] e, d') refl)
  after_write-SavedFirst rounds c d target name d1 (ok applied, d') ready p =
      saved-SavedFirst c d target name d1
        (verified c target name applied (poll_verify ms rounds target applied c.dnd d')) ready p
        refl

  after_prepare-SavedFirst :
      (rounds : ℕ) (c : SensorChanges) (d : D) (r : Result (ConfigProfile × ℕ) × D)
      → prepare ms c d ≡ r
      → P (r.1)
      → SavedFirst ms P c d (after_prepare ms rounds c r)
  after_prepare-SavedFirst rounds c d (err e, d') ready p = kept-SavedFirst c d d' e p
  after_prepare-SavedFirst rounds c d (ok (target, name), d') ready p =
      after_write-SavedFirst rounds c d target name d' (write_target ms c target d')
        (prepare-IsPrepared ms c d d' target name ready) p

  apply_changes-SavedFirst :
      (rounds : ℕ) (identified busy : Bool) (link : LinkState) (c : SensorChanges) (d : D)
      → P d
      → SavedFirst ms P c d (apply_changes ms rounds identified busy link c d)
  unfolding apply_changes apply_locked
  apply_changes-SavedFirst rounds identified busy link c d p =
      either-SavedFirst c d (not identified) (failed_with none [] ms605_error, d) _
        (kept-SavedFirst c d d ms605_error p)
        (either-SavedFirst c d busy (failed_with none [] session_busy, d) _
          (kept-SavedFirst c d d session_busy p)
          (either-SavedFirst c d (not (is_connected link)) (failed_with none [] connection_error, d)
            _ (kept-SavedFirst c d d connection_error p)
            (after_prepare-SavedFirst rounds c d (prepare ms c d) refl (prepare-keeps c d p))))

-- However `apply_changes` ends, for any property of the device that holds at first and that reading
-- the settings and saving a snapshot keep: after a result without a snapshot it still holds, so that
-- nothing was written. A snapshot named in the result was saved under that name, of the configuration
-- that had just been read and that the changes were resolved for, and until it was saved the property
-- held, so that nothing had been written.
pub apply_changes-IsSavedFirst :
    {D : Type 0} (ms : Device D) (P : D → Type 0) (rounds : ℕ) (identified busy : Bool)
    (link : LinkState) (c : SensorChanges) (d : D)
    → IsKept ms P
    → P d
    → IsSavedFirst ms P c d
        (((apply_changes ms rounds identified busy link c d).0).snapshot)
        ((apply_changes ms rounds identified busy link c d).1)
unfolding SavedFirst
apply_changes-IsSavedFirst ms P rounds identified busy link c d kept p =
    apply_changes-SavedFirst ms P kept rounds identified busy link c d p
