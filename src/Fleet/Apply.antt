-- ===== src/Fleet/Apply.antt =====
-- `poll_verify`, `_apply_locked` and `apply_changes` of ms605/fleet.py. What the driver and the
-- storage do is an argument over any type of the device's and the host's state: each operation
-- returns or raises, and leads to a state.
pub mod Prepared
pub mod Polling
pub mod Safety
pub mod Verified
pub mod Tests
use ms605_ble.Prelude.{
  ℕ, zero, suc, List, [], ◌∷◌, ◌++◌, Option, none, some, Bool, true, false, not, ◌&&◌,
  if◌then◌else◌, map, Result, ok, err, Error, session_busy, connection_error, ms605_error, ◌==◌,
  ◌||◌,
}
use ms605_ble.Equality.{bool_eq}
use ms605_ble.Events.{LinkState, is_connected}
use ms605_ble.Protocol.Frame.{Attr}
use ms605_ble.Models.Config.{Ms605Config}
use ms605_ble.Profiles.{
  Section, ConfigProfile, from_config, diff_sections, sections_present, section_number,
}
use ms605_ble.Driver.{is_learning, apply_profile}
use ms605_ble.Fleet.Changes.{SensorChanges, resolve, ChangeSection, of_profile, dnd_section}

-- `ApplyStatus`
pub data ApplyStatus : Type 0 where
  ok_status partial unverified failed : ApplyStatus

-- `MS605.read_config`, `read_dnd`, `_send`, `set_dnd` and `is_connected`, and
-- `Storage.save_snapshot`, which returns the snapshot's name, here a number.
pub record Device (D : Type 0) : Type 0 where
  pub read_config : D → Result Ms605Config × D
  pub read_dnd : D → Result Bool × D
  pub send : List Attr → D → Result (Unit {0}) × D
  pub set_dnd : Bool → D → Result (Unit {0}) × D
  pub connected : D → Bool
  pub save_snapshot : ConfigProfile → List ChangeSection → Option Bool → D → Result ℕ × D

-- The part of an `ApplyResult` that `out` collects.
pub record ApplyResult : Type 0 where
  pub status : ApplyStatus
  pub applied : List ChangeSection
  pub skipped : List ChangeSection
  pub mismatched : List ChangeSection
  pub snapshot : Option ℕ
  pub error : Option Error

abbrev pub failed_with : Option ℕ → List ChangeSection → Error → ApplyResult
failed_with snapshot mismatched e = record {
  status = ApplyStatus.failed;
  applied = [];
  skipped = [];
  mismatched = mismatched;
  snapshot = snapshot;
  error = some e;
}

-- Going on with what was returned, and an exception goes through.
abbrev pub then_do : {A B D : Type 0} → Result A × D → (A → D → Result B × D) → Result B × D
then_do (err e, d) next = (err e, d)
then_do (ok a, d) next = next a d

abbrev pub dnd_part : Option Bool → List ChangeSection
dnd_part none = []
dnd_part (some dnd) = dnd_section ∷ []

-- `not mismatched`
abbrev pub is_nil : List ChangeSection → Bool
is_nil [] = true
is_nil (s ∷ sections) = false

module _ {D : Type 0} (ms : Device D) where
  -- `await ms.read_dnd() if dnd is not None else None`
  abbrev pub read_dnd_if : Option Bool → D → Result (Option Bool) × D
  read_dnd_if none d = (ok none, d)
  read_dnd_if (some dnd) d = then_do (ms.read_dnd d) (λ before d. (ok (some before), d))

  -- `if dnd is not None and await ms.read_dnd() != dnd: mismatched.append(DND_SECTION)`
  abbrev pub dnd_differs : Option Bool → D → Result (List ChangeSection) × D
  dnd_differs none d = (ok [], d)
  dnd_differs (some dnd) d =
      then_do (ms.read_dnd d) (λ now d. (ok (if bool_eq now dnd then [] else dnd_section ∷ []), d))

  -- One reading: the sections that differ.
  unfoldable pub compare_once :
      ConfigProfile → List Section → Option Bool → D → Result (List ChangeSection) × D
  compare_once target sections dnd d = then_do (ms.read_config d) (λ cfg d.
      then_do (dnd_differs dnd d) (λ differs d. (
        ok (map (λ k. of_profile k) (diff_sections target (from_config cfg) sections) ++ differs),
        d,
      )))

  -- `poll_verify`, without the profile that it read: `rounds` readings end before the deadline, and
  -- one at or after it.
  unfoldable pub poll_verify :
      ℕ → ConfigProfile → List Section → Option Bool → D → Result (List ChangeSection) × D
  poll_verify zero target sections dnd d = compare_once target sections dnd d
  poll_verify (suc rounds) target sections dnd d =
      then_do (compare_once target sections dnd d) (λ mismatched d.
        if is_nil mismatched then (ok mismatched, d) else poll_verify rounds target sections dnd d)

-- `s not in names`, for two sections or DND_SECTION
abbrev pub same_name : ChangeSection → ChangeSection → Bool
same_name (of_profile j) (of_profile k) = section_number j == section_number k
same_name (of_profile j) dnd_section = false
same_name dnd_section (of_profile k) = false
same_name dnd_section dnd_section = true

abbrev pub has_name : ChangeSection → List ChangeSection → Bool
has_name s [] = false
has_name s (n ∷ names) = same_name s n || has_name s names

-- `tuple(s for s in sections if test(s))`
abbrev pub filter : (ChangeSection → Bool) → List ChangeSection → List ChangeSection
filter test [] = []
filter test (s ∷ sections) = let rest = filter test sections in if test s then s ∷ rest else rest

abbrev pub all_sections : SensorChanges → ConfigProfile → List ChangeSection
all_sections c target = map (λ k. of_profile k) (sections_present target) ++ dnd_part c.dnd

-- The sections that are to be written, without a detect mode 4.
abbrev pub written_sections : SensorChanges → ConfigProfile → List ChangeSection
written_sections c target =
    filter
      (λ s. not (is_learning target.detect_mode && same_name s (of_profile Section.detect_mode)))
      (all_sections c target)

-- What the last `try` block makes of the sections that still differ, or of an exception.
abbrev pub verified_status : Result (List ChangeSection) → ApplyStatus
verified_status (err e) = ApplyStatus.unverified
verified_status (ok []) = ApplyStatus.ok_status
verified_status (ok (s ∷ mismatched)) = ApplyStatus.partial

abbrev pub found : Result (List ChangeSection) → List ChangeSection
found (err e) = []
found (ok mismatched) = mismatched

abbrev pub raised_by : Result (List ChangeSection) → Option Error
raised_by (err e) = some e
raised_by (ok mismatched) = none

module _ {D : Type 0} where
  -- `except Exception as read_exc: ...`, leaving `mismatched` empty
  abbrev pub or_nothing : Result (List ChangeSection) × D → List ChangeSection × D
  or_nothing (err e, d) = ([], d)
  or_nothing (ok mismatched, d) = (mismatched, d)

  -- The result after `poll_verify`.
  abbrev pub verified :
      SensorChanges
      → ConfigProfile
      → ℕ
      → List Section
      → Result (List ChangeSection) × D
      → ApplyResult × D
  verified c target name applied (r, d) =
      let names = map (λ k. of_profile k) applied ++ dnd_part c.dnd in
      (
        record {
          status = verified_status r;
          applied = names;
          skipped = filter (λ s. not (has_name s names)) (all_sections c target);
          mismatched = found r;
          snapshot = some name;
          error = raised_by r;
        },
        d,
      )

module _ {D : Type 0} (ms : Device D) where
  abbrev pub set_dnd_if : Option Bool → D → Result (Unit {0}) × D
  set_dnd_if none d = (ok tt, d)
  set_dnd_if (some dnd) d = ms.set_dnd dnd d

  -- The first `try` block: the target and the snapshot's name.
  unfoldable pub prepare : SensorChanges → D → Result (ConfigProfile × ℕ) × D
  prepare c d = then_do (ms.read_config d) (λ cfg d. then_do (read_dnd_if ms c.dnd d) (λ before d.
      then_do (resolve c (from_config cfg), d)
        (λ target d.
          then_do (ms.save_snapshot (from_config cfg) (written_sections c target) before d)
            (λ name d. (ok (target, name), d)))))

  -- The second `try` block.
  unfoldable pub write_target : SensorChanges → ConfigProfile → D → Result (List Section) × D
  write_target c target d =
      then_do (apply_profile ms.send target (sections_present target) d)
        (λ applied d. then_do (set_dnd_if c.dnd d) (λ done d. (ok applied, d)))

  -- The `except` block of the second.
  abbrev pub write_failed : SensorChanges → ConfigProfile → ℕ → Error → D → ApplyResult × D
  write_failed c target name e d =
      let reread = or_nothing (compare_once ms target (sections_present target) c.dnd d) in
      if ms.connected d
      then (failed_with (some name) (reread.0) e, reread.1)
      else (failed_with (some name) [] e, d)

  abbrev pub after_write :
      ℕ → SensorChanges → ConfigProfile → ℕ → Result (List Section) × D → ApplyResult × D
  after_write rounds c target name (err e, d) = write_failed c target name e d
  after_write rounds c target name (ok applied, d) =
      verified c target name applied (poll_verify ms rounds target applied c.dnd d)

  abbrev pub after_prepare : ℕ → SensorChanges → Result (ConfigProfile × ℕ) × D → ApplyResult × D
  after_prepare rounds c (err e, d) = (failed_with none [] e, d)
  after_prepare rounds c (ok (target, name), d) =
      after_write rounds c target name (write_target c target d)

  -- `_apply_locked`
  unfoldable pub apply_locked : ℕ → SensorChanges → D → ApplyResult × D
  unfolding prepare
  apply_locked rounds c d = after_prepare rounds c (prepare c d)

  -- `apply_changes`, with the session's `device_id is not None`, `busy is not None` and `state`.
  unfoldable pub apply_changes : ℕ → Bool → Bool → LinkState → SensorChanges → D → ApplyResult × D
  apply_changes rounds identified busy link c d =
      let locked = apply_locked rounds c d in
      if not identified
      then (failed_with none [] ms605_error, d)
      else if busy
      then (failed_with none [] session_busy, d)
      else if not (is_connected link)
      then (failed_with none [] connection_error, d)
      else locked
