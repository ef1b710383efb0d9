-- ===== src/Fleet/Apply/Verified.antt =====
-- A result OK was seen on the device.
use ms605_ble.Prelude.{
  ℕ, List, [], ◌∷◌, Option, none, some, Bool, true, false, if◌then◌else◌, Result, ok, err, Error,
  ms605_error, session_busy, connection_error, ◌≡◌, refl, ap, ◌∙◌, ok-inj, not,
}
use ms605_ble.Events.{LinkState, is_connected}
use ms605_ble.Profiles.{Section, ConfigProfile, sections_present}
use ms605_ble.Driver.{apply_profile}
use ms605_ble.Fleet.Apply.Polling.{poll_verify-IsShown}
use ms605_ble.Fleet.Changes.{SensorChanges, ChangeSection}
use ms605_ble.Fleet.Apply.Prepared.{then_do-ok, IsDndSet, IsPrepared, IsSeen, prepare-IsPrepared}
use ms605_ble.Fleet.Apply.{
  ApplyStatus, Device, ApplyResult, failed_with, compare_once, poll_verify, verified_status,
  prepare, write_target, set_dnd_if, or_nothing, write_failed, after_write, after_prepare,
  apply_locked, apply_changes,
}

ok_status-nil :
    (r : Result (List ChangeSection)) → verified_status r ≡ ApplyStatus.ok_status → r ≡ ok []
ok_status-nil (err e) h = absurd (cc h)
ok_status-nil (ok []) h = refl
ok_status-nil (ok (s ∷ m)) h = absurd (cc h)

module _ {D : Type 0} (ms : Device D) where
  SeenIfOk : SensorChanges → D → ApplyResult × D → Type 0
  SeenIfOk c d x = (x.0).status ≡ ApplyStatus.ok_status → IsSeen ms c d x

  set_dnd_if-IsDndSet :
      (dnd : Option Bool) (d d' : D) (done : Unit {0})
      → set_dnd_if ms dnd d ≡ (ok done, d')
      → IsDndSet ms dnd d d'
  set_dnd_if-IsDndSet none d d' done h = ap (λ r. r.1) h
  set_dnd_if-IsDndSet (some dnd) d d' done h = h

  write_target-applied :
      (c : SensorChanges) (target : ConfigProfile) (d d' : D) (applied : List Section)
      → write_target ms c target d ≡ (ok applied, d')
      → (d2 : D) × (apply_profile ms.send target (sections_present target) d ≡ (ok applied, d2))
        × IsDndSet ms c.dnd d2 d'
  unfolding write_target
  write_target-applied c target d d' applied h =
      let (a, d2, wrote, h1) =
        then_do-ok (apply_profile ms.send target (sections_present target) d) _ applied d' h in
      let (u, d3, set, h2) = then_do-ok (set_dnd_if ms c.dnd d2) _ applied d' h1 in
      (
        d2,
        wrote ∙ ap (λ x. (ok x, d2)) (ok-inj (ap (λ r. r.0) h2)),
        set_dnd_if-IsDndSet c.dnd d2 d' u (set ∙ ap (λ x. (ok u, x)) (ap (λ r. r.1) h2)),
      )

  -- A failure is not OK.
  failed-SeenIfOk :
      (c : SensorChanges) (d : D) (x : ApplyResult × D)
      → (x.0).status ≡ ApplyStatus.failed
      → SeenIfOk c d x
  unfolding SeenIfOk
  failed-SeenIfOk c d x failed good = absurd (cc (failed, good))

  either-SeenIfOk :
      (c : SensorChanges) (d : D) (b : Bool) (x y : ApplyResult × D)
      → SeenIfOk c d x
      → SeenIfOk c d y
      → SeenIfOk c d (if b then x else y)
  either-SeenIfOk c d true x y p q = p
  either-SeenIfOk c d false x y p q = q

  when_ok :
      (c : SensorChanges) (d : D) (x : ApplyResult × D)
      → SeenIfOk c d x
      → (x.0).status ≡ ApplyStatus.ok_status
      → IsSeen ms c d x
  unfolding SeenIfOk
  when_ok c d x h = h

  failed_both :
      (b : Bool) (x y : ApplyResult × D)
      → (x.0).status ≡ ApplyStatus.failed
      → (y.0).status ≡ ApplyStatus.failed
      → ((if b then x else y).0).status ≡ ApplyStatus.failed
  failed_both true x y p q = p
  failed_both false x y p q = q

  write_failed-failed :
      (c : SensorChanges) (target : ConfigProfile) (name : ℕ) (e : Error) (d : D)
      → ((write_failed ms c target name e d).0).status ≡ ApplyStatus.failed
  write_failed-failed c target name e d =
      failed_both (ms.connected d)
        (
          failed_with (some name)
              ((or_nothing (compare_once ms target (sections_present target) c.dnd d)).0) e,
          (or_nothing (compare_once ms target (sections_present target) c.dnd d)).1,
        )
        (failed_with (some name) [] e, d) refl refl

  after_write-SeenIfOk :
      (rounds : ℕ) (c : SensorChanges) (d : D) (target : ConfigProfile) (name : ℕ) (d1 : D)
      (r : Result (List Section) × D)
      → IsPrepared ms c d target name d1
      → write_target ms c target d1 ≡ r
      → SeenIfOk c d (after_write ms rounds c target name r)
  unfolding SeenIfOk
  after_write-SeenIfOk rounds c d target name d1 (err e, d') ready wrote good =
      absurd (cc (write_failed-failed c target name e d', good))
  after_write-SeenIfOk rounds c d target name d1 (ok applied, d') ready wrote good =
      let (d2, sent, set) = write_target-applied c target d1 d' applied wrote in
      let polled = poll_verify ms rounds target applied c.dnd d' in
      (
        target,
        name,
        d1,
        ready,
        refl,
        applied,
        d2,
        d',
        sent,
        set,
        refl,
        poll_verify-IsShown ms rounds target applied c.dnd d' (polled.1)
            (ap (λ r. (r, polled.1)) (ok_status-nil (polled.0) good)),
      )

  after_prepare-SeenIfOk :
      (rounds : ℕ) (c : SensorChanges) (d : D) (r : Result (ConfigProfile × ℕ) × D)
      → prepare ms c d ≡ r
      → SeenIfOk c d (after_prepare ms rounds c r)
  after_prepare-SeenIfOk rounds c d (err e, d') ready = failed-SeenIfOk c d _ refl
  after_prepare-SeenIfOk rounds c d (ok (target, name), d') ready =
      after_write-SeenIfOk rounds c d target name d' _
        (prepare-IsPrepared ms c d d' target name ready) refl

-- Where `apply_changes` reports OK, it read the configuration, resolved the changes for just this
-- configuration, and saved a snapshot of it, whose name is reported. From there `apply_profile` wrote
-- the target, do-not-disturb was set where that was to change, and both are reported as applied. Then
-- came readings, one after the other: the configuration of the last one has the target's value for
-- each section written, zones taken as sets, and the do-not-disturb asked for next was the wanted
-- one, where it was to change. Each of these calls is made in the state that the call before it led
-- to.
pub apply_changes-verified :
    {D : Type 0} (ms : Device D) (rounds : ℕ) (identified busy : Bool) (link : LinkState)
    (c : SensorChanges) (d : D)
    → ((apply_changes ms rounds identified busy link c d).0).status ≡ ApplyStatus.ok_status
    → IsSeen ms c d (apply_changes ms rounds identified busy link c d)
unfolding apply_changes apply_locked
apply_changes-verified ms rounds identified busy link c d = when_ok ms c d _ (
    either-SeenIfOk ms c d (not identified) (failed_with none [] ms605_error, d) _
      (failed-SeenIfOk ms c d _ refl)
      (either-SeenIfOk ms c d busy (failed_with none [] session_busy, d) _
        (failed-SeenIfOk ms c d _ refl)
        (either-SeenIfOk ms c d (not (is_connected link)) (failed_with none [] connection_error, d)
          _ (failed-SeenIfOk ms c d _ refl)
          (after_prepare-SeenIfOk ms rounds c d (prepare ms c d) refl))))
