-- ===== src/Calibration/Run/Succeeds.antt =====
-- When `run` reports SUCCEEDED.
use ms605_ble.Prelude.{
  ℕ, zero, suc, Option, none, some, Bool, true, false, Error, if◌then◌else◌, ◌≡◌, refl, sym, ap,
  ◌∙◌, subst, arith, Option-cases, inl, inr,
}
use ms605_ble.Dicts.{Str}
use ms605_ble.Events.{LinkState, CalibrationState, is_connected}
use ms605_ble.Models.Config.{Ms605Config}
use ms605_ble.Calibration
use ms605_ble.Calibration.{
  Message, CalibrationResult, CalibrationJob, emit, finish, cancel, meanwhile, Busy, new_job,
  reads_config, device_reported_failure,
}
use ms605_ble.Calibration.World.{
  Outcome, returns, raises, interrupted, Wake, by_waiter, by_cancel, by_task, Break, nowhere,
  in_gather, in_stop, in_close, World,
}
use ms605_ble.Calibration.Run.{
  Ends, is_ms605_error, stop_progress, on_started, drop_learning, append_history, read_back,
  learning_failed, learned, woken, calibrate, or_cancelled, guarded, with_lock, is_identify,
  wait_identify, run_locked, run, is_connection_error, is_timeout_error,
}
use ms605_ble.Calibration.Run.Traces.{IsOpen}
use ms605_ble.Calibration.Run.Goes.{meanwhile-IsOpen, on_started-IsOpen, emit-IsOpen}
use ms605_ble.Calibration.Run.Settles.{
  meanwhile-state, wait_identify-IsOpen, or_cancelled-kept, or_cancelled-open, running-IsOpen,
}

abbrev is_succeeded : CalibrationState → Bool
is_succeeded CalibrationState.succeeded = true
is_succeeded s = false

-- If the job has a result of success, then `P` holds of it.
abbrev Only : (CalibrationResult → Type 0) → CalibrationJob → Type 0
Only P j = (r : CalibrationResult) → j.result ≡ some r → r.state ≡ CalibrationState.succeeded → P r

-- The job has not ended, and the driver was told to learn.
abbrev IsTold : CalibrationJob → Type 0
IsTold j = IsOpen j × (j.started ≡ true)

module _ (P : CalibrationResult → Type 0) where
  none-Only : (j : CalibrationJob) → IsOpen j → Only P j
  none-Only j o r e s = absurd (ground (arith, o.no_result, e))

  finish-Only :
      (state : CalibrationState) (error : Option Message) (detail : Message) (j : CalibrationJob)
      → is_succeeded state ≡ false
      → Only P (finish state error detail j)
  unfolding finish
  finish-Only state error detail j other r e s = absurd (ground (arith, e, s))

  if-Only :
      (test : Bool) (a b : Ends) → Only P (a.1) → Only P (b.1) → Only P ((if test then a else b).1)
  if-Only true a b p q = p
  if-Only false a b p q = q

  learning_failed-Only :
      (e : Error) (t : Str) (j : CalibrationJob) → Only P ((learning_failed e t j).1)
  learning_failed-Only e t j =
      if-Only (is_connection_error e) _ _ (finish-Only CalibrationState.lost _ _ j refl) (
        if-Only (is_timeout_error e) _ _ (finish-Only CalibrationState.timeout _ _ j refl)
          (finish-Only CalibrationState.failed _ _ j refl))

  drop_learning-Only : (b : Break) (j : CalibrationJob) → Only P ((drop_learning b j).1)
  unfolding drop_learning
  drop_learning-Only nowhere j = finish-Only CalibrationState.cancelled _ _ _ refl
  drop_learning-Only in_gather j = finish-Only CalibrationState.cancelled _ _ _ refl
  drop_learning-Only in_stop j = finish-Only CalibrationState.cancelled _ _ _ refl
  drop_learning-Only in_close j = finish-Only CalibrationState.cancelled _ _ _ refl

  or_cancelled-Only : (j : CalibrationJob) → Only P j → Only P (or_cancelled j)
  or_cancelled-Only j h = elim (Option-cases j.result) [
    | inl e ↦
        subst (λ x. Only P x) (sym (or_cancelled-open j e))
          (finish-Only CalibrationState.cancelled _ _ j refl)
    | inr (r, e) ↦ subst (λ x. Only P x) (sym (or_cancelled-kept j r e)) h
  ]

  guarded-Only : (b : Bool) (e : Ends) → Only P (e.1) → Only P ((guarded b e).1)
  unfolding guarded
  guarded-Only b (interrupted, j) h = or_cancelled-Only j h
  guarded-Only b (returns x, j) h = h
  guarded-Only b (raises e t, j) h = h

  -- A result of a job that was told to learn.
  module _ (good : (r : CalibrationResult) → r.started ≡ true → P r) where
    finish-good :
        (state : CalibrationState) (error : Option Message) (detail : Message) (j : CalibrationJob)
        → j.started ≡ true
        → Only P (finish state error detail j)
    unfolding finish
    finish-good state error detail j told r e s = good r (ground (arith, e, told))

    append_history-started :
        (storage : Option (Option Str)) (j : CalibrationJob)
        → j.started ≡ true
        → (append_history storage j).1.started ≡ true
    append_history-started none j told = told
    append_history-started (some none) j told = told
    append_history-started (some (some e)) j told = told

    read_back-Only :
        (after : Outcome Ms605Config) (storage : Option (Option Str)) (j : CalibrationJob)
        → IsTold j
        → Only P ((read_back after storage j).1)
    unfolding read_back
    read_back-Only interrupted storage j (o, told) =
        finish-good CalibrationState.succeeded none _ j told
    read_back-Only (raises e t) storage j (o, told) =
        if-Only (is_ms605_error e) _ _ (finish-good CalibrationState.succeeded none _ j told)
          (none-Only j o)
    read_back-Only (returns cfg) storage j (o, told) =
        finish-good CalibrationState.succeeded none _ _ (append_history-started storage _ told)

meanwhile-IsTold : (called : Bool) (j : CalibrationJob) → IsTold j → IsTold (meanwhile called j)
unfolding cancel
meanwhile-IsTold called j (o, told) = (meanwhile-IsOpen called j o, ground arith)

on_started-started :
    (acknowledged : Option ℕ) (j : CalibrationJob) → (on_started acknowledged j).started ≡ j.started
on_started-started none j = refl
on_started-started (some zero) j = refl
on_started-started (some (suc n)) j = on_started-started (some n) j

-- What is behind a result of success.
abbrev pub IsEarned : World → CalibrationResult → Type 0
IsEarned w r =
    (r.started ≡ true)
    × ((called : Bool) × (w.wake ≡ by_waiter (returns true) called))
    × (w.cancels_in_read ≡ false)
    × (w.link ≡ LinkState.connected)

tested-Only :
    (P : CalibrationResult → Type 0) (test : Bool) (a b : Ends)
    → (test ≡ true → Only P (a.1))
    → (test ≡ false → Only P (b.1))
    → Only P ((if test then a else b).1)
tested-Only P true a b p q = p refl
tested-Only P false a b p q = q refl

stopped-IsOpen : (j : CalibrationJob) → IsOpen j → IsOpen (stop_progress j)
stopped-IsOpen j o = ground arith

connected_only : (link : LinkState) → is_connected link ≡ true → link ≡ LinkState.connected
connected_only link h = ground arith

module _ (w : World) where
  learned-Only :
      (outcome : Outcome Bool) (j : CalibrationJob)
      → IsTold j
      → ((r : CalibrationResult) → outcome ≡ returns true → r.started ≡ true → IsEarned w r)
      → Only (IsEarned w) ((learned w outcome j).1)
  unfolding learned
  learned-Only interrupted j (o, told) good = none-Only (IsEarned w) j o
  learned-Only (raises e t) j (o, told) good =
      if-Only (IsEarned w) w.stop_interrupts _ _ (none-Only (IsEarned w) _ (stopped-IsOpen j o))
        (learning_failed-Only (IsEarned w) e t _)
  learned-Only (returns false) j (o, told) good =
      if-Only (IsEarned w) w.stop_interrupts _ _ (none-Only (IsEarned w) _ (stopped-IsOpen j o))
        (finish-Only (IsEarned w) CalibrationState.failed none device_reported_failure _ refl)
  learned-Only (returns true) j (o, told) good =
      if-Only (IsEarned w) w.stop_interrupts _ _ (none-Only (IsEarned w) _ (stopped-IsOpen j o)) (
        read_back-Only (IsEarned w) (λ r. good r refl) w.read_after w.storage _
          (meanwhile-IsTold w.cancels_in_readback _ (emit-IsOpen _ (stopped-IsOpen j o), told)))

  woken-Only :
      (wake : Wake) (j : CalibrationJob)
      → w.wake ≡ wake
      → w.cancels_in_read ≡ false
      → w.link ≡ LinkState.connected
      → IsTold j
      → Only (IsEarned w) ((woken w wake j).1)
  unfolding woken
  woken-Only (by_task called) j e c l t = drop_learning-Only (IsEarned w) w.drop_breaks _
  woken-Only by_cancel j e c l t =
      if-Only (IsEarned w) ((drop_learning w.drop_breaks (Calibration.cancel j)).0) _ _
        (drop_learning-Only (IsEarned w) w.drop_breaks _)
        (drop_learning-Only (IsEarned w) w.drop_breaks _)
  woken-Only (by_waiter outcome called) j e c l t =
      learned-Only outcome _ (meanwhile-IsTold called j t)
        (λ r told started. (started, (called, e ∙ ap (λ o. by_waiter o called) told), c, l))

  calibrate-Only :
      (before : Outcome Ms605Config) (j : CalibrationJob)
      → j.state ≡ CalibrationState.idle
      → IsOpen j
      → (j.cancel_requested ≡ false → w.cancels_in_read ≡ false)
      → w.link ≡ LinkState.connected
      → Only (IsEarned w) ((calibrate w before j).1)
  unfolding calibrate
  calibrate-Only interrupted j s o c l = none-Only (IsEarned w) j o
  calibrate-Only (raises e t) j s o c l = finish-Only (IsEarned w) _ _ _ j (ground arith)
  calibrate-Only (returns cfg) j s o c l =
      tested-Only (IsEarned w) j.cancel_requested _ _
        (λ requested. finish-Only (IsEarned w) CalibrationState.cancelled _ _ _ refl)
        (λ unasked. woken-Only w.wake _ refl (c unasked) l (
          on_started-IsOpen w.acknowledged _ refl (ground arith),
          on_started-started w.acknowledged _,
        ))

  requested :
      (j : CalibrationJob)
      → IsOpen j
      → (meanwhile w.cancels_in_read j).cancel_requested ≡ false
      → w.cancels_in_read ≡ false
  unfolding cancel
  requested j o h = ground arith

  with_lock-Only :
      (b : Option Busy) (j : CalibrationJob)
      → j.state ≡ CalibrationState.idle
      → IsOpen j
      → Only (IsEarned w) ((with_lock w b j).1)
  unfolding with_lock
  with_lock-Only (some b) j s o = finish-Only (IsEarned w) CalibrationState.failed _ _ j refl
  with_lock-Only none j s o =
      tested-Only (IsEarned w) (is_connected w.link) _ _
        (λ up. guarded-Only (IsEarned w) w.end_interrupts _ (
          calibrate-Only w.read_before _ (meanwhile-state w.cancels_in_read _ (emit-IsOpen j o) ∙ s)
            (meanwhile-IsOpen w.cancels_in_read _ (emit-IsOpen j o)) (requested _ (emit-IsOpen j o))
            (connected_only w.link up)))
        (λ down. finish-Only (IsEarned w) CalibrationState.lost _ _ j refl)

  run_locked-Only :
      (j : CalibrationJob)
      → j.state ≡ CalibrationState.idle
      → IsOpen j
      → Only (IsEarned w) ((run_locked w j).1)
  unfolding run_locked
  run_locked-Only j s o =
      let (s1, o1) = wait_identify-IsOpen w.pauses w.busy j s o in
      let waited = wait_identify w.pauses w.busy j in
      if-Only (IsEarned w) (is_identify w.busy) _ _
        (if-Only (IsEarned w) (waited.0) _ _
          (finish-Only (IsEarned w) CalibrationState.cancelled none Message.empty (waited.2) refl)
          (if-Only (IsEarned w) (waited.2.cancel_requested) _ _
            (finish-Only (IsEarned w) CalibrationState.cancelled none Message.empty (waited.2) refl)
            (with_lock-Only (waited.1) _ s1 o1)))
        (with_lock-Only w.busy j s o)

-- `run` reports SUCCEEDED only if the device reported success, after the driver was told to learn on a
-- connected link, and nobody had called `cancel` while the settings were read before that.
pub run-IsEarned :
    (w : World) (r : CalibrationResult)
    → (run w new_job).1.result ≡ some r
    → r.state ≡ CalibrationState.succeeded
    → IsEarned w r
unfolding run new_job
run-IsEarned w r e s =
    run_locked-Only w (record new_job { running = true }) refl running-IsOpen r e s
