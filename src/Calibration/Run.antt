-- ===== src/Calibration/Run.antt =====
-- `CalibrationJob.run` and what it calls, and the history record.
pub mod Traces
pub mod Goes
pub mod Settles
pub mod Succeeds
pub mod Tests
use ms605_ble.Prelude.{
  ℕ, zero, suc, List, [], ◌∷◌, Option, none, some, Bool, true, false, ◌&&◌, not, Error,
  connection_error, timeout_error, ms605_error, frame_error, profile_error, device_error,
  storage_error, session_busy, runtime_error, value_error, key_error, index_error, struct_error,
  no_fuel, if◌then◌else◌,
}
use ms605_ble.Dicts.{Str}
use ms605_ble.Events.{LinkState, CalibrationState, is_connected}
use ms605_ble.Models.Config.{Ms605Config}
use ms605_ble.Calibration.{
  Pairs, pairs, Busy, identify, other, Message, text, busy, named, not_connected,
  device_reported_failure, cancel_detail, readback_cancelled, readback_failed, history_failed,
  CalibrationResult, Effect, progressed, reads_config, starts_learning, closes_session,
  appends_history, CalibrationJob, emit, set_state, finish, meanwhile,
}
use ms605_ble.Calibration
use ms605_ble.Calibration.World.{
  Outcome, returns, raises, interrupted, Pause, Wake, by_waiter, by_cancel, by_task, Break, nowhere,
  in_gather, in_stop, in_close, World,
}

-- `isinstance(exc, MS605Error)`
abbrev pub is_ms605_error : Error → Bool
is_ms605_error ms605_error = true
is_ms605_error frame_error = true
is_ms605_error profile_error = true
is_ms605_error timeout_error = true
is_ms605_error device_error = true
is_ms605_error connection_error = true
is_ms605_error storage_error = true
is_ms605_error session_busy = true
is_ms605_error value_error = false
is_ms605_error key_error = false
is_ms605_error index_error = false
is_ms605_error struct_error = false
is_ms605_error runtime_error = false
is_ms605_error no_fuel = false

abbrev pub is_connection_error : Error → Bool
is_connection_error connection_error = true
is_connection_error e = false

abbrev pub is_timeout_error : Error → Bool
is_timeout_error timeout_error = true
is_timeout_error e = false

abbrev pub Ends : Type 0
Ends = Outcome (Option CalibrationResult) × CalibrationJob

-- `return self._finish(...)`
abbrev pub finished_with : CalibrationState → Option Message → Message → CalibrationJob → Ends
finished_with state error detail j = let j' = finish state error detail j in (returns j'.result, j')

-- `self._finish(...)` and `raise`, for a CancelledError
abbrev pub finished_interrupted : CalibrationState → Message → CalibrationJob → Ends
finished_interrupted state detail j = (interrupted, finish state none detail j)

-- `_stop_progress` up to its wait
abbrev pub stop_progress : CalibrationJob → CalibrationJob
stop_progress j = record j { progress_task = false }

-- `_on_started`, and the reports of `_progress` until it is stopped
abbrev pub reports : ℕ → CalibrationJob → CalibrationJob
reports zero j = j
reports (suc n) j = emit progressed (reports n j)

abbrev pub on_started : Option ℕ → CalibrationJob → CalibrationJob
on_started none j = j
on_started (some n) j =
    reports n
      (record (set_state CalibrationState.learning Message.empty j) { progress_task = true })

-- `_drop_learning`
unfoldable pub drop_learning : Break → CalibrationJob → Bool × CalibrationJob
drop_learning nowhere j = (
  false,
  finish CalibrationState.cancelled none cancel_detail (emit closes_session (stop_progress j)),
)
drop_learning in_gather j = (true, finish CalibrationState.cancelled none cancel_detail j)
drop_learning in_stop j =
    (true, finish CalibrationState.cancelled none cancel_detail (stop_progress j))
drop_learning in_close j = (
  true,
  finish CalibrationState.cancelled none cancel_detail (emit closes_session (stop_progress j)),
)

-- `append_history`, if there is a storage: the detail of the result
abbrev pub append_history : Option (Option Str) → CalibrationJob → Message × CalibrationJob
append_history none j = (Message.empty, j)
append_history (some none) j =
    (Message.empty, record (emit appends_history j) { history_saved = true })
append_history (some (some e)) j = (history_failed e, emit appends_history j)

-- `_succeeded` from what the second `read_config` yields
unfoldable pub read_back : Outcome Ms605Config → Option (Option Str) → CalibrationJob → Ends
read_back interrupted storage j =
    finished_interrupted CalibrationState.succeeded readback_cancelled j
read_back (raises e t) storage j =
    if is_ms605_error e
    then finished_with CalibrationState.succeeded none (readback_failed t) j
    else (raises e t, j)
read_back (returns cfg) storage j =
    let (detail, j1) =
      append_history storage (record j { after = some (pairs cfg); config_after = some cfg }) in
    finished_with CalibrationState.succeeded none detail j1

-- `_succeeded`
abbrev pub succeeds : World → CalibrationJob → Ends
succeeds w j =
    read_back w.read_after w.storage (meanwhile w.cancels_in_readback (emit reads_config j))

-- The state and the error for an exception that ended the learning.
abbrev pub learning_failed : Error → Str → CalibrationJob → Ends
learning_failed e t j =
    if is_connection_error e
    then finished_with CalibrationState.lost (some (text t)) Message.empty j
    else if is_timeout_error e
    then finished_with CalibrationState.timeout (some (text t)) Message.empty j
    else finished_with CalibrationState.failed
        (some (if is_ms605_error e then text t else named e t)) Message.empty j

-- `await self._stop_progress()`, and then the rest
abbrev pub stopping : Bool → CalibrationJob → (CalibrationJob → Ends) → Ends
stopping interrupts j next =
    if interrupts then (interrupted, stop_progress j) else next (stop_progress j)

-- `if not ok: return ...` and `return await self._succeeded(ms)`
abbrev pub judged : World → Bool → CalibrationJob → Ends
judged w ok j =
    if not ok
    then finished_with CalibrationState.failed none device_reported_failure j
    else succeeds w j

-- `_calibrate` once learning has ended by itself
unfoldable pub learned : World → Outcome Bool → CalibrationJob → Ends
unfolding read_back
learned w interrupted j = (interrupted, j)
learned w (raises e t) j = stopping w.stop_interrupts j (learning_failed e t)
learned w (returns ok) j = stopping w.stop_interrupts j (judged w ok)

-- `_calibrate` once the wait for the end of learning is over
unfoldable pub woken : World → Wake → CalibrationJob → Ends
unfolding drop_learning learned
woken w (by_task called) j = (interrupted, (drop_learning w.drop_breaks (meanwhile called j)).1)
woken w by_cancel j =
    let (broken, j1) = drop_learning w.drop_breaks (Calibration.cancel j) in
    if broken then (interrupted, j1) else (returns j1.result, j1)
woken w (by_waiter outcome called) j = learned w outcome (meanwhile called j)

-- `_calibrate` between the check for a request to cancel and the wait
abbrev pub starting : CalibrationJob → CalibrationJob
starting j = emit starts_learning (record (set_state CalibrationState.starting Message.empty j) {
  started = true;
  cancel_signal = some false;
})

-- `_calibrate` from what the first `read_config` yields
unfoldable pub calibrate : World → Outcome Ms605Config → CalibrationJob → Ends
unfolding woken
calibrate w interrupted j = (interrupted, j)
calibrate w (raises e t) j =
    finished_with (if is_connection_error e then CalibrationState.lost else CalibrationState.failed)
      (some (text t)) Message.empty j
calibrate w (returns cfg) j =
    let j1 = record j { before = some (pairs cfg) } in
    if j1.cancel_requested
    then finished_with CalibrationState.cancelled none Message.empty j1
    else woken w w.wake (on_started w.acknowledged (starting j1))

-- `if self.result is None: self._finish(CANCELLED)`
abbrev pub or_cancelled : CalibrationJob → CalibrationJob
or_cancelled j = elim j.result [
  | some r ↦ j
  | none ↦ finish CalibrationState.cancelled none Message.empty j
]

-- The body of `async with s.operation(...)`: its `except` and its `finally`
unfoldable pub guarded : Bool → Ends → Ends
guarded interrupts (interrupted, j) = (interrupted, stop_progress (or_cancelled j))
guarded interrupts (returns r, j) = (if interrupts then interrupted else returns r, stop_progress j)
guarded interrupts (raises e t, j) =
    (if interrupts then interrupted else raises e t, stop_progress j)

-- `_run` once the wait for "identify" is over
unfoldable pub with_lock : World → Option Busy → CalibrationJob → Ends
unfolding guarded calibrate
with_lock w (some b) j = finished_with CalibrationState.failed (some (busy b)) Message.empty j
with_lock w none j =
    if is_connected w.link
    then guarded w.end_interrupts
        (calibrate w w.read_before (meanwhile w.cancels_in_read (emit reads_config j)))
    else finished_with CalibrationState.lost none
        (elim w.lost_reason [ none ↦ not_connected | some t ↦ text t ]) j

abbrev pub is_identify : Option Busy → Bool
is_identify (some identify) = true
is_identify b = false

-- `_wait_identify`: whether the task was cancelled, and who holds the lock then
unfoldable pub wait_identify :
    List Pause → Option Busy → CalibrationJob → Bool × Option Busy × CalibrationJob
wait_identify [] b j = (false, b, j)
wait_identify (p ∷ pauses) b j =
    let j1 = meanwhile p.cancels j in
    let rest = wait_identify pauses p.busy j1 in
    if is_identify b && not j.cancel_requested
    then if p.interrupts then (true, p.busy, j1) else rest
    else (false, b, j)

-- `_run`
unfoldable pub run_locked : World → CalibrationJob → Ends
unfolding wait_identify with_lock
run_locked w j =
    if is_identify w.busy
    then (let (broken, b, j1) = wait_identify w.pauses w.busy j in
        if broken
        then finished_interrupted CalibrationState.cancelled Message.empty j1
        else if j1.cancel_requested
        then finished_with CalibrationState.cancelled none Message.empty j1
        else with_lock w b j1)
    else with_lock w w.busy j

-- `run`
unfoldable pub run : World → CalibrationJob → Ends
unfolding run_locked
run w j =
    if j.running
    then (raises runtime_error [], j)
    else let j1 = record j { running = true } in
      elim j1.result [
        | some r ↦ (returns (some r), j1)
        | none ↦ (let (o, j2) = run_locked w j1 in (o, record j2 { done = true }))
      ]
