-- ===== src/Calibration/Run/Goes.antt =====
-- How the parts of `run` end a job, or leave the end to their caller.
use ms605_ble.Prelude.{
  ℕ, zero, suc, Option, none, some, Bool, true, false, not, Error, if◌then◌else◌, ◌≡◌, refl, ap,
  arith, ◌⊎◌, inl, inr,
}
use ms605_ble.Dicts.{Str}
use ms605_ble.Events.{CalibrationState, is_terminal}
use ms605_ble.Calibration
use ms605_ble.Calibration.{
  Message, CalibrationResult, Effect, CalibrationJob, emit, set_state, result_of, finish, cancel,
  meanwhile, Busy, new_job, closes_session, reads_config, starts_learning, device_reported_failure,
}
use ms605_ble.Models.Config.{Ms605Config}
use ms605_ble.Calibration.World.{
  Outcome, returns, raises, interrupted, Wake, by_waiter, by_cancel, by_task, Break, nowhere,
  in_gather, in_stop, in_close, World,
}
use ms605_ble.Calibration.Run.{
  Ends, is_ms605_error, finished_with, finished_interrupted, stop_progress, reports, on_started,
  drop_learning, append_history, read_back, learning_failed, stopping, judged, learned, woken,
  is_connection_error, is_timeout_error,
}
use ms605_ble.Calibration.Run.Traces.{IsOpen, HasEnded, finish-HasEnded, cancel-IsOpen}

-- The call has ended the job, and returned its result or was interrupted.
abbrev pub Settles : Ends → Type 0
Settles (o, j) =
    (r : CalibrationResult) × HasEnded j r × ((o ≡ returns (some r)) ⊎ (o ≡ interrupted))

-- So it has, or it was interrupted and leaves the end to its caller.
abbrev pub Goes : Ends → Type 0
Goes e = Settles e ⊎ ((e.0 ≡ interrupted) × IsOpen (e.1))

-- Exceptions other than the package's own do not come out of the call.
abbrev pub OnlyMs605 : {A : Type 0} → Outcome A → Type 0
OnlyMs605 (returns a) = Unit {0}
OnlyMs605 (raises e t) = is_ms605_error e ≡ true
OnlyMs605 interrupted = Unit {0}

module _ (state : CalibrationState) (t : is_terminal state ≡ true) (j : CalibrationJob)
    (o : IsOpen j) where
  pub finished_with-Settles :
      (error : Option Message) (detail : Message) → Settles (finished_with state error detail j)
  finished_with-Settles error detail =
      let h = finish-HasEnded state error detail j t o in
      (result_of state error detail j, h, inl (ground (arith, h.result)))

  pub finished_interrupted-Settles :
      (detail : Message) → Settles (finished_interrupted state detail j)
  finished_interrupted-Settles detail =
      (result_of state none detail j, finish-HasEnded state none detail j t o, inr refl)

pub meanwhile-IsOpen : (called : Bool) (j : CalibrationJob) → IsOpen j → IsOpen (meanwhile called j)
meanwhile-IsOpen true j o = cancel-IsOpen j o
meanwhile-IsOpen false j o = o

pub reports-IsOpen : (n : ℕ) (j : CalibrationJob) → IsOpen j → IsOpen (reports n j)
reports-IsOpen zero j o = o
reports-IsOpen (suc n) j o = ground (arith, reports-IsOpen n j o)

pub on_started-IsOpen :
    (acknowledged : Option ℕ) (j : CalibrationJob)
    → j.state ≡ CalibrationState.starting
    → IsOpen j
    → IsOpen (on_started acknowledged j)
on_started-IsOpen none j s o = o
on_started-IsOpen (some n) j s o = reports-IsOpen n _ (ground arith)

pub drop_learning-HasEnded :
    (b : Break) (j : CalibrationJob)
    → IsOpen j
    → (r : CalibrationResult) × HasEnded ((drop_learning b j).1) r
unfolding drop_learning
drop_learning-HasEnded nowhere j o =
    (_, finish-HasEnded CalibrationState.cancelled none _ _ refl (ground arith))
drop_learning-HasEnded in_gather j o =
    (_, finish-HasEnded CalibrationState.cancelled none _ j refl o)
drop_learning-HasEnded in_stop j o =
    (_, finish-HasEnded CalibrationState.cancelled none _ _ refl (ground arith))
drop_learning-HasEnded in_close j o =
    (_, finish-HasEnded CalibrationState.cancelled none _ _ refl (ground arith))

pub append_history-IsOpen :
    (storage : Option (Option Str)) (j : CalibrationJob)
    → IsOpen j
    → IsOpen ((append_history storage j).1)
append_history-IsOpen none j o = o
append_history-IsOpen (some none) j o = ground arith
append_history-IsOpen (some (some e)) j o = ground arith

pub if-Settles :
    (test : Bool) (a b : Ends) → Settles a → Settles b → Settles (if test then a else b)
if-Settles true a b p q = p
if-Settles false a b p q = q

pub if-Goes : (test : Bool) (a b : Ends) → Goes a → Goes b → Goes (if test then a else b)
if-Goes true a b p q = p
if-Goes false a b p q = q

pub read_back-Goes :
    (after : Outcome Ms605Config) (storage : Option (Option Str)) (j : CalibrationJob)
    → OnlyMs605 after
    → IsOpen j
    → Goes (read_back after storage j)
unfolding read_back
read_back-Goes interrupted storage j only o =
    inl (finished_interrupted-Settles CalibrationState.succeeded refl j o _)
read_back-Goes (raises e t) storage j only o =
    rw only (inl (finished_with-Settles CalibrationState.succeeded refl j o none _))
read_back-Goes (returns cfg) storage j only o = inl (
    finished_with-Settles CalibrationState.succeeded refl _
      (append_history-IsOpen storage _ (ground arith)) none _)

pub learning_failed-Settles :
    (e : Error) (t : Str) (j : CalibrationJob) → IsOpen j → Settles (learning_failed e t j)
learning_failed-Settles e t j o =
    if-Settles (is_connection_error e) _ _
      (finished_with-Settles CalibrationState.lost refl j o _ _)
      (if-Settles (is_timeout_error e) _ _
        (finished_with-Settles CalibrationState.timeout refl j o _ _)
        (finished_with-Settles CalibrationState.failed refl j o _ _))

pub emit-IsOpen : (j : CalibrationJob) → IsOpen j → IsOpen (emit reads_config j)
emit-IsOpen j o = ground arith

pub stopping-Goes :
    (b : Bool) (j : CalibrationJob) (next : CalibrationJob → Ends)
    → IsOpen j
    → (IsOpen (stop_progress j) → Goes (next (stop_progress j)))
    → Goes (stopping b j next)
stopping-Goes true j next o g = inr (refl, ground arith)
stopping-Goes false j next o g = g (ground arith)

pub learned-Goes :
    (w : World) (outcome : Outcome Bool) (j : CalibrationJob)
    → OnlyMs605 w.read_after
    → IsOpen j
    → Goes (learned w outcome j)
unfolding learned
learned-Goes w interrupted j only o = inr (refl, o)
learned-Goes w (raises e t) j only o =
    stopping-Goes w.stop_interrupts j (learning_failed e t) o
      (λ o1. inl (learning_failed-Settles e t _ o1))
learned-Goes w (returns done) j only o = stopping-Goes w.stop_interrupts j (judged w done) o (λ o1.
    if-Goes (not done) _ _
      (inl (finished_with-Settles CalibrationState.failed refl _ o1 none device_reported_failure))
      (read_back-Goes w.read_after w.storage _ only
        (meanwhile-IsOpen w.cancels_in_readback _ (emit-IsOpen _ o1))))

pub woken-Goes :
    (w : World) (wake : Wake) (j : CalibrationJob)
    → OnlyMs605 w.read_after
    → IsOpen j
    → Goes (woken w wake j)
unfolding woken
woken-Goes w (by_task called) j only o =
    let (r, h) = drop_learning-HasEnded w.drop_breaks _ (meanwhile-IsOpen called j o) in
    inl (r, h, inr refl)
woken-Goes w by_cancel j only o =
    let (r, h) = drop_learning-HasEnded w.drop_breaks _ (cancel-IsOpen j o) in
    if-Goes ((drop_learning w.drop_breaks (Calibration.cancel j)).0) _ _ (inl (r, h, inr refl))
      (inl (r, h, inl (ap (λ x. returns x) h.result)))
woken-Goes w (by_waiter outcome called) j only o =
    learned-Goes w outcome _ only (meanwhile-IsOpen called j o)
