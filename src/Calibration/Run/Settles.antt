-- ===== src/Calibration/Run/Settles.antt =====
-- How `run` ends: with one result, which it returns unless its task was cancelled.
use ms605_ble.Prelude.{
  List, [], ◌∷◌, Option, none, some, Bool, true, false, not, if◌then◌else◌, ◌≡◌, refl, sym, subst,
  ◌∙◌, ◌&&◌, arith, ◌⊎◌, inl, inr,
}
use ms605_ble.Events.{CalibrationState, is_connected}
use ms605_ble.Calibration.{
  Message, CalibrationResult, CalibrationJob, result_of, finish, cancel, meanwhile, Busy, new_job,
}
use ms605_ble.Models.Config.{Ms605Config}
use ms605_ble.Calibration.World.{Outcome, returns, raises, interrupted, Pause, World}
use ms605_ble.Calibration.Run.{
  Ends, stop_progress, calibrate, or_cancelled, guarded, with_lock, is_identify, wait_identify,
  run_locked, run,
}
use ms605_ble.Calibration.Run.Traces.{IsOpen, HasEnded, finish-HasEnded}
use ms605_ble.Calibration.Run.Goes.{
  Settles, Goes, OnlyMs605, finished_with-Settles, finished_interrupted-Settles, meanwhile-IsOpen,
  on_started-IsOpen, if-Settles, if-Goes, emit-IsOpen, woken-Goes,
}

calibrate-Goes :
    (w : World) (before : Outcome Ms605Config) (j : CalibrationJob)
    → OnlyMs605 w.read_after
    → j.state ≡ CalibrationState.idle
    → IsOpen j
    → Goes (calibrate w before j)
unfolding calibrate
calibrate-Goes w interrupted j only s o = inr (refl, o)
calibrate-Goes w (raises e t) j only s o = inl (finished_with-Settles _ (ground arith) j o _ _)
calibrate-Goes w (returns cfg) j only s o =
    if-Goes j.cancel_requested _ _
      (inl (finished_with-Settles CalibrationState.cancelled refl _ (ground arith) _ _))
      (woken-Goes w w.wake _ only (on_started-IsOpen w.acknowledged _ refl (ground arith)))

stopped-HasEnded :
    (j : CalibrationJob) (r : CalibrationResult) → HasEnded j r → HasEnded (stop_progress j) r
stopped-HasEnded j r h = record {
  result = h.result;
  state = h.state;
  previous = h.previous;
  detail = h.detail;
  trace = h.trace;
  reported = h.reported;
  ended = h.ended;
  not_ended = h.not_ended;
  leads = h.leads;
  started = h.started;
}

pub or_cancelled-kept :
    (j : CalibrationJob) (r : CalibrationResult) → j.result ≡ some r → or_cancelled j ≡ j
or_cancelled-kept j r h = ground (arith, h)

pub or_cancelled-open :
    (j : CalibrationJob)
    → j.result ≡ none
    → or_cancelled j ≡ finish CalibrationState.cancelled none Message.empty j
or_cancelled-open j h = ground (arith, h)

or_cancelled-HasEnded :
    (j : CalibrationJob)
    → ((r : CalibrationResult) × HasEnded j r) ⊎ IsOpen j
    → (r : CalibrationResult) × HasEnded (or_cancelled j) r
or_cancelled-HasEnded j (inl (r, h)) =
    (r, subst (λ x. HasEnded x r) (sym (or_cancelled-kept j r h.result)) h)
or_cancelled-HasEnded j (inr o) = (
  result_of CalibrationState.cancelled none Message.empty j,
  subst (λ x. HasEnded x (result_of CalibrationState.cancelled none Message.empty j))
      (sym (or_cancelled-open j o.no_result))
      (finish-HasEnded CalibrationState.cancelled none Message.empty j refl o),
)

pub meanwhile-state :
    (called : Bool) (j : CalibrationJob) → IsOpen j → (meanwhile called j).state ≡ j.state
unfolding cancel
meanwhile-state true j o = ground arith
meanwhile-state false j o = refl

either_interrupted :
    (b : Bool) (o : Outcome (Option CalibrationResult)) (r : CalibrationResult)
    → (o ≡ returns (some r)) ⊎ (o ≡ interrupted)
    → ((if b then interrupted else o) ≡ returns (some r))
      ⊎ ((if b then interrupted else o) ≡ interrupted)
either_interrupted true o r h = inr refl
either_interrupted false o r h = h

guarded-Settles : (b : Bool) (e : Ends) → Goes e → Settles (guarded b e)
unfolding guarded
guarded-Settles b (interrupted, j) (inl (r, h, how)) =
    let (r1, h1) = or_cancelled-HasEnded j (inl (r, h)) in (r1, stopped-HasEnded _ r1 h1, inr refl)
guarded-Settles b (interrupted, j) (inr (how, o)) =
    let (r1, h1) = or_cancelled-HasEnded j (inr o) in (r1, stopped-HasEnded _ r1 h1, inr refl)
guarded-Settles b (returns x, j) (inl (r, h, how)) =
    (r, stopped-HasEnded j r h, either_interrupted b (returns x) r how)
guarded-Settles b (returns x, j) (inr (how, o)) = absurd (ground (arith, how))
guarded-Settles b (raises e t, j) (inl (r, h, how)) =
    (r, stopped-HasEnded j r h, either_interrupted b (raises e t) r how)
guarded-Settles b (raises e t, j) (inr (how, o)) = absurd (ground (arith, how))

with_lock-Settles :
    (w : World) (b : Option Busy) (j : CalibrationJob)
    → OnlyMs605 w.read_after
    → j.state ≡ CalibrationState.idle
    → IsOpen j
    → Settles (with_lock w b j)
unfolding with_lock
with_lock-Settles w (some b) j only s o = finished_with-Settles CalibrationState.failed refl j o _ _
with_lock-Settles w none j only s o =
    if-Settles (is_connected w.link) _ _
      (guarded-Settles w.end_interrupts _ (
        calibrate-Goes w w.read_before _ only
          (meanwhile-state w.cancels_in_read _ (emit-IsOpen j o) ∙ s)
          (meanwhile-IsOpen w.cancels_in_read _ (emit-IsOpen j o))))
      (finished_with-Settles CalibrationState.lost refl j o _ _)

-- What `_wait_identify` leaves is open and idle.
if-idle :
    (test : Bool) (a b : Bool × Option Busy × CalibrationJob)
    → ((a.2.state ≡ CalibrationState.idle) × IsOpen (a.2))
    → ((b.2.state ≡ CalibrationState.idle) × IsOpen (b.2))
    → ((if test then a else b).2.state ≡ CalibrationState.idle) × IsOpen ((if test then a else b).2)
if-idle true a b p q = p
if-idle false a b p q = q

pub wait_identify-IsOpen :
    (pauses : List Pause) (b : Option Busy) (j : CalibrationJob)
    → j.state ≡ CalibrationState.idle
    → IsOpen j
    → ((wait_identify pauses b j).2.state ≡ CalibrationState.idle)
      × IsOpen ((wait_identify pauses b j).2)
unfolding wait_identify
wait_identify-IsOpen [] b j s o = (s, o)
wait_identify-IsOpen (p ∷ pauses) b j s o =
    let s1 = meanwhile-state p.cancels j o ∙ s in
    let o1 = meanwhile-IsOpen p.cancels j o in
    if-idle (is_identify b && not j.cancel_requested) _ _
      (if-idle p.interrupts _ _ (s1, o1) (wait_identify-IsOpen pauses p.busy _ s1 o1)) (s, o)

run_locked-Settles :
    (w : World) (j : CalibrationJob)
    → OnlyMs605 w.read_after
    → j.state ≡ CalibrationState.idle
    → IsOpen j
    → Settles (run_locked w j)
unfolding run_locked
run_locked-Settles w j only s o =
    let (s1, o1) = wait_identify-IsOpen w.pauses w.busy j s o in
    let waited = wait_identify w.pauses w.busy j in
    if-Settles (is_identify w.busy) _ _
      (if-Settles (waited.0) _ _
        (finished_interrupted-Settles CalibrationState.cancelled refl _ o1 Message.empty)
        (if-Settles (waited.2.cancel_requested) _ _
          (finished_with-Settles CalibrationState.cancelled refl _ o1 none Message.empty)
          (with_lock-Settles w (waited.1) _ only s1 o1)))
      (with_lock-Settles w w.busy j only s o)

pub running-IsOpen : IsOpen (record new_job { running = true })
unfolding new_job
running-IsOpen = record {
  running = refl;
  no_result = refl;
  not_ended = refl;
  leads = refl;
  started = refl;
}

done-HasEnded :
    (j : CalibrationJob) (r : CalibrationResult)
    → HasEnded j r
    → HasEnded (record j { done = true }) r
done-HasEnded j r h = record {
  result = h.result;
  state = h.state;
  previous = h.previous;
  detail = h.detail;
  trace = h.trace;
  reported = h.reported;
  ended = h.ended;
  not_ended = h.not_ended;
  leads = h.leads;
  started = h.started;
}

-- A new job's `run`, in any world in which the second `read_config` raises only the package's own
-- exceptions, ends the job: its state is the terminal one of its only result, which it returns unless
-- the task that runs it was cancelled. The events report a way from idle to that state, and then the
-- result, once and as the last; the result says whether the driver was told to learn.
pub run-Settles : (w : World) → OnlyMs605 w.read_after → Settles (run w new_job)
unfolding run new_job
run-Settles w only =
    let (r, h, how) =
      run_locked-Settles w (record new_job { running = true }) only refl running-IsOpen in
    (r, done-HasEnded _ r h, how)
