-- ===== src/Fleet/Batch.antt =====
-- `BatchCalibration` of ms605/fleet.py. Each device's session, and the world of its calibration job,
-- are arguments; `cancel` of the batch calls `cancel` of each job, which is part of the job's world.
-- The order in which the jobs' steps interleave is left out: each job has its own session.
pub mod Results
pub mod JobEnds
pub mod Answers
pub mod Tests
use ms605_ble.Prelude.{List, [], ◌∷◌, Option, none, some, Bool, true, false, not, if◌then◌else◌}
use ms605_ble.Dicts.{Str, Dict, is_some, lookup, set_item}
use ms605_ble.Events.{CalibrationState}
use ms605_ble.Calibration.{Message, CalibrationResult, CalibrationJob, new_job, cancel}
use ms605_ble.Calibration.World.{Outcome, returns, raises, interrupted, World}
use ms605_ble.Calibration.Run.{run}

-- `BatchState`
pub data BatchState : Type 0 where
  waiting running finished cancelled : BatchState

-- The events that the batch emits: BatchChanged, and a result of its own for a device.
pub data BatchEffect : Type 0 where
  batch_changed : BatchState → BatchEffect
  result_emitted : Str → CalibrationResult → BatchEffect

-- The effects so far come last first.
pub record BatchCalibration : Type 0 where
  pub device_ids : List Str
  pub state : BatchState
  pub jobs : Dict CalibrationJob
  pub results : Dict CalibrationResult
  pub trace : List BatchEffect

abbrev pub new_batch : List Str → BatchCalibration
new_batch ids = record {
  device_ids = ids;
  state = BatchState.waiting;
  jobs = [];
  results = [];
  trace = batch_changed BatchState.waiting ∷ [];
}

-- `BatchCalibration._set_state`
abbrev pub set_batch_state : BatchState → BatchCalibration → BatchCalibration
set_batch_state state b = record b { state = state; trace = batch_changed state ∷ b.trace }

-- The result that `_emit_result` makes.
abbrev pub own_result : CalibrationState → Option Message → Message → CalibrationResult
own_result state error detail = record {
  state = state;
  started = false;
  before = none;
  after = none;
  error = error;
  detail = detail;
  history_saved = false;
}

-- `self.results[device_id] = self._emit_result(device_id, ...)`
abbrev pub emit_result : Str → CalibrationResult → BatchCalibration → BatchCalibration
emit_result device_id r b = record b {
  results = set_item b.results device_id r;
  trace = result_emitted device_id r ∷ b.trace;
}

-- A turn of the loop of `_fire_time_reached`: time remains, the time has come, or the batch has been
-- cancelled.
pub data Look : Type 0 where
  remains due cancel_set : Look

-- `_fire_time_reached`, none while it goes on
unfoldable pub fire_time_reached : List Look → Option Bool
fire_time_reached [] = none
fire_time_reached (remains ∷ looks) = fire_time_reached looks
fire_time_reached (due ∷ looks) = some true
fire_time_reached (cancel_set ∷ looks) = some false

-- A device when the batch fires: whether its session is still the one that it was, whether the job
-- is cancelled before its `run` begins, and the world that it runs in.
pub record Site : Type 0 where
  pub present : Bool
  pub cancelled_early : Bool
  pub world : World

abbrev pub lost_result : CalibrationResult
lost_result = own_result CalibrationState.lost none Message.no_session

abbrev pub cancelled_result : CalibrationResult
cancelled_result = own_result CalibrationState.cancelled none Message.empty

abbrev pub failed_result : Message → CalibrationResult
failed_result error = own_result CalibrationState.failed (some error) Message.empty

-- `repr(out)`
abbrev pub repr : Outcome (Option CalibrationResult) → Message
repr (raises e t) = Message.repr_error e t
repr interrupted = Message.repr_cancelled
repr (returns r) = Message.repr_none

abbrev pub or_failed :
    Outcome (Option CalibrationResult) → Option CalibrationResult → CalibrationResult
or_failed out (some r) = r
or_failed out none = failed_result (repr out)

-- The result of a job, from what its `run` came to and the job after it.
abbrev pub job_result : Outcome (Option CalibrationResult) × CalibrationJob → CalibrationResult
job_result (returns (some r), j) = r
job_result (returns none, j) = or_failed (returns none) j.result
job_result (raises e t, j) = or_failed (raises e t) j.result
job_result (interrupted, j) = or_failed interrupted j.result

-- Whether the batch makes the result itself.
abbrev pub lacks_result : Outcome (Option CalibrationResult) × CalibrationJob → Bool
lacks_result (returns (some r), j) = false
lacks_result (returns none, j) = not (is_some j.result)
lacks_result (raises e t, j) = not (is_some j.result)
lacks_result (interrupted, j) = not (is_some j.result)

-- The end of a job that was made as `j`, at a device.
abbrev pub job_ends : Site → CalibrationJob → Outcome (Option CalibrationResult) × CalibrationJob
job_ends site j = run site.world (if site.cancelled_early then cancel j else j)

abbrev pub take_result :
    Str → Outcome (Option CalibrationResult) × CalibrationJob → BatchCalibration → BatchCalibration
take_result device_id ends b =
    if lacks_result ends
    then emit_result device_id (job_result ends) b
    else record b { results = set_item b.results device_id (job_result ends) }

-- A result for each device, `CANCELLED`.
abbrev pub cancel_all : List Str → BatchCalibration → BatchCalibration
cancel_all [] b = b
cancel_all (i ∷ ids) b = cancel_all ids (emit_result i cancelled_result b)

module _ (sites : Str → Site) where
  -- `for device_id in self.device_ids`: a job, or a result `LOST`
  abbrev pub start_job : Str → BatchCalibration → BatchCalibration
  start_job device_id b =
      if (sites device_id).present
      then record b { jobs = set_item b.jobs device_id new_job }
      else emit_result device_id lost_result b

  abbrev pub start_jobs : List Str → BatchCalibration → BatchCalibration
  start_jobs [] b = b
  start_jobs (i ∷ ids) b = start_jobs ids (start_job i b)

  -- `for (device_id, job), out in zip(jobs, outcomes, strict=True)`
  abbrev pub collect : Dict CalibrationJob → BatchCalibration → BatchCalibration
  collect [] b = b
  collect ((i, j) ∷ jobs) b = collect jobs (take_result i (job_ends (sites i) j) b)

  -- The rest of `_run` after the fire, and `self._cancel` as it is at the end.
  abbrev pub fired : Bool → BatchCalibration → BatchCalibration
  fired cancel_is_set b =
      let b1 = set_batch_state BatchState.running (start_jobs b.device_ids b) in
      set_batch_state (if cancel_is_set then BatchState.cancelled else BatchState.finished)
        (collect b1.jobs b1)

  abbrev pub after_fire : Option Bool → Bool → BatchCalibration → Option BatchCalibration
  after_fire none cancel_is_set b = none
  after_fire (some false) cancel_is_set b =
      some (set_batch_state BatchState.cancelled (cancel_all b.device_ids b))
  after_fire (some true) cancel_is_set b = some (fired cancel_is_set b)

  -- `BatchCalibration._run`, none while it waits for the fire
  unfoldable pub run_batch : List Look → Bool → BatchCalibration → Option BatchCalibration
  run_batch looks cancel_is_set b = after_fire (fire_time_reached looks) cancel_is_set b

-- `self.results[i].state in _RETRY_STATES`
abbrev pub is_retry_state : CalibrationState → Bool
is_retry_state CalibrationState.idle = false
is_retry_state CalibrationState.starting = false
is_retry_state CalibrationState.learning = false
is_retry_state CalibrationState.succeeded = false
is_retry_state CalibrationState.failed = true
is_retry_state CalibrationState.lost = true
is_retry_state CalibrationState.timeout = true
is_retry_state CalibrationState.cancelled = false

abbrev pub is_retried : Option CalibrationResult → Bool
is_retried none = false
is_retried (some r) = is_retry_state r.state

abbrev pub retried_of : Dict CalibrationResult → List Str → List Str
retried_of results [] = []
retried_of results (i ∷ ids) =
    let rest = retried_of results ids in if is_retried (lookup results i) then i ∷ rest else rest

-- `BatchCalibration.retry_ids`
unfoldable pub retry_ids : BatchCalibration → List Str
retry_ids b = retried_of b.results b.device_ids
