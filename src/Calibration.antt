-- ===== src/Calibration.antt =====
-- ms605/calibration.py: `CalibrationJob`. What each `await` yields, and what other tasks do while it
-- waits, is the job's world; the methods pass the job on. Texts are kept as the exceptions and the
-- session supply them, and a message is a value with a constructor for each text of the code.
pub mod World
pub mod Run
use ms605_ble.Prelude.{
  ℕ, List, [], ◌∷◌, Option, none, some, Bool, true, false, map, Error, if◌then◌else◌, not,
}
use ms605_ble.Dicts.{Str}
use ms605_ble.Events.{LinkState, CalibrationState, is_terminal}
use ms605_ble.Models.Zones.{ZoneThreshold}
use ms605_ble.Models.Config.{Ms605Config}

abbrev pub Pairs : Type 0
Pairs = List (ℕ × ℕ)

-- `_pairs`
abbrev pub pairs : Ms605Config → Pairs
pairs cfg = map (λ zt. (zt.trigger, zt.maintain)) cfg.zone_thresholds

-- The reason for which a session's lock is held.
pub data Busy : Type 0 where
  identify : Busy
  other : Str → Busy

pub data Message : Type 0 where
  -- the empty text
  empty : Message
  -- the text of an exception or of the session
  text : Str → Message
  -- f"busy: {s.busy}"
  busy : Busy → Message
  -- `repr` of an exception, of CancelledError and of None
  repr_error : Error → Str → Message
  repr_cancelled repr_none no_session : Message
  -- f"{type(exc).__name__}: {exc}"
  named : Error → Str → Message
  not_connected device_reported_failure cancel_detail readback_cancelled : Message
  readback_failed history_failed : Str → Message

pub record CalibrationResult : Type 0 where
  pub state : CalibrationState
  pub started : Bool
  pub before : Option Pairs
  pub after : Option Pairs
  pub error : Option Message
  pub detail : Message
  pub history_saved : Bool

-- What the job does that others see: its events, and its calls of the driver, the session and the
-- storage.
pub data Effect : Type 0 where
  state_changed : CalibrationState → CalibrationState → Message → Effect
  progressed : Effect
  finished : CalibrationResult → Effect
  reads_config starts_learning closes_session appends_history : Effect

-- The fields that change. The effects so far come last first.
pub record CalibrationJob : Type 0 where
  pub state : CalibrationState
  pub result : Option CalibrationResult
  pub config_after : Option Ms605Config
  pub running : Bool
  pub cancel_requested : Bool
  pub cancel_signal : Option Bool
  pub progress_task : Bool
  pub done : Bool
  pub started : Bool
  pub before : Option Pairs
  pub after : Option Pairs
  pub history_saved : Bool
  pub trace : List Effect

unfoldable pub new_job : CalibrationJob
new_job = record {
  state = CalibrationState.idle;
  result = none;
  config_after = none;
  running = false;
  cancel_requested = false;
  cancel_signal = none;
  progress_task = false;
  done = false;
  started = false;
  before = none;
  after = none;
  history_saved = false;
  trace = [];
}

abbrev pub emit : Effect → CalibrationJob → CalibrationJob
emit e j = record j { trace = e ∷ j.trace }

-- `_set_state`
abbrev pub set_state : CalibrationState → Message → CalibrationJob → CalibrationJob
set_state state detail j = record j {
  state = state;
  trace = state_changed state j.state detail ∷ j.trace;
}

abbrev pub result_of :
    CalibrationState → Option Message → Message → CalibrationJob → CalibrationResult
result_of state error detail j = record {
  state = state;
  started = j.started;
  before = j.before;
  after = j.after;
  error = error;
  detail = detail;
  history_saved = j.history_saved;
}

-- `_finish`
unfoldable pub finish :
    CalibrationState → Option Message → Message → CalibrationJob → CalibrationJob
finish state error detail j =
    let result = result_of state error detail j in
    emit (finished result) (record (set_state state detail j) { result = some result })

-- `self._cancel_signal.set_result(None)`, unless there is none or it is set
abbrev pub signal : Option Bool → Option Bool
signal none = none
signal (some set) = some true

-- `cancel` up to its wait for the end of `run`.
unfoldable pub cancel : CalibrationJob → CalibrationJob
unfolding finish
cancel j =
    if is_terminal j.state
    then j
    else if not j.running
    then finish CalibrationState.cancelled none empty j
    else record j { cancel_requested = true; cancel_signal = signal j.cancel_signal }

-- Whether another task called `cancel` during an `await`.
abbrev pub meanwhile : Bool → CalibrationJob → CalibrationJob
meanwhile called j = if called then cancel j else j
