-- ===== src/Calibration/Run/Tests.antt =====
-- A calibration that succeeds, one that is cancelled while it learns, and the theorems there.
use ms605_ble.Prelude.{List, [], ◌∷◌, none, some, true, false, ◌≡◌, refl}
use ms605_ble.Events.{LinkState, CalibrationState}
use ms605_ble.Models.Config.{Ms605Config}
use ms605_ble.Calibration.{CalibrationResult, Message, Effect, finish, cancel, new_job, identify}
use ms605_ble.Calibration.World.{returns, by_waiter, by_cancel, nowhere, World}
use ms605_ble.Calibration.Run.{run}
use ms605_ble.Calibration.Run.Goes.{Settles}
use ms605_ble.Calibration.Run.Settles.{run-Settles}
use ms605_ble.Calibration.Run.Succeeds.{IsEarned, run-IsEarned}

abbrev config : Ms605Config
config = record {
  sub_sensor_enable = 7;
  segment_map = [];
  presence_absence_times = [];
  zone_enable = 127;
  zone_thresholds = record { trigger = 300; maintain = 200 } ∷ [];
  detect_mode = 1;
  zone_distances_m = [];
  sensitivity = 2;
  raw_attributes = [];
}

-- The lock is free after one pause, the device acknowledges, reports progress twice and succeeds;
-- `cancel` comes too late, with the success.
abbrev good : World
good = record {
  busy = some identify;
  pauses = record { cancels = false; interrupts = false; busy = none } ∷ [];
  link = LinkState.connected;
  lost_reason = none;
  read_before = returns config;
  cancels_in_read = false;
  acknowledged = some 2;
  wake = by_waiter (returns true) true;
  drop_breaks = nowhere;
  stop_interrupts = false;
  end_interrupts = false;
  read_after = returns config;
  cancels_in_readback = false;
  storage = some none;
}

abbrev success : CalibrationResult
success = record {
  state = CalibrationState.succeeded;
  started = true;
  before = some ((300, 200) ∷ []);
  after = some ((300, 200) ∷ []);
  error = none;
  detail = Message.empty;
  history_saved = true;
}

good_result : (run good new_job).1.result ≡ some success
unfolding run new_job finish cancel
good_result = refl

run-Settles_example : Settles (run good new_job)
run-Settles_example = run-Settles good tt

run-IsEarned_example : IsEarned good success
run-IsEarned_example = run-IsEarned good success good_result refl

abbrev states : List Effect → List CalibrationState
states [] = []
states (Effect.state_changed s previous detail ∷ trace) = s ∷ states trace
states (e ∷ trace) = states trace

good_states :
    states ((run good new_job).1.trace)
    ≡ CalibrationState.succeeded ∷ CalibrationState.learning ∷ CalibrationState.starting ∷ []
unfolding run new_job finish cancel
good_states = refl

cancelled_while_learning :
    states ((run (record good { wake = by_cancel }) new_job).1.trace)
    ≡ CalibrationState.cancelled ∷ CalibrationState.learning ∷ CalibrationState.starting ∷ []
unfolding run new_job finish cancel
cancelled_while_learning = refl

-- Cancelled before it runs.
cancelled_before : states ((run good (cancel new_job)).1.trace) ≡ CalibrationState.cancelled ∷ []
unfolding run new_job finish cancel
cancelled_before = refl
