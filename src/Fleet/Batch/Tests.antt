-- ===== src/Fleet/Batch/Tests.antt =====
-- A batch of three devices, of which one is gone.
use ms605_ble.Prelude.{
  List, [], ◌∷◌, Option, none, some, true, false, if◌then◌else◌, storage_error, ◌≡◌, refl,
}
use ms605_ble.Dicts.{Str, lookup, set_item, str_eq}
use ms605_ble.Events.{LinkState}
use ms605_ble.Calibration.{CalibrationResult, finish, cancel, new_job}
use ms605_ble.Calibration.World.{returns, raises, by_waiter, nowhere, World}
use ms605_ble.Calibration.Run.{run}
use ms605_ble.Fleet.Batch.{
  BatchCalibration, new_batch, remains, due, fire_time_reached, Site, run_batch, retry_ids,
}
use ms605_ble.Fleet.Batch.Results.{has_id}
use ms605_ble.Fleet.Batch.Answers.{end_state, run_batch-IsAnswer}
use ms605_ble.Fleet.Batch.JobEnds.{IsAnswer}

-- The link is down, so that the job ends as LOST.
abbrev down : World
down = record {
  busy = none;
  pauses = [];
  link = LinkState.disconnected;
  lost_reason = none;
  read_before = raises storage_error [];
  cancels_in_read = false;
  acknowledged = none;
  wake = by_waiter (returns true) false;
  drop_breaks = nowhere;
  stop_interrupts = false;
  end_interrupts = false;
  read_after = raises storage_error [];
  cancels_in_readback = false;
  storage = none;
}

-- Device 2 is gone, and the job of 3 is cancelled before it runs.
abbrev sites : Str → Site
sites i = record {
  present = if str_eq i (2 ∷ []) then false else true;
  cancelled_early = str_eq i (3 ∷ []);
  world = down;
}

abbrev ids : List Str
ids = (1 ∷ []) ∷ (2 ∷ []) ∷ (3 ∷ []) ∷ []

abbrev retried : Option BatchCalibration → List Str
retried none = []
retried (some b) = retry_ids b

retried-two :
    retried (run_batch sites (remains ∷ due ∷ []) false (new_batch ids)) ≡ (1 ∷ []) ∷ (2 ∷ []) ∷ []
unfolding run_batch fire_time_reached retry_ids set_item lookup run new_job cancel finish
retried-two = refl

looks-fire : fire_time_reached (remains ∷ due ∷ []) ≡ some true
unfolding fire_time_reached
looks-fire = refl

run_batch-IsAnswer_example :
    (b : BatchCalibration) × (run_batch sites (remains ∷ due ∷ []) false (new_batch ids) ≡ some b)
    × (b.state ≡ end_state true false)
    × ((id : Str)
        → has_id id ids ≡ true
        → (r : CalibrationResult) × (lookup b.results id ≡ some r) × IsAnswer true (sites id) r)
run_batch-IsAnswer_example = run_batch-IsAnswer sites (remains ∷ due ∷ []) false true ids looks-fire
