-- ===== src/Fleet/Batch/JobEnds.antt =====
-- What a batch must report of a device, and that it reports this of one job.
use ms605_ble.Prelude.{Option, none, some, Bool, true, false, if◌then◌else◌, ◌≡◌, refl}
use ms605_ble.Events.{CalibrationState}
use ms605_ble.Calibration.{Message, CalibrationResult, CalibrationJob, new_job, cancel}
use ms605_ble.Calibration.World.{Outcome, returns, raises, interrupted}
use ms605_ble.Calibration.Run.{run}
use ms605_ble.Fleet.Batch.{Site, lost_result, job_result, job_ends}

-- A result that the batch made itself.
abbrev pub IsOwn : CalibrationState → Option Message → Message → CalibrationResult → Type 0
IsOwn state error detail r =
    (r.state ≡ state)
    × (r.error ≡ error)
    × (r.detail ≡ detail)
    × (r.started ≡ false)
    × (r.before ≡ none)
    × (r.after ≡ none)

-- The result of a job, whose `run` came to this and which holds this result: what `run` returned,
-- else what it holds, else FAILED with how `run` ended.
abbrev pub IsJobEnd :
    Outcome (Option CalibrationResult) → Option CalibrationResult → CalibrationResult → Type 0
IsJobEnd (returns (some x)) held r = r ≡ x
IsJobEnd (returns none) (some x) r = r ≡ x
IsJobEnd (raises e t) (some x) r = r ≡ x
IsJobEnd interrupted (some x) r = r ≡ x
IsJobEnd (returns none) none r =
    IsOwn CalibrationState.failed (some Message.repr_none) Message.empty r
IsJobEnd (raises e t) none r =
    IsOwn CalibrationState.failed (some (Message.repr_error e t)) Message.empty r
IsJobEnd interrupted none r =
    IsOwn CalibrationState.failed (some Message.repr_cancelled) Message.empty r

-- The result of a device at the fire: LOST without its session, else that of its job, which may have
-- been cancelled before its `run`.
abbrev pub IsFired : Bool → Site → CalibrationResult → Type 0
IsFired false site r = IsOwn CalibrationState.lost none Message.no_session r
IsFired true site r =
    let (out, j) = run site.world (if site.cancelled_early then cancel new_job else new_job) in
    IsJobEnd out j.result r

abbrev pub IsAnswer : Bool → Site → CalibrationResult → Type 0
IsAnswer false site r = IsOwn CalibrationState.cancelled none Message.empty r
IsAnswer true site r = IsFired site.present site r

pub job_result-IsJobEnd :
    (out : Outcome (Option CalibrationResult)) (j : CalibrationJob)
    (held : Option CalibrationResult)
    → j.result ≡ held
    → IsJobEnd out held (job_result (out, j))
job_result-IsJobEnd (returns (some x)) j held h = refl
job_result-IsJobEnd (returns none) j (some x) h = rw h refl
job_result-IsJobEnd (raises e t) j (some x) h = rw h refl
job_result-IsJobEnd interrupted j (some x) h = rw h refl
job_result-IsJobEnd (returns none) j none h = rw h (refl, refl, refl, refl, refl, refl)
job_result-IsJobEnd (raises e t) j none h = rw h (refl, refl, refl, refl, refl, refl)
job_result-IsJobEnd interrupted j none h = rw h (refl, refl, refl, refl, refl, refl)

pub present-IsFired :
    (here : Bool) (site : Site)
    → IsFired here site (if here then job_result (job_ends site new_job) else lost_result)
present-IsFired true site =
    let (out, j) = job_ends site new_job in job_result-IsJobEnd out j j.result refl
present-IsFired false site = (refl, refl, refl, refl, refl, refl)
