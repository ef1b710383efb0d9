-- ===== src/Calibration/Run/Traces.antt =====
-- The states that a job goes through, as its events report them.
use ms605_ble.Prelude.{List, [], ◌∷◌, Option, none, some, Bool, true, false, ◌≡◌, refl, arith}
use ms605_ble.Events.{CalibrationState, is_terminal}
use ms605_ble.Calibration.{
  Message, CalibrationResult, Effect, state_changed, progressed, finished, reads_config,
  starts_learning, closes_session, appends_history, CalibrationJob, result_of, finish, cancel,
}

-- The steps of the state: forward to learning, and from any of these to an end.
abbrev pub IsStep : CalibrationState → CalibrationState → Type 0
IsStep CalibrationState.idle CalibrationState.starting = Unit {0}
IsStep CalibrationState.starting CalibrationState.learning = Unit {0}
IsStep from to = (is_terminal from ≡ false) × (is_terminal to ≡ true)

-- The effects so far, the last one first, report a way from idle to the state, and no result.
abbrev pub LeadsTo : CalibrationState → List Effect → Type 0
LeadsTo s [] = s ≡ CalibrationState.idle
LeadsTo s (state_changed new previous detail ∷ trace) =
    (s ≡ new) × IsStep previous new × LeadsTo previous trace
LeadsTo s (finished r ∷ trace) = ⊥
LeadsTo s (progressed ∷ trace) = LeadsTo s trace
LeadsTo s (reads_config ∷ trace) = LeadsTo s trace
LeadsTo s (starts_learning ∷ trace) = LeadsTo s trace
LeadsTo s (closes_session ∷ trace) = LeadsTo s trace
LeadsTo s (appends_history ∷ trace) = LeadsTo s trace

-- Whether the driver was told to learn.
abbrev pub has_started : List Effect → Bool
has_started [] = false
has_started (starts_learning ∷ trace) = true
has_started (e ∷ trace) = has_started trace

-- A job that has not ended.
pub record IsOpen (j : CalibrationJob) : Type 0 where
  pub running : j.running ≡ true
  pub no_result : j.result ≡ none
  pub not_ended : is_terminal j.state ≡ false
  pub leads : LeadsTo j.state j.trace
  pub started : j.started ≡ has_started j.trace

-- A job that has ended with a result: its last two effects report the end and the result, once.
pub record HasEnded (j : CalibrationJob) (r : CalibrationResult) : Type 0 where
  pub result : j.result ≡ some r
  pub state : j.state ≡ r.state
  pub previous : CalibrationState
  pub detail : Message
  pub trace : List Effect
  pub reported : j.trace ≡ finished r ∷ state_changed r.state previous detail ∷ trace
  pub ended : is_terminal r.state ≡ true
  pub not_ended : is_terminal previous ≡ false
  pub leads : LeadsTo previous trace
  pub started : r.started ≡ has_started trace

pub finish-HasEnded :
    (state : CalibrationState) (error : Option Message) (detail : Message) (j : CalibrationJob)
    → is_terminal state ≡ true
    → IsOpen j
    → HasEnded (finish state error detail j) (result_of state error detail j)
unfolding finish
finish-HasEnded state error detail j t o = record {
  result = refl;
  state = refl;
  previous = j.state;
  detail = detail;
  trace = j.trace;
  reported = refl;
  ended = t;
  not_ended = o.not_ended;
  leads = o.leads;
  started = o.started;
}

-- While `run` is on its way, `cancel` leaves a request and nothing else.
pub cancel-IsOpen : (j : CalibrationJob) → IsOpen j → IsOpen (cancel j)
unfolding cancel
cancel-IsOpen j o = ground arith
