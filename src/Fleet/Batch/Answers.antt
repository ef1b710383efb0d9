-- ===== src/Fleet/Batch/Answers.antt =====
-- A batch that ends has a result for each of its devices.
use ms605_ble.Prelude.{
  List, [], ◌∷◌, some, Bool, true, false, ◌||◌, if◌then◌else◌, All, ◌≡◌, refl, sym, ap, subst,
  arith, inl, inr, Bool-cases,
}
use ms605_ble.Dicts.{Str, Dict, str_eq, lookup, contains, set_item}
use ms605_ble.Calibration.{CalibrationResult, CalibrationJob, new_job}
use ms605_ble.Fleet.Batch.{
  BatchState, BatchCalibration, new_batch, set_batch_state, emit_result, Look, fire_time_reached,
  Site, lost_result, cancelled_result, job_result, job_ends, take_result, cancel_all, start_job,
  start_jobs, collect, fired, after_fire, run_batch,
}
use ms605_ble.Fleet.Batch.JobEnds.{IsAnswer, present-IsFired}
use ms605_ble.Fleet.Batch.Results.{
  has_id, Right, set_item-Right, set_item-All, contains-nil, contains-cons, contains-set,
  cancel_all-Right, cancel_all-contains, take_result-results, answered, nothing-Right,
}

module _ (sites : Str → Site) where
  -- The result for a device once the batch has fired.
  abbrev pub fired_result : Str → CalibrationResult
  fired_result i =
      if (sites i).present then job_result (job_ends (sites i) new_job) else lost_result

  -- The job of an entry makes the result wanted.
  abbrev Makes : Str × CalibrationJob → Type 0
  Makes (i, j) = job_result (job_ends (sites i) j) ≡ fired_result i

  -- Results and jobs so far are right, and answer for whom they should.
  record Started (b : BatchCalibration) : Type 0 where
    right : Right fired_result b.results
    made : All Makes b.jobs

  start_job-Started : (i : Str) (b : BatchCalibration) → Started b → Started (start_job sites i b)
  start_job-Started i b s = elim (Bool-cases ((sites i).present)) [
    | inl here ↦
        let wanted : job_result (job_ends (sites i) new_job) ≡ fired_result i = rw here refl in
        let goal : start_job sites i b ≡ record b { jobs = set_item b.jobs i new_job } =
          rw here refl in
        subst Started (sym goal)
          (record { right = s.right; made = set_item-All Makes b.jobs i new_job wanted s.made })
    | inr gone ↦
        let wanted : lost_result ≡ fired_result i = rw gone refl in
        let goal : start_job sites i b ≡ emit_result i lost_result b = rw gone refl in
        subst Started (sym goal) (record {
          right = set_item-Right fired_result b.results i lost_result wanted s.right;
          made = s.made;
        })
  ]

  -- A device that has a job or a result.
  abbrev is_served : BatchCalibration → Str → Bool
  is_served b id = contains b.results id || contains b.jobs id

  start_job-serves :
      (i : Str) (b : BatchCalibration) (id : Str)
      → (is_served b id || str_eq i id) ≡ true
      → is_served (start_job sites i b) id ≡ true
  start_job-serves i b id h = elim (Bool-cases ((sites i).present)) [
    | inl here ↦ rw here (serves_right _ _ _ _ h (contains-set b.jobs i new_job id))
    | inr gone ↦ rw gone (serves_left _ _ _ _ h (contains-set b.results i lost_result id))
  ]
    where
      serves_right :
          (r j e j' : Bool)
          → ((r || j) || e) ≡ true
          → ((j || e) ≡ true → j' ≡ true)
          → (r || j') ≡ true
      serves_right r j e j' h grow = ground (arith, h, grow)

      serves_left :
          (r j e r' : Bool)
          → ((r || j) || e) ≡ true
          → ((r || e) ≡ true → r' ≡ true)
          → (r' || j) ≡ true
      serves_left r j e r' h grow = ground (arith, h, grow)

  start_jobs-Started :
      (ids : List Str) (b : BatchCalibration) → Started b → Started (start_jobs sites ids b)
  start_jobs-Started [] b s = s
  start_jobs-Started (i ∷ ids) b s =
      start_jobs-Started ids (start_job sites i b) (start_job-Started i b s)

  start_jobs-serves :
      (ids : List Str) (b : BatchCalibration) (id : Str)
      → (is_served b id || has_id id ids) ≡ true
      → is_served (start_jobs sites ids b) id ≡ true
  start_jobs-serves [] b id h = ground (arith, h)
  start_jobs-serves (i ∷ ids) b id h = start_jobs-serves ids (start_job sites i b) id (
      one_of (str_eq i id) (has_id id ids) (is_served b id) (is_served (start_job sites i b) id) h
        (start_job-serves i b id))
    where
      one_of :
          (e m s s' : Bool)
          → (s || (if e then true else m)) ≡ true
          → ((s || e) ≡ true → s' ≡ true)
          → (s' || m) ≡ true
      one_of e m s s' h grow = ground (arith, h, grow)

  collect-Right :
      (jobs : Dict CalibrationJob) (b : BatchCalibration)
      → All Makes jobs
      → Right fired_result b.results
      → Right fired_result ((collect sites jobs b).results)
  collect-Right [] b made right = right
  collect-Right ((i, j) ∷ jobs) b (makes, made) right =
      let ends = job_ends (sites i) j in
      collect-Right jobs (take_result i ends b) made (
        subst (Right fired_result) (sym (take_result-results i ends b))
          (set_item-Right fired_result b.results i (job_result ends) makes right))

  collect-contains :
      (jobs : Dict CalibrationJob) (b : BatchCalibration) (id : Str)
      → (contains b.results id || contains jobs id) ≡ true
      → contains ((collect sites jobs b).results) id ≡ true
  collect-contains [] b id h = ground (arith, h, contains-nil CalibrationJob id)
  collect-contains ((i, j) ∷ jobs) b id h =
      let ends = job_ends (sites i) j in
      collect-contains jobs (take_result i ends b) id (
        rw (take_result-results i ends b) (
          ground
            (arith, h, contains-cons i j jobs id, contains-set b.results i (job_result ends) id)))

new-Started : (sites : Str → Site) (ids : List Str) → Started sites (new_batch ids)
new-Started sites ids = record { right = nothing-Right (fired_result sites); made = tt }

-- A batch whose devices' sessions are these, once it fires or is cancelled before: the state and the
-- results.
abbrev pub end_state : Bool → Bool → BatchState
end_state true cancel_is_set = if cancel_is_set then BatchState.cancelled else BatchState.finished
end_state false cancel_is_set = BatchState.cancelled

abbrev pub end_result : (Str → Site) → Bool → Str → CalibrationResult
end_result sites true i = fired_result sites i
end_result sites false i = cancelled_result

abbrev IsAnswered : (Str → Site) → Bool → Bool → List Str → BatchCalibration → Type 0
IsAnswered sites fire cancel_is_set ids b =
    (b.state ≡ end_state fire cancel_is_set)
    × ((id : Str) → has_id id ids ≡ true → lookup b.results id ≡ some (end_result sites fire id))

fired-IsAnswered :
    (sites : Str → Site) (cancel_is_set : Bool) (ids : List Str)
    → IsAnswered sites true cancel_is_set ids (fired sites cancel_is_set (new_batch ids))
fired-IsAnswered sites cancel_is_set ids =
    let b1 = set_batch_state BatchState.running (start_jobs sites ids (new_batch ids)) in
    let s = start_jobs-Started sites ids (new_batch ids) (new-Started sites ids) in
    (
      refl,
      λ id h.
          answered (fired_result sites) ((collect sites b1.jobs b1).results) id
            (collect-Right sites b1.jobs b1 s.made s.right)
            (collect-contains sites b1.jobs b1 id
              (start_jobs-serves sites ids (new_batch ids) id (ground (arith, h)))),
    )

cancelled-IsAnswered :
    (sites : Str → Site) (cancel_is_set : Bool) (ids : List Str)
    → IsAnswered sites false cancel_is_set ids
        (set_batch_state BatchState.cancelled (cancel_all ids (new_batch ids)))
cancelled-IsAnswered sites cancel_is_set ids = (
  refl,
  λ id h.
      answered (λ i. cancelled_result) ((cancel_all ids (new_batch ids)).results) id
        (cancel_all-Right ids (new_batch ids) (nothing-Right (λ i. cancelled_result)))
        (cancel_all-contains ids (new_batch ids) id (ground (arith, h))),
)

end_result-IsAnswer :
    (sites : Str → Site) (fire : Bool) (i : Str) → IsAnswer fire (sites i) (end_result sites fire i)
end_result-IsAnswer sites true i = present-IsFired ((sites i).present) (sites i)
end_result-IsAnswer sites false i = (refl, refl, refl, refl, refl, refl)

run_batch-results :
    (sites : Str → Site) (looks : List Look) (cancel_is_set fire : Bool) (ids : List Str)
    → fire_time_reached looks ≡ some fire
    → (b : BatchCalibration) × (run_batch sites looks cancel_is_set (new_batch ids) ≡ some b)
      × (b.state ≡ end_state fire cancel_is_set)
      × ((id : Str) → has_id id ids ≡ true → lookup b.results id ≡ some (end_result sites fire id))
unfolding run_batch
run_batch-results sites looks cancel_is_set true ids h =
    let (ended, results) = fired-IsAnswered sites cancel_is_set ids in
    (
      fired sites cancel_is_set (new_batch ids),
      ap (λ f. after_fire sites f cancel_is_set (new_batch ids)) h,
      ended,
      results,
    )
run_batch-results sites looks cancel_is_set false ids h =
    let (ended, results) = cancelled-IsAnswered sites cancel_is_set ids in
    (
      set_batch_state BatchState.cancelled (cancel_all ids (new_batch ids)),
      ap (λ f. after_fire sites f cancel_is_set (new_batch ids)) h,
      ended,
      results,
    )

-- A new batch ends once a turn of its loop finds that the time has come, or that it has been
-- cancelled. Its state is then DONE, or CANCELLED where it has been cancelled by then; and each of
-- its devices has a result. Where the batch never fired this is CANCELLED; where the device's session
-- was gone, LOST; otherwise it is the result that `run` of the device's own job returned, or, where
-- `run` returned none, raised or was interrupted, the result that the job holds, or FAILED with how
-- `run` ended where the job holds none. A result that the batch makes itself says that nothing was
-- started, and has no configuration.
pub run_batch-IsAnswer :
    (sites : Str → Site) (looks : List Look) (cancel_is_set fire : Bool) (ids : List Str)
    → fire_time_reached looks ≡ some fire
    → (b : BatchCalibration) × (run_batch sites looks cancel_is_set (new_batch ids) ≡ some b)
      × (b.state ≡ end_state fire cancel_is_set)
      × ((id : Str)
          → has_id id ids ≡ true
          → (r : CalibrationResult) × (lookup b.results id ≡ some r) × IsAnswer fire (sites id) r)
run_batch-IsAnswer sites looks cancel_is_set fire ids h =
    let (b, ended, state, results) = run_batch-results sites looks cancel_is_set fire ids h in
    (
      b,
      ended,
      state,
      λ id among. (end_result sites fire id, results id among, end_result-IsAnswer sites fire id),
    )
