-- ===== src/Jobs/Payloads.antt =====
-- What the stored jobs have in common, whatever calls led to them.
use mathlib.Core.Path.{subst}
use mathlib.Core.Bool.{false≢true}
use quantum_api.Base.{
  sym, ap, ℕ, ◌≡◌, refl, Bool, true, false, Option, none, some, List, [], ◌∷◌, arith, ◌==◌, inl,
  inr, All, Bool-cases, Option-cases, is_some,
}
use quantum_api.Base.Int.{ℤ, ◌≤ℤ◌}
use quantum_api.Base.Text.{Text}
use quantum_api.Random.{
  Draw, RawResult, value, rejection_exhausted, malformed_provider_result, out_of_fuel,
  random_value_from_result, valid_random_request,
}
use quantum_api.Random.Range.{Within, random_value_from_result-Within}
use quantum_api.Jobs.Table.{
  JobStatus, queued, running, succeeded, failed, cancelling, cancelled, RequestPayload, random,
  circuit, ResultPayload, drawn, counted, ErrorPayload, ExecutionJobRecord, Outcome, JobTable,
  stored_job, modify_job, is_terminal, updated, NewJob, create_job,
}
use quantum_api.Jobs.Hardware.{
  RemoteJob, num_qubits_of, is_settled, update_of, draw_error, runtime_job_error_payload,
  provider_result_unavailable, read_random, refresh_random_result, refresh_counts,
  refresh_succeeded, refresh_with, refresh_job, then_refresh, cancel_job,
  normalize_runtime_job_status,
}
use quantum_api.Jobs.Requests.{
  JobRequest, submit, refresh, cancel, run_job_request, run_job_requests, valid_payload,
}
use quantum_api.Jobs.Settled.{get_job-cases, update_job-cases, stored_id}

-- A request is valid, and a result is of the request's kind: a number drawn lies between the
-- requested bounds.
abbrev pub PayloadFits : RequestPayload → Option ResultPayload → Type 0
PayloadFits (random lo hi shots) none = lo ≤ℤ hi
PayloadFits (random lo hi shots) (some (drawn v)) = (lo ≤ℤ hi) × (lo ≤ℤ v) × (v ≤ℤ hi)
PayloadFits (random lo hi shots) (some (counted _ _ _)) = ⊥
PayloadFits (circuit _ _ _) (some (drawn v)) = ⊥
PayloadFits (circuit _ _ _) _ = Unit

-- A result is stored only with the status `succeeded`, an error only with `failed` or `cancelled`,
-- and either with the time of completion.
abbrev pub StatusFits : JobStatus → Bool → Bool → Bool → Type 0
StatusFits succeeded result error completed = (error ≡ false) × (result ≡ true → completed ≡ true)
StatusFits failed result error completed = (result ≡ false) × (error ≡ true → completed ≡ true)
StatusFits cancelled result error completed = (result ≡ false) × (error ≡ true → completed ≡ true)
StatusFits _ result error completed = (result ≡ false) × (error ≡ false)

abbrev pub JobFits : ExecutionJobRecord → Type 0
JobFits r =
    PayloadFits r.request_payload r.result_payload
    × StatusFits r.status (is_some r.result_payload) (is_some r.error_payload)
        (is_some r.completed_at)

All-find :
    (P : ExecutionJobRecord → Type 0) (k : ℕ) (jobs : JobTable) {r : ExecutionJobRecord}
    → All P jobs
    → stored_job k jobs ≡ some r
    → P r
All-find P k [] a h = cc
All-find P k (x ∷ xs) {r} a h = elim (Bool-cases (x.job_id == k)) [
  | inl here ↦ let same : x ≡ r = cc (rw here at h) in subst P same a.0
  | inr there ↦ All-find P k xs a.1 (rw there at h)
]

All-modify_job :
    (P : ExecutionJobRecord → Type 0) (f : ExecutionJobRecord → ExecutionJobRecord) (k : ℕ)
    (jobs : JobTable) {r : ExecutionJobRecord}
    → All P jobs
    → stored_job k jobs ≡ some r
    → P (f r)
    → All P (modify_job k f jobs)
All-modify_job P f k [] a h fits = tt
All-modify_job P f k (x ∷ xs) {r} a h fits = elim (Bool-cases (x.job_id == k)) [
  | inl here ↦
      let same : x ≡ r = cc (rw here at h) in rw here (subst (λ y. P (f y)) (sym same) fits, a.1)
  | inr there ↦ rw there (a.0, All-modify_job P f k xs a.1 (rw there at h) fits)
]

-- A job that is not settled has no payload yet.
bare :
    (r : ExecutionJobRecord)
    → JobFits r
    → is_settled r ≡ false
    → (status : JobStatus) → r.status ≡ status
    → (is_some r.result_payload ≡ false) × (is_some r.error_payload ≡ false)
bare r fits u succeeded e = (rw e at u, (rw e at fits.1).0)
bare r fits u failed e = absurd (false≢true (sym (rw e at u)))
bare r fits u cancelled e = absurd (false≢true (sym (rw e at u)))
bare r fits u queued e = rw e at fits.1
bare r fits u running e = rw e at fits.1
bare r fits u cancelling e = rw e at fits.1

valid_bounds :
    (lo hi : ℤ) (shots : ℕ) (o : Option ResultPayload)
    → PayloadFits (random lo hi shots) o
    → lo ≤ℤ hi
valid_bounds lo hi shots none h = h
valid_bounds lo hi shots (some (drawn v)) h = h.0
valid_bounds lo hi shots (some (counted _ _ _)) h = absurd h

-- A request stays valid when its payload is dropped.
without_result :
    (q : RequestPayload) (o : Option ResultPayload) → PayloadFits q o → PayloadFits q none
without_result (random lo hi shots) o h = valid_bounds lo hi shots o h
without_result (circuit _ _ _) o h = tt

abbrev AllFit : JobTable → Type 0
AllFit jobs = All JobFits jobs

module _ (r : ExecutionJobRecord) (now : ℕ) (jobs : JobTable)
    (found : stored_job r.job_id jobs ≡ some r) (all : AllFit jobs) where
  update_of-Fits :
      (status : JobStatus) (result : Option ResultPayload) (error : Option ErrorPayload)
      → JobFits (updated status result error now r)
      → AllFit (update_of r status result error now jobs).0
  update_of-Fits status result error fits =
      elim (update_job-cases r.owner_user_id r.job_id status result error now jobs) [
        | inl gone ↦ subst (λ (p : JobTable × Outcome). AllFit p.0) (sym gone) all
        | inr (r0, found0, done) ↦
            subst (λ (p : JobTable × Outcome). AllFit p.0) (sym done)
              (All-modify_job JobFits (updated status result error now) r.job_id jobs all found
                fits)
      ]

  fits_now : JobFits r
  fits_now = All-find JobFits r.job_id jobs all found

  random-Fits :
      (lo hi : ℤ) (shots : ℕ)
      → r.request_payload ≡ random lo hi shots
      → lo ≤ℤ hi
      → (d : Draw) → Within lo hi d
      → AllFit (refresh_random_result r (some d) now jobs).0
  unfolding refresh_random_result
  random-Fits lo hi shots e h (value v) w =
      update_of-Fits succeeded (some (drawn v)) none (rw e (h, w.0, w.1), (refl, λ _. refl))
  random-Fits lo hi shots e h rejection_exhausted w =
      update_of-Fits failed none (some (draw_error rejection_exhausted)) (rw e h, (refl, λ _. refl))
  random-Fits lo hi shots e h malformed_provider_result w =
      update_of-Fits failed none (some (draw_error malformed_provider_result))
        (rw e h, (refl, λ _. refl))
  random-Fits lo hi shots e h out_of_fuel w =
      update_of-Fits failed none (some (draw_error out_of_fuel)) (rw e h, (refl, λ _. refl))

  read_random-Fits :
      (lo hi : ℤ) (shots : ℕ)
      → r.request_payload ≡ random lo hi shots
      → lo ≤ℤ hi
      → (raw : Option RawResult)
      → AllFit (refresh_random_result r (read_random raw lo hi) now jobs).0
  unfolding read_random refresh_random_result
  read_random-Fits lo hi shots e h none =
      update_of-Fits failed none (some provider_result_unavailable) (rw e h, (refl, λ _. refl))
  read_random-Fits lo hi shots e h (some raw) =
      random-Fits lo hi shots e h (random_value_from_result raw lo hi)
        (random_value_from_result-Within raw lo hi h)

  counts-Fits :
      (given in_circuit : Option ℕ) (asked : ℕ) (job : RemoteJob)
      → r.request_payload ≡ circuit given in_circuit asked
      → (n : Option ℕ) (shots : ℕ) → AllFit (refresh_counts r job n shots now jobs).0
  unfolding refresh_counts
  counts-Fits given in_circuit asked job e none shots = all
  counts-Fits given in_circuit asked job e (some n) shots =
      elim (Option-cases (job.measurement_counts n)) [
        | inl missing ↦ rw (missing, refresh_counts) all
        | inr (counts, c) ↦
            rw (c, refresh_counts)
              (update_of-Fits succeeded (some (counted n shots counts)) none
                (rw e tt, (refl, λ _. refl)))
      ]

  payload-Fits :
      (job : RemoteJob) (q : RequestPayload)
      → r.request_payload ≡ q
      → AllFit (refresh_succeeded r job now jobs).0
  unfolding refresh_succeeded
  payload-Fits job (random lo hi shots) e =
      let h = valid_bounds lo hi shots r.result_payload (rw e at fits_now.0) in
      rw e (read_random-Fits lo hi shots e h job.raw_result)
  payload-Fits job (circuit given in_circuit shots) e =
      rw e (counts-Fits given in_circuit shots job e (num_qubits_of given in_circuit) shots)

  ended-Fits :
      (status : JobStatus) (error : Option ErrorPayload)
      → StatusFits status false
          (is_some error)
          (is_some (updated status none error now r).completed_at)
      → AllFit (update_of r status none error now jobs).0
  ended-Fits status error s =
      update_of-Fits status none error
        (without_result r.request_payload r.result_payload fits_now.0, s)

  kept-Fits :
      (status : JobStatus)
      → StatusFits status
          (is_some r.result_payload)
          (is_some r.error_payload)
          (is_some (updated status none none now r).completed_at)
      → AllFit (update_of r status r.result_payload r.error_payload now jobs).0
  kept-Fits status s = update_of-Fits status r.result_payload r.error_payload (fits_now.0, s)

  refresh_with-Fits :
      (job : RemoteJob)
      → is_settled r ≡ false
      → (status : JobStatus) → AllFit (refresh_with r job status now jobs).0
  unfolding refresh_with
  refresh_with-Fits job u succeeded = payload-Fits job r.request_payload refl
  refresh_with-Fits job u failed =
      ended-Fits failed (runtime_job_error_payload job) (refl, λ _. refl)
  refresh_with-Fits job u cancelled =
      ended-Fits cancelled (runtime_job_error_payload job) (refl, λ _. refl)
  refresh_with-Fits job u queued = kept-Fits queued (bare r fits_now u r.status refl)
  refresh_with-Fits job u running = kept-Fits running (bare r fits_now u r.status refl)
  refresh_with-Fits job u cancelling = kept-Fits cancelling (bare r fits_now u r.status refl)

  refresh_job-Fits :
      (upper : Text → Text) (job : RemoteJob) → AllFit (refresh_job upper r job now jobs).0
  unfolding refresh_job
  refresh_job-Fits upper job = elim (Bool-cases (is_settled r)) [
    | inl settled ↦ rw settled all
    | inr u ↦ elim (Option-cases job.status) [
      | inl missing ↦ rw (u, missing) all
      | inr (raw, e) ↦ rw (u, e) (refresh_with-Fits job u (normalize_runtime_job_status upper raw))
    ]
  ]

stored-modify_self :
    (k : ℕ) (status : JobStatus) (result : Option ResultPayload) (error : Option ErrorPayload)
    (now : ℕ) (jobs : JobTable) {r : ExecutionJobRecord}
    → stored_job k jobs ≡ some r
    → stored_job k (modify_job k (updated status result error now) jobs)
      ≡ some (updated status result error now r)
stored-modify_self k status result error now [] h = cc
stored-modify_self k status result error now (x ∷ xs) {r} h = elim (Bool-cases (x.job_id == k)) [
  | inl here ↦
      let same : x ≡ r = cc (rw here at h) in
      rw (here, here) (ap (λ y. some (updated status result error now y)) same)
  | inr there ↦ rw (there, there) (stored-modify_self k status result error now xs (rw there at h))
]

unsettled :
    (r : ExecutionJobRecord)
    → is_terminal r.status ≡ false
    → (status : JobStatus) → r.status ≡ status
    → is_settled r ≡ false
unsettled r t succeeded e = absurd (false≢true (sym (rw e at t)))
unsettled r t failed e = absurd (false≢true (sym (rw e at t)))
unsettled r t cancelled e = absurd (false≢true (sym (rw e at t)))
unsettled r t queued e = rw e
unsettled r t running e = rw e
unsettled r t cancelling e = rw e

cancel_job-Fits :
    (upper : Text → Text) (r : ExecutionJobRecord) (accepted : Bool) (job : RemoteJob) (now : ℕ)
    (jobs : JobTable)
    → stored_job r.job_id jobs ≡ some r
    → AllFit jobs
    → AllFit (cancel_job upper r accepted job now jobs).0
unfolding cancel_job then_refresh
cancel_job-Fits upper r accepted job now jobs found all = elim (Bool-cases (is_terminal r.status)) [
  | inl terminal ↦ rw (terminal, cancel_job) all
  | inr going ↦ elim (Bool-cases accepted) [
    | inr refused ↦ rw (going, cancel_job, refused) all
    | inl taken ↦
        let u = unsettled r going r.status refl in
        let kept =
          kept-Fits r now jobs found all cancelling
            (bare r (fits_now r now jobs found all) u r.status refl) in
        elim (update_job-cases r.owner_user_id r.job_id cancelling r.result_payload r.error_payload
          now jobs) [
            | inl gone ↦
                rw (going, cancel_job, taken)
                  (subst (λ (p : JobTable × Outcome). AllFit (then_refresh upper job now p).0)
                    (sym gone) all)
            | inr (r0, found0, done) ↦
                let jobs' =
                  modify_job r.job_id (updated cancelling r.result_payload r.error_payload now)
                    jobs in
                let r' = updated cancelling r.result_payload r.error_payload now r0 in
                let again =
                  stored-modify_self r.job_id cancelling r.result_payload r.error_payload now jobs
                    found0 in
                let found' : stored_job r0.job_id jobs' ≡ some r' =
                  subst (λ (k : ℕ). stored_job k jobs' ≡ some r')
                    (sym (stored_id r.job_id jobs found0)) again in
                let all' : AllFit jobs' =
                  subst (λ (p : JobTable × Outcome). AllFit p.0) done kept in
                rw (going, cancel_job, taken)
                  (subst (λ (p : JobTable × Outcome). AllFit (then_refresh upper job now p).0)
                    (sym done) (refresh_job-Fits r' now jobs' found' all' upper job))
          ]
  ]
]

valid_order : (lo hi : ℤ) → valid_random_request lo hi ≡ true → lo ≤ℤ hi
unfolding valid_random_request
valid_order lo hi h = ground (arith, h)

new-PayloadFits : (q : RequestPayload) → valid_payload q ≡ true → PayloadFits q none
new-PayloadFits (random lo hi shots) h = valid_order lo hi h
new-PayloadFits (circuit _ _ _) h = tt

new-StatusFits : (status : JobStatus) → StatusFits status false false false
new-StatusFits succeeded = (refl, λ h. h)
new-StatusFits failed = (refl, λ h. h)
new-StatusFits cancelled = (refl, λ h. h)
new-StatusFits queued = (refl, refl)
new-StatusFits running = (refl, refl)
new-StatusFits cancelling = (refl, refl)

create_job-Fits :
    (owner : ℕ) (j : NewJob) (uuid now : ℕ) (jobs : JobTable)
    → valid_payload j.request_payload ≡ true
    → AllFit jobs
    → AllFit (create_job owner j uuid now jobs).0
unfolding create_job
create_job-Fits owner j uuid now jobs h all = elim (Option-cases (stored_job uuid jobs)) [
  | inr (r, taken) ↦ rw (taken, create_job) all
  | inl free ↦
      rw (free, create_job) ((new-PayloadFits j.request_payload h, new-StatusFits j.status), all)
]

found_job :
    (k : ℕ) (jobs : JobTable) {r : ExecutionJobRecord}
    → stored_job k jobs ≡ some r
    → stored_job r.job_id jobs ≡ some r
found_job k jobs {r} h = subst (λ (i : ℕ). stored_job i jobs ≡ some r) (sym (stored_id k jobs h)) h

module _ (upper : Text → Text) where
  run_job_request-Fits :
      (q : JobRequest) (jobs : JobTable) → AllFit jobs → AllFit (run_job_request upper q jobs)
  unfolding run_job_request
  run_job_request-Fits (submit owner j uuid now) jobs all =
      elim (Bool-cases (valid_payload j.request_payload)) [
        | inl valid ↦ rw (valid, run_job_request) (create_job-Fits owner j uuid now jobs valid all)
        | inr invalid ↦ rw (invalid, run_job_request) all
      ]
  run_job_request-Fits (refresh owner k job now) jobs all = elim (get_job-cases owner k jobs) [
    | inl refused ↦ rw (refused, run_job_request) all
    | inr (r, found, mine, got) ↦
        rw (got, run_job_request)
          (refresh_job-Fits r now jobs (found_job k jobs found) all upper job)
  ]
  run_job_request-Fits (cancel owner k accepted job now) jobs all =
      elim (get_job-cases owner k jobs) [
        | inl refused ↦ rw (refused, run_job_request) all
        | inr (r, found, mine, got) ↦
            rw (got, run_job_request)
              (cancel_job-Fits upper r accepted job now jobs (found_job k jobs found) all)
      ]

  run_job_requests-Fits :
      (qs : List JobRequest) (jobs : JobTable)
      → AllFit jobs
      → AllFit (run_job_requests upper qs jobs)
  unfolding run_job_requests
  run_job_requests-Fits [] jobs all = all
  run_job_requests-Fits (q ∷ qs) jobs all =
      run_job_requests-Fits qs (run_job_request upper q jobs) (run_job_request-Fits q jobs all)

  -- Starting with no jobs, after any calls of the job routes and whatever the provider answers: a
  -- result is of its request's kind, and a number drawn lies between the requested bounds; a result
  -- is stored only with the status `succeeded`, an error only with `failed` or `cancelled`, and
  -- either only with the time of completion.
  pub reachable_jobs-JobFits : (qs : List JobRequest) → All JobFits (run_job_requests upper qs [])
  reachable_jobs-JobFits qs = run_job_requests-Fits qs [] tt
