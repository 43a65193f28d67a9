-- ===== src/Jobs/Settled.antt =====
-- What no call of a job route changes.
use mathlib.Core.Path.{subst}
use mathlib.Core.Bool.{false≢true}
use quantum_api.Base.{
  ℕ, ◌≡◌, refl, sym, ◌∙◌, ◌⊎◌, inl, inr, Bool, true, false, Option, none, some, List, [], ◌∷◌,
  arith, ◌==◌, ==_iff, Bool-cases, Option-cases,
}
use quantum_api.Base.Text.{Text}
use quantum_api.Random.{Draw, value, rejection_exhausted, malformed_provider_result, out_of_fuel}
use quantum_api.Jobs.Table.{
  JobStatus, queued, running, succeeded, failed, cancelling, cancelled, RequestPayload, random,
  circuit, ResultPayload, ErrorPayload, ExecutionJobRecord, job_not_found, Outcome, returned,
  raised, JobTable, stored_job, modify_job, is_terminal, updated, NewJob, create_job, get_job,
  update_job,
}
use quantum_api.Jobs.Hardware.{
  RemoteJob, num_qubits_of, is_settled, update_of, read_random, refresh_random_result,
  refresh_counts, refresh_succeeded, refresh_with, refresh_job, then_refresh, cancel_job,
  normalize_runtime_job_status,
}
use quantum_api.Jobs.Requests.{
  JobRequest, submit, refresh, cancel, run_job_request, run_job_requests, valid_payload,
}

stored-modify_other :
    (k j : ℕ) (status : JobStatus) (result : Option ResultPayload) (error : Option ErrorPayload)
    (now : ℕ) (jobs : JobTable)
    → (j == k) ≡ false
    → stored_job k (modify_job j (updated status result error now) jobs) ≡ stored_job k jobs
stored-modify_other k j status result error now [] h = refl
stored-modify_other k j status result error now (r ∷ rs) h =
    ground (arith, stored-modify_other k j status result error now rs)

pub stored_id :
    (k : ℕ) (jobs : JobTable) {r : ExecutionJobRecord} → stored_job k jobs ≡ some r → r.job_id ≡ k
stored_id k [] h = cc
stored_id k (x ∷ xs) {r} h = elim (Bool-cases (x.job_id == k)) [
  | inl here ↦ let same : x ≡ r = cc (rw here at h) in rw (← same) (ground arith)
  | inr there ↦ stored_id k xs (rw there at h)
]

pub update_job-cases :
    (owner j : ℕ) (status : JobStatus) (result : Option ResultPayload) (error : Option ErrorPayload)
    (now : ℕ) (jobs : JobTable)
    → (update_job owner j status result error now jobs ≡ (jobs, raised job_not_found))
      ⊎ ((r : ExecutionJobRecord) × (stored_job j jobs ≡ some r)
          × (update_job owner j status result error now jobs ≡ (
            modify_job j (updated status result error now) jobs,
            returned (updated status result error now r),
          )))
unfolding update_job
update_job-cases owner j status result error now jobs = elim (Option-cases (stored_job j jobs)) [
  | inl missing ↦ inl (rw (missing, update_job))
  | inr (r, found) ↦ elim (Bool-cases (r.owner_user_id == owner)) [
    | inl mine ↦ inr (r, found, rw (found, update_job, mine))
    | inr other ↦ inl (rw (found, update_job, other))
  ]
]

pub get_job-cases :
    (owner j : ℕ) (jobs : JobTable)
    → (get_job owner j jobs ≡ raised job_not_found)
      ⊎ ((r : ExecutionJobRecord) × (stored_job j jobs ≡ some r)
          × (r.owner_user_id ≡ owner)
          × (get_job owner j jobs ≡ returned r))
unfolding get_job
get_job-cases owner j jobs = elim (Option-cases (stored_job j jobs)) [
  | inl missing ↦ inl (rw (missing, get_job))
  | inr (r, found) ↦ elim (Bool-cases (r.owner_user_id == owner)) [
    | inl mine ↦ inr (r, found, (==_iff _ _).0 mine, rw (found, get_job, mine))
    | inr other ↦ inl (rw (found, get_job, other))
  ]
]

module _ (k : ℕ) where
  -- A call for another job leaves the job alone.
  abbrev Leaves : JobTable → JobTable × Outcome → Type 0
  Leaves jobs (jobs', _) = stored_job k jobs' ≡ stored_job k jobs

  update_job-Leaves :
      (owner j : ℕ) (status : JobStatus) (result : Option ResultPayload)
      (error : Option ErrorPayload) (now : ℕ) (jobs : JobTable)
      → (j == k) ≡ false
      → Leaves jobs (update_job owner j status result error now jobs)
  unfolding update_job
  update_job-Leaves owner j status result error now jobs h =
      elim (Option-cases (stored_job j jobs)) [
        | inl missing ↦ rw (missing, update_job)
        | inr (r, found) ↦ elim (Bool-cases (r.owner_user_id == owner)) [
          | inl mine ↦
              rw (found, update_job, mine) (stored-modify_other k j status result error now jobs h)
          | inr other ↦ rw (found, update_job, other)
        ]
      ]

  module _ (r : ExecutionJobRecord) (other : (r.job_id == k) ≡ false) (job : RemoteJob) (now : ℕ)
      (jobs : JobTable) where
    update_of-Leaves :
        (status : JobStatus) (result : Option ResultPayload) (error : Option ErrorPayload)
        → Leaves jobs (update_of r status result error now jobs)
    update_of-Leaves status result error =
        update_job-Leaves r.owner_user_id r.job_id status result error now jobs other

    refresh_random_result-Leaves :
        (d : Option Draw) → Leaves jobs (refresh_random_result r d now jobs)
    unfolding refresh_random_result
    refresh_random_result-Leaves (some (value v)) = update_of-Leaves _ _ _
    refresh_random_result-Leaves (some rejection_exhausted) = update_of-Leaves _ _ _
    refresh_random_result-Leaves (some malformed_provider_result) = update_of-Leaves _ _ _
    refresh_random_result-Leaves (some out_of_fuel) = update_of-Leaves _ _ _
    refresh_random_result-Leaves none = update_of-Leaves _ _ _

    refresh_counts-Leaves :
        (n : Option ℕ) (shots : ℕ) → Leaves jobs (refresh_counts r job n shots now jobs)
    unfolding refresh_counts
    refresh_counts-Leaves none shots = refl
    refresh_counts-Leaves (some n) shots = elim (Option-cases (job.measurement_counts n)) [
      | inl missing ↦ rw (missing, refresh_counts)
      | inr (counts, e) ↦ rw (e, refresh_counts) (update_of-Leaves _ _ _)
    ]

    refresh_payload-Leaves :
        (q : RequestPayload)
        → r.request_payload ≡ q
        → Leaves jobs (refresh_succeeded r job now jobs)
    unfolding refresh_succeeded
    refresh_payload-Leaves (random lo hi shots) e =
        rw e (refresh_random_result-Leaves (read_random job.raw_result lo hi))
    refresh_payload-Leaves (circuit given in_circuit shots) e =
        rw e (refresh_counts-Leaves (num_qubits_of given in_circuit) shots)

    refresh_with-Leaves : (status : JobStatus) → Leaves jobs (refresh_with r job status now jobs)
    unfolding refresh_with
    refresh_with-Leaves succeeded = refresh_payload-Leaves r.request_payload refl
    refresh_with-Leaves failed = update_of-Leaves _ _ _
    refresh_with-Leaves cancelled = update_of-Leaves _ _ _
    refresh_with-Leaves queued = update_of-Leaves _ _ _
    refresh_with-Leaves running = update_of-Leaves _ _ _
    refresh_with-Leaves cancelling = update_of-Leaves _ _ _

    refresh_job-Leaves : (upper : Text → Text) → Leaves jobs (refresh_job upper r job now jobs)
    unfolding refresh_job
    refresh_job-Leaves upper = elim (Bool-cases (is_settled r)) [
      | inl settled ↦ rw settled
      | inr unsettled ↦ elim (Option-cases job.status) [
        | inl missing ↦ rw (unsettled, missing)
        | inr (raw, e) ↦
            rw (unsettled, e) (refresh_with-Leaves (normalize_runtime_job_status upper raw))
      ]
    ]

  cancel_job-Leaves :
      (upper : Text → Text) (r : ExecutionJobRecord) (accepted : Bool) (job : RemoteJob) (now : ℕ)
      (jobs : JobTable)
      → (r.job_id == k) ≡ false
      → Leaves jobs (cancel_job upper r accepted job now jobs)
  unfolding cancel_job then_refresh
  cancel_job-Leaves upper r accepted job now jobs other = elim (Bool-cases (is_terminal r.status)) [
    | inl terminal ↦ rw (terminal, cancel_job)
    | inr going ↦ elim (Bool-cases accepted) [
      | inr refused ↦ rw (going, cancel_job, refused)
      | inl taken ↦
          elim (update_job-cases r.owner_user_id r.job_id cancelling r.result_payload
            r.error_payload now jobs) [
              | inl gone ↦
                  rw (going, cancel_job, taken)
                    (subst (λ (p : JobTable × Outcome). Leaves jobs (then_refresh upper job now p))
                      (sym gone) refl)
              | inr (r0, found, done) ↦
                  let jobs' =
                    modify_job r.job_id (updated cancelling r.result_payload r.error_payload now)
                      jobs in
                  let r' = updated cancelling r.result_payload r.error_payload now r0 in
                  let same : (r0.job_id == k) ≡ false = rw (stored_id r.job_id jobs found) other in
                  rw (going, cancel_job, taken)
                    (subst (λ (p : JobTable × Outcome). Leaves jobs (then_refresh upper job now p))
                      (sym done)
                      (refresh_job-Leaves r' same job now jobs' upper
                        ∙ stored-modify_other k r.job_id cancelling r.result_payload r.error_payload
                            now jobs other))
            ]
    ]
  ]

found_again :
    (j : ℕ) (jobs : JobTable) {r : ExecutionJobRecord}
    → stored_job j jobs ≡ some r
    → stored_job r.job_id jobs ≡ some r
found_again j jobs {r} found =
    subst (λ (i : ℕ). stored_job i jobs ≡ some r) (sym (stored_id j jobs found)) found

same_job :
    (k : ℕ) (jobs : JobTable) (a b : ExecutionJobRecord)
    → (a.job_id == k) ≡ true
    → stored_job a.job_id jobs ≡ some a
    → stored_job k jobs ≡ some b
    → a ≡ b
same_job k jobs a b same found h =
    let there : stored_job k jobs ≡ some a =
      subst (λ (j : ℕ). stored_job j jobs ≡ some a) ((==_iff a.job_id k).0 same) found in
    cc (sym there ∙ h)

module _ (upper : Text → Text) (k : ℕ) (r : ExecutionJobRecord)
    (settled : is_settled r ≡ true) where
  refresh_settled :
      (r1 : ExecutionJobRecord) (job : RemoteJob) (now : ℕ) (jobs : JobTable)
      → stored_job k jobs ≡ some r
      → stored_job r1.job_id jobs ≡ some r1
      → stored_job k (refresh_job upper r1 job now jobs).0 ≡ some r
  unfolding refresh_job
  refresh_settled r1 job now jobs h found = elim (Bool-cases (r1.job_id == k)) [
    | inr other ↦ refresh_job-Leaves k r1 other job now jobs upper ∙ h
    | inl same ↦
        let eq : r1 ≡ r = same_job k jobs r1 r same found h in rw (eq, refresh_job, settled) h
  ]

  settled_status : (status : JobStatus) → r.status ≡ status → is_terminal r.status ≡ true
  settled_status succeeded e = rw e
  settled_status failed e = rw e
  settled_status cancelled e = rw e
  settled_status queued e = absurd (false≢true (rw e at settled))
  settled_status running e = absurd (false≢true (rw e at settled))
  settled_status cancelling e = absurd (false≢true (rw e at settled))

  settled-terminal : is_terminal r.status ≡ true
  settled-terminal = settled_status r.status refl

  cancel_settled :
      (r1 : ExecutionJobRecord) (accepted : Bool) (job : RemoteJob) (now : ℕ) (jobs : JobTable)
      → stored_job k jobs ≡ some r
      → stored_job r1.job_id jobs ≡ some r1
      → stored_job k (cancel_job upper r1 accepted job now jobs).0 ≡ some r
  unfolding cancel_job
  cancel_settled r1 accepted job now jobs h found = elim (Bool-cases (r1.job_id == k)) [
    | inr other ↦ cancel_job-Leaves k upper r1 accepted job now jobs other ∙ h
    | inl same ↦
        let eq : r1 ≡ r = same_job k jobs r1 r same found h in
        rw (eq, cancel_job, settled-terminal) h
  ]

  submit_settled :
      (owner : ℕ) (j : NewJob) (uuid now : ℕ) (jobs : JobTable)
      → stored_job k jobs ≡ some r
      → stored_job k (create_job owner j uuid now jobs).0 ≡ some r
  unfolding create_job
  submit_settled owner j uuid now jobs h = elim (Option-cases (stored_job uuid jobs)) [
    | inr (r0, taken) ↦ rw (taken, create_job) h
    | inl free ↦ elim (Bool-cases (uuid == k)) [
      | inr other ↦ rw (free, create_job, other) h
      | inl same ↦ cc (rw ((==_iff uuid k).0 same) at free, h)
    ]
  ]

  run_job_request_settled :
      (q : JobRequest) (jobs : JobTable)
      → stored_job k jobs ≡ some r
      → stored_job k (run_job_request upper q jobs) ≡ some r
  unfolding run_job_request
  run_job_request_settled (submit owner j uuid now) jobs h =
      elim (Bool-cases (valid_payload j.request_payload)) [
        | inl valid ↦ rw (valid, run_job_request) (submit_settled owner j uuid now jobs h)
        | inr invalid ↦ rw (invalid, run_job_request) h
      ]
  run_job_request_settled (refresh owner j job now) jobs h = elim (get_job-cases owner j jobs) [
    | inl refused ↦ rw (refused, run_job_request) h
    | inr (r1, found, mine, got) ↦
        rw (got, run_job_request) (refresh_settled r1 job now jobs h (found_again j jobs found))
  ]
  run_job_request_settled (cancel owner j accepted job now) jobs h =
      elim (get_job-cases owner j jobs) [
        | inl refused ↦ rw (refused, run_job_request) h
        | inr (r1, found, mine, got) ↦
            rw (got, run_job_request)
              (cancel_settled r1 accepted job now jobs h (found_again j jobs found))
      ]

  -- A job that has failed, was cancelled, or has succeeded with its result stored keeps its row, in
  -- every field, whatever calls of the job routes follow, by whomever they are made and whatever the
  -- provider answers.
  pub run_job_requests_settled :
      (qs : List JobRequest) (jobs : JobTable)
      → stored_job k jobs ≡ some r
      → stored_job k (run_job_requests upper qs jobs) ≡ some r
  unfolding run_job_requests
  run_job_requests_settled [] jobs h = h
  run_job_requests_settled (q ∷ qs) jobs h =
      run_job_requests_settled qs (run_job_request upper q jobs) (run_job_request_settled q jobs h)
