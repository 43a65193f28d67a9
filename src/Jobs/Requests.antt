-- ===== src/Jobs/Requests.antt =====
-- The calls of the job routes of src/quantum_api/api/jobs.py, and the table after a sequence of them.
-- A route that cannot decrypt the stored token changes nothing, as one whose provider raises.
use quantum_api.Base.{ℕ, Bool, true, List, [], ◌∷◌, if◌then◌else◌}
use quantum_api.Base.Text.{Text}
use quantum_api.Random.{valid_random_request}
use quantum_api.Jobs.Table.{
  NewJob, RequestPayload, random, circuit, returned, raised, JobTable, create_job, get_job,
}
use quantum_api.Jobs.Hardware.{RemoteJob, refresh_job, cancel_job}

-- The owner comes first, then the job's identifier where there is one; last the time.
pub data JobRequest : Type 0 where
  submit : ℕ → NewJob → ℕ → ℕ → JobRequest
  refresh : ℕ → ℕ → RemoteJob → ℕ → JobRequest
  cancel : ℕ → ℕ → Bool → RemoteJob → ℕ → JobRequest

-- A request for a random number is validated before it is submitted.
abbrev pub valid_payload : RequestPayload → Bool
valid_payload (random minimum maximum shots) = valid_random_request minimum maximum
valid_payload (circuit given in_circuit shots) = true

module _ (upper : Text → Text) where
  unfoldable pub run_job_request : JobRequest → JobTable → JobTable
  run_job_request (submit owner j uuid now) jobs =
      if valid_payload j.request_payload then (create_job owner j uuid now jobs).0 else jobs
  run_job_request (refresh owner k job now) jobs = elim (get_job owner k jobs) [
    | raised _ ↦ jobs
    | returned r ↦ (refresh_job upper r job now jobs).0
  ]
  run_job_request (cancel owner k accepted job now) jobs = elim (get_job owner k jobs) [
    | raised _ ↦ jobs
    | returned r ↦ (cancel_job upper r accepted job now jobs).0
  ]

  unfoldable pub run_job_requests : List JobRequest → JobTable → JobTable
  unfolding run_job_request
  run_job_requests [] jobs = jobs
  run_job_requests (q ∷ qs) jobs = run_job_requests qs (run_job_request q jobs)
