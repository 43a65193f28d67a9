-- ===== src/Jobs/Hardware.antt =====
-- `refresh_job` and `cancel_job` of src/quantum_api/services/hardware_jobs.py, and
-- `normalize_runtime_job_status` of src/quantum_api/services/ibm_provider.py.
use quantum_api.Base.{
  ℕ, Bool, true, false, Option, none, some, List, [], ◌∷◌, if◌then◌else◌, is_some,
}
use quantum_api.Base.Int.{ℤ}
use quantum_api.Base.Text.{Text, codes, text_eq, split}
use quantum_api.Random.{
  Draw, value, rejection_exhausted, malformed_provider_result, RawResult, random_value_from_result,
}
use quantum_api.Jobs.Table.{
  JobStatus, queued, running, succeeded, failed, cancelling, cancelled, random, circuit,
  ResultPayload, drawn, counted, ErrorPayload, ExecutionJobRecord, provider_error, Outcome,
  returned, raised, JobTable, is_terminal, update_job,
}

-- A status of the provider: it has a `name`, or it is printed.
pub data RawStatus : Type 0 where
  named printed : Text → RawStatus

-- `parts[-1]` of a split, which is never empty
abbrev pub last_of : List Text → Text
last_of [] = []
last_of (a ∷ []) = a
last_of (a ∷ b ∷ rest) = last_of (b ∷ rest)

abbrev pub status_map : List (Text × JobStatus)
status_map =
    (codes "INITIALIZING", queued)
    ∷ (codes "QUEUED", queued)
    ∷ (codes "VALIDATING", queued)
    ∷ (codes "RUNNING", running)
    ∷ (codes "DONE", succeeded)
    ∷ (codes "COMPLETED", succeeded)
    ∷ (codes "ERROR", failed)
    ∷ (codes "FAILED", failed)
    ∷ (codes "CANCELLED", cancelled)
    ∷ (codes "CANCELED", cancelled)
    ∷ (codes "CANCELLING", cancelling)
    ∷ (codes "CANCELING", cancelling)
    ∷ []

-- `status_map.get(name, "queued")`
unfoldable pub map_status : Text → List (Text × JobStatus) → JobStatus
map_status name [] = queued
map_status name ((k, status) ∷ rest) = if text_eq k name then status else map_status name rest

-- `upper` is Python's `str.upper`.
unfoldable pub normalize_runtime_job_status : (Text → Text) → RawStatus → JobStatus
unfolding map_status split
normalize_runtime_job_status upper (named name) = map_status (upper name) status_map
normalize_runtime_job_status upper (printed text) =
    map_status (last_of (split b'.' (upper text))) status_map

-- What the provider gives of a job while it is refreshed; `none` is a call that raises.
-- `measurement_counts` is the answer of `_measurement_counts_from_result` for a number of qubits,
-- `error` the first error attribute that is there.
pub record RemoteJob : Type 0 where
  pub status : Option RawStatus
  pub raw_result : Option RawResult
  pub measurement_counts : ℕ → Option (List (Text × ℕ))
  pub error : Option Text

-- `runtime_job_error_payload`
abbrev pub runtime_job_error_payload : RemoteJob → Option ErrorPayload
runtime_job_error_payload job = elim job.error [
  | none ↦ none
  | some text ↦ some (record { reason = none; message = text })
]

-- `int(num_qubits_value)`; `none` is the KeyError.
abbrev pub num_qubits_of : Option ℕ → Option ℕ → Option ℕ
num_qubits_of (some n) in_circuit = some n
num_qubits_of none in_circuit = in_circuit

-- A job that `refresh_job` returns as it is.
abbrev pub is_settled : ExecutionJobRecord → Bool
is_settled r = elim r.status [
  | failed ↦ true
  | cancelled ↦ true
  | succeeded ↦ is_some r.result_payload
  | _ ↦ false
]

-- The error payload of any other exception than a RandomResultError.
abbrev pub provider_result_unavailable : ErrorPayload
provider_result_unavailable = record {
  reason = some (codes "provider_result_unavailable");
  message = codes "IBM random job result could not be read.";
}

-- The error payload of a draw that raises.
abbrev pub draw_error : Draw → ErrorPayload
draw_error rejection_exhausted = record {
  reason = some (codes "rejection_exhausted");
  message = codes "No in-range candidate in the submitted measurements.";
}
draw_error malformed_provider_result = record {
  reason = some (codes "malformed_provider_result");
  message = codes "IBM returned invalid ordered single-qubit measurements.";
}
draw_error _ = provider_result_unavailable

-- `self._job_service.update_job` for the job of a record
abbrev pub update_of :
    ExecutionJobRecord
    → JobStatus
    → Option ResultPayload
    → Option ErrorPayload
    → ℕ
    → JobTable
    → JobTable × Outcome
update_of r = update_job r.owner_user_id r.job_id

-- The reading of a random job's result; `none` is an exception of `result()`.
unfoldable pub read_random : Option RawResult → ℤ → ℤ → Option Draw
read_random none minimum maximum = none
read_random (some raw) minimum maximum = some (random_value_from_result raw minimum maximum)

-- `_refresh_random_result`
unfoldable pub refresh_random_result :
    ExecutionJobRecord → Option Draw → ℕ → JobTable → JobTable × Outcome
refresh_random_result r (some (value v)) now jobs =
    update_of r succeeded (some (drawn v)) none now jobs
refresh_random_result r (some d) now jobs = update_of r failed none (some (draw_error d)) now jobs
refresh_random_result r none now jobs =
    update_of r failed none (some provider_result_unavailable) now jobs

-- The counts of a circuit that has succeeded.
unfoldable pub refresh_counts :
    ExecutionJobRecord → RemoteJob → Option ℕ → ℕ → ℕ → JobTable → JobTable × Outcome
refresh_counts r job none shots now jobs = (jobs, raised provider_error)
refresh_counts r job (some num_qubits) shots now jobs = elim (job.measurement_counts num_qubits) [
  | none ↦ (jobs, raised provider_error)
  | some counts ↦ update_of r succeeded (some (counted num_qubits shots counts)) none now jobs
]

unfoldable pub refresh_succeeded :
    ExecutionJobRecord → RemoteJob → ℕ → JobTable → JobTable × Outcome
unfolding read_random refresh_random_result refresh_counts
refresh_succeeded r job now jobs = elim r.request_payload [
  | random minimum maximum shots ↦
      refresh_random_result r (read_random job.raw_result minimum maximum) now jobs
  | circuit given in_circuit shots ↦
      refresh_counts r job (num_qubits_of given in_circuit) shots now jobs
]

unfoldable pub refresh_with :
    ExecutionJobRecord → RemoteJob → JobStatus → ℕ → JobTable → JobTable × Outcome
unfolding refresh_succeeded
refresh_with r job succeeded now jobs = refresh_succeeded r job now jobs
refresh_with r job failed now jobs =
    update_of r failed none (runtime_job_error_payload job) now jobs
refresh_with r job cancelled now jobs =
    update_of r cancelled none (runtime_job_error_payload job) now jobs
refresh_with r job status now jobs = update_of r status r.result_payload r.error_payload now jobs

-- `none` is ResultNotReadyError.
unfoldable pub assert_result_ready : ExecutionJobRecord → Option ResultPayload
assert_result_ready r = elim r.status [ succeeded ↦ r.result_payload | _ ↦ none ]

module _ (upper : Text → Text) where
  unfoldable pub refresh_job : ExecutionJobRecord → RemoteJob → ℕ → JobTable → JobTable × Outcome
  unfolding refresh_with normalize_runtime_job_status
  refresh_job r job now jobs = if is_settled r then (jobs, returned r) else elim job.status [
    | none ↦ (jobs, raised provider_error)
    | some raw ↦ refresh_with r job (normalize_runtime_job_status upper raw) now jobs
  ]

  -- The second half of `cancel_job`, after `update_job`.
  unfoldable pub then_refresh : RemoteJob → ℕ → JobTable × Outcome → JobTable × Outcome
  unfolding refresh_job
  then_refresh job now (jobs, raised why) = (jobs, raised why)
  then_refresh job now (jobs, returned r) = refresh_job r job now jobs

  -- `accepted` says whether the provider took the cancellation; otherwise it raised.
  unfoldable pub cancel_job :
      ExecutionJobRecord → Bool → RemoteJob → ℕ → JobTable → JobTable × Outcome
  unfolding then_refresh
  cancel_job r accepted job now jobs =
      if is_terminal r.status
      then (jobs, returned r)
      else if accepted
      then then_refresh job now (update_of r cancelling r.result_payload r.error_payload now jobs)
      else (jobs, raised provider_error)
