-- ===== src/Jobs/Table.antt =====
-- The rows of QuantumExecutionJobModel and the methods of QuantumExecutionJobService:
-- src/quantum_api/execution_jobs.py. Identifiers and owners are numbers, since they are only compared.
use quantum_api.Base.{
  ℕ, Bool, true, false, Option, none, some, List, [], ◌∷◌, ◌==◌, if◌then◌else◌, find,
}
use quantum_api.Base.Int.{ℤ}
use quantum_api.Base.Text.{Text}

pub data JobStatus : Type 0 where
  queued running succeeded failed cancelling cancelled : JobStatus

-- The stored request, as far as it is read again: a random job's bounds and shots; a circuit's
-- `num_qubits`, the `num_qubits` of its `circuit`, and its shots.
pub data RequestPayload : Type 0 where
  random : ℤ → ℤ → ℕ → RequestPayload
  circuit : Option ℕ → Option ℕ → ℕ → RequestPayload

pub data ResultPayload : Type 0 where
  drawn : ℤ → ResultPayload
  counted : ℕ → ℕ → List (Text × ℕ) → ResultPayload

-- A message, and the reason where there is one.
pub record ErrorPayload : Type 0 where
  pub reason : Option Text
  pub message : Text

pub record Credential : Type 0 where
  pub instance_name : Text
  pub channel : Text
  pub masked_token : Text
  pub token_ciphertext : Text

pub record ExecutionJobRecord : Type 0 where
  pub job_id : ℕ
  pub owner_user_id : ℕ
  pub api_key_id : ℕ
  pub provider : Text
  pub backend_name : Text
  pub ibm_profile_name : Option Text
  pub credential : Credential
  pub remote_job_id : Text
  pub status : JobStatus
  pub request_payload : RequestPayload
  pub result_payload : Option ResultPayload
  pub error_payload : Option ErrorPayload
  pub created_at : ℕ
  pub updated_at : ℕ
  pub completed_at : Option ℕ

-- `raised` stands for the exceptions: no such job, a violated primary key, or the provider's own.
pub data JobError : Type 0 where
  job_not_found duplicate_job provider_error : JobError

pub data Outcome : Type 0 where
  returned : ExecutionJobRecord → Outcome
  raised : JobError → Outcome

abbrev pub JobTable : Type 0
JobTable = List ExecutionJobRecord

abbrev pub has_job_id : ℕ → ExecutionJobRecord → Bool
has_job_id k r = r.job_id == k

-- `session.get(QuantumExecutionJobModel, job_id)`
abbrev pub stored_job : ℕ → JobTable → Option ExecutionJobRecord
stored_job k jobs = find (has_job_id k) jobs

-- A write to the object that `session.get` returned, the first row with the primary key.
abbrev pub modify_job : ℕ → (ExecutionJobRecord → ExecutionJobRecord) → JobTable → JobTable
modify_job k f [] = []
modify_job k f (r ∷ rs) = if r.job_id == k then f r ∷ rs else r ∷ modify_job k f rs

-- `status in TERMINAL_JOB_STATUSES`
abbrev pub is_terminal : JobStatus → Bool
is_terminal succeeded = true
is_terminal failed = true
is_terminal cancelled = true
is_terminal _ = false

-- What the caller gives of a new job.
pub record NewJob : Type 0 where
  pub api_key_id : ℕ
  pub provider : Text
  pub backend_name : Text
  pub ibm_profile_name : Option Text
  pub credential : Credential
  pub remote_job_id : Text
  pub status : JobStatus
  pub request_payload : RequestPayload

abbrev pub new_job : ℕ → NewJob → ℕ → ℕ → ExecutionJobRecord
new_job owner j uuid now = record {
  job_id = uuid;
  owner_user_id = owner;
  api_key_id = j.api_key_id;
  provider = j.provider;
  backend_name = j.backend_name;
  ibm_profile_name = j.ibm_profile_name;
  credential = j.credential;
  remote_job_id = j.remote_job_id;
  status = j.status;
  request_payload = j.request_payload;
  result_payload = none;
  error_payload = none;
  created_at = now;
  updated_at = now;
  completed_at = none;
}

unfoldable pub create_job : ℕ → NewJob → ℕ → ℕ → JobTable → JobTable × Outcome
create_job owner j uuid now jobs = elim (stored_job uuid jobs) [
  | some _ ↦ (jobs, raised duplicate_job)
  | none ↦ (new_job owner j uuid now ∷ jobs, returned (new_job owner j uuid now))
]

unfoldable pub get_job : ℕ → ℕ → JobTable → Outcome
get_job owner job_id jobs = elim (stored_job job_id jobs) [
  | none ↦ raised job_not_found
  | some r ↦ if r.owner_user_id == owner then returned r else raised job_not_found
]

-- What `update_job` writes; `completed_at` is set by a terminal status and never cleared.
abbrev pub updated :
    JobStatus
    → Option ResultPayload
    → Option ErrorPayload
    → ℕ
    → ExecutionJobRecord
    → ExecutionJobRecord
updated status result error now r = record r {
  status = status;
  result_payload = result;
  error_payload = error;
  updated_at = now;
  completed_at = if is_terminal status then some now else r.completed_at;
}

unfoldable pub update_job :
    ℕ
    → ℕ
    → JobStatus
    → Option ResultPayload
    → Option ErrorPayload
    → ℕ
    → JobTable
    → JobTable × Outcome
update_job owner job_id status result error now jobs = elim (stored_job job_id jobs) [
  | none ↦ (jobs, raised job_not_found)
  | some r ↦
      if r.owner_user_id == owner
      then (
        modify_job job_id (updated status result error now) jobs,
        returned (updated status result error now r),
      )
      else (jobs, raised job_not_found)
]
