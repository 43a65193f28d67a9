-- ===== src/Jobs/Submit.antt =====
-- `submit_random_job`, `submit_circuit_job` and `submit_qasm_job` of
-- src/quantum_api/services/hardware_jobs.py.
use quantum_api.Base.{ℕ, Bool, not, ◌||◌, Option, none, some, if◌then◌else◌}
use quantum_api.Base.Int.{ℤ}
use quantum_api.Base.Text.{Text, codes, text_eq, is_empty}
use quantum_api.Base.Transaction.{Result, ok, err}
use quantum_api.Random.{random_job_shots}
use quantum_api.Profiles.Table.{ResolvedCredentials}
use quantum_api.Backends.{Backend, ibm, BackendError, provider_unavailable, Runtime}
use quantum_api.Backends.Lookup.{
  resolve_backend, ensure_backend_is_hardware, ensure_backend_supports_qubits,
}
use quantum_api.Jobs.Table.{
  RequestPayload, random, circuit, Credential, NewJob, Outcome, JobTable, create_job,
}
use quantum_api.Jobs.Hardware.{RawStatus, normalize_runtime_job_status}

-- A job that the provider has taken: its status and what its `job_id` gives.
pub record RemoteJobHandle : Type 0 where
  pub status : RawStatus
  pub job_id : Option Text

-- `_remote_job_id`
unfoldable pub remote_job_id : Option Text → Text
remote_job_id none = codes "unknown_remote_job"
remote_job_id (some value) = if is_empty value then codes "unknown_remote_job" else value

-- A submission ends in an error of the service, or in what the table says of the new row.
pub data Submission : Type 0 where
  refused : BackendError → Submission
  recorded : Outcome → Submission

-- The parts of Qiskit that a submission needs, and what it does: `dependencies` says that they are
-- installed, `send` is what the provider gives for a backend, or `none` where a call raises.
pub record Sampler : Type 0 where
  pub dependencies : Bool
  pub send : Backend → Option RemoteJobHandle

-- What the request gives of a job, and who sends it.
pub record SubmitRequest : Type 0 where
  pub owner_user_id : ℕ
  pub api_key_id : ℕ
  pub provider : Text
  pub backend_name : Text

abbrev pub credential_of : ResolvedCredentials → Credential
credential_of c = record {
  instance_name = c.instance_name;
  channel = c.channel;
  masked_token = c.masked_token;
  token_ciphertext = c.token_ciphertext;
}

abbrev pub parsed_qubits : Result BackendError ℕ → Option ℕ
parsed_qubits (ok n) = some n
parsed_qubits (err _) = none

module _ (upper : Text → Text) (rt : Runtime) (sampler : Sampler)
    (credentials : ResolvedCredentials) (request : SubmitRequest) (uuid now : ℕ) where
  unfoldable pub job_of : RequestPayload → RemoteJobHandle → NewJob
  unfolding remote_job_id normalize_runtime_job_status
  job_of payload handle = record {
    api_key_id = request.api_key_id;
    provider = request.provider;
    backend_name = request.backend_name;
    ibm_profile_name = credentials.profile_name;
    credential = credential_of credentials;
    remote_job_id = remote_job_id handle.job_id;
    status = normalize_runtime_job_status upper handle.status;
    request_payload = payload;
  }

  abbrev pub record_job : JobTable × Outcome → JobTable × Submission
  record_job (jobs, outcome) = (jobs, recorded outcome)

  -- The sending of the circuit, and the row; `failure` is what becomes of an exception.
  unfoldable pub send_job :
      BackendError → RequestPayload → Backend → JobTable → JobTable × Submission
  unfolding job_of create_job
  send_job failure payload b jobs = elim (sampler.send b) [
    | none ↦ (jobs, refused failure)
    | some handle ↦
        record_job (create_job request.owner_user_id (job_of payload handle) uuid now jobs)
  ]

  -- The check of the number of qubits before it.
  unfoldable pub send_checked :
      BackendError → RequestPayload → ℕ → Backend → JobTable → JobTable × Submission
  unfolding send_job ensure_backend_supports_qubits
  send_checked failure payload required b jobs = elim (ensure_backend_supports_qubits b required) [
    | some e ↦ (jobs, refused e)
    | none ↦ send_job failure payload b jobs
  ]

  unfoldable pub submit_random_job : ℤ → ℤ → JobTable → JobTable × Submission
  unfolding send_checked resolve_backend ensure_backend_is_hardware random_job_shots
  submit_random_job minimum maximum jobs =
      if not rt.qiskit_available || not sampler.dependencies
      then (jobs, refused provider_unavailable)
      else elim (resolve_backend rt request.backend_name (some ibm)) [
        | err e ↦ (jobs, refused e)
        | ok (provider, b) ↦ elim (ensure_backend_is_hardware provider b) [
          | some e ↦ (jobs, refused e)
          | none ↦
              send_checked provider_unavailable
                (random minimum maximum (random_job_shots minimum maximum)) 1 b jobs
        ]
      ]

  -- A circuit or a program: `built` is the number of qubits of the circuit that is made of it, or the
  -- error of its making.
  unfoldable pub submit_built :
      RequestPayload → Result BackendError ℕ → JobTable → JobTable × Submission
  unfolding send_checked resolve_backend
  submit_built payload built jobs =
      if not (text_eq request.provider (codes "ibm"))
      then (jobs, refused provider_unavailable)
      else if not sampler.dependencies
      then (jobs, refused provider_unavailable)
      else elim (resolve_backend rt request.backend_name (some ibm)) [
        | err e ↦ (jobs, refused e)
        | ok (provider, b) ↦ elim built [
          | err e ↦ (jobs, refused e)
          | ok num_qubits ↦ send_checked BackendError.broken payload num_qubits b jobs
        ]
      ]

  -- The definition's own number of qubits is stored with it.
  unfoldable pub submit_circuit_job :
      ℕ → ℕ → Result BackendError ℕ → JobTable → JobTable × Submission
  unfolding submit_built
  submit_circuit_job in_definition shots built =
      submit_built (circuit none (some in_definition) shots) built

  -- The number of qubits of the parsed program is stored.
  unfoldable pub submit_qasm_job : ℕ → Result BackendError ℕ → JobTable → JobTable × Submission
  unfolding submit_built
  submit_qasm_job shots built = submit_built (circuit (parsed_qubits built) none shots) built
