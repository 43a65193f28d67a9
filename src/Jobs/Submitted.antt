-- ===== src/Jobs/Submitted.antt =====
-- What a submission leaves: a row of the caller for a backend that fits, or nothing.
use quantum_api.Base.{
  ℕ, ◌≤◌, ◌⊎◌, ◌≡◌, refl, sym, ap, ◌∙◌, inl, inr, Bool, true, false, not, ◌&&◌, ◌||◌, Option, none,
  some, ◌∷◌, arith, ltb, ◌==◌, if◌then◌else◌, Bool-cases, Option-cases,
}
use quantum_api.Base.Int.{ℤ}
use quantum_api.Base.Text.{Text, codes, text_eq}
use quantum_api.Base.Transaction.{Result, ok, err, Result-cases}
use quantum_api.Random.{random_job_shots}
use quantum_api.Profiles.Table.{ResolvedCredentials}
use quantum_api.Backends.{
  Backend, Provider, ibm, BackendError, provider_unavailable, Runtime, first_of, configured,
  backend_qubit_count,
}
use quantum_api.Backends.Lookup.{
  resolve_ibm, get_ibm_backend, resolve_backend, is_false, ensure_backend_is_hardware,
  ensure_backend_supports_qubits,
}
use quantum_api.Jobs.Table.{
  ExecutionJobRecord, RequestPayload, random, circuit, JobError, duplicate_job, raised, returned,
  JobTable, stored_job, new_job, create_job,
}
use quantum_api.Jobs.Hardware.{normalize_runtime_job_status}
use quantum_api.Jobs.Submit.{
  RemoteJobHandle, remote_job_id, Submission, refused, recorded, Sampler, SubmitRequest, job_of,
  send_job, send_checked, submit_random_job, submit_built, submit_circuit_job, parsed_qubits,
  submit_qasm_job,
}

-- The provider says that the backend is no simulator.
abbrev pub IsHardware : Backend → Type 0
IsHardware b = first_of (configured (λ c. c.simulator) b) b.simulator ≡ some false

-- The number of qubits of a circuit that was made.
abbrev pub needed : Result BackendError ℕ → ℕ
needed (ok n) = n
needed (err _) = 0

abbrev pub AnyBackend : Backend → Type 0
AnyBackend b = Unit

module _ (upper : Text → Text) (rt : Runtime) (sampler : Sampler)
    (credentials : ResolvedCredentials) (request : SubmitRequest) (uuid now : ℕ) where
  -- The row of a job that the provider has taken: the caller's, under a new identifier and for the
  -- backend that was asked for, with the credentials that sent it, the provider's identifier and status
  -- and the payload, and with no result, no error and no completion.
  pub record IsRowOf (payload : RequestPayload) (handle : RemoteJobHandle)
      (row : ExecutionJobRecord) : Type 0 where
    pub of_uuid : row.job_id ≡ uuid
    pub of_owner : row.owner_user_id ≡ request.owner_user_id
    pub of_key : row.api_key_id ≡ request.api_key_id
    pub of_provider : row.provider ≡ request.provider
    pub of_backend : row.backend_name ≡ request.backend_name
    pub of_profile : row.ibm_profile_name ≡ credentials.profile_name
    pub of_instance : row.credential.instance_name ≡ credentials.instance_name
    pub of_channel : row.credential.channel ≡ credentials.channel
    pub of_mask : row.credential.masked_token ≡ credentials.masked_token
    pub of_ciphertext : row.credential.token_ciphertext ≡ credentials.token_ciphertext
    pub of_remote : row.remote_job_id ≡ remote_job_id handle.job_id
    pub of_status : row.status ≡ normalize_runtime_job_status upper handle.status
    pub of_payload : row.request_payload ≡ payload
    pub no_result : row.result_payload ≡ none
    pub no_error : row.error_payload ≡ none
    pub of_creation : row.created_at ≡ now
    pub of_update : row.updated_at ≡ now
    pub not_completed : row.completed_at ≡ none

  job_of-IsRowOf :
      (payload : RequestPayload) (handle : RemoteJobHandle)
      → IsRowOf payload handle (
          new_job request.owner_user_id
            (job_of upper rt sampler credentials request uuid now payload handle)
            uuid
            now)
  unfolding job_of
  job_of-IsRowOf payload handle = record {
    of_uuid = refl;
    of_owner = refl;
    of_key = refl;
    of_provider = refl;
    of_backend = refl;
    of_profile = refl;
    of_instance = refl;
    of_channel = refl;
    of_mask = refl;
    of_ciphertext = refl;
    of_remote = refl;
    of_status = refl;
    of_payload = refl;
    no_result = refl;
    no_error = refl;
    of_creation = refl;
    of_update = refl;
    not_completed = refl;
  }

  -- A submission leaves the table as it was, or adds one row: for the IBM backend of the name, which
  -- has enough qubits if it says how many, and `Suits`, and which has taken the job.
  pub data Placed (Suits : Backend → Type 0) (required : ℕ) (payload : RequestPayload)
      (jobs : JobTable) : JobTable × Submission → Type 0 where
    unchanged : (e : BackendError) → Placed Suits required payload jobs (jobs, refused e)
    not_stored : (e : JobError) → Placed Suits required payload jobs (jobs, recorded (raised e))
    placed :
        (b : Backend) (handle : RemoteJobHandle) (row : ExecutionJobRecord)
        → resolve_backend rt request.backend_name (some ibm) ≡ ok (ibm, b)
        → Suits b
        → (backend_qubit_count b ≡ 0) ⊎ (required ≤ backend_qubit_count b)
        → sampler.send b ≡ some handle
        → IsRowOf payload handle row
        → Placed Suits required payload jobs (row ∷ jobs, recorded (returned row))

  -- Only IBM's backends are found where they are asked for.
  resolved-ibm :
      (name : Text) (provider : Provider) (b : Backend)
      → resolve_backend rt name (some ibm) ≡ ok (provider, b)
      → provider ≡ ibm
  unfolding resolve_backend resolve_ibm
  resolved-ibm name provider b h = of_found (get_ibm_backend rt name) h
    where
      of_found :
          (found : Result BackendError (Option Backend))
          → resolve_ibm true found ≡ ok (provider, b)
          → provider ≡ ibm
      of_found (ok (some b')) e = cc (sym e)
      of_found (ok none) e = cc e
      of_found (err provider_unavailable) e = cc e
      of_found (err BackendError.qiskit_missing) e = cc e
      of_found (err BackendError.credentials_invalid) e = cc e
      of_found (err BackendError.backend_not_found) e = cc e
      of_found (err BackendError.hardware_required) e = cc e
      of_found (err BackendError.qubits_exceeded) e = cc e
      of_found (err BackendError.broken) e = cc e

  module _ (Suits : Backend → Type 0) (payload : RequestPayload) (b : Backend) (jobs : JobTable)
      (resolves : resolve_backend rt request.backend_name (some ibm) ≡ ok (ibm, b))
      (suits : Suits b) where
    send_job-Placed :
        (required : ℕ) (failure : BackendError)
        → (backend_qubit_count b ≡ 0) ⊎ (required ≤ backend_qubit_count b)
        → Placed Suits required payload jobs
            (send_job upper rt sampler credentials request uuid now failure payload b jobs)
    unfolding send_job create_job
    send_job-Placed required failure fits = elim (Option-cases (sampler.send b)) [
      | inl fails ↦ rw (send_job, fails) (unchanged failure)
      | inr (handle, sends) ↦ elim (Option-cases (stored_job uuid jobs)) [
        | inl free ↦
            rw (send_job, sends, create_job, free)
              (placed b handle _ resolves suits fits sends (job_of-IsRowOf payload handle))
        | inr (r, taken) ↦ rw (send_job, sends, create_job, taken) (not_stored duplicate_job)
      ]
    ]

    send_checked-Placed :
        (required : ℕ) (failure : BackendError)
        → Placed Suits required payload jobs (
            send_checked upper rt sampler credentials request uuid now failure payload required b
              jobs)
    unfolding send_checked ensure_backend_supports_qubits
    send_checked-Placed required failure =
        elim (Bool-cases
          (not (backend_qubit_count b == 0) && ltb (backend_qubit_count b) required)) [
            | inl short ↦
                rw (send_checked, ensure_backend_supports_qubits, short)
                  (unchanged BackendError.qubits_exceeded)
            | inr fits ↦
                rw (send_checked, ensure_backend_supports_qubits, fits)
                  (send_job-Placed required failure (enough fits))
          ]
      where
        enough :
            (not (backend_qubit_count b == 0) && ltb (backend_qubit_count b) required) ≡ false
            → (backend_qubit_count b ≡ 0) ⊎ (required ≤ backend_qubit_count b)
        enough h = ground (arith, h)

  ensure_backend_is_hardware-IsHardware :
      (b : Backend) → ensure_backend_is_hardware ibm b ≡ none → IsHardware b
  unfolding ensure_backend_is_hardware
  ensure_backend_is_hardware-IsHardware b h =
      of_flag (first_of (configured (λ c. c.simulator) b) b.simulator) h
    where
      of_flag :
          (flag : Option Bool)
          → (if not true || not (is_false flag) then some BackendError.hardware_required else none)
            ≡ none
          → flag ≡ some false
      of_flag none e = cc e
      of_flag (some true) e = cc e
      of_flag (some false) e = refl

  -- A random job is stored only for the IBM backend of its name, which the provider has taken it for and
  -- says is no simulator, with one qubit where it says how many it has. The row is the caller's, with the
  -- credentials that sent it, the provider's identifier and status, and a payload of the bounds and the
  -- shots that they ask for. A submission that fails, or whose row is refused, leaves the table as it was.
  pub submit_random_job-Placed :
      (minimum maximum : ℤ) (jobs : JobTable)
      → Placed IsHardware 1
          (random minimum maximum (random_job_shots minimum maximum))
          jobs
          (submit_random_job upper rt sampler credentials request uuid now minimum maximum jobs)
  unfolding submit_random_job
  submit_random_job-Placed minimum maximum jobs =
      elim (Bool-cases (not rt.qiskit_available || not sampler.dependencies)) [
        | inl lacks ↦ rw (submit_random_job, lacks) (unchanged provider_unavailable)
        | inr has ↦ elim (Result-cases (resolve_backend rt request.backend_name (some ibm))) [
          | inl (e, missing) ↦ rw (submit_random_job, has, missing) (unchanged e)
          | inr ((provider, b), found) ↦
              let is_ibm_backend = resolved-ibm request.backend_name provider b found in
              let resolves : resolve_backend rt request.backend_name (some ibm) ≡ ok (ibm, b) =
                found ∙ ap (λ (q : Provider). ok (q, b)) is_ibm_backend in
              elim (Option-cases (ensure_backend_is_hardware ibm b)) [
                | inr (e, simulated) ↦
                    rw (submit_random_job, has, resolves, simulated) (unchanged e)
                | inl real ↦
                    rw (submit_random_job, has, resolves, real)
                      (send_checked-Placed IsHardware
                        (random minimum maximum (random_job_shots minimum maximum)) b jobs resolves
                        (ensure_backend_is_hardware-IsHardware b real) 1 provider_unavailable)
              ]
        ]
      ]

  submit_built-Placed :
      (payload : RequestPayload) (built : Result BackendError ℕ) (jobs : JobTable)
      → Placed AnyBackend
          (needed built)
          payload
          jobs
          (submit_built upper rt sampler credentials request uuid now payload built jobs)
  unfolding submit_built
  submit_built-Placed payload built jobs =
      elim (Bool-cases (not (text_eq request.provider (codes "ibm")))) [
        | inl other ↦ rw (submit_built, other) (unchanged provider_unavailable)
        | inr right ↦ elim (Bool-cases (not sampler.dependencies)) [
          | inl lacks ↦ rw (submit_built, right, lacks) (unchanged provider_unavailable)
          | inr has ↦ elim (Result-cases (resolve_backend rt request.backend_name (some ibm))) [
            | inl (e, missing) ↦ rw (submit_built, right, has, missing) (unchanged e)
            | inr ((provider, b), found) ↦
                let resolves : resolve_backend rt request.backend_name (some ibm) ≡ ok (ibm, b) =
                  found
                  ∙ ap (λ (q : Provider). ok (q, b))
                      (resolved-ibm request.backend_name provider b found) in
                elim (Result-cases built) [
                  | inl (e, unbuilt) ↦
                      rw (submit_built, right, has, resolves, unbuilt) (unchanged e)
                  | inr (n, made) ↦
                      rw (submit_built, right, has, resolves, made)
                        (send_checked-Placed AnyBackend payload b jobs resolves tt n
                          BackendError.broken)
                ]
          ]
        ]
      ]

  -- A circuit or a program is stored only for the IBM backend of its name, which has taken it and has the
  -- qubits it needs, where it says how many it has. The row is the caller's, with the credentials that
  -- sent it, the provider's identifier and status, and a payload of the circuit's qubits, if it was made,
  -- and of the shots. A submission that fails, or whose row is refused, leaves the table as it was.
  pub submit_jobs-Placed :
      (in_definition shots : ℕ) (built : Result BackendError ℕ) (jobs : JobTable)
      → Placed AnyBackend (needed built) (circuit none (some in_definition) shots) jobs (
          submit_circuit_job upper rt sampler credentials request uuid now in_definition shots built
            jobs)
        × Placed AnyBackend
            (needed built)
            (circuit (parsed_qubits built) none shots)
            jobs
            (submit_qasm_job upper rt sampler credentials request uuid now shots built jobs)
  unfolding submit_circuit_job submit_qasm_job
  submit_jobs-Placed in_definition shots built jobs = (
    submit_built-Placed (circuit none (some in_definition) shots) built jobs,
    submit_built-Placed (circuit (parsed_qubits built) none shots) built jobs,
  )
