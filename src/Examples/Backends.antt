-- ===== src/Examples/Backends.antt =====
-- Two simulators and a device: the listing, and a submission to the device.
use quantum_api.Base.{
  ◌≡◌, refl, true, false, ◌&&◌, Bool, Option, none, some, List, [], ◌∷◌, if◌then◌else◌, All, count,
}
use quantum_api.Base.Int.{pos}
use quantum_api.Base.Text.{Text, codes, text_eq}
use quantum_api.Base.Transaction.{ok}
use quantum_api.Random.{random_job_shots}
use quantum_api.Profiles.Table.{ResolvedCredentials}
use quantum_api.Backends.{
  aer, ibm, Backend, name_method, unnamed, Runtime, Entry, entry_le, passes, serialize_backend,
  backend_qubit_count, backend_simulator_flag, backend_name_of, sort_by, insert_by, text_le,
  summarize_coupling_map, list_aer_backends, list_ibm_backends, raw_entries, list_backends,
}
use quantum_api.Backends.Listed.{Ordered, Asked, list_backends-Asked}
use quantum_api.Jobs.Table.{random, circuit}
use quantum_api.Jobs.Hardware.{printed}
use quantum_api.Jobs.Submit.{
  Sampler, SubmitRequest, submit_random_job, submit_circuit_job, submit_qasm_job,
}
use quantum_api.Jobs.Submitted.{
  Placed, IsHardware, AnyBackend, submit_random_job-Placed, submit_jobs-Placed,
}

abbrev simulator : Backend
simulator = record {
  configuration = none;
  name = name_method (some (codes "aer_simulator")) (codes "method");
  simulator = some true;
  num_qubits = some 30;
  n_qubits = none;
}

abbrev device : Backend
device = record {
  configuration = some (record {
    backend_name = some (codes "ibm_x");
    simulator = some false;
    n_qubits = some 5;
    basis_gates = codes "x" ∷ codes "cx" ∷ [];
    coupling_map = some ((0 ∷ 1 ∷ []) ∷ (1 ∷ 2 ∷ []) ∷ []);
  });
  name = unnamed;
  simulator = none;
  num_qubits = none;
  n_qubits = none;
}

abbrev simulator_by_name : Text → Option Backend
simulator_by_name name = if text_eq name (codes "aer_simulator") then some simulator else none

abbrev device_by_name : Text → Option Backend
device_by_name name = if text_eq name (codes "ibm_x") then some device else none

abbrev runtime : Runtime
runtime = record {
  qiskit_available = true;
  aer = some simulator_by_name;
  ibm = ok (record { backends = some (device ∷ []); backend = device_by_name });
}

abbrev listing : List Entry
listing = serialize_backend aer simulator ∷ serialize_backend ibm device ∷ []

lists : list_backends runtime none false 2 ≡ ok (listing, [])
unfolding list_backends raw_entries list_aer_backends list_ibm_backends serialize_backend
    backend_qubit_count backend_simulator_flag backend_name_of sort_by insert_by entry_le text_le
    text_eq summarize_coupling_map
lists = refl

list_backends-Asked_example :
    Ordered entry_le listing
    × All (Asked none false 2) listing
    × ((found : List Entry) × (raw_entries runtime none ≡ ok (found, []))
        × ((p : Entry → Bool) → count p listing ≡ count (λ e. passes false 2 e && p e) found))
list_backends-Asked_example = list_backends-Asked runtime none false 2 listing [] lists

abbrev credentials : ResolvedCredentials
credentials = record {
  owner_user_id = some 1;
  profile_id = some 10;
  profile_name = some (codes "lab");
  instance_name = codes "crn";
  channel = codes "ibm_quantum_platform";
  masked_token = codes "****";
  token = codes "t";
  token_ciphertext = codes "c";
  origin = codes "user_profile";
}

abbrev sampler : Sampler
sampler = record {
  dependencies = true;
  send = λ b.
      some (record { status = printed (codes "JobStatus.QUEUED"); job_id = some (codes "j1") });
}

abbrev submission : SubmitRequest
submission = record {
  owner_user_id = 1;
  api_key_id = 10;
  provider = codes "ibm";
  backend_name = codes "ibm_x";
}

submit_random_job-Placed_example :
    Placed
      (λ t. t)
      runtime
      sampler
      credentials
      submission
      7
      100
      IsHardware
      1
      (random (pos 0) (pos 6) (random_job_shots (pos 0) (pos 6)))
      []
      (submit_random_job (λ t. t) runtime sampler credentials submission 7 100 (pos 0) (pos 6) [])
submit_random_job-Placed_example =
    submit_random_job-Placed (λ t. t) runtime sampler credentials submission 7 100 (pos 0) (pos 6)
      []

submit_jobs-Placed_example :
    Placed
      (λ t. t)
      runtime
      sampler
      credentials
      submission
      7
      100
      AnyBackend
      2
      (circuit none (some 2) 1024)
      []
      (submit_circuit_job (λ t. t) runtime sampler credentials submission 7 100 2 1024 (ok 2) [])
    × Placed
        (λ t. t)
        runtime
        sampler
        credentials
        submission
        7
        100
        AnyBackend
        2
        (circuit (some 2) none 1024)
        []
        (submit_qasm_job (λ t. t) runtime sampler credentials submission 7 100 1024 (ok 2) [])
submit_jobs-Placed_example =
    submit_jobs-Placed (λ t. t) runtime sampler credentials submission 7 100 2 1024 (ok 2) []
