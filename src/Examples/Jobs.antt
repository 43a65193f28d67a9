-- ===== src/Examples/Jobs.antt =====
-- A job that succeeded with the number 5, and calls made of it afterwards.
use quantum_api.Base.{All, ◌≡◌, refl, none, some, true, List, [], ◌∷◌}
use quantum_api.Base.Int.{pos}
use quantum_api.Base.Text.{codes}
use quantum_api.Random.{RawResult}
use quantum_api.Jobs.Table.{
  ExecutionJobRecord, stored_job, succeeded, random, circuit, drawn, queued, NewJob,
}
use quantum_api.Jobs.Hardware.{RemoteJob, named}
use quantum_api.Jobs.Requests.{JobRequest, submit, refresh, cancel, run_job_requests}
use quantum_api.Jobs.Payloads.{JobFits, reachable_jobs-JobFits}
use quantum_api.Jobs.Settled.{run_job_requests_settled}

abbrev done_job : ExecutionJobRecord
done_job = record {
  job_id = 7;
  owner_user_id = 1;
  api_key_id = 10;
  provider = codes "ibm";
  backend_name = codes "ibm_kyiv";
  ibm_profile_name = none;
  credential = record {
    instance_name = codes "crn";
    channel = codes "ibm_quantum_platform";
    masked_token = codes "***";
    token_ciphertext = codes "x";
  };
  remote_job_id = codes "r7";
  status = succeeded;
  request_payload = random (pos 3) (pos 6) 2;
  result_payload = some (drawn (pos 5));
  error_payload = none;
  created_at = 1;
  updated_at = 2;
  completed_at = some 2;
}

abbrev new_circuit : NewJob
new_circuit = record {
  api_key_id = 10;
  provider = codes "ibm";
  backend_name = codes "ibm_kyiv";
  ibm_profile_name = none;
  credential = done_job.credential;
  remote_job_id = codes "r8";
  status = queued;
  request_payload = circuit none (some 2) 100;
}

abbrev failing_remote : RemoteJob
failing_remote = record {
  status = some (named (codes "ERROR"));
  raw_result = some RawResult.raises;
  measurement_counts = λ n. none;
  error = some (codes "calibration");
}

abbrev calls : List JobRequest
calls =
    submit 2 new_circuit 8 3
    ∷ refresh 1 7 failing_remote 4
    ∷ cancel 1 7 true failing_remote 5
    ∷ cancel 2 8 true failing_remote 6
    ∷ []

run_job_requests_settled_example :
    stored_job 7 (run_job_requests (λ s. s) calls (done_job ∷ [])) ≡ some done_job
run_job_requests_settled_example =
    run_job_requests_settled (λ s. s) 7 done_job refl calls (done_job ∷ []) refl

reachable_jobs-JobFits_example : All JobFits (run_job_requests (λ s. s) calls [])
reachable_jobs-JobFits_example = reachable_jobs-JobFits (λ s. s) calls
