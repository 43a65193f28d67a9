-- ===== src/Profiles/Requests.antt =====
-- The calls that the profile routes of src/quantum_api/api/auth_routes.py make, and the table after a
-- sequence of them.
use quantum_api.Base.{ℕ, Option, none, some, List, [], ◌∷◌}
use quantum_api.Base.Text.{Text}
use quantum_api.Base.Transaction.{Result, ok, err, after}
use quantum_api.Config.{Settings}
use quantum_api.Profiles.Table.{ProfileError, Profiles, Cipher}
use quantum_api.Profiles.Service.{
  NewProfile, Changes, create_profile, update_profile, delete_profile, set_verification_status,
}

-- The owner comes first, then the profile's identifier where there is one, and the time last.
pub data ProfileRequest : Type 0 where
  create : ℕ → NewProfile → ℕ → ℕ → ℕ → ProfileRequest
  change : ℕ → ℕ → Changes → ℕ → ℕ → ProfileRequest
  delete : ℕ → ℕ → ProfileRequest
  verify : ℕ → ℕ → Text → Option ℕ → ℕ → ProfileRequest

abbrev pub error_of : {A : Type 0} → Result ProfileError A → Option ProfileError
error_of (ok _) = none
error_of (err e) = some e

module _ (c : Cipher) (s : Settings) where
  unfoldable pub run_profile_request : ProfileRequest → Profiles → Profiles
  run_profile_request (create o p bytes uuid now) rows =
      after rows (create_profile c s o p bytes uuid now rows)
  run_profile_request (change o k ch bytes now) rows =
      after rows (update_profile c s o k ch bytes now rows)
  run_profile_request (delete o k) rows = after rows (delete_profile c s o k rows)
  run_profile_request (verify o k status at now) rows =
      after rows (set_verification_status c s o k status at now rows)

  -- The exception that the call raises, if it does.
  unfoldable pub request_error : ProfileRequest → Profiles → Option ProfileError
  request_error (create o p bytes uuid now) rows =
      error_of (create_profile c s o p bytes uuid now rows)
  request_error (change o k ch bytes now) rows = error_of (update_profile c s o k ch bytes now rows)
  request_error (delete o k) rows = error_of (delete_profile c s o k rows)
  request_error (verify o k status at now) rows =
      error_of (set_verification_status c s o k status at now rows)

  unfoldable pub run_profile_requests : List ProfileRequest → Profiles → Profiles
  unfolding run_profile_request
  run_profile_requests [] rows = rows
  run_profile_requests (q ∷ qs) rows = run_profile_requests qs (run_profile_request q rows)
