-- ===== src/Examples/Profiles.antt =====
-- The profiles of one owner: the first becomes the default, a second one takes its place.
use quantum_api.Base.{◌≤◌, length, arith, ◌≡◌, ◌≢◌, refl, true, false, none, some, [], ◌∷◌, List}
use quantum_api.Base.Text.{codes, strip, strip_left, strip_right, is_empty}
use quantum_api.Base.Transaction.{ok, err}
use quantum_api.Profiles.Table.{Cipher, Profiles, ResolvedCredentials, multiple_results}
use quantum_api.Profiles.Service.{NewProfile, create_profile, resolve_runtime_credentials}
use quantum_api.Profiles.Requests.{ProfileRequest, create, run_profile_requests, request_error}
use quantum_api.Profiles.Invariant.{IsSound, cleared}
use quantum_api.Profiles.Preserved.{reachable_profiles-IsSound}
use quantum_api.Profiles.Resolved.{stored, rows_after, credentials, create_profile-resolves}
use quantum_api.Provider.{
  CacheKey, cache_max_size, look_up, store, resolve_request_ibm_credentials, translate,
}
use quantum_api.Provider.Cached.{
  looks_up, stores, clears, cache_steps, cache_steps-bounded, store-shared,
}
use quantum_api.Provider.Chosen.{IsChosen, resolve_request_ibm_credentials-IsChosen}
use quantum_api.Examples.Samples.{settings}

-- A cipher that hides nothing.
abbrev plain : Cipher
plain = record {
  encrypt = λ secret bytes value. value;
  decrypt = λ secret token. some token;
  decrypt-encrypt = λ secret bytes value. refl;
}

abbrev first_profile : NewProfile
first_profile = record {
  profile_name = codes "lab";
  token = codes " token123456 ";
  instance_name = codes "crn";
  channel = codes "ibm_quantum_platform";
  is_default = false;
}

abbrev second_profile : NewProfile
second_profile = record first_profile { profile_name = codes "home"; is_default = true }

abbrev calls : List ProfileRequest
calls = create 1 first_profile 5 10 100 ∷ create 1 second_profile 6 11 101 ∷ []

secret_set : is_empty (strip settings.ibm_credential_encryption_key) ≡ false
unfolding strip strip_left strip_right
secret_set = refl

no_profiles-IsSound : IsSound []
no_profiles-IsSound = record { ids = tt; names = tt; defaults = tt }

reachable_profiles-IsSound_example :
    let rows = run_profile_requests plain settings calls [] in
    IsSound rows
    × (request_error plain settings (create 1 first_profile 7 12 102) rows ≢ some multiple_results)
    × (resolve_runtime_credentials plain settings 1 none rows ≢ err multiple_results)
reachable_profiles-IsSound_example =
    reachable_profiles-IsSound plain settings calls (create 1 first_profile 7 12 102) 1 none

abbrev lab_rows : Profiles
lab_rows =
    rows_after plain settings secret_set 1 first_profile 5 10 100 [] no_profiles-IsSound refl refl

abbrev lab_credentials : ResolvedCredentials
lab_credentials =
    credentials plain settings secret_set 1 first_profile 5 10 100 [] no_profiles-IsSound refl refl

create_profile-resolves_example :
    (create_profile plain settings 1 first_profile 5 10 100 []
      ≡ ok (
        stored plain settings secret_set 1 first_profile 5 10 100 [] no_profiles-IsSound refl refl,
        lab_rows,
      ))
    × (resolve_runtime_credentials plain settings 1 (some (codes "lab")) lab_rows
        ≡ ok (lab_credentials, lab_rows))
    × (true ≡ true
        → resolve_runtime_credentials plain settings 1 none lab_rows
          ≡ ok (lab_credentials, lab_rows))
create_profile-resolves_example =
    create_profile-resolves plain settings secret_set 1 first_profile 5 10 100 []
      no_profiles-IsSound refl refl

lab_rows-IsSound : IsSound lab_rows
unfolding cleared
lab_rows-IsSound = record { ids = (refl, tt); names = (refl, tt); defaults = (refl, tt) }

lab_chosen :
    resolve_request_ibm_credentials plain settings
      (some 1)
      (some (codes "lab"))
      (some lab_rows)
      true
      true
      9
    ≡ ok (some lab_credentials)
unfolding resolve_request_ibm_credentials translate
lab_chosen =
    let (_, by_name, _) =
      create_profile-resolves plain settings secret_set 1 first_profile 5 10 100 []
        no_profiles-IsSound refl refl in
    rw by_name

resolve_request_ibm_credentials-IsChosen_example :
    IsChosen plain settings 1 lab_rows true (some (codes "lab")) lab_credentials
resolve_request_ibm_credentials-IsChosen_example =
    resolve_request_ibm_credentials-IsChosen plain settings 1 (some (codes "lab")) lab_rows true
      true 9 lab_credentials lab_rows-IsSound lab_chosen

abbrev cache_key : CacheKey
cache_key = record { token_digest = 7; instance_name = codes "crn"; channel = codes "ibm" }

cache_steps-bounded_example :
    length
      (cache_steps (stores cache_key 3 ∷ looks_up cache_key ∷ clears ∷ stores cache_key 4 ∷ []) [])
    ≤ cache_max_size
cache_steps-bounded_example =
    cache_steps-bounded (stores cache_key 3 ∷ looks_up cache_key ∷ clears ∷ stores cache_key 4 ∷ [])
      [] (omega arith)

store-shared_example :
    ((store cache_key 4 (store cache_key 3 []).0).1 ≡ (store cache_key 3 []).1)
    × ((look_up cache_key (store cache_key 3 []).0).1 ≡ some (store cache_key 3 []).1)
store-shared_example = store-shared cache_key 3 4 []
