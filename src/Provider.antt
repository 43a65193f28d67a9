-- ===== src/Provider.antt =====
-- Which credentials a request runs with, and the cache of provider clients:
-- src/quantum_api/services/ibm_provider.py.
pub mod Cached
pub mod Chosen
use quantum_api.Base.{
  ℕ, suc, ◌==◌, Bool, true, false, not, ◌&&◌, Option, none, some, List, [], ◌∷◌, ◌++◌,
  if◌then◌else◌, ltb, length, select,
}
use quantum_api.Base.Text.{Text, codes, text_eq, strip, is_empty}
use quantum_api.Base.Transaction.{Result, ok, err}
use quantum_api.Config.{Settings}
use quantum_api.Profiles.Table.{
  ProfileError, not_found, default_missing, conflict, encryption_unavailable, multiple_results,
  integrity_error, Profiles, Cipher, ResolvedCredentials, mask_ibm_token,
}
use quantum_api.Profiles.Service.{resolve_runtime_credentials, encrypt_token}

-- `ibm_is_configured`, `ibm_profile_encryption_is_configured`
unfoldable pub ibm_is_configured : Settings → Bool
ibm_is_configured s = not (is_empty (strip s.ibm_token)) && not (is_empty (strip s.ibm_instance))

unfoldable pub ibm_profile_encryption_is_configured : Settings → Bool
ibm_profile_encryption_is_configured s = not (is_empty (strip s.ibm_credential_encryption_key))

-- The QuantumApiServiceErrors, and `unhandled` for a database's own exceptions.
pub data ProviderError : Type 0 where
  profile_not_found credentials_missing provider_unavailable credentials_invalid unhandled :
      ProviderError

-- The credentials of the server's environment.
unfoldable pub env_credentials : Cipher → Settings → Bool → ℕ → ResolvedCredentials
unfolding ibm_profile_encryption_is_configured
env_credentials c s has_service bytes =
    let token = strip s.ibm_token in
    record {
      owner_user_id = none;
      profile_id = none;
      profile_name = none;
      instance_name = strip s.ibm_instance;
      channel = strip s.ibm_channel;
      masked_token = mask_ibm_token token;
      token = token;
      token_ciphertext =
          if has_service && ibm_profile_encryption_is_configured s
          then c.encrypt (strip s.ibm_credential_encryption_key) bytes (strip token)
          else [];
      origin = codes "server_env";
    }

-- The second half of `resolve_request_ibm_credentials`, after the profiles.
unfoldable pub fall_back :
    Cipher → Settings → Bool → Bool → Bool → ℕ → Result ProviderError (Option ResolvedCredentials)
unfolding env_credentials ibm_is_configured
fall_back c s has_service required allow_env bytes =
    if allow_env && ibm_is_configured s
    then ok (some (env_credentials c s has_service bytes))
    else if required
    then err credentials_missing
    else ok none

-- What becomes of a resolution by the owner's profiles.
unfoldable pub translate :
    Cipher
    → Settings
    → Bool
    → Bool
    → ℕ
    → Result ProfileError (ResolvedCredentials × Profiles)
    → Result ProviderError (Option ResolvedCredentials)
unfolding fall_back
translate c s required allow_env bytes (ok (found, _)) = ok (some found)
translate c s required allow_env bytes (err not_found) = err profile_not_found
translate c s required allow_env bytes (err encryption_unavailable) = err provider_unavailable
translate c s required allow_env bytes (err default_missing) =
    if allow_env
    then fall_back c s true required allow_env bytes
    else if required
    then err credentials_missing
    else ok none
translate c s required allow_env bytes (err conflict) = err unhandled
translate c s required allow_env bytes (err multiple_results) = err unhandled
translate c s required allow_env bytes (err integrity_error) = err unhandled

abbrev pub has_profiles : Option Profiles → Bool
has_profiles none = false
has_profiles (some _) = true

-- `profiles` is the table behind the profile service, where there is one.
unfoldable pub resolve_request_ibm_credentials :
    Cipher
    → Settings
    → Option ℕ
    → Option Text
    → Option Profiles
    → Bool
    → Bool
    → ℕ
    → Result ProviderError (Option ResolvedCredentials)
unfolding translate fall_back
resolve_request_ibm_credentials c s (some owner) name (some rows) required allow_env bytes =
    translate c s required allow_env bytes (resolve_runtime_credentials c s owner name rows)
resolve_request_ibm_credentials c s none name profiles required allow_env bytes =
    fall_back c s (has_profiles profiles) required allow_env bytes
resolve_request_ibm_credentials c s (some owner) name none required allow_env bytes =
    fall_back c s false required allow_env bytes

-- A client of the cache is known by its number; the key holds the digest of the token.
pub record CacheKey : Type 0 where
  pub token_digest : ℕ
  pub instance_name : Text
  pub channel : Text

abbrev pub key_eq : CacheKey → CacheKey → Bool
key_eq a b =
    (a.token_digest == b.token_digest)
    && text_eq a.instance_name b.instance_name
    && text_eq a.channel b.channel

-- The OrderedDict, the least recently used entry first.
abbrev pub ClientCache : Type 0
ClientCache = List (CacheKey × ℕ)

abbrev pub cached : CacheKey → ClientCache → Option ℕ
cached k [] = none
cached k ((j, v) ∷ rest) = if key_eq j k then some v else cached k rest

abbrev pub without : CacheKey → ClientCache → ClientCache
without k [] = []
without k ((j, v) ∷ rest) = let left = without k rest in if key_eq j k then left else (j, v) ∷ left

abbrev pub cache_max_size : ℕ
cache_max_size = 256

-- `while len(…) > …: popitem(last=False)`
unfoldable pub trim : ℕ → ClientCache → ClientCache
trim limit [] = []
trim limit (e ∷ rest) =
    let smaller = trim limit rest in if ltb limit (length (e ∷ rest)) then smaller else e ∷ rest

-- The first locked section: a hit becomes the most recent entry.
unfoldable pub look_up : CacheKey → ClientCache → ClientCache × Option ℕ
look_up k cache = elim (cached k cache) [
  | none ↦ (cache, none)
  | some v ↦ (without k cache ++ (k, v) ∷ [], some v)
]

-- The second: the client that another thread has stored meanwhile wins over this one.
unfoldable pub store : CacheKey → ℕ → ClientCache → ClientCache × ℕ
unfolding trim
store k service cache = elim (cached k cache) [
  | none ↦ (trim cache_max_size (cache ++ (k, service) ∷ []), service)
  | some v ↦ (without k cache ++ (k, v) ∷ [], v)
]
