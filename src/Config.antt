-- ===== src/Config.antt =====
-- The settings of src/quantum_api/config.py: the fields that the modelled parts read, and the tests
-- on paths and environments. `request_timeout_seconds` is a float that only `asyncio.wait_for`
-- reads, so it is no field here.
pub mod Validate
use quantum_api.Base.{
  ℕ, Bool, false, not, ◌&&◌, ◌||◌, List, [], ◌∷◌, ◌++◌, any, if◌then◌else◌, ◌==◌,
}
use quantum_api.Base.Text.{
  Text, Unicode, codes, text_eq, starts_with, strip, strip_left, strip_right, split, is_empty,
}

pub record Settings : Type 0 where
  pub app_env : Text
  pub api_prefix : Text
  pub allow_origins : Text
  pub dev_cors_allow_localhost : Bool
  pub dev_cors_local_origins : Text
  pub auth_enabled : Bool
  pub api_key_hash_secret : Text
  pub api_key_format_prefix : Text
  pub api_key_prefix_length : ℕ
  pub api_key_secret_length : ℕ
  pub api_key_cache_ttl_seconds : ℕ
  pub default_key_rate_limit_per_second : ℕ
  pub default_key_rate_limit_per_minute : ℕ
  pub default_key_daily_quota : ℕ
  pub max_active_api_keys_per_user : ℕ
  pub max_total_api_keys_per_user : ℕ
  pub dev_bootstrap_api_key_enabled : Bool
  pub dev_bootstrap_api_key : Text
  pub dev_bootstrap_owner_id : ℕ
  pub rate_limiting_enabled : Bool
  pub redis_url : Text
  pub dev_rate_limit_bypass : Bool
  pub public_api_cors_allow_all : Bool
  pub ip_rate_limit_per_second : ℕ
  pub ip_rate_limit_per_minute : ℕ
  pub metrics_enabled : Bool
  pub metrics_path : Text
  pub metrics_token : Text
  pub database_url : Text
  pub database_auto_create : Bool
  pub supabase_url : Text
  pub supabase_jwt_audience : Text
  pub supabase_jwt_issuer : Text
  pub supabase_jwks_cache_seconds : ℕ
  pub api_key_header : Text
  pub metrics_token_header : Text
  pub request_id_header : Text
  pub root_path : Text
  pub ibm_token : Text
  pub ibm_instance : Text
  pub ibm_channel : Text
  pub ibm_credential_encryption_key : Text

-- `api_prefix.rstrip("/")`
unfoldable pub prefix_of : Settings → Text
prefix_of s = strip_right (λ c. c == b'/') s.api_prefix

unfoldable pub requires_api_key : Settings → Text → Bool
unfolding prefix_of
requires_api_key s path =
    let prefix = prefix_of s in
    if not (starts_with path prefix)
    then false
    else if text_eq path (prefix ++ codes "/health")
        || text_eq path (prefix ++ codes "/portfolio.json")
    then false
    else not (starts_with path (prefix ++ codes "/keys"))
      && not (starts_with path (prefix ++ codes "/ibm/profiles"))

unfoldable pub requires_user_jwt : Settings → Text → Bool
unfolding prefix_of
requires_user_jwt s path =
    let prefix = prefix_of s in
    starts_with path (prefix ++ codes "/keys") || starts_with path (prefix ++ codes "/ibm/profiles")

-- `root_path_normalized`
unfoldable pub root_path_normalized : Settings → Text
root_path_normalized s =
    let value = strip s.root_path in
    if is_empty value || text_eq value (codes "/")
    then []
    else codes "/" ++ strip_right (λ c. c == b'/') (strip_left (λ c. c == b'/') value)

-- `[origin.strip() for origin in text.split(",") if origin.strip()]`
unfoldable pub strip_each : List Text → List Text
strip_each [] = []
strip_each (o ∷ os) =
    let rest = strip_each os in if is_empty (strip o) then rest else strip o ∷ rest

unfoldable pub parsed_allow_origins : Settings → List Text
unfolding strip_each
parsed_allow_origins s =
    if text_eq (strip s.allow_origins) (codes "*")
    then codes "*" ∷ []
    else strip_each (split b',' s.allow_origins)

unfoldable pub parsed_dev_cors_local_origins : Settings → List Text
unfolding strip_each
parsed_dev_cors_local_origins s = strip_each (split b',' s.dev_cors_local_origins)

-- The loop over `seen`: the first of equal origins is kept.
unfoldable pub merge_origins : List Text → List Text → List Text
merge_origins seen [] = []
merge_origins seen (o ∷ os) =
    let fresh = o ∷ merge_origins (o ∷ seen) os in
    let stale = merge_origins seen os in if any (text_eq o) seen then stale else fresh

module _ (u : Unicode) where
  unfoldable pub app_env_normalized : Settings → Text
  app_env_normalized s = u.lower (strip s.app_env)

  unfoldable pub is_development : Settings → Bool
  unfolding app_env_normalized
  is_development s = text_eq (app_env_normalized s) (codes "development")

  unfoldable pub is_production_like : Settings → Bool
  unfolding app_env_normalized
  is_production_like s =
      text_eq (app_env_normalized s) (codes "staging")
      || text_eq (app_env_normalized s) (codes "production")

  unfoldable pub effective_allow_origins : Settings → List Text
  unfolding is_development parsed_allow_origins parsed_dev_cors_local_origins merge_origins
  effective_allow_origins s =
      let origins = parsed_allow_origins s in
      if not (is_development s)
      then origins
      else if not s.dev_cors_allow_localhost
      then origins
      else if any (text_eq (codes "*")) origins
      then origins
      else merge_origins [] (origins ++ parsed_dev_cors_local_origins s)
