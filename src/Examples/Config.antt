-- ===== src/Examples/Config.antt =====
-- Settings that are accepted for production.
use quantum_api.Base.{◌≤◌, ◌≡◌, refl, false, true, none, any}
use quantum_api.Base.Text.{
  codes, text_eq, strip, strip_left, strip_right, split, split_max, split_first,
}
use quantum_api.Config.{
  Settings, parsed_allow_origins, strip_each, is_production_like, app_env_normalized,
}
use quantum_api.Config.Validate.{
  raise_when, production_error, auth_error, deployment_error, supabase_jwt_issuer_effective,
  validate_runtime_configuration, validate_runtime_configuration-production,
}
use quantum_api.Examples.Samples.{settings, ascii}

abbrev pub live : Settings
live = record settings { api_key_hash_secret = codes "s"; supabase_jwt_issuer = codes "i" }

pub accepted_live : validate_runtime_configuration ascii live ≡ none
unfolding validate_runtime_configuration production_error auth_error deployment_error
    supabase_jwt_issuer_effective raise_when parsed_allow_origins strip_each is_production_like
    app_env_normalized strip strip_left strip_right split split_max split_first text_eq
accepted_live = refl

pub production : is_production_like ascii live ≡ true
unfolding is_production_like app_env_normalized strip strip_left strip_right text_eq
production = refl

validate_runtime_configuration-production_example :
    (any (text_eq (codes "*")) (parsed_allow_origins live) ≡ false)
    × (live.dev_rate_limit_bypass ≡ false)
    × (live.database_auto_create ≡ false)
    × (text_eq (strip live.api_key_hash_secret) (codes "dev-only-change-me") ≡ false)
    × (live.ip_rate_limit_per_second ≤ live.ip_rate_limit_per_minute)
    × (live.default_key_rate_limit_per_second ≤ live.default_key_rate_limit_per_minute)
    × (live.max_active_api_keys_per_user ≤ live.max_total_api_keys_per_user)
validate_runtime_configuration-production_example =
    validate_runtime_configuration-production ascii live accepted_live production
