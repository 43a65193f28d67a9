-- ===== src/Config/Validate.antt =====
-- `validate_runtime_configuration` of src/quantum_api/config.py, run when the settings are loaded.
use quantum_api.Base.{
  ◌≤◌, ◌≡◌, refl, Bool, true, false, not, ◌&&◌, ◌||◌, Option, none, some, List, [], ◌∷◌, ◌++◌,
  arith, ltb, ◌==◌, any, if◌then◌else◌,
}
use quantum_api.Base.Text.{Text, Unicode, codes, text_eq, strip, strip_right, is_empty}
use quantum_api.Config.{Settings, is_production_like, parsed_allow_origins}

-- A branch that raises ValueError with a message, before the rest.
unfoldable pub raise_when : Bool → Text → Option Text → Option Text
raise_when true why rest = some why
raise_when false why rest = rest

abbrev pub is_nil : List Text → Bool
is_nil [] = true
is_nil (_ ∷ _) = false

unfoldable pub supabase_jwt_issuer_effective : Settings → Text
supabase_jwt_issuer_effective s =
    if not (is_empty (strip s.supabase_jwt_issuer))
    then strip s.supabase_jwt_issuer
    else if is_empty (strip s.supabase_url)
    then []
    else strip_right (λ c. c == b'/') s.supabase_url ++ codes "/auth/v1"

module _ (u : Unicode) (s : Settings) where
  unfoldable pub production_error : Option Text → Option Text
  unfolding parsed_allow_origins
  production_error rest =
      let origins = parsed_allow_origins s in
      raise_when (is_nil origins || any (text_eq (codes "*")) origins)
        (codes "ALLOW_ORIGINS must be an explicit allowlist in staging/production")
        (raise_when s.dev_rate_limit_bypass
          (codes "DEV_RATE_LIMIT_BYPASS must be false in staging/production")
          (raise_when s.database_auto_create
            (codes "DATABASE_AUTO_CREATE must be false in staging/production")
            (raise_when (text_eq (strip s.api_key_hash_secret) (codes "dev-only-change-me"))
              (codes "API_KEY_HASH_SECRET must be changed in staging/production") rest)))

  unfoldable pub auth_error : Option Text → Option Text
  unfolding supabase_jwt_issuer_effective
  auth_error rest =
      raise_when (is_empty (strip s.database_url)) (codes "AUTH_ENABLED=true requires DATABASE_URL")
        (raise_when (is_empty (strip s.api_key_hash_secret))
          (codes "AUTH_ENABLED=true requires API_KEY_HASH_SECRET")
          (raise_when (is_empty (strip s.supabase_url))
            (codes "AUTH_ENABLED=true requires SUPABASE_URL")
            (raise_when (is_empty (strip s.supabase_jwt_audience))
              (codes "AUTH_ENABLED=true requires SUPABASE_JWT_AUDIENCE")
              (raise_when (is_empty (strip (supabase_jwt_issuer_effective s)))
                (codes "AUTH_ENABLED=true requires SUPABASE_JWT_ISSUER or SUPABASE_URL") rest))))

  unfoldable pub deployment_error : Option Text
  unfolding is_production_like
  deployment_error =
      raise_when (s.rate_limiting_enabled && is_production_like u s && is_empty (strip s.redis_url))
        (codes "REDIS_URL is required when RATE_LIMITING_ENABLED=true in staging/production")
        (raise_when
          (s.metrics_enabled && is_production_like u s && is_empty (strip s.metrics_token))
          (codes "METRICS_TOKEN is required in staging/production when metrics are enabled") none)

  -- The error that is raised, or `none` where the settings are accepted.
  unfoldable pub validate_runtime_configuration : Option Text
  unfolding production_error auth_error deployment_error
  validate_runtime_configuration =
      let late = if s.auth_enabled then auth_error deployment_error else deployment_error in
      raise_when (ltb s.ip_rate_limit_per_minute s.ip_rate_limit_per_second)
        (codes "IP_RATE_LIMIT_PER_MINUTE must be >= IP_RATE_LIMIT_PER_SECOND")
        (raise_when (ltb s.default_key_rate_limit_per_minute s.default_key_rate_limit_per_second)
          (codes "DEFAULT_KEY_RATE_LIMIT_PER_MINUTE must be >= DEFAULT_KEY_RATE_LIMIT_PER_SECOND")
          (raise_when (ltb s.max_total_api_keys_per_user s.max_active_api_keys_per_user)
            (codes "MAX_TOTAL_API_KEYS_PER_USER must be >= MAX_ACTIVE_API_KEYS_PER_USER")
            (if is_production_like u s then production_error late else late)))

raise_when-none :
    (b : Bool) (why : Text) (rest : Option Text)
    → raise_when b why rest ≡ none
    → (b ≡ false) × (rest ≡ none)
unfolding raise_when
raise_when-none true why rest h = cc h
raise_when-none false why rest h = (refl, h)

-- Settings that are accepted for staging or production do not allow the origin "*", do not bypass the
-- limiter in development, do not create tables by themselves, do not have the default secret, and
-- have limits per minute and in total that are at least those per second and of active keys.
pub validate_runtime_configuration-production :
    (u : Unicode) (s : Settings)
    → validate_runtime_configuration u s ≡ none
    → is_production_like u s ≡ true
    → (any (text_eq (codes "*")) (parsed_allow_origins s) ≡ false)
      × (s.dev_rate_limit_bypass ≡ false)
      × (s.database_auto_create ≡ false)
      × (text_eq (strip s.api_key_hash_secret) (codes "dev-only-change-me") ≡ false)
      × (s.ip_rate_limit_per_second ≤ s.ip_rate_limit_per_minute)
      × (s.default_key_rate_limit_per_second ≤ s.default_key_rate_limit_per_minute)
      × (s.max_active_api_keys_per_user ≤ s.max_total_api_keys_per_user)
unfolding validate_runtime_configuration production_error
validate_runtime_configuration-production u s h live =
    let h0 = rw (validate_runtime_configuration, live) at h in
    let (ip, h1) = raise_when-none _ _ _ h0 in
    let (key, h2) = raise_when-none _ _ _ h1 in
    let (keys, h3) = raise_when-none _ _ _ h2 in
    let (origins, h4) = raise_when-none _ _ _ h3 in
    let (bypass, h5) = raise_when-none _ _ _ h4 in
    let (tables, h6) = raise_when-none _ _ _ h5 in
    let (secret, _) = raise_when-none _ _ _ h6 in
    (
      or_false _ _ origins,
      bypass,
      tables,
      secret,
      ground (arith, ip),
      ground (arith, key),
      ground (arith, keys),
    )
  where
    or_false : (a b : Bool) → (a || b) ≡ false → b ≡ false
    or_false true b h = cc h
    or_false false b h = h
