-- ===== src/Middleware/Admission.antt =====
-- What the middleware promises of a request that reaches its handler, said without the order of the
-- checks, the cache of keys, or the responses.
use quantum_api.Base.{ℕ, ◌⊎◌, ◌≡◌, true, false, ◌&&◌, some, if◌then◌else◌}
use quantum_api.Base.Text.{Text, Unicode, codes, text_eq}
use quantum_api.Config.{Settings, is_production_like, requires_api_key, requires_user_jwt}
use quantum_api.Keys.Table.{RuntimeApiKey}
use quantum_api.Keys.Format.{parse_api_key_prefix}
use quantum_api.Keys.Retire.{find_active_runtime_key_by_prefix}
use quantum_api.Keys.Create.{hash_raw_key}
use quantum_api.Auth.{AuthenticatedApiKey}
use quantum_api.Auth.Cached.{Agrees}
use quantum_api.Jwt.{Library, AuthenticatedUser}
use quantum_api.Jwt.Verified.{Verified}
use quantum_api.RateLimit.Redis.{Redis}
use quantum_api.RateLimit.Windows.{Printing}
use quantum_api.RateLimit.Limiter.{
  RateLimitResult, Checked, checked, check_ip, check_key, should_apply_rate_limits, client_ip,
}
use quantum_api.Middleware.{Request}
use quantum_api.Middleware.Dispatch.{
  Identity, anonymous, user, api_key, Surroundings, World, is_token,
}

-- A check of the limiter that lets a request through.
abbrev pub Allows : Checked → Type 0
Allows result = (answer : RateLimitResult) × (result ≡ checked answer) × (answer.allowed ≡ true)

module _ (r : Redis) (l : Library) (p : Printing) (u : Unicode) (hmac : Text → Text → ℕ)
    (s : Settings) (env : Surroundings (l.Key)) (request : Request)
    (w : World (r.State) (l.Key)) where
  abbrev pub address : Text
  address = client_ip (request.header (codes "x-forwarded-for")) request.peer

  abbrev pub address_check : r.State × Checked
  address_check = check_ip r p s env.ip_evaluation address env.ip_now w.counters

  -- The counters as the check of the address leaves them.
  abbrev pub counters_then : r.State
  counters_then = if should_apply_rate_limits u s then address_check.0 else w.counters

  -- The key table has an active key of the prefix in the header, whose digest is that of the header.
  pub record Recognised (key : AuthenticatedApiKey) : Type 0 where
    pub raw : Text
    pub prefix : Text
    pub stored : RuntimeApiKey
    pub sent : request.header s.api_key_header ≡ some raw
    pub parsed : parse_api_key_prefix u s.api_key_format_prefix (some raw) ≡ some prefix
    pub active : find_active_runtime_key_by_prefix prefix w.database ≡ some stored
    pub digest : hash_raw_key s hmac raw ≡ stored.key_hash_sha256
    pub same : key ≡ (record {
      key_id = stored.key_id;
      owner_user_id = stored.owner_user_id;
      key_prefix = stored.key_prefix;
      policy = stored.policy;
    })

  -- Who the caller is, by the kind of the route; `w'` is what the handler starts from.
  pub data Identified (w' : World (r.State) (l.Key)) : Identity → Type 0 where
    nobody :
        (s.auth_enabled && requires_user_jwt s request.path) ≡ false
        → (s.auth_enabled && requires_api_key s request.path) ≡ false
        → Identified w' anonymous
    by_token :
        {found : AuthenticatedUser}
        → (s.auth_enabled && requires_user_jwt s request.path) ≡ true
        → (should_apply_rate_limits u s ≡ false) ⊎ Allows address_check.1
        → Verified l u s (request.header (codes "Authorization")) w'.jwks found
        → Identified w' (user found)
    by_key :
        {key : AuthenticatedApiKey}
        → (s.auth_enabled && requires_api_key s request.path) ≡ true
        → (should_apply_rate_limits u s ≡ false)
          ⊎ Allows address_check.1
            × Allows
                (check_key r p s env.key_evaluation
                  (p.decimal key.key_id)
                  key.policy
                  env.key_now
                  counters_then).1
        → Recognised key
        → Identified w' (api_key key)

  pub record Admission (identity : Identity) (w' : World (r.State) (l.Key)) : Type 0 where
    pub metrics :
        ((s.metrics_enabled && text_eq request.path s.metrics_path && is_production_like u s)
          ≡ false)
        ⊎ (is_token s.metrics_token (request.header s.metrics_token_header) ≡ true)
    pub identified : Identified w' identity
    pub same_table : w'.database ≡ w.database
    pub agrees : Agrees w'.database w'.cache
