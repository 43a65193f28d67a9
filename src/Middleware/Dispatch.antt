-- ===== src/Middleware/Dispatch.antt =====
-- SecurityObservabilityMiddleware of src/quantum_api/middleware.py: the checks before a handler runs,
-- and what becomes of its response. Metrics and logs are left out, and so are failures of the database.
use quantum_api.Base.{ℕ, Bool, not, ◌&&◌, Option, none, some, List, [], ◌∷◌, ◌++◌, if◌then◌else◌}
use quantum_api.Base.Text.{Text, Unicode, codes, text_eq, is_empty}
use quantum_api.Base.Transaction.{Result, ok, err}
use quantum_api.Base.Stateful.{Stateful, ◌>>=◌, ◌>>◌}
use quantum_api.Config.{Settings, is_production_like, requires_api_key, requires_user_jwt}
use quantum_api.Keys.Table.{Database}
use quantum_api.Auth.{
  Cache, Attempt, AuthenticatedApiKey, authenticated, missing_header, invalid_format,
  unknown_prefix, hash_mismatch, authenticate_with_diagnostics,
}
use quantum_api.Jwt.{
  Library, Jwks, Refresh, AuthenticatedUser, JwtError, rejected, broken, or_text,
  verify_authorization_header,
}
use quantum_api.RateLimit.Redis.{Redis}
use quantum_api.RateLimit.Windows.{Printing}
use quantum_api.RateLimit.Limiter.{
  RateLimitResult, Checked, unavailable, checked, Evaluation, check_ip, check_key,
  should_apply_rate_limits, client_ip, friendly_rate_limit_message,
}
use quantum_api.Middleware.{Request, Http, error_content, limit_content, set_headers}

-- What `request.state` holds of the caller when the handler runs.
pub data Identity : Type 0 where
  anonymous : Identity
  user : AuthenticatedUser → Identity
  api_key : AuthenticatedApiKey → Identity

-- How the handler ends: `limiter_unavailable` is a RateLimiterUnavailableError, `raised` any other
-- exception but TimeoutError.
pub data Called (R : Type 0) : Type 0 where
  responded : R → Called R
  timed_out limiter_unavailable raised : Called R

unfoldable pub friendly_auth_message : Settings → Text → Text
unfolding text_eq
friendly_auth_message s auth_target =
    if text_eq auth_target (codes "metrics")
    then codes "Authentication required: send a valid metrics token in '"
      ++ s.metrics_token_header
      ++ codes "' to access this endpoint."
    else if text_eq auth_target (codes "jwt")
    then codes
        "Authentication required: send a valid Supabase JWT in 'Authorization: Bearer <token>'."
    else codes "Authentication required: send a valid API key in '"
      ++ s.api_key_header
      ++ codes "' for this endpoint."

abbrev pub jwt_unavailable_message : Text
jwt_unavailable_message =
    codes "Authentication service temporarily unavailable: "
    ++ codes "unable to verify Supabase JWT at this time."

abbrev pub friendly_service_unavailable_message : Text
friendly_service_unavailable_message =
    codes "Service temporarily unavailable: the rate-limiting backend could not be reached. "
    ++ codes "Please try again shortly."

-- What other systems do while a request is handled: `uuid` is a new identifier, the evaluations and
-- times are those of the limiter's two scripts, `read_up` and `write_up` say whether Redis answers the
-- cache of keys, and the last two are the refreshes of the signing keys.
pub record Surroundings (K : Type 0) : Type 0 where
  pub uuid : Text
  pub ip_evaluation : Evaluation
  pub ip_now : ℕ
  pub key_evaluation : Evaluation
  pub key_now : ℕ
  pub read_up : Bool
  pub write_up : Bool
  pub on_demand : Refresh K
  pub forced : Refresh K

-- What the middleware reads and writes. An API key's number is printed where it names a counter.
pub record World (S K : Type 0) : Type 0 where
  pub counters : S
  pub cache : Cache
  pub jwks : Jwks K
  pub database : Database

unfoldable pub request_id : Settings → Text → Request → Text
request_id s uuid request =
    let given = or_text (request.header s.request_id_header) [] in
    if is_empty given then uuid else given

-- The header that carries the metrics token, compared with the token.
abbrev pub is_token : Text → Option Text → Bool
is_token token none = Bool.false
is_token token (some given) = text_eq given token

module _ (http : Http) (r : Redis) (l : Library) (p : Printing) (u : Unicode)
    (hmac : Text → Text → ℕ) (s : Settings) (env : Surroundings (l.Key)) where
  open http use {Response}

  abbrev pub Guard : Type 0 → Type 0
  Guard A = Stateful (World (r.State) (l.Key)) Response A

  unfoldable pub error_response : ℕ → Text → Text → Text → Response
  error_response status_code error message id =
      http.json status_code [] (error_content error message id)

  unfoldable pub rate_limited_response : RateLimitResult → Text → Response
  unfolding friendly_rate_limit_message
  rate_limited_response result id =
      http.json 429
        (result.headers ++ (codes "Retry-After", p.decimal result.retry_after_seconds) ∷ [])
        (limit_content (friendly_rate_limit_message p result) result.reason
          result.retry_after_seconds id)

  abbrev pub unauthorized : Text → Text → Response
  unauthorized auth_target id =
      error_response 401 (codes "auth_required") (friendly_auth_message s auth_target) id

  abbrev pub service_unavailable : Text → Text → Response
  service_unavailable message id = error_response 503 (codes "service_unavailable") message id

  -- The outcome of a check of the limiter: an exception ends in 503, a rejection in 429.
  unfoldable pub limited : Text → Checked → Result Response RateLimitResult
  unfolding rate_limited_response error_response
  limited id (unavailable _) = err (service_unavailable friendly_service_unavailable_message id)
  limited id (checked result) =
      if result.allowed then ok result else err (rate_limited_response result id)

  -- The metrics route of a server in staging or production asks for a token.
  unfoldable pub check_metrics : Request → Text → Guard (Unit {0})
  unfolding error_response
  check_metrics request id w =
      if s.metrics_enabled
        && text_eq request.path s.metrics_path
        && is_production_like u s
        && not (is_token s.metrics_token (request.header s.metrics_token_header))
      then (w, err (unauthorized (codes "metrics") id))
      else (w, ok tt)

  -- The world after a check of the limiter, and what the check gives.
  abbrev pub counted :
      {A : Type 0}
      → (RateLimitResult → A)
      → World (r.State) (l.Key)
      → r.State
      → Result Response RateLimitResult
      → World (r.State) (l.Key) × Result Response A
  counted f w after (ok result) = (record w { counters = after }, ok (f result))
  counted f w after (err refusal) = (record w { counters = after }, err refusal)

  -- The same for the verification of a user's token, and for an API key.
  abbrev pub verified :
      Text
      → World (r.State) (l.Key)
      → Jwks (l.Key) × Result JwtError AuthenticatedUser
      → World (r.State) (l.Key) × Result Response AuthenticatedUser
  verified id w (after, ok found) = (record w { jwks = after }, ok found)
  verified id w (after, err rejected) =
      (record w { jwks = after }, err (unauthorized (codes "jwt") id))
  verified id w (after, err broken) =
      (record w { jwks = after }, err (service_unavailable jwt_unavailable_message id))

  abbrev pub attempted :
      Text
      → World (r.State) (l.Key)
      → Cache × Attempt
      → World (r.State) (l.Key) × Result Response AuthenticatedApiKey
  attempted id w (after, authenticated key) = (record w { cache = after }, ok key)
  attempted id w (after, missing_header) =
      (record w { cache = after }, err (unauthorized (codes "api_key") id))
  attempted id w (after, invalid_format) =
      (record w { cache = after }, err (unauthorized (codes "api_key") id))
  attempted id w (after, unknown_prefix _) =
      (record w { cache = after }, err (unauthorized (codes "api_key") id))
  attempted id w (after, hash_mismatch _) =
      (record w { cache = after }, err (unauthorized (codes "api_key") id))

  -- `check_ip`, where limits apply.
  unfoldable pub check_address : Request → Text → Guard (Unit {0})
  unfolding limited
  check_address request id w =
      let address = client_ip (request.header (codes "x-forwarded-for")) request.peer in
      let (after, result) = check_ip r p s env.ip_evaluation address env.ip_now w.counters in
      if should_apply_rate_limits u s
      then counted (λ _. tt) w after (limited id result)
      else (w, ok tt)

  unfoldable pub check_user : Request → Text → Guard AuthenticatedUser
  unfolding error_response
  check_user request id w = verified id w (
      verify_authorization_header l u s env.on_demand env.forced
        (request.header (codes "Authorization")) w.jwks)

  -- The look-up of a key is taken to answer: an exception of the database, which the source lets
  -- through as an internal error before the handler, has no counterpart.
  unfoldable pub check_api_key : Request → Text → Guard AuthenticatedApiKey
  unfolding error_response
  check_api_key request id w = attempted id w (
      authenticate_with_diagnostics s u hmac env.read_up env.write_up
        (request.header s.api_key_header) w.database w.cache)

  -- `check_key`, where limits apply, with the headers that the response gets.
  unfoldable pub check_quota : AuthenticatedApiKey → Text → Guard (List (Text × Text))
  unfolding limited
  check_quota key id w =
      let (after, result) =
        check_key r p s env.key_evaluation (p.decimal key.key_id) key.policy env.key_now
          w.counters in
      if should_apply_rate_limits u s
      then counted (λ allowed. allowed.headers) w after (limited id result)
      else (w, ok [])

  unfoldable pub admit_user : Request → Text → Guard (Identity × List (Text × Text))
  unfolding check_address check_user
  admit_user request id = do
    check_address request id
    found ← check_user request id
    λ w. (w, ok (user found, []))

  unfoldable pub admit_api_key : Request → Text → Guard (Identity × List (Text × Text))
  unfolding check_address check_api_key check_quota
  admit_api_key request id = do
    check_address request id
    key ← check_api_key request id
    headers ← check_quota key id
    λ w. (w, ok (api_key key, headers))

  unfoldable pub admit_caller : Request → Text → Guard (Identity × List (Text × Text))
  unfolding admit_user admit_api_key
  admit_caller request id w =
      if s.auth_enabled && requires_user_jwt s request.path
      then admit_user request id w
      else if s.auth_enabled && requires_api_key s request.path
      then admit_api_key request id w
      else (w, ok (anonymous, []))

  -- All that is checked before the handler runs.
  unfoldable pub admit : Request → Text → Guard (Identity × List (Text × Text))
  unfolding check_metrics admit_caller
  admit request id = check_metrics request id >> admit_caller request id

  -- `_finalize_response`, without its metrics and its log.
  unfoldable pub finalize_response : Text → Response → Response
  finalize_response id response = http.set_header s.request_id_header id response

  -- The response where the handler ends; another exception goes on to the server.
  unfoldable pub complete : Text → List (Text × Text) → Called Response → Option Response
  unfolding finalize_response error_response
  complete id headers (responded response) =
      some (finalize_response id (set_headers http headers response))
  complete id headers timed_out = some (
      finalize_response id (
        set_headers http headers (
          error_response 504 (codes "request_timeout")
            (codes "Request exceeded maximum execution time.") id)))
  complete id headers limiter_unavailable =
      some (finalize_response id (service_unavailable friendly_service_unavailable_message id))
  complete id headers raised = none

  abbrev pub Handler : Type 0
  Handler = Identity → World (r.State) (l.Key) → World (r.State) (l.Key) × Called Response

  abbrev pub run_handler :
      Handler
      → Text
      → Identity
      → List (Text × Text)
      → World (r.State) (l.Key)
      → World (r.State) (l.Key) × Option Response
  run_handler call_next id identity headers w =
      let (after, called) = call_next identity w in (after, complete id headers called)

  -- What becomes of the checks.
  abbrev pub proceed :
      Handler
      → Text
      → World (r.State) (l.Key) × Result Response (Identity × List (Text × Text))
      → World (r.State) (l.Key) × Option Response
  proceed call_next id (w, err refusal) = (w, some (finalize_response id refusal))
  proceed call_next id (w, ok (identity, headers)) = run_handler call_next id identity headers w

  unfoldable pub dispatch :
      Handler → Request → World (r.State) (l.Key) → World (r.State) (l.Key) × Option Response
  unfolding admit request_id
  dispatch call_next request w =
      let id = request_id s env.uuid request in proceed call_next id (admit request id w)
