-- ===== src/Middleware/Cors.antt =====
-- RouteAwareCORSMiddleware of src/quantum_api/middleware.py.
use quantum_api.Base.{
  Bool, true, false, not, ◌&&◌, ◌||◌, Option, none, some, List, [], ◌∷◌, ◌++◌, any, is_some,
  if◌then◌else◌,
}
use quantum_api.Base.Text.{Text, Unicode, codes, text_eq, starts_with, is_empty}
use mathlib.Core.Option
use quantum_api.Config.{
  Settings, prefix_of, requires_api_key, requires_user_jwt, effective_allow_origins,
}
use quantum_api.Middleware.{Request, Http, set_headers}
use quantum_api.Jwt.{or_text, has_none}

pub record CorsPolicy : Type 0 where
  pub allow_all : Bool
  pub allowed_origins : List Text
  pub expose_headers : List Text

-- `", ".join(…)`
unfoldable pub join_commas : List Text → Text
join_commas [] = []
join_commas (t ∷ []) = t
join_commas (t ∷ u ∷ ts) = t ++ codes ", " ++ join_commas (u ∷ ts)

abbrev pub cors_allowed_methods : List Text
cors_allowed_methods =
    codes "GET" ∷ codes "POST" ∷ codes "PATCH" ∷ codes "PUT" ∷ codes "DELETE" ∷ codes "OPTIONS" ∷ []

unfoldable pub is_preflight_request : Request → Bool
is_preflight_request request =
    text_eq request.method (codes "OPTIONS")
    && is_some (request.header (codes "origin"))
    && is_some (request.header (codes "access-control-request-method"))

unfoldable pub vary_values : Request → List Text
vary_values request =
    codes "Origin"
    ∷ ((if is_empty (or_text (request.header (codes "access-control-request-headers")) [])
          then []
          else codes "Access-Control-Request-Headers" ∷ [])
        ++ (if is_empty (or_text (request.header (codes "access-control-request-method")) [])
            then []
            else codes "Access-Control-Request-Method" ∷ []))

unfoldable pub cors_base_headers : Request → CorsPolicy → List (Text × Text)
unfolding vary_values join_commas
cors_base_headers request policy =
    if policy.allow_all
    then (codes "Access-Control-Allow-Origin", codes "*") ∷ []
    else (codes "Access-Control-Allow-Origin", or_text (request.header (codes "origin")) [])
      ∷ (codes "Vary", join_commas (vary_values request))
      ∷ []

-- Whether the origin is one that the policy lets in.
unfoldable pub lets_in : CorsPolicy → Text → Bool
lets_in policy origin = policy.allow_all || any (text_eq origin) policy.allowed_origins

module _ (http : Http) (u : Unicode) (s : Settings) where
  open http use {Response}

  abbrev pub default_allow_headers : List Text
  default_allow_headers =
      codes "Accept"
      ∷ codes "Authorization"
      ∷ codes "Content-Type"
      ∷ codes "Origin"
      ∷ s.api_key_header
      ∷ s.metrics_token_header
      ∷ s.request_id_header
      ∷ []

  abbrev pub runtime_expose_headers : List Text
  runtime_expose_headers =
      s.request_id_header
      ∷ codes "RateLimit-Limit"
      ∷ codes "RateLimit-Remaining"
      ∷ codes "RateLimit-Reset"
      ∷ codes "Retry-After"
      ∷ []

  unfoldable pub policy_for_path : Text → Option CorsPolicy
  policy_for_path path =
      let below = starts_with path (prefix_of s) in
      let origins = effective_allow_origins u s in
      if text_eq path s.metrics_path
      then none
      else if s.public_api_cors_allow_all && below && not (requires_user_jwt s path)
      then some (record {
        allow_all = true;
        allowed_origins = [];
        expose_headers = runtime_expose_headers;
      })
      else if any (text_eq (codes "*")) origins
      then some (record {
        allow_all = true;
        allowed_origins = [];
        expose_headers = if below then runtime_expose_headers else [];
      })
      else some (record {
        allow_all = false;
        allowed_origins = origins;
        expose_headers = if requires_api_key s path then runtime_expose_headers else [];
      })

  unfoldable pub preflight_response : Request → Option CorsPolicy → Response
  unfolding lets_in cors_base_headers join_commas
  preflight_response request none = http.response 404 []
  preflight_response request (some policy) =
      if not (lets_in policy (or_text (request.header (codes "origin")) []))
      then http.response 400 []
      else http.response 200 (
          cors_base_headers request policy
          ++ ((codes "Access-Control-Allow-Methods", join_commas cors_allowed_methods)
              ∷ (
                codes "Access-Control-Allow-Headers",
                or_text (request.header (codes "access-control-request-headers"))
                    (join_commas default_allow_headers),
              )
              ∷ (codes "Access-Control-Max-Age", codes "600")
              ∷ []))

  -- `if policy.expose_headers: …`
  unfoldable pub expose : List Text → Response → Response
  unfolding join_commas
  expose names r =
      if has_none names
      then r
      else http.set_header (codes "Access-Control-Expose-Headers") (join_commas names) r

  unfoldable pub apply_cors_headers : Request → Option CorsPolicy → Response → Response
  unfolding lets_in cors_base_headers expose
  apply_cors_headers request none r = r
  apply_cors_headers request (some policy) r =
      let origin = or_text (request.header (codes "origin")) [] in
      if is_empty origin || not (lets_in policy origin)
      then r
      else expose policy.expose_headers (set_headers http (cors_base_headers request policy) r)

  -- `dispatch` of the CORS middleware: what becomes of the handler's response, if it gives one.
  unfoldable pub cors_dispatch :
      {W : Type 0} → (W → W × Option Response) → Request → W → W × Option Response
  unfolding is_preflight_request policy_for_path preflight_response apply_cors_headers
  cors_dispatch call_next request w =
      let (after, answer) = call_next w in
      if is_preflight_request request
      then (w, some (preflight_response request (policy_for_path request.path)))
      else (after, Option.map (apply_cors_headers request (policy_for_path request.path)) answer)
