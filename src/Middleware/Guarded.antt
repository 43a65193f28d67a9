-- ===== src/Middleware/Guarded.antt =====
-- Which origins the CORS middleware lets in.
use quantum_api.Base.{
  ◌⊎◌, ◌≡◌, refl, sym, ap, ◌∙◌, inl, inr, true, false, not, ◌&&◌, ◌||◌, Option, none, some, List,
  [], arith, any, if◌then◌else◌, Bool-cases,
}
use mathlib.Core.Option
use quantum_api.Base.Text.{Text, Unicode, codes, text_eq, text_eq_iff, starts_with, is_empty}
use quantum_api.Config.{
  Settings, is_production_like, is_development, app_env_normalized, prefix_of, requires_api_key,
  requires_user_jwt, effective_allow_origins, parsed_allow_origins,
}
use quantum_api.Config.Validate.{
  validate_runtime_configuration, validate_runtime_configuration-production,
}
use quantum_api.Middleware.{Request, Http, set_headers, same_header}
use quantum_api.Middleware.Cors.{
  CorsPolicy, is_preflight_request, lets_in, runtime_expose_headers, policy_for_path,
  preflight_response, apply_cors_headers, expose, cors_base_headers, vary_values, join_commas,
  cors_dispatch,
}
use quantum_api.Jwt.{or_text, has_none}

not_development :
    (env : Text)
    → (text_eq env (codes "staging") || text_eq env (codes "production")) ≡ true
    → text_eq env (codes "development") ≡ false
unfolding text_eq
not_development env live = elim (Bool-cases (text_eq env (codes "staging"))) [
  | inl staging ↦ rw ((text_eq_iff env (codes "staging")).0 staging) refl
  | inr other ↦
      let production : text_eq env (codes "production") ≡ true = rw other at live in
      rw ((text_eq_iff env (codes "production")).0 production) refl
]

-- In staging and production the origins of the developers' machines are not added.
effective_allow_origins-production :
    (u : Unicode) (s : Settings)
    → is_production_like u s ≡ true
    → effective_allow_origins u s ≡ parsed_allow_origins s
unfolding effective_allow_origins is_production_like is_development
effective_allow_origins-production u s live =
    rw (effective_allow_origins, not_development (app_env_normalized u s) live) refl

module _ (http : Http) (u : Unicode) (s : Settings) where
  open http use {Response}

  -- The policy of a route for users, where not every origin is allowed.
  policy_for_path-private :
      (path : Text)
      → requires_user_jwt s path ≡ true
      → any (text_eq (codes "*")) (effective_allow_origins u s) ≡ false
      → (policy_for_path http u s path ≡ none)
        ⊎ ((policy : CorsPolicy) × (policy_for_path http u s path ≡ some policy)
            × (policy.allow_all ≡ false)
            × (policy.allowed_origins ≡ effective_allow_origins u s))
  unfolding policy_for_path
  policy_for_path-private path private listed = elim (Bool-cases (text_eq path s.metrics_path)) [
    | inl metrics ↦ inl (rw (policy_for_path, metrics))
    | inr other ↦
        let closed : (s.public_api_cors_allow_all
              && starts_with path (prefix_of s)
              && not (requires_user_jwt s path))
            ≡ false =
          rw private (ground arith) in
        inr (
          record {
            allow_all = false;
            allowed_origins = effective_allow_origins u s;
            expose_headers =
                if requires_api_key s path then runtime_expose_headers http u s else [];
          },
          rw (policy_for_path, other, closed, listed),
          refl,
          refl,
        )
  ]

  lets_in-not :
      (policy : CorsPolicy) (origin : Text)
      → policy.allow_all ≡ false
      → any (text_eq origin) policy.allowed_origins ≡ false
      → lets_in policy origin ≡ false
  unfolding lets_in
  lets_in-not policy origin narrow unlisted = rw (narrow, unlisted)

  refused_preflight :
      (request : Request) (policy : Option CorsPolicy) (origin : Text)
      → request.header (codes "origin") ≡ some origin
      → ((p : CorsPolicy) → policy ≡ some p → lets_in p origin ≡ false)
      → (http.status (preflight_response http u s request policy) ≡ 400)
        ⊎ (http.status (preflight_response http u s request policy) ≡ 404)
  unfolding preflight_response
  refused_preflight request none origin sent shut = inr (http.status-response 404 [])
  refused_preflight request (some p) origin sent shut =
      rw (preflight_response, sent, shut p refl) (inl (http.status-response 400 []))

  untouched :
      (request : Request) (policy : Option CorsPolicy) (origin : Text) (r : Response)
      → request.header (codes "origin") ≡ some origin
      → ((p : CorsPolicy) → policy ≡ some p → lets_in p origin ≡ false)
      → apply_cors_headers http u s request policy r ≡ r
  unfolding apply_cors_headers
  untouched request none origin r sent shut = refl
  untouched request (some p) origin r sent shut = elim (Bool-cases (is_empty origin)) [
    | inl blank ↦ rw (apply_cors_headers, sent, blank)
    | inr full ↦ rw (apply_cors_headers, sent, full, shut p refl)
  ]

  untouched_answer :
      (request : Request) (policy : Option CorsPolicy) (origin : Text) (answer : Option Response)
      → request.header (codes "origin") ≡ some origin
      → ((p : CorsPolicy) → policy ≡ some p → lets_in p origin ≡ false)
      → Option.map (apply_cors_headers http u s request policy) answer ≡ answer
  untouched_answer request policy origin none sent shut = refl
  untouched_answer request policy origin (some r) sent shut =
      ap some (untouched request policy origin r sent shut)

  -- With settings that are accepted for staging or production, a request for a route of users from an
  -- origin that is not in the allowlist gets no permission: a preflight request is answered with 400 or
  -- 404 and reaches no handler; the response to any other is the handler's own, without a change.
  pub cors_dispatch-guarded :
      {W : Type 0} (call_next : W → W × Option Response) (request : Request) (w : W) (origin : Text)
      → validate_runtime_configuration u s ≡ none
      → is_production_like u s ≡ true
      → requires_user_jwt s request.path ≡ true
      → request.header (codes "origin") ≡ some origin
      → any (text_eq origin) (parsed_allow_origins s) ≡ false
      → let result = cors_dispatch http u s call_next request w in
        ((is_preflight_request request ≡ true)
          × ((r : Response) × (result ≡ (w, some r))
              × ((http.status r ≡ 400) ⊎ (http.status r ≡ 404))))
        ⊎ ((is_preflight_request request ≡ false) × (result ≡ call_next w))
  unfolding cors_dispatch
  cors_dispatch-guarded call_next request w origin accepted live private sent unlisted =
      elim (Bool-cases (is_preflight_request request)) [
        | inl preflight ↦ inl (
          preflight,
          (
            preflight_response http u s request (policy_for_path http u s request.path),
            rw (cors_dispatch, preflight),
            refused_preflight request (policy_for_path http u s request.path) origin sent shut,
          ),
        )
        | inr plain ↦ inr (
          plain,
          rw (cors_dispatch, plain)
              (ap (λ (a : Option Response). ((call_next w).0, a))
                (untouched_answer request (policy_for_path http u s request.path) origin
                  (call_next w).1 sent shut)),
        )
      ]
    where
      origins : effective_allow_origins u s ≡ parsed_allow_origins s
      origins = effective_allow_origins-production u s live

      shut :
          (p : CorsPolicy)
          → policy_for_path http u s request.path ≡ some p
          → lets_in p origin ≡ false
      shut p h =
          elim (policy_for_path-private request.path private
            (rw origins (validate_runtime_configuration-production u s accepted live).0)) [
              | inl closed ↦ cc (sym closed ∙ h)
              | inr (policy, is_policy, narrow, allowed) ↦
                  let same : policy ≡ p = cc (sym is_policy ∙ h) in
                  rw (← same) (lets_in-not policy origin narrow (rw (allowed, origins) unlisted))
            ]

  exposed :
      (names : List Text) (name value : Text) (r : Response)
      → same_header name (codes "Access-Control-Expose-Headers") ≡ false
      → http.header name r ≡ some value
      → http.header name (expose http u s names r) ≡ some value
  unfolding expose
  exposed names name value r other h = elim (Bool-cases (has_none names)) [
    | inl nothing ↦ rw (expose, nothing) h
    | inr some_names ↦
        rw (expose, some_names)
          (http.header-set_other name (codes "Access-Control-Expose-Headers") (join_commas names) r
              other
            ∙ h)
  ]

  base_header :
      (request : Request) (policy : CorsPolicy) (origin : Text) (r : Response)
      → request.header (codes "origin") ≡ some origin
      → http.header
          (codes "Access-Control-Allow-Origin")
          (set_headers http (cors_base_headers request policy) r)
        ≡ some (if policy.allow_all then codes "*" else origin)
  unfolding cors_base_headers set_headers same_header text_eq
  base_header request policy origin r sent = elim (Bool-cases policy.allow_all) [
    | inl wide ↦
        rw (cors_base_headers, wide, set_headers)
          (http.header-set_header (codes "Access-Control-Allow-Origin") (codes "*") r)
    | inr narrow ↦
        rw (cors_base_headers, narrow, sent, set_headers)
          (http.header-set_other (codes "Access-Control-Allow-Origin") (codes "Vary")
              (join_commas (vary_values request)) _ refl
            ∙ http.header-set_header (codes "Access-Control-Allow-Origin") origin r)
  ]

  -- A response to an origin that the policy lets in carries the origin, or "*" where all are let in,
  -- whatever the handler had set.
  pub apply_cors_headers-lets_in :
      (request : Request) (policy : CorsPolicy) (origin : Text) (r : Response)
      → request.header (codes "origin") ≡ some origin
      → is_empty origin ≡ false
      → lets_in policy origin ≡ true
      → http.header
          (codes "Access-Control-Allow-Origin")
          (apply_cors_headers http u s request (some policy) r)
        ≡ some (if policy.allow_all then codes "*" else origin)
  unfolding apply_cors_headers same_header text_eq
  apply_cors_headers-lets_in request policy origin r sent full open_to =
      let full' : is_empty (or_text (request.header (codes "origin")) []) ≡ false = rw sent full in
      let open' : lets_in policy (or_text (request.header (codes "origin")) []) ≡ true =
        rw sent open_to in
      rw (apply_cors_headers, full', open')
        (exposed policy.expose_headers (codes "Access-Control-Allow-Origin") _ _ refl
          (base_header request policy origin r sent))
