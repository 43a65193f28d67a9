-- ===== src/Middleware/Admitted.antt =====
-- The checks of the middleware let in what the specification allows, and refuse the rest.
use quantum_api.Base.{
  ℕ, ◌⊎◌, ◌≡◌, refl, sym, ap, inl, inr, true, false, not, ◌&&◌, Option, none, some, [], arith, ◌==◌,
  ==_iff, Bool-cases, Option-cases,
}
use quantum_api.Base.Text.{Text, Unicode, codes, text_eq, is_empty}
use quantum_api.Base.Transaction.{Result, ok, err}
use quantum_api.Base.Stateful.{Ends}
use quantum_api.Config.{Settings, is_production_like}
use quantum_api.Keys.Table.{RuntimeApiKey}
use quantum_api.Keys.Format.{parse_api_key_prefix}
use quantum_api.Keys.Retire.{find_active_runtime_key_by_prefix}
use quantum_api.Keys.Create.{hash_raw_key}
use quantum_api.Auth.{
  Cache, Attempt, AuthenticatedApiKey, authenticated, missing_header, invalid_format,
  unknown_prefix, hash_mismatch, compare_key, authenticate_with_diagnostics,
}
use quantum_api.Auth.Cached.{Agrees, runtime_key_by_prefix-Agrees}
use quantum_api.Jwt.{Library, Jwks, AuthenticatedUser, JwtError, rejected, broken}
use quantum_api.Jwt.Verified.{Verified, Sound, verify_authorization_header-Sound}
use quantum_api.RateLimit.Redis.{Redis}
use quantum_api.RateLimit.Windows.{Printing}
use quantum_api.RateLimit.Limiter.{
  RateLimitResult, Checked, unavailable, checked, should_apply_rate_limits,
}
use quantum_api.Middleware.{Request, Http, error_content}
use quantum_api.Middleware.Dispatch.{
  Surroundings, World, is_token, error_response, rate_limited_response, limited, counted, verified,
  attempted, check_metrics, check_address, check_user, check_api_key,
}
use quantum_api.Middleware.Admission.{Allows, Recognised, address_check, counters_then}

module _ (http : Http) (r : Redis) (l : Library) (p : Printing) (u : Unicode)
    (hmac : Text → Text → ℕ) (s : Settings) (env : Surroundings (l.Key)) where
  open http use {Response}

  -- A response that refuses: not authorized, too many requests, or unavailable.
  abbrev pub IsRefusal : Response → Type 0
  IsRefusal response =
      (http.status response ≡ 401) ⊎ (http.status response ≡ 429) ⊎ (http.status response ≡ 503)

  abbrev pub Refuses : {W : Type 0} → W → Response → Type 0
  Refuses w response = IsRefusal response

  unauthorized-IsRefusal :
      (error message id : Text)
      → IsRefusal (error_response http r l p u hmac s env 401 error message id)
  unfolding error_response
  unauthorized-IsRefusal error message id =
      inl (http.status-json 401 [] (error_content error message id))

  pub unavailable-IsRefusal :
      (error message id : Text)
      → IsRefusal (error_response http r l p u hmac s env 503 error message id)
  unfolding error_response
  unavailable-IsRefusal error message id =
      inr (inr (http.status-json 503 [] (error_content error message id)))

  -- What the reading of a check gives.
  abbrev pub Reads : Checked → Result Response RateLimitResult → Type 0
  Reads result (ok answer) = (result ≡ checked answer) × (answer.allowed ≡ true)
  Reads result (err refusal) = IsRefusal refusal

  pub limited-Reads :
      (id : Text) (result : Checked) → Reads result (limited http r l p u hmac s env id result)
  unfolding limited rate_limited_response
  limited-Reads id (unavailable why) = unavailable-IsRefusal _ _ id
  limited-Reads id (checked result) = elim (Bool-cases result.allowed) [
    | inl allowed ↦ rw (limited, allowed) (refl, refl)
    | inr rejects ↦ rw (limited, rejects) (inr (inl (http.status-json 429 _ _)))
  ]

  pub counted-Ends :
      {A : Type 0} (f : RateLimitResult → A) (w : World (r.State) (l.Key))
      (check : r.State × Checked) (x : Result Response RateLimitResult)
      (Q : World (r.State) (l.Key) → A → Type 0)
      → Reads check.1 x
      → ((answer : RateLimitResult)
          → check.1 ≡ checked answer
          → answer.allowed ≡ true
          → Q (record w { counters = check.0 }) (f answer))
      → Ends Refuses Q (counted http r l p u hmac s env f w check.0 x)
  counted-Ends f w check (ok answer) Q (reads, allowed) h = h answer reads allowed
  counted-Ends f w check (err refusal) Q refuses h = refuses

  module _ (request : Request) (id : Text) where
    pub check_metrics-Ends :
        (w : World (r.State) (l.Key))
        → Ends Refuses
            (λ w' (_ : Unit {0}).
              (w' ≡ w)
              × (((s.metrics_enabled
                      && text_eq request.path s.metrics_path
                      && is_production_like u s)
                    ≡ false)
                  ⊎ (is_token s.metrics_token (request.header s.metrics_token_header) ≡ true)))
            (check_metrics http r l p u hmac s env request id w)
    unfolding check_metrics
    check_metrics-Ends w =
        elim (Bool-cases
          (s.metrics_enabled && text_eq request.path s.metrics_path && is_production_like u s)) [
            | inr other ↦
                let passes : (s.metrics_enabled
                      && text_eq request.path s.metrics_path
                      && is_production_like u s
                      && not (is_token s.metrics_token (request.header s.metrics_token_header)))
                    ≡ false =
                  ground (arith, other) in
                rw (check_metrics, passes) (refl, inl other)
            | inl asks ↦
                elim (Bool-cases
                  (is_token s.metrics_token (request.header s.metrics_token_header))) [
                    | inl has ↦
                        let passes : (s.metrics_enabled
                              && text_eq request.path s.metrics_path
                              && is_production_like u s
                              && not (
                                  is_token s.metrics_token (request.header s.metrics_token_header)))
                            ≡ false =
                          ground (arith, has) in
                        rw (check_metrics, passes) (refl, inr has)
                    | inr lacks ↦
                        let fails : (s.metrics_enabled
                              && text_eq request.path s.metrics_path
                              && is_production_like u s
                              && not (
                                  is_token s.metrics_token (request.header s.metrics_token_header)))
                            ≡ true =
                          ground (arith, asks, lacks) in
                        rw (check_metrics, fails) (unauthorized-IsRefusal _ _ id)
                  ]
          ]

    -- What the check of the address leaves.
    abbrev pub AddressPassed : World (r.State) (l.Key) → World (r.State) (l.Key) → Unit {0} → Type 0
    AddressPassed w w' _ =
        (w' ≡ record w { counters = counters_then r l p u hmac s env request w })
        × ((should_apply_rate_limits u s ≡ false)
            ⊎ Allows (address_check r l p u hmac s env request w).1)

    check_address-on :
        (w : World (r.State) (l.Key))
        → should_apply_rate_limits u s ≡ true
        → check_address http r l p u hmac s env request id w
          ≡ counted http r l p u hmac s env
              (λ _. tt)
              w
              (address_check r l p u hmac s env request w).0
              (limited http r l p u hmac s env id (address_check r l p u hmac s env request w).1)
    unfolding check_address
    check_address-on w on = rw (check_address, on)

    counters_then-on :
        (w : World (r.State) (l.Key))
        → should_apply_rate_limits u s ≡ true
        → (address_check r l p u hmac s env request w).0
          ≡ counters_then r l p u hmac s env request w
    counters_then-on w on = rw on

    world_then-off :
        (w : World (r.State) (l.Key))
        → should_apply_rate_limits u s ≡ false
        → w ≡ record w { counters = counters_then r l p u hmac s env request w }
    world_then-off w off = rw off

    pub check_address-Ends :
        (w : World (r.State) (l.Key))
        → Ends Refuses (AddressPassed w) (check_address http r l p u hmac s env request id w)
    unfolding check_address
    check_address-Ends w = elim (Bool-cases (should_apply_rate_limits u s)) [
      | inr off ↦ rw (check_address, off) (world_then-off w off, inl off)
      | inl on ↦ rw (check_address-on w on) (
          counted-Ends (λ _. tt) w (address_check r l p u hmac s env request w)
            (limited http r l p u hmac s env id (address_check r l p u hmac s env request w).1)
            (AddressPassed w) (limited-Reads id (address_check r l p u hmac s env request w).1)
            (λ answer reads allowed. (
              ap (λ (c : r.State). record w { counters = c }) (counters_then-on w on),
              inr (answer, reads, allowed),
            )))
    ]

    -- What the verification of a user's token leaves.
    abbrev pub UserPassed :
        World (r.State) (l.Key) → World (r.State) (l.Key) → AuthenticatedUser → Type 0
    UserPassed w w' found =
        (w' ≡ record w { jwks = w'.jwks })
        × Verified l u s (request.header (codes "Authorization")) w'.jwks found

    verified-Ends :
        (w : World (r.State) (l.Key)) (x : Jwks (l.Key) × Result JwtError AuthenticatedUser)
        → Sound l u s (request.header (codes "Authorization")) x
        → Ends Refuses (UserPassed w) (verified http r l p u hmac s env id w x)
    verified-Ends w (after, ok found) h = (refl, h)
    verified-Ends w (after, err rejected) h = unauthorized-IsRefusal _ _ id
    verified-Ends w (after, err broken) h = unavailable-IsRefusal _ _ id

    pub check_user-Ends :
        (w : World (r.State) (l.Key))
        → Ends Refuses (UserPassed w) (check_user http r l p u hmac s env request id w)
    unfolding check_user
    check_user-Ends w = verified-Ends w _ (
        verify_authorization_header-Sound l u s env.on_demand env.forced
          (request.header (codes "Authorization")) w.jwks)

    -- What the look-up of an API key leaves, from a cache that agrees with the key table.
    abbrev pub KeyPassed :
        World (r.State) (l.Key) → World (r.State) (l.Key) → AuthenticatedApiKey → Type 0
    KeyPassed w w' key =
        (w' ≡ record w { cache = w'.cache })
        × Agrees w.database w'.cache
        × Recognised r l p u hmac s env request w key

    abbrev Attempted : World (r.State) (l.Key) → Cache × Attempt → Type 0
    Attempted w (after, authenticated key) =
        Agrees w.database after × Recognised r l p u hmac s env request w key
    Attempted w (after, missing_header) = Unit
    Attempted w (after, invalid_format) = Unit
    Attempted w (after, unknown_prefix _) = Unit
    Attempted w (after, hash_mismatch _) = Unit

    attempted-Ends :
        (w : World (r.State) (l.Key)) (x : Cache × Attempt)
        → Attempted w x
        → Ends Refuses (KeyPassed w) (attempted http r l p u hmac s env id w x)
    attempted-Ends w (after, authenticated key) (agrees, known) = (refl, agrees, known)
    attempted-Ends w (after, missing_header) h = unauthorized-IsRefusal _ _ id
    attempted-Ends w (after, invalid_format) h = unauthorized-IsRefusal _ _ id
    attempted-Ends w (after, unknown_prefix _) h = unauthorized-IsRefusal _ _ id
    attempted-Ends w (after, hash_mismatch _) h = unauthorized-IsRefusal _ _ id

    compared :
        (w : World (r.State) (l.Key)) (raw prefix : Text) (after : Cache)
        (known : Option RuntimeApiKey)
        → request.header s.api_key_header ≡ some raw
        → parse_api_key_prefix u s.api_key_format_prefix (some raw) ≡ some prefix
        → Agrees w.database after
        → known ≡ find_active_runtime_key_by_prefix prefix w.database
        → Attempted w (after, compare_key s hmac raw prefix known)
    unfolding compare_key
    compared w raw prefix after none sent parsed agrees found = tt
    compared w raw prefix after (some key) sent parsed agrees found =
        elim (Bool-cases (hash_raw_key s hmac raw == key.key_hash_sha256)) [
          | inl equal ↦
              rw (compare_key, equal)
                (
                  agrees,
                  record {
                    raw = raw;
                    prefix = prefix;
                    stored = key;
                    sent = sent;
                    parsed = parsed;
                    active = sym found;
                    digest = (==_iff (hash_raw_key s hmac raw) key.key_hash_sha256).0 equal;
                    same = refl;
                  },
                )
          | inr other ↦ rw (compare_key, other) tt
        ]

    authenticate-Attempted :
        (w : World (r.State) (l.Key))
        → Agrees w.database w.cache
        → Attempted w (
            authenticate_with_diagnostics s u hmac env.read_up env.write_up
              (request.header s.api_key_header)
              w.database
              w.cache)
    unfolding authenticate_with_diagnostics
    authenticate-Attempted w agrees = elim (Option-cases (request.header s.api_key_header)) [
      | inl missing ↦ rw (missing, authenticate_with_diagnostics) tt
      | inr (raw, sent) ↦ elim (Bool-cases (is_empty raw)) [
        | inl blank ↦ rw (authenticate_with_diagnostics, sent, blank) tt
        | inr full ↦
            elim (Option-cases (parse_api_key_prefix u s.api_key_format_prefix (some raw))) [
              | inl bad ↦ rw (authenticate_with_diagnostics, sent, full, bad) tt
              | inr (prefix, parsed) ↦
                  let (kept, found) =
                    runtime_key_by_prefix-Agrees s w.database env.read_up env.write_up prefix
                      w.cache agrees in
                  rw (authenticate_with_diagnostics, sent, full, parsed)
                    (compared w raw prefix _ _ sent parsed kept found)
            ]
      ]
    ]

    pub check_api_key-Ends :
        (w : World (r.State) (l.Key))
        → Agrees w.database w.cache
        → Ends Refuses (KeyPassed w) (check_api_key http r l p u hmac s env request id w)
    unfolding check_api_key
    check_api_key-Ends w agrees = attempted-Ends w _ (authenticate-Attempted w agrees)
