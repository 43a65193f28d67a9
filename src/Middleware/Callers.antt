-- ===== src/Middleware/Callers.antt =====
-- The checks of one route after another: who is let in, and in which world.
use mathlib.Core.Path.{subst}
use quantum_api.Base.{
  ℕ, ◌⊎◌, ◌≡◌, refl, sym, ap, ◌∙◌, inl, inr, true, false, ◌&&◌, List, [], Bool-cases,
}
use quantum_api.Base.Text.{Text, Unicode, text_eq}
use quantum_api.Base.Transaction.{ok}
use quantum_api.Base.Stateful.{◌>>=◌, Ends, Ends-then}
use quantum_api.Config.{Settings, is_production_like, requires_api_key, requires_user_jwt}
use quantum_api.Auth.{AuthenticatedApiKey}
use quantum_api.Auth.Cached.{Agrees}
use quantum_api.Jwt.{Library, AuthenticatedUser}
use quantum_api.RateLimit.Redis.{Redis}
use quantum_api.RateLimit.Windows.{Printing}
use quantum_api.RateLimit.Limiter.{Checked, check_key, should_apply_rate_limits}
use quantum_api.Middleware.{Request, Http}
use quantum_api.Middleware.Dispatch.{
  Identity, user, api_key, Surroundings, World, is_token, limited, counted, check_user,
  check_api_key, check_quota, admit_user, admit_api_key, admit_caller,
}
use quantum_api.Middleware.Admission.{
  Allows, Recognised, nobody, by_token, by_key, Admission, address_check, counters_then,
}
use quantum_api.Middleware.Admitted.{
  Refuses, AddressPassed, UserPassed, KeyPassed, limited-Reads, counted-Ends, check_address-Ends,
  check_user-Ends, check_api_key-Ends,
}

module _ (http : Http) (r : Redis) (l : Library) (p : Printing) (u : Unicode)
    (hmac : Text → Text → ℕ) (s : Settings) (env : Surroundings (l.Key)) (request : Request)
    (id : Text) where
  open http use {Response}

  abbrev quota_check : World (r.State) (l.Key) → AuthenticatedApiKey → r.State × Checked
  quota_check w key =
      check_key r p s env.key_evaluation (p.decimal key.key_id) key.policy env.key_now w.counters

  abbrev QuotaPassed :
      World (r.State) (l.Key)
      → AuthenticatedApiKey
      → World (r.State) (l.Key)
      → List (Text × Text)
      → Type 0
  QuotaPassed w key w' headers =
      (w' ≡ record w { counters = w'.counters })
      × ((should_apply_rate_limits u s ≡ false) ⊎ Allows (quota_check w key).1)

  check_quota-on :
      (w : World (r.State) (l.Key)) (key : AuthenticatedApiKey)
      → should_apply_rate_limits u s ≡ true
      → check_quota http r l p u hmac s env key id w
        ≡ counted http r l p u hmac s env
            (λ allowed. allowed.headers)
            w
            (quota_check w key).0
            (limited http r l p u hmac s env id (quota_check w key).1)
  unfolding check_quota
  check_quota-on w key on = rw (check_quota, on)

  check_quota-Ends :
      (w : World (r.State) (l.Key)) (key : AuthenticatedApiKey)
      → Ends
          (Refuses http r l p u hmac s env)
          (QuotaPassed w key)
          (check_quota http r l p u hmac s env key id w)
  unfolding check_quota
  check_quota-Ends w key = elim (Bool-cases (should_apply_rate_limits u s)) [
    | inr off ↦ rw (check_quota, off) (refl, inl off)
    | inl on ↦ rw (check_quota-on w key on) (
        counted-Ends http r l p u hmac s env (λ allowed. allowed.headers) w (quota_check w key)
          (limited http r l p u hmac s env id (quota_check w key).1) (QuotaPassed w key)
          (limited-Reads http r l p u hmac s env id (quota_check w key).1)
          (λ answer reads allowed. (refl, inr (answer, reads, allowed))))
  ]

  module _ (w : World (r.State) (l.Key)) (agrees : Agrees w.database w.cache)
      (metrics : ((s.metrics_enabled
            && text_eq request.path s.metrics_path
            && is_production_like u s)
          ≡ false)
        ⊎ (is_token s.metrics_token (request.header s.metrics_token_header) ≡ true)) where
    -- Who is let in, in which world, with which headers.
    abbrev pub LetIn : World (r.State) (l.Key) → Identity × List (Text × Text) → Type 0
    LetIn w' (identity, _) = Admission r l p u hmac s env request w identity w'

    abbrev counted_world : World (r.State) (l.Key)
    counted_world = record w { counters = counters_then r l p u hmac s env request w }

    user-LetIn :
        (w' : World (r.State) (l.Key)) (found : AuthenticatedUser)
        → (s.auth_enabled && requires_user_jwt s request.path) ≡ true
        → (should_apply_rate_limits u s ≡ false)
          ⊎ Allows (address_check r l p u hmac s env request w).1
        → UserPassed http r l p u hmac s env request id counted_world w' found
        → LetIn w' (user found, [])
    user-LetIn w' found route within (same, verified) = record {
      metrics = metrics;
      identified = by_token route within verified;
      same_table = ap (λ (x : World (r.State) (l.Key)). x.database) same;
      agrees = subst (λ (x : World (r.State) (l.Key)). Agrees x.database x.cache) (sym same) agrees;
    }

    admit_user-Ends :
        (s.auth_enabled && requires_user_jwt s request.path) ≡ true
        → Ends
            (Refuses http r l p u hmac s env)
            LetIn
            (admit_user http r l p u hmac s env request id w)
    unfolding admit_user
    admit_user-Ends route =
        Ends-then (Refuses http r l p u hmac s env)
          (AddressPassed http r l p u hmac s env request id w) LetIn _ _
          (check_address-Ends http r l p u hmac s env request id w)
          (λ _ w' (same, within).
            subst
              (λ x. Ends (Refuses http r l p u hmac s env) LetIn (
                (check_user http r l p u hmac s env request id >>= λ found x.
                (x, ok (user found, [])))
                  x))
              (sym same)
              (Ends-then (Refuses http r l p u hmac s env)
                (UserPassed http r l p u hmac s env request id counted_world) LetIn _ _
                (check_user-Ends http r l p u hmac s env request id counted_world)
                (λ found w'' passed. user-LetIn w'' found route within passed)))

    recognised :
        {key : AuthenticatedApiKey}
        → Recognised r l p u hmac s env request counted_world key
        → Recognised r l p u hmac s env request w key
    recognised known = record {
      raw = known.raw;
      prefix = known.prefix;
      stored = known.stored;
      sent = known.sent;
      parsed = known.parsed;
      active = known.active;
      digest = known.digest;
      same = known.same;
    }

    -- The limits of a route with keys.
    abbrev Within : AuthenticatedApiKey → Type 0
    Within key =
        (should_apply_rate_limits u s ≡ false)
        ⊎ Allows (address_check r l p u hmac s env request w).1
          × Allows (quota_check counted_world key).1

    limits_hold :
        (key : AuthenticatedApiKey)
        → (should_apply_rate_limits u s ≡ false)
          ⊎ Allows (address_check r l p u hmac s env request w).1
        → (should_apply_rate_limits u s ≡ false) ⊎ Allows (quota_check counted_world key).1
        → Within key
    limits_hold key (inl off) _ = inl off
    limits_hold key (inr address) (inl off) = inl off
    limits_hold key (inr address) (inr quota) = inr (address, quota)

    key-LetIn :
        (cached w' : World (r.State) (l.Key)) (key : AuthenticatedApiKey)
        (headers : List (Text × Text))
        → (s.auth_enabled && requires_api_key s request.path) ≡ true
        → (should_apply_rate_limits u s ≡ false)
          ⊎ Allows (address_check r l p u hmac s env request w).1
        → KeyPassed http r l p u hmac s env request id counted_world cached key
        → QuotaPassed cached key w' headers
        → LetIn w' (api_key key, headers)
    key-LetIn cached w' key headers route within (cached_is, kept, known) (same, quota) = record {
      metrics = metrics;
      identified = by_key route (limits_hold key within quota_then) (recognised known);
      same_table = ap (λ (x : World (r.State) (l.Key)). x.database) from_counted;
      agrees =
          subst (λ (x : World (r.State) (l.Key)). Agrees x.database x.cache) (sym same)
            (subst (λ (x : World (r.State) (l.Key)). Agrees x.database x.cache) (sym cached_is)
              kept);
    }
      where
        quota_then :
            (should_apply_rate_limits u s ≡ false) ⊎ Allows (quota_check counted_world key).1
        quota_then =
            subst
              (λ (c : r.State).
                (should_apply_rate_limits u s ≡ false)
                ⊎ Allows
                    (check_key r p s env.key_evaluation (p.decimal key.key_id) key.policy
                      env.key_now c).1)
              (ap (λ (x : World (r.State) (l.Key)). x.counters) cached_is) quota

        from_counted : w' ≡ record counted_world { cache = cached.cache; counters = w'.counters }
        from_counted =
            same
            ∙ ap (λ (x : World (r.State) (l.Key)). record x { counters = w'.counters }) cached_is

    admit_api_key-Ends :
        (s.auth_enabled && requires_api_key s request.path) ≡ true
        → Ends
            (Refuses http r l p u hmac s env)
            LetIn
            (admit_api_key http r l p u hmac s env request id w)
    unfolding admit_api_key
    admit_api_key-Ends route =
        Ends-then (Refuses http r l p u hmac s env)
          (AddressPassed http r l p u hmac s env request id w) LetIn _ _
          (check_address-Ends http r l p u hmac s env request id w)
          (λ _ w' (same, within).
            subst
              (λ x. Ends (Refuses http r l p u hmac s env) LetIn (
                (check_api_key http r l p u hmac s env request id >>= λ key.
                check_quota http r l p u hmac s env key id >>= λ headers x.
                (x, ok (api_key key, headers)))
                  x))
              (sym same)
              (Ends-then (Refuses http r l p u hmac s env)
                (KeyPassed http r l p u hmac s env request id counted_world) LetIn _ _
                (check_api_key-Ends http r l p u hmac s env request id counted_world agrees)
                (λ key cached known.
                  Ends-then (Refuses http r l p u hmac s env) (QuotaPassed cached key) LetIn _ _
                    (check_quota-Ends cached key)
                    (λ headers w'' quota.
                      key-LetIn cached w'' key headers route within known quota))))

    pub admit_caller-Ends :
        Ends
          (Refuses http r l p u hmac s env)
          LetIn
          (admit_caller http r l p u hmac s env request id w)
    unfolding admit_caller
    admit_caller-Ends = elim (Bool-cases (s.auth_enabled && requires_user_jwt s request.path)) [
      | inl users ↦ rw (admit_caller, users) (admit_user-Ends users)
      | inr others ↦ elim (Bool-cases (s.auth_enabled && requires_api_key s request.path)) [
        | inl keys ↦ rw (admit_caller, others, keys) (admit_api_key-Ends keys)
        | inr free ↦
            rw (admit_caller, others, free)
              (record {
                metrics = metrics;
                identified = nobody others free;
                same_table = refl;
                agrees = agrees;
              })
      ]
    ]
