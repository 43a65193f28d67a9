-- ===== src/RateLimit/Enforced.antt =====
-- What the methods of the limiter promise: src/quantum_api/security.py, RedisRateLimiter.
use quantum_api.Base.{
  ℕ, max, ◌*◌, ◌≤◌, ◌≡◌, refl, ◌≢◌, ◌⊎◌, inl, inr, true, false, arith, Bool-cases,
}
use quantum_api.Base.Text.{Text, codes, text_eq, strip, is_empty}
use quantum_api.Config.{Settings}
use quantum_api.Keys.Table.{KeyPolicy}
use quantum_api.RateLimit.Redis.{Redis}
use quantum_api.RateLimit.Script.{Arguments}
use quantum_api.RateLimit.Counters.{IsProper, HasRoom, Counted, run_script-decides}
use quantum_api.RateLimit.Windows.{lifetime, Printing, build_window_values, second_minute-differ}
use quantum_api.RateLimit.Separate.{Separate, Disjoint, arguments_of-Separate, key_ip-Disjoint}
use quantum_api.RateLimit.Limiter.{
  Checked, unavailable, checked, Evaluation, answered, lost_request, lost_reply, arguments_of,
  result_of, with_scope_reason, scoped, evaluate_limit, check_key, check_ip, key_arguments,
  ip_arguments,
}

-- The three counters of one call are different keys with a lifetime of a second at least.
pub arguments_of-IsProper :
    (p : Printing) (scope identifier : Text) (x y z now : ℕ)
    → IsProper (arguments_of p scope identifier x y z now)
unfolding arguments_of build_window_values text_eq lifetime
arguments_of-IsProper p scope identifier x y z now =
    let (sm, ms) = second_minute-differ p scope identifier now in
    record {
      second_minute = sm;
      minute_second = ms;
      second_day = refl;
      day_second = refl;
      minute_day = refl;
      day_minute = refl;
      second_lives = omega arith;
      minute_lives = omega arith;
      day_lives = omega arith;
    }

-- The limits that a call is judged by.
abbrev pub Limits : ℕ → ℕ → ℕ → Arguments → Type 0
Limits a_second a_minute a_day a =
    (a.second_limit ≡ a_second) × (a.minute_limit ≡ a_minute) × (a.day_limit ≡ a_day)

arguments_of-Limits :
    (p : Printing) (scope identifier : Text) (x y z now : ℕ)
    → Limits x y z (arguments_of p scope identifier x y z now)
unfolding arguments_of
arguments_of-Limits p scope identifier x y z now = (refl, refl, refl)

module _ (r : Redis) (p : Printing) (settings : Settings) where
  open r use {State}

  -- The limiter's answer to one call: a result says truly whether all three windows had room, and the
  -- call was counted in each if and only if it was allowed; without a result, Redis was not set up or
  -- gave no answer.
  abbrev pub Judges : Evaluation → (a : Arguments) → IsProper a → State → State × Checked → Type 0
  Judges e a proper s (s', unavailable why) =
      (is_empty (strip settings.redis_url) ≡ true) ⊎ (e ≢ answered)
  Judges e a proper s (s', checked result) =
      (e ≡ answered)
      × (1 ≤ result.retry_after_seconds)
      × ((result.allowed ≡ true) × HasRoom r a proper s × Counted r a proper s s'
          ⊎ (result.allowed ≡ false) × (¬ HasRoom r a proper s) × (s' ≡ s))

  evaluate_limit-Judges :
      (e : Evaluation) (a : Arguments) (proper : IsProper a) (s : State) (scope : Text)
      → let (s', result) = evaluate_limit r p settings e a s in
        Judges e a proper s (s', scoped scope result)
  unfolding evaluate_limit scoped with_scope_reason result_of
  evaluate_limit-Judges answered a proper s scope =
      elim (Bool-cases (is_empty (strip settings.redis_url))) [
        | inl blank ↦ rw blank (inl blank)
        | inr set ↦ rw set (refl, omega arith, run_script-decides r a proper s)
      ]
  evaluate_limit-Judges lost_request a proper s scope =
      elim (Bool-cases (is_empty (strip settings.redis_url))) [
        | inl blank ↦ rw blank (inl blank)
        | inr set ↦ rw set (inr (λ h. cc h))
      ]
  evaluate_limit-Judges lost_reply a proper s scope =
      elim (Bool-cases (is_empty (strip settings.redis_url))) [
        | inl blank ↦ rw blank (inl blank)
        | inr set ↦ rw set (inr (λ h. cc h))
      ]

  -- `check_key`, whatever becomes of the call to Redis: if it returns a result, Redis answered, the
  -- wait it asks for is at least a second, and it allows the call exactly where the key's counters of
  -- this second, minute and day all are under the limits of its policy. An allowed call adds one to
  -- each of the three and touches no other counter; a refused one touches none. It returns no
  -- result only if REDIS_URL is blank or Redis did not answer. The three counters are the key's own:
  -- a call for a key, at whatever instant, has the second's, the minute's or the day's counter in
  -- common if and only if it is the same key in the same second, minute or day, it has no counter of
  -- another kind in common, and a call for an address has none.
  pub check_key-Judges :
      (e : Evaluation) (key_id : Text) (policy : KeyPolicy) (now : ℕ) (s : State)
      (other address : Text) (other_policy : KeyPolicy) (later : ℕ)
      → Judges e
          (key_arguments r p settings key_id policy now)
          (arguments_of-IsProper p
            (codes "key")
            key_id
            policy.rate_limit_per_second
            policy.rate_limit_per_minute
            policy.daily_quota
            now)
          s
          (check_key r p settings e key_id policy now s)
        × Limits policy.rate_limit_per_second policy.rate_limit_per_minute policy.daily_quota
            (key_arguments r p settings key_id policy now)
        × Separate key_id other now later
            (key_arguments r p settings key_id policy now)
            (key_arguments r p settings other other_policy later)
        × Disjoint
            (key_arguments r p settings key_id policy now)
            (ip_arguments r p settings address later)
  unfolding check_key
  check_key-Judges e key_id policy now s other address other_policy later = (
    evaluate_limit-Judges e (key_arguments r p settings key_id policy now)
        (arguments_of-IsProper p (codes "key") key_id policy.rate_limit_per_second
          policy.rate_limit_per_minute policy.daily_quota now)
        s (codes "key"),
    arguments_of-Limits p (codes "key") key_id _ _ _ now,
    arguments_of-Separate p (codes "key") key_id other _ _ _ _ _ _ now later,
    key_ip-Disjoint p key_id address _ _ _ _ _ _ now later,
  )

  -- `check_ip` in the same way, with the limits of the settings and 200 times the minute's limit, at
  -- least 1, for the day: the counters are those of the address, in the same sense.
  pub check_ip-Judges :
      (e : Evaluation) (client_ip : Text) (now : ℕ) (s : State) (other key_id : Text)
      (policy : KeyPolicy) (later : ℕ)
      → Judges e
          (ip_arguments r p settings client_ip now)
          (arguments_of-IsProper p
            (codes "ip")
            client_ip
            settings.ip_rate_limit_per_second
            settings.ip_rate_limit_per_minute
            (max (settings.ip_rate_limit_per_minute * 200) 1)
            now)
          s
          (check_ip r p settings e client_ip now s)
        × Limits settings.ip_rate_limit_per_second settings.ip_rate_limit_per_minute
            (max (settings.ip_rate_limit_per_minute * 200) 1)
            (ip_arguments r p settings client_ip now)
        × Separate client_ip other now later
            (ip_arguments r p settings client_ip now)
            (ip_arguments r p settings other later)
        × Disjoint
            (key_arguments r p settings key_id policy later)
            (ip_arguments r p settings client_ip now)
  unfolding check_ip
  check_ip-Judges e client_ip now s other key_id policy later = (
    evaluate_limit-Judges e (ip_arguments r p settings client_ip now)
        (arguments_of-IsProper p (codes "ip") client_ip settings.ip_rate_limit_per_second
          settings.ip_rate_limit_per_minute (max (settings.ip_rate_limit_per_minute * 200) 1) now)
        s (codes "ip"),
    arguments_of-Limits p (codes "ip") client_ip _ _ _ now,
    arguments_of-Separate p (codes "ip") client_ip other _ _ _ _ _ _ now later,
    key_ip-Disjoint p key_id client_ip _ _ _ _ _ _ later now,
  )
