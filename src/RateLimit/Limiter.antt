-- ===== src/RateLimit/Limiter.antt =====
-- RedisRateLimiter of src/quantum_api/security.py, and what src/quantum_api/middleware.py does
-- around it: the reading of its reasons, the message, the caller's address, and whether it applies.
use quantum_api.Base.{
  ℕ, ◌*◌, max, ◌++◌, Bool, List, [], ◌∷◌, if◌then◌else◌, Option, none, some, not, ◌&&◌,
}
use quantum_api.Base.Text.{Text, codes, text_eq, strip, is_empty, split_max, split, Unicode}
use quantum_api.Config.{Settings, is_development}
use quantum_api.Keys.Table.{KeyPolicy}
use quantum_api.RateLimit.Redis.{Redis}
use quantum_api.RateLimit.Script.{Window, second, minute, daily, Arguments, Reply, run_script}
use quantum_api.RateLimit.Windows.{Printing, build_window_values}

pub record RateLimitResult : Type 0 where
  pub allowed : Bool
  pub reason : Text
  pub retry_after_seconds : ℕ
  pub headers : List (Text × Text)

-- What a method of the limiter returns, or the RateLimiterUnavailableError that it raises.
pub data Checked : Type 0 where
  unavailable : Text → Checked
  checked : RateLimitResult → Checked

-- How `self._redis.eval` goes: the script runs and answers, or RedisError is raised, before the
-- script has run or after it.
pub data Evaluation : Type 0 where
  answered lost_request lost_reply : Evaluation

abbrev pub window_name : Window → Text
window_name second = codes "second"
window_name minute = codes "minute"
window_name daily = codes "daily"

-- KEYS and ARGV of one call.
unfoldable pub arguments_of : Printing → Text → Text → ℕ → ℕ → ℕ → ℕ → Arguments
arguments_of p scope identifier second_limit minute_limit day_limit now =
    let w = build_window_values p scope identifier now in
    record {
      second_key = w.second_key;
      minute_key = w.minute_key;
      day_key = w.day_key;
      second_limit = second_limit;
      minute_limit = minute_limit;
      day_limit = day_limit;
      second_ttl = w.second_ttl;
      minute_ttl = w.minute_ttl;
      day_ttl = w.day_ttl;
    }

-- The reply as `_evaluate_limit` reads it; the script's numbers are never negative.
unfoldable pub result_of : Printing → Reply → RateLimitResult
result_of p reply = record {
  allowed = reply.allowed;
  reason = window_name reply.window;
  retry_after_seconds = max reply.reset 1;
  headers =
      (codes "RateLimit-Limit", p.decimal reply.limit)
      ∷ (codes "RateLimit-Remaining", p.decimal reply.remaining)
      ∷ (codes "RateLimit-Reset", p.decimal (max reply.reset 1))
      ∷ [];
}

unfoldable pub with_scope_reason : RateLimitResult → Text → RateLimitResult
with_scope_reason result scope = record {
  allowed = result.allowed;
  reason = scope ++ codes "_" ++ result.reason;
  retry_after_seconds = result.retry_after_seconds;
  headers = result.headers;
}

unfoldable pub scoped : Text → Checked → Checked
unfolding with_scope_reason
scoped scope (unavailable why) = unavailable why
scoped scope (checked result) = checked (with_scope_reason result scope)

module _ (r : Redis) (p : Printing) (settings : Settings) where
  open r use {State}

  -- A new client is made where there is none; that changes no counter.
  unfoldable pub evaluate_limit : Evaluation → Arguments → State → State × Checked
  evaluate_limit e a s =
      let (after, reply) = run_script r s a in
      if is_empty (strip settings.redis_url)
      then (s, unavailable (codes "REDIS_URL is empty"))
      else elim e [
        | answered ↦ (after, checked (result_of p reply))
        | lost_request ↦ (s, unavailable (codes "Unable to evaluate Redis rate limit"))
        | lost_reply ↦ (after, unavailable (codes "Unable to evaluate Redis rate limit"))
      ]

  abbrev pub key_arguments : Text → KeyPolicy → ℕ → Arguments
  key_arguments key_id policy =
      arguments_of p (codes "key") key_id policy.rate_limit_per_second policy.rate_limit_per_minute
        policy.daily_quota

  abbrev pub ip_arguments : Text → ℕ → Arguments
  ip_arguments client_ip =
      arguments_of p (codes "ip") client_ip settings.ip_rate_limit_per_second
        settings.ip_rate_limit_per_minute (max (settings.ip_rate_limit_per_minute * 200) 1)

  unfoldable pub check_key : Evaluation → Text → KeyPolicy → ℕ → State → State × Checked
  check_key e key_id policy now s =
      let (after, result) = evaluate_limit e (key_arguments key_id policy now) s in
      (after, scoped (codes "key") result)

  unfoldable pub check_ip : Evaluation → Text → ℕ → State → State × Checked
  check_ip e client_ip now s =
      let (after, result) = evaluate_limit e (ip_arguments client_ip now) s in
      (after, scoped (codes "ip") result)

-- `_decode_policy_reason`
abbrev pub scope_label : Text → Text
scope_label scope =
    if text_eq scope (codes "key")
    then codes "API key"
    else if text_eq scope (codes "ip")
    then codes "IP address"
    else codes "request source"

unfoldable pub decode_policy_reason : Text → Text × Text
unfolding text_eq split_max
decode_policy_reason reason = elim (split_max b'_' 1 reason) [
  | scope ∷ window ∷ [] ↦ (scope_label scope, window)
  | _ ↦ (scope_label (codes "request source"), reason)
]

-- `_friendly_rate_limit_message`
unfoldable pub friendly_rate_limit_message : Printing → RateLimitResult → Text
unfolding decode_policy_reason text_eq
friendly_rate_limit_message p result =
    let (scope, window) = decode_policy_reason result.reason in
    let limit =
      if text_eq window (codes "daily")
      then codes "daily quota"
      else if text_eq window (codes "minute")
      then codes "per-minute limit"
      else codes "per-second limit" in
    codes "Too many requests for this "
    ++ scope
    ++ codes ": "
    ++ limit
    ++ codes " reached. Retry in "
    ++ p.decimal result.retry_after_seconds
    ++ codes " second(s)."

-- `_client_ip`: the `x-forwarded-for` header and the peer's address, where they are there.
abbrev pub first_part : List Text → Text
first_part [] = []
first_part (a ∷ _) = a

abbrev pub peer_ip : Option Text → Text
peer_ip none = codes "unknown"
peer_ip (some host) = if is_empty host then codes "unknown" else host

unfoldable pub client_ip : Option Text → Option Text → Text
client_ip none peer = peer_ip peer
client_ip (some forwarded) peer =
    if is_empty forwarded then peer_ip peer else strip (first_part (split b',' forwarded))

module _ (u : Unicode) (settings : Settings) where
  -- `_should_apply_rate_limits`
  unfoldable pub should_apply_rate_limits : Bool
  should_apply_rate_limits =
      settings.rate_limiting_enabled
      && not (is_development u settings && settings.dev_rate_limit_bypass)

  -- The RateLimiterUnavailableError of `startup_check`, or `none`; `answers` says whether PING does.
  unfoldable pub startup_check : Bool → Option Text
  startup_check answers =
      if not settings.rate_limiting_enabled
      then none
      else if is_development u settings && settings.dev_rate_limit_bypass
      then none
      else if is_empty (strip settings.redis_url)
      then some (codes "REDIS_URL is empty")
      else if answers
      then none
      else some (codes "Unable to ping Redis during startup")
