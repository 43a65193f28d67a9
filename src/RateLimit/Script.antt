-- ===== src/RateLimit/Script.antt =====
-- `_RATE_LIMIT_LUA` of src/quantum_api/security.py, line by line.
use quantum_api.Base.{ℕ, suc, ◌+◌, ◌-◌, Bool, true, false, Option, none, some, ltb, if◌then◌else◌}
use quantum_api.Base.Text.{Text}
use quantum_api.RateLimit.Redis.{Redis, or_zero}

pub data Window : Type 0 where
  second minute daily : Window

-- KEYS and ARGV.
pub record Arguments : Type 0 where
  pub second_key : Text
  pub minute_key : Text
  pub day_key : Text
  pub second_limit : ℕ
  pub minute_limit : ℕ
  pub day_limit : ℕ
  pub second_ttl : ℕ
  pub minute_ttl : ℕ
  pub day_ttl : ℕ

pub record Reply : Type 0 where
  pub allowed : Bool
  pub window : Window
  pub limit : ℕ
  pub remaining : ℕ
  pub reset : ℕ

module _ (r : Redis) where
  open r use {State, get, ttl, incr, expire}

  -- `current_count`
  abbrev pub current_count : State → Text → ℕ
  current_count s k = or_zero (get s k)

  -- `local ttl = redis.call("TTL", key); if ttl < 0 then ttl = … end`
  abbrev ttl_or : Option ℕ → ℕ → ℕ
  ttl_or none n = n
  ttl_or (some t) n = t

  unfoldable pub reject : State → Window → Text → ℕ → ℕ → Reply
  reject s window key limit window_ttl = record {
    allowed = false;
    window = window;
    limit = limit;
    remaining = 0;
    reset = ttl_or (ttl s key) window_ttl;
  }

  -- `redis.call("INCR", key)`, and EXPIRE unless the counter has an expiry.
  unfoldable pub bump : State → Text → ℕ → State
  bump s key window_ttl = elim (ttl (incr s key) key) [
    | none ↦ expire (incr s key) key window_ttl
    | some _ ↦ incr s key
  ]

  unfoldable pub admit : State → Arguments → State
  admit s a =
      bump (bump (bump s a.second_key a.second_ttl) a.minute_key a.minute_ttl) a.day_key a.day_ttl

  -- `minute_after` is what INCR answers; `-` stops at 0, as the script does.
  unfoldable pub accept : State → Arguments → Reply
  accept s a = record {
    allowed = true;
    window = minute;
    limit = a.minute_limit;
    remaining =
        a.minute_limit - suc (current_count (bump s a.second_key a.second_ttl) a.minute_key);
    reset = a.minute_ttl;
  }

  unfoldable pub run_script : State → Arguments → State × Reply
  run_script s a =
      if ltb a.second_limit (current_count s a.second_key + 1)
      then (s, reject s second a.second_key a.second_limit a.second_ttl)
      else if ltb a.minute_limit (current_count s a.minute_key + 1)
      then (s, reject s minute a.minute_key a.minute_limit a.minute_ttl)
      else if ltb a.day_limit (current_count s a.day_key + 1)
      then (s, reject s daily a.day_key a.day_limit a.day_ttl)
      else (admit s a, accept s a)
