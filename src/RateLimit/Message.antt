-- ===== src/RateLimit/Message.antt =====
-- What a refused caller is told: `_friendly_rate_limit_message` of src/quantum_api/middleware.py over
-- the reasons that RedisRateLimiter of src/quantum_api/security.py writes.
use quantum_api.Base.{ℕ, ◌≤◌, ◌++◌, ◌≡◌, ◌⊎◌, Bool, true}
use quantum_api.Base.Text.{Text, codes}
use quantum_api.Config.{Settings}
use quantum_api.RateLimit.Redis.{Redis}
use quantum_api.RateLimit.Script.{Window, second, minute, daily, Arguments, Reply, current_count}
use quantum_api.RateLimit.Windows.{Printing}
use quantum_api.RateLimit.Limiter.{Checked, unavailable, checked, friendly_rate_limit_message}

abbrev limit_text : Window → Text
limit_text second = codes "per-second limit"
limit_text minute = codes "per-minute limit"
limit_text daily = codes "daily quota"

-- The text for a caller, a window and a wait in seconds.
abbrev message : Printing → Text → Window → ℕ → Text
message p caller window wait =
    codes "Too many requests for this "
    ++ caller
    ++ codes ": "
    ++ limit_text window
    ++ codes " reached. Retry in "
    ++ p.decimal wait
    ++ codes " second(s)."

abbrev reply_of : Bool → Window → ℕ → ℕ → ℕ → Reply
reply_of allowed window limit remaining reset = record {
  allowed = allowed;
  window = window;
  limit = limit;
  remaining = remaining;
  reset = reset;
}

module _ (r : Redis) (p : Printing) (settings : Settings) where
  open r use {State}

  -- The counter of the window has no room for another call.
  abbrev pub IsFull : Arguments → State → Window → Type 0
  IsFull a s second = a.second_limit ≤ current_count r s a.second_key
  IsFull a s minute = a.minute_limit ≤ current_count r s a.minute_key
  IsFull a s daily = a.day_limit ≤ current_count r s a.day_key

  -- A result either allows the call, or its message names the caller's kind, a window that is full,
  -- and the wait of the result.
  abbrev pub Explains : Text → Arguments → State → Checked → Type 0
  Explains caller a s (unavailable why) = Unit
  Explains caller a s (checked result) =
      (result.allowed ≡ true)
      ⊎ ((window : Window) × IsFull a s window
          × (friendly_rate_limit_message p result
              ≡ message p caller window result.retry_after_seconds))
