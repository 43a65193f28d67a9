-- ===== src/RateLimit/Redis.antt =====
-- What the Lua script calls of Redis, with what Redis documents of it. The state is the store at one
-- instant: a script runs to its end before any other command, and no time passes in it.
use quantum_api.Base.{ℕ, suc, ◌≤◌, ◌≡◌, Option, none, some, if◌then◌else◌}
use quantum_api.Base.Text.{Text, text_eq}

-- `current_count`: a missing counter counts as 0.
abbrev pub or_zero : Option ℕ → ℕ
or_zero none = 0
or_zero (some n) = n

-- `ttl` is `none` where the command answers with a negative number: there is no such key, or it has
-- no expiry. A positive time to live leaves a counter as it is.
pub record Redis : Type 1 where
  pub State : Type 0
  pub get : State → Text → Option ℕ
  pub ttl : State → Text → Option ℕ
  pub incr : State → Text → State
  pub expire : State → Text → ℕ → State
  pub get-incr :
      (s : State) (k j : Text)
      → get (incr s k) j ≡ (if text_eq j k then some (suc (or_zero (get s k))) else get s j)
  pub get-expire : (s : State) (k j : Text) (n : ℕ) → 1 ≤ n → get (expire s k n) j ≡ get s j
  pub ttl-incr : (s : State) (k j : Text) {t : ℕ} → ttl s j ≡ some t → ttl (incr s k) j ≡ some t
  pub ttl-expire :
      (s : State) (k j : Text) (n : ℕ) {c : ℕ}
      → 1 ≤ n
      → get s k ≡ some c
      → ttl (expire s k n) j ≡ (if text_eq j k then some n else ttl s j)
