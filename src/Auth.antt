-- ===== src/Auth.antt =====
-- ApiKeyAuthService of src/quantum_api/security.py: keys are looked up in a cache in Redis, and in
-- the key table where the cache does not know them.
pub mod Cached
use quantum_api.Base.{ℕ, Bool, Option, none, some, List, [], ◌∷◌, ◌==◌, not, if◌then◌else◌}
use quantum_api.Base.Text.{Text, Unicode, text_eq, strip, is_empty}
use quantum_api.Config.{Settings}
use quantum_api.Keys.Format.{parse_api_key_prefix}
use quantum_api.Keys.Table.{KeyPolicy, RuntimeApiKey, Database}
use quantum_api.Keys.Retire.{find_active_runtime_key_by_prefix}
use quantum_api.Keys.Create.{hash_raw_key}

pub record AuthenticatedApiKey : Type 0 where
  pub key_id : ℕ
  pub owner_user_id : ℕ
  pub key_prefix : Text
  pub policy : KeyPolicy

-- `missing_header` and so on are the failure reasons, with the prefix where one is known.
pub data Attempt : Type 0 where
  authenticated : AuthenticatedApiKey → Attempt
  missing_header invalid_format : Attempt
  unknown_prefix hash_mismatch : Text → Attempt

-- The entries by prefix, the latest first; `none` is a payload that does not load.
abbrev pub Cache : Type 0
Cache = List (Text × Option RuntimeApiKey)

abbrev pub cache_get : Text → Cache → Option RuntimeApiKey
cache_get p [] = none
cache_get p ((k, entry) ∷ rest) = if text_eq k p then entry else cache_get p rest

-- DEL: no entry of the key is left.
abbrev pub cache_delete : Text → Cache → Cache
cache_delete p [] = []
cache_delete p ((k, entry) ∷ rest) =
    let left = cache_delete p rest in if text_eq k p then left else (k, entry) ∷ left

module _ (s : Settings) where
  -- Redis is asked, and answers: `up` says whether a command of it raises no RedisError.
  abbrev pub connected : Bool → Bool
  connected up = if is_empty (strip s.redis_url) then Bool.false else up

  unfoldable pub read_cache : Bool → Text → Cache → Option RuntimeApiKey
  read_cache up prefix cache = if connected up then cache_get prefix cache else none

  unfoldable pub write_cache : Bool → RuntimeApiKey → Cache → Cache
  write_cache up key cache = if connected up then (key.key_prefix, some key) ∷ cache else cache

  unfoldable pub invalidate_key_prefix : Bool → Text → Cache → Cache
  invalidate_key_prefix up prefix cache = if connected up then cache_delete prefix cache else cache

  -- `_runtime_key_by_prefix`; `read_up` and `write_up` are for the two commands.
  unfoldable pub runtime_key_by_prefix :
      Bool → Bool → Text → Database → Cache → Cache × Option RuntimeApiKey
  unfolding read_cache write_cache
  runtime_key_by_prefix read_up write_up prefix db cache = elim (read_cache read_up prefix cache) [
    | some key ↦ (cache, some key)
    | none ↦ elim (find_active_runtime_key_by_prefix prefix db) [
      | none ↦ (cache, none)
      | some key ↦ (write_cache write_up key cache, some key)
    ]
  ]

  -- The comparison of the digests.
  unfoldable pub compare_key : (Text → Text → ℕ) → Text → Text → Option RuntimeApiKey → Attempt
  compare_key hmac raw prefix none = unknown_prefix prefix
  compare_key hmac raw prefix (some key) =
      if hash_raw_key s hmac raw == key.key_hash_sha256
      then authenticated (record {
        key_id = key.key_id;
        owner_user_id = key.owner_user_id;
        key_prefix = key.key_prefix;
        policy = key.policy;
      })
      else hash_mismatch prefix

  unfoldable pub authenticate_with_diagnostics :
      Unicode → (Text → Text → ℕ) → Bool → Bool → Option Text → Database → Cache → Cache × Attempt
  unfolding runtime_key_by_prefix compare_key
  authenticate_with_diagnostics u hmac read_up write_up none db cache = (cache, missing_header)
  authenticate_with_diagnostics u hmac read_up write_up (some raw) db cache =
      if is_empty raw
      then (cache, missing_header)
      else elim (parse_api_key_prefix u s.api_key_format_prefix (some raw)) [
        | none ↦ (cache, invalid_format)
        | some prefix ↦
            let (cache', key) = runtime_key_by_prefix read_up write_up prefix db cache in
            (cache', compare_key hmac raw prefix key)
      ]
