-- ===== src/Keys/Create.antt =====
-- The operations of ApiKeyLifecycleService that make keys, in src/quantum_api/key_management.py.
-- Python's `hmac.new(secret, key, sha256)` is the parameter `hmac`; the random source, the new UUID
-- and the clock come in an `Entropy`: `now` is read for the new row, `rotated_at` by `rotate_key` after
-- it. An attempt of the loop has its own randomness.
use text.Mathlib.Text.{◌==◌ as str_eq}
use quantum_api.Base.{
  ℕ, zero, suc, true, not, ◌||◌, Option, none, some, [], ◌∷◌, String, leb, if◌then◌else◌,
}
use quantum_api.Base.Text.{Text, Unicode, strip}
use quantum_api.Config.{Settings, is_production_like}
use quantum_api.Keys.Format.{parse_api_key_prefix, format_raw_key, random_token}
use quantum_api.Keys.Table.{
  active, rotated, is_active, ApiKeyRecord, create, rotate, flag, str, Metadata, KeyMetadata,
  to_metadata, record_by_prefix, active_count, total_count, modify_key,
}
use quantum_api.Keys.Session.{
  ok, err, Session, ◌>>=◌, ◌>>◌, pure, raise_if, modify, insert_key, add_event, limit_exceeded,
  value_error, runtime_error,
}
use quantum_api.Keys.Retire.{event_of, owned_key}

pub record CreatedApiKey : Type 0 where
  pub metadata : KeyMetadata
  pub raw_key : Text

pub record RotatedApiKey : Type 0 where
  pub previous_metadata : KeyMetadata
  pub new_key : CreatedApiKey

pub record Entropy : Type 0 where
  pub prefix_source : ℕ → ℕ → ℕ
  pub secret_source : ℕ → ℕ → ℕ
  pub uuid : ℕ
  pub now : ℕ
  pub rotated_at : ℕ

-- `{**metadata, "rotation": True}`
unfoldable pub put_rotation : Metadata → Metadata
put_rotation [] = ("rotation", flag true) ∷ []
put_rotation ((k, v) ∷ m) =
    if str_eq k "rotation" then (k, flag true) ∷ m else (k, v) ∷ put_rotation m

abbrev pub mark_rotated : ℕ → ℕ → ApiKeyRecord → ApiKeyRecord
mark_rotated now new_id r = record r {
  status = rotated;
  revoked_at = some now;
  rotated_to_id = some new_id;
}

abbrev pub mark_rotated_from : ℕ → ApiKeyRecord → ApiKeyRecord
mark_rotated_from old_id r = record r { rotated_from_id = some old_id }

module _ (s : Settings) where
  -- `_assert_active_key_capacity`
  unfoldable pub assert_active_key_capacity : ℕ → Option ℕ → Session (Unit {0})
  assert_active_key_capacity owner excluding db =
      raise_if (leb s.max_active_api_keys_per_user (active_count owner excluding db.keys))
        limit_exceeded db

  -- `_assert_total_key_capacity`
  unfoldable pub assert_total_key_capacity : ℕ → Session (Unit {0})
  assert_total_key_capacity owner db =
      raise_if (leb s.max_total_api_keys_per_user (total_count owner db.keys)) limit_exceeded db

module _ (s : Settings) (hmac : Text → Text → ℕ) where
  unfoldable pub hash_raw_key : Text → ℕ
  hash_raw_key raw = hmac s.api_key_hash_secret raw

  -- The row that both creating methods and the bootstrap build.
  unfoldable pub new_record : ℕ → Option String → Text → Text → ℕ → ℕ → ApiKeyRecord
  unfolding hash_raw_key
  new_record owner name prefix raw_key uuid now = record {
    id = uuid;
    owner_user_id = owner;
    name = name;
    key_prefix = prefix;
    key_hash_sha256 = hash_raw_key raw_key;
    status = active;
    policy = record {
      rate_limit_per_second = s.default_key_rate_limit_per_second;
      rate_limit_per_minute = s.default_key_rate_limit_per_minute;
      daily_quota = s.default_key_daily_quota;
    };
    created_at = now;
    revoked_at = none;
    rotated_from_id = none;
    rotated_to_id = none;
    last_used_at = none;
  }

  -- What an attempt does once its prefix is free.
  unfoldable pub create_with_prefix :
      ℕ → ℕ → Option String → Metadata → Text → Text → ℕ → ℕ → Session CreatedApiKey
  unfolding new_record
  create_with_prefix owner actor name metadata prefix raw_key uuid now = do
    let r = new_record owner name prefix raw_key uuid now
    insert_key r
    add_event (event_of uuid owner actor create metadata now)
    pure (record { metadata = to_metadata s r; raw_key = raw_key })

  -- `_create_key_inside_session`: so many attempts are left.
  unfoldable pub create_attempts :
      ℕ → ℕ → ℕ → Option String → Metadata → Entropy → Session CreatedApiKey
  unfolding create_with_prefix
  create_attempts zero owner actor name metadata e db = err runtime_error
  create_attempts (suc n) owner actor name metadata e db =
      let prefix = random_token (e.prefix_source n) s.api_key_prefix_length in
      let raw_key =
        format_raw_key s prefix (random_token (e.secret_source n) s.api_key_secret_length) in
      elim (record_by_prefix prefix db) [
        | some _ ↦ create_attempts n owner actor name metadata e db
        | none ↦ create_with_prefix owner actor name metadata prefix raw_key e.uuid e.now db
      ]

  unfoldable pub create_key : ℕ → ℕ → Option String → Metadata → Entropy → Session CreatedApiKey
  unfolding assert_total_key_capacity assert_active_key_capacity
  create_key owner actor name metadata e = do
    assert_total_key_capacity s owner
    assert_active_key_capacity s owner none
    create_attempts 6 owner actor name metadata e

  unfoldable pub rotate_key : ℕ → ℕ → ℕ → Metadata → Entropy → Session RotatedApiKey
  unfolding assert_total_key_capacity assert_active_key_capacity
  rotate_key owner actor key_id metadata e = do
    current ← owned_key owner key_id
    raise_if (not (is_active current.status)) value_error
    assert_total_key_capacity s owner
    assert_active_key_capacity s owner (some current.id)
    created ← create_attempts 6 owner actor current.name (put_rotation metadata) e
    let new_id = created.metadata.key_id
    modify (λ db. record db {
      keys = modify_key current.id (mark_rotated e.rotated_at new_id) db.keys;
    })
    modify (λ db. record db { keys = modify_key new_id (mark_rotated_from current.id) db.keys })
    add_event (event_of current.id owner actor rotate metadata e.rotated_at)
    pure (record {
      previous_metadata = to_metadata s (mark_rotated e.rotated_at new_id current);
      new_key = created;
    })

  unfoldable pub seed_bootstrap_key : Text → String → Text → ℕ → ℕ → Session (Unit {0})
  unfolding new_record
  seed_bootstrap_key raw_key name prefix uuid now = do
    insert_key (new_record s.dev_bootstrap_owner_id (some name) prefix raw_key uuid now)
    add_event (
        event_of uuid s.dev_bootstrap_owner_id s.dev_bootstrap_owner_id create
          (("source", str "dev_bootstrap") ∷ []) now)

  -- Seeds the development key, unless it is switched off, malformed or there already.
  unfoldable pub ensure_dev_bootstrap_key : Unicode → ℕ → ℕ → Session (Unit {0})
  unfolding seed_bootstrap_key
  ensure_dev_bootstrap_key u uuid now db =
      let raw_key = strip s.dev_bootstrap_api_key in
      if not s.dev_bootstrap_api_key_enabled || is_production_like u s
      then ok (tt, db)
      else elim (parse_api_key_prefix u s.api_key_format_prefix (some raw_key)) [
        | none ↦ ok (tt, db)
        | some prefix ↦ elim (record_by_prefix prefix db) [
          | some _ ↦ ok (tt, db)
          | none ↦ seed_bootstrap_key raw_key "bootstrap-dev-key" prefix uuid now db
        ]
      ]
