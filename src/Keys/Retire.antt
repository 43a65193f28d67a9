-- ===== src/Keys/Retire.antt =====
-- The operations of ApiKeyLifecycleService in src/quantum_api/key_management.py that make no key:
-- queries, revocation, deletion and the mark of use.
use quantum_api.Base.{
  ℕ, Bool, not, ◌&&◌, Option, none, some, List, [], ◌∷◌, ◌==◌, if◌then◌else◌, any, select, length,
  map,
}
use quantum_api.Base.Text.{Text}
use quantum_api.Config.{Settings}
use quantum_api.Keys.Table.{
  revoked, is_active, is_revoked, ApiKeyRecord, EventType, revoke, Metadata, AuditEvent, Database,
  RuntimeApiKey, KeyMetadata, to_runtime, to_metadata, is_owned_by, is_revoked_of, has_id, get_key,
  runtime_record_by_prefix, modify_key, newest_first,
}
use quantum_api.Keys.Session.{
  ok, err, Session, ◌>>=◌, ◌>>◌, pure, raise_if, modify, add_event, not_found, delete_conflict,
}

abbrev pub event_of : ℕ → ℕ → ℕ → EventType → Metadata → ℕ → AuditEvent
event_of key_id owner actor kind metadata now = record {
  api_key_id = key_id;
  owner_user_id = owner;
  actor_user_id = actor;
  event_type = kind;
  event_metadata = metadata;
  created_at = now;
}

-- A row was found, and it is the caller's.
unfoldable pub owned_key : ℕ → ℕ → Session ApiKeyRecord
owned_key owner key_id db = elim (get_key key_id db) [
  | none ↦ err not_found
  | some r ↦ if is_owned_by owner r then ok (r, db) else err not_found
]

abbrev pub mark_revoked : ℕ → ApiKeyRecord → ApiKeyRecord
mark_revoked now r = record r { status = revoked; revoked_at = some now }

module _ (s : Settings) where
  -- The branch of an active key.
  unfoldable pub revoke_active : ℕ → ℕ → Metadata → ℕ → ApiKeyRecord → Session KeyMetadata
  revoke_active owner actor metadata now r = do
    modify (λ db. record db { keys = modify_key r.id (mark_revoked now) db.keys })
    add_event (event_of r.id owner actor revoke metadata now)
    pure (to_metadata s (mark_revoked now r))

  unfoldable pub revoke_key : ℕ → ℕ → ℕ → Metadata → ℕ → Session KeyMetadata
  unfolding owned_key revoke_active
  revoke_key owner actor key_id metadata now = do
    r ← owned_key owner key_id
    if is_active r.status then revoke_active owner actor metadata now r else pure (to_metadata s r)

  unfoldable pub list_user_keys : ℕ → Database → List KeyMetadata
  unfolding newest_first
  list_user_keys owner db = map (to_metadata s) (newest_first (select (is_owned_by owner) db.keys))

unfoldable pub delete_revoked_key : ℕ → ℕ → Session ℕ
unfolding owned_key
delete_revoked_key owner key_id = do
  r ← owned_key owner key_id
  raise_if (not (is_revoked r.status)) delete_conflict
  modify (λ db. record db { events = select (λ v. not (v.api_key_id == r.id)) db.events })
  modify (λ db. record db { keys = select (λ x. not (has_id r.id x)) db.keys })
  pure r.id

abbrev pub id_in : List ApiKeyRecord → ℕ → Bool
id_in rows k = any (has_id k) rows

-- The two DELETE statements, for the rows that the SELECT found.
unfoldable pub delete_rows : ℕ → List ApiKeyRecord → Session ℕ
delete_rows owner [] db = ok (0, db)
delete_rows owner (r ∷ rows) db = ok (
  length (r ∷ rows),
  record {
    keys = select (λ x. not (is_revoked_of owner x && id_in (r ∷ rows) x.id)) db.keys;
    events = select (λ v. not (id_in (r ∷ rows) v.api_key_id)) db.events;
  },
)

unfoldable pub delete_all_revoked_keys : ℕ → Session ℕ
unfolding delete_rows
delete_all_revoked_keys owner db = delete_rows owner (select (is_revoked_of owner) db.keys) db

abbrev pub mark_used : ℕ → ApiKeyRecord → ApiKeyRecord
mark_used now r = record r { last_used_at = some now }

unfoldable pub mark_key_used : ℕ → ℕ → Session (Unit {0})
mark_key_used key_id now db = elim (get_key key_id db) [
  | none ↦ ok (tt, db)
  | some r ↦ ok (tt, record db { keys = modify_key r.id (mark_used now) db.keys })
]

unfoldable pub find_active_runtime_key_by_prefix : Text → Database → Option RuntimeApiKey
find_active_runtime_key_by_prefix p db = elim (runtime_record_by_prefix p db) [
  | none ↦ none
  | some r ↦ some (to_runtime r)
]
