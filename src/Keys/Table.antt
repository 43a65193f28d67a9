-- ===== src/Keys/Table.antt =====
-- The rows of ApiKeyRecordModel and ApiKeyAuditEventModel, the values made of them, and the queries
-- of src/quantum_api/key_management.py. Identifiers, owners and digests are only compared, so they
-- are naturals; an instant is the number of microseconds since the epoch.
use quantum_api.Base.{
  ℕ, Bool, true, false, not, ◌&&◌, Option, none, some, List, [], ◌∷◌, String, ◌==◌, leb,
  if◌then◌else◌, find, count,
}
use quantum_api.Base.Text.{Text, text_eq}
use quantum_api.Config.{Settings}
use quantum_api.Keys.Format.{mask_api_key}

pub data KeyStatus : Type 0 where
  active revoked rotated : KeyStatus

abbrev pub is_active : KeyStatus → Bool
is_active active = true
is_active _ = false

abbrev pub is_revoked : KeyStatus → Bool
is_revoked revoked = true
is_revoked _ = false

pub record KeyPolicy : Type 0 where
  pub rate_limit_per_second : ℕ
  pub rate_limit_per_minute : ℕ
  pub daily_quota : ℕ

pub record ApiKeyRecord : Type 0 where
  pub id : ℕ
  pub owner_user_id : ℕ
  pub name : Option String
  pub key_prefix : Text
  pub key_hash_sha256 : ℕ
  pub status : KeyStatus
  pub policy : KeyPolicy
  pub created_at : ℕ
  pub revoked_at : Option ℕ
  pub rotated_from_id : Option ℕ
  pub rotated_to_id : Option ℕ
  pub last_used_at : Option ℕ

pub data EventType : Type 0 where
  create revoke rotate : EventType

-- The JSON object of an event: texts, and the flag that a rotation adds.
pub data MetaValue : Type 0 where
  flag : Bool → MetaValue
  str : String → MetaValue

abbrev pub Metadata : Type 0
Metadata = List (String × MetaValue)

pub record AuditEvent : Type 0 where
  pub api_key_id : ℕ
  pub owner_user_id : ℕ
  pub actor_user_id : ℕ
  pub event_type : EventType
  pub event_metadata : Metadata
  pub created_at : ℕ

pub record Database : Type 0 where
  pub keys : List ApiKeyRecord
  pub events : List AuditEvent

pub record RuntimeApiKey : Type 0 where
  pub key_id : ℕ
  pub owner_user_id : ℕ
  pub key_prefix : Text
  pub key_hash_sha256 : ℕ
  pub policy : KeyPolicy

pub record KeyMetadata : Type 0 where
  pub key_id : ℕ
  pub owner_user_id : ℕ
  pub name : Option String
  pub key_prefix : Text
  pub masked_key : Text
  pub status : KeyStatus
  pub policy : KeyPolicy
  pub created_at : ℕ
  pub revoked_at : Option ℕ
  pub rotated_from_id : Option ℕ
  pub rotated_to_id : Option ℕ
  pub last_used_at : Option ℕ

-- `_to_runtime`
unfoldable pub to_runtime : ApiKeyRecord → RuntimeApiKey
to_runtime r = record {
  key_id = r.id;
  owner_user_id = r.owner_user_id;
  key_prefix = r.key_prefix;
  key_hash_sha256 = r.key_hash_sha256;
  policy = r.policy;
}

-- `_to_metadata`
unfoldable pub to_metadata : Settings → ApiKeyRecord → KeyMetadata
to_metadata s r = record {
  key_id = r.id;
  owner_user_id = r.owner_user_id;
  name = r.name;
  key_prefix = r.key_prefix;
  masked_key = mask_api_key r.key_prefix s.api_key_format_prefix;
  status = r.status;
  policy = r.policy;
  created_at = r.created_at;
  revoked_at = r.revoked_at;
  rotated_from_id = r.rotated_from_id;
  rotated_to_id = r.rotated_to_id;
  last_used_at = r.last_used_at;
}

abbrev pub has_id : ℕ → ApiKeyRecord → Bool
has_id k r = r.id == k

abbrev pub has_prefix : Text → ApiKeyRecord → Bool
has_prefix p r = text_eq r.key_prefix p

abbrev pub is_owned_by : ℕ → ApiKeyRecord → Bool
is_owned_by o r = r.owner_user_id == o

abbrev pub is_active_of : ℕ → ApiKeyRecord → Bool
is_active_of o r = (r.owner_user_id == o) && is_active r.status

abbrev pub is_revoked_of : ℕ → ApiKeyRecord → Bool
is_revoked_of o r = (r.owner_user_id == o) && is_revoked r.status

-- `session.get(ApiKeyRecordModel, key_id)`
abbrev pub get_key : ℕ → Database → Option ApiKeyRecord
get_key k db = find (has_id k) db.keys

-- `_record_by_prefix`; the column is unique, so the first row is the only one
abbrev pub record_by_prefix : Text → Database → Option ApiKeyRecord
record_by_prefix p db = find (has_prefix p) db.keys

-- `_runtime_record_by_prefix`
abbrev pub runtime_record_by_prefix : Text → Database → Option ApiKeyRecord
runtime_record_by_prefix p db = find (λ r. has_prefix p r && is_active r.status) db.keys

-- `ApiKeyRecordModel.id != excluding_key_id`, where there is one to exclude
abbrev pub is_excluded : Option ℕ → ApiKeyRecord → Bool
is_excluded none r = false
is_excluded (some k) r = r.id == k

abbrev pub active_count : ℕ → Option ℕ → List ApiKeyRecord → ℕ
active_count o excluding = count (λ r. is_active_of o r && not (is_excluded excluding r))

abbrev pub total_count : ℕ → List ApiKeyRecord → ℕ
total_count o = count (is_owned_by o)

-- A write to the object that `session.get` returned changes its row, the first with its primary key.
abbrev pub modify_key : ℕ → (ApiKeyRecord → ApiKeyRecord) → List ApiKeyRecord → List ApiKeyRecord
modify_key k f [] = []
modify_key k f (r ∷ rs) = if r.id == k then f r ∷ rs else r ∷ modify_key k f rs

-- The rows of one owner, newest first, as `list_user_keys` orders them.
unfoldable pub insert_newest : ApiKeyRecord → List ApiKeyRecord → List ApiKeyRecord
insert_newest r [] = r ∷ []
insert_newest r (x ∷ xs) =
    if leb x.created_at r.created_at then r ∷ x ∷ xs else x ∷ insert_newest r xs

unfoldable pub newest_first : List ApiKeyRecord → List ApiKeyRecord
unfolding insert_newest
newest_first [] = []
newest_first (r ∷ rs) = insert_newest r (newest_first rs)
