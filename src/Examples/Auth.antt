-- ===== src/Examples/Auth.antt =====
-- A key is created, and used at once.
use quantum_api.Base.{◌≡◌, refl, none, some, true, false, [], ◌∷◌, ◌∙◌, inl, inr, Bool-cases}
use quantum_api.Base.Text.{Text, codes}
use quantum_api.Keys.Table.{KeyPolicy, RuntimeApiKey, ApiKeyRecord, Database, active}
use quantum_api.Keys.Retire.{find_active_runtime_key_by_prefix}
use quantum_api.Keys.Access.{Usable}
use quantum_api.Keys.Table.{to_runtime}
use quantum_api.Keys.Create.{hash_raw_key}
use quantum_api.Keys.Format.{parse_api_key_prefix, prefix_from_parts, is_alnum, all_alnum}
use quantum_api.Base.Text.{text_eq, text_eq_iff, split_max, split_first}
use quantum_api.Auth.{Cache, AuthenticatedApiKey, authenticated, authenticate_with_diagnostics}
use quantum_api.Auth.Cached.{
  Agrees, authenticate_with_diagnostics-Agrees, authenticate_with_diagnostics-Usable,
}
use quantum_api.Examples.Samples.{settings, ascii, weigh}

abbrev pub raw_key : Text
raw_key = codes "qapi_abcdef_0123456789abcdef"

abbrev policy : KeyPolicy
policy = record { rate_limit_per_second = 1; rate_limit_per_minute = 5; daily_quota = 50 }

abbrev row : ApiKeyRecord
row = record {
  id = 10;
  owner_user_id = 1;
  name = none;
  key_prefix = codes "abcdef";
  key_hash_sha256 = weigh [] raw_key;
  status = active;
  policy = policy;
  created_at = 100;
  revoked_at = none;
  rotated_from_id = none;
  rotated_to_id = none;
  last_used_at = none;
}

abbrev pub keys : Database
keys = record { keys = row ∷ []; events = [] }

abbrev key : RuntimeApiKey
key = record {
  key_id = 10;
  owner_user_id = 1;
  key_prefix = codes "abcdef";
  key_hash_sha256 = weigh [] raw_key;
  policy = policy;
}

abbrev pub cached : Cache
cached = (codes "abcdef", some key) ∷ []

found_key : find_active_runtime_key_by_prefix (codes "abcdef") keys ≡ some key
unfolding find_active_runtime_key_by_prefix to_runtime text_eq
found_key = refl

pub cached-Agrees : Agrees keys cached
cached-Agrees p k h = elim (Bool-cases (text_eq (codes "abcdef") p)) [
  | inl same ↦ rw (← (text_eq_iff (codes "abcdef") p).0 same) (found_key ∙ rw same at h)
  | inr other ↦ cc (rw other at h)
]

row-Usable : Usable ascii settings weigh 1 raw_key keys
unfolding parse_api_key_prefix prefix_from_parts is_alnum all_alnum text_eq split_max split_first
    find_active_runtime_key_by_prefix to_runtime hash_raw_key
row-Usable = (codes "abcdef", key, refl, refl, refl, refl)

authenticate_with_diagnostics-Agrees_example :
    let (cache', attempt) =
      authenticate_with_diagnostics settings ascii weigh true false (some raw_key) keys cached in
    Agrees keys cache'
    × (attempt
        ≡ (authenticate_with_diagnostics settings ascii weigh true false (some raw_key) keys []).1)
authenticate_with_diagnostics-Agrees_example =
    authenticate_with_diagnostics-Agrees settings keys ascii weigh true false (some raw_key) cached
      cached-Agrees

authenticate_with_diagnostics-Usable_example :
    (key : AuthenticatedApiKey) × ((authenticate_with_diagnostics settings ascii weigh true true
        (some raw_key)
        keys
        cached).1
      ≡ authenticated key)
    × (key.owner_user_id ≡ 1)
authenticate_with_diagnostics-Usable_example =
    authenticate_with_diagnostics-Usable settings keys ascii weigh true true raw_key 1 cached
      cached-Agrees row-Usable
