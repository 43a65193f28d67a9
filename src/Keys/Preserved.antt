-- ===== src/Keys/Preserved.antt =====
-- Every call keeps the invariant of the key table.
mod Retiring
mod Making
mod Rotating
use mathlib.Core.Path.{subst}
use mathlib.Core.Bool.{false≢true}
use quantum_api.Base.{
  ℕ, ◌≤◌, ◌<◌, ◌≡◌, refl, sym, ap, ◌∙◌, inl, inr, Bool, true, false, not, ◌&&◌, Option, none, some,
  List, [], ◌∷◌, arith, ◌==◌, ==_iff, String, find, any, count, select, is_some, All, Bool-cases,
  Option-cases, ==_refl, if◌then◌else◌, leb, length,
}
use quantum_api.Base.Text.{Text}
use quantum_api.Config.{Settings}
use quantum_api.Keys.Table.{
  ApiKeyRecord, KeyStatus, active, revoked, rotated, is_active, is_revoked, Database, Metadata,
  AuditEvent, EventType, is_active_of, is_owned_by, is_excluded, is_revoked_of, active_count,
  total_count, modify_key, has_id, get_key,
}
use quantum_api.Keys.Session.{Result, ok, err, ◌>>=◌, ◌>>◌, raise_if}
use quantum_api.Keys.Retire.{
  owned_key, revoke_key, revoke_active, delete_revoked_key, delete_rows, delete_all_revoked_keys,
  mark_key_used, mark_revoked, mark_used, event_of, id_in,
}
use quantum_api.Keys.Create.{
  CreatedApiKey, RotatedApiKey, Entropy, create_key, rotate_key, mark_rotated, mark_rotated_from,
}
use quantum_api.Keys.Rows.{
  DistinctIds, active_count-excluding, count-modify_retire, any-modify, count-modify-le, All-select,
  All-select_map, any-select_kept, found_here,
}
use quantum_api.Keys.Created.{Made}
use quantum_api.Keys.Rotated.{Rotation, Rotates, rotate_key-Rotates, owned_key-cases}
use quantum_api.Keys.Capacity.{
  WithinCapacity, cons-WithinCapacity, select-WithinCapacity, create_key-Creates, Creates,
}
use quantum_api.Keys.Invariant.{
  IsValid, RowFits, Audits, Retires, IsSound, modify-IsSound, modify-IsValid, event-IsSound,
  found_fits, found_id, found_any, found_self, All-map,
}
use quantum_api.Keys.Requests.{
  KeyRequest, create, revoke, rotate, delete, delete_all, use_key, after, empty_database,
  run_request, run_requests,
}
use Retiring.{
  Keeps, revoke_key-IsValid, mark_key_used-IsValid, delete_revoked_key-IsValid,
  delete_all_revoked_keys-IsValid,
}
use Making.{Creates-IsValid}
use Rotating.{Rotates-IsValid}

module _ (s : Settings) (hmac : Text → Text → ℕ) where
  -- Whatever a call of a key route does, and whether it returns or raises, it keeps the invariant.
  pub run_request-IsValid :
      (q : KeyRequest) (db : Database) → IsValid s db → IsValid s (run_request s hmac q db)
  unfolding run_request
  run_request-IsValid (create o name m e) db =
      Creates-IsValid s hmac o e db (create_key s hmac o o name m e db)
        (create_key-Creates s hmac o o name m e db)
  run_request-IsValid (revoke o k m now) db = revoke_key-IsValid s o o k m now db
  run_request-IsValid (rotate o k m e) db =
      Rotates-IsValid s hmac o k e db (rotate_key s hmac o o k m e db)
        (rotate_key-Rotates s hmac o o k m e db)
  run_request-IsValid (delete o k) db = delete_revoked_key-IsValid s o k db
  run_request-IsValid (delete_all o) db = delete_all_revoked_keys-IsValid s o db
  run_request-IsValid (use_key k now) db = mark_key_used-IsValid s k now db

  run_requests-IsValid :
      (qs : List KeyRequest) (db : Database) → IsValid s db → IsValid s (run_requests s hmac qs db)
  unfolding run_requests
  run_requests-IsValid [] db v = v
  run_requests-IsValid (q ∷ qs) db v =
      run_requests-IsValid qs (run_request s hmac q db) (run_request-IsValid q db v)

  pub empty_database-IsValid : IsValid s empty_database
  empty_database-IsValid = record {
    within = record { active = λ o. omega arith; total = λ o. omega arith };
    sound = record { distinct = tt; prefixes = tt; rows = tt; audited = tt };
  }

  -- Starting with no keys, after any calls: no user has more active keys or more keys than the
  -- settings allow, identifiers are distinct, every row's times and links fit its status, and every
  -- audit event names a key that is there.
  pub reachable-IsValid : (qs : List KeyRequest) → IsValid s (run_requests s hmac qs empty_database)
  reachable-IsValid qs = run_requests-IsValid qs empty_database empty_database-IsValid
