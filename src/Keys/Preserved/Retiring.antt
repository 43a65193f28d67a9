-- ===== src/Keys/Preserved/Retiring.antt =====
-- The calls that make no key keep the invariant.
use quantum_api.Base.{
  ℕ, ◌≡◌, refl, ap, ◌∙◌, inl, inr, Bool, true, not, ◌&&◌, some, List, [], ◌∷◌, arith, ◌==◌, ==_iff,
  select, Bool-cases, Option-cases,
}
use quantum_api.Config.{Settings}
use quantum_api.Keys.Table.{
  ApiKeyRecord, is_active, is_revoked, Database, Metadata, AuditEvent, EventType, is_revoked_of,
  modify_key, has_id, get_key,
}
use quantum_api.Keys.Session.{Result, ◌>>=◌, ◌>>◌, raise_if}
use quantum_api.Keys.Retire.{
  revoke_key, revoke_active, delete_revoked_key, delete_rows, delete_all_revoked_keys,
  mark_key_used, mark_revoked, mark_used, event_of, id_in,
}
use quantum_api.Keys.Create.{mark_rotated_from}
use quantum_api.Keys.Rows.{
  any-modify, All-select, All-select_map, any-select_kept, Distinct-select, same_id, same_prefix,
}
use quantum_api.Keys.Rotated.{owned_key-cases}
use quantum_api.Keys.Capacity.{select-WithinCapacity}
use quantum_api.Keys.Invariant.{
  IsValid, RowFits, Audits, Retires, modify-IsValid, event-IsSound, found_fits, found_any,
  found_self,
}
use quantum_api.Keys.Requests.{after}

-- What a call leaves: on an error the table is as it was.
abbrev pub Keeps : {A : Type 0} → Settings → Database → Result (A × Database) → Type 0
Keeps s db r = IsValid s db → IsValid s (after db r)

revoke-Retires : (now : ℕ) → Retires (mark_revoked now)
revoke-Retires now = record {
  keeps_id = λ r. refl;
  keeps_prefix = λ r. refl;
  keeps_owner = λ r. refl;
  retires = λ r h. cc;
}

use-Retires : (now : ℕ) → Retires (mark_used now)
use-Retires now = record {
  keeps_id = λ r. refl;
  keeps_prefix = λ r. refl;
  keeps_owner = λ r. refl;
  retires = λ r h. h;
}

from-Retires : (k : ℕ) → Retires (mark_rotated_from k)
from-Retires k = record {
  keeps_id = λ r. refl;
  keeps_prefix = λ r. refl;
  keeps_owner = λ r. refl;
  retires = λ r h. h;
}

fits_unrotated :
    (r : ApiKeyRecord) (now : ℕ)
    → RowFits r
    → is_active r.status ≡ true
    → RowFits (mark_revoked now r)
fits_unrotated r now f a = ground arith

module _ (s : Settings) where
  revoke_active-IsValid :
      (owner actor key_id : ℕ) (metadata : Metadata) (now : ℕ) (r : ApiKeyRecord) (db : Database)
      → get_key key_id db ≡ some r
      → is_active r.status ≡ true
      → Keeps s db (revoke_active s owner actor metadata now r db)
  unfolding revoke_active
  revoke_active-IsValid owner actor key_id metadata now r db found a v =
      let here = found_self key_id db.keys found in
      let db' : Database = record db { keys = modify_key r.id (mark_revoked now) db.keys } in
      let v' =
        modify-IsValid s r.id (mark_revoked now) db (revoke-Retires now) here
          (fits_unrotated r now (found_fits r.id db.keys here v.sound.rows) a) v in
      record {
        within = v'.within;
        sound =
            event-IsSound (event_of r.id owner actor EventType.revoke metadata now) db'
              (any-modify (has_id r.id) r.id (mark_revoked now) db.keys (λ x. refl)
                ∙ found_any r.id db.keys here)
              v'.sound;
      }

  pub revoke_key-IsValid :
      (owner actor key_id : ℕ) (metadata : Metadata) (now : ℕ) (db : Database)
      → Keeps s db (revoke_key s owner actor key_id metadata now db)
  unfolding revoke_key
  revoke_key-IsValid owner actor key_id metadata now db v = elim (owned_key-cases owner key_id db) [
    | inl missing ↦ rw (missing, revoke_key, ◌>>◌, ◌>>=◌) v
    | inr (r, found, mine, call) ↦ elim (Bool-cases (is_active r.status)) [
      | inl a ↦
          rw (call, a, revoke_key, ◌>>◌, ◌>>=◌)
            (revoke_active-IsValid owner actor key_id metadata now r db found a v)
      | inr retired ↦ rw (call, retired, revoke_key, ◌>>◌, ◌>>=◌) v
    ]
  ]

  pub mark_key_used-IsValid :
      (key_id now : ℕ) (db : Database) → Keeps s db (mark_key_used key_id now db)
  unfolding mark_key_used
  mark_key_used-IsValid key_id now db v = elim (Option-cases (get_key key_id db)) [
    | inl missing ↦ rw (missing, mark_key_used) v
    | inr (r, found) ↦
        let here = found_self key_id db.keys found in
        rw (found, mark_key_used)
          (modify-IsValid s r.id (mark_used now) db (use-Retires now) here
            (found_fits r.id db.keys here v.sound.rows) v)
  ]

  -- A deletion of rows together with the events that name them.
  delete-IsValid :
      (q : ApiKeyRecord → Bool) (w : AuditEvent → Bool) (db : Database)
      → ((v : AuditEvent)
          → w v ≡ true
          → (x : ApiKeyRecord) → has_id v.api_key_id x ≡ true
          → q x ≡ true)
      → IsValid s db
      → IsValid s (record { keys = select q db.keys; events = select w db.events })
  delete-IsValid q w db kept v = record {
    within = select-WithinCapacity s q db.keys v.within;
    sound = record {
      distinct = Distinct-select same_id q db.keys v.sound.distinct;
      prefixes = Distinct-select same_prefix q db.keys v.sound.prefixes;
      rows = All-select RowFits q db.keys v.sound.rows;
      audited =
          All-select_map (Audits db.keys) (Audits (select q db.keys)) w db.events
            (λ a h here. any-select_kept (has_id a.api_key_id) q db.keys (kept a h) here)
            v.sound.audited;
    };
  }

  pub delete_revoked_key-IsValid :
      (owner key_id : ℕ) (db : Database) → Keeps s db (delete_revoked_key owner key_id db)
  unfolding delete_revoked_key
  delete_revoked_key-IsValid owner key_id db v = elim (owned_key-cases owner key_id db) [
    | inl missing ↦ rw (missing, delete_revoked_key, ◌>>◌, ◌>>=◌, raise_if) v
    | inr (r, found, mine, call) ↦ elim (Bool-cases (not (is_revoked r.status))) [
      | inl kept ↦ rw (call, kept, delete_revoked_key, ◌>>◌, ◌>>=◌, raise_if) v
      | inr gone ↦
          rw (call, gone, delete_revoked_key, ◌>>◌, ◌>>=◌, raise_if)
            (delete-IsValid (λ x. not (has_id r.id x)) (λ a. not (a.api_key_id == r.id)) db
              (λ a h x e. ground arith) v)
    ]
  ]

  delete_rows-IsValid :
      (owner : ℕ) (rows : List ApiKeyRecord) (db : Database)
      → Keeps s db (delete_rows owner rows db)
  unfolding delete_rows
  delete_rows-IsValid owner [] db v = v
  delete_rows-IsValid owner (r ∷ rows) db v =
      delete-IsValid (λ x. not (is_revoked_of owner x && id_in (r ∷ rows) x.id))
        (λ a. not (id_in (r ∷ rows) a.api_key_id)) db
        (λ a h x e.
          let same : id_in (r ∷ rows) x.id ≡ id_in (r ∷ rows) a.api_key_id =
            ap (id_in (r ∷ rows)) ((==_iff x.id a.api_key_id).0 e) in
          rw same (ground (arith, h)))
        v

  pub delete_all_revoked_keys-IsValid :
      (owner : ℕ) (db : Database) → Keeps s db (delete_all_revoked_keys owner db)
  unfolding delete_all_revoked_keys
  delete_all_revoked_keys-IsValid owner db =
      delete_rows-IsValid owner (select (is_revoked_of owner) db.keys) db
