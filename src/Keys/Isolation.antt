-- ===== src/Keys/Isolation.antt =====
-- A user's calls do not touch another user's keys.
use quantum_api.Base.{
  ℕ, ◌≡◌, refl, ◌≢◌, ap, inl, inr, Bool, true, false, not, ◌&&◌, Option, none, some, List, [], ◌∷◌,
  arith, ◌==◌, ==_iff, find, any, select, Bool-cases,
}
use quantum_api.Base.Text.{Text}
use quantum_api.Config.{Settings}
use quantum_api.Keys.Table.{
  ApiKeyRecord, is_active, is_revoked, Database, Metadata, is_owned_by, is_revoked_of, modify_key,
  has_id, get_key,
}
use quantum_api.Keys.Session.{Result, ok, err, ◌>>=◌, ◌>>◌, raise_if}
use quantum_api.Keys.Retire.{
  revoke_key, revoke_active, delete_revoked_key, delete_rows, delete_all_revoked_keys, mark_revoked,
  id_in,
}
use quantum_api.Keys.Create.{
  CreatedApiKey, RotatedApiKey, Entropy, create_key, rotate_key, mark_rotated,
}
use quantum_api.Keys.Rows.{Update, DistinctIds, found_here}
use quantum_api.Keys.Rotated.{Rotates, rotate_key-Rotates, owned_key-cases}
use quantum_api.Keys.Capacity.{Creates, create_key-Creates}
use quantum_api.Keys.Invariant.{IsValid, found_self}
use quantum_api.Keys.Replaced.{here, keys_after_rotation}
use quantum_api.Keys.Requests.{
  KeyRequest, create, revoke, rotate, delete, delete_all, use_key, after, run_request,
}

abbrev pub owned_rows : ℕ → List ApiKeyRecord → List ApiKeyRecord
owned_rows o = select (is_owned_by o)

-- The user on whose behalf a call is made.
abbrev pub caller : KeyRequest → Option ℕ
caller (create o name m e) = some o
caller (revoke o k m now) = some o
caller (rotate o k m e) = some o
caller (delete o k) = some o
caller (delete_all o) = some o
caller (use_key k now) = none

select_absent :
    (k : ℕ) (xs : List ApiKeyRecord)
    → any (has_id k) xs ≡ false
    → select (λ x. not (has_id k x)) xs ≡ xs
select_absent k [] h = refl
select_absent k (x ∷ xs) h = ground (arith, select_absent k xs)

module _ (p : ApiKeyRecord → Bool) where
  -- A write to a row that is not selected, and stays so.
  select-modify :
      (k : ℕ) (f : Update) (xs : List ApiKeyRecord) {r : ApiKeyRecord}
      → find (has_id k) xs ≡ some r
      → p r ≡ false
      → p (f r) ≡ false
      → select p (modify_key k f xs) ≡ select p xs
  select-modify k f [] e a b = refl
  select-modify k f (x ∷ xs) {r} e a b = elim (Bool-cases (x.id == k)) [
    | inl here ↦
        let same = found_here k x xs e here in
        let was : p x ≡ false = rw same a in
        let now : p (f x) ≡ false = rw same b in rw (here, was, now)
    | inr there ↦ rw there (rw (select-modify k f xs (rw there at e) a b))
  ]

  -- The deletion of a row that is not selected.
  select-delete :
      (k : ℕ) (xs : List ApiKeyRecord) {r : ApiKeyRecord}
      → DistinctIds xs
      → find (has_id k) xs ≡ some r
      → p r ≡ false
      → select p (select (λ x. not (has_id k x)) xs) ≡ select p xs
  select-delete k [] d e a = refl
  select-delete k (x ∷ xs) d e a = elim (Bool-cases (x.id == k)) [
    | inl here ↦
        let was : p x ≡ false = rw (found_here k x xs e here) a in
        let same : x.id ≡ k = (==_iff x.id k).0 here in
        rw (here, was) (ap (select p) (select_absent k xs (rw same at d.0)))
    | inr there ↦ let rest = select-delete k xs d.1 (rw there at e) a in rw there (rw rest)
  ]

  select-select :
      (q : ApiKeyRecord → Bool) (xs : List ApiKeyRecord)
      → ((x : ApiKeyRecord) → p x ≡ true → q x ≡ true)
      → select p (select q xs) ≡ select p xs
  select-select q [] h = refl
  select-select q (x ∷ xs) h = ground (arith, h x, select-select q xs h)

-- The other user's rows are as they were.
abbrev Spares : {A : Type 0} → ℕ → Database → Result (A × Database) → Type 0
Spares other db r = owned_rows other (after db r).keys ≡ owned_rows other db.keys

module _ (s : Settings) (owner other : ℕ) (differ : owner ≢ other) where
  not_owned : (r : ApiKeyRecord) → is_owned_by owner r ≡ true → is_owned_by other r ≡ false
  not_owned r mine = ground arith

  revoke_active-Spares :
      (actor key_id : ℕ) (metadata : Metadata) (now : ℕ) (r : ApiKeyRecord) (db : Database)
      → get_key key_id db ≡ some r
      → is_owned_by owner r ≡ true
      → Spares other db (revoke_active s owner actor metadata now r db)
  unfolding revoke_active
  revoke_active-Spares actor key_id metadata now r db found mine =
      select-modify (is_owned_by other) r.id (mark_revoked now) db.keys
        (found_self key_id db.keys found) (not_owned r mine) (not_owned r mine)

  revoke_key-Spares :
      (actor key_id : ℕ) (metadata : Metadata) (now : ℕ) (db : Database)
      → Spares other db (revoke_key s owner actor key_id metadata now db)
  unfolding revoke_key
  revoke_key-Spares actor key_id metadata now db = elim (owned_key-cases owner key_id db) [
    | inl missing ↦ rw (missing, revoke_key, ◌>>◌, ◌>>=◌)
    | inr (r, found, mine, call) ↦ elim (Bool-cases (is_active r.status)) [
      | inl a ↦
          rw (call, a, revoke_key, ◌>>◌, ◌>>=◌)
            (revoke_active-Spares actor key_id metadata now r db found mine)
      | inr retired ↦ rw (call, retired, revoke_key, ◌>>◌, ◌>>=◌)
    ]
  ]

  delete_revoked_key-Spares :
      (key_id : ℕ) (db : Database)
      → DistinctIds db.keys
      → Spares other db (delete_revoked_key owner key_id db)
  unfolding delete_revoked_key
  delete_revoked_key-Spares key_id db d = elim (owned_key-cases owner key_id db) [
    | inl missing ↦ rw (missing, delete_revoked_key, ◌>>◌, ◌>>=◌, raise_if)
    | inr (r, found, mine, call) ↦ elim (Bool-cases (not (is_revoked r.status))) [
      | inl kept ↦ rw (call, kept, delete_revoked_key, ◌>>◌, ◌>>=◌, raise_if)
      | inr gone ↦
          rw (call, gone, delete_revoked_key, ◌>>◌, ◌>>=◌, raise_if)
            (select-delete (is_owned_by other) r.id db.keys d (found_self key_id db.keys found)
              (not_owned r mine))
    ]
  ]

  delete_rows-Spares :
      (rows : List ApiKeyRecord) (db : Database) → Spares other db (delete_rows owner rows db)
  unfolding delete_rows
  delete_rows-Spares [] db = refl
  delete_rows-Spares (r ∷ rows) db =
      select-select (is_owned_by other) (λ x. not (is_revoked_of owner x && id_in (r ∷ rows) x.id))
        db.keys (λ x h. ground arith)

  delete_all_revoked_keys-Spares :
      (db : Database) → Spares other db (delete_all_revoked_keys owner db)
  unfolding delete_all_revoked_keys
  delete_all_revoked_keys-Spares db = delete_rows-Spares (select (is_revoked_of owner) db.keys) db

  module _ (hmac : Text → Text → ℕ) (e : Entropy) where
    Creates-Spares :
        (db : Database) (r : Result (CreatedApiKey × Database))
        → Creates s hmac owner e db r
        → Spares other db r
    Creates-Spares db (err _) h = refl
    Creates-Spares db (ok (c, db')) (m, t, a) =
        rw (m.keys_after, not_owned m.row (ground (arith, m.owned)))

    -- The new row is skipped, and so is the old one.
    Rotates-Spares :
        (key_id : ℕ) (db : Database) (r : Result (RotatedApiKey × Database))
        → Rotates s hmac owner key_id e db r
        → Spares other db r
    Rotates-Spares key_id db (err _) t = refl
    Rotates-Spares key_id db (ok (result, db')) t =
        let made : is_owned_by other t.made.row ≡ false =
          not_owned t.made.row (ground (arith, t.made.owned)) in
        let spared =
          select-modify (is_owned_by other) t.current.id
            (mark_rotated e.rotated_at result.new_key.metadata.key_id) db.keys
            (here s hmac owner e db key_id db' result t) (not_owned t.current t.mine)
            (not_owned t.current t.mine) in
        rw (keys_after_rotation s hmac owner e db key_id db' result t, made) spared

not_other : (owner o other : ℕ) → some owner ≡ some o → o ≢ other → owner ≢ other
not_other owner o other c d = ground (arith, c)

-- A call made for one user leaves every other user's keys as they were, in every field.
pub run_request-spares_others :
    (s : Settings) (hmac : Text → Text → ℕ) (q : KeyRequest) (db : Database) (o other : ℕ)
    → IsValid s db
    → caller q ≡ some o
    → o ≢ other
    → owned_rows other (run_request s hmac q db).keys ≡ owned_rows other db.keys
unfolding run_request
run_request-spares_others s hmac (create owner name m e) db o other v c d =
    Creates-Spares s owner other (not_other owner o other c d) hmac e db
      (create_key s hmac owner owner name m e db)
      (create_key-Creates s hmac owner owner name m e db)
run_request-spares_others s hmac (revoke owner k m now) db o other v c d =
    revoke_key-Spares s owner other (not_other owner o other c d) owner k m now db
run_request-spares_others s hmac (rotate owner k m e) db o other v c d =
    Rotates-Spares s owner other (not_other owner o other c d) hmac e k db
      (rotate_key s hmac owner owner k m e db) (rotate_key-Rotates s hmac owner owner k m e db)
run_request-spares_others s hmac (delete owner k) db o other v c d =
    delete_revoked_key-Spares s owner other (not_other owner o other c d) k db v.sound.distinct
run_request-spares_others s hmac (delete_all owner) db o other v c d =
    delete_all_revoked_keys-Spares s owner other (not_other owner o other c d) db
run_request-spares_others s hmac (use_key k now) db o other v c d = cc
