-- ===== src/Keys/Capacity.antt =====
-- The limits on a user's keys: the counts of active keys and of all keys stay at or below the
-- settings, whatever the calls.
use quantum_api.Base.{
  ℕ, ◌≤◌, ◌<◌, ◌≡◌, inl, inr, Bool, true, false, not, ◌&&◌, Option, none, List, ◌∷◌, arith, String,
  select, leb, Bool-cases,
}
use quantum_api.Base.Text.{Text}
use quantum_api.Config.{Settings}
use quantum_api.Keys.Table.{
  ApiKeyRecord, is_active, Database, Metadata, is_active_of, is_owned_by, is_excluded, active_count,
  total_count, modify_key,
}
use quantum_api.Keys.Session.{Result, ok, err, ◌>>=◌, ◌>>◌, raise_if}
use quantum_api.Keys.Create.{CreatedApiKey, Entropy, create_attempts, create_key}
use quantum_api.Keys.Created.{Made, Makes, create_attempts-Makes}
use quantum_api.Keys.Rows.{count-select-le, count-modify-le}

pub record WithinCapacity (s : Settings) (keys : List ApiKeyRecord) : Type 0 where
  pub active : (o : ℕ) → active_count o none keys ≤ s.max_active_api_keys_per_user
  pub total : (o : ℕ) → total_count o keys ≤ s.max_total_api_keys_per_user

-- One more active key of a user who has room for it.
pub cons-WithinCapacity :
    (s : Settings) (r : ApiKeyRecord) (keys : List ApiKeyRecord)
    → WithinCapacity s keys
    → active_count r.owner_user_id none keys < s.max_active_api_keys_per_user
    → total_count r.owner_user_id keys < s.max_total_api_keys_per_user
    → WithinCapacity s (r ∷ keys)
cons-WithinCapacity s r keys w a t = record {
  active = λ o. ground (arith, w.active o);
  total = λ o. ground (arith, w.total o);
}

-- A write that moves no row to an owner, and makes none active, leaves the counts within the limits.
pub modify-WithinCapacity :
    (s : Settings) (k : ℕ) (f : ApiKeyRecord → ApiKeyRecord) (keys : List ApiKeyRecord)
    → ((r : ApiKeyRecord) → (f r).owner_user_id ≡ r.owner_user_id)
    → ((r : ApiKeyRecord) → is_active (f r).status ≡ true → is_active r.status ≡ true)
    → WithinCapacity s keys
    → WithinCapacity s (modify_key k f keys)
modify-WithinCapacity s k f keys same retires w = record {
  active = λ o. omega (
    arith,
    w.active o,
    count-modify-le (λ r. is_active_of o r && not (is_excluded none r)) k f keys
        (λ r h. ground (arith, same r, retires r)),
  );
  total = λ o.
      omega (
        arith,
        w.total o,
        count-modify-le (is_owned_by o) k f keys (λ r h. ground (arith, same r)),
      );
}

pub select-WithinCapacity :
    (s : Settings) (q : ApiKeyRecord → Bool) (keys : List ApiKeyRecord)
    → WithinCapacity s keys
    → WithinCapacity s (select q keys)
select-WithinCapacity s q keys w = record {
  active = λ o. omega (
    arith,
    w.active o,
    count-select-le (λ r. is_active_of o r && not (is_excluded none r)) q keys,
  );
  total = λ o. omega (arith, w.total o, count-select-le (is_owned_by o) q keys);
}

module _ (s : Settings) (hmac : Text → Text → ℕ) where
  -- What a call that creates has checked, and done.
  abbrev pub Creates : ℕ → Entropy → Database → Result (CreatedApiKey × Database) → Type 0
  Creates owner e db (ok (c, db')) =
      Made s hmac owner e db db' c
      × (total_count owner db.keys < s.max_total_api_keys_per_user)
      × (active_count owner none db.keys < s.max_active_api_keys_per_user)
  Creates owner e db (err _) = Unit

  Creates-room :
      (owner : ℕ) (e : Entropy) (db : Database) (r : Result (CreatedApiKey × Database))
      → Makes s hmac owner e db r
      → leb s.max_total_api_keys_per_user (total_count owner db.keys) ≡ false
      → leb s.max_active_api_keys_per_user (active_count owner none db.keys) ≡ false
      → Creates owner e db r
  Creates-room owner e db (ok (c, db')) m t a = (m, ground arith, ground arith)
  Creates-room owner e db (err _) m t a = tt

  pub create_key-Creates :
      (owner actor : ℕ) (name : Option String) (metadata : Metadata) (e : Entropy) (db : Database)
      → Creates owner e db (create_key s hmac owner actor name metadata e db)
  unfolding create_key
  create_key-Creates owner actor name metadata e db =
      elim (Bool-cases (leb s.max_total_api_keys_per_user (total_count owner db.keys))) [
        | inl full ↦ rw (full, create_key, ◌>>◌, ◌>>=◌, raise_if) tt
        | inr t ↦
            elim (Bool-cases
              (leb s.max_active_api_keys_per_user (active_count owner none db.keys))) [
                | inl full ↦ rw (t, full, create_key, ◌>>◌, ◌>>=◌, raise_if) tt
                | inr a ↦
                    rw (t, a, create_key, ◌>>◌, ◌>>=◌, raise_if)
                      (Creates-room owner e db
                        (create_attempts s hmac 6 owner actor name metadata e db)
                        (create_attempts-Makes s hmac owner actor name metadata e 6 db) t a)
              ]
      ]
