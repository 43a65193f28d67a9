-- ===== src/Keys/Created.antt =====
-- What the loop of six attempts has done when it returns: one new row, in front, which is active,
-- belongs to the caller and has an identifier and a prefix that no row had.
use quantum_api.Base.{
  ℕ, zero, suc, ◌≡◌, refl, inl, inr, ◌⊎◌, false, ◌||◌, Option, none, List, [], ◌∷◌, arith, String,
  any, Bool-cases, Option-cases,
}
use quantum_api.Base.Text.{Text}
use quantum_api.Config.{Settings}
use quantum_api.Keys.Format.{format_raw_key, random_token}
use quantum_api.Keys.Table.{
  ApiKeyRecord, active, Database, Metadata, AuditEvent, EventType, has_id, has_prefix,
  record_by_prefix, to_metadata,
}
use quantum_api.Keys.Session.{Result, ok, err, insert_key, ◌>>=◌, ◌>>◌, integrity_error}
use quantum_api.Keys.Retire.{event_of}
use quantum_api.Keys.Create.{
  CreatedApiKey, Entropy, create_with_prefix, create_attempts, new_record, hash_raw_key,
}

-- The new row and its key.
pub record Made (s : Settings) (hmac : Text → Text → ℕ) (owner : ℕ) (e : Entropy)
    (db db' : Database) (c : CreatedApiKey) : Type 0 where
  pub row : ApiKeyRecord
  pub event : AuditEvent
  pub keys_after : db'.keys ≡ row ∷ db.keys
  pub events_after : db'.events ≡ event ∷ db.events
  pub event_id : event.api_key_id ≡ row.id
  pub owned : row.owner_user_id ≡ owner
  pub usable : row.status ≡ active
  pub unrevoked : row.revoked_at ≡ none
  pub unrotated : row.rotated_to_id ≡ none
  pub uuid : row.id ≡ e.uuid
  pub key_id : c.metadata.key_id ≡ row.id
  pub digest : row.key_hash_sha256 ≡ hash_raw_key s hmac c.raw_key
  pub fresh_id : any (has_id row.id) db.keys ≡ false
  pub fresh_prefix : record_by_prefix row.key_prefix db ≡ none
  pub attempt : ℕ
  pub prefix_text : row.key_prefix ≡ random_token (e.prefix_source attempt) s.api_key_prefix_length
  pub raw_text :
      c.raw_key
      ≡ format_raw_key s row.key_prefix
          (random_token (e.secret_source attempt) s.api_key_secret_length)

module _ (s : Settings) (hmac : Text → Text → ℕ) where
  abbrev pub Makes : ℕ → Entropy → Database → Result (CreatedApiKey × Database) → Type 0
  Makes owner e db (ok (c, db')) = Made s hmac owner e db db' c
  Makes owner e db (err _) = Unit

any-has_id :
    (k : ℕ) (p : Text) (rows : List ApiKeyRecord)
    → any (λ x. has_id k x || has_prefix p x) rows ≡ false
    → any (has_id k) rows ≡ false
any-has_id k p [] h = refl
any-has_id k p (x ∷ xs) h = ground (arith, any-has_id k p xs)

insert_key-cases :
    (r : ApiKeyRecord) (db : Database)
    → (insert_key r db ≡ err integrity_error)
      ⊎ ((any (has_id r.id) db.keys ≡ false)
          × (insert_key r db ≡ ok (tt, record db { keys = r ∷ db.keys })))
unfolding insert_key
insert_key-cases r db =
    elim (Bool-cases (any (λ x. has_id r.id x || has_prefix r.key_prefix x) db.keys)) [
      | inl taken ↦ inl (rw taken)
      | inr fresh ↦ inr (any-has_id r.id r.key_prefix db.keys fresh, rw fresh)
    ]

module _ (s : Settings) (hmac : Text → Text → ℕ) (owner actor : ℕ) (name : Option String)
    (metadata : Metadata) (e : Entropy) where
  create_with_prefix-Makes :
      (n : ℕ) (db : Database)
      → let prefix = random_token (e.prefix_source n) s.api_key_prefix_length in
        let raw_key =
          format_raw_key s prefix (random_token (e.secret_source n) s.api_key_secret_length) in
        record_by_prefix prefix db ≡ none
        → Makes s hmac owner e db
            (create_with_prefix s hmac owner actor name metadata prefix raw_key e.uuid e.now db)
  unfolding create_with_prefix to_metadata
  create_with_prefix-Makes n db free =
      let prefix = random_token (e.prefix_source n) s.api_key_prefix_length in
      let raw_key =
        format_raw_key s prefix (random_token (e.secret_source n) s.api_key_secret_length) in
      let row = new_record s hmac owner name prefix raw_key e.uuid e.now in
      elim (insert_key-cases row db) [
        | inl taken ↦ rw (taken, create_with_prefix, ◌>>◌, ◌>>=◌) tt
        | inr (fresh, inserted) ↦
            rw (inserted, create_with_prefix, ◌>>◌, ◌>>=◌)
              (record {
                row = row;
                event = event_of e.uuid owner actor EventType.create metadata e.now;
                keys_after = refl;
                events_after = refl;
                event_id = refl;
                owned = refl;
                usable = refl;
                unrevoked = refl;
                unrotated = refl;
                uuid = refl;
                key_id = refl;
                digest = refl;
                fresh_id = fresh;
                fresh_prefix = free;
                attempt = n;
                prefix_text = refl;
                raw_text = refl;
              })
      ]

  pub create_attempts-Makes :
      (n : ℕ) (db : Database)
      → Makes s hmac owner e db (create_attempts s hmac n owner actor name metadata e db)
  unfolding create_attempts
  create_attempts-Makes zero db = tt
  create_attempts-Makes (suc n) db =
      elim (Option-cases
        (record_by_prefix (random_token (e.prefix_source n) s.api_key_prefix_length) db)) [
          | inl free ↦ rw (free, create_attempts) (create_with_prefix-Makes n db free)
          | inr (r, taken) ↦ rw (taken, create_attempts) (create_attempts-Makes n db)
        ]
