-- ===== src/Keys/Granted.antt =====
-- When `create_key` of src/quantum_api/key_management.py returns, and when it raises.
use quantum_api.Base.{
  ℕ, ◌≤◌, ◌<◌, ◌≡◌, refl, ◌⊎◌, inl, inr, true, false, ◌||◌, Option, none, List, [], ◌∷◌, String,
  leb, any, find, arith, Bool-cases,
}
use quantum_api.Base.Text.{Text}
use quantum_api.Config.{Settings}
use quantum_api.Keys.Format.{random_token, format_raw_key}
use quantum_api.Keys.Table.{
  ApiKeyRecord, EventType, Database, Metadata, has_id, has_prefix, get_key, record_by_prefix,
  active_count, total_count, to_metadata,
}
use quantum_api.Keys.Session.{ok, err, limit_exceeded, insert_key, ◌>>=◌, ◌>>◌, raise_if}
use quantum_api.Keys.Retire.{event_of}
use quantum_api.Keys.Create.{
  CreatedApiKey, Entropy, new_record, create_with_prefix, create_attempts, create_key,
}

-- No row has the identifier and none the prefix.
free_of_both :
    (k : ℕ) (p : Text) (rows : List ApiKeyRecord)
    → find (has_id k) rows ≡ none
    → find (has_prefix p) rows ≡ none
    → any (λ x. has_id k x || has_prefix p x) rows ≡ false
free_of_both k p [] h g = refl
free_of_both k p (r ∷ rows) h g = ground (arith, free_of_both k p rows)

module _ (s : Settings) (hmac : Text → Text → ℕ) (owner actor : ℕ) (name : Option String)
    (metadata : Metadata) (e : Entropy) (db : Database) where
  create_with_prefix-returns :
      (prefix raw_key : Text)
      → record_by_prefix prefix db ≡ none
      → get_key e.uuid db ≡ none
      → (c : CreatedApiKey) × (db' : Database) × (create_with_prefix s hmac owner actor name
            metadata prefix raw_key e.uuid e.now db
          ≡ ok (c, db'))
        × (c.metadata.key_id ≡ e.uuid)
  unfolding create_with_prefix new_record insert_key to_metadata
  create_with_prefix-returns prefix raw_key free fresh =
      let both = free_of_both e.uuid prefix db.keys fresh free in
      (
        record {
          metadata = to_metadata s (new_record s hmac owner name prefix raw_key e.uuid e.now);
          raw_key = raw_key;
        },
        record {
          keys = new_record s hmac owner name prefix raw_key e.uuid e.now ∷ db.keys;
          events = event_of e.uuid owner actor EventType.create metadata e.now ∷ db.events;
        },
        rw (both, ◌>>◌, ◌>>=◌),
        refl,
      )

  -- A user with room for one more key and one more active key gets it, with the identifier that was
  -- drawn, if that identifier and the first prefix drawn are free.
  pub create_key-returns :
      total_count owner db.keys < s.max_total_api_keys_per_user
      → active_count owner none db.keys < s.max_active_api_keys_per_user
      → record_by_prefix (random_token (e.prefix_source 5) s.api_key_prefix_length) db ≡ none
      → get_key e.uuid db ≡ none
      → (c : CreatedApiKey) × (db' : Database) × (create_key s hmac owner actor name metadata e db
          ≡ ok (c, db'))
        × (c.metadata.key_id ≡ e.uuid)
  unfolding create_key create_attempts
  create_key-returns total active free fresh =
      let t : leb s.max_total_api_keys_per_user (total_count owner db.keys) ≡ false =
        ground arith in
      let a : leb s.max_active_api_keys_per_user (active_count owner none db.keys) ≡ false =
        ground arith in
      let prefix = random_token (e.prefix_source 5) s.api_key_prefix_length in
      let secret = random_token (e.secret_source 5) s.api_key_secret_length in
      let (c, db', made, named) =
        create_with_prefix-returns prefix (format_raw_key s prefix secret) free fresh in
      (c, db', rw (t, a, free, create_key, create_attempts, ◌>>◌, ◌>>=◌, raise_if) made, named)

  -- A user with no room for another key, or for another active key, gets the limit error.
  pub create_key-refuses :
      (s.max_total_api_keys_per_user ≤ total_count owner db.keys)
        ⊎ (s.max_active_api_keys_per_user ≤ active_count owner none db.keys)
      → create_key s hmac owner actor name metadata e db ≡ err limit_exceeded
  unfolding create_key
  create_key-refuses full =
      elim (Bool-cases (leb s.max_total_api_keys_per_user (total_count owner db.keys))) [
        | inl t ↦ rw (t, create_key, ◌>>◌, ◌>>=◌, raise_if)
        | inr t ↦
            let a : leb s.max_active_api_keys_per_user (active_count owner none db.keys) ≡ true =
              ground (arith, full) in
            rw (t, a, create_key, ◌>>◌, ◌>>=◌, raise_if)
      ]
