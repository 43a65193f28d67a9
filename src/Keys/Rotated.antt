-- ===== src/Keys/Rotated.antt =====
-- What a rotation has checked and done when it returns.
use quantum_api.Base.{
  ℕ, ◌<◌, ◌≡◌, refl, ◌⊎◌, inl, inr, true, false, not, some, ◌∷◌, arith, leb, Bool-cases,
  Option-cases,
}
use quantum_api.Base.Text.{Text}
use quantum_api.Config.{Settings}
use quantum_api.Keys.Table.{
  ApiKeyRecord, is_active, Database, AuditEvent, Metadata, EventType, is_owned_by, get_key,
  active_count, total_count, modify_key, to_metadata,
}
use quantum_api.Keys.Session.{Result, ok, err, not_found, KeyError, ◌>>=◌, ◌>>◌, raise_if}
use quantum_api.Keys.Retire.{owned_key, event_of}
use quantum_api.Keys.Create.{
  RotatedApiKey, Entropy, create_attempts, rotate_key, put_rotation, mark_rotated,
  mark_rotated_from,
}
use quantum_api.Keys.Created.{Made, Makes, create_attempts-Makes}

pub Result-cases :
    {A : Type 0} (r : Result A) → ((e : KeyError) × (r ≡ err e)) ⊎ ((a : A) × (r ≡ ok a))
Result-cases (ok a) = inr (a, refl)
Result-cases (err e) = inl (e, refl)

pub owned_key-cases :
    (owner key_id : ℕ) (db : Database)
    → (owned_key owner key_id db ≡ err not_found)
      ⊎ ((r : ApiKeyRecord) × (get_key key_id db ≡ some r)
          × (is_owned_by owner r ≡ true)
          × (owned_key owner key_id db ≡ ok (r, db)))
unfolding owned_key
owned_key-cases owner key_id db = elim (Option-cases (get_key key_id db)) [
  | inl missing ↦ inl (rw (missing, owned_key))
  | inr (r, found) ↦ elim (Bool-cases (is_owned_by owner r)) [
    | inl mine ↦ inr (r, found, mine, rw (found, owned_key, mine))
    | inr other ↦ inl (rw (found, owned_key, other))
  ]
]

pub record Rotation (s : Settings) (hmac : Text → Text → ℕ) (owner key_id : ℕ) (e : Entropy)
    (db db' : Database) (result : RotatedApiKey) : Type 0 where
  pub current : ApiKeyRecord
  pub middle : Database
  pub made : Made s hmac owner e db middle result.new_key
  pub found : get_key key_id db ≡ some current
  pub mine : is_owned_by owner current ≡ true
  pub was_active : is_active current.status ≡ true
  pub total_room : total_count owner db.keys < s.max_total_api_keys_per_user
  pub active_room : active_count owner (some current.id) db.keys < s.max_active_api_keys_per_user
  pub keys_after :
      db'.keys
      ≡ modify_key result.new_key.metadata.key_id (mark_rotated_from current.id) (
          modify_key current.id
            (mark_rotated e.rotated_at result.new_key.metadata.key_id)
            middle.keys)
  pub event : AuditEvent
  pub event_id : event.api_key_id ≡ current.id
  pub events_after : db'.events ≡ event ∷ middle.events
  pub previous :
      result.previous_metadata
      ≡ to_metadata s (mark_rotated e.rotated_at result.new_key.metadata.key_id current)

module _ (s : Settings) (hmac : Text → Text → ℕ) where
  abbrev pub Rotates : ℕ → ℕ → Entropy → Database → Result (RotatedApiKey × Database) → Type 0
  Rotates owner key_id e db (ok (c, db')) = Rotation s hmac owner key_id e db db' c
  Rotates owner key_id e db (err _) = Unit

module _ (s : Settings) (hmac : Text → Text → ℕ) (owner actor key_id : ℕ) (metadata : Metadata)
    (e : Entropy) (db : Database) where
  rotate_checked :
      (r : ApiKeyRecord)
      → get_key key_id db ≡ some r
      → is_owned_by owner r ≡ true
      → owned_key owner key_id db ≡ ok (r, db)
      → not (is_active r.status) ≡ false
      → leb s.max_total_api_keys_per_user (total_count owner db.keys) ≡ false
      → leb s.max_active_api_keys_per_user (active_count owner (some r.id) db.keys) ≡ false
      → Rotates s hmac owner key_id e db (rotate_key s hmac owner actor key_id metadata e db)
  unfolding rotate_key
  rotate_checked r found mine call a t c =
      let made = create_attempts-Makes s hmac owner actor r.name (put_rotation metadata) e 6 db in
      elim (Result-cases
        (create_attempts s hmac 6 owner actor r.name (put_rotation metadata) e db)) [
          | inl (_, failed) ↦ rw (call, a, t, c, failed, rotate_key, ◌>>◌, ◌>>=◌, raise_if) tt
          | inr ((k, db'), done) ↦
              rw (call, a, t, c, done, rotate_key, ◌>>◌, ◌>>=◌, raise_if)
                (record {
                  current = r;
                  middle = db';
                  made = rw (done, Makes) at made;
                  found = found;
                  mine = mine;
                  was_active = ground arith;
                  total_room = ground arith;
                  active_room = ground arith;
                  keys_after = refl;
                  event = event_of r.id owner actor EventType.rotate metadata e.rotated_at;
                  event_id = refl;
                  events_after = refl;
                  previous = refl;
                })
        ]

  pub rotate_key-Rotates :
      Rotates s hmac owner key_id e db (rotate_key s hmac owner actor key_id metadata e db)
  unfolding rotate_key
  rotate_key-Rotates = elim (owned_key-cases owner key_id db) [
    | inl missing ↦ rw (missing, rotate_key, ◌>>◌, ◌>>=◌, raise_if) tt
    | inr (r, found, mine, call) ↦ elim (Bool-cases (not (is_active r.status))) [
      | inl retired ↦ rw (call, retired, rotate_key, ◌>>◌, ◌>>=◌, raise_if) tt
      | inr a ↦ elim (Bool-cases (leb s.max_total_api_keys_per_user (total_count owner db.keys))) [
        | inl full ↦ rw (call, a, full, rotate_key, ◌>>◌, ◌>>=◌, raise_if) tt
        | inr t ↦
            elim (Bool-cases
              (leb s.max_active_api_keys_per_user (active_count owner (some r.id) db.keys))) [
                | inl full ↦ rw (call, a, t, full, rotate_key, ◌>>◌, ◌>>=◌, raise_if) tt
                | inr c ↦ rotate_checked r found mine call a t c
              ]
      ]
    ]
  ]
