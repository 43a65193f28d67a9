-- ===== src/Keys/Access.antt =====
-- Which keys resolve: what a call of the lifecycle service does to the look-up by prefix, on which
-- authentication rests.
use mathlib.Core.Path.{subst}
use quantum_api.Base.{
  ℕ, ◌≤◌, ◌≡◌, refl, inl, inr, Bool, true, false, ◌&&◌, Option, none, some, List, [], ◌∷◌, arith,
  ◌==◌, String, find, any, Bool-cases,
}
use quantum_api.Base.Text.{Text, Unicode, Lacks, text_eq, text_eq_iff, text_eq_refl}
use quantum_api.Config.{Settings}
use quantum_api.Keys.Format.{random_token, parse_api_key_prefix}
use quantum_api.Keys.RoundTrip.{parse-format, random_token-IsToken, length-random_token}
use quantum_api.Keys.Table.{
  ApiKeyRecord, EventType, is_active, Database, Metadata, KeyMetadata, RuntimeApiKey, is_owned_by,
  modify_key, has_id, has_prefix, get_key, to_runtime, to_metadata, runtime_record_by_prefix,
}
use quantum_api.Keys.Session.{Result, ok, err, ◌>>=◌, ◌>>◌}
use quantum_api.Keys.Retire.{
  revoke_key, owned_key, revoke_active, mark_revoked, event_of, find_active_runtime_key_by_prefix,
}
use quantum_api.Keys.Create.{
  CreatedApiKey, RotatedApiKey, Entropy, create_key, rotate_key, mark_rotated, hash_raw_key,
}
use quantum_api.Keys.Rows.{Update, DistinctPrefixes, found_here, any_of_find}
use quantum_api.Keys.Created.{Made}
use quantum_api.Keys.Rotated.{Rotates, rotate_key-Rotates}
use quantum_api.Keys.Capacity.{Creates, create_key-Creates}
use quantum_api.Keys.Invariant.{IsSound, found_self}
use quantum_api.Keys.Replaced.{new_row, here, keys_after_rotation}

abbrev is_usable : Text → ApiKeyRecord → Bool
is_usable p x = has_prefix p x && is_active x.status

text_eq_comm : (a b : Text) → text_eq a b ≡ false → text_eq b a ≡ false
text_eq_comm a b h = elim (Bool-cases (text_eq b a)) [
  | inr differ ↦ differ
  | inl same ↦ rw ((text_eq_iff b a).0 same) (rw ((text_eq_iff b a).0 same) at h)
]

found_fails :
    (p : ApiKeyRecord → Bool) (k : ℕ) (xs : List ApiKeyRecord) {r : ApiKeyRecord}
    → find (has_id k) xs ≡ some r
    → any p xs ≡ false
    → p r ≡ false
found_fails p k [] e h = cc
found_fails p k (x ∷ xs) {r} e h = elim (Bool-cases (x.id == k)) [
  | inl at_head ↦ let same : x ≡ r = found_here k x xs e at_head in rw (← same) (ground arith)
  | inr there ↦ found_fails p k xs (rw there at e) (ground arith)
]

unusable :
    (p : Text) (xs : List ApiKeyRecord)
    → any (has_prefix p) xs ≡ false
    → find (is_usable p) xs ≡ none
unusable p [] h = refl
unusable p (x ∷ xs) h = ground (arith, unusable p xs)

unusable_cons :
    (p : Text) (y : ApiKeyRecord) (xs : List ApiKeyRecord)
    → is_active y.status ≡ false
    → find (is_usable p) xs ≡ none
    → find (is_usable p) (y ∷ xs) ≡ none
unusable_cons p y xs h rest = ground (arith, rest)

-- Once the only row with a prefix is not active, the prefix resolves to nothing.
retired_unusable :
    (k : ℕ) (f : Update) (xs : List ApiKeyRecord) {r : ApiKeyRecord}
    → DistinctPrefixes xs
    → find (has_id k) xs ≡ some r
    → is_active (f r).status ≡ false
    → find (is_usable r.key_prefix) (modify_key k f xs) ≡ none
retired_unusable k f [] d e h = cc
retired_unusable k f (x ∷ xs) {r} d e h = elim (Bool-cases (x.id == k)) [
  | inl at_head ↦
      let same : x ≡ r = found_here k x xs e at_head in
      let gone : is_active (f x).status ≡ false = rw same h in
      let rest = unusable x.key_prefix xs d.0 in
      rw at_head (
        subst (λ (t : ApiKeyRecord). find (is_usable t.key_prefix) (f x ∷ xs) ≡ none) same
          (unusable_cons x.key_prefix (f x) xs gone rest))
  | inr there ↦
      let e' = rw there at e in
      let differ =
        text_eq_comm r.key_prefix x.key_prefix
          (found_fails (has_prefix x.key_prefix) k xs e' d.0) in
      rw (there, differ) (retired_unusable k f xs d.1 e' h)
]

-- The table after the branch of `revoke_key` for an active key.
abbrev revoke_active_after : ℕ → ℕ → Metadata → ℕ → ApiKeyRecord → Database → Database
revoke_active_after owner actor metadata now r db = record {
  keys = modify_key r.id (mark_revoked now) db.keys;
  events = event_of r.id owner actor EventType.revoke metadata now ∷ db.events;
}

modify_nothing : (k : ℕ) (xs : List ApiKeyRecord) → modify_key k (λ x. x) xs ≡ xs
modify_nothing k [] = refl
modify_nothing k (x ∷ xs) = ground (arith, modify_nothing k xs)

resolves_to_none :
    (p : Text) (db : Database)
    → runtime_record_by_prefix p db ≡ none
    → find_active_runtime_key_by_prefix p db ≡ none
unfolding find_active_runtime_key_by_prefix
resolves_to_none p db h = rw (h, find_active_runtime_key_by_prefix)

resolves_to :
    (p : Text) (db : Database) (r : ApiKeyRecord)
    → runtime_record_by_prefix p db ≡ some r
    → find_active_runtime_key_by_prefix p db ≡ some (to_runtime r)
unfolding find_active_runtime_key_by_prefix
resolves_to p db r h = rw (h, find_active_runtime_key_by_prefix)

-- A row that is found and not active leaves its prefix without a usable key.
inactive_unusable :
    (k : ℕ) (xs : List ApiKeyRecord) {r : ApiKeyRecord}
    → DistinctPrefixes xs
    → find (has_id k) xs ≡ some r
    → is_active r.status ≡ false
    → find (is_usable r.key_prefix) xs ≡ none
inactive_unusable k xs {r} d e h =
    rw (modify_nothing k xs) at (retired_unusable k (λ x. x) xs d e h)

-- The owner of a key can revoke it, whatever its status: the call returns, reports a status that is
-- not active, and from then on the prefix of the key resolves to no key.
pub revoke_key-revokes :
    (s : Settings) (owner actor key_id : ℕ) (metadata : Metadata) (now : ℕ) (db : Database)
    {r : ApiKeyRecord}
    → IsSound db
    → get_key key_id db ≡ some r
    → is_owned_by owner r ≡ true
    → (m : KeyMetadata) × (db' : Database) × (revoke_key s owner actor key_id metadata now db
        ≡ ok (m, db'))
      × (is_active m.status ≡ false)
      × (find_active_runtime_key_by_prefix r.key_prefix db' ≡ none)
unfolding revoke_key revoke_active owned_key to_metadata
revoke_key-revokes s owner actor key_id metadata now db {r} v found mine =
    elim (Bool-cases (is_active r.status)) [
      | inl a ↦ (
        to_metadata s (mark_revoked now r),
        revoke_active_after owner actor metadata now r db,
        rw (found, mine, a, owned_key, ◌>>◌, ◌>>=◌),
        refl,
        resolves_to_none r.key_prefix (revoke_active_after owner actor metadata now r db) (
            retired_unusable r.id (mark_revoked now) db.keys v.prefixes
              (found_self key_id db.keys found) refl),
      )
      | inr retired ↦ (
        to_metadata s r,
        db,
        rw (found, mine, retired, owned_key, ◌>>◌, ◌>>=◌),
        retired,
        resolves_to_none r.key_prefix db
            (inactive_unusable r.id db.keys v.prefixes (found_self key_id db.keys found) retired),
      )
    ]

-- A row made by a call that creates is what its prefix resolves to.
Made-resolves :
    (s : Settings) (hmac : Text → Text → ℕ) (owner : ℕ) (e : Entropy) (db db' : Database)
    (c : CreatedApiKey) (m : Made s hmac owner e db db' c)
    → find_active_runtime_key_by_prefix m.row.key_prefix db' ≡ some (to_runtime m.row)
Made-resolves s hmac owner e db db' c m =
    resolves_to m.row.key_prefix db' m.row
      (rw m.keys_after (rw (text_eq_refl m.row.key_prefix, m.usable)))

-- The key text parses to the prefix of its row.
Made-parses :
    (u : Unicode) (s : Settings) (hmac : Text → Text → ℕ) (owner : ℕ) (e : Entropy)
    (db db' : Database) (c : CreatedApiKey) (m : Made s hmac owner e db db' c)
    → Lacks b'_' s.api_key_format_prefix
    → 4 ≤ s.api_key_prefix_length
    → 12 ≤ s.api_key_secret_length
    → parse_api_key_prefix u s.api_key_format_prefix (some c.raw_key) ≡ some m.row.key_prefix
Made-parses u s hmac owner e db db' c m plain p q =
    let n = s.api_key_prefix_length in
    let secret = random_token (e.secret_source m.attempt) s.api_key_secret_length in
    let prefix = random_token (e.prefix_source m.attempt) n in
    rw m.raw_text (
      rw m.prefix_text (
        parse-format u s prefix secret plain (random_token-IsToken (e.prefix_source m.attempt) n)
          (omega (arith, length-random_token (e.prefix_source m.attempt) n, p))
          (omega
            (arith, length-random_token (e.secret_source m.attempt) s.api_key_secret_length, q))))

-- What authentication asks of a key: its text parses to a prefix, the prefix resolves to an active
-- key of the owner, and that key's digest is the digest of the text.
abbrev pub Usable : Unicode → Settings → (Text → Text → ℕ) → ℕ → Text → Database → Type 0
Usable u s hmac owner raw db =
    (prefix : Text) × (k : RuntimeApiKey) × (parse_api_key_prefix u s.api_key_format_prefix
        (some raw)
      ≡ some prefix)
    × (find_active_runtime_key_by_prefix prefix db ≡ some k)
    × (k.key_hash_sha256 ≡ hash_raw_key s hmac raw)
    × (k.owner_user_id ≡ owner)

abbrev pub UsableAfter :
    Unicode → Settings → (Text → Text → ℕ) → ℕ → Result (CreatedApiKey × Database) → Type 0
UsableAfter u s hmac owner (ok (c, db)) = Usable u s hmac owner c.raw_key db
UsableAfter u s hmac owner (err _) = Unit

module _ (u : Unicode) (s : Settings) (hmac : Text → Text → ℕ)
    (plain : Lacks b'_' s.api_key_format_prefix) (p : 4 ≤ s.api_key_prefix_length)
    (q : 12 ≤ s.api_key_secret_length) where
  Creates-Usable :
      (owner : ℕ) (e : Entropy) (db : Database) (r : Result (CreatedApiKey × Database))
      → Creates s hmac owner e db r
      → UsableAfter u s hmac owner r
  unfolding to_runtime
  Creates-Usable owner e db (err _) h = tt
  Creates-Usable owner e db (ok (c, db')) (m, t, a) = (
    m.row.key_prefix,
    to_runtime m.row,
    Made-parses u s hmac owner e db db' c m plain p q,
    Made-resolves s hmac owner e db db' c m,
    m.digest,
    m.owned,
  )

  -- A key that `create_key` returns can be used at once: its text parses, its prefix resolves to an
  -- active key of the caller, and the digests agree. The settings must have a format prefix without
  -- an underscore, prefixes of 4 characters at least and secrets of 12.
  pub create_key-Usable :
      (owner actor : ℕ) (name : Option String) (metadata : Metadata) (e : Entropy) (db : Database)
      → UsableAfter u s hmac owner (create_key s hmac owner actor name metadata e db)
  create_key-Usable owner actor name metadata e db =
      Creates-Usable owner e db (create_key s hmac owner actor name metadata e db)
        (create_key-Creates s hmac owner actor name metadata e db)

  -- What a rotation that returns leaves: the old prefix resolves to no key, and the new key is usable.
  abbrev pub Replaces : ℕ → ℕ → Database → Result (RotatedApiKey × Database) → Type 0
  Replaces owner key_id db (ok (result, db')) =
      (old : ApiKeyRecord) × (get_key key_id db ≡ some old)
      × (find_active_runtime_key_by_prefix old.key_prefix db' ≡ none)
      × Usable u s hmac owner result.new_key.raw_key db'
  Replaces owner key_id db (err _) = Unit

  Rotates-Replaces :
      (owner key_id : ℕ) (e : Entropy) (db : Database) (r : Result (RotatedApiKey × Database))
      → IsSound db
      → Rotates s hmac owner key_id e db r
      → Replaces owner key_id db r
  unfolding to_runtime
  Rotates-Replaces owner key_id e db (err _) v t = tt
  Rotates-Replaces owner key_id e db (ok (result, db')) v t =
      let row = new_row s hmac owner e db key_id db' result t in
      let keys = keys_after_rotation s hmac owner e db key_id db' result t in
      let found = here s hmac owner e db key_id db' result t in
      let differ = text_eq_comm t.current.key_prefix t.made.row.key_prefix (
        found_fails (has_prefix t.made.row.key_prefix) t.current.id db.keys found
          (any_of_find (has_prefix t.made.row.key_prefix) db.keys t.made.fresh_prefix)) in
      (
        t.current,
        t.found,
        resolves_to_none t.current.key_prefix db' (
            rw keys (
              rw differ (
                retired_unusable t.current.id
                  (mark_rotated e.rotated_at result.new_key.metadata.key_id) db.keys v.prefixes
                  found refl))),
        (
          t.made.row.key_prefix,
          to_runtime row,
          Made-parses u s hmac owner e db t.middle result.new_key t.made plain p q,
          resolves_to t.made.row.key_prefix db' row
              (rw keys (rw (text_eq_refl t.made.row.key_prefix, t.made.usable))),
          t.made.digest,
          t.made.owned,
        ),
      )

  -- A rotation that returns replaces the key: the old one's prefix resolves to no key any more, and
  -- the new one can be used at once. The settings must have a format prefix without an underscore,
  -- prefixes of 4 characters at least and secrets of 12, and the table must be sound.
  pub rotate_key-Replaces :
      (owner actor key_id : ℕ) (metadata : Metadata) (e : Entropy) (db : Database)
      → IsSound db
      → Replaces owner key_id db (rotate_key s hmac owner actor key_id metadata e db)
  rotate_key-Replaces owner actor key_id metadata e db v =
      Rotates-Replaces owner key_id e db (rotate_key s hmac owner actor key_id metadata e db) v
        (rotate_key-Rotates s hmac owner actor key_id metadata e db)
