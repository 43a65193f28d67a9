-- ===== src/Auth/Cached.antt =====
-- That the cache of keys is not seen in the outcome, as long as it agrees with the key table.
use quantum_api.Base.{
  ℕ, ◌≡◌, refl, sym, ap, ◌∙◌, inl, inr, Bool, true, ◌&&◌, Option, none, some, List, [], ◌∷◌, arith,
  find, Bool-cases, Option-cases, ◌==◌, ==_iff,
}
use quantum_api.Base.Text.{Text, Unicode, text_eq, text_eq_iff, is_empty}
use quantum_api.Config.{Settings}
use quantum_api.Keys.Format.{parse_api_key_prefix}
use quantum_api.Keys.Table.{
  RuntimeApiKey, ApiKeyRecord, Database, has_prefix, is_active, to_runtime,
  runtime_record_by_prefix,
}
use quantum_api.Keys.Create.{hash_raw_key}
use quantum_api.Keys.Access.{Usable}
use quantum_api.Keys.Retire.{find_active_runtime_key_by_prefix}
use quantum_api.Auth.{
  Cache, cache_get, connected, read_cache, write_cache, runtime_key_by_prefix, compare_key,
  authenticate_with_diagnostics, authenticated, AuthenticatedApiKey,
}

-- Every entry that loads is what the key table has for its prefix.
abbrev pub Agrees : Database → Cache → Type 0
Agrees db cache =
    (p : Text) (k : RuntimeApiKey)
    → cache_get p cache ≡ some k
    → find_active_runtime_key_by_prefix p db ≡ some k

find_passes :
    (p : Text) (rows : List ApiKeyRecord) {r : ApiKeyRecord}
    → find (λ x. has_prefix p x && is_active x.status) rows ≡ some r
    → text_eq r.key_prefix p ≡ true
find_passes p [] h = cc
find_passes p (x ∷ xs) {r} h = elim (Bool-cases (has_prefix p x && is_active x.status)) [
  | inl passes ↦ let same : x ≡ r = cc (rw passes at h) in rw (← same) (ground arith)
  | inr fails ↦ find_passes p xs (rw fails at h)
]

find_active_prefix :
    (p : Text) (db : Database) (k : RuntimeApiKey)
    → find_active_runtime_key_by_prefix p db ≡ some k
    → k.key_prefix ≡ p
unfolding find_active_runtime_key_by_prefix to_runtime
find_active_prefix p db k h = elim (Option-cases (runtime_record_by_prefix p db)) [
  | inl missing ↦ cc (rw (missing, find_active_runtime_key_by_prefix) at h)
  | inr (r, found) ↦
      let same : to_runtime r ≡ k = cc (rw (found, find_active_runtime_key_by_prefix) at h) in
      sym (ap (λ (t : RuntimeApiKey). t.key_prefix) same)
      ∙ (text_eq_iff r.key_prefix p).0 (find_passes p db.keys found)
]

module _ (s : Settings) (db : Database) where
  write_cache-Agrees :
      (up : Bool) (cache : Cache) (prefix : Text) (k : RuntimeApiKey)
      → find_active_runtime_key_by_prefix prefix db ≡ some k
      → Agrees db cache
      → Agrees db (write_cache s up k cache)
  unfolding write_cache
  write_cache-Agrees up cache prefix k found agrees p k' h = elim (Bool-cases (connected s up)) [
    | inr off ↦ agrees p k' (rw (off, write_cache) at h)
    | inl on ↦ elim (Bool-cases (text_eq k.key_prefix p)) [
      | inr other ↦ agrees p k' (rw (on, write_cache, other) at h)
      | inl same ↦
          let eq : prefix ≡ p =
            sym (find_active_prefix prefix db k found) ∙ (text_eq_iff k.key_prefix p).0 same in
          rw (← eq) (found ∙ rw (on, write_cache, same) at h)
    ]
  ]

  read_cache-Agrees :
      (up : Bool) (prefix : Text) (cache : Cache) (k : RuntimeApiKey)
      → Agrees db cache
      → read_cache s up prefix cache ≡ some k
      → find_active_runtime_key_by_prefix prefix db ≡ some k
  unfolding read_cache
  read_cache-Agrees up prefix cache k agrees hit = elim (Bool-cases (connected s up)) [
    | inl on ↦ agrees prefix k (rw (on, read_cache) at hit)
    | inr off ↦ cc (rw (off, read_cache) at hit)
  ]

  pub runtime_key_by_prefix-Agrees :
      (read_up write_up : Bool) (prefix : Text) (cache : Cache)
      → Agrees db cache
      → let (cache', key) = runtime_key_by_prefix s read_up write_up prefix db cache in
        Agrees db cache' × (key ≡ find_active_runtime_key_by_prefix prefix db)
  unfolding runtime_key_by_prefix
  runtime_key_by_prefix-Agrees read_up write_up prefix cache agrees =
      elim (Option-cases (read_cache s read_up prefix cache)) [
        | inr (k, hit) ↦
            rw (hit, runtime_key_by_prefix)
              (agrees, sym (read_cache-Agrees read_up prefix cache k agrees hit))
        | inl miss ↦ elim (Option-cases (find_active_runtime_key_by_prefix prefix db)) [
          | inl missing ↦ rw (miss, runtime_key_by_prefix, missing) (agrees, refl)
          | inr (k, found) ↦
              rw (miss, runtime_key_by_prefix, found)
                (write_cache-Agrees write_up cache prefix k found agrees, refl)
        ]
      ]

  -- Authentication with a cache that agrees with the key table, whether Redis answers or not, gives
  -- what it gives with an empty cache, and leaves a cache that agrees with the table.
  pub authenticate_with_diagnostics-Agrees :
      (u : Unicode) (hmac : Text → Text → ℕ) (read_up write_up : Bool) (raw : Option Text)
      (cache : Cache)
      → Agrees db cache
      → let (cache', attempt) =
          authenticate_with_diagnostics s u hmac read_up write_up raw db cache in
        Agrees db cache'
        × (attempt ≡ (authenticate_with_diagnostics s u hmac read_up write_up raw db []).1)
  unfolding authenticate_with_diagnostics
  authenticate_with_diagnostics-Agrees u hmac read_up write_up none cache agrees = (agrees, refl)
  authenticate_with_diagnostics-Agrees u hmac read_up write_up (some raw) cache agrees =
      elim (Bool-cases (is_empty raw)) [
        | inl blank ↦ rw blank (agrees, refl)
        | inr full ↦
            elim (Option-cases (parse_api_key_prefix u s.api_key_format_prefix (some raw))) [
              | inl bad ↦ rw (full, bad) (agrees, refl)
              | inr (prefix, parsed) ↦
                  let (after, same) =
                    runtime_key_by_prefix-Agrees read_up write_up prefix cache agrees in
                  let (_, alone) =
                    runtime_key_by_prefix-Agrees read_up write_up prefix [] (λ p k h. cc h) in
                  rw (full, parsed) (after, ap (compare_key s hmac raw prefix) (same ∙ sym alone))
            ]
      ]

  -- The text of a usable key, with a cache that agrees with the key table, authenticates its owner,
  -- whether Redis answers or not.
  pub authenticate_with_diagnostics-Usable :
      (u : Unicode) (hmac : Text → Text → ℕ) (read_up write_up : Bool) (raw : Text) (owner : ℕ)
      (cache : Cache)
      → Agrees db cache
      → Usable u s hmac owner raw db
      → (key : AuthenticatedApiKey) × ((authenticate_with_diagnostics s u hmac read_up write_up
            (some raw)
            db
            cache).1
          ≡ authenticated key)
        × (key.owner_user_id ≡ owner)
  unfolding authenticate_with_diagnostics parse_api_key_prefix compare_key
  authenticate_with_diagnostics-Usable u hmac read_up write_up [] owner cache agrees
        (p, k, parsed, found, digest, mine) =
      cc parsed
  authenticate_with_diagnostics-Usable u hmac read_up write_up (c ∷ t) owner cache agrees
        (p, k, parsed, found, digest, mine) =
      let (_, same) = runtime_key_by_prefix-Agrees read_up write_up p cache agrees in
      let equal : (hash_raw_key s hmac (c ∷ t) == k.key_hash_sha256) ≡ true =
        (==_iff (hash_raw_key s hmac (c ∷ t)) k.key_hash_sha256).1 (sym digest) in
      (
        record {
          key_id = k.key_id;
          owner_user_id = k.owner_user_id;
          key_prefix = k.key_prefix;
          policy = k.policy;
        },
        rw parsed (ap (compare_key s hmac (c ∷ t) p) (same ∙ found) ∙ rw equal),
        mine,
      )
