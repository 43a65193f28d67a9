-- ===== src/Profiles/Resolved.antt =====
-- A stored profile is read back: src/quantum_api/ibm_credentials.py, creation and resolution.
use quantum_api.Base.{
  ℕ, ◌≡◌, refl, sym, ◌∙◌, inl, inr, Bool, true, false, not, ◌||◌, none, some, [], ◌∷◌, arith,
  ==_refl, find, any, is_some,
}
use quantum_api.Base.Text.{Text, text_eq_refl, strip, is_empty, codes}
use quantum_api.Base.Transaction.{ok, ◌>>=◌, ◌>>◌, raise_if}
use quantum_api.Config.{Settings}
use quantum_api.Profiles.Table.{
  Profile, ResolvedCredentials, Profiles, Cipher, has_id, is_named, is_default_of, insert_profile,
}
use quantum_api.Profiles.Service.{
  NewProfile, cipher_secret, new_profile, create_profile, credentials_of, decrypt, expect,
  resolve_runtime_credentials,
}
use quantum_api.Profiles.Invariant.{
  IsSound, query-named, query-default, cleared, insert_profile-IsSound,
}
use quantum_api.Profiles.Preserved.{after_clear, clear_if-eq, after_clear-IsSound, after_clear-none}

-- Clearing defaults moves no row and renames none.
any-cleared :
    (k : ℕ) (o : ℕ) (name : Text) (owner now : ℕ) (rows : Profiles)
    → find (has_id k) rows ≡ none
    → find (is_named o name) rows ≡ none
    → any (λ x. has_id k x || is_named o name x) (cleared owner now rows) ≡ false
unfolding cleared
any-cleared k o name owner now [] h g = refl
any-cleared k o name owner now (x ∷ xs) h g = ground (arith, any-cleared k o name owner now xs)

any-free :
    (k : ℕ) (o : ℕ) (name : Text) (rows : Profiles)
    → find (has_id k) rows ≡ none
    → find (is_named o name) rows ≡ none
    → any (λ x. has_id k x || is_named o name x) rows ≡ false
any-free k o name [] h g = refl
any-free k o name (x ∷ xs) h g = ground (arith, any-free k o name xs)

free-after_clear :
    (b : Bool) (k : ℕ) (o : ℕ) (name : Text) (owner now : ℕ) (rows : Profiles)
    → find (has_id k) rows ≡ none
    → find (is_named o name) rows ≡ none
    → any (λ x. has_id k x || is_named o name x) (after_clear b owner now rows) ≡ false
free-after_clear true k o name owner now rows h g = any-cleared k o name owner now rows h g
free-after_clear false k o name owner now rows h g = any-free k o name rows h g

module _ (c : Cipher) (s : Settings)
    (set : is_empty (strip s.ibm_credential_encryption_key) ≡ false) (o : ℕ) (p : NewProfile)
    (bytes uuid now : ℕ) (rows : Profiles) (v : IsSound rows)
    (free : find (is_named o p.profile_name) rows ≡ none)
    (fresh : find (has_id uuid) rows ≡ none) where
  abbrev pub becomes_default : Bool
  becomes_default = p.is_default || not (is_some (find (is_default_of o) rows))

  abbrev pub stored : Profile
  stored =
      new_profile c s o p becomes_default (strip s.ibm_credential_encryption_key) bytes uuid now

  abbrev pub rows_after : Profiles
  rows_after = stored ∷ after_clear becomes_default o now rows

  -- What a resolution of the new profile gives.
  abbrev pub credentials : ResolvedCredentials
  credentials = record {
    owner_user_id = some o;
    profile_id = some uuid;
    profile_name = some p.profile_name;
    instance_name = strip p.instance_name;
    channel = strip p.channel;
    masked_token = stored.masked_token;
    token = strip p.token;
    token_ciphertext = stored.token_ciphertext;
    origin = codes "user_profile";
  }

  secret_is : cipher_secret c s rows ≡ ok (strip s.ibm_credential_encryption_key, rows)
  unfolding cipher_secret
  secret_is = rw set

  inserted : insert_profile stored (after_clear becomes_default o now rows) ≡ ok (tt, rows_after)
  unfolding insert_profile new_profile
  inserted = rw (free-after_clear becomes_default uuid o p.profile_name o now rows fresh free)

  rows_after-IsSound : IsSound rows_after
  unfolding new_profile
  rows_after-IsSound =
      elim (insert_profile-IsSound stored (after_clear becomes_default o now rows)
        (after_clear-IsSound c s becomes_default o now rows v)
        (after_clear-none c s becomes_default o now rows)) [
          | inl clash ↦ cc (sym clash ∙ inserted)
          | inr (put, sound) ↦ sound
        ]

  creates : create_profile c s o p bytes uuid now rows ≡ ok (stored, rows_after)
  unfolding create_profile
  creates = rw (
    secret_is,
    query-named o p.profile_name rows v,
    free,
    query-default o rows v,
    clear_if-eq c s becomes_default o now rows,
    inserted,
    create_profile,
    ◌>>◌,
    ◌>>=◌,
    raise_if,
  )

  reads : credentials_of c s stored rows_after ≡ ok (credentials, rows_after)
  unfolding credentials_of cipher_secret decrypt new_profile
  reads = rw (
    set,
    c.decrypt-encrypt (strip s.ibm_credential_encryption_key) bytes (strip p.token),
    credentials_of,
    cipher_secret,
    decrypt,
    ◌>>=◌,
  )

  found_named : find (is_named o p.profile_name) rows_after ≡ some stored
  unfolding new_profile
  found_named = rw (==_refl o, text_eq_refl p.profile_name)

  resolves_named :
      resolve_runtime_credentials c s o (some p.profile_name) rows_after
      ≡ ok (credentials, rows_after)
  unfolding resolve_runtime_credentials expect
  resolves_named =
      rw
        (
          query-named o p.profile_name rows_after rows_after-IsSound,
          found_named,
          resolve_runtime_credentials,
          expect,
          ◌>>=◌,
        )
        reads

  found_default : becomes_default ≡ true → find (is_default_of o) rows_after ≡ some stored
  unfolding new_profile
  found_default d = rw (==_refl o, d)

  resolves_default :
      becomes_default ≡ true
      → resolve_runtime_credentials c s o none rows_after ≡ ok (credentials, rows_after)
  unfolding resolve_runtime_credentials expect
  resolves_default d =
      rw
        (
          query-default o rows_after rows_after-IsSound,
          found_default d,
          resolve_runtime_credentials,
          expect,
          ◌>>=◌,
        )
        reads

  -- With a secret set, and a name and an identifier that are free, a profile is stored, and its
  -- credentials, the stripped token among them, are what its owner's next resolution by its name
  -- gives; and by default too, if the profile was asked to be the default or there was none.
  pub create_profile-resolves :
      (create_profile c s o p bytes uuid now rows ≡ ok (stored, rows_after))
      × (resolve_runtime_credentials c s o (some p.profile_name) rows_after
          ≡ ok (credentials, rows_after))
      × (becomes_default ≡ true
          → resolve_runtime_credentials c s o none rows_after ≡ ok (credentials, rows_after))
  create_profile-resolves = (creates, resolves_named, resolves_default)
