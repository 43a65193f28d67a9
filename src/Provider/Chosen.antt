-- ===== src/Provider/Chosen.antt =====
-- Whose credentials a request runs with: src/quantum_api/services/ibm_provider.py over
-- src/quantum_api/ibm_credentials.py.
use quantum_api.Base.{
  ℕ, ◌≡◌, ◌⊎◌, refl, inl, inr, Bool, true, false, Option, none, some, [], ◌∷◌, arith, find,
  Bool-cases, Option-cases,
}
use quantum_api.Base.Text.{Text, codes, text_eq_iff, strip, is_empty}
use quantum_api.Base.Transaction.{Result, ok, err, ◌>>=◌}
use quantum_api.Config.{Settings}
use quantum_api.Profiles.Table.{
  Profile, ProfileError, not_found, default_missing, encryption_unavailable, Profiles, Cipher,
  ResolvedCredentials, is_named, is_default_of, mask_ibm_token,
}
use quantum_api.Profiles.Service.{
  cipher_secret, decrypt, credentials_of, expect, resolve_runtime_credentials,
}
use quantum_api.Profiles.Invariant.{IsSound, query-named, query-default}
use quantum_api.Provider.{
  ProviderError, env_credentials, ibm_profile_encryption_is_configured, fall_back,
  ibm_is_configured, translate, resolve_request_ibm_credentials,
}

find-holds :
    (p : Profile → Bool) {x : Profile} (rows : Profiles) → find p rows ≡ some x → p x ≡ true
find-holds p [] h = cc
find-holds p {x} (y ∷ ys) h = elim (Bool-cases (p y)) [
  | inl holds ↦ cc (rw holds at h)
  | inr fails ↦ find-holds p ys (rw fails at h)
]

module _ (c : Cipher) (s : Settings) where
  -- The credentials are those of the profile, field by field, and their token is what the configured
  -- secret opens the profile's stored token to.
  pub record IsCredentialOf (p : Profile) (r : ResolvedCredentials) : Type 0 where
    pub of_owner : r.owner_user_id ≡ some p.owner_user_id
    pub of_id : r.profile_id ≡ some p.id
    pub of_name : r.profile_name ≡ some p.profile_name
    pub of_instance : r.instance_name ≡ p.instance_name
    pub of_channel : r.channel ≡ p.channel
    pub of_mask : r.masked_token ≡ p.masked_token
    pub of_ciphertext : r.token_ciphertext ≡ p.token_ciphertext
    pub opens : c.decrypt (strip s.ibm_credential_encryption_key) p.token_ciphertext ≡ some r.token
    pub of_origin : r.origin ≡ codes "user_profile"

  -- The credentials are the server's own, of the settings.
  pub record IsServers (r : ResolvedCredentials) : Type 0 where
    pub no_owner : r.owner_user_id ≡ none
    pub no_id : r.profile_id ≡ none
    pub no_name : r.profile_name ≡ none
    pub its_instance : r.instance_name ≡ strip s.ibm_instance
    pub its_channel : r.channel ≡ strip s.ibm_channel
    pub its_mask : r.masked_token ≡ mask_ibm_token (strip s.ibm_token)
    pub its_token : r.token ≡ strip s.ibm_token
    pub its_ciphertext :
        (is_empty (strip s.ibm_credential_encryption_key) ≡ true) × (r.token_ciphertext ≡ [])
        ⊎ (c.decrypt (strip s.ibm_credential_encryption_key) r.token_ciphertext
            ≡ some (strip (strip s.ibm_token)))
    pub its_origin : r.origin ≡ codes "server_env"

  -- The credentials of one row, where the secret is set and opens its token.
  data Opened (p : Profile) (rows : Profiles)
      : Result ProfileError (ResolvedCredentials × Profiles) → Type 0 where
    opened : (r : ResolvedCredentials) → IsCredentialOf p r → Opened p rows (ok (r, rows))
    shut : Opened p rows (err encryption_unavailable)

  credentials_of-Opened :
      (p : Profile) (rows : Profiles) → Opened p rows (credentials_of c s p rows)
  unfolding credentials_of cipher_secret decrypt
  credentials_of-Opened p rows =
      elim (Bool-cases (is_empty (strip s.ibm_credential_encryption_key))) [
        | inl unset ↦ rw (unset, credentials_of, cipher_secret, ◌>>=◌) shut
        | inr set ↦
            elim (Option-cases
              (c.decrypt (strip s.ibm_credential_encryption_key) p.token_ciphertext)) [
                | inl fails ↦ rw (set, fails, credentials_of, cipher_secret, decrypt, ◌>>=◌) shut
                | inr (token, opens) ↦
                    rw (set, opens, credentials_of, cipher_secret, decrypt, ◌>>=◌)
                      (opened _ (record {
                        of_owner = refl;
                        of_id = refl;
                        of_name = refl;
                        of_instance = refl;
                        of_channel = refl;
                        of_mask = refl;
                        of_ciphertext = refl;
                        opens = opens;
                        of_origin = refl;
                      }))
              ]
      ]

  -- The one row of the owner with the name, or the owner's default without one.
  abbrev pub is_asked : ℕ → Option Text → Profile → Bool
  is_asked owner (some name) = is_named owner name
  is_asked owner none = is_default_of owner

  -- What the owner's profiles answer to a name, or to none.
  data Answers (owner : ℕ) (rows : Profiles) (name : Option Text)
      : Result ProfileError (ResolvedCredentials × Profiles) → Type 0 where
    missing : find (is_asked owner name) rows ≡ none → Answers owner rows name (err not_found)
    no_default :
        find (is_default_of owner) rows ≡ none
        → name ≡ none
        → Answers owner rows name (err default_missing)
    unreadable : Answers owner rows name (err encryption_unavailable)
    answered :
        (p : Profile) (r : ResolvedCredentials)
        → find (is_asked owner name) rows ≡ some p
        → IsCredentialOf p r
        → Answers owner rows name (ok (r, rows))

  answer :
      (owner : ℕ) (name : Option Text) (rows : Profiles) (p : Profile)
      → find (is_asked owner name) rows ≡ some p
      → {result : Result ProfileError (ResolvedCredentials × Profiles)} → Opened p rows result
      → Answers owner rows name result
  answer owner name rows p found (opened r holds) = answered p r found holds
  answer owner name rows p found shut = unreadable

  resolve_runtime_credentials-Answers :
      (owner : ℕ) (name : Option Text) (rows : Profiles)
      → IsSound rows
      → Answers owner rows name (resolve_runtime_credentials c s owner name rows)
  unfolding resolve_runtime_credentials expect
  resolve_runtime_credentials-Answers owner (some name) rows v =
      elim (Option-cases (find (is_named owner name) rows)) [
        | inl none_such ↦
            rw
              (query-named owner name rows v, none_such, resolve_runtime_credentials, expect, ◌>>=◌)
              (missing none_such)
        | inr (p, found) ↦
            rw (query-named owner name rows v, found, resolve_runtime_credentials, expect, ◌>>=◌)
              (answer owner (some name) rows p found (credentials_of-Opened p rows))
      ]
  resolve_runtime_credentials-Answers owner none rows v =
      elim (Option-cases (find (is_default_of owner) rows)) [
        | inl none_such ↦
            rw (query-default owner rows v, none_such, resolve_runtime_credentials, expect, ◌>>=◌)
              (no_default none_such refl)
        | inr (p, found) ↦
            rw (query-default owner rows v, found, resolve_runtime_credentials, expect, ◌>>=◌)
              (answer owner none rows p found (credentials_of-Opened p rows))
      ]

  -- The credentials are those of the owner's profile of the name, or of the owner's default profile
  -- where none is named; or nothing was named, the owner has no default profile, the route lets the
  -- server's own be used, and they are those.
  pub data IsChosen (owner : ℕ) (rows : Profiles) (allow_env : Bool)
      : Option Text → ResolvedCredentials → Type 0 where
    of_profile :
        {name : Text} {r : ResolvedCredentials} (p : Profile)
        → find (is_named owner name) rows ≡ some p
        → p.owner_user_id ≡ owner
        → p.profile_name ≡ name
        → IsCredentialOf p r
        → IsChosen owner rows allow_env (some name) r
    of_default :
        {r : ResolvedCredentials} (p : Profile)
        → find (is_default_of owner) rows ≡ some p
        → p.owner_user_id ≡ owner
        → p.is_default ≡ true
        → IsCredentialOf p r
        → IsChosen owner rows allow_env none r
    of_server :
        {r : ResolvedCredentials}
        → find (is_default_of owner) rows ≡ none
        → allow_env ≡ true
        → ibm_is_configured s ≡ true
        → IsServers r
        → IsChosen owner rows allow_env none r

  choose :
      (owner : ℕ) (rows : Profiles) (allow_env : Bool) (name : Option Text) (p : Profile)
      {r : ResolvedCredentials}
      → find (is_asked owner name) rows ≡ some p
      → is_asked owner name p ≡ true
      → IsCredentialOf p r
      → IsChosen owner rows allow_env name r
  choose owner rows allow_env (some name) p found h holds =
      of_profile p found (ground (arith, h))
        ((text_eq_iff p.profile_name name).0 (ground (arith, h))) holds
  choose owner rows allow_env none p found h holds =
      of_default p found (ground (arith, h)) (ground (arith, h)) holds

  env_credentials-IsServers : (bytes : ℕ) → IsServers (env_credentials c s true bytes)
  unfolding env_credentials ibm_profile_encryption_is_configured
  env_credentials-IsServers bytes = record {
    no_owner = refl;
    no_id = refl;
    no_name = refl;
    its_instance = refl;
    its_channel = refl;
    its_mask = refl;
    its_token = refl;
    its_ciphertext = elim (Bool-cases (is_empty (strip s.ibm_credential_encryption_key))) [
      | inl unset ↦ rw unset (inl (refl, refl))
      | inr set ↦ rw set (inr (c.decrypt-encrypt (strip s.ibm_credential_encryption_key) bytes _))
    ];
    its_origin = refl;
  }

  abbrev Chosen :
      ℕ → Profiles → Bool → Option Text → Result ProviderError (Option ResolvedCredentials) → Type 0
  Chosen owner rows allow_env name (ok (some r)) = IsChosen owner rows allow_env name r
  Chosen owner rows allow_env name (ok none) = Unit
  Chosen owner rows allow_env name (err e) = Unit

  Chosen-of :
      (owner : ℕ) (rows : Profiles) (allow_env : Bool) (name : Option Text)
      (r : ResolvedCredentials) (result : Result ProviderError (Option ResolvedCredentials))
      → Chosen owner rows allow_env name result
      → result ≡ ok (some r)
      → IsChosen owner rows allow_env name r
  Chosen-of owner rows allow_env name r result h e = rw e at h

  translate-Chosen :
      (owner : ℕ) (rows : Profiles) (required allow_env : Bool) (bytes : ℕ) (name : Option Text)
      {result : Result ProfileError (ResolvedCredentials × Profiles)}
      → Answers owner rows name result
      → Chosen owner rows allow_env name (translate c s required allow_env bytes result)
  unfolding translate fall_back
  translate-Chosen owner rows required allow_env bytes name (missing none_such) = tt
  translate-Chosen owner rows required allow_env bytes name unreadable = tt
  translate-Chosen owner rows required allow_env bytes name (answered p r found holds) =
      choose owner rows allow_env name p found (find-holds _ rows found) holds
  translate-Chosen owner rows true false bytes name (no_default none_such unnamed) = tt
  translate-Chosen owner rows false false bytes name (no_default none_such unnamed) = tt
  translate-Chosen owner rows required true bytes name (no_default none_such unnamed) =
      elim (Bool-cases (ibm_is_configured s)) [
        | inl holds ↦
            rw (translate, fall_back, holds)
              (rw unnamed (of_server none_such refl holds (env_credentials-IsServers bytes)))
        | inr fails ↦ elim (Bool-cases required) [
          | inl needs ↦ rw (translate, fall_back, fails, needs) tt
          | inr goes ↦ rw (translate, fall_back, fails, goes) tt
        ]
      ]

  -- In a sound table, a request of an owner that gets credentials gets those of a profile of that
  -- owner, of the one with the name if it names one, and of the default one if it names none: the
  -- profile's labels, instance, channel, mask and ciphertext, and the token that the configured secret
  -- opens the ciphertext to. The server's own credentials are used only for a request that names none,
  -- of an owner without a default profile, on a route that allows them, and are those of the settings.
  pub resolve_request_ibm_credentials-IsChosen :
      (owner : ℕ) (name : Option Text) (rows : Profiles) (required allow_env : Bool) (bytes : ℕ)
      (r : ResolvedCredentials)
      → IsSound rows
      → resolve_request_ibm_credentials c s (some owner) name (some rows) required allow_env bytes
        ≡ ok (some r)
      → IsChosen owner rows allow_env name r
  unfolding resolve_request_ibm_credentials
  resolve_request_ibm_credentials-IsChosen owner name rows required allow_env bytes r v h =
      Chosen-of owner rows allow_env name r
        (translate c s required allow_env bytes (resolve_runtime_credentials c s owner name rows))
        (translate-Chosen owner rows required allow_env bytes name
          (resolve_runtime_credentials-Answers owner name rows v))
        h
