-- ===== src/Profiles/Service.antt =====
-- The methods of IbmCredentialProfileService of src/quantum_api/ibm_credentials.py. An instant and
-- the random bytes of an encryption are arguments.
use quantum_api.Base.{
  ℕ, ◌==◌, Bool, false, not, ◌&&◌, ◌||◌, Option, none, some, List, [], ◌∷◌, if◌then◌else◌, is_some,
  leb, select,
}
use quantum_api.Base.Text.{Text, codes, text_eq, strip, is_empty}
use quantum_api.Base.Transaction.{ok, err, ◌>>=◌, ◌>>◌, pure, raise_if}
use quantum_api.Config.{Settings}
use quantum_api.Profiles.Table.{
  Profile, ResolvedCredentials, ProfileError, not_found, default_missing, conflict,
  encryption_unavailable, Profiles, Session, Cipher, mask_ibm_token, profile_by_name,
  default_profile, owned_profile_by_id, clear_default_profile, insert_profile, save_profile,
  remove_profile, is_owned_by,
}

-- What the caller gives of a new profile.
pub record NewProfile : Type 0 where
  pub profile_name : Text
  pub token : Text
  pub instance_name : Text
  pub channel : Text
  pub is_default : Bool

-- What the caller changes; `none` leaves a field alone.
pub record Changes : Type 0 where
  pub profile_name : Option Text
  pub token : Option Text
  pub instance_name : Option Text
  pub channel : Option Text
  pub is_default : Option Bool

-- `order_by(is_default.desc(), created_at.desc())`
abbrev pub comes_first : Profile → Profile → Bool
comes_first p x =
    (p.is_default && not x.is_default)
    || (not (not p.is_default && x.is_default) && leb x.created_at p.created_at)

unfoldable pub insert_listed : Profile → List Profile → List Profile
insert_listed p [] = p ∷ []
insert_listed p (x ∷ xs) = if comes_first p x then p ∷ x ∷ xs else x ∷ insert_listed p xs

unfoldable pub listed : List Profile → List Profile
unfolding insert_listed
listed [] = []
listed (p ∷ ps) = insert_listed p (listed ps)

unfoldable pub list_profiles : ℕ → Profiles → List Profile
unfolding listed
list_profiles owner rows = listed (select (is_owned_by owner) rows)

-- `profile_name is not None and profile_name != model.profile_name`
abbrev pub renames : Option Text → Profile → Bool
renames none p = false
renames (some name) p = not (text_eq name p.profile_name)

abbrev pub or_old {ℓ} : {A : Type ℓ} → Option A → A → A
or_old none a = a
or_old (some b) a = b

abbrev pub strip_or : Option Text → Text → Text
strip_or none old = old
strip_or (some t) old = strip t

abbrev pub holds_another : Option Profile → Profile → Bool
holds_another none p = false
holds_another (some x) p = not (x.id == p.id)

module _ (c : Cipher) (s : Settings) where
  -- `_cipher()`: the secret, or IBMProfileEncryptionUnavailableError.
  unfoldable pub cipher_secret : Session Text
  cipher_secret rows =
      if is_empty (strip s.ibm_credential_encryption_key)
      then err encryption_unavailable
      else ok (strip s.ibm_credential_encryption_key, rows)

  unfoldable pub new_profile : ℕ → NewProfile → Bool → Text → ℕ → ℕ → ℕ → Profile
  new_profile owner p should secret bytes uuid now = record {
    id = uuid;
    owner_user_id = owner;
    profile_name = p.profile_name;
    token_ciphertext = c.encrypt secret bytes (strip p.token);
    masked_token = mask_ibm_token p.token;
    instance_name = strip p.instance_name;
    channel = strip p.channel;
    is_default = should;
    verification_status = codes "unverified";
    last_verified_at = none;
    created_at = now;
    updated_at = now;
  }

  -- `if …: await self._clear_default_profile(…)`
  unfoldable pub clear_if : Bool → ℕ → ℕ → Session (Unit {0})
  unfolding clear_default_profile
  clear_if b owner now rows = if b then clear_default_profile owner now rows else ok (tt, rows)

  unfoldable pub create_profile : ℕ → NewProfile → ℕ → ℕ → ℕ → Session Profile
  create_profile owner p bytes uuid now = do
    secret ← cipher_secret
    existing ← profile_by_name owner p.profile_name
    raise_if (is_some existing) conflict
    current ← default_profile owner
    let should = p.is_default || not (is_some current)
    clear_if should owner now
    insert_profile (new_profile owner p should secret bytes uuid now)
    pure (new_profile owner p should secret bytes uuid now)

  -- The name check of `update_profile`.
  unfoldable pub check_name : ℕ → Option Text → Profile → Session (Unit {0})
  check_name owner name model rows =
      if renames name model
      then (profile_by_name owner (or_old name model.profile_name) >>= λ existing.
            raise_if (holds_another existing model) conflict)
          rows
      else ok (tt, rows)

  abbrev pub changes_credentials : Changes → Bool
  changes_credentials ch = is_some ch.token || is_some ch.instance_name || is_some ch.channel

  -- `cipher = self._cipher() if token is not None else None`; without a token the secret is not read.
  unfoldable pub secret_if : Option Text → Session Text
  unfolding cipher_secret
  secret_if none rows = ok ([], rows)
  secret_if (some _) rows = cipher_secret rows

  abbrev pub encrypt_or : Option Text → Text → ℕ → Text → Text
  encrypt_or none secret bytes old = old
  encrypt_or (some t) secret bytes old = c.encrypt secret bytes (strip t)

  abbrev pub mask_or : Option Text → Text → Text
  mask_or none old = old
  mask_or (some t) old = mask_ibm_token t

  unfoldable pub changed : Changes → Text → ℕ → ℕ → Profile → Profile
  changed ch secret bytes now p = record p {
    profile_name = or_old ch.profile_name p.profile_name;
    token_ciphertext = encrypt_or ch.token secret bytes p.token_ciphertext;
    masked_token = mask_or ch.token p.masked_token;
    instance_name = strip_or ch.instance_name p.instance_name;
    channel = strip_or ch.channel p.channel;
    is_default = or_old ch.is_default p.is_default;
    verification_status =
        if changes_credentials ch then codes "unverified" else p.verification_status;
    last_verified_at = if changes_credentials ch then none else p.last_verified_at;
    updated_at = now;
  }

  unfoldable pub update_profile : ℕ → ℕ → Changes → ℕ → ℕ → Session Profile
  update_profile owner profile_id ch bytes now = do
    secret ← secret_if ch.token
    model ← owned_profile_by_id owner profile_id
    check_name owner ch.profile_name model
    clear_if (or_old ch.is_default false) owner now
    save_profile (changed ch secret bytes now model)
    pure (changed ch secret bytes now model)

  unfoldable pub delete_profile : ℕ → ℕ → Session ℕ
  delete_profile owner profile_id = do
    model ← owned_profile_by_id owner profile_id
    remove_profile model
    pure model.id

  unfoldable pub set_verification_status : ℕ → ℕ → Text → Option ℕ → ℕ → Session Profile
  set_verification_status owner profile_id status verified_at now = do
    model ← owned_profile_by_id owner profile_id
    let verified = record model {
      verification_status = status;
      last_verified_at = verified_at;
      updated_at = now;
    }
    save_profile verified
    pure verified

  -- `_decrypt`
  unfoldable pub decrypt : Text → Text → Session Text
  decrypt secret ciphertext rows = elim (c.decrypt secret ciphertext) [
    | none ↦ err encryption_unavailable
    | some token ↦ ok (token, rows)
  ]

  unfoldable pub credentials_of : Profile → Session ResolvedCredentials
  credentials_of model = do
    secret ← cipher_secret
    token ← decrypt secret model.token_ciphertext
    pure (record {
      owner_user_id = some model.owner_user_id;
      profile_id = some model.id;
      profile_name = some model.profile_name;
      instance_name = model.instance_name;
      channel = model.channel;
      masked_token = model.masked_token;
      token = token;
      token_ciphertext = model.token_ciphertext;
      origin = codes "user_profile";
    })

  -- The row, or the exception for its absence.
  unfoldable pub expect : ProfileError → Option Profile → Session Profile
  expect e none rows = err e
  expect e (some p) rows = ok (p, rows)

  unfoldable pub resolve_runtime_credentials : ℕ → Option Text → Session ResolvedCredentials
  resolve_runtime_credentials owner (some name) = do
    found ← profile_by_name owner name
    model ← expect not_found found
    credentials_of model
  resolve_runtime_credentials owner none = do
    found ← default_profile owner
    model ← expect default_missing found
    credentials_of model

  unfoldable pub get_profile_credentials_by_id : ℕ → ℕ → Session ResolvedCredentials
  get_profile_credentials_by_id owner profile_id = do
    model ← owned_profile_by_id owner profile_id
    credentials_of model

  unfoldable pub encrypt_token : ℕ → Text → Session Text
  encrypt_token bytes raw = do secret ← cipher_secret; pure (c.encrypt secret bytes (strip raw))

  unfoldable pub decrypt_token : Text → Session Text
  decrypt_token ciphertext = do secret ← cipher_secret; decrypt secret ciphertext
