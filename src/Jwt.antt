-- ===== src/Jwt.antt =====
-- SupabaseJwtVerifier of src/quantum_api/supabase_auth.py: the tokens of users, and the cache of the
-- keys that sign them.
pub mod Verified
pub mod Rotated
use quantum_api.Base.{
  ℕ, ◌+◌, Bool, not, ◌&&◌, ◌||◌, Option, none, some, List, [], ◌∷◌, ltb, if◌then◌else◌,
}
use quantum_api.Base.Text.{Text, Unicode, codes, text_eq, strip, is_empty, split_first}
use quantum_api.Base.Transaction.{Result, ok, err}
use quantum_api.Base.Stateful.{Stateful, ◌>>=◌, ◌>>◌, pure, stop, stop_if, then_run}
use quantum_api.Config.{Settings, is_production_like}
use quantum_api.Config.Validate.{supabase_jwt_issuer_effective}

-- The `str` of what a token's header has under "kid" and "alg", where it has it.
pub record Header : Type 0 where
  pub kid : Option Text
  pub alg : Option Text

-- The `str` of "sub", and "email" where it is a text.
pub record Claims : Type 0 where
  pub sub : Option Text
  pub email : Option Text

pub data Decoded : Type 0 where
  decoded : Claims → Decoded
  jwt_error other_error : Decoded

-- PyJWT. `Key` is the type of a JWK; `decode` makes the public key of it and checks a token with
-- that key, an algorithm, an audience and an issuer. An unreadable header gives `none`.
pub record Library : Type 1 where
  pub Key : Type 0
  pub unverified_header : Text → Option Header
  pub decode : Key → Text → Text → Text → Text → Decoded

pub record AuthenticatedUser : Type 0 where
  pub user_id : Text
  pub email : Option Text
  pub claims : Claims

-- JwtVerificationError, or any other exception.
pub data JwtError : Type 0 where
  rejected broken : JwtError

-- An entry of the "keys" of a JWKS response: an object with the `str` of its "kid", or no object.
pub data Item (K : Type 0) : Type 0 where
  no_object : Item K
  key : Option Text → K → Item K

-- What the endpoint answers: nothing usable as JSON, no list of keys, or a list.
pub data Answer (K : Type 0) : Type 0 where
  failed no_keys : Answer K
  listed : List (Item K) → Answer K

abbrev pub or_text : Option Text → Text → Text
or_text none t = t
or_text (some s) t = s

-- A refresh: the times at which the cache is looked at, before the lock and in it, and the answer.
pub record Refresh (K : Type 0) : Type 0 where
  pub before : ℕ
  pub locked : ℕ
  pub answer : Answer K

pub record Jwks (K : Type 0) : Type 0 where
  pub by_kid : List (Text × K)
  pub cached_at : ℕ

abbrev pub key_of {ℓ} : {K : Type ℓ} → Text → List (Text × K) → Option K
key_of kid [] = none
key_of kid ((k, x) ∷ rest) = if text_eq k kid then some x else key_of kid rest

abbrev pub has_none {ℓ} : {A : Type ℓ} → List A → Bool
has_none [] = Bool.true
has_none (_ ∷ _) = Bool.false

-- `parsed` after the loop over the items, the latest first.
unfoldable pub parsed_keys : {K : Type 0} → List (Item K) → List (Text × K) → List (Text × K)
parsed_keys [] parsed = parsed
parsed_keys (no_object ∷ items) parsed = parsed_keys items parsed
parsed_keys (key kid x ∷ items) parsed =
    let name = strip (or_text kid []) in
    parsed_keys items (if is_empty name then parsed else (name, x) ∷ parsed)

unfoldable pub kid_of : Header → Text
kid_of h = strip (or_text h.kid [])

unfoldable pub algorithm_of : Header → Text
algorithm_of h =
    let algorithm = strip (or_text h.alg (codes "RS256")) in
    if is_empty algorithm then codes "RS256" else algorithm

unfoldable pub email_of : Option Text → Option Text
email_of none = none
email_of (some value) = if is_empty (strip value) then none else some (strip value)

-- `_extract_bearer_token`
unfoldable pub extract_bearer_token : Unicode → Option Text → Result JwtError Text
extract_bearer_token u none = err rejected
extract_bearer_token u (some value) = elim (split_first b' ' value) [
  | none ↦ err rejected
  | some (scheme, token) ↦
      if is_empty value || not (text_eq (u.lower scheme) (codes "bearer")) || is_empty (strip token)
      then err rejected
      else ok (strip token)
]

-- The claims as a user.
unfoldable pub user_of : Claims → Result JwtError AuthenticatedUser
user_of claims =
    let user_id = strip (or_text claims.sub []) in
    if is_empty user_id
    then err rejected
    else ok (record { user_id = user_id; email = email_of claims.email; claims = claims })

-- What becomes of `jwt.decode`.
unfoldable pub accepted : Decoded → Result JwtError AuthenticatedUser
unfolding user_of
accepted (decoded claims) = user_of claims
accepted jwt_error = err rejected
accepted other_error = err broken

module _ (l : Library) (u : Unicode) (s : Settings) where
  open l use {Key}

  abbrev pub Verifier : Type 0 → Type 0
  Verifier A = Stateful (Jwks Key) JwtError A

  abbrev pub is_fresh : ℕ → Jwks Key → Bool
  is_fresh now cache =
      not (has_none cache.by_kid) && ltb now (cache.cached_at + s.supabase_jwks_cache_seconds)

  -- The request to the endpoint and the parsing; only an answer with a usable key changes the cache.
  unfoldable pub fetch : ℕ → Answer Key → Verifier (Unit {0})
  unfolding parsed_keys
  fetch now failed cache = (cache, err broken)
  fetch now no_keys cache = (cache, err rejected)
  fetch now (listed items) cache =
      let parsed = parsed_keys items [] in
      if has_none parsed
      then (cache, err rejected)
      else (record { by_kid = parsed; cached_at = now }, ok tt)

  unfoldable pub refresh_jwks_if_needed : Bool → Refresh Key → Verifier (Unit {0})
  unfolding fetch
  refresh_jwks_if_needed force r cache =
      if not force && is_fresh r.before cache
      then (cache, ok tt)
      else if not force && is_fresh r.locked cache
      then (cache, ok tt)
      else fetch r.locked r.answer cache

  unfoldable pub jwk_for_kid : Refresh Key → Text → Verifier (Option Key)
  unfolding refresh_jwks_if_needed
  jwk_for_kid r kid =
      refresh_jwks_if_needed Bool.false r >>= λ _ cache. (cache, ok (key_of kid cache.by_kid))

  unfoldable pub require_key : Text → Verifier Key
  require_key kid cache = elim (key_of kid cache.by_kid) [
    | none ↦ (cache, err rejected)
    | some k ↦ (cache, ok k)
  ]

  -- The forced refresh for a key that is not known.
  unfoldable pub or_refreshed : Refresh Key → Text → Option Key → Verifier Key
  unfolding refresh_jwks_if_needed require_key
  or_refreshed r kid (some k) cache = (cache, ok k)
  or_refreshed r kid none cache = (refresh_jwks_if_needed Bool.true r >> require_key kid) cache

  abbrev pub check_token : Text → Header → Key → Result JwtError AuthenticatedUser
  check_token token h k =
      accepted (
        l.decode k token (algorithm_of h) s.supabase_jwt_audience (supabase_jwt_issuer_effective s))

  unfoldable pub read_header : Text → Verifier Header
  read_header token cache = elim (l.unverified_header token) [
    | none ↦ (cache, err rejected)
    | some h ↦ (cache, ok h)
  ]

  -- `on_demand` is the refresh that a stale cache gets, `forced` the one for an unknown key.
  unfoldable pub verify_token : Refresh Key → Refresh Key → Text → Verifier AuthenticatedUser
  unfolding jwk_for_kid or_refreshed kid_of read_header
  verify_token on_demand forced token = do
    header ← read_header token
    stop_if (is_empty (kid_of header)) rejected
    known ← jwk_for_kid on_demand (kid_of header)
    key_jwk ← or_refreshed forced (kid_of header) known
    λ cache. (cache, check_token token header key_jwk)

  unfoldable pub verify_authorization_header :
      Refresh Key → Refresh Key → Option Text → Verifier AuthenticatedUser
  unfolding verify_token
  verify_authorization_header on_demand forced header cache = elim (extract_bearer_token u header) [
    | err e ↦ (cache, err e)
    | ok token ↦ verify_token on_demand forced token cache
  ]

  -- `startup_check`: the exception that it lets through.
  unfoldable pub startup_check : Refresh Key → Verifier (Unit {0})
  unfolding refresh_jwks_if_needed
  startup_check r cache =
      if not s.auth_enabled
      then (cache, ok tt)
      else let (after, refreshed) = refresh_jwks_if_needed Bool.false r cache in
        elim refreshed [
          | ok _ ↦ (after, ok tt)
          | err e ↦ if is_production_like u s then (after, err e) else (after, ok tt)
        ]
