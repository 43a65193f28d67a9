-- ===== src/Jwt/Verified.antt =====
-- What it takes for a token to be accepted.
use quantum_api.Base.{
  ◌⊎◌, ◌≡◌, refl, sym, ◌∙◌, inl, inr, true, false, Option, none, some, [], Bool-cases, Option-cases,
}
use quantum_api.Base.Text.{Text, Unicode, strip, is_empty}
use quantum_api.Base.Transaction.{Result, ok, err, Result-cases}
use quantum_api.Base.Stateful.{◌>>=◌, ◌>>◌, stop_if, then_run}
use quantum_api.Config.{Settings}
use quantum_api.Config.Validate.{supabase_jwt_issuer_effective}
use quantum_api.Jwt.{
  Library, Header, Decoded, decoded, jwt_error, other_error, AuthenticatedUser, JwtError, Jwks,
  Refresh, key_of, or_text, kid_of, algorithm_of, extract_bearer_token, user_of, accepted,
  refresh_jwks_if_needed, jwk_for_kid, require_key, or_refreshed, check_token, read_header,
  verify_token, verify_authorization_header,
}

module _ (l : Library) (u : Unicode) (s : Settings) where
  open l use {Key}

  -- A bearer token whose key is in the cache, that the library accepts with that key, the configured
  -- audience and issuer, and whose subject is the user.
  pub record Verified (header : Option Text) (cache : Jwks Key) (user : AuthenticatedUser)
      : Type 0 where
    pub token : Text
    pub fields : Header
    pub key_jwk : Key
    pub is_bearer : extract_bearer_token u header ≡ ok token
    pub reads : l.unverified_header token ≡ some fields
    pub names_key : is_empty (kid_of fields) ≡ false
    pub knows_key : key_of (kid_of fields) cache.by_kid ≡ some key_jwk
    pub decodes :
        l.decode key_jwk token
          (algorithm_of fields)
          s.supabase_jwt_audience
          (supabase_jwt_issuer_effective s)
        ≡ decoded user.claims
    pub subject : user.user_id ≡ strip (or_text user.claims.sub [])
    pub has_subject : is_empty user.user_id ≡ false

  abbrev Judged : Decoded → Result JwtError AuthenticatedUser → Type 0
  Judged d (err e) = Unit
  Judged d (ok user) =
      (d ≡ decoded user.claims)
      × (user.user_id ≡ strip (or_text user.claims.sub []))
      × (is_empty user.user_id ≡ false)

  accepted-Judged : (d : Decoded) → Judged d (accepted d)
  unfolding accepted user_of
  accepted-Judged (decoded claims) = elim (Bool-cases (is_empty (strip (or_text claims.sub [])))) [
    | inl blank ↦ rw (accepted, user_of, blank) tt
    | inr full ↦ rw (accepted, user_of, full) (refl, refl, full)
  ]
  accepted-Judged jwt_error = tt
  accepted-Judged other_error = tt

  -- What the lookup of a key leaves: a key of the cache, or no user.
  abbrev Found : Text → Jwks Key × Result JwtError Key → Type 0
  Found kid (cache, ok k) = key_of kid cache.by_kid ≡ some k
  Found kid (cache, err e) = Unit

  require_key-Found : (kid : Text) (cache : Jwks Key) → Found kid (require_key l u s kid cache)
  unfolding require_key
  require_key-Found kid cache = elim (Option-cases (key_of kid cache.by_kid)) [
    | inl missing ↦ rw (missing, require_key) tt
    | inr (k, found) ↦ rw (found, require_key) found
  ]

  or_refreshed-Found :
      (r : Refresh Key) (kid : Text) (known : Option Key) (cache : Jwks Key)
      → known ≡ key_of kid cache.by_kid
      → Found kid (or_refreshed l u s r kid known cache)
  unfolding or_refreshed
  or_refreshed-Found r kid (some k) cache h = sym h
  or_refreshed-Found r kid none cache h = after_refresh (refresh_jwks_if_needed l u s true r cache)
    where
      after_refresh :
          (x : Jwks Key × Result JwtError (Unit {0}))
          → Found kid (then_run x (λ _. require_key l u s kid))
      after_refresh (after, err e) = tt
      after_refresh (after, ok _) = require_key-Found kid after

  jwk_for_kid-known :
      (r : Refresh Key) (kid : Text) (cache : Jwks Key)
      → let (after, known) = jwk_for_kid l u s r kid cache in
        (known ≡ ok (key_of kid after.by_kid)) ⊎ ((e : JwtError) × (known ≡ err e))
  unfolding jwk_for_kid
  jwk_for_kid-known r kid cache = after_refresh (refresh_jwks_if_needed l u s false r cache)
    where
      after_refresh :
          (x : Jwks Key × Result JwtError (Unit {0}))
          → let (after, known) = then_run x (λ _ (c : Jwks Key). (c, ok (key_of kid c.by_kid))) in
            (known ≡ ok (key_of kid after.by_kid)) ⊎ ((e : JwtError) × (known ≡ err e))
      after_refresh (after, err e) = inr (e, refl)
      after_refresh (after, ok _) = inl refl

  -- What a call for a token may end in.
  abbrev pub Sound : Option Text → Jwks Key × Result JwtError AuthenticatedUser → Type 0
  Sound header (cache, err e) = Unit
  Sound header (cache, ok user) = Verified header cache user

  pub read_header-reads :
      (token : Text) (fields : Header)
      → l.unverified_header token ≡ some fields
      → (cache : Jwks Key) → read_header l u s token cache ≡ (cache, ok fields)
  unfolding read_header
  read_header-reads token fields reads cache = rw (reads, read_header)

  module _ (header : Option Text) (token : Text) (fields : Header)
      (bearer : extract_bearer_token u header ≡ ok token)
      (reads : l.unverified_header token ≡ some fields)
      (named : is_empty (kid_of fields) ≡ false) where
    after_check :
        (k : Key) (cache : Jwks Key) (d : Decoded) (result : Result JwtError AuthenticatedUser)
        → key_of (kid_of fields) cache.by_kid ≡ some k
        → l.decode k token
            (algorithm_of fields)
            s.supabase_jwt_audience
            (supabase_jwt_issuer_effective s)
          ≡ d
        → Judged d result
        → Sound header (cache, result)
    after_check k cache d (err e) found decodes h = tt
    after_check k cache d (ok user) found decodes (same, subject, full) = record {
      token = token;
      fields = fields;
      key_jwk = k;
      is_bearer = bearer;
      reads = reads;
      names_key = named;
      knows_key = found;
      decodes = decodes ∙ same;
      subject = subject;
      has_subject = full;
    }

    after_key :
        (x : Jwks Key × Result JwtError Key)
        → Found (kid_of fields) x
        → Sound header
            (then_run x (λ k (cache : Jwks Key). (cache, check_token l u s token fields k)))
    after_key (cache, err e) h = tt
    after_key (cache, ok k) h =
        after_check k cache
          (l.decode k token (algorithm_of fields) s.supabase_jwt_audience
            (supabase_jwt_issuer_effective s))
          (check_token l u s token fields k) h refl (accepted-Judged _)

    after_on_demand :
        (r : Refresh Key) (x : Jwks Key × Result JwtError (Option Key))
        → (x.1 ≡ ok (key_of (kid_of fields) x.0.by_kid)) ⊎ ((e : JwtError) × (x.1 ≡ err e))
        → Sound header (
            then_run x (λ known.
              or_refreshed l u s r (kid_of fields) known >>= λ k (cache : Jwks Key).
              (cache, check_token l u s token fields k)))
    after_on_demand r (cache, err e) h = tt
    after_on_demand r (cache, ok known) (inl h) =
        after_key _ (or_refreshed-Found r (kid_of fields) known cache (cc h))
    after_on_demand r (cache, ok known) (inr (e, h)) = cc h

    verify_token-Sound :
        (on_demand forced : Refresh Key) (cache : Jwks Key)
        → Sound header (verify_token l u s on_demand forced token cache)
    unfolding verify_token
    verify_token-Sound on_demand forced cache =
        rw (read_header-reads token fields reads cache, named, verify_token, ◌>>=◌, ◌>>◌, stop_if)
          (after_on_demand forced (jwk_for_kid l u s on_demand (kid_of fields) cache)
            (jwk_for_kid-known on_demand (kid_of fields) cache))

  pub verify_authorization_header-Sound :
      (on_demand forced : Refresh Key) (header : Option Text) (cache : Jwks Key)
      → Sound header (verify_authorization_header l u s on_demand forced header cache)
  unfolding verify_authorization_header verify_token read_header
  verify_authorization_header-Sound on_demand forced header cache =
      elim (Result-cases (extract_bearer_token u header)) [
        | inl (e, bad) ↦ rw (verify_authorization_header, bad) tt
        | inr (token, bearer) ↦ elim (Option-cases (l.unverified_header token)) [
          | inl unreadable ↦
              rw (verify_authorization_header, bearer, verify_token, ◌>>=◌, read_header, unreadable)
                tt
          | inr (fields, reads) ↦ elim (Bool-cases (is_empty (kid_of fields))) [
            | inl unnamed ↦
                rw
                  (
                    verify_authorization_header,
                    bearer,
                    verify_token,
                    read_header-reads token fields reads cache,
                    unnamed,
                    ◌>>=◌,
                    ◌>>◌,
                    stop_if,
                  )
                  tt
            | inr named ↦
                rw (verify_authorization_header, bearer)
                  (verify_token-Sound header token fields bearer reads named on_demand forced cache)
          ]
        ]
      ]

  Sound-ok :
      (header : Option Text) (x : Jwks Key × Result JwtError AuthenticatedUser)
      (user : AuthenticatedUser)
      → Sound header x
      → x.1 ≡ ok user
      → Verified header x.0 user
  Sound-ok header (cache, result) user h e = rw e at h

  -- A header that is accepted, whatever the cache and the endpoint's answers, holds a bearer token
  -- that names a key of the cache as the call leaves it, that the library accepts with this key, the
  -- configured audience and issuer, and whose stripped subject, which is not empty, is the user.
  pub verify_authorization_header-Verified :
      (on_demand forced : Refresh Key) (header : Option Text) (cache : Jwks Key)
      (user : AuthenticatedUser)
      → (verify_authorization_header l u s on_demand forced header cache).1 ≡ ok user
      → Verified header (verify_authorization_header l u s on_demand forced header cache).0 user
  verify_authorization_header-Verified on_demand forced header cache user h =
      Sound-ok header (verify_authorization_header l u s on_demand forced header cache) user
        (verify_authorization_header-Sound on_demand forced header cache) h
