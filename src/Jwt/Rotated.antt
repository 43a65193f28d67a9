-- ===== src/Jwt/Rotated.antt =====
-- A key that the endpoint lists is found, however old the cache is.
use quantum_api.Base.{ℕ, ◌⊎◌, ◌≡◌, refl, inl, inr, false, none, some, List, [], ◌∷◌, Bool-cases}
use quantum_api.Base.Text.{Text, Unicode, is_empty}
use quantum_api.Base.Transaction.{Result, ok, err}
use quantum_api.Base.Stateful.{◌>>=◌, ◌>>◌, stop_if, then_run}
use quantum_api.Config.{Settings}
use quantum_api.Jwt.{
  Library, Header, Item, listed, JwtError, Jwks, Refresh, key_of, has_none, parsed_keys, kid_of,
  fetch, is_fresh, check_token, refresh_jwks_if_needed, jwk_for_kid, require_key, or_refreshed,
  verify_token,
}
use quantum_api.Jwt.Verified.{read_header-reads}

module _ (l : Library) (u : Unicode) (s : Settings) (kid : Text) (k : l.Key)
    (items : List (Item (l.Key))) (lists : key_of kid (parsed_keys items []) ≡ some k) where
  open l use {Key}

  -- The cache knows nothing of the key, or knows what the endpoint lists.
  abbrev pub Stale : Jwks Key → Type 0
  Stale cache = (key_of kid cache.by_kid ≡ none) ⊎ (key_of kid cache.by_kid ≡ some k)

  holds_some : (keys : List (Text × Key)) → key_of kid keys ≡ some k → has_none keys ≡ false
  holds_some [] h = cc h
  holds_some (_ ∷ _) h = refl

  fetch-listed :
      (now : ℕ) (cache : Jwks Key)
      → fetch l u s now (listed items) cache
        ≡ (record { by_kid = parsed_keys items []; cached_at = now }, ok tt)
  unfolding fetch
  fetch-listed now cache = rw (holds_some (parsed_keys items []) lists)

  -- A refresh leaves a cache that is stale at worst.
  Refreshed : Jwks Key × Result JwtError (Unit {0}) → Type 0
  Refreshed x = (x.1 ≡ ok tt) × Stale x.0

  refresh-Refreshed :
      (r : Refresh Key) (cache : Jwks Key)
      → r.answer ≡ listed items
      → Stale cache
      → Refreshed (refresh_jwks_if_needed l u s false r cache)
  unfolding refresh_jwks_if_needed Refreshed
  refresh-Refreshed r cache answers stale = elim (Bool-cases (is_fresh l u s r.before cache)) [
    | inl fresh ↦ rw (refresh_jwks_if_needed, fresh) (refl, stale)
    | inr old ↦ elim (Bool-cases (is_fresh l u s r.locked cache)) [
      | inl meanwhile ↦ rw (refresh_jwks_if_needed, old, meanwhile) (refl, stale)
      | inr still ↦
          rw (refresh_jwks_if_needed, old, still, answers, fetch-listed r.locked cache)
            (refl, inr lists)
    ]
  ]

  or_refreshed-finds :
      (r : Refresh Key) (cache : Jwks Key)
      → r.answer ≡ listed items
      → Stale cache
      → (or_refreshed l u s r kid (key_of kid cache.by_kid) cache).1 ≡ ok k
  unfolding or_refreshed refresh_jwks_if_needed require_key
  or_refreshed-finds r cache answers (inr known) = rw (known, or_refreshed)
  or_refreshed-finds r cache answers (inl unknown) = rw (
    unknown,
    or_refreshed,
    ◌>>◌,
    ◌>>=◌,
    refresh_jwks_if_needed,
    answers,
    fetch-listed r.locked cache,
    require_key,
    lists,
  )

  -- The rest of the check, when the key is asked for.
  check-finds :
      (r : Refresh Key) (token : Text) (fields : Header) (x : Jwks Key × Result JwtError (Unit {0}))
      → r.answer ≡ listed items
      → Refreshed x
      → (then_run (then_run x (λ _ (c : Jwks Key). (c, ok (key_of kid c.by_kid)))) (λ known.
          or_refreshed l u s r kid known >>= λ key_jwk (c : Jwks Key).
          (c, check_token l u s token fields key_jwk))).1
        ≡ check_token l u s token fields k
  unfolding Refreshed
  check-finds r token fields (cache, err e) answers (h, stale) = cc h
  check-finds r token fields (cache, ok _) answers (h, stale) =
      finds (or_refreshed l u s r kid (key_of kid cache.by_kid) cache)
        (or_refreshed-finds r cache answers stale)
    where
      finds :
          (y : Jwks Key × Result JwtError Key)
          → y.1 ≡ ok k
          → (then_run y (λ key_jwk (c : Jwks Key). (c, check_token l u s token fields key_jwk))).1
            ≡ check_token l u s token fields k
      finds (after, result) found = rw found

-- A token that names a key is checked with that key if the endpoint's answer lists it, also with a
-- cache that is fresh and does not hold it: one forced refresh brings it in. The key must not be
-- cached with another content than the one listed.
pub verify_token-rotated :
    (l : Library) (u : Unicode) (s : Settings) (on_demand forced : Refresh (l.Key)) (token : Text)
    (fields : Header) (k : l.Key) (items : List (Item (l.Key))) (cache : Jwks (l.Key))
    → l.unverified_header token ≡ some fields
    → is_empty (kid_of fields) ≡ false
    → key_of (kid_of fields) (parsed_keys items []) ≡ some k
    → on_demand.answer ≡ listed items
    → forced.answer ≡ listed items
    → (key_of (kid_of fields) cache.by_kid ≡ none) ⊎ (key_of (kid_of fields) cache.by_kid ≡ some k)
    → (verify_token l u s on_demand forced token cache).1 ≡ check_token l u s token fields k
unfolding verify_token jwk_for_kid
verify_token-rotated l u s on_demand forced token fields k items cache reads named lists answers
      again stale =
    rw
      (
        read_header-reads l u s token fields reads cache,
        named,
        verify_token,
        ◌>>=◌,
        ◌>>◌,
        stop_if,
        jwk_for_kid,
      )
      (check-finds l u s (kid_of fields) k items lists forced token fields
        (refresh_jwks_if_needed l u s false on_demand cache) again
        (refresh-Refreshed l u s (kid_of fields) k items lists on_demand cache answers stale))
