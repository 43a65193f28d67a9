-- ===== src/Provider/Cached.antt =====
-- The cache of provider clients stays small and hands one client to all who ask for it.
use quantum_api.Base.{
  ℕ, suc, ◌≤◌, ◌≡◌, refl, inl, inr, true, false, none, some, List, [], ◌∷◌, ◌++◌, arith, ltb,
  length, ==_refl, Bool-cases, Option-cases, length-append,
}
use quantum_api.Base.Text.{text_eq_refl}
use quantum_api.Provider.{
  CacheKey, ClientCache, key_eq, cached, without, cache_max_size, trim, look_up, store,
}

-- One locked section of a thread, or `clear_ibm_provider_cache`; threads interleave between them.
pub data CacheStep : Type 0 where
  looks_up : CacheKey → CacheStep
  stores : CacheKey → ℕ → CacheStep
  clears : CacheStep

abbrev pub cache_step : CacheStep → ClientCache → ClientCache
cache_step (looks_up k) cache = (look_up k cache).0
cache_step (stores k service) cache = (store k service cache).0
cache_step clears cache = []

abbrev pub cache_steps : List CacheStep → ClientCache → ClientCache
cache_steps [] cache = cache
cache_steps (m ∷ ms) cache = cache_steps ms (cache_step m cache)

key_eq_refl : (k : CacheKey) → key_eq k k ≡ true
key_eq_refl k = rw (==_refl k.token_digest, text_eq_refl k.instance_name, text_eq_refl k.channel)

length-without-le : (k : CacheKey) (cache : ClientCache) → length (without k cache) ≤ length cache
length-without-le k [] = omega arith
length-without-le k ((j, v) ∷ rest) = ground (arith, length-without-le k rest)

length-without :
    (k : CacheKey) (cache : ClientCache) {v : ℕ}
    → cached k cache ≡ some v
    → suc (length (without k cache)) ≤ length cache
length-without k [] h = cc
length-without k ((j, w) ∷ rest) h = elim (Bool-cases (key_eq j k)) [
  | inl hit ↦ rw hit (omega (arith, length-without-le k rest))
  | inr miss ↦ rw miss (omega (arith, length-without k rest (rw miss at h)))
]

length-trim : (limit : ℕ) (cache : ClientCache) → length (trim limit cache) ≤ limit
unfolding trim
length-trim limit [] = omega arith
length-trim limit (e ∷ rest) = ground (arith, length-trim limit rest)

length-touched :
    (k : CacheKey) (v : ℕ) (cache : ClientCache)
    → cached k cache ≡ some v
    → length (without k cache ++ (k, v) ∷ []) ≤ length cache
length-touched k v cache h =
    omega (arith, length-append (without k cache) ((k, v) ∷ []), length-without k cache h)

cache_step-bounded :
    (m : CacheStep) (cache : ClientCache)
    → length cache ≤ cache_max_size
    → length (cache_step m cache) ≤ cache_max_size
unfolding look_up store
cache_step-bounded (looks_up k) cache h = elim (Option-cases (cached k cache)) [
  | inl miss ↦ rw (cache_step, look_up, miss) h
  | inr (v, hit) ↦ rw (cache_step, look_up, hit) (omega (arith, length-touched k v cache hit))
]
cache_step-bounded (stores k service) cache h = elim (Option-cases (cached k cache)) [
  | inl miss ↦
      rw (cache_step, store, miss) (length-trim cache_max_size (cache ++ (k, service) ∷ []))
  | inr (v, hit) ↦ rw (cache_step, store, hit) (omega (arith, length-touched k v cache hit))
]
cache_step-bounded clears cache h = omega arith

-- However the locked sections of threads follow one another, the cache never holds more than 256
-- clients.
pub cache_steps-bounded :
    (ms : List CacheStep) (cache : ClientCache)
    → length cache ≤ cache_max_size
    → length (cache_steps ms cache) ≤ cache_max_size
cache_steps-bounded [] cache h = h
cache_steps-bounded (m ∷ ms) cache h =
    cache_steps-bounded ms (cache_step m cache) (cache_step-bounded m cache h)

cached-appended :
    (k : CacheKey) (v : ℕ) (cache : ClientCache)
    → cached k cache ≡ none
    → cached k (cache ++ (k, v) ∷ []) ≡ some v
cached-appended k v [] h = rw (key_eq_refl k)
cached-appended k v ((j, w) ∷ rest) h = ground (arith, cached-appended k v rest)

cached-without : (k : CacheKey) (cache : ClientCache) → cached k (without k cache) ≡ none
cached-without k [] = refl
cached-without k ((j, w) ∷ rest) = elim (Bool-cases (key_eq j k)) [
  | inl hit ↦ rw hit (cached-without k rest)
  | inr miss ↦ rw (miss, miss) (cached-without k rest)
]

cached-trim :
    (limit : ℕ) (k : CacheKey) (v : ℕ) (cache : ClientCache)
    → cached k cache ≡ none
    → cached k (trim (suc limit) (cache ++ (k, v) ∷ [])) ≡ some v
unfolding trim
cached-trim limit k v [] h =
    let short : ltb (suc limit) 1 ≡ false = ground arith in rw (short, key_eq_refl k)
cached-trim limit k v ((j, w) ∷ rest) h = elim (Bool-cases (key_eq j k)) [
  | inl hit ↦ cc (rw hit at h)
  | inr miss ↦ elim (Bool-cases (ltb (suc limit) (length ((j, w) ∷ (rest ++ (k, v) ∷ []))))) [
    | inl long ↦ rw long (cached-trim limit k v rest (rw miss at h))
    | inr fits ↦ rw (fits, miss) (cached-appended k v rest (rw miss at h))
  ]
]

stored-kept :
    (k : CacheKey) (service : ℕ) (cache : ClientCache)
    → cached k (store k service cache).0 ≡ some (store k service cache).1
unfolding store
stored-kept k service cache = elim (Option-cases (cached k cache)) [
  | inl miss ↦ rw (miss, store) (cached-trim 255 k service cache miss)
  | inr (v, hit) ↦ rw (hit, store) (cached-appended k v (without k cache) (cached-without k cache))
]

store-present :
    (k : CacheKey) (service client : ℕ) (cache : ClientCache)
    → cached k cache ≡ some client
    → (store k service cache).1 ≡ client
unfolding store
store-present k service client cache present = rw (store, present)

look_up-present :
    (k : CacheKey) (client : ℕ) (cache : ClientCache)
    → cached k cache ≡ some client
    → (look_up k cache).1 ≡ some client
unfolding look_up
look_up-present k client cache present = rw (look_up, present)

-- Two threads that build a client for the same credentials one after the other get the same one: the
-- one stored first. The next look-up gives that client too.
pub store-shared :
    (k : CacheKey) (first second : ℕ) (cache : ClientCache)
    → ((store k second (store k first cache).0).1 ≡ (store k first cache).1)
      × ((look_up k (store k first cache).0).1 ≡ some (store k first cache).1)
store-shared k first second cache =
    let kept = stored-kept k first cache in
    (
      store-present k second (store k first cache).1 (store k first cache).0 kept,
      look_up-present k (store k first cache).1 (store k first cache).0 kept,
    )
