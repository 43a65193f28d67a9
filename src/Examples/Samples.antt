-- ===== src/Examples/Samples.antt =====
-- Concrete parameters: settings like the defaults of src/quantum_api/config.py, ASCII text, a digest,
-- decimal numbers, and a Redis store that keeps what its interface asks for.
use quantum_api.Base.{
  ℕ, zero, suc, ◌+◌, ◌≤◌, ◌≡◌, refl, ap, true, false, ◌&&◌, ◌||◌, Option, none, some, [], ◌∷◌,
  arith, leb, if◌then◌else◌, All, Bool-cases, inl, inr,
}
use quantum_api.Base.Text.{Text, Unicode, Lacks, codes, is_alphabet, text_eq, text_eq_iff}
use quantum_api.Config.{Settings}
use quantum_api.RateLimit.Redis.{Redis, or_zero}
use quantum_api.RateLimit.Windows.{Printing}

abbrev pub settings : Settings
settings = record {
  app_env = codes "production";
  api_prefix = codes "/v1";
  allow_origins = codes "https://a.org";
  dev_cors_allow_localhost = true;
  dev_cors_local_origins = codes "";
  auth_enabled = true;
  api_key_hash_secret = codes "pepper";
  api_key_format_prefix = codes "qapi";
  api_key_prefix_length = 6;
  api_key_secret_length = 16;
  api_key_cache_ttl_seconds = 60;
  default_key_rate_limit_per_second = 1;
  default_key_rate_limit_per_minute = 5;
  default_key_daily_quota = 50;
  max_active_api_keys_per_user = 2;
  max_total_api_keys_per_user = 3;
  dev_bootstrap_api_key_enabled = false;
  dev_bootstrap_api_key = codes "";
  dev_bootstrap_owner_id = 0;
  rate_limiting_enabled = true;
  redis_url = codes "redis://localhost";
  dev_rate_limit_bypass = false;
  public_api_cors_allow_all = true;
  ip_rate_limit_per_second = 2;
  ip_rate_limit_per_minute = 5;
  metrics_enabled = false;
  metrics_path = codes "/metrics";
  metrics_token = codes "";
  database_url = codes "sqlite:///q.db";
  database_auto_create = false;
  supabase_url = codes "https://example.supabase.co";
  supabase_jwt_audience = codes "authenticated";
  supabase_jwt_issuer = codes "";
  supabase_jwks_cache_seconds = 300;
  api_key_header = codes "X-API-Key";
  metrics_token_header = codes "X-Metrics-Token";
  request_id_header = codes "X-Request-ID";
  root_path = codes "";
  ibm_token = codes "";
  ibm_instance = codes "";
  ibm_channel = codes "ibm_quantum_platform";
  ibm_credential_encryption_key = codes "k";
}

abbrev lower_letter : ℕ → ℕ
lower_letter c = if leb 65 c && leb c 90 then c + 32 else c

abbrev lower_all : Text → Text
lower_all [] = []
lower_all (c ∷ s) = lower_letter c ∷ lower_all s

lower_letter-alphabet : (c : ℕ) → is_alphabet c ≡ true → lower_letter c ≡ c
lower_letter-alphabet c h = ground (arith, h)

pub lower_all-alphabet : (s : Text) → All (λ c. is_alphabet c ≡ true) s → lower_all s ≡ s
lower_all-alphabet [] h = refl
lower_all-alphabet (c ∷ s) h = rw (lower_letter-alphabet c h.0, lower_all-alphabet s h.1)

pub wide_alnum : (c : ℕ) → is_alphabet c ≡ true → (is_alphabet c || (leb 65 c && leb c 90)) ≡ true
wide_alnum c h = ground (arith, h)

abbrev pub ascii : Unicode
ascii = record {
  is_alnum = λ c. is_alphabet c || (leb 65 c && leb c 90);
  lower = lower_all;
  is_alnum-alphabet = wide_alnum;
  lower-alphabet = lower_all-alphabet;
}

-- A digest that weighs the characters.
abbrev pub weigh : Text → Text → ℕ
weigh secret [] = 0
weigh secret (c ∷ s) = c + weigh secret s

-- A counter and, where it has one, its time to live.
abbrev pub Store : Type 0
Store = Text → Option (ℕ × Option ℕ)

abbrev pub count_of : Option (ℕ × Option ℕ) → Option ℕ
count_of none = none
count_of (some (n, _)) = some n

abbrev pub life_of : Option (ℕ × Option ℕ) → Option ℕ
life_of none = none
life_of (some (_, t)) = t

abbrev pub renew : ℕ → Option (ℕ × Option ℕ) → Option (ℕ × Option ℕ)
renew n none = none
renew n (some (c, _)) = some (c, some n)

abbrev pub store_get : Store → Text → Option ℕ
store_get s k = count_of (s k)

abbrev pub store_ttl : Store → Text → Option ℕ
store_ttl s k = life_of (s k)

abbrev pub store_incr : Store → Text → Store
store_incr s k j = if text_eq j k then some (suc (or_zero (count_of (s k))), life_of (s j)) else s j

abbrev pub store_expire : Store → Text → ℕ → Store
store_expire s k n j = if text_eq j k then renew n (s j) else s j

count-renew : (n : ℕ) (o : Option (ℕ × Option ℕ)) → count_of (renew n o) ≡ count_of o
count-renew n none = refl
count-renew n (some _) = refl

life-renew :
    (n : ℕ) {c : ℕ} (o : Option (ℕ × Option ℕ)) → count_of o ≡ some c → life_of (renew n o) ≡ some n
life-renew n none h = cc
life-renew n (some _) h = refl

pub get-incr_store :
    (s : Store) (k j : Text)
    → store_get (store_incr s k) j
      ≡ (if text_eq j k then some (suc (or_zero (store_get s k))) else store_get s j)
get-incr_store s k j = elim (Bool-cases (text_eq j k)) [
  | inl same ↦ rw same
  | inr differ ↦ rw differ
]

pub get-expire_store :
    (s : Store) (k j : Text) (n : ℕ) → 1 ≤ n → store_get (store_expire s k n) j ≡ store_get s j
get-expire_store s k j n lives = elim (Bool-cases (text_eq j k)) [
  | inl same ↦ rw same (count-renew n (s j))
  | inr differ ↦ rw differ
]

pub ttl-incr_store :
    (s : Store) (k j : Text) {t : ℕ}
    → store_ttl s j ≡ some t
    → store_ttl (store_incr s k) j ≡ some t
ttl-incr_store s k j h = elim (Bool-cases (text_eq j k)) [
  | inl same ↦ rw same h
  | inr differ ↦ rw differ h
]

pub ttl-expire_store :
    (s : Store) (k j : Text) (n : ℕ) {c : ℕ}
    → 1 ≤ n
    → store_get s k ≡ some c
    → store_ttl (store_expire s k n) j ≡ (if text_eq j k then some n else store_ttl s j)
ttl-expire_store s k j n lives h = elim (Bool-cases (text_eq j k)) [
  | inl same ↦ rw (same, (text_eq_iff j k).0 same) (life-renew n (s k) h)
  | inr differ ↦ rw differ
]

abbrev pub redis : Redis
redis = record {
  State = Store;
  get = store_get;
  ttl = store_ttl;
  incr = store_incr;
  expire = store_expire;
  get-incr = get-incr_store;
  get-expire = get-expire_store;
  ttl-incr = ttl-incr_store;
  ttl-expire = ttl-expire_store;
}

abbrev pub no_counters : Store
no_counters _ = none

-- Numbers and days as strokes.
abbrev pub strokes : ℕ → Text
strokes zero = []
strokes (suc n) = b'|' ∷ strokes n

pub strokes-injective : (m n : ℕ) → strokes m ≡ strokes n → m ≡ n
strokes-injective zero zero h = refl
strokes-injective zero (suc n) h = cc
strokes-injective (suc m) zero h = cc
strokes-injective (suc m) (suc n) h = ap suc (strokes-injective m n (cc h))

pub strokes-Lacks : (n : ℕ) → Lacks b':' (strokes n)
strokes-Lacks zero = tt
strokes-Lacks (suc n) = (refl, strokes-Lacks n)

abbrev pub unary : Printing
unary = record {
  decimal = strokes;
  calendar_day = strokes;
  decimal-injective = strokes-injective;
  calendar_day-injective = strokes-injective;
  decimal-Lacks = strokes-Lacks;
  calendar_day-Lacks = strokes-Lacks;
}
