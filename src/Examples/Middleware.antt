-- ===== src/Examples/Middleware.antt =====
-- Requests that pass the middleware with a user's token and with an API key, and one from an origin
-- that is not allowed.
use quantum_api.Base.{
  ℕ, ◌+◌, ◌⊎◌, ◌≡◌, refl, inl, true, false, Option, none, some, List, [], ◌∷◌, any, if◌then◌else◌,
}
use quantum_api.Base.Text.{
  Text, codes, text_eq, strip, strip_left, strip_right, is_empty, split, split_max, split_first,
  starts_with,
}
use quantum_api.Base.Transaction.{ok}
use quantum_api.Config.{prefix_of, requires_user_jwt, parsed_allow_origins, strip_each}
use quantum_api.Jwt.{
  Library, Header, decoded, AuthenticatedUser, Jwks, Refresh, Item, key, listed, key_of,
  parsed_keys, kid_of, check_token, verify_token, verify_authorization_header, extract_bearer_token,
  refresh_jwks_if_needed, jwk_for_kid, or_refreshed, fetch, read_header, accepted, user_of,
  email_of,
}
use quantum_api.Jwt.Verified.{Verified, verify_authorization_header-Verified}
use quantum_api.Jwt.Rotated.{verify_token-rotated}
use quantum_api.RateLimit.Limiter.{answered}
use quantum_api.Middleware.{Http, Request, Content, same_header, same_header_refl}
use quantum_api.Middleware.Cors.{
  CorsPolicy, is_preflight_request, lets_in, apply_cors_headers, cors_dispatch,
}
use quantum_api.Middleware.Guarded.{cors_dispatch-guarded, apply_cors_headers-lets_in}
use quantum_api.Middleware.Dispatch.{World, Surroundings}
use quantum_api.Middleware.Refined.{Refines, dispatch-Refines}
use quantum_api.Examples.Samples.{settings, ascii, weigh, redis, no_counters, unary}
use quantum_api.Examples.Auth.{raw_key, keys, cached, cached-Agrees}
use quantum_api.Examples.Config.{live, accepted_live, production}

-- A response, the headers set last first.
record Sent : Type 0 where
  code : ℕ
  headers : List (Text × Text)
  content : Option Content

abbrev find_header : Text → List (Text × Text) → Option Text
find_header name [] = none
find_header name ((k, v) ∷ rest) = if same_header name k then some v else find_header name rest

found_first :
    (name value : Text) (rest : List (Text × Text))
    → find_header name ((name, value) ∷ rest) ≡ some value
found_first name value rest = rw (same_header_refl name)

abbrev sent : Http
sent = record {
  Response = Sent;
  response = λ code headers. record { code = code; headers = headers; content = none };
  json = λ code headers content. record { code = code; headers = headers; content = some content };
  status = λ r. r.code;
  header = λ name r. find_header name r.headers;
  set_header = λ name value r. record r { headers = (name, value) ∷ r.headers };
  status-response = λ code headers. refl;
  status-json = λ code headers content. refl;
  status-set_header = λ name value r. refl;
  header-response = λ code name value rest. found_first name value rest;
  header-set_header = λ name value r. found_first name value r.headers;
  header-set_other = λ name other value r differs. rw differs;
}

-- A library that reads every token as one of the user "u", signed by the key "k".
abbrev trusting : Library
trusting = record {
  Key = ℕ;
  unverified_header = λ token. some (record { kid = some (codes "k"); alg = none });
  decode = λ k token algorithm audience issuer.
      decoded (record { sub = some (codes "u"); email = none });
}

abbrev rotated : Refresh ℕ
rotated = record { before = 5; locked = 6; answer = listed (key (some (codes "k")) 9 ∷ []) }

abbrev no_keys_yet : Jwks ℕ
no_keys_yet = record { by_kid = []; cached_at = 0 }

abbrev fields : Header
fields = record { kid = some (codes "k"); alg = none }

abbrev items : List (Item ℕ)
items = key (some (codes "k")) 9 ∷ []

named : is_empty (kid_of fields) ≡ false
unfolding kid_of strip strip_left strip_right
named = refl

lists_key : key_of (kid_of fields) (parsed_keys items []) ≡ some 9
unfolding kid_of parsed_keys strip strip_left strip_right text_eq
lists_key = refl

verify_token-rotated_example :
    (verify_token trusting ascii settings rotated rotated (codes "t") no_keys_yet).1
    ≡ check_token trusting ascii settings (codes "t") fields 9
verify_token-rotated_example =
    verify_token-rotated trusting ascii settings rotated rotated (codes "t") fields 9 items
      no_keys_yet refl named lists_key refl refl (inl refl)

abbrev bearer : Option Text
bearer = some (codes "Bearer t")

abbrev some_user : AuthenticatedUser
some_user = record {
  user_id = codes "u";
  email = none;
  claims = record { sub = some (codes "u"); email = none };
}

bearer_accepted :
    (verify_authorization_header trusting ascii settings rotated rotated bearer no_keys_yet).1
    ≡ ok some_user
unfolding verify_authorization_header extract_bearer_token verify_token read_header kid_of
    jwk_for_kid refresh_jwks_if_needed fetch parsed_keys or_refreshed accepted user_of email_of
    strip strip_left strip_right text_eq split_first
bearer_accepted = refl

verify_authorization_header-Verified_example :
    Verified trusting ascii settings bearer
      (verify_authorization_header trusting ascii settings rotated rotated bearer no_keys_yet).0
      some_user
verify_authorization_header-Verified_example =
    verify_authorization_header-Verified trusting ascii settings rotated rotated bearer no_keys_yet
      some_user bearer_accepted

-- A request for a route of keys, from another site.
abbrev request : Request
request = record {
  method = codes "GET";
  path = codes "/v1/keys";
  header = λ name.
      if same_header name (codes "origin")
      then some (codes "https://b.org")
      else if same_header name (codes "X-API-Key")
      then some raw_key
      else none;
  peer = none;
}

abbrev handler : ℕ → ℕ × Option Sent
handler w = (w + 1, some (record { code = 200; headers = []; content = none }))

private_route : requires_user_jwt live request.path ≡ true
unfolding requires_user_jwt prefix_of strip_right starts_with
private_route = refl

from_elsewhere : request.header (codes "origin") ≡ some (codes "https://b.org")
unfolding same_header text_eq
from_elsewhere = refl

unlisted : any (text_eq (codes "https://b.org")) (parsed_allow_origins live) ≡ false
unfolding parsed_allow_origins strip_each strip strip_left strip_right split split_max split_first
    text_eq
unlisted = refl

cors_dispatch-guarded_example :
    let result = cors_dispatch sent ascii live handler request 3 in
    ((is_preflight_request request ≡ true)
      × ((r : Sent) × (result ≡ (3, some r)) × ((r.code ≡ 400) ⊎ (r.code ≡ 404))))
    ⊎ ((is_preflight_request request ≡ false) × (result ≡ handler 3))
cors_dispatch-guarded_example =
    cors_dispatch-guarded sent ascii live handler request 3 (codes "https://b.org") accepted_live
      production private_route from_elsewhere unlisted

abbrev policy : CorsPolicy
policy = record {
  allow_all = false;
  allowed_origins = codes "https://b.org" ∷ [];
  expose_headers = codes "Retry-After" ∷ [];
}

lets_b_in : lets_in policy (codes "https://b.org") ≡ true
unfolding lets_in text_eq
lets_b_in = refl

apply_cors_headers-lets_in_example :
    find_header
      (codes "Access-Control-Allow-Origin")
      (apply_cors_headers sent ascii live request
        (some policy)
        (record { code = 200; headers = []; content = none })).headers
    ≡ some (codes "https://b.org")
apply_cors_headers-lets_in_example =
    apply_cors_headers-lets_in sent ascii live request policy (codes "https://b.org")
      (record { code = 200; headers = []; content = none }) from_elsewhere refl lets_b_in

abbrev surroundings : Surroundings ℕ
surroundings = record {
  uuid = codes "id";
  ip_evaluation = answered;
  ip_now = 1000000;
  key_evaluation = answered;
  key_now = 1000000;
  read_up = true;
  write_up = true;
  on_demand = rotated;
  forced = rotated;
}

abbrev world : World redis.State ℕ
world = record { counters = no_counters; cache = cached; jwks = no_keys_yet; database = keys }

dispatch-Refines_example :
    Refines sent redis trusting unary ascii weigh settings surroundings
      (record request { path = codes "/v1/jobs" })
      world
dispatch-Refines_example =
    dispatch-Refines sent redis trusting unary ascii weigh settings surroundings
      (record request { path = codes "/v1/jobs" }) world cached-Agrees
