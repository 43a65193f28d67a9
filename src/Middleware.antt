-- ===== src/Middleware.antt =====
-- Requests and responses as src/quantum_api/middleware.py sees them.
pub mod Cors
pub mod Guarded
pub mod Dispatch
pub mod Admission
pub mod Admitted
pub mod Callers
pub mod Refined
use quantum_api.Base.{
  ℕ, ◌≡◌, refl, Bool, true, false, ◌&&◌, ◌+◌, Option, none, some, List, [], ◌∷◌, ◌++◌, leb,
  if◌then◌else◌,
}
use quantum_api.Base.Text.{Text, codes, text_eq, text_eq_refl}

-- A request; `header` is Starlette's look-up, which takes a name in any case.
pub record Request : Type 0 where
  pub method : Text
  pub path : Text
  pub header : Text → Option Text
  pub peer : Option Text

-- The content of a JSONResponse: that of an error, or of a rejection by the rate limiter.
pub data Content : Type 0 where
  error_content : Text → Text → Text → Content
  limit_content : Text → Text → ℕ → Text → Content

-- Header names that differ in case only are the same.
abbrev lower_letter : ℕ → ℕ
lower_letter c = if leb b'A' c && leb c b'Z' then c + 32 else c

abbrev lower_name : Text → Text
lower_name [] = []
lower_name (c ∷ s) = lower_letter c ∷ lower_name s

unfoldable pub same_header : Text → Text → Bool
unfolding text_eq
same_header a b = text_eq (lower_name a) (lower_name b)

pub same_header_refl : (name : Text) → same_header name name ≡ true
unfolding same_header
same_header_refl name = text_eq_refl (lower_name name)

-- Starlette's responses, with what it documents of them: a header that is set replaces the one of
-- its name and leaves the others.
pub record Http : Type 1 where
  pub Response : Type 0
  pub response : ℕ → List (Text × Text) → Response
  pub json : ℕ → List (Text × Text) → Content → Response
  pub status : Response → ℕ
  pub header : Text → Response → Option Text
  pub set_header : Text → Text → Response → Response
  pub status-response :
      (code : ℕ) (headers : List (Text × Text)) → status (response code headers) ≡ code
  pub status-json :
      (code : ℕ) (headers : List (Text × Text)) (c : Content) → status (json code headers c) ≡ code
  pub status-set_header :
      (name value : Text) (r : Response) → status (set_header name value r) ≡ status r
  pub header-response :
      (code : ℕ) (name value : Text) (rest : List (Text × Text))
      → header name (response code ((name, value) ∷ rest)) ≡ some value
  pub header-set_header :
      (name value : Text) (r : Response) → header name (set_header name value r) ≡ some value
  pub header-set_other :
      (name other value : Text) (r : Response)
      → same_header name other ≡ false
      → header name (set_header other value r) ≡ header name r

module _ (http : Http) where
  open http use {Response}

  -- `for name, value in …: response.headers[name] = value`
  unfoldable pub set_headers : List (Text × Text) → Response → Response
  set_headers [] r = r
  set_headers ((name, value) ∷ rest) r = set_headers rest (http.set_header name value r)

  pub status-set_headers :
      (headers : List (Text × Text)) (r : Response)
      → http.status (set_headers headers r) ≡ http.status r
  unfolding set_headers
  status-set_headers [] r = refl
  status-set_headers ((name, value) ∷ rest) r =
      rw (set_headers, status-set_headers rest (http.set_header name value r))
        (http.status-set_header name value r)
