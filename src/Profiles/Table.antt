-- ===== src/Profiles/Table.antt =====
-- The rows of IBMProfileRecordModel, the values made of them, and the queries, of
-- src/quantum_api/ibm_credentials.py. Identifiers and owners are only compared, so they are naturals.
use quantum_api.Base.{
  ℕ, zero, suc, ◌≡◌, Bool, false, not, ◌&&◌, ◌||◌, Option, none, some, List, [], ◌∷◌, ◌++◌, ◌==◌,
  leb, length, map, if◌then◌else◌, find, select, update, any,
}
use quantum_api.Base.Text.{Text, codes, text_eq, strip, is_empty}
use quantum_api.Base.Transaction.{Transaction, Result, ok, err}
use mathlib.Core.List.{reverse}

pub record Profile : Type 0 where
  pub id : ℕ
  pub owner_user_id : ℕ
  pub profile_name : Text
  pub token_ciphertext : Text
  pub masked_token : Text
  pub instance_name : Text
  pub channel : Text
  pub is_default : Bool
  pub verification_status : Text
  pub last_verified_at : Option ℕ
  pub created_at : ℕ
  pub updated_at : ℕ

pub record ResolvedCredentials : Type 0 where
  pub owner_user_id : Option ℕ
  pub profile_id : Option ℕ
  pub profile_name : Option Text
  pub instance_name : Text
  pub channel : Text
  pub masked_token : Text
  pub token : Text
  pub token_ciphertext : Text
  pub origin : Text

-- `multiple_results` is SQLAlchemy's MultipleResultsFound, `integrity_error` a violated primary key
-- or unique constraint.
pub data ProfileError : Type 0 where
  not_found default_missing conflict encryption_unavailable multiple_results integrity_error :
      ProfileError

abbrev pub Profiles : Type 0
Profiles = List Profile

abbrev pub Session : Type 0 → Type 0
Session A = Transaction Profiles ProfileError A

-- Fernet with a key derived from the secret: a token is encrypted with fresh random bytes, and
-- decrypted with the same secret.
pub record Cipher : Type 0 where
  pub encrypt : Text → ℕ → Text → Text
  pub decrypt : Text → Text → Option Text
  pub decrypt-encrypt :
      (secret : Text) (bytes : ℕ) (value : Text)
      → decrypt secret (encrypt secret bytes value) ≡ some value

abbrev take : ℕ → Text → Text
take zero s = []
take (suc n) [] = []
take (suc n) (c ∷ s) = c ∷ take n s

-- `s[-n:]`
abbrev last : ℕ → Text → Text
last n s = reverse (take n (reverse s))

unfoldable pub mask_ibm_token : Text → Text
mask_ibm_token raw =
    let stripped = strip raw in
    if is_empty stripped
    then codes "********"
    else if leb (length stripped) 8
    then codes "****" ++ last 2 stripped
    else take 4 stripped ++ (codes "..." ++ last 4 stripped)

abbrev pub has_id : ℕ → Profile → Bool
has_id k p = p.id == k

abbrev pub is_owned_by : ℕ → Profile → Bool
is_owned_by o p = p.owner_user_id == o

abbrev pub is_named : ℕ → Text → Profile → Bool
is_named o name p = is_owned_by o p && text_eq p.profile_name name

abbrev pub is_default_of : ℕ → Profile → Bool
is_default_of o p = is_owned_by o p && p.is_default

-- `row.scalar_one_or_none()`
abbrev pub scalar_one_or_none {ℓ} : {A : Type ℓ} → List A → Result ProfileError (Option A)
scalar_one_or_none [] = ok none
scalar_one_or_none (x ∷ []) = ok (some x)
scalar_one_or_none (_ ∷ _ ∷ _) = err multiple_results

-- `_profile_by_name` and `_default_profile`
unfoldable pub query : (Profile → Bool) → Session (Option Profile)
query p rows = elim (scalar_one_or_none (select p rows)) [
  | ok found ↦ ok (found, rows)
  | err e ↦ err e
]

unfoldable pub profile_by_name : ℕ → Text → Session (Option Profile)
unfolding query
profile_by_name o name = query (is_named o name)

unfoldable pub default_profile : ℕ → Session (Option Profile)
unfolding query
default_profile o = query (is_default_of o)

-- `_owned_profile_by_id`
unfoldable pub owned_profile_by_id : ℕ → ℕ → Session Profile
owned_profile_by_id o k rows = elim (find (has_id k) rows) [
  | none ↦ err not_found
  | some p ↦ if is_owned_by o p then ok (p, rows) else err not_found
]

abbrev pub undefault : ℕ → Profile → Profile
undefault now p = record p { is_default = false; updated_at = now }

-- `_clear_default_profile`
unfoldable pub clear_default_profile : ℕ → ℕ → Session (Unit {0})
clear_default_profile o now rows = ok (tt, update (is_default_of o) (undefault now) rows)

-- The row with a primary key is replaced; the unique constraint is checked against the others.
abbrev pub same_name : Profile → Profile → Bool
same_name p x = is_named p.owner_user_id p.profile_name x

unfoldable pub insert_profile : Profile → Session (Unit {0})
insert_profile p rows =
    if any (λ x. has_id p.id x || same_name p x) rows
    then err integrity_error
    else ok (tt, p ∷ rows)

abbrev pub put_profile : Profile → Profile → Profile
put_profile p x = if has_id p.id x then p else x

unfoldable pub save_profile : Profile → Session (Unit {0})
save_profile p rows =
    if any (λ x. not (has_id p.id x) && same_name p x) rows
    then err integrity_error
    else ok (tt, map (put_profile p) rows)

unfoldable pub remove_profile : Profile → Session (Unit {0})
remove_profile p rows = ok (tt, select (λ x. not (has_id p.id x)) rows)
