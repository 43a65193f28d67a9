-- ===== src/Keys/Rows.antt =====
-- What the updates of a table do to its counts and to the rows of others.
use quantum_api.Base.{
  ℕ, suc, ◌≤◌, ◌≡◌, ◌∙◌, refl, inl, inr, Bool, true, false, none, some, List, [], ◌∷◌, arith, ◌==◌,
  count, select, any, find, All, Bool-cases,
}
use mathlib.Core.Option.{some-injective}
use mathlib.Core.Path.{subst, sym}
use quantum_api.Keys.Table.{active_count, has_prefix, ApiKeyRecord, modify_key, has_id}

-- Deleting rows lowers a count.
pub count-select-le {ℓ} :
    {A : Type ℓ} (p q : A → Bool) (xs : List A) → count p (select q xs) ≤ count p xs
count-select-le p q [] = omega arith
count-select-le p q (x ∷ xs) = ground (arith, count-select-le p q xs)

-- A write that makes no row count which did not count before raises no count.
pub count-modify-le :
    (p : ApiKeyRecord → Bool) (k : ℕ) (f : ApiKeyRecord → ApiKeyRecord) (xs : List ApiKeyRecord)
    → ((r : ApiKeyRecord) → p (f r) ≡ true → p r ≡ true)
    → count p (modify_key k f xs) ≤ count p xs
count-modify-le p k f [] h = omega arith
count-modify-le p k f (x ∷ xs) h = ground (arith, h x, count-modify-le p k f xs h)

-- A write that leaves what is counted alone keeps the count.
pub count-modify-eq :
    (p : ApiKeyRecord → Bool) (k : ℕ) (f : ApiKeyRecord → ApiKeyRecord) (xs : List ApiKeyRecord)
    → ((r : ApiKeyRecord) → p (f r) ≡ p r)
    → count p (modify_key k f xs) ≡ count p xs
count-modify-eq p k f [] h = refl
count-modify-eq p k f (x ∷ xs) h = ground (arith, h x, count-modify-eq p k f xs h)

abbrev pub Update : Type 0
Update = ApiKeyRecord → ApiKeyRecord

-- No two rows agree in a column.
abbrev pub Distinct : (ApiKeyRecord → ApiKeyRecord → Bool) → List ApiKeyRecord → Type 0
Distinct same [] = Unit
Distinct same (r ∷ rs) = (any (same r) rs ≡ false) × Distinct same rs

abbrev pub same_id : ApiKeyRecord → ApiKeyRecord → Bool
same_id r = has_id r.id

abbrev pub same_prefix : ApiKeyRecord → ApiKeyRecord → Bool
same_prefix r = has_prefix r.key_prefix

-- The primary key, and the unique column.
abbrev pub DistinctIds : List ApiKeyRecord → Type 0
DistinctIds = Distinct same_id

abbrev pub DistinctPrefixes : List ApiKeyRecord → Type 0
DistinctPrefixes = Distinct same_prefix

pub any-modify :
    (p : ApiKeyRecord → Bool) (k : ℕ) (f : Update) (xs : List ApiKeyRecord)
    → ((r : ApiKeyRecord) → p (f r) ≡ p r)
    → any p (modify_key k f xs) ≡ any p xs
any-modify p k f [] h = refl
any-modify p k f (x ∷ xs) h = ground (arith, h x, any-modify p k f xs h)

pub any-select {ℓ} :
    {A : Type ℓ} (p q : A → Bool) (xs : List A) → any p xs ≡ false → any p (select q xs) ≡ false
any-select p q [] h = refl
any-select p q (x ∷ xs) h = ground (arith, any-select p q xs)

pub any_ext {ℓ} :
    {A : Type ℓ} (p q : A → Bool) (xs : List A) → ((x : A) → p x ≡ q x) → any p xs ≡ any q xs
any_ext p q [] h = refl
any_ext p q (x ∷ xs) h = ground (arith, h x, any_ext p q xs h)

-- A search that finds nothing.
pub any_of_find {ℓ} :
    {A : Type ℓ} (p : A → Bool) (xs : List A) → find p xs ≡ none → any p xs ≡ false
any_of_find p [] h = refl
any_of_find p (x ∷ xs) h = ground (arith, any_of_find p xs)

-- A deletion keeps what it does not ask for.
pub any-select_kept {ℓ} :
    {A : Type ℓ} (p q : A → Bool) (xs : List A)
    → ((x : A) → p x ≡ true → q x ≡ true)
    → any p xs ≡ true
    → any p (select q xs) ≡ true
any-select_kept p q [] keep h = cc
any-select_kept p q (x ∷ xs) keep h = ground (arith, keep x, any-select_kept p q xs keep)

pub Distinct-modify :
    (same : ApiKeyRecord → ApiKeyRecord → Bool) (k : ℕ) (f : Update) (xs : List ApiKeyRecord)
    → ((r x : ApiKeyRecord) → same (f r) x ≡ same r x)
    → ((r x : ApiKeyRecord) → same r (f x) ≡ same r x)
    → Distinct same xs
    → Distinct same (modify_key k f xs)
Distinct-modify same k f [] g h d = tt
Distinct-modify same k f (x ∷ xs) g h d = elim (Bool-cases (x.id == k)) [
  | inl here ↦ rw here (any_ext (same (f x)) (same x) xs (g x) ∙ d.0, d.1)
  | inr there ↦
      rw there (any-modify (same x) k f xs (h x) ∙ d.0, Distinct-modify same k f xs g h d.1)
]

pub Distinct-select :
    (same : ApiKeyRecord → ApiKeyRecord → Bool) (q : ApiKeyRecord → Bool) (xs : List ApiKeyRecord)
    → Distinct same xs
    → Distinct same (select q xs)
Distinct-select same q [] d = tt
Distinct-select same q (x ∷ xs) d =
    ground (arith, Distinct-select same q xs d.1, any-select (same x) q xs)

pub All-select {ℓ κ} :
    {A : Type ℓ} (P : A → Type κ) (q : A → Bool) (xs : List A) → All P xs → All P (select q xs)
All-select P q [] h = tt
All-select P q (x ∷ xs) h = elim (Bool-cases (q x)) [
  | inl kept ↦ rw kept (h.0, All-select P q xs h.1)
  | inr dropped ↦ rw dropped (All-select P q xs h.1)
]

pub All-select_map {ℓ κ μ} :
    {A : Type ℓ} (P : A → Type κ) (Q : A → Type μ) (q : A → Bool) (xs : List A)
    → ((x : A) → q x ≡ true → P x → Q x)
    → All P xs
    → All Q (select q xs)
All-select_map P Q q [] f h = tt
All-select_map P Q q (x ∷ xs) f h = elim (Bool-cases (q x)) [
  | inl kept ↦ rw kept (f x kept h.0, All-select_map P Q q xs f h.1)
  | inr dropped ↦ rw dropped (All-select_map P Q q xs f h.1)
]

-- The first row, if it has the identifier, is the row that is found.
pub found_here :
    (k : ℕ) (x : ApiKeyRecord) (xs : List ApiKeyRecord) {r : ApiKeyRecord}
    → find (has_id k) (x ∷ xs) ≡ some r
    → (x.id == k) ≡ true
    → x ≡ r
found_here k x xs {r} e here = some-injective x r (rw here at e)

pub All-modify {κ} :
    (P : ApiKeyRecord → Type κ) (k : ℕ) (f : Update) (xs : List ApiKeyRecord) {r : ApiKeyRecord}
    → find (has_id k) xs ≡ some r
    → P (f r)
    → All P xs
    → All P (modify_key k f xs)
All-modify P k f [] e pf h = tt
All-modify P k f (x ∷ xs) e pf h = elim (Bool-cases (x.id == k)) [
  | inl here ↦ rw here (subst (λ t. P (f t)) (sym (found_here k x xs e here)) pf, h.1)
  | inr there ↦ rw there (h.0, All-modify P k f xs (rw there at e) pf h.1)
]

-- A write to a row that counted, after which it does not count, lowers the count by one.
pub count-modify_retire :
    (p : ApiKeyRecord → Bool) (k : ℕ) (f : Update) (xs : List ApiKeyRecord) {r : ApiKeyRecord}
    → find (has_id k) xs ≡ some r
    → p r ≡ true
    → p (f r) ≡ false
    → suc (count p (modify_key k f xs)) ≡ count p xs
count-modify_retire p k f [] e a b = cc
count-modify_retire p k f (x ∷ xs) {r} e a b = elim (Bool-cases (x.id == k)) [
  | inl here ↦
      let same : x ≡ r = found_here k x xs e here in
      let was : p x ≡ true = rw same a in
      let now : p (f x) ≡ false = rw same b in rw (here, was, now)
  | inr there ↦
      let rest = count-modify_retire p k f xs (rw there at e) a b in rw there (ground (arith, rest))
]

-- With distinct identifiers an exclusion leaves out one row at most.
none_excluded :
    (o k : ℕ) (xs : List ApiKeyRecord)
    → any (has_id k) xs ≡ false
    → active_count o none xs ≡ active_count o (some k) xs
none_excluded o k [] h = refl
none_excluded o k (x ∷ xs) h = ground (arith, none_excluded o k xs)

pub active_count-excluding :
    (o k : ℕ) (xs : List ApiKeyRecord)
    → DistinctIds xs
    → active_count o none xs ≤ suc (active_count o (some k) xs)
active_count-excluding o k [] d = omega arith
active_count-excluding o k (x ∷ xs) d = elim (Bool-cases (x.id == k)) [
  | inl here ↦
      let same : x.id ≡ k = ground arith in
      let rest = none_excluded o k xs (rw same at d.0) in ground (arith, rest)
  | inr there ↦ let rest = active_count-excluding o k xs d.1 in ground (arith, rest)
]
