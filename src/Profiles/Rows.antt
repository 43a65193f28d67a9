-- ===== src/Profiles/Rows.antt =====
-- Rows of which no two clash: what the writes and queries of Profiles/Table keep of it.
use mathlib.Core.Path.{subst}
use mathlib.Core.Bool.{false≢true}
use quantum_api.Base.{
  ℕ, ◌≡◌, refl, sym, ap, inl, inr, Bool, true, false, not, ◌&&◌, some, List, [], ◌∷◌, arith, ◌==◌,
  ==_iff, ==_refl, find, select, update, any, map, Bool-cases,
}
use quantum_api.Base.Text.{Text, text_eq, text_eq_iff}
use quantum_api.Base.Transaction.{ok}
use quantum_api.Profiles.Table.{
  Profile, has_id, is_default_of, same_name, scalar_one_or_none, put_profile,
}

abbrev pub Clash : Type 0
Clash = Profile → Profile → Bool

abbrev pub same_id : Clash
same_id p x = has_id p.id x

abbrev pub both_default : Clash
both_default p x = p.is_default && is_default_of p.owner_user_id x

-- No two rows clash.
abbrev pub Apart : Clash → List Profile → Type 0
Apart c [] = Unit
Apart c (x ∷ xs) = (any (c x) xs ≡ false) × Apart c xs

abbrev pub IsSymmetric : Clash → Type 0
IsSymmetric c = (x y : Profile) → c x y ≡ false → c y x ≡ false

eq_sym : (a b : ℕ) → (a == b) ≡ false → (b == a) ≡ false
eq_sym a b h = ground arith

text_eq_sym : (a b : Text) → text_eq a b ≡ text_eq b a
text_eq_sym a b = ground (arith, text_eq_iff a b, text_eq_iff b a)

pub same_id-IsSymmetric : IsSymmetric same_id
same_id-IsSymmetric x y h = eq_sym y.id x.id h

pub same_name-IsSymmetric : IsSymmetric same_name
same_name-IsSymmetric x y h = ground (arith, text_eq_sym x.profile_name y.profile_name)

pub both_default-IsSymmetric : IsSymmetric both_default
both_default-IsSymmetric x y h = ground arith

any-select :
    (p q : Profile → Bool) (xs : List Profile) → any p xs ≡ false → any p (select q xs) ≡ false
any-select p q [] h = refl
any-select p q (x ∷ xs) h = ground (arith, any-select p q xs)

pub Apart-select :
    (c : Clash) (q : Profile → Bool) (xs : List Profile) → Apart c xs → Apart c (select q xs)
Apart-select c q [] h = tt
Apart-select c q (x ∷ xs) h = elim (Bool-cases (q x)) [
  | inl kept ↦ rw kept (any-select (c x) q xs h.0, Apart-select c q xs h.1)
  | inr dropped ↦ rw dropped (Apart-select c q xs h.1)
]

-- A change of single rows that makes no new clash.
any-update :
    (p q r : Profile → Bool) (f : Profile → Profile) (xs : List Profile)
    → ((y : Profile) → r y ≡ false → p y ≡ false)
    → ((y : Profile) → r y ≡ false → p (f y) ≡ false)
    → any r xs ≡ false
    → any p (update q f xs) ≡ false
any-update p q r f [] same new h = refl
any-update p q r f (x ∷ xs) same new h = elim (Bool-cases (q x)) [
  | inl hit ↦ ground (arith, new x, any-update p q r f xs same new)
  | inr miss ↦ ground (arith, same x, any-update p q r f xs same new)
]

-- Changes that leave what a clash looks at.
abbrev pub Keeps : Clash → (Profile → Profile) → Type 0
Keeps c f =
    (x y : Profile)
    → c x y ≡ false
    → (c (f x) y ≡ false) × (c x (f y) ≡ false) × (c (f x) (f y) ≡ false)

pub Apart-update :
    (c : Clash) (q : Profile → Bool) (f : Profile → Profile) (xs : List Profile)
    → Keeps c f
    → Apart c xs
    → Apart c (update q f xs)
Apart-update c q f [] k h = tt
Apart-update c q f (x ∷ xs) k h = elim (Bool-cases (q x)) [
  | inl hit ↦ rw hit (
    any-update (c (f x)) q (c x) f xs (λ y e. (k x y e).0) (λ y e. (k x y e).2) h.0,
    Apart-update c q f xs k h.1,
  )
  | inr miss ↦ rw miss (
    any-update (c x) q (c x) f xs (λ y e. e) (λ y e. (k x y e).1) h.0,
    Apart-update c q f xs k h.1,
  )
]

-- What clashes with a row, its own replacement excepted.
abbrev pub others : Clash → Profile → Profile → Bool
others c p x = not (has_id p.id x) && c p x

any-others :
    (c : Clash) (p : Profile) (xs : List Profile)
    → any (has_id p.id) xs ≡ false
    → any (others c p) xs ≡ false
    → any (c p) xs ≡ false
any-others c p [] h g = refl
any-others c p (x ∷ xs) h g = ground (arith, any-others c p xs)

put-absent :
    (p : Profile) (xs : List Profile) → any (has_id p.id) xs ≡ false → map (put_profile p) xs ≡ xs
put-absent p [] h = refl
put-absent p (x ∷ xs) h = elim (Bool-cases (has_id p.id x)) [
  | inl hit ↦ absurd (false≢true (sym (rw hit at h)))
  | inr miss ↦ rw miss (ap (λ t. x ∷ t) (put-absent p xs (rw miss at h)))
]

any-put :
    (c : Clash) (p x : Profile) (xs : List Profile)
    → c x p ≡ false
    → any (c x) xs ≡ false
    → any (c x) (map (put_profile p) xs) ≡ false
any-put c p x [] h g = refl
any-put c p x (y ∷ ys) h g = elim (Bool-cases (has_id p.id y)) [
  | inl hit ↦ ground (arith, any-put c p x ys)
  | inr miss ↦ ground (arith, any-put c p x ys)
]

any-cong :
    (p q : Profile → Bool) (xs : List Profile)
    → ((y : Profile) → p y ≡ false → q y ≡ false)
    → any p xs ≡ false
    → any q xs ≡ false
any-cong p q [] k h = refl
any-cong p q (x ∷ xs) k h = ground (arith, k x, any-cong p q xs k)

-- Saving a row that clashes with no other keeps the rows apart.
pub Apart-put :
    (c : Clash) (p : Profile) (xs : List Profile)
    → IsSymmetric c
    → Apart same_id xs
    → any (others c p) xs ≡ false
    → Apart c xs
    → Apart c (map (put_profile p) xs)
Apart-put c p [] s d h a = tt
Apart-put c p (x ∷ xs) s d h a = elim (Bool-cases (has_id p.id x)) [
  | inl hit ↦
      let same : x.id ≡ p.id = (==_iff x.id p.id).0 hit in
      let gone : any (has_id p.id) xs ≡ false =
        any-cong (has_id x.id) (has_id p.id) xs (λ y e. ground (arith, e, same)) d.0 in
      let alone = any-others c p xs gone (ground arith) in
      rw (hit, put-absent p xs gone) (alone, a.1)
  | inr miss ↦
      rw miss
        (any-put c p x xs (s p x (ground arith)) a.0, Apart-put c p xs s d.1 (ground arith) a.1)
]

-- A row that is there clashes with no other.
pub others-Apart :
    (c : Clash) (k : ℕ) (xs : List Profile) {p : Profile}
    → IsSymmetric c
    → Apart c xs
    → find (has_id k) xs ≡ some p
    → any (others c p) xs ≡ false
others-Apart c k [] s a h = refl
others-Apart c k (x ∷ xs) {p} s a h = elim (Bool-cases (has_id k x)) [
  | inl hit ↦
      let same : x ≡ p = cc (rw hit at h) in
      subst (λ (t : Profile). any (others c t) (x ∷ xs) ≡ false) same
        (rw (==_refl x.id) (any-cong (c x) (others c x) xs (λ y e. ground (arith, e)) a.0))
  | inr miss ↦
      let found = rw miss at h in
      ground (arith, others-Apart c k xs s a.1 found, s x p (found_apart c x k xs a.0 found))
]
  where
    found_apart :
        (c : Clash) (x : Profile) (k : ℕ) (xs : List Profile) {p : Profile}
        → any (c x) xs ≡ false
        → find (has_id k) xs ≡ some p
        → c x p ≡ false
    found_apart c x k [] a h = cc
    found_apart c x k (y ∷ ys) {p} a h = elim (Bool-cases (has_id k y)) [
      | inl hit ↦ let same : y ≡ p = cc (rw hit at h) in rw (← same) (ground arith)
      | inr miss ↦ found_apart c x k ys (ground arith) (rw miss at h)
    ]

none-selected : (p : Profile → Bool) (xs : List Profile) → any p xs ≡ false → select p xs ≡ []
none-selected p [] h = refl
none-selected p (x ∷ xs) h = ground (arith, none-selected p xs)

-- A query whose answers clash finds one row at most, the first.
pub select-one :
    (c : Clash) (p : Profile → Bool) (xs : List Profile)
    → ((x y : Profile) → p x ≡ true → c x y ≡ false → p y ≡ false)
    → Apart c xs
    → scalar_one_or_none (select p xs) ≡ ok (find p xs)
select-one c p [] k a = refl
select-one c p (x ∷ xs) k a = elim (Bool-cases (p x)) [
  | inl hit ↦ rw (hit, none-selected p xs (any-cong (c x) p xs (λ y e. k x y hit e) a.0))
  | inr miss ↦ rw miss (select-one c p xs k a.1)
]
