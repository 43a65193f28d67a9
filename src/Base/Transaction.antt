-- ===== src/Base/Transaction.antt =====
-- A database transaction over any tables: what is pending is written at its end, and an exception
-- rolls all of it back, so an error carries no state.
use mathlib.Core.Path.{◌≡◌, refl}
use mathlib.Core.Logic.{◌⊎◌, inl, inr}
use mathlib.Core.Bool.{Bool}
use quantum_api.Base.Tests.{if◌then◌else◌}

pub data Result {ℓ κ} (E : Type ℓ) (A : Type κ) : Type (ℓ ⊔ κ) where
  ok : A → Result E A
  err : E → Result E A

abbrev pub Transaction : Type 0 → Type 0 → Type 0 → Type 0
Transaction S E A = S → Result E (A × S)

infixl 5 ◌>>=◌ ◌>>◌
abbrev pub ◌>>=◌ :
    {S E A B : Type 0} → Transaction S E A → (A → Transaction S E B) → Transaction S E B
◌>>=◌ m f s = elim (m s) [ ok (a, s') ↦ f a s' | err e ↦ err e ]

abbrev pub ◌>>◌ : {S E A B : Type 0} → Transaction S E A → Transaction S E B → Transaction S E B
m >> k = m >>= λ _. k

abbrev pub pure : {S E A : Type 0} → A → Transaction S E A
pure a s = ok (a, s)

abbrev pub raise : {S E A : Type 0} → E → Transaction S E A
raise e s = err e

abbrev pub gets : {S E A : Type 0} → (S → A) → Transaction S E A
gets f s = ok (f s, s)

abbrev pub raise_if : {S E : Type 0} → Bool → E → Transaction S E (Unit {0})
raise_if b e s = if b then err e else ok (tt, s)

abbrev pub modify : {S E : Type 0} → (S → S) → Transaction S E (Unit {0})
modify f s = ok (tt, f s)

-- The tables after a call, which an exception leaves as they were.
abbrev pub after : {S E A : Type 0} → S → Result E (A × S) → S
after s (ok (_, s')) = s'
after s (err _) = s

pub Result-cases {ℓ κ} :
    {E : Type ℓ} {A : Type κ} (r : Result E A) → ((e : E) × (r ≡ err e)) ⊎ ((a : A) × (r ≡ ok a))
Result-cases (ok a) = inr (a, refl)
Result-cases (err e) = inl (e, refl)
