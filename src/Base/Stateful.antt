-- ===== src/Base/Stateful.antt =====
-- Code that keeps what it has changed when it stops early: an error, an exception or an early return
-- comes with the state at that point.
use quantum_api.Base.Transaction.{Result, ok, err}
use quantum_api.Base.Tests.{if◌then◌else◌}
use mathlib.Core.Bool.{Bool}

abbrev pub Stateful : Type 0 → Type 0 → Type 0 → Type 0
Stateful S E A = S → S × Result E A

-- What follows a step that has run.
abbrev pub then_run : {S E A B : Type 0} → S × Result E A → (A → Stateful S E B) → S × Result E B
then_run (s, ok a) f = f a s
then_run (s, err e) f = (s, err e)

infixl 5 ◌>>=◌ ◌>>◌
abbrev pub ◌>>=◌ : {S E A B : Type 0} → Stateful S E A → (A → Stateful S E B) → Stateful S E B
◌>>=◌ m f s = then_run (m s) f

abbrev pub ◌>>◌ : {S E A B : Type 0} → Stateful S E A → Stateful S E B → Stateful S E B
m >> k = m >>= λ _. k

abbrev pub pure : {S E A : Type 0} → A → Stateful S E A
pure a s = (s, ok a)

abbrev pub stop : {S E A : Type 0} → E → Stateful S E A
stop e s = (s, err e)

abbrev pub stop_if : {S E : Type 0} → Bool → E → Stateful S E (Unit {0})
stop_if b e s = if b then (s, err e) else (s, ok tt)

-- What an end of a step satisfies: `P` where it stops early, `Q` where it goes on.
abbrev pub Ends : {S E A : Type 0} → (S → E → Type 0) → (S → A → Type 0) → S × Result E A → Type 0
Ends P Q (s, ok a) = Q s a
Ends P Q (s, err e) = P s e

pub Ends-then :
    {S E A B : Type 0} (P : S → E → Type 0) (Q : S → A → Type 0) (R : S → B → Type 0)
    (x : S × Result E A) (f : A → Stateful S E B)
    → Ends P Q x
    → ((a : A) (s : S) → Q s a → Ends P R (f a s))
    → Ends P R (then_run x f)
Ends-then P Q R (s, ok a) f h g = g a s h
Ends-then P Q R (s, err e) f h g = h
