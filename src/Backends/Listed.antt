-- ===== src/Backends/Listed.antt =====
-- The listing of backends is sorted, and holds what was asked for.
use mathlib.Core.Path.{subst}
use quantum_api.Base.{
  ℕ, suc, ◌≡◌, refl, ap, ◌∙◌, inl, inr, Bool, true, false, ◌&&◌, Option, none, some, List, [], ◌∷◌,
  arith, if◌then◌else◌, Bool-cases, All, count, select,
}
use quantum_api.Base.Text.{Text, text_eq}
use quantum_api.Base.Transaction.{Result, ok, err, Result-cases}
use quantum_api.Backends.{
  Provider, aer, ibm, Backend, BackendError, Runtime, text_le, insert_by, sort_by, Entry,
  provider_name, entry_le, passes, serialize_backend, entries_of, list_aer_backends,
  list_ibm_backends, raw_entries, list_backends,
}

module _ {ℓ} {A : Type ℓ} (le : A → A → Bool) where
  -- Each element is at most the next.
  abbrev pub Above : A → List A → Type 0
  Above a [] = Unit
  Above a (b ∷ _) = le a b ≡ true

  abbrev pub Ordered : List A → Type 0
  Ordered [] = Unit
  Ordered (a ∷ rest) = Above a rest × Ordered rest

  module _ (total : (a b : A) → le a b ≡ false → le b a ≡ true) where
    insert_by-Above :
        (a b : A) (rest : List A) → le b a ≡ true → Above b rest → Above b (insert_by le a rest)
    unfolding insert_by
    insert_by-Above a b [] h above = h
    insert_by-Above a b (c ∷ rest) h above = elim (Bool-cases (le a c)) [
      | inl first ↦ rw (insert_by, first) h
      | inr later ↦ rw (insert_by, later) above
    ]

    insert_by-Ordered : (a : A) (rest : List A) → Ordered rest → Ordered (insert_by le a rest)
    unfolding insert_by
    insert_by-Ordered a [] h = (tt, tt)
    insert_by-Ordered a (c ∷ rest) (above, h) = elim (Bool-cases (le a c)) [
      | inl first ↦ rw (insert_by, first) (first, (above, h))
      | inr later ↦
          rw (insert_by, later)
            (insert_by-Above a c rest (total a c later) above, insert_by-Ordered a rest h)
    ]

    sort_by-Ordered : (xs : List A) → Ordered (sort_by le xs)
    unfolding sort_by
    sort_by-Ordered [] = tt
    sort_by-Ordered (a ∷ rest) = insert_by-Ordered a (sort_by le rest) (sort_by-Ordered rest)

  -- Sorting keeps the number of elements of every kind.
  count-insert_by :
      (p : A → Bool) (a : A) (rest : List A) → count p (insert_by le a rest) ≡ count p (a ∷ rest)
  unfolding insert_by
  count-insert_by p a [] = refl
  count-insert_by p a (c ∷ rest) = elim (Bool-cases (le a c)) [
    | inl first ↦ rw (insert_by, first)
    | inr later ↦ rw (insert_by, later) (swapped (count-insert_by p a rest))
  ]
    where
      swapped :
          {m : ℕ} → m ≡ count p (a ∷ rest) → (if p c then suc m else m) ≡ count p (a ∷ c ∷ rest)
      swapped h = ground (arith, h)

  count-sort_by : (p : A → Bool) (xs : List A) → count p (sort_by le xs) ≡ count p xs
  unfolding sort_by
  count-sort_by p [] = refl
  count-sort_by p (a ∷ rest) =
      count-insert_by p a (sort_by le rest)
      ∙ ap (λ (n : ℕ). if p a then suc n else n) (count-sort_by p rest)

text_le-total : (s t : Text) → text_le s t ≡ false → text_le t s ≡ true
unfolding text_le
text_le-total [] t h = cc h
text_le-total (c ∷ s) [] h = refl
text_le-total (c ∷ s) (d ∷ t) h = ground (arith, text_le-total s t, h)

entry_le-total : (a b : Entry) → entry_le a b ≡ false → entry_le b a ≡ true
unfolding entry_le text_eq text_le
entry_le-total a b h = by_provider a.provider b.provider h
  where
    by_provider :
        (p q : Provider)
        → (if text_eq (provider_name p) (provider_name q)
            then text_le a.name b.name
            else text_le (provider_name p) (provider_name q))
          ≡ false
        → (if text_eq (provider_name q) (provider_name p)
            then text_le b.name a.name
            else text_le (provider_name q) (provider_name p))
          ≡ true
    by_provider aer aer e = text_le-total a.name b.name e
    by_provider ibm ibm e = text_le-total a.name b.name e
    by_provider aer ibm e = cc e
    by_provider ibm aer e = refl

-- The entries of a provider, where one is asked for.
abbrev pub IsOf : Option Provider → Entry → Type 0
IsOf none e = Unit
IsOf (some q) e = e.provider ≡ q

module _ {ℓ κ} {A : Type ℓ} (P : A → Type κ) where
  All-insert_by :
      (le : A → A → Bool) (a : A) (rest : List A) → P a → All P rest → All P (insert_by le a rest)
  unfolding insert_by
  All-insert_by le a [] h all = (h, tt)
  All-insert_by le a (c ∷ rest) h (hc, all) = elim (Bool-cases (le a c)) [
    | inl first ↦ rw (insert_by, first) (h, (hc, all))
    | inr later ↦ rw (insert_by, later) (hc, All-insert_by le a rest h all)
  ]

  All-sort_by : (le : A → A → Bool) (xs : List A) → All P xs → All P (sort_by le xs)
  unfolding sort_by
  All-sort_by le [] all = tt
  All-sort_by le (a ∷ rest) (h, all) =
      All-insert_by le a (sort_by le rest) h (All-sort_by le rest all)

-- What is listed of one provider is of it.
entries_of-IsOf : (q : Provider) (bs : List Backend) → All (IsOf (some q)) (entries_of q bs)
unfolding serialize_backend
entries_of-IsOf q [] = tt
entries_of-IsOf q (b ∷ bs) = (refl, entries_of-IsOf q bs)

any-IsOf : (entries : List Entry) → All (IsOf none) entries
any-IsOf [] = tt
any-IsOf (e ∷ entries) = (tt, any-IsOf entries)

abbrev RawOf : Option Provider → Result BackendError (List Entry × List BackendError) → Type 0
RawOf provider (ok (entries, _)) = All (IsOf provider) entries
RawOf provider (err _) = Unit

raw_entries-RawOf :
    (rt : Runtime) (provider : Option Provider) → RawOf provider (raw_entries rt provider)
unfolding raw_entries
raw_entries-RawOf rt (some aer) = elim (Result-cases (list_aer_backends rt)) [
  | inl (e, fails) ↦ rw (raw_entries, fails) tt
  | inr (bs, works) ↦ rw (raw_entries, works) (entries_of-IsOf aer bs)
]
raw_entries-RawOf rt (some ibm) = elim (Result-cases (list_ibm_backends rt)) [
  | inl (e, fails) ↦ rw (raw_entries, fails) tt
  | inr (bs, works) ↦ rw (raw_entries, works) (entries_of-IsOf ibm bs)
]
raw_entries-RawOf rt none = of_any (raw_entries rt none)
  where
    of_any : (result : Result BackendError (List Entry × List BackendError)) → RawOf none result
    of_any (ok (entries, _)) = any-IsOf entries
    of_any (err _) = tt

-- What an entry of the answer satisfies.
abbrev pub Asked : Option Provider → Bool → ℕ → Entry → Type 0
Asked provider simulator_only min_qubits e =
    (passes simulator_only min_qubits e ≡ true) × IsOf provider e

select-Asked :
    (provider : Option Provider) (simulator_only : Bool) (min_qubits : ℕ) (entries : List Entry)
    → All (IsOf provider) entries
    → All
        (Asked provider simulator_only min_qubits)
        (select (passes simulator_only min_qubits) entries)
select-Asked provider simulator_only min_qubits [] all = tt
select-Asked provider simulator_only min_qubits (e ∷ entries) (h, all) =
    elim (Bool-cases (passes simulator_only min_qubits e)) [
      | inl fits ↦ rw fits ((fits, h), select-Asked provider simulator_only min_qubits entries all)
      | inr other ↦ rw other (select-Asked provider simulator_only min_qubits entries all)
    ]

count-select :
    (p q : Entry → Bool) (entries : List Entry)
    → count p (select q entries) ≡ count (λ e. q e && p e) entries
count-select p q [] = refl
count-select p q (e ∷ entries) = ground (arith, count-select p q entries)

-- A listing that is given is in order of provider and name, holds only entries that pass the filter
-- and are of the provider asked for, and holds as many of every kind as were found and pass.
pub list_backends-Asked :
    (rt : Runtime) (provider : Option Provider) (simulator_only : Bool) (min_qubits : ℕ)
    (entries : List Entry) (warnings : List BackendError)
    → list_backends rt provider simulator_only min_qubits ≡ ok (entries, warnings)
    → Ordered entry_le entries
      × All (Asked provider simulator_only min_qubits) entries
      × ((found : List Entry) × (raw_entries rt provider ≡ ok (found, warnings))
          × ((p : Entry → Bool)
              → count p entries ≡ count (λ e. passes simulator_only min_qubits e && p e) found))
unfolding list_backends
list_backends-Asked rt provider simulator_only min_qubits entries warnings h =
    elim (Bool-cases rt.qiskit_available) [
      | inr lacks ↦ cc (rw (list_backends, lacks) at h)
      | inl has ↦ elim (Result-cases (raw_entries rt provider)) [
        | inl (e, fails) ↦ cc (rw (list_backends, has, fails) at h)
        | inr ((found, warned), works) ↦
            let all : All (IsOf provider) found = of_found found warned works in
            let given = rw (list_backends, has, works) at h in
            let same : sort_by entry_le (select (passes simulator_only min_qubits) found)
                ≡ entries =
              cc given in
            let warns : warned ≡ warnings = cc given in
            rw (← same, ← warns)
              (
                sort_by-Ordered entry_le entry_le-total
                    (select (passes simulator_only min_qubits) found),
                All-sort_by (Asked provider simulator_only min_qubits) entry_le _
                    (select-Asked provider simulator_only min_qubits found all),
                (found, works, counted found),
              )
      ]
    ]
  where
    of_found :
        (found : List Entry) (warned : List BackendError)
        → raw_entries rt provider ≡ ok (found, warned)
        → All (IsOf provider) found
    of_found found warned works = subst (RawOf provider) works (raw_entries-RawOf rt provider)

    counted :
        (found : List Entry) (p : Entry → Bool)
        → count p (sort_by entry_le (select (passes simulator_only min_qubits) found))
          ≡ count (λ e. passes simulator_only min_qubits e && p e) found
    counted found p =
        count-sort_by entry_le p _ ∙ count-select p (passes simulator_only min_qubits) found
