-- ===== src/Random/Range.antt =====
-- Where the draws of Random.antt land.
use quantum_api.Base.{
  ℕ, zero, suc, ◌≡◌, inl, inr, true, List, [], ◌∷◌, arith, ◌==◌, length, Bool-cases, Option-cases,
  any, not, ◌||◌,
}
use quantum_api.Base.Int.{ℤ, pos, negsuc, ◌+ℤ◌, ◌-ℤ◌, ◌≤ℤ◌, int_laws}
use quantum_api.Random.{
  Draw, value, next_candidate, in_span, draw_loop, eq_ℤ, bounded_value, random_bit_width, RawResult,
  PubResult, pubs, bitstrings, no_list, random_value_from_result, random_job_shots, is_bad_bit,
  int_bits,
}

-- The value of a draw, if it has one, lies in the range.
abbrev pub Within : ℤ → ℤ → Draw → Type 0
Within minimum maximum (value v) = (minimum ≤ℤ v) × (v ≤ℤ maximum)
Within minimum maximum _ = Unit

in_span-lt : (c : ℕ) (span : ℤ) → in_span c span ≡ true → pos (suc c) ≤ℤ span
unfolding in_span
in_span-lt c (pos n) h = ground arith
in_span-lt c (negsuc n) h = cc

eq_ℤ-eq : (a b : ℤ) → eq_ℤ a b ≡ true → a ≡ b
unfolding eq_ℤ
eq_ℤ-eq (pos m) (pos n) h = ground arith
eq_ℤ-eq (negsuc m) (negsuc n) h = ground arith
eq_ℤ-eq (pos m) (negsuc n) h = cc
eq_ℤ-eq (negsuc m) (pos n) h = cc

-- A candidate below the span, added to the minimum, stays at or below the maximum.
candidate-Within :
    (c : ℕ) (minimum maximum : ℤ)
    → in_span c (maximum -ℤ minimum +ℤ pos 1) ≡ true
    → Within minimum maximum (value (minimum +ℤ pos c))
candidate-Within c minimum maximum h =
    let below = in_span-lt c (maximum -ℤ minimum +ℤ pos 1) h in (omega int_laws, omega int_laws)

module _ (width : ℕ) (minimum maximum : ℤ) where
  draw_loop-Within :
      (fuel : ℕ) (bits : List ℕ)
      → Within minimum maximum (draw_loop fuel width (maximum -ℤ minimum +ℤ pos 1) minimum bits)
  unfolding draw_loop
  draw_loop-Within zero bits = tt
  draw_loop-Within (suc fuel) bits = elim (Option-cases (next_candidate width 0 bits)) [
    | inl e ↦ rw (e, draw_loop) tt
    | inr ((c, rest), e) ↦ elim (Bool-cases (in_span c (maximum -ℤ minimum +ℤ pos 1))) [
      | inl h ↦ rw (e, draw_loop, h) (candidate-Within c minimum maximum h)
      | inr h ↦ rw (e, draw_loop, h) (draw_loop-Within fuel rest)
    ]
  ]

pub bounded_value-Within :
    (bits : List ℕ) (minimum maximum : ℤ)
    → minimum ≤ℤ maximum
    → Within minimum maximum (bounded_value bits minimum maximum)
unfolding bounded_value
bounded_value-Within bits minimum maximum h = elim (Bool-cases (eq_ℤ minimum maximum)) [
  | inl e ↦ rw e (omega arith, h)
  | inr e ↦
      rw e (
        draw_loop-Within (random_bit_width minimum maximum) minimum maximum (suc (length bits))
          bits)
]

-- Whatever the provider returned, a value that is drawn lies between the requested bounds.
pub random_value_from_result-Within :
    (raw : RawResult) (minimum maximum : ℤ)
    → minimum ≤ℤ maximum
    → Within minimum maximum (random_value_from_result raw minimum maximum)
unfolding random_value_from_result
random_value_from_result-Within (pubs (bitstrings bits ∷ [])) minimum maximum h =
    elim (Bool-cases
      (not (length bits == random_job_shots minimum maximum) || any is_bad_bit bits)) [
        | inl bad ↦ rw bad tt
        | inr fine ↦ rw fine (bounded_value-Within (int_bits bits) minimum maximum h)
      ]
random_value_from_result-Within RawResult.raises minimum maximum h = tt
random_value_from_result-Within (pubs []) minimum maximum h = tt
random_value_from_result-Within (pubs (no_list ∷ rest)) minimum maximum h = tt
random_value_from_result-Within (pubs (PubResult.raises ∷ rest)) minimum maximum h = tt
random_value_from_result-Within (pubs (bitstrings bits ∷ p ∷ rest)) minimum maximum h = tt
