-- ===== src/Random/Supply.antt =====
-- How many measurements a draw consumes: the loop ends, the submitted shots are enough where the
-- span is a power of two, and measurements that are not needed do not change the value.
use native.Mathlib.Nat.{two-pow-succ}
use Prim.Native.Nat.{bit_or}
use quantum_api.Base.{
  ℕ, zero, suc, ◌+◌, ◌*◌, ◌^◌, ◌≤◌, ◌<◌, ◌≡◌, refl, ◌≢◌, inl, inr, ap, true, false, Option, none,
  some, List, [], ◌∷◌, ◌++◌, arith, ◌==◌, length, Bool-cases, Option-cases, any, All, length-append,
  ==_iff, lt→ltb,
}
use quantum_api.Base.Bits.{append_bit, bit_length_pos, power_of_two}
use quantum_api.Base.Int.{ℤ, pos, negsuc, ◌+ℤ◌, ◌-ℤ◌, ◌≤ℤ◌, -ℤ_parts}
use quantum_api.Base.Text.{Text}
use quantum_api.Random.{
  value, out_of_fuel, next_candidate, in_span, draw_loop, eq_ℤ, bounded_value, random_bit_width,
  pubs, bitstrings, random_value_from_result, random_job_shots, is_bad_bit, int_bits,
  no_common_bits,
}

-- A candidate takes exactly `width` bits off the front.
pub length-next_candidate :
    (width c : ℕ) (bits : List ℕ) {c' : ℕ} {rest : List ℕ}
    → next_candidate width c bits ≡ some (c', rest)
    → length bits ≡ width + length rest
unfolding next_candidate
length-next_candidate zero c bits h = ground arith
length-next_candidate (suc width) c [] h = cc
length-next_candidate (suc width) c (bit ∷ bits) h =
    omega (arith, length-next_candidate width (bit_or (c * 2) bit) bits h)

draw_loop-fuel :
    (fuel width : ℕ) (span minimum : ℤ) (bits : List ℕ)
    → 0 < width
    → length bits < fuel
    → draw_loop fuel width span minimum bits ≢ out_of_fuel
unfolding draw_loop
draw_loop-fuel zero width span minimum bits w h = elim h [ ]
draw_loop-fuel (suc fuel) width span minimum bits w h =
    elim (Option-cases (next_candidate width 0 bits)) [
      | inl e ↦ rw (e, draw_loop) (λ p. cc p)
      | inr ((c, rest), e) ↦ elim (Bool-cases (in_span c span)) [
        | inl s ↦ rw (e, draw_loop, s) (λ p. cc p)
        | inr s ↦
            rw (e, draw_loop, s)
              (draw_loop-fuel fuel width span minimum rest w
                (omega (arith, length-next_candidate width 0 bits e)))
      ]
    ]

eq_ℤ-complete : (a b : ℤ) → b -ℤ a ≡ pos 0 → eq_ℤ a b ≡ true
unfolding eq_ℤ ◌-ℤ◌
eq_ℤ-complete (pos m) (pos n) h = ground arith
eq_ℤ-complete (negsuc m) (negsuc n) h = ground arith
eq_ℤ-complete (pos m) (negsuc n) h = ground arith
eq_ℤ-complete (negsuc m) (pos n) h = ground arith

-- Different bounds need a bit at least.
random_bit_width_pos :
    (minimum maximum d : ℤ)
    → maximum -ℤ minimum ≡ d
    → eq_ℤ minimum maximum ≡ false
    → 0 < random_bit_width minimum maximum
unfolding random_bit_width
random_bit_width_pos minimum maximum (pos zero) e h = cc (eq_ℤ-complete minimum maximum e)
random_bit_width_pos minimum maximum (pos (suc n)) e h = rw (e, random_bit_width) (bit_length_pos n)
random_bit_width_pos minimum maximum (negsuc n) e h = rw (e, random_bit_width) (bit_length_pos n)

-- The draw always ends: it returns a value, or it raises because the measurements are used up.
pub bounded_value-ends :
    (bits : List ℕ) (minimum maximum : ℤ) → bounded_value bits minimum maximum ≢ out_of_fuel
unfolding bounded_value
bounded_value-ends bits minimum maximum = elim (Bool-cases (eq_ℤ minimum maximum)) [
  | inl e ↦ rw e (λ p. cc p)
  | inr e ↦ rw e (
      draw_loop-fuel (suc (length bits)) (random_bit_width minimum maximum)
        (maximum -ℤ minimum +ℤ pos 1) minimum bits
        (random_bit_width_pos minimum maximum (maximum -ℤ minimum) refl e) (omega arith))
]

abbrev pub AreBits : List ℕ → Type 0
AreBits = All (λ b. b < 2)

scaled_bound : (c bit p : ℕ) → bit < 2 → suc (c * 2 + bit) * p ≤ suc c * (p + p)
scaled_bound c bit p h = grind arith

appended_bound :
    (c bit c' width : ℕ)
    → bit < 2
    → c' < suc (bit_or (c * 2) bit) * 2 ^ width
    → c' < suc c * 2 ^ suc width
appended_bound c bit c' width b h =
    let below : c' < suc (c * 2 + bit) * 2 ^ width = rw (append_bit c bit b) at h in
    rw two-pow-succ (omega (arith, below, scaled_bound c bit (2 ^ width) b))

-- With bits enough there is a candidate, and it has at most `width` digits more than it had.
next_candidate_total :
    (width c : ℕ) (bits : List ℕ)
    → AreBits bits
    → width ≤ length bits
    → (c' : ℕ) × (rest : List ℕ) × (next_candidate width c bits ≡ some (c', rest))
      × (c' < suc c * 2 ^ width)
unfolding next_candidate
next_candidate_total zero c bits a h = (c, bits, refl, omega arith)
next_candidate_total (suc width) c [] a h = elim h [ ]
next_candidate_total (suc width) c (bit ∷ bits) a h =
    let (c', rest, e, l) = next_candidate_total width (bit_or (c * 2) bit) bits a.1 (omega arith) in
    (c', rest, e, appended_bound c bit c' width a.0 l)

-- A span of 2 ^ width values rejects no candidate, so the first one is the value.
draw_loop_full :
    (fuel width : ℕ) (minimum : ℤ) (bits : List ℕ)
    → AreBits bits
    → width ≤ length bits
    → (v : ℤ) × (draw_loop (suc fuel) width (pos (2 ^ width)) minimum bits ≡ value v)
unfolding draw_loop
draw_loop_full fuel width minimum bits a h =
    let (c, rest, e, l) = next_candidate_total width 0 bits a h in
    let inside : in_span c (pos (2 ^ width)) ≡ true =
      unfold in_span in lt→ltb c (2 ^ width) (omega arith) in
    (minimum +ℤ pos c, rw (e, draw_loop, inside))

suc_ℤ : (n : ℕ) → pos n +ℤ pos 1 ≡ pos (suc n)
unfolding ◌+ℤ◌
suc_ℤ n = ground arith

-- In a range whose span has one binary digit set, the span is 2 to the width.
span_full :
    (minimum maximum d : ℤ)
    → maximum -ℤ minimum ≡ d
    → minimum ≤ℤ maximum
    → no_common_bits (maximum -ℤ minimum +ℤ pos 1) ≡ true
    → maximum -ℤ minimum +ℤ pos 1 ≡ pos (2 ^ random_bit_width minimum maximum)
unfolding no_common_bits random_bit_width
span_full minimum maximum (pos n) e h p =
    let counted : no_common_bits (pos (suc n)) ≡ true = rw (e, suc_ℤ n) at p in
    rw (e, random_bit_width, suc_ℤ n) (ap pos (power_of_two n ((==_iff _ 0).0 counted)))
span_full minimum maximum (negsuc n) e h p =
    let parts = rw e at (-ℤ_parts maximum minimum) in absurd (omega (arith, parts))

AreBits-int_bits : (bits : List (Option Text)) → AreBits (int_bits bits)
unfolding int_bits
AreBits-int_bits [] = tt
AreBits-int_bits (none ∷ bits) = (omega arith, AreBits-int_bits bits)
AreBits-int_bits (some s ∷ bits) = ground (arith, AreBits-int_bits bits)

length-int_bits : (bits : List (Option Text)) → length (int_bits bits) ≡ length bits
unfolding int_bits
length-int_bits [] = refl
length-int_bits (b ∷ bits) = ap suc (length-int_bits bits)

shots-ge-width :
    (minimum maximum : ℤ) → random_bit_width minimum maximum ≤ random_job_shots minimum maximum
unfolding random_job_shots
shots-ge-width minimum maximum = ground arith

bounded_value_full :
    (bits : List ℕ) (minimum maximum : ℤ)
    → minimum ≤ℤ maximum
    → no_common_bits (maximum -ℤ minimum +ℤ pos 1) ≡ true
    → AreBits bits
    → random_bit_width minimum maximum ≤ length bits
    → (v : ℤ) × (bounded_value bits minimum maximum ≡ value v)
unfolding bounded_value
bounded_value_full bits minimum maximum h p a enough = elim (Bool-cases (eq_ℤ minimum maximum)) [
  | inl e ↦ (minimum, rw e)
  | inr e ↦
      let width = random_bit_width minimum maximum in
      let (v, drawn) = draw_loop_full (length bits) width minimum bits a enough in
      (v, rw (e, span_full minimum maximum (maximum -ℤ minimum) refl h p) drawn)
]

-- If the requested range holds a power of two of values, then well-formed measurements, as many as
-- the job submitted, always give a value: such a job is never rejected.
pub random_value_from_result_full :
    (bits : List (Option Text)) (minimum maximum : ℤ)
    → minimum ≤ℤ maximum
    → no_common_bits (maximum -ℤ minimum +ℤ pos 1) ≡ true
    → length bits ≡ random_job_shots minimum maximum
    → any is_bad_bit bits ≡ false
    → (v : ℤ) × (random_value_from_result (pubs (bitstrings bits ∷ [])) minimum maximum ≡ value v)
unfolding random_value_from_result
random_value_from_result_full bits minimum maximum h p counted good =
    let shots : (length bits == random_job_shots minimum maximum) ≡ true = (==_iff _ _).1 counted in
    let (v, drawn) =
      bounded_value_full (int_bits bits) minimum maximum h p (AreBits-int_bits bits)
        (omega (arith, length-int_bits bits, shots-ge-width minimum maximum, counted)) in
    (v, rw (shots, good) drawn)

next_candidate-append :
    (width c : ℕ) (bits more : List ℕ) {c' : ℕ} {rest : List ℕ}
    → next_candidate width c bits ≡ some (c', rest)
    → next_candidate width c (bits ++ more) ≡ some (c', rest ++ more)
unfolding next_candidate
next_candidate-append zero c bits more h = ground arith
next_candidate-append (suc width) c [] more h = cc
next_candidate-append (suc width) c (bit ∷ bits) more h =
    next_candidate-append width (bit_or (c * 2) bit) bits more h

draw_loop-append :
    (fuel fuel' width : ℕ) (span minimum : ℤ) (bits more : List ℕ) {v : ℤ}
    → fuel ≤ fuel'
    → draw_loop fuel width span minimum bits ≡ value v
    → draw_loop fuel' width span minimum (bits ++ more) ≡ value v
unfolding draw_loop
draw_loop-append zero fuel' width span minimum bits more f h = cc
draw_loop-append (suc fuel) zero width span minimum bits more f h = elim f [ ]
draw_loop-append (suc fuel) (suc fuel') width span minimum bits more f h =
    elim (Option-cases (next_candidate width 0 bits)) [
      | inl e ↦ cc (rw (e, draw_loop) at h)
      | inr ((c, rest), e) ↦
          let e' = next_candidate-append width 0 bits more e in
          elim (Bool-cases (in_span c span)) [
            | inl s ↦ rw (e', draw_loop, s) (rw (e, draw_loop, s) at h)
            | inr s ↦
                rw (e', draw_loop, s)
                  (draw_loop-append fuel fuel' width span minimum rest more (omega arith)
                    (rw (e, draw_loop, s) at h))
          ]
    ]

-- Measurements behind those that decide the value are not read.
pub bounded_value-append :
    (bits more : List ℕ) (minimum maximum : ℤ) {v : ℤ}
    → bounded_value bits minimum maximum ≡ value v
    → bounded_value (bits ++ more) minimum maximum ≡ value v
unfolding bounded_value
bounded_value-append bits more minimum maximum h = elim (Bool-cases (eq_ℤ minimum maximum)) [
  | inl e ↦ rw e (rw e at h)
  | inr e ↦ rw e (
      draw_loop-append (suc (length bits)) (suc (length (bits ++ more)))
        (random_bit_width minimum maximum) (maximum -ℤ minimum +ℤ pos 1) minimum bits more
        (omega (arith, length-append bits more)) (rw e at h))
]
