-- ===== src/Examples/Random.antt =====
-- Draws from three measurements, for a request of a number from 3 to 6.
use quantum_api.Base.{◌≡◌, refl, ◌≢◌, Option, some, List, [], ◌∷◌, ◌++◌, arith}
use quantum_api.Base.Text.{Text, codes}
use quantum_api.Base.Int.{ℤ, pos, ◌-ℤ◌, ◌+ℤ◌}
use quantum_api.Random.{
  value, out_of_fuel, pubs, bitstrings, bounded_value, random_value_from_result, next_candidate,
  in_span, draw_loop, eq_ℤ, random_bit_width, no_common_bits, random_job_shots, is_bad_bit,
}
use quantum_api.Random.Range.{Within, random_value_from_result-Within}
use quantum_api.Random.Supply.{
  bounded_value-ends, bounded_value-append, random_value_from_result_full,
}
use quantum_api.Base.Bits.{bit_length}

abbrev measured : List (Option Text)
measured = some (codes "1") ∷ some (codes "0") ∷ []

draw_three : bounded_value (1 ∷ 0 ∷ []) (pos 3) (pos 6) ≡ value (pos 5)
unfolding bounded_value draw_loop next_candidate in_span eq_ℤ random_bit_width bit_length ◌-ℤ◌ ◌+ℤ◌
draw_three = refl

random_value_from_result-Within_example :
    Within
      (pos 3)
      (pos 6)
      (random_value_from_result (pubs (bitstrings measured ∷ [])) (pos 3) (pos 6))
random_value_from_result-Within_example =
    random_value_from_result-Within (pubs (bitstrings measured ∷ [])) (pos 3) (pos 6) (omega arith)

random_value_from_result_full_example :
    (v : ℤ) × (random_value_from_result (pubs (bitstrings measured ∷ [])) (pos 3) (pos 6) ≡ value v)
unfolding no_common_bits random_job_shots random_bit_width is_bad_bit bit_length ◌-ℤ◌ ◌+ℤ◌
random_value_from_result_full_example =
    random_value_from_result_full measured (pos 3) (pos 6) (omega arith) refl refl refl

bounded_value-ends_example : bounded_value (1 ∷ 0 ∷ []) (pos 3) (pos 6) ≢ out_of_fuel
bounded_value-ends_example = bounded_value-ends (1 ∷ 0 ∷ []) (pos 3) (pos 6)

bounded_value-append_example :
    bounded_value ((1 ∷ 0 ∷ []) ++ (1 ∷ [])) (pos 3) (pos 6) ≡ value (pos 5)
bounded_value-append_example = bounded_value-append (1 ∷ 0 ∷ []) (1 ∷ []) (pos 3) (pos 6) draw_three
