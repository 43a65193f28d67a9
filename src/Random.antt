-- ===== src/Random.antt =====
-- Bounded random integers from ordered one-qubit measurements:
-- src/quantum_api/services/randomness.py, with the request model RandomIntRequest of
-- src/quantum_api/models/core.py.
pub mod Range
pub mod Supply
use Prim.Native.Nat.{bit_and, bit_or}
use quantum_api.Base.{
  ℕ, zero, suc, ◌+◌, ◌*◌, max, ◌≡◌, Bool, true, false, not, ◌&&◌, ◌||◌, Option, none, some, List,
  [], ◌∷◌, ltb, leb, ◌==◌, if◌then◌else◌, length, any,
}
use quantum_api.Base.Bits.{bit_length}
use quantum_api.Base.Int.{ℤ, pos, negsuc, ◌+ℤ◌, ◌-ℤ◌, leb_ℤ}
use quantum_api.Base.Text.{Text, codes, text_eq}

-- The outcome of a draw. `out_of_fuel` is the model's own: the loop's fuel ran out.
pub data Draw : Type 0 where
  value : ℤ → Draw
  rejection_exhausted malformed_provider_result out_of_fuel : Draw

-- `int.bit_length` ignores the sign.
unfoldable pub random_bit_width : ℤ → ℤ → ℕ
random_bit_width minimum maximum = elim (maximum -ℤ minimum) [
  | pos n ↦ bit_length n
  | negsuc n ↦ bit_length (suc n)
]

-- `span & (span - 1) == 0`: a negative span has a negative conjunction.
unfoldable pub no_common_bits : ℤ → Bool
no_common_bits (pos zero) = true
no_common_bits (pos (suc n)) = bit_and (suc n) n == 0
no_common_bits (negsuc n) = false

unfoldable pub random_job_shots : ℤ → ℤ → ℕ
unfolding no_common_bits random_bit_width
random_job_shots minimum maximum =
    let candidates = if no_common_bits (maximum -ℤ minimum +ℤ pos 1) then 1 else 32 in
    max 1 (random_bit_width minimum maximum * candidates)

-- The inner loop: `width` bits, most significant first; `none` is `StopIteration`.
unfoldable pub next_candidate : ℕ → ℕ → List ℕ → Option (ℕ × List ℕ)
next_candidate zero candidate bits = some (candidate, bits)
next_candidate (suc width) candidate [] = none
next_candidate (suc width) candidate (bit ∷ bits) =
    next_candidate width (bit_or (candidate * 2) bit) bits

-- `candidate < span`, for a candidate that is not negative
unfoldable pub in_span : ℕ → ℤ → Bool
in_span candidate (pos span) = ltb candidate span
in_span candidate (negsuc n) = false

-- The outer `while True`.
unfoldable pub draw_loop : ℕ → ℕ → ℤ → ℤ → List ℕ → Draw
unfolding next_candidate in_span
draw_loop zero width span minimum bits = out_of_fuel
draw_loop (suc fuel) width span minimum bits = elim (next_candidate width 0 bits) [
  | none ↦ rejection_exhausted
  | some (candidate, rest) ↦ elim (in_span candidate span) [
    | true ↦ value (minimum +ℤ pos candidate)
    | false ↦ draw_loop fuel width span minimum rest
  ]
]

-- `minimum == maximum`
unfoldable pub eq_ℤ : ℤ → ℤ → Bool
eq_ℤ (pos m) (pos n) = m == n
eq_ℤ (negsuc m) (negsuc n) = m == n
eq_ℤ _ _ = false

-- Every candidate takes a bit at least, so one round more than there are bits is enough.
unfoldable pub bounded_value : List ℕ → ℤ → ℤ → Draw
unfolding draw_loop eq_ℤ random_bit_width
bounded_value bits minimum maximum =
    if eq_ℤ minimum maximum
    then value minimum
    else draw_loop (suc (length bits)) (random_bit_width minimum maximum)
        (maximum -ℤ minimum +ℤ pos 1) minimum bits

-- What a provider returns: `raises` stands for a result whose reading raises; a PUB result is the
-- list that `data.meas.get_bitstrings()` gives, or `no_list` for anything else that it gives.
-- A bitstring that is no `str` is `none`.
pub data PubResult : Type 0 where
  bitstrings : List (Option Text) → PubResult
  no_list raises : PubResult

pub data RawResult : Type 0 where
  pubs : List PubResult → RawResult
  raises : RawResult

-- `not isinstance(bit, str) or bit not in {"0", "1"}`
unfoldable pub is_bad_bit : Option Text → Bool
unfolding text_eq
is_bad_bit none = true
is_bad_bit (some s) = not (text_eq s (codes "0") || text_eq s (codes "1"))

-- `int(bit)` of a text that is "0" or "1"
unfoldable pub int_bit : Option Text → ℕ
unfolding text_eq
int_bit none = 0
int_bit (some s) = if text_eq s (codes "1") then 1 else 0

unfoldable pub int_bits : List (Option Text) → List ℕ
unfolding int_bit
int_bits [] = []
int_bits (b ∷ bs) = int_bit b ∷ int_bits bs

unfoldable pub random_value_from_result : RawResult → ℤ → ℤ → Draw
unfolding random_job_shots is_bad_bit int_bits bounded_value
random_value_from_result (pubs (bitstrings bits ∷ [])) minimum maximum =
    if not (length bits == random_job_shots minimum maximum) || any is_bad_bit bits
    then malformed_provider_result
    else bounded_value (int_bits bits) minimum maximum
random_value_from_result _ minimum maximum = malformed_provider_result

-- RandomIntRequest: strict 32-bit bounds and `validate_range`.
unfoldable pub valid_random_request : ℤ → ℤ → Bool
valid_random_request minimum maximum =
    leb_ℤ (negsuc 2147483647) minimum
    && leb_ℤ minimum (pos 2147483647)
    && leb_ℤ (negsuc 2147483647) maximum
    && leb_ℤ maximum (pos 2147483647)
    && leb_ℤ minimum maximum
