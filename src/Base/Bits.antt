-- ===== src/Base/Bits.antt =====
-- The laws of `&` and `|` on naturals that the random sampler needs, from the digit recursion that
-- the native operations stand for, and `int.bit_length`.
use Prim.Native.Nat.{
  ℕ, zero, suc, ◌+◌, ◌*◌, ◌/◌, ◌%◌, ◌^◌, ◌≤◌, ◌<◌, min, max, bit_and, bit_or, digits,
  bit_and-bitwise, bit_or-bitwise,
}
use mathlib.Core.Path.{◌≡◌, refl, ◌∙◌, ap}
use mathlib.Core.Logic.{◌≢◌, inl, inr}
use mathlib.Core.Bool.{false}
use native.Mathlib.Omega.{arith}
use native.Mathlib.Nat.{two-pow-succ}
use quantum_api.Base.Tests.{◌==◌, if◌then◌else◌, Bool-cases}

-- Any digitwise operation: its count of digits does not matter once it is large enough.
module _ (z : ℕ → ℕ) (f : ℕ → ℕ → ℕ) where
  digits_enough : (n m a b : ℕ) → a ≤ n → a ≤ m → digits z f n a b ≡ digits z f m a b
  digits_enough zero zero a b h k = refl
  digits_enough zero (suc m) zero b h k = refl
  digits_enough (suc n) zero zero b h k = refl
  digits_enough (suc n) (suc m) zero b h k = refl
  digits_enough zero (suc m) (suc a) b h k = elim h [ ]
  digits_enough (suc n) zero (suc a) b h k = elim k [ ]
  digits_enough (suc n) (suc m) (suc a) b h k =
      omega (arith, digits_enough n m (suc a / 2) (b / 2) (omega arith) (omega arith))

  digits_lowest :
      (a b : ℕ)
      → z b ≡ z (b / 2) * 2 + f 0 (b % 2)
      → digits z f a a b ≡ digits z f (a / 2) (a / 2) (b / 2) * 2 + f (a % 2) (b % 2)
  digits_lowest zero b h = h
  digits_lowest (suc a) b h =
      omega (arith, digits_enough a (suc a / 2) (suc a / 2) (b / 2) (omega arith) (omega arith))

bit_and_lowest : (a b : ℕ) → bit_and a b ≡ bit_and (a / 2) (b / 2) * 2 + min (a % 2) (b % 2)
bit_and_lowest a b = omega (
  arith,
  bit_and-bitwise a b,
  bit_and-bitwise (a / 2) (b / 2),
  digits_lowest (λ b. 0) min a b (omega arith),
)

bit_or_lowest : (a b : ℕ) → bit_or a b ≡ bit_or (a / 2) (b / 2) * 2 + max (a % 2) (b % 2)
bit_or_lowest a b = omega (
  arith,
  bit_or-bitwise a b,
  bit_or-bitwise (a / 2) (b / 2),
  digits_lowest (λ b. b) max a b (omega arith),
)

bit_or-zero_upto : (n a : ℕ) → a ≤ n → bit_or a 0 ≡ a
bit_or-zero_upto n zero h = refl
bit_or-zero_upto zero (suc a) h = elim h [ ]
bit_or-zero_upto (suc n) (suc a) h =
    omega (arith, bit_or_lowest (suc a) 0, bit_or-zero_upto n (suc a / 2) (omega arith))

-- (c << 1) | b appends the binary digit b to c.
pub append_bit : (c b : ℕ) → b < 2 → bit_or (c * 2) b ≡ c * 2 + b
append_bit c b h =
    let e : bit_or (c * 2 / 2) (b / 2) ≡ c =
      ap (λ (t : ℕ). bit_or t (b / 2)) (omega arith)
      ∙ ap (bit_or c) (omega arith)
      ∙ bit_or-zero_upto c c (omega arith) in
    omega (arith, bit_or_lowest (c * 2) b, e)

-- The number of binary digits, as `int.bit_length` of a number that is not negative.
bits_upto : ℕ → ℕ → ℕ
bits_upto zero n = 0
bits_upto (suc fuel) n = let rest = bits_upto fuel (n / 2) in if n == 0 then 0 else suc rest

-- The number has at most as many digits as its value, so the value is fuel enough.
unfoldable pub bit_length : ℕ → ℕ
unfolding bits_upto
bit_length n = bits_upto n n

bits_upto-below : (fuel n : ℕ) → n ≤ fuel → n < 2 ^ bits_upto fuel n
unfolding bits_upto
bits_upto-below zero n h = omega arith
bits_upto-below (suc fuel) n h = elim (Bool-cases (n == 0)) [
  | inl e ↦ rw e (ground arith)
  | inr e ↦ rw e (
      omega
        (arith, bits_upto-below fuel (n / 2) (ground arith), two-pow-succ (bits_upto fuel (n / 2))))
]

bits_upto-zero : (fuel : ℕ) → bits_upto fuel 0 ≡ 0
unfolding bits_upto
bits_upto-zero zero = refl
bits_upto-zero (suc fuel) = refl

bits_upto-above : (fuel n : ℕ) → n ≤ fuel → 0 < n → 2 ^ bits_upto fuel n ≤ n * 2
unfolding bits_upto
bits_upto-above zero n h k = absurd (omega arith)
bits_upto-above (suc fuel) n h k = elim (Bool-cases (n / 2 == 0)) [
  | inl one ↦ let e : n ≡ 1 = ground arith in rw (e, bits_upto-zero fuel) (omega arith)
  | inr more ↦
      let nonzero : (n == 0) ≡ false = ground arith in
      rw nonzero (
        omega (
          arith,
          bits_upto-above fuel (n / 2) (omega arith) (ground arith),
          two-pow-succ (bits_upto fuel (n / 2)),
        ))
]

-- n < 2 ^ bit_length n, and no smaller power will do.
pub bit_length_bounds : (n : ℕ) → 0 < n → (n < 2 ^ bit_length n) × (2 ^ bit_length n ≤ n * 2)
unfolding bit_length
bit_length_bounds n h = (bits_upto-below n n (omega arith), bits_upto-above n n (omega arith) h)

bit_and-self_upto : (n a : ℕ) → a ≤ n → bit_and a a ≡ a
bit_and-self_upto n zero h = refl
bit_and-self_upto zero (suc a) h = elim h [ ]
bit_and-self_upto (suc n) (suc a) h =
    omega (arith, bit_and_lowest (suc a) (suc a), bit_and-self_upto n (suc a / 2) (omega arith))

halves : (n m : ℕ) → n ≡ m * 2 + 1 → bit_and (suc n / 2) (n / 2) ≡ bit_and (suc m) m
halves n m e = cc (half_suc n m e, half n m e)
  where
    half_suc : (n m : ℕ) → n ≡ m * 2 + 1 → suc n / 2 ≡ suc m
    half_suc n m e = omega arith

    half : (n m : ℕ) → n ≡ m * 2 + 1 → n / 2 ≡ m
    half n m e = omega arith

even_not_power : (n : ℕ) → 0 < n → n % 2 ≡ 0 → bit_and (suc n) n ≢ 0
even_not_power n h even e =
    let same : bit_and (suc n / 2) (n / 2) ≡ n / 2 =
      ap (λ (t : ℕ). bit_and t (n / 2)) (omega arith) ∙ bit_and-self_upto n (n / 2) (omega arith) in
    omega (arith, bit_and_lowest (suc n) n, same)

power_of_two_upto : (fuel n : ℕ) → n ≤ fuel → bit_and (suc n) n ≡ 0 → suc n ≡ 2 ^ bits_upto fuel n
unfolding bits_upto
power_of_two_upto zero zero h e = refl
power_of_two_upto zero (suc n) h e = elim h [ ]
power_of_two_upto (suc fuel) zero h e = refl
power_of_two_upto (suc fuel) (suc n) h e = elim (Bool-cases (suc n % 2 == 0)) [
  | inl even ↦ absurd (even_not_power (suc n) (omega arith) (ground arith) e)
  | inr odd ↦
      let m = suc n / 2 in
      let parity : suc n % 2 ≡ 1 = ground arith in
      let less : bit_and (suc m) m ≡ 0 =
        omega (arith, bit_and_lowest (suc (suc n)) (suc n), halves (suc n) m (omega arith)) in
      let doubled : suc (suc n) ≡ 2 ^ suc (bits_upto fuel m) =
        omega
          (arith, power_of_two_upto fuel m (omega arith) less, two-pow-succ (bits_upto fuel m)) in
      let nonzero : (suc n == 0) ≡ false = ground arith in rw nonzero doubled
]

-- If (n + 1) & n is 0 then n + 1 is a power of two, the one that bit_length names.
pub power_of_two : (n : ℕ) → bit_and (suc n) n ≡ 0 → suc n ≡ 2 ^ bit_length n
unfolding bit_length
power_of_two n e = power_of_two_upto n n (omega arith) e

pub bit_length_pos : (n : ℕ) → 0 < bit_length (suc n)
unfolding bit_length
bit_length_pos n = let nonzero : (suc n == 0) ≡ false = ground arith in rw nonzero (omega arith)
