-- ===== src/StateVector/Flipped.antt =====
-- The loops of the bit flip exchange the amplitudes of each pair of indices that differ in the bit.
use quantum_api.Base.{
  ℕ, zero, suc, ◌+◌, ◌*◌, ◌^◌, ◌≤◌, ◌<◌, ◌≡◌, refl, ap, ◌∙◌, ◌⊎◌, inl, inr, arith, false, ◌==◌,
  ==_iff, Bool-cases,
}
use native.Mathlib.Numerals.{unary_clauses}
use native.Mathlib.Nat.{suc-mul, add-mul, pow-suc, add-suc, div-eq_of_lt-le, one-le-pow}
use quantum_api.StateVector.{Vector, swap, for_range, flip_block, range_count, apply_x}

module _ {A : Type 0} (v : Vector A) where
  swap-low : (i j : ℕ) → (i == j) ≡ false → swap i j v i ≡ v j
  unfolding swap
  swap-low i j differ = rw (swap, differ, (==_iff i i).1 refl)

  swap-high : (i j : ℕ) → swap i j v j ≡ v i
  unfolding swap
  swap-high i j = rw (swap, (==_iff j j).1 refl)

  swap-rest : (i j k : ℕ) → (k == i) ≡ false → (k == j) ≡ false → swap i j v k ≡ v k
  unfolding swap
  swap-rest i j k low high = rw (swap, low, high)

module _ {A : Type 0} (step base : ℕ) (v : Vector A) where
  -- The indices that some rounds of the inner loop do not reach.
  abbrev Beyond : ℕ → ℕ → Type 0
  Beyond count i = (i < base) ⊎ ((base + count ≤ i) × (i < base + step)) ⊎ (base + step + count ≤ i)

  flip_block-rest :
      (count i : ℕ) → count ≤ step → Beyond count i → flip_block step base count v i ≡ v i
  unfolding flip_block for_range
  flip_block-rest zero i h w = refl
  flip_block-rest (suc n) i h w =
      swap-rest (flip_block step base n v) (base + n) (base + n + step) i (other_low w)
        (other_high w)
      ∙ flip_block-rest n i (omega arith) (before w)
    where
      other_low : Beyond (suc n) i → (i == base + n) ≡ false
      other_low (inl below) = ground arith
      other_low (inr (inl (above, under))) = ground arith
      other_low (inr (inr above)) = ground arith

      other_high : Beyond (suc n) i → (i == base + n + step) ≡ false
      other_high (inl below) = ground arith
      other_high (inr (inl (above, under))) = ground arith
      other_high (inr (inr above)) = ground arith

      before : Beyond (suc n) i → Beyond n i
      before (inl below) = inl below
      before (inr (inl (above, under))) = inr (inl (omega arith, under))
      before (inr (inr above)) = inr (inr (omega arith))

  -- The pairs that they do reach are exchanged.
  flip_block-low :
      (count o : ℕ)
      → count ≤ step
      → o < count
      → flip_block step base count v (base + o) ≡ v (base + o + step)
  unfolding flip_block for_range
  flip_block-low zero o h below = absurd (omega arith)
  flip_block-low (suc n) o h below = elim (Bool-cases (o == n)) [
    | inl last ↦
        let same : o ≡ n = (==_iff o n).0 last in
        rw same (
          swap-low (flip_block step base n v) (base + n) (base + n + step) (ground (arith, h))
          ∙ flip_block-rest n (base + n + step) (omega arith) (inr (inr (omega arith))))
    | inr earlier ↦
        swap-rest (flip_block step base n v) (base + n) (base + n + step) (base + o)
          (ground (arith, earlier)) (ground (arith, h, below))
        ∙ flip_block-low n o (omega arith) (ground (arith, earlier, below))
  ]

  flip_block-high :
      (count o : ℕ)
      → count ≤ step
      → o < count
      → flip_block step base count v (base + o + step) ≡ v (base + o)
  unfolding flip_block for_range
  flip_block-high zero o h below = absurd (omega arith)
  flip_block-high (suc n) o h below = elim (Bool-cases (o == n)) [
    | inl last ↦
        let same : o ≡ n = (==_iff o n).0 last in
        rw same (
          swap-high (flip_block step base n v) (base + n) (base + n + step)
          ∙ flip_block-rest n (base + n) (omega arith) (inr (inl (omega arith, omega arith))))
    | inr earlier ↦
        swap-rest (flip_block step base n v) (base + n) (base + n + step) (base + o + step)
          (ground (arith, h, below)) (ground (arith, earlier))
        ∙ flip_block-high n o (omega arith) (ground (arith, earlier, below))
  ]

-- A block of an earlier round ends before the base of a later one.
block_ends : (width k n : ℕ) → k < n → k * width + width ≤ n * width
block_ends width k zero below = absurd (omega arith)
block_ends width k (suc n) below = elim (Bool-cases (k == n)) [
  | inl last ↦ let same : k ≡ n = (==_iff k n).0 last in rw same (omega (arith, suc-mul n width))
  | inr earlier ↦
      omega (arith, suc-mul n width, block_ends width k n (ground (arith, earlier, below)))
]

module _ {A : Type 0} (step : ℕ) (v : Vector A) where
  -- The rounds of the outer loop.
  abbrev flip_blocks : ℕ → Vector A
  flip_blocks count = for_range count (λ k. flip_block step (k * (step * 2)) step) v

  flip_blocks-rest : (count i : ℕ) → count * (step * 2) ≤ i → flip_blocks count i ≡ v i
  unfolding for_range
  flip_blocks-rest zero i h = refl
  flip_blocks-rest (suc n) i h =
      let ends = block_ends (step * 2) n (suc n) (omega arith) in
      flip_block-rest step (n * (step * 2)) (flip_blocks n) step i (omega arith)
        (inr (inr (omega (arith, ends, h))))
      ∙ flip_blocks-rest n i (omega (arith, ends, h))

  flip_blocks-low :
      (count k o : ℕ)
      → k < count
      → o < step
      → flip_blocks count (k * (step * 2) + o) ≡ v (k * (step * 2) + o + step)
  unfolding for_range
  flip_blocks-low zero k o h below = absurd (omega arith)
  flip_blocks-low (suc n) k o h below = elim (Bool-cases (k == n)) [
    | inl last ↦
        let same : k ≡ n = (==_iff k n).0 last in
        rw same (
          flip_block-low step (n * (step * 2)) (flip_blocks n) step o (omega arith) below
          ∙ flip_blocks-rest n (n * (step * 2) + o + step) (omega arith))
    | inr earlier ↦
        let before : k < n = ground (arith, earlier, h) in
        let ends = block_ends (step * 2) k n before in
        flip_block-rest step (n * (step * 2)) (flip_blocks n) step (k * (step * 2) + o)
          (omega arith) (inl (omega (arith, ends, below)))
        ∙ flip_blocks-low n k o before below
  ]

  flip_blocks-high :
      (count k o : ℕ)
      → k < count
      → o < step
      → flip_blocks count (k * (step * 2) + o + step) ≡ v (k * (step * 2) + o)
  unfolding for_range
  flip_blocks-high zero k o h below = absurd (omega arith)
  flip_blocks-high (suc n) k o h below = elim (Bool-cases (k == n)) [
    | inl last ↦
        let same : k ≡ n = (==_iff k n).0 last in
        rw same (
          flip_block-high step (n * (step * 2)) (flip_blocks n) step o (omega arith) below
          ∙ flip_blocks-rest n (n * (step * 2) + o) (omega arith))
    | inr earlier ↦
        let before : k < n = ground (arith, earlier, h) in
        let ends = block_ends (step * 2) k n before in
        flip_block-rest step (n * (step * 2)) (flip_blocks n) step (k * (step * 2) + o + step)
          (omega arith) (inl (omega (arith, ends, below)))
        ∙ flip_blocks-high n k o before below
  ]

-- The number of amplitudes, as blocks of pairs.
size-blocks : (qubit higher : ℕ) → 2 ^ (suc qubit + higher) ≡ 2 ^ higher * (2 ^ qubit * 2)
size-blocks qubit zero = simp unary_clauses (omega (arith, pow-suc 2 qubit))
size-blocks qubit (suc n) =
    rw (add-suc (suc qubit) n, pow-suc 2 (suc qubit + n), pow-suc 2 n, size-blocks qubit n)
      (grind arith)

range_count-blocks : (blocks width : ℕ) → 1 ≤ width → range_count (blocks * width) width ≡ blocks
range_count-blocks blocks width h =
    let next = add-mul blocks 1 width in
    div-eq_of_lt-le width (omega arith) (omega (arith, next, h))

apply_x-blocks :
    {A : Type 0} (qubit higher : ℕ) (v : Vector A)
    → apply_x (suc qubit + higher) qubit v ≡ flip_blocks (2 ^ qubit) v (2 ^ higher)
unfolding apply_x
apply_x-blocks qubit higher v =
    let wide : 1 ≤ 2 ^ qubit * 2 = omega (arith, one-le-pow qubit 2 (omega arith)) in
    rw (apply_x, size-blocks qubit higher, range_count-blocks (2 ^ higher) (2 ^ qubit * 2) wide)

-- For a qubit of the vector, the loops exchange the amplitudes of every two indices that differ in the
-- bit of the qubit only, which are `o` and `o + 2 ^ qubit` in the block `k`, and doing it twice gives
-- back both.
pub apply_x-exchanges :
    {A : Type 0} (qubit higher k o : ℕ) (v : Vector A)
    → k < 2 ^ higher
    → o < 2 ^ qubit
    → let low = k * (2 ^ qubit * 2) + o in
      let flipped = apply_x (suc qubit + higher) qubit v in
      (flipped low ≡ v (low + 2 ^ qubit))
      × (flipped (low + 2 ^ qubit) ≡ v low)
      × (apply_x (suc qubit + higher) qubit flipped low ≡ v low)
      × (apply_x (suc qubit + higher) qubit flipped (low + 2 ^ qubit) ≡ v (low + 2 ^ qubit))
apply_x-exchanges {A = A} qubit higher k o v block offset =
    let flipped = apply_x (suc qubit + higher) qubit v in
    let down = exchanges_low v in
    let up = exchanges_high v in
    (down, up, exchanges_low flipped ∙ up, exchanges_high flipped ∙ down)
  where
    exchanges_low :
        (u : Vector A)
        → apply_x (suc qubit + higher) qubit u (k * (2 ^ qubit * 2) + o)
          ≡ u (k * (2 ^ qubit * 2) + o + 2 ^ qubit)
    exchanges_low u =
        ap (λ (x : Vector A). x (k * (2 ^ qubit * 2) + o)) (apply_x-blocks qubit higher u)
        ∙ flip_blocks-low (2 ^ qubit) u (2 ^ higher) k o block offset

    exchanges_high :
        (u : Vector A)
        → apply_x (suc qubit + higher) qubit u (k * (2 ^ qubit * 2) + o + 2 ^ qubit)
          ≡ u (k * (2 ^ qubit * 2) + o)
    exchanges_high u =
        ap (λ (x : Vector A). x (k * (2 ^ qubit * 2) + o + 2 ^ qubit))
          (apply_x-blocks qubit higher u)
        ∙ flip_blocks-high (2 ^ qubit) u (2 ^ higher) k o block offset
