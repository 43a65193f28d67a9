-- ===== src/StateVector.antt =====
-- The bit flip on a state vector without Qiskit: `_apply_x` of QuantumCircuitManager in
-- src/quantum_api/services/quantum_core.py. An amplitude is only moved, so its type is a parameter; a
-- list is a function of the index, read and written below its length only.
pub mod Flipped
use quantum_api.Base.{ℕ, zero, suc, ◌+◌, ◌-◌, ◌*◌, ◌/◌, ◌^◌, ◌==◌, if◌then◌else◌}

abbrev pub Vector : Type 0 → Type 0
Vector A = ℕ → A

-- `vector[i] = a`
abbrev pub set {ℓ} : {A : Type ℓ} → ℕ → A → (ℕ → A) → ℕ → A
set i a v k = if k == i then a else v k

-- `updated[i], updated[j] = updated[j], updated[i]`
unfoldable pub swap : {A : Type 0} → ℕ → ℕ → Vector A → Vector A
swap i j v = set j (v i) (set i (v j) v)

-- `for k in range(count)`
unfoldable pub for_range : {A : Type 0} → ℕ → (ℕ → Vector A → Vector A) → Vector A → Vector A
for_range zero body v = v
for_range (suc n) body v = body n (for_range n body v)

-- The inner loop, from one base.
unfoldable pub flip_block : {A : Type 0} → ℕ → ℕ → ℕ → Vector A → Vector A
unfolding for_range swap
flip_block step base count v =
    for_range count (λ offset. swap (base + offset) (base + offset + step)) v

-- The number of bases in `range(0, size, width)`.
abbrev pub range_count : ℕ → ℕ → ℕ
range_count size width = (size + (width - 1)) / width

unfoldable pub apply_x : {A : Type 0} → ℕ → ℕ → Vector A → Vector A
unfolding for_range flip_block
apply_x num_qubits qubit v =
    let step = 2 ^ qubit in
    let width = step * 2 in
    for_range (range_count (2 ^ num_qubits) width) (λ k. flip_block step (k * width) step) v
