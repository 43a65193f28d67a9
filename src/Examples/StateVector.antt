-- ===== src/Examples/StateVector.antt =====
-- Three qubits, the middle one flipped, in the second block.
use quantum_api.Base.{ℕ, suc, ◌+◌, ◌*◌, ◌^◌, ◌≡◌, arith}
use quantum_api.StateVector.{Vector, apply_x}
use quantum_api.StateVector.Flipped.{apply_x-exchanges}

abbrev indices : Vector ℕ
indices k = k

apply_x-exchanges_example :
    let low = 1 * (2 ^ 1 * 2) + 1 in
    let flipped = apply_x (suc 1 + 1) 1 indices in
    (flipped low ≡ low + 2 ^ 1)
    × (flipped (low + 2 ^ 1) ≡ low)
    × (apply_x (suc 1 + 1) 1 flipped low ≡ low)
    × (apply_x (suc 1 + 1) 1 flipped (low + 2 ^ 1) ≡ low + 2 ^ 1)
apply_x-exchanges_example = apply_x-exchanges 1 1 1 1 indices (omega arith) (omega arith)
