-- ===== src/Utils/Encoding/Indices.antt =====
-- Where VectorToMatrixIndices of lib/utils/utils.go puts an index.
use apir_code.Base.{ℕ, ◌*◌, ◌/◌, ◌%◌, ◌<◌, subst, arith}
use native.Mathlib.Decide.{ℕ_discrete}
use native.Mathlib.Nat.{div-lt_iff_lt-mul, mod-lt}

no_index : (index rows : ℕ) → index < rows * 0 → ⊥
no_index index rows h = omega arith

-- Where an index stands in the matrix.
pub index-lt :
    (index rows cols : ℕ) → index < rows * cols → (index / cols < rows) × (index % cols < cols)
index-lt index rows cols below =
    let columns : 0 < cols = elim (ℕ_discrete cols 0) [
      | yes none_left ↦
          absurd (no_index index rows (subst (λ (k : ℕ). index < rows * k) none_left below))
      | no some_left ↦ omega arith
    ] in
    ((div-lt_iff_lt-mul columns).1 below, mod-lt index columns)
