-- ===== src/Base/Interfaces.antt =====
-- github.com/lukechampine/fastxor, which is not part of the repository: its documentation says that
-- `Bytes(dst, a, b)` stores the exclusive or of `a` and `b` in `dst`, and stops where one of the three
-- slices ends.
use Prim.Native.Nat.{ℕ, bit_xor}
use mathlib.Core.Path.{◌≡◌}
use mathlib.Core.List.{List, [], ◌∷◌}

abbrev pub xor_into : List ℕ → List ℕ → List ℕ → List ℕ
xor_into [] a b = []
xor_into (d ∷ dst) [] b = d ∷ dst
xor_into (d ∷ dst) (x ∷ a) [] = d ∷ dst
xor_into (d ∷ dst) (x ∷ a) (y ∷ b) = bit_xor x y ∷ xor_into dst a b

-- The slice `dst` after the call.
pub record FastXor : Type 0 where
  pub bytes : List ℕ → List ℕ → List ℕ → List ℕ
  pub bytes_lem : (dst a b : List ℕ) → bytes dst a b ≡ xor_into dst a b
