-- ===== src/Matrix/Many.antt =====
-- MatricesToBytes and BytesToMatrices of lib/matrix/matrix.go: the length of one matrix in bytes, and
-- then the matrices, one behind the other.
use apir_code.Base.{
  ◌==◌, if◌then◌else◌, length, take, drop, replicate, u32, big_endian, put_big_endian, Result,
  ◌>>=◌, ok, panic, ℕ, zero, suc, ◌+◌, ◌-◌, ◌*◌, ◌/◌, ◌||◌, not, List, [], ◌∷◌, ◌++◌,
}
use apir_code.Matrix.{Matrix, matrix_to_bytes, bytes_to_matrix}

-- `copy(out[pos:], src)`
copy_at : List ℕ → ℕ → List ℕ → List ℕ
copy_at out pos src = take pos out ++ (take (length out - pos) src ++ drop (pos + length src) out)

-- The loop from matrix `i` on, for a first matrix `m` with `len` bytes.
copy_matrices : Matrix → ℕ → List Matrix → ℕ → List ℕ → Result (List ℕ)
copy_matrices m len [] i out = ok out
copy_matrices m len (x ∷ xs) i out =
    if not (m.rows == x.rows) || not (m.cols == x.cols)
    then panic
    else copy_matrices m len xs (suc i) (copy_at out (4 + len * i) (matrix_to_bytes x))

pub matrices_to_bytes : List Matrix → Result (List ℕ)
matrices_to_bytes [] = panic
matrices_to_bytes (m ∷ ms) =
    let b = matrix_to_bytes m in
    let w = put_big_endian (u32 (length b)) in
    copy_matrices m (length b) ms 1
      (w.b0 ∷ w.b1 ∷ w.b2 ∷ w.b3 ∷ copy_at (replicate (length b * length (m ∷ ms)) 0) 0 b)

-- The loop of BytesToMatrices from matrix `i` on; the bytes are those behind the length.
read_matrices : ℕ → ℕ → List ℕ → Result (List Matrix)
read_matrices len zero bytes = ok []
read_matrices len (suc left) bytes = do
  m ← bytes_to_matrix (take len bytes)
  ms ← read_matrices len left (drop len bytes)
  ok (m ∷ ms)

-- BytesToMatrices: fewer than four bytes panic, and so does a length of 0.
pub bytes_to_matrices : List ℕ → Result (List Matrix)
bytes_to_matrices (b0 ∷ b1 ∷ b2 ∷ b3 ∷ bytes) =
    let len = big_endian (record { b0 = b0; b1 = b1; b2 = b2; b3 = b3 }) in
    if len == 0 then panic else read_matrices len (u32 (length bytes / len)) bytes
bytes_to_matrices bytes = panic
