-- ===== src/Matrix/Codec.antt =====
-- MatrixToBytes and BytesToMatrix.
use apir_code.Base.{All, IsU32, u32, big_endian_put, ok, ◌≡◌, refl, arith}
use apir_code.Utils.Encoding.Words.{byte_slice-uint32_slice}
use apir_code.Matrix.{Matrix, matrix_to_bytes, bytes_to_matrix}

-- A matrix with fewer than 2^32 rows and columns and with uint32 places is read back from its bytes as
-- it was.
pub bytes_to_matrix-matrix_to_bytes :
    (m : Matrix)
    → IsU32 m.rows
    → IsU32 m.cols
    → All IsU32 m.data'
    → bytes_to_matrix (matrix_to_bytes m) ≡ ok m
unfolding bytes_to_matrix matrix_to_bytes
bytes_to_matrix-matrix_to_bytes m r c d =
    let er : u32 m.rows ≡ m.rows = omega arith in
    let ec : u32 m.cols ≡ m.cols = omega arith in
    rw
      (
        er,
        ec,
        big_endian_put m.rows r,
        big_endian_put m.cols c,
        (byte_slice-uint32_slice m.data' d).0,
      )
      refl
