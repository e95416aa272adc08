-- ===== src/Utils/Encoding.antt =====
-- lib/utils/encoding.go and VectorToMatrixIndices of lib/utils/utils.go.
pub mod Words
pub mod Bits
pub mod Indices
use apir_code.Base.{
  ltb, if◌then◌else◌, length, leb, big_endian, put_big_endian, ℕ, zero, suc, ◌+◌, ◌*◌, ◌/◌, ◌%◌,
  Bool, List, [], ◌∷◌, ◌++◌,
}

-- Uint32SliceToByteSlice
pub uint32_slice_to_byte_slice : List ℕ → List ℕ
uint32_slice_to_byte_slice [] = []
uint32_slice_to_byte_slice (v ∷ vs) =
    let w = put_big_endian v in w.b0 ∷ w.b1 ∷ w.b2 ∷ w.b3 ∷ uint32_slice_to_byte_slice vs

-- ByteSliceToUint32Slice: what does not fill a group of four bytes at the end is left out.
pub byte_slice_to_uint32_slice : List ℕ → List ℕ
byte_slice_to_uint32_slice (b0 ∷ b1 ∷ b2 ∷ b3 ∷ bytes) =
    big_endian (record { b0 = b0; b1 = b1; b2 = b2; b3 = b3 }) ∷ byte_slice_to_uint32_slice bytes
byte_slice_to_uint32_slice bytes = []

-- The inner loop of ByteToBits, with `left` bits to write: bits.LeadingZeros8(d) is 0 when the top
-- bit of `d` is set, and `d << 1` is of a byte.
unfoldable pub byte_bits : ℕ → ℕ → List Bool
byte_bits zero d = []
byte_bits (suc left) d = leb 128 d ∷ byte_bits left (d * 2 % 256)

unfoldable pub byte_to_bits : List ℕ → List Bool
unfolding byte_bits
byte_to_bits [] = []
byte_to_bits (d ∷ data') = byte_bits 8 d ++ byte_to_bits data'

-- VectorToMatrixIndices, for at least one column.
unfoldable pub vector_to_matrix_indices : ℕ → ℕ → ℕ × ℕ
vector_to_matrix_indices i num_columns = (i / num_columns, i % num_columns)

-- MaxBytesLength, for the values of the map in the order of the iteration.
unfoldable pub max_bytes_length : List (List ℕ) → ℕ → ℕ
max_bytes_length [] max = max
max_bytes_length (v ∷ vs) max = max_bytes_length vs (if ltb max (length v) then length v else max)
