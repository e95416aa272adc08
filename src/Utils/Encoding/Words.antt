-- ===== src/Utils/Encoding/Words.antt =====
-- The words of a slice come back from its bytes.
use apir_code.Base.{
  length, All, IsByte, IsU32, big_endian_put, ℕ, ◌-◌, ◌*◌, ◌≡◌, refl, ap₂, List, [], ◌∷◌, arith,
}
use apir_code.Utils.Encoding.{uint32_slice_to_byte_slice, byte_slice_to_uint32_slice}

-- Words that were turned into bytes are read back from them, one for each group of four, and the
-- bytes are four times as many.
pub byte_slice-uint32_slice :
    (vs : List ℕ)
    → All IsU32 vs
    → (byte_slice_to_uint32_slice (uint32_slice_to_byte_slice vs) ≡ vs)
      × (length (uint32_slice_to_byte_slice vs) ≡ 4 * length vs)
unfolding byte_slice_to_uint32_slice uint32_slice_to_byte_slice
byte_slice-uint32_slice [] h = (refl, refl)
byte_slice-uint32_slice (v ∷ vs) h =
    let (same, long) = byte_slice-uint32_slice vs h.1 in
    (ap₂ ◌∷◌ (big_endian_put v h.0) same, omega (arith, long))

-- Bytes that fill whole groups are written back from their words.
uint32_slice-byte_slice :
    (n : ℕ) (bytes : List ℕ)
    → All IsByte bytes
    → length bytes ≡ 4 * n
    → uint32_slice_to_byte_slice (byte_slice_to_uint32_slice bytes) ≡ bytes
unfolding byte_slice_to_uint32_slice uint32_slice_to_byte_slice
uint32_slice-byte_slice n [] h e = refl
uint32_slice-byte_slice n (b0 ∷ []) h e = absurd (omega arith)
uint32_slice-byte_slice n (b0 ∷ b1 ∷ []) h e = absurd (omega arith)
uint32_slice-byte_slice n (b0 ∷ b1 ∷ b2 ∷ []) h e = absurd (omega arith)
uint32_slice-byte_slice n (b0 ∷ b1 ∷ b2 ∷ b3 ∷ bytes) h e = ap₂ ◌∷◌ (omega arith) (
    ap₂ ◌∷◌ (omega arith) (
      ap₂ ◌∷◌ (omega arith)
        (ap₂ ◌∷◌ (omega arith) (uint32_slice-byte_slice (n - 1) bytes h.1.1.1.1 (omega arith)))))
