-- ===== src/Field/Vectors.antt =====
-- BytesToElements, RandVectorWithPRG and VectorToBytes.
use apir_code.Base.{
  length, All, IsByte, Bytes4, big_endian, ok, ℕ, zero, suc, ◌*◌, ◌≤◌, ◌<◌, ◌≡◌, refl, ap, ◌≢◌,
  List, [], ◌∷◌, arith,
}
use apir_code.Field.{mod_p, mask_top, bytes_to_elements}
use apir_code.Field.Elements.{big_endian-mask_top, to_element_first}

-- What BytesToElements stores where no group stands for ModP, and what it leaves in the slice.
unfoldable pub element_values : ℕ → List ℕ → List ℕ
element_values zero bytes = []
element_values (suc n) (b0 ∷ b1 ∷ b2 ∷ b3 ∷ bytes) =
    big_endian (mask_top (record { b0 = b0; b1 = b1; b2 = b2; b3 = b3 })) ∷ element_values n bytes
element_values (suc n) bytes = []

unfoldable pub masked_bytes : ℕ → List ℕ → List ℕ
masked_bytes zero bytes = bytes
masked_bytes (suc n) (b0 ∷ b1 ∷ b2 ∷ b3 ∷ bytes) =
    (mask_top (record { b0 = b0; b1 = b1; b2 = b2; b3 = b3 })).b0
    ∷ b1
    ∷ b2
    ∷ b3
    ∷ masked_bytes n bytes
masked_bytes (suc n) bytes = bytes

abbrev pub IsClean : ℕ → List ℕ → Type 0
IsClean n bytes = All (λ x. x ≢ mod_p) (element_values n bytes)

-- With no group that stands for ModP the conversion draws nothing.
pub bytes_to_elements_clean :
    (n : ℕ) (bytes : List ℕ) (draws : List Bytes4)
    → 4 * n ≤ length bytes
    → IsClean n bytes
    → bytes_to_elements n bytes draws ≡ ok (element_values n bytes, masked_bytes n bytes, draws)
unfolding bytes_to_elements element_values masked_bytes
bytes_to_elements_clean zero bytes draws h c = refl
bytes_to_elements_clean (suc n) (b0 ∷ b1 ∷ b2 ∷ b3 ∷ bytes) draws h c = ground (
  arith,
  to_element_first draws (record { b0 = b0; b1 = b1; b2 = b2; b3 = b3 }),
  bytes_to_elements_clean n bytes draws (omega arith) c.1,
)
bytes_to_elements_clean (suc n) [] draws h c = absurd (omega arith)
bytes_to_elements_clean (suc n) (b0 ∷ []) draws h c = absurd (omega arith)
bytes_to_elements_clean (suc n) (b0 ∷ b1 ∷ []) draws h c = absurd (omega arith)
bytes_to_elements_clean (suc n) (b0 ∷ b1 ∷ b2 ∷ []) draws h c = absurd (omega arith)

pub length-element_values :
    (n : ℕ) (bytes : List ℕ) → 4 * n ≤ length bytes → length (element_values n bytes) ≡ n
unfolding element_values
length-element_values zero bytes h = refl
length-element_values (suc n) (b0 ∷ b1 ∷ b2 ∷ b3 ∷ bytes) h =
    ap suc (length-element_values n bytes (omega arith))
length-element_values (suc n) [] h = absurd (omega arith)
length-element_values (suc n) (b0 ∷ []) h = absurd (omega arith)
length-element_values (suc n) (b0 ∷ b1 ∷ []) h = absurd (omega arith)
length-element_values (suc n) (b0 ∷ b1 ∷ b2 ∷ []) h = absurd (omega arith)

pub length-masked_bytes : (n : ℕ) (bytes : List ℕ) → length (masked_bytes n bytes) ≡ length bytes
unfolding masked_bytes
length-masked_bytes zero bytes = refl
length-masked_bytes (suc n) (b0 ∷ b1 ∷ b2 ∷ b3 ∷ bytes) = omega (arith, length-masked_bytes n bytes)
length-masked_bytes (suc n) [] = refl
length-masked_bytes (suc n) (b0 ∷ []) = refl
length-masked_bytes (suc n) (b0 ∷ b1 ∷ []) = refl
length-masked_bytes (suc n) (b0 ∷ b1 ∷ b2 ∷ []) = refl

pub element_values-lt :
    (n : ℕ) (bytes : List ℕ)
    → All IsByte bytes
    → IsClean n bytes
    → All (λ x. x < mod_p) (element_values n bytes)
unfolding element_values
element_values-lt zero bytes h c = tt
element_values-lt (suc n) (b0 ∷ b1 ∷ b2 ∷ b3 ∷ bytes) h c = (
  omega (arith, big_endian-mask_top (record { b0 = b0; b1 = b1; b2 = b2; b3 = b3 }), c.0, h),
  element_values-lt n bytes h.1.1.1.1 c.1,
)
element_values-lt (suc n) [] h c = tt
element_values-lt (suc n) (b0 ∷ []) h c = tt
element_values-lt (suc n) (b0 ∷ b1 ∷ []) h c = tt
element_values-lt (suc n) (b0 ∷ b1 ∷ b2 ∷ []) h c = tt
