-- ===== src/Field.antt =====
-- lib/field/field.go: elements of the field of 2^31 - 1 elements, drawn from bytes.
-- A Go slice of 4-byte groups is a list of `Bytes4`. What the random readers will return is a list of
-- such groups as well: a function takes the groups that it reads from the front and returns the others.
-- `stuck` says that the list ended before the loop did.
pub mod Elements
pub mod Vectors
use apir_code.Base.{
  ◌>>=◌, ◌==◌, if◌then◌else◌, length, u32, Bytes4, big_endian, put_big_endian, Result, ok, panic,
  stuck, ℕ, zero, suc, ◌+◌, ◌-◌, ◌^◌, bit_and, List, [], ◌∷◌,
}

abbrev pub mod_p : ℕ
mod_p = 2147483647

abbrev pub concurrent_executions : ℕ
concurrent_executions = 4

-- `ModP - in[i]`, of uint32
pub negate_vector : List ℕ → List ℕ
negate_vector [] = []
negate_vector (x ∷ xs) = u32 (mod_p + 2 ^ 32 - x) ∷ negate_vector xs

-- `in[0] &= Mask`, in place
unfoldable pub mask_top : Bytes4 → Bytes4
mask_top w = record w { b0 = bit_and w.b0 127 }

-- The loop of toElement. The bytes that it draws again are not masked.
pub resample : List Bytes4 → ℕ → Result (ℕ × List Bytes4)
resample [] out = if out == mod_p then stuck else ok (out, [])
resample (d ∷ draws) out =
    let again = resample draws (big_endian d) in if out == mod_p then again else ok (out, d ∷ draws)

-- The value; the slice that it was read from is masked by `mask_top`.
pub to_element : List Bytes4 → Bytes4 → Result (ℕ × List Bytes4)
to_element draws w = resample draws (big_endian (mask_top w))

-- RandElementWithPRG, which masks what it draws.
unfoldable pub rand_element_with_prg : List Bytes4 → Result (ℕ × List Bytes4)
rand_element_with_prg [] = stuck
rand_element_with_prg (d ∷ draws) =
    let again = rand_element_with_prg draws in
    let out = big_endian (mask_top d) in if out == mod_p then again else ok (out, draws)

-- RandVectorWithPRG: the first `length` groups are read at once, and a group that stands for ModP is
-- replaced by later draws.
fill_vector : List Bytes4 → List Bytes4 → Result (List ℕ × List Bytes4)
fill_vector [] draws = ok ([], draws)
fill_vector (w ∷ ws) draws =
    let out = big_endian (mask_top w) in
    do
      (x, draws') ← if out == mod_p then rand_element_with_prg draws else ok (out, draws)
      (xs, draws'') ← fill_vector ws draws'
      ok (x ∷ xs, draws'')

split_draws : ℕ → List Bytes4 → Result (List Bytes4 × List Bytes4)
split_draws zero draws = ok ([], draws)
split_draws (suc n) [] = stuck
split_draws (suc n) (d ∷ draws) = do (ws, rest) ← split_draws n draws; ok (d ∷ ws, rest)

pub rand_vector_with_prg : ℕ → List Bytes4 → Result (List ℕ × List Bytes4)
unfolding fill_vector split_draws
rand_vector_with_prg length draws = do (ws, rest) ← split_draws length draws; fill_vector ws rest

-- BytesToElements: one element for each place of `out`, and the slice that is left behind, masked.
-- A slice that is too short panics.
pub bytes_to_elements : ℕ → List ℕ → List Bytes4 → Result (List ℕ × List ℕ × List Bytes4)
bytes_to_elements zero bytes draws = ok ([], bytes, draws)
bytes_to_elements (suc n) (b0 ∷ b1 ∷ b2 ∷ b3 ∷ bytes) draws =
    let w : Bytes4 = record { b0 = b0; b1 = b1; b2 = b2; b3 = b3 } in
    do
      (x, draws') ← to_element draws w
      (xs, masked, draws'') ← bytes_to_elements n bytes draws'
      ok (x ∷ xs, (mask_top w).b0 ∷ b1 ∷ b2 ∷ b3 ∷ masked, draws'')
bytes_to_elements (suc n) bytes draws = panic

-- VectorToBytes on a []uint32: the first byte of each element is dropped.
pub vector_to_bytes : List ℕ → List ℕ
vector_to_bytes [] = []
vector_to_bytes (e ∷ vec) = let w = put_big_endian e in w.b1 ∷ w.b2 ∷ w.b3 ∷ vector_to_bytes vec
