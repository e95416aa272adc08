-- ===== src/Tests/Lattices.antt =====
-- Products of small matrices, answers of the lattice scheme, its repetition, and shares of a query.
use apir_code.Base.{
  length, get_elem?, replicate, tabulate_from, tabulate, u32, byte_at, reject, ok, err, ℕ, zero,
  suc, ◌+◌, ◌-◌, ◌*◌, ◌/◌, ◌^◌, ◌<◌, ◌≡◌, refl, inl, inr, false, some, List, [], ◌∷◌, arith,
}
use apir_code.Ecc.{count}
use apir_code.Matrix.{
  Matrix, matrix_to_bytes, bytes_to_matrix, mul, sub, multiply, binary_multiply, all_rows,
  add_products, add_row, first_place, new,
}
use apir_code.Matrix.Codec.{bytes_to_matrix-matrix_to_bytes}
use apir_code.Matrix.Product.{sum_from, multiply_at, binary_multiply_at}
use apir_code.Lwe.{Lwe, StateLwe, in_range, lwe_reconstruct}
use apir_code.Lwe.Noise.{IsNoise, lwe_reconstruct_noisy, lwe_reconstruct_rejects}
use apir_code.Lwe.Amplify.{Amplify, amplify_reconstruct, amplify_reconstruct_majority}
use apir_code.Point.{secret_share, unit_vector}
use apir_code.Point.Sharing.{xor_all, secret_share-xor}
use apir_code.Tests.{toy_xor}

multiply_at_example :
    byte_at (multiply 1 2 2 (2 ∷ 3 ∷ []) (4 ∷ 5 ∷ 6 ∷ 7 ∷ []) (replicate (1 * 2) 0)) (2 * 0 + 1)
    ≡ u32 (
        sum_from
          (λ k. u32 (byte_at (2 ∷ 3 ∷ []) (2 * 0 + k) * byte_at (4 ∷ 5 ∷ 6 ∷ 7 ∷ []) (2 * k + 1)))
          0
          2)
multiply_at_example =
    multiply_at 1 2 2 (2 ∷ 3 ∷ []) (4 ∷ 5 ∷ 6 ∷ 7 ∷ []) 0 1 (omega arith) (omega arith)

binary_multiply_at_example :
    byte_at
      (binary_multiply 1 2 2 (2 ∷ 3 ∷ []) (1 ∷ 1 ∷ 0 ∷ 1 ∷ []) (replicate (1 * 2) 0))
      (2 * 0 + 1)
    ≡ u32 (
        sum_from
          (λ k. byte_at (2 ∷ 3 ∷ []) (2 * 0 + k) * byte_at (1 ∷ 1 ∷ 0 ∷ 1 ∷ []) (2 * k + 1))
          0
          2)
binary_multiply_at_example =
    binary_multiply_at 1 2 2 (2 ∷ 3 ∷ []) (1 ∷ 1 ∷ 0 ∷ 1 ∷ []) 0 1 (omega arith) (omega arith)
      (ground arith) (ground arith)

abbrev some_matrix : Matrix
some_matrix = record { rows = 2; cols = 1; data' = 70000 ∷ 5 ∷ [] }

bytes_to_matrix-matrix_to_bytes_example :
    bytes_to_matrix (matrix_to_bytes some_matrix) ≡ ok some_matrix
bytes_to_matrix-matrix_to_bytes_example =
    bytes_to_matrix-matrix_to_bytes some_matrix (omega arith) (omega arith) (ground arith)

abbrev row : ℕ → ℕ → Matrix
row x y = record { rows = 1; cols = 2; data' = x ∷ y ∷ [] }

abbrev some_state : StateLwe
some_state = record {
  a = row 0 0;
  digest = row 5 7;
  secret = record { rows = 1; cols = 1; data' = 3 ∷ [] };
  i = 0;
  j = 1;
  t = 1000;
}

abbrev some_lwe : Lwe
some_lwe = record {
  num_columns = 2;
  digest = row 5 7;
  state = some some_state;
  params = record { n = 1; l = 1; m = 2; b = 4 };
}

some_product : mul some_state.secret some_state.digest ≡ ok (row 15 21)
unfolding mul multiply all_rows add_products add_row first_place new
some_product = refl

noise : ℕ → ℕ
noise zero = 2
noise (suc i) = 4294967295

bit : ℕ → ℕ
bit zero = 0
bit (suc i) = 1

bit-lt : (i : ℕ) → bit i < 2
unfolding bit
bit-lt zero = omega arith
bit-lt (suc i) = omega arith

noise-IsNoise : (i : ℕ) → IsNoise 4 (noise i)
unfolding noise
noise-IsNoise zero = inl (omega arith)
noise-IsNoise (suc i) = inr (omega arith, omega arith)

some_difference : sub (row 17 1020) (row 15 21) ≡ ok (row 2 999)
unfolding sub tabulate tabulate_from
some_difference = refl

some_values : (k : ℕ) → k < 2 → byte_at (2 ∷ 999 ∷ []) k ≡ u32 (noise k + 1000 * bit k)
unfolding noise bit
some_values zero h = refl
some_values (suc zero) h = refl
some_values (suc (suc k)) h = absurd (omega arith)

some_answer : lwe_reconstruct some_lwe (row 17 1020) ≡ ok (bit 1)
some_answer =
    lwe_reconstruct_noisy some_lwe some_state (row 17 1020) (row 15 21) (row 2 999) refl
      some_product some_difference (omega arith) bit noise
      (omega arith, omega arith, omega arith, omega arith) bit-lt noise-IsNoise some_values
      (omega arith)

lwe_reconstruct_noisy_example : lwe_reconstruct some_lwe (row 17 1020) ≡ ok (bit 1)
lwe_reconstruct_noisy_example =
    lwe_reconstruct_noisy some_lwe some_state (row 17 1020) (row 15 21) (row 2 999) refl
      some_product some_difference (omega arith) bit noise
      (omega arith, omega arith, omega arith, omega arith) bit-lt noise-IsNoise some_values
      (omega arith)

far_difference : sub (row 17 520) (row 15 21) ≡ ok (row 2 499)
unfolding sub tabulate tabulate_from
far_difference = refl

in_range_far : (in_range 4 499 ≡ false) × (in_range 4 (u32 (499 + u32 (2 ^ 32 - 1000))) ≡ false)
unfolding in_range
in_range_far = (refl, refl)

lwe_reconstruct_rejects_example : lwe_reconstruct some_lwe (row 17 520) ≡ err reject
lwe_reconstruct_rejects_example =
    lwe_reconstruct_rejects some_lwe some_state (row 17 520) (row 15 21) (row 2 499) refl
      some_product far_difference (omega arith) 1 (omega arith) in_range_far.0 in_range_far.1

abbrev some_amplify : Amplify
some_amplify = record { repetitions = 3; lwes = some_lwe ∷ some_lwe ∷ some_lwe ∷ [] }

abbrev three_answers : List Matrix
three_answers = row 17 1020 ∷ row 17 1020 ∷ row 17 1020 ∷ []

some_base :
    (k : ℕ)
    → k < 3
    → (c : Lwe) × (m : Matrix) × (get_elem? some_amplify.lwes k ≡ some c)
      × (get_elem? three_answers k ≡ some m)
      × (lwe_reconstruct c m ≡ ok (bit 1))
some_base zero h = (some_lwe, row 17 1020, refl, refl, some_answer)
some_base (suc zero) h = (some_lwe, row 17 1020, refl, refl, some_answer)
some_base (suc (suc zero)) h = (some_lwe, row 17 1020, refl, refl, some_answer)
some_base (suc (suc (suc k))) h = absurd (omega arith)

some_count : 3 / 2 < count (bit 1) (tabulate_from 3 0 (λ k. bit 1))
unfolding count tabulate_from bit
some_count = omega arith

amplify_reconstruct_majority_example : amplify_reconstruct some_amplify three_answers ≡ ok (bit 1)
amplify_reconstruct_majority_example =
    amplify_reconstruct_majority some_amplify three_answers (λ k. bit 1) some_base some_count
      (omega arith)

secret_share-xor_example :
    (length (secret_share ⦃fx = toy_xor⦄ 12 3 9 (1 ∷ 2 ∷ 3 ∷ 4 ∷ [])) ≡ 3)
    × (xor_all (secret_share ⦃fx = toy_xor⦄ 12 3 9 (1 ∷ 2 ∷ 3 ∷ 4 ∷ [])) 1
        ≡ byte_at (unit_vector ⦃fx = toy_xor⦄ (12 / 8 + 1) 9) 1)
secret_share-xor_example =
    secret_share-xor ⦃fx = toy_xor⦄ 12 3 9 (1 ∷ 2 ∷ 3 ∷ 4 ∷ []) 1 (omega arith) (omega arith)
