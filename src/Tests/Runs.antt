-- ===== src/Tests/Runs.antt =====
-- The lattice scheme on a database of two rows and two columns.
use apir_code.Base.{
  All, IsU32, byte_at, ok, ℕ, List, ◌*◌, zero, suc, ◌<◌, ◌≡◌, refl, inl, inr, none, [], ◌∷◌, arith,
}
use apir_code.Matrix.{
  Matrix, MatrixBytes, get, binary_mul, binary_multiply, all_rows, add_products, add_row,
  first_place, new,
}
use apir_code.Matrix.Product.{sum_from}
use apir_code.Lwe.{Lwe, le_words, new_random, lwe_query, lwe_answer, lwe_reconstruct}
use apir_code.Lwe.Database.{
  LweDb, digest, create_random_binary_lwe, HoldsDigits, create_random_binary_lwe-HoldsDigits,
}
use apir_code.Matrix.Places.{IsFilled}
use apir_code.Lwe.Noise.{IsNoise}
use apir_code.Lwe.Run.{IsSetUp, answer_noise, lwe_query-answer-reconstruct}

abbrev seed_bytes : List ℕ
seed_bytes = 5 ∷ 0 ∷ 0 ∷ 0 ∷ 7 ∷ 0 ∷ 0 ∷ 0 ∷ []

-- The client and the server fill the public matrix with the same bytes, and have other words behind it.
abbrev run_public : Matrix
run_public = new_random seed_bytes (91 ∷ 92 ∷ 93 ∷ 94 ∷ 95 ∷ 96 ∷ []) 1 2

abbrev run_server : Matrix
run_server = new_random seed_bytes (0 ∷ 0 ∷ 0 ∷ 0 ∷ 0 ∷ 1 ∷ []) 1 2

abbrev run_secret : Matrix
run_secret = new_random (3 ∷ 0 ∷ 0 ∷ 0 ∷ []) (81 ∷ 82 ∷ 83 ∷ []) 1 1

abbrev run_error : Matrix
run_error = record { rows = 1; cols = 2; data' = 1 ∷ 4294967295 ∷ [] }

abbrev run_scalar : Matrix
run_scalar = new_random (232 ∷ 3 ∷ 0 ∷ 0 ∷ []) (71 ∷ 72 ∷ 73 ∷ []) 1 1

abbrev run_db : MatrixBytes
run_db = record { rows = 2; cols = 2; data' = 1 ∷ 0 ∷ 1 ∷ 1 ∷ [] }

abbrev run_lwe : Lwe
run_lwe = record {
  num_columns = 2;
  digest = record { rows = 1; cols = 2; data' = 12 ∷ 7 ∷ [] };
  state = none;
  params = record { n = 1; l = 2; m = 2; b = 4 };
}

run_digest : digest run_server run_db ≡ ok run_lwe.digest
unfolding new_random le_words digest binary_mul binary_multiply all_rows add_products add_row
    first_place new
run_digest = refl

run_scalar_read : get run_scalar 0 0 ≡ ok 1000
unfolding get new_random le_words
run_scalar_read = refl

same_places : (k : ℕ) → k < 1 * 2 → byte_at run_server.data' k ≡ byte_at run_public.data' k
unfolding new_random le_words
same_places zero h = refl
same_places (suc zero) h = refl
same_places (suc (suc k)) h = absurd (omega arith)

run-IsFilled : IsFilled 1 2 run_server
unfolding new_random le_words
run-IsFilled = record { all_rows' = refl; all_cols = refl; all_places = omega arith }

run_words : All IsU32 run_server.data'
unfolding new_random le_words
run_words = ground arith

run_IsSetUp : IsSetUp run_lwe run_public run_server run_secret run_error run_db
unfolding new_random le_words
run_IsSetUp = record {
  some_n = omega arith;
  some_l = omega arith;
  some_m = omega arith;
  public_filled = record { all_rows' = refl; all_cols = refl; all_places = omega arith };
  server_filled = run-IsFilled;
  server_words = run_words;
  same_public = same_places;
  secret_filled = record { all_rows' = refl; all_cols = refl; all_places = omega arith };
  error_sized = record { all_rows' = refl; all_cols = refl; all_places = refl };
  db_rows = refl;
  db_cols = refl;
  db_places = omega arith;
  db_bits = (omega arith, (omega arith, (omega arith, (omega arith, tt))));
  digested = run_digest;
}

run-IsNoise :
    (p : ℕ)
    → p < 2
    → IsNoise 4 (answer_noise run_lwe run_public run_server run_secret run_error run_db p)
unfolding sum_from
run-IsNoise zero h = inl (omega arith)
run-IsNoise (suc zero) h = inr (omega arith, omega arith)
run-IsNoise (suc (suc p)) h = absurd (omega arith)

lwe_query-answer-reconstruct_example :
    (q : Matrix) × (c' : Lwe) × (answers : Matrix) × (lwe_query run_lwe run_scalar run_public
        run_secret run_error 1 0
      ≡ ok (q, c'))
    × (lwe_answer run_db q ≡ ok answers)
    × (lwe_reconstruct c' answers ≡ ok 1)
lwe_query-answer-reconstruct_example =
    lwe_query-answer-reconstruct run_lwe run_public run_server run_secret run_error run_db
      run_IsSetUp run_scalar 1 1000 run_scalar_read (omega arith) 0 (omega arith)
      (omega arith, omega arith, omega arith, omega arith) run-IsNoise

create_random_binary_lwe-HoldsDigits_example :
    (db : LweDb) × (create_random_binary_lwe (77 ∷ 3 ∷ []) run_server 2 5 ≡ ok db)
    × HoldsDigits (77 ∷ 3 ∷ []) run_server 1 2 5 db
unfolding new_random le_words
create_random_binary_lwe-HoldsDigits_example =
    create_random_binary_lwe-HoldsDigits (77 ∷ 3 ∷ []) run_server 1 2 5 (omega arith) (omega arith)
      (omega arith) run-IsFilled run_words
