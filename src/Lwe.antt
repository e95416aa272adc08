-- ===== src/Lwe.antt =====
-- lib/client/lwe.go, lib/server/lwe.go, lib/client/amplify.go and lib/server/amplify.go: the
-- single-server scheme on lattices, and its repetition. What crypto and Gaussian samplers give, that is
-- the random matrices, the secrets and the errors, are arguments.
pub mod Noise
pub mod Database
pub mod Amplify
pub mod Honest
pub mod Run
use apir_code.Base.{
  ◌>>=◌, ltb, if◌then◌else◌, get_elem?, u32, little_endian, Result, or_panic, reject, ok, err, ℕ,
  zero, suc, ◌+◌, ◌-◌, ◌^◌, Bool, ◌||◌, Option, none, some, List, [], ◌∷◌, ◌++◌,
}
use apir_code.Utils.Encoding.{vector_to_matrix_indices}
use apir_code.Matrix.{
  Matrix, MatrixBytes, new, set_at, get, mul, binary_mul, add, sub, matrix_to_bytes,
  bytes_to_matrix,
}

-- NewRandom takes the header of the byte slice for one of words: the places are the words of `bytes`,
-- which the processor reads with the lowest byte first, and then `beyond`, what lies behind in memory.
unfoldable pub le_words : List ℕ → List ℕ
le_words (b0 ∷ b1 ∷ b2 ∷ b3 ∷ bytes) =
    little_endian (record { b0 = b0; b1 = b1; b2 = b2; b3 = b3 }) ∷ le_words bytes
le_words bytes = []

unfoldable pub new_random : List ℕ → List ℕ → ℕ → ℕ → Matrix
new_random bytes beyond r c = record { rows = r; cols = c; data' = le_words bytes ++ beyond }

-- The numbers of ParamsLWE that the client reads.
pub record ParamsLwe : Type 0 where
  pub n : ℕ
  pub l : ℕ
  pub m : ℕ
  pub b : ℕ

pub record StateLwe : Type 0 where
  pub a : Matrix
  pub digest : Matrix
  pub secret : Matrix
  pub i : ℕ
  pub j : ℕ
  pub t : ℕ

pub record Lwe : Type 0 where
  pub num_columns : ℕ
  pub digest : Matrix
  pub state : Option StateLwe
  pub params : ParamsLwe

pub new_lwe : ℕ → Matrix → ParamsLwe → Lwe
new_lwe num_columns digest params = record {
  num_columns = num_columns;
  digest = digest;
  state = none;
  params = params;
}

-- Query: `rand`, `a` and `secret` are the three results of NewRandom, and `e` that of NewGauss.
unfoldable pub lwe_query : Lwe → Matrix → Matrix → Matrix → Matrix → ℕ → ℕ → Result (Matrix × Lwe)
lwe_query c rand a secret e i j = do
  t ← get rand 0 0
  let st : StateLwe = record { a = a; digest = c.digest; secret = secret; i = i; j = j; t = t }
  q ← mul secret a
  msg ← set_at (new 1 c.params.l) 0 i t
  q' ← add q e
  q'' ← add q' msg
  ok (q'', record c { state = some st })

pub lwe_query_bytes : Lwe → Matrix → Matrix → Matrix → Matrix → ℕ → Result (List ℕ × Lwe)
lwe_query_bytes c rand a secret e index = do
  let (i, j) = vector_to_matrix_indices index c.num_columns
  (m, c') ← lwe_query c rand a secret e i j
  ok (matrix_to_bytes m, c')

-- inRange; `-B` is of uint32.
unfoldable pub in_range : ℕ → ℕ → Bool
in_range b val = ltb val b || ltb (u32 (2 ^ 32 - b)) val

-- One round of the loop of Reconstruct; `v - t` is of uint32.
unfoldable pub decode_value : ℕ → ℕ → ℕ → Result ℕ
unfolding in_range
decode_value b t v =
    if in_range b v
    then ok 0
    else if in_range b (u32 (v + u32 (2 ^ 32 - t)))
    then ok 1
    else err reject

-- The loop from place `i` on.
unfoldable pub decode_values : ℕ → ℕ → Matrix → ℕ → ℕ → Result (List ℕ)
decode_values b t answers zero i = ok []
decode_values b t answers (suc left) i = do
  v ← get answers 0 i
  out ← decode_value b t v
  outs ← decode_values b t answers left (suc i)
  ok (out ∷ outs)

-- Reconstruct. Without a query before it the state is a nil pointer.
unfoldable pub lwe_reconstruct : Lwe → Matrix → Result ℕ
lwe_reconstruct c answers = do
  st ← or_panic c.state
  s_trans_d ← mul st.secret st.digest
  answers' ← sub answers s_trans_d
  outs ← decode_values c.params.b st.t answers' c.params.m 0
  or_panic (get_elem? outs st.j)

pub lwe_reconstruct_bytes : Lwe → List ℕ → Result ℕ
lwe_reconstruct_bytes c bytes = do m ← bytes_to_matrix bytes; lwe_reconstruct c m

-- The server.
unfoldable pub lwe_answer : MatrixBytes → Matrix → Result Matrix
lwe_answer db q = binary_mul q db

pub lwe_answer_bytes : MatrixBytes → List ℕ → Result (List ℕ)
lwe_answer_bytes db q = do m ← bytes_to_matrix q; a ← lwe_answer db m; ok (matrix_to_bytes a)
