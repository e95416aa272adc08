-- ===== src/Lwe/Amplify.antt =====
-- The repetition of the scheme with a repetition code. The client keeps one base client for each
-- repetition.
use apir_code.Base.{
  get_elem?, set, replicate, tabulate_from, length-tabulate_from, Result, ◌>>=◌, or_panic, reject,
  ok, err, panic, stuck, ℕ, zero, suc, ◌+◌, ◌*◌, ◌/◌, ◌≤◌, ◌<◌, ◌≡◌, refl, some, List, [], ◌∷◌,
  arith,
}
use apir_code.Ecc.{count, decode}
use apir_code.Ecc.Majority.{decode_iff}
use apir_code.Matrix.{Matrix, MatrixBytes, binary_mul}
use apir_code.Matrix.Many.{matrices_to_bytes, bytes_to_matrices}
use apir_code.Utils.Encoding.{vector_to_matrix_indices}
use apir_code.Lwe.{Lwe, lwe_query, lwe_reconstruct}

pub record Amplify : Type 0 where
  pub repetitions : ℕ
  pub lwes : List Lwe

-- NewAmplify, for a base client as NewLWE makes it.
pub new_amplify : Lwe → ℕ → Amplify
new_amplify lwe t_ecc = record { repetitions = t_ecc * 2 + 1; lwes = replicate (t_ecc * 2 + 1) lwe }

-- The samples for one base query: the scalar, the public matrix, the secret and the error.
pub record Samples : Type 0 where
  pub rand : Matrix
  pub a : Matrix
  pub secret : Matrix
  pub e : Matrix

-- Query: one base query for each repetition, from repetition `k` on.
query_each : List Lwe → List Samples → ℕ → ℕ → ℕ → ℕ → Result (List Matrix × List Lwe)
query_each lwes samples zero k i j = ok ([], lwes)
query_each lwes samples (suc left) k i j = do
  c ← or_panic (get_elem? lwes k)
  s ← or_panic (get_elem? samples k)
  (q, c') ← lwe_query c s.rand s.a s.secret s.e i j
  (qs, lwes') ← query_each (set lwes k c') samples left (suc k) i j
  ok (q ∷ qs, lwes')

pub amplify_query : Amplify → List Samples → ℕ → ℕ → Result (List Matrix × Amplify)
amplify_query a samples i j = do
  (qs, lwes) ← query_each a.lwes samples a.repetitions 0 i j
  ok (qs, record a { lwes = lwes })

-- The server answers each of the queries.
pub amplify_answer : MatrixBytes → List Matrix → Result (List Matrix)
amplify_answer db [] = ok []
amplify_answer db (q ∷ qs) = do a ← binary_mul q db; as' ← amplify_answer db qs; ok (a ∷ as')

-- The loop of Reconstruct from repetition `i` on: every error of a base client becomes "REJECT".
pub reconstruct_each : List Lwe → List Matrix → ℕ → ℕ → Result (List ℕ)
reconstruct_each lwes answers zero i = ok []
reconstruct_each lwes answers (suc left) i = do
  c ← or_panic (get_elem? lwes i)
  answer ← or_panic (get_elem? answers i)
  out ← elim (lwe_reconstruct c answer) [
    | ok v ↦ ok v
    | err e ↦ err reject
    | panic ↦ panic
    | stuck ↦ stuck
  ]
  outs ← reconstruct_each lwes answers left (suc i)
  ok (out ∷ outs)

pub amplify_reconstruct : Amplify → List Matrix → Result ℕ
amplify_reconstruct a answers = do
  outputs ← reconstruct_each a.lwes answers a.repetitions 0
  decode outputs

-- The same on bytes. An empty list of base clients panics.
pub amplify_query_bytes : Amplify → List Samples → ℕ → Result (List ℕ × Amplify)
amplify_query_bytes a samples index = do
  first ← or_panic (get_elem? a.lwes 0)
  let (i, j) = vector_to_matrix_indices index first.num_columns
  (qs, a') ← amplify_query a samples i j
  bytes ← matrices_to_bytes qs
  ok (bytes, a')

pub amplify_answer_bytes : MatrixBytes → List ℕ → Result (List ℕ)
amplify_answer_bytes db bytes = do
  qs ← bytes_to_matrices bytes
  answers ← amplify_answer db qs
  matrices_to_bytes answers

pub amplify_reconstruct_bytes : Amplify → List ℕ → Result ℕ
amplify_reconstruct_bytes a bytes = do
  answers ← bytes_to_matrices bytes
  amplify_reconstruct a answers

module _ (lwes : List Lwe) (answers : List Matrix) (out : ℕ → ℕ) where
  reconstruct_each_lem :
      (left i : ℕ)
      → ((k : ℕ)
          → i ≤ k
          → k < i + left
          → (c : Lwe) × (m : Matrix) × (get_elem? lwes k ≡ some c)
            × (get_elem? answers k ≡ some m)
            × (lwe_reconstruct c m ≡ ok (out k)))
      → reconstruct_each lwes answers left i ≡ ok (tabulate_from left i out)
  unfolding reconstruct_each tabulate_from
  reconstruct_each_lem zero i h = refl
  reconstruct_each_lem (suc left) i h =
      let (c, m, found, given, e) = h i (omega arith) (omega arith) in
      rw
        (
          found,
          given,
          e,
          reconstruct_each_lem left (suc i) (λ k p q. h k (omega arith) (omega arith)),
        )
        refl

-- If each base client returns a bit for its answer, and more than half of the bits are the one of the
-- first client, then Reconstruct returns that one.
pub amplify_reconstruct_majority :
    (a : Amplify) (answers : List Matrix) (out : ℕ → ℕ)
    → ((k : ℕ)
        → k < a.repetitions
        → (c : Lwe) × (m : Matrix) × (get_elem? a.lwes k ≡ some c)
          × (get_elem? answers k ≡ some m)
          × (lwe_reconstruct c m ≡ ok (out k)))
    → a.repetitions / 2 < count (out 0) (tabulate_from a.repetitions 0 out)
    → 1 ≤ a.repetitions
    → amplify_reconstruct a answers ≡ ok (out 0)
unfolding amplify_reconstruct tabulate_from
amplify_reconstruct_majority a answers out h more some_word =
    rw (reconstruct_each_lem a.lwes answers out a.repetitions 0 (λ k p q. h k (omega arith)))
      (decoded a.repetitions more some_word)
  where
    decoded :
        (n : ℕ)
        → n / 2 < count (out 0) (tabulate_from n 0 out)
        → 1 ≤ n
        → decode (tabulate_from n 0 out) ≡ ok (out 0)
    decoded zero h k = absurd (omega arith)
    decoded (suc n) h k =
        (decode_iff (out 0) (out 0) (tabulate_from n 1 out)).1
          (refl, omega (arith, h, length-tabulate_from {A = ℕ} n 1 out))
