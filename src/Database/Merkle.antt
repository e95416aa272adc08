-- ===== src/Database/Merkle.antt =====
-- lib/database/merkle.go: databases of bytes whose blocks carry a Merkle proof. The package lib/merkle, a
-- modified copy of github.com/wealdtech/go-merkletree, is the parameter `Trees`.
pub mod Entries
pub mod Created
use apir_code.Base.{
  ◌>>=◌, ltb, ◌==◌, if◌then◌else◌, length, take, drop, replicate, tabulate, slice, Result, ok, err,
  panic, stuck, ℕ, ◌+◌, ◌*◌, ◌/◌, ◌||◌, List, [], ◌∷◌, ◌++◌,
}
use apir_code.Database.Bytes.{BytesDb}
use apir_code.Database.Padding.{pad_with_signal_byte}
use apir_code.Point.{Proofs}

-- The operations of the package that the database calls, on the proofs that the client decodes.
pub record Trees (proofs : Proofs) : Type 1 where
  pub Tree : Type 0
  pub new_tree : List (List ℕ) → Result Tree
  pub generate_proof : Tree → List ℕ → Result proofs.Proof
  pub encode_proof : proofs.Proof → List ℕ
  pub encoded_proof_length : Tree → ℕ
  pub root : Tree → List ℕ

-- The database with the fields of database.Merkle.
pub record MerkleDb : Type 0 where
  pub bytes : BytesDb
  pub root : List ℕ
  pub proof_len : ℕ

-- log.Fatalf for an error ends the program.
unfoldable pub or_fatal {ℓ} : {A : Type ℓ} → Result A → Result A
or_fatal (ok a) = ok a
or_fatal (err e) = panic
or_fatal panic = panic
or_fatal stuck = stuck

module _ {proofs : Proofs} (trees : Trees proofs) where
  -- generateMerkleProofs
  unfoldable pub generate_merkle_proofs : trees.Tree → List (List ℕ) → Result (List ℕ)
  generate_merkle_proofs t [] = ok []
  generate_merkle_proofs t (block ∷ data') = do
    p ← or_fatal (trees.generate_proof t block)
    result ← generate_merkle_proofs t data'
    ok ((block ++ pad_with_signal_byte (trees.encode_proof p)) ++ result)

  -- makeMerkleEntries, whose one routine takes all blocks of the matrix.
  unfoldable pub make_merkle_entries : List (List ℕ) → trees.Tree → ℕ → ℕ → Result (List ℕ)
  make_merkle_entries blocks tree num_rows num_columns = do
    data' ← slice blocks 0 (num_rows * num_columns)
    generate_merkle_proofs tree data'

  -- The blocks of CreateRandomMerkle.
  unfoldable pub random_blocks : List ℕ → ℕ → ℕ → List (List ℕ)
  random_blocks random num_blocks block_len =
      tabulate num_blocks (λ i. take block_len (drop (i * block_len) random))

  -- CreateRandomMerkle, on the bytes that the reader fills the blocks from. Blocks of no bytes, and no
  -- rows, divide by 0, the latter only behind the tree, where an error ends the program in the same way.
  unfoldable pub create_random_merkle : List ℕ → ℕ → ℕ → ℕ → Result MerkleDb
  create_random_merkle random db_len num_rows block_len =
      let num_blocks = db_len / (8 * block_len) in
      let blocks = random_blocks random num_blocks block_len in
      let num_columns = num_blocks / num_rows in
      if block_len == 0 || num_rows == 0
      then panic
      else if ltb (length random) (num_blocks * block_len)
      then stuck
      else do
        tree ← or_fatal (trees.new_tree blocks)
        let proof_len = trees.encoded_proof_length tree
        let block_len' = block_len + proof_len + 1
        entries ← make_merkle_entries blocks tree num_rows num_columns
        ok (record {
          bytes = record {
            entries = entries;
            num_rows = num_rows;
            num_columns = num_columns;
            block_size = block_len';
            block_lengths = replicate (num_rows * num_columns) block_len';
          };
          root = trees.root tree;
          proof_len = proof_len;
        })
