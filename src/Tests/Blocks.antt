-- ===== src/Tests/Blocks.antt =====
-- Point queries of small databases of blocks, with and without proofs.
use apir_code.Base.{
  ◌==◌, tabulate_from, tabulate, All, byte_at, ok, ℕ, ◌≡◌, refl, ap, true, List, [], ◌∷◌, arith,
}
use apir_code.Database.Bytes.{BytesDb, IsWhole, sum_lengths}
use apir_code.Database.Merkle.{Trees, MerkleDb, random_blocks, create_random_merkle}
use apir_code.Database.Merkle.Entries.{IsProven}
use apir_code.Database.Merkle.Created.{merkle_blocks, HoldsBlocks, create_random_merkle-HoldsBlocks}
use apir_code.Point.{
  PointKeys, Proofs, merkle_type, point_query, reconstruct_value_pir, reconstruct_pir,
}
use apir_code.Point.Retrieve.{entry, filled_entry}
use apir_code.Point.Scheme.{all_answers, point_query-answer-reconstruct}
use apir_code.Point.Merkle.{merkle_query-answer-reconstruct}
use apir_code.Tests.{toy_xor}

abbrev pub no_keys : PointKeys
no_keys = record { gen = λ i bits. ([], []); eval_full = λ key bits. key }

-- Two rows of two blocks, of which the second has one byte.
abbrev some_bytes_db : BytesDb
some_bytes_db = record {
  entries = 11 ∷ 12 ∷ 13 ∷ 14 ∷ 15 ∷ 16 ∷ [];
  num_rows = 2;
  num_columns = 2;
  block_size = 2;
  block_lengths = 2 ∷ 1 ∷ 2 ∷ 1 ∷ [];
}

some_IsWhole : IsWhole some_bytes_db
unfolding sum_lengths
some_IsWhole = record {
  all_blocks = refl;
  fits = (omega arith, (omega arith, (omega arith, (omega arith, tt))));
  all_bytes = omega arith;
}

point_query-answer-reconstruct_example :
    (vectors : List (List ℕ)) × (ix : ℕ) × (iy : ℕ) × (answers : List (List ℕ)) × (point_query
        ⦃fx = toy_xor⦄ no_keys 2 3 3
        (77 ∷ 130 ∷ [])
      ≡ ok (vectors, ix, iy))
    × (all_answers ⦃fx = toy_xor⦄ no_keys some_bytes_db 3 vectors ≡ ok answers)
    × (reconstruct_value_pir ⦃fx = toy_xor⦄ answers 2 ix (0 ∷ 0 ∷ []) ≡ ok (16 ∷ 0 ∷ []))
unfolding filled_entry entry sum_lengths
point_query-answer-reconstruct_example =
    point_query-answer-reconstruct ⦃fx = toy_xor⦄ no_keys some_bytes_db 3 3 (77 ∷ 130 ∷ [])
      some_IsWhole (omega arith) (omega arith) (omega arith) (omega arith)

-- A proof that holds the first byte of its block.
abbrev pub byte_proofs : Proofs
byte_proofs = record {
  Proof = List ℕ;
  decode_proof = λ bytes. bytes;
  verify_proof = λ block proof root. ok (byte_at block 0 == byte_at proof 0);
}

abbrev pub byte_trees : Trees byte_proofs
byte_trees = record {
  Tree = List (List ℕ);
  new_tree = λ blocks. ok blocks;
  generate_proof = λ tree block. ok (byte_at block 0 ∷ []);
  encode_proof = λ proof. proof;
  encoded_proof_length = λ tree. 1;
  root = λ tree. [];
}

abbrev some_random : List ℕ
some_random = 21 ∷ 22 ∷ 23 ∷ 24 ∷ []

abbrev some_tree : List (List ℕ)
some_tree = merkle_blocks byte_trees some_random 32 2 1

pub one_byte-IsProven : (tree blocks : List (List ℕ)) → All (IsProven byte_trees tree) blocks
one_byte-IsProven tree [] = tt
one_byte-IsProven tree (block ∷ blocks) = (
  record {
    proof = byte_at block 0 ∷ [];
    generated = refl;
    announced = refl;
    decoded = refl;
    verifies = let same : (byte_at block 0 == byte_at block 0) ≡ true = ground arith in ap ok same;
  },
  one_byte-IsProven tree blocks,
)

create_random_merkle-HoldsBlocks_example :
    (m : MerkleDb) × (create_random_merkle byte_trees some_random 32 2 1 ≡ ok m)
    × HoldsBlocks byte_trees some_random 32 2 1 some_tree m
create_random_merkle-HoldsBlocks_example =
    create_random_merkle-HoldsBlocks byte_trees some_random 32 2 1 some_tree (omega arith)
      (omega arith) (omega arith) refl (one_byte-IsProven some_tree some_tree)

some_merkle :
    (m : MerkleDb) × (create_random_merkle byte_trees some_random 32 2 1 ≡ ok m)
    × HoldsBlocks byte_trees some_random 32 2 1 some_tree m
some_merkle =
    create_random_merkle-HoldsBlocks byte_trees some_random 32 2 1 some_tree (omega arith)
      (omega arith) (omega arith) refl (one_byte-IsProven some_tree some_tree)

merkle_query-answer-reconstruct_example :
    (vectors : List (List ℕ)) × (ix : ℕ) × (iy : ℕ) × (answers : List (List ℕ)) × (point_query
        ⦃fx = toy_xor⦄ no_keys some_merkle.0.bytes.num_columns 2 3
        (77 ∷ 130 ∷ [])
      ≡ ok (vectors, ix, iy))
    × (all_answers ⦃fx = toy_xor⦄ no_keys some_merkle.0.bytes 3 vectors ≡ ok answers)
    × (reconstruct_pir ⦃fx = toy_xor⦄ byte_proofs merkle_type some_merkle.0.proof_len
          some_merkle.0.root answers some_merkle.0.bytes.block_size ix
        ≡ ok (23 ∷ []))
unfolding random_blocks tabulate tabulate_from
merkle_query-answer-reconstruct_example =
    merkle_query-answer-reconstruct ⦃fx = toy_xor⦄ byte_trees some_random 32 2 1 no_keys some_tree
      some_merkle.0 2 3 (77 ∷ 130 ∷ []) some_merkle.2 (omega arith) (omega arith) (omega arith)
      (omega arith)
