-- ===== src/Tests/Proven.antt =====
-- A key database with proofs, of twenty keys that all have the same hash.
use apir_code.Base.{
  ok, ℕ, ◌+◌, ◌*◌, ◌/◌, ◌≤◌, ◌≡◌, refl, sym, subst, false, List, [], ◌∷◌, ◌++◌, arith,
}
use apir_code.Database.Size.{calculate_num_rows_and_columns}
use apir_code.Database.Merkle.{MerkleDb}
use apir_code.Database.Padding.{un_pad_block}
use apir_code.Database.Pgp.{generate_real_key_merkle}
use apir_code.Database.Pgp.Buckets.{index_of}
use apir_code.Database.Pgp.Proven.{
  key_blocks, HoldsProvenKeys, generate_real_key_merkle-HoldsProvenKeys,
}
use apir_code.Database.Pgp.Verified.{proven_key_lookup}
use apir_code.Point.{merkle_type, point_query, reconstruct_pir}
use apir_code.Point.Scheme.{all_answers}
use apir_code.Tests.{toy_xor}
use apir_code.Tests.Numbers.{int_floats}
use apir_code.Tests.Predicates.{toy_platform}
use apir_code.Tests.Blocks.{no_keys, byte_proofs, byte_trees, one_byte-IsProven}
use apir_code.Tests.Buckets.{same_order, some_key, twenty_keys}

abbrev key_tree : List (List ℕ)
key_tree = key_blocks byte_trees toy_platform same_order twenty_keys false

generate_real_key_merkle-HoldsProvenKeys_example :
    (m : MerkleDb) × (generate_real_key_merkle byte_trees toy_platform same_order twenty_keys false
      ≡ ok m)
    × HoldsProvenKeys byte_trees toy_platform same_order twenty_keys false key_tree m
unfolding calculate_num_rows_and_columns
generate_real_key_merkle-HoldsProvenKeys_example =
    generate_real_key_merkle-HoldsProvenKeys byte_trees toy_platform same_order twenty_keys false
      key_tree (omega arith) (omega arith) refl (one_byte-IsProven key_tree key_tree)

some_proven_db :
    (m : MerkleDb) × (generate_real_key_merkle byte_trees toy_platform same_order twenty_keys false
      ≡ ok m)
    × HoldsProvenKeys byte_trees toy_platform same_order twenty_keys false key_tree m
unfolding calculate_num_rows_and_columns
some_proven_db =
    generate_real_key_merkle-HoldsProvenKeys byte_trees toy_platform same_order twenty_keys false
      key_tree (omega arith) (omega arith) refl (one_byte-IsProven key_tree key_tree)

proven_key_lookup_example :
    (vectors : List (List ℕ)) × (ix : ℕ) × (iy : ℕ) × (answers : List (List ℕ)) × (block : List ℕ)
    × (pre : List ℕ) × (post : List ℕ) × (point_query ⦃fx = toy_xor⦄ no_keys
          some_proven_db.0.bytes.num_columns
          (index_of toy_platform 2 (97 ∷ []))
          3
          (77 ∷ 130 ∷ [])
        ≡ ok (vectors, ix, iy))
    × (all_answers ⦃fx = toy_xor⦄ no_keys some_proven_db.0.bytes 3 vectors ≡ ok answers)
    × (reconstruct_pir ⦃fx = toy_xor⦄ byte_proofs merkle_type some_proven_db.0.proof_len
          some_proven_db.0.root answers some_proven_db.0.bytes.block_size ix
        ≡ ok block)
    × (un_pad_block block ≡ ok (pre ++ ((1 ∷ 2 ∷ []) ++ post)))
unfolding calculate_num_rows_and_columns
proven_key_lookup_example =
    proven_key_lookup ⦃fx = toy_xor⦄ byte_trees toy_platform same_order twenty_keys false key_tree
      some_proven_db.0 no_keys 4 some_key 3 (77 ∷ 130 ∷ []) some_proven_db.2 (omega arith)
      (omega arith) refl (omega arith) (omega arith)
      (subst (λ (c : ℕ). 2 * (c / 8 + 1) ≤ 2) (sym (HoldsProvenKeys.columns some_proven_db.2))
        (omega arith))
