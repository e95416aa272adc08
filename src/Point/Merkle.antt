-- ===== src/Point/Merkle.antt =====
-- Point queries of a database with Merkle proofs, from its creation to the block that the client verifies.
use apir_code.Base.{
  ltb, length, get_or, take, replicate, length-append, take-append, drop-append, ◌>>=◌, ok, FastXor,
  ℕ, ◌+◌, ◌-◌, ◌*◌, ◌/◌, ◌≤◌, ◌<◌, ◌≡◌, refl, sym, ap, ap₂, ◌∙◌, subst, ◌≢◌, false, List, [], ◌∷◌,
  ◌++◌, append_assoc, arith,
}
use apir_code.Database.Padding.{
  pad_with_signal_byte, un_pad_block, un_pad_block-pad_with_signal_byte,
}
use apir_code.Database.Merkle.{Trees, MerkleDb}
use apir_code.Database.Merkle.Entries.{IsProven, signed_block}
use apir_code.Database.Merkle.Created.{merkle_blocks, merkle_columns, HoldsBlocks}
use apir_code.Point.{
  PointKeys, Proofs, merkle_type, point_query, reconstruct_value_pir, verified_data,
  reconstruct_pir,
}
use apir_code.Point.Retrieve.{entry, filled_entry}
use apir_code.Point.Scheme.{all_answers, point_query-answer-reconstruct}

module _ {proofs : Proofs} (trees : Trees proofs) (tree : trees.Tree) where
  -- The client takes the proof off, and verifies it.
  verified_data-proven :
      (block : List ℕ) (proven : IsProven trees tree block)
      → verified_data proofs
          (trees.encoded_proof_length tree)
          (trees.root tree)
          (block ++ trees.encode_proof proven.proof)
        ≡ ok block
  unfolding verified_data
  verified_data-proven block proven =
      let e = trees.encode_proof proven.proof in
      let plen = trees.encoded_proof_length tree in
      let all = length-append block e in
      let announced = proven.announced in
      let rest : length (block ++ e) - plen ≡ length block = omega arith in
      let long : ltb (length (block ++ e)) plen ≡ false = ground arith in
      let data_part = take-append (length block) block e refl in
      let proof_part = drop-append (length block) block e refl in
      rw (long, rest, data_part, proof_part, proven.decoded, proven.verifies)
        (ap (λ (k : ℕ). ok (take k (block ++ e))) rest ∙ ap ok data_part)

  -- The padding goes with it.
  un_pad-signed_block :
      (block : List ℕ) (proven : IsProven trees tree block) (k : ℕ)
      → un_pad_block (signed_block trees tree block proven ++ replicate k 0)
        ≡ ok (block ++ trees.encode_proof proven.proof)
  unfolding pad_with_signal_byte
  un_pad-signed_block block proven k =
      let e = trees.encode_proof proven.proof in
      ap (λ (b : List ℕ). un_pad_block (b ++ replicate k 0)) (sym (append_assoc block e (128 ∷ [])))
      ∙ un_pad_block-pad_with_signal_byte (block ++ e) k

  -- The block that reconstructPIR returns for an entry with a proof.
  pub reconstruct_pir-signed_block :
      ⦃fx : FastXor⦄ (m : MerkleDb) (answers : List (List ℕ)) (ix index : ℕ) (block : List ℕ)
      (proven : IsProven trees tree block)
      → m.proof_len ≡ trees.encoded_proof_length tree
      → m.root ≡ trees.root tree
      → reconstruct_value_pir answers m.bytes.block_size ix (replicate m.bytes.block_size 0)
        ≡ ok (filled_entry m.bytes index)
      → entry m.bytes index ≡ signed_block trees tree block proven
      → reconstruct_pir proofs merkle_type m.proof_len m.root answers m.bytes.block_size ix
        ≡ ok block
  unfolding reconstruct_pir filled_entry
  reconstruct_pir-signed_block m answers ix index block proven same_length same_root found e =
      let k = m.bytes.block_size - length (entry m.bytes index) in
      ap (λ r. r >>= (λ b. un_pad_block b >>= verified_data proofs m.proof_len m.root)) found
      ∙ ap
          (λ (b : List ℕ).
            un_pad_block (b ++ replicate k 0) >>= verified_data proofs m.proof_len m.root)
          e
      ∙ ap (λ r. r >>= verified_data proofs m.proof_len m.root) (un_pad-signed_block block proven k)
      ∙ rw (same_length, same_root) (verified_data-proven block proven)

module _ ⦃fx : FastXor⦄ {proofs : Proofs} (trees : Trees proofs) (random : List ℕ)
    (db_len num_rows block_len : ℕ) where
  -- For a database that holds the blocks that it was made from, as CreateRandomMerkle makes them, an index
  -- of one of them, any number of servers but none and two, and enough random bytes: the query is made
  -- without a panic, all servers answer it, and the client returns the block at the index, whose proof
  -- has verified.
  pub merkle_query-answer-reconstruct :
      (keys : PointKeys) (tree : trees.Tree) (m : MerkleDb) (index n : ℕ) (rand : List ℕ)
      → HoldsBlocks trees random db_len num_rows block_len tree m
      → n ≢ 0
      → n ≢ 2
      → (n - 1) * (merkle_columns trees random db_len num_rows block_len / 8 + 1) ≤ length rand
      → index < num_rows * merkle_columns trees random db_len num_rows block_len
      → (vectors : List (List ℕ)) × (ix : ℕ) × (iy : ℕ) × (answers : List (List ℕ)) × (point_query
            keys m.bytes.num_columns index n rand
          ≡ ok (vectors, ix, iy))
        × (all_answers keys m.bytes n vectors ≡ ok answers)
        × (reconstruct_pir proofs merkle_type m.proof_len m.root answers m.bytes.block_size ix
            ≡ ok (get_or (merkle_blocks trees random db_len num_rows block_len) index []))
  merkle_query-answer-reconstruct keys tree m index n rand holds some_server others enough below =
      let inside : index < m.bytes.num_rows * m.bytes.num_columns =
        subst (λ (k : ℕ). index < k) (ap₂ ◌*◌ (sym holds.rows) (sym holds.columns)) below in
      let enough' : (n - 1) * (m.bytes.num_columns / 8 + 1) ≤ length rand =
        subst (λ (c : ℕ). (n - 1) * (c / 8 + 1) ≤ length rand) (sym holds.columns) enough in
      let (vectors, ix, iy, answers, queried, answered, found) =
        point_query-answer-reconstruct keys m.bytes index n rand holds.whole some_server others
          enough' inside in
      let (proven, e) = holds.at_index index below in
      let block = get_or (merkle_blocks trees random db_len num_rows block_len) index [] in
      (
        vectors,
        ix,
        iy,
        answers,
        queried,
        answered,
        reconstruct_pir-signed_block trees tree m answers ix index block proven holds.the_length
            holds.the_root found e,
      )
