-- ===== src/Database/Pgp/Proven.antt =====
-- The databases that GenerateRealKeyMerkle makes: the buckets of the hash table with a proof for each.
use apir_code.Base.{
  ltb, ltb→lt, Bool-cases, length, get_or, take, drop, tabulate, All, length-tabulate,
  get_or-tabulate, take_all, get_or_ext, length-map, slice, slice_ok, ok, ℕ, zero, suc, ◌+◌, ◌-◌,
  ◌*◌, ◌^◌, ◌≤◌, ◌<◌, ◌≡◌, refl, sym, ap, ap₂, ◌∙◌, subst, ◌≢◌, inl, inr, Bool, none, List, [], ◌∷◌,
  map, arith,
}
use apir_code.Query.{Platform}
use apir_code.Database.Bytes.{IsWhole, sum_lengths}
use apir_code.Database.Size.{Floats, calculate_num_rows_and_columns}
use apir_code.Database.Merkle.{
  Trees, MerkleDb, or_fatal, generate_merkle_proofs, make_merkle_entries,
}
use apir_code.Database.Merkle.Entries.{IsProven, signed_block, length-signed_block}
use apir_code.Database.Pgp.{
  PgpKey, Sorter, sort_by_id, block_of, join_blocks, max_block_len, generate_real_key_merkle,
}
use apir_code.Database.Pgp.Buckets.{
  bucket, make_hash_table-bucket, join_blocks-at, sum_lengths-map, get_or-map-block_of,
}
use apir_code.Point.{Proofs}
use apir_code.Point.Retrieve.{entry}

module _ {proofs : Proofs} (trees : Trees proofs) (tree : trees.Tree) where
  -- The entries are the blocks one behind the other, each with its proof, whatever lengths they have.
  generate_merkle_proofs-join_blocks :
      (blocks : List (List ℕ))
      → All (IsProven trees tree) blocks
      → (pieces : List (List ℕ)) × (generate_merkle_proofs trees tree blocks
          ≡ ok (join_blocks pieces))
        × (map length pieces ≡ map (λ b. length b + trees.encoded_proof_length tree + 1) blocks)
        × ((i : ℕ)
            → i < length blocks
            → (proven : IsProven trees tree (get_or blocks i [])) × (get_or pieces i []
                ≡ signed_block trees tree (get_or blocks i []) proven))
  unfolding generate_merkle_proofs or_fatal join_blocks
  generate_merkle_proofs-join_blocks [] proven = ([], refl, refl, λ i h. absurd (omega arith))
  generate_merkle_proofs-join_blocks (block ∷ blocks) proven =
      let (pieces, run, lens, at) = generate_merkle_proofs-join_blocks blocks proven.1 in
      let here = signed_block trees tree block proven.0 in
      (
        here ∷ pieces,
        rw (proven.0.generated, run) refl,
        ap₂ ◌∷◌ (length-signed_block trees tree block proven.0) lens,
        at_either block blocks pieces proven.0 at,
      )
    where
      at_either :
          (block : List ℕ) (blocks pieces : List (List ℕ)) (p : IsProven trees tree block)
          → ((i : ℕ)
              → i < length blocks
              → (proven : IsProven trees tree (get_or blocks i [])) × (get_or pieces i []
                  ≡ signed_block trees tree (get_or blocks i []) proven))
          → (i : ℕ) → i < suc (length blocks)
          → (proven : IsProven trees tree (get_or (block ∷ blocks) i [])) × (get_or
                (signed_block trees tree block p ∷ pieces)
                i
                []
              ≡ signed_block trees tree (get_or (block ∷ blocks) i []) proven)
      at_either block blocks pieces p at zero h = (p, refl)
      at_either block blocks pieces p at (suc i) h = at i (omega arith)

max_block_len-le : (lens : List ℕ) (m : ℕ) → m ≤ max_block_len lens m
unfolding max_block_len
max_block_len-le [] m = omega arith
max_block_len-le (len ∷ lens) m = elim (Bool-cases (ltb m len)) [
  | inl more ↦ rw more (omega (arith, ltb→lt m len more, max_block_len-le lens len))
  | inr other ↦ rw other (max_block_len-le lens m)
]

-- No block length is above the greatest.
max_block_len-fit :
    (lens : List ℕ) (m size : ℕ) → max_block_len lens m ≤ size → All (λ l. l ≤ size) lens
unfolding max_block_len
max_block_len-fit [] m size h = tt
max_block_len-fit (len ∷ lens) m size h = elim (Bool-cases (ltb m len)) [
  | inl more ↦
      let h' : max_block_len lens len ≤ size = rw more at h in
      (omega (arith, max_block_len-le lens len), max_block_len-fit lens len size h')
  | inr other ↦
      let h' : max_block_len lens m ≤ size = rw other at h in
      let le : len ≤ m = ground arith in
      (omega (arith, max_block_len-le lens m), max_block_len-fit lens m size h')
]

module _ ⦃floats : Floats⦄ {proofs : Proofs} (trees : Trees proofs) (p : Platform) (sorter : Sorter)
    (keys : List PgpKey) (rebalanced : Bool) where
  abbrev pub proven_rows : ℕ
  proven_rows = (calculate_num_rows_and_columns (floats.tenth (length keys)) rebalanced).0

  abbrev pub proven_columns : ℕ
  proven_columns = (calculate_num_rows_and_columns (floats.tenth (length keys)) rebalanced).1

  -- The block of a place: its padded bucket, or nothing.
  abbrev pub key_block : ℕ → List ℕ
  key_block i = block_of (bucket p (proven_rows * proven_columns) i (sort_by_id sorter keys) none)

  abbrev pub key_blocks : List (List ℕ)
  key_blocks = tabulate (proven_rows * proven_columns) key_block

  -- What GenerateRealKeyMerkle promises: a well-formed database with the block of each place and its proof.
  pub record HoldsProvenKeys (tree : trees.Tree) (m : MerkleDb) : Type 0 where
    pub rows : m.bytes.num_rows ≡ proven_rows
    pub columns : m.bytes.num_columns ≡ proven_columns
    pub whole : IsWhole m.bytes
    pub the_root : m.root ≡ trees.root tree
    pub the_length : m.proof_len ≡ trees.encoded_proof_length tree
    pub at_index :
        (i : ℕ)
        → i < proven_rows * proven_columns
        → (proven : IsProven trees tree (key_block i)) × (entry m.bytes i
            ≡ signed_block trees tree (key_block i) proven)

  -- For a table of at least one place and fewer than 2^32, a tree of its blocks, and a proof for each block in
  -- the tree, GenerateRealKeyMerkle returns a database that holds the keys with their proofs.
  pub generate_real_key_merkle-HoldsProvenKeys :
      (tree : trees.Tree)
      → proven_rows * proven_columns ≢ 0
      → proven_rows * proven_columns < 2 ^ 32
      → trees.new_tree key_blocks ≡ ok tree
      → All (IsProven trees tree) key_blocks
      → (m : MerkleDb) × (generate_real_key_merkle trees p sorter keys rebalanced ≡ ok m)
        × HoldsProvenKeys tree m
  unfolding generate_real_key_merkle make_merkle_entries entry
  generate_real_key_merkle-HoldsProvenKeys tree some_place fits made proven =
      let n = proven_rows * proven_columns in
      let (ht, run, len, at) =
        make_hash_table-bucket p n some_place fits (sort_by_id sorter keys) in
      let same : map block_of ht ≡ key_blocks =
        get_or_ext [] (map block_of ht) key_blocks
          (length-map block_of ht ∙ len ∙ sym (length-tabulate n key_block))
          (λ i below.
            let inside : i < n = omega (arith, length-map block_of ht) in
            get_or-map-block_of ht i
            ∙ ap block_of (at i)
            ∙ sym (get_or-tabulate n i key_block [] inside)) in
      let (pieces, written, lens, places) =
        generate_merkle_proofs-join_blocks trees tree key_blocks proven in
      let read : slice key_blocks 0 n ≡ ok key_blocks =
        slice_ok key_blocks 0 n (omega arith) (omega (arith, length-tabulate n key_block))
        ∙ ap ok (take_all (n - 0) key_blocks (omega (arith, length-tabulate n key_block))) in
      let block_lens = map (λ b. length b + trees.encoded_proof_length tree + 1) key_blocks in
      let m : MerkleDb = record {
        bytes = record {
          entries = join_blocks pieces;
          num_rows = proven_rows;
          num_columns = proven_columns;
          block_size = max_block_len block_lens 0;
          block_lengths = block_lens;
        };
        root = trees.root tree;
        proof_len = trees.encoded_proof_length tree;
      } in
      (
        m,
        rw (run, same, made, read, written) refl,
        record {
          rows = refl;
          columns = refl;
          whole = record {
            all_blocks = length-map _ key_blocks ∙ length-tabulate n key_block;
            fits = max_block_len-fit block_lens 0 _ (omega arith);
            all_bytes = omega (arith, ap sum_lengths (sym lens), sum_lengths-map pieces);
          };
          the_root = refl;
          the_length = refl;
          at_index = λ i below.
              let (proven', e) = places i (omega (arith, length-tabulate n key_block)) in
              let here : entry m.bytes i ≡ get_or pieces i [] =
                ap
                  (λ (ls : List ℕ).
                    take (get_or ls i 0) (drop (sum_lengths (take i ls)) (join_blocks pieces)))
                  (sym lens)
                ∙ join_blocks-at pieces i in
              subst
                (λ (block : List ℕ).
                  (proven : IsProven trees tree block) × (entry m.bytes i
                    ≡ signed_block trees tree block proven))
                (get_or-tabulate n i key_block [] below) (proven', here ∙ e);
        },
      )
