-- ===== src/Database/Merkle/Created.antt =====
-- The databases that CreateRandomMerkle makes.
use apir_code.Base.{
  ltb, ◌==◌, length, get_or, take, drop, replicate, All, length-take, length-drop, length-replicate,
  length-tabulate, get_or-take, slice, slice_ok, All-take-drop, All-tabulate_below, ok, ℕ, zero,
  suc, ◌+◌, ◌-◌, ◌*◌, ◌/◌, ◌≤◌, ◌<◌, ◌≡◌, refl, ap, ◌∙◌, subst, ◌≢◌, false, List, [], arith,
}
use native.Mathlib.Nat.{mul-le-mul_right, div-mul-le_self}
use apir_code.Database.Bytes.{IsWhole, sum_lengths, sum_lengths-replicate, All-replicate}
use apir_code.Point.{Proofs}
use apir_code.Point.Retrieve.{entry}
use apir_code.Database.Merkle.{
  Trees, MerkleDb, or_fatal, make_merkle_entries, random_blocks, create_random_merkle,
}
use apir_code.Database.Merkle.Entries.{IsProven, signed_block, generate_merkle_proofs-signed_block}

get_or-replicate : (n x i : ℕ) → i < n → get_or (replicate n x) i 0 ≡ x
get_or-replicate zero x i h = absurd (omega arith)
get_or-replicate (suc n) x zero h = refl
get_or-replicate (suc n) x (suc i) h = get_or-replicate n x i (omega arith)

sum_lengths-take-replicate : (n x i : ℕ) → i ≤ n → sum_lengths (take i (replicate n x)) ≡ i * x
unfolding sum_lengths
sum_lengths-take-replicate n x zero h = omega arith
sum_lengths-take-replicate zero x (suc i) h = absurd (omega arith)
sum_lengths-take-replicate (suc n) x (suc i) h =
    omega (arith, sum_lengths-take-replicate n x i (omega arith))

module _ {proofs : Proofs} (trees : Trees proofs) (random : List ℕ)
    (db_len num_rows block_len : ℕ) where
  abbrev pub merkle_blocks : List (List ℕ)
  merkle_blocks = random_blocks trees random (db_len / (8 * block_len)) block_len

  abbrev pub merkle_columns : ℕ
  merkle_columns = db_len / (8 * block_len) / num_rows

  length-merkle_blocks : length merkle_blocks ≡ db_len / (8 * block_len)
  unfolding random_blocks
  length-merkle_blocks = length-tabulate (db_len / (8 * block_len)) _

  length-merkle_block :
      db_len / (8 * block_len) * block_len ≤ length random
      → All (λ b. length b ≡ block_len) merkle_blocks
  unfolding random_blocks
  length-merkle_block enough =
      let n = db_len / (8 * block_len) in
      All-tabulate_below (λ b. length b ≡ block_len) n _
        (λ j below.
          let rows : j + 1 ≤ n = omega arith in
          let scaled = mul-le-mul_right block_len rows in
          omega (
            arith,
            length-take block_len (drop (j * block_len) random),
            length-drop (j * block_len) random,
          ))

  -- What CreateRandomMerkle promises: a database with a length for each block and bytes for all blocks, and
  -- at each index the block with its proof, which is all that the block size has room for.
  pub record HoldsBlocks (tree : trees.Tree) (m : MerkleDb) : Type 0 where
    pub rows : m.bytes.num_rows ≡ num_rows
    pub columns : m.bytes.num_columns ≡ merkle_columns
    pub whole : IsWhole m.bytes
    pub the_root : m.root ≡ trees.root tree
    pub the_length : m.proof_len ≡ trees.encoded_proof_length tree
    pub at_index :
        (index : ℕ)
        → index < num_rows * merkle_columns
        → (proven : IsProven trees tree (get_or merkle_blocks index [])) × (entry m.bytes index
            ≡ signed_block trees tree (get_or merkle_blocks index []) proven)

  -- With blocks of at least one byte, at least one row, enough random bytes, a tree of the blocks and a
  -- proof for each of them in the tree, CreateRandomMerkle returns a database that holds the blocks.
  pub create_random_merkle-HoldsBlocks :
      (tree : trees.Tree)
      → block_len ≢ 0
      → num_rows ≢ 0
      → db_len / (8 * block_len) * block_len ≤ length random
      → trees.new_tree merkle_blocks ≡ ok tree
      → All (IsProven trees tree) merkle_blocks
      → (m : MerkleDb) × (create_random_merkle trees random db_len num_rows block_len ≡ ok m)
        × HoldsBlocks tree m
  unfolding create_random_merkle make_merkle_entries or_fatal entry
  create_random_merkle-HoldsBlocks tree some_byte some_row enough made proven =
      let n = num_rows * merkle_columns in
      let size = block_len + trees.encoded_proof_length tree + 1 in
      let fewer : n ≤ db_len / (8 * block_len) =
        omega (arith, div-mul-le_self (db_len / (8 * block_len)) num_rows) in
      let used = take n (drop 0 merkle_blocks) in
      let all_used : length used ≡ n =
        omega (arith, length-take n (drop 0 merkle_blocks), length-merkle_blocks) in
      let width : n - 0 ≡ n = omega arith in
      let read : slice merkle_blocks 0 n ≡ ok used =
        slice_ok merkle_blocks 0 n (omega arith) (omega (arith, length-merkle_blocks))
        ∙ ap (λ (k : ℕ). ok (take k (drop 0 merkle_blocks))) width in
      let (entries, run, all, at) =
        generate_merkle_proofs-signed_block trees tree block_len size used refl
          (All-take-drop (IsProven trees tree) n 0 merkle_blocks proven)
          (All-take-drop (λ b. length b ≡ block_len) n 0 merkle_blocks
            (length-merkle_block enough)) in
      let scaled : length used * size ≡ n * size = ap (λ (k : ℕ). k * size) all_used in
      let bytes_ok : (block_len == 0) ≡ false = ground arith in
      let rows_ok : (num_rows == 0) ≡ false = ground arith in
      let filled : ltb (length random) (db_len / (8 * block_len) * block_len) ≡ false =
        ground arith in
      let m : MerkleDb = record {
        bytes = record {
          entries = entries;
          num_rows = num_rows;
          num_columns = merkle_columns;
          block_size = size;
          block_lengths = replicate n size;
        };
        root = trees.root tree;
        proof_len = trees.encoded_proof_length tree;
      } in
      (
        m,
        rw (bytes_ok, rows_ok, filled, made) (rw (read, run) refl),
        record {
          rows = refl;
          columns = refl;
          whole = record {
            all_blocks = length-replicate n size;
            fits = All-replicate n size;
            all_bytes = omega (arith, sum_lengths-replicate n size);
          };
          the_root = refl;
          the_length = refl;
          at_index = λ index below.
              let same = get_or-take n index (drop 0 merkle_blocks) [] below in
              let width' = get_or-replicate n size index below in
              let start = sum_lengths-take-replicate n size index (omega arith) in
              let (p, e) = at index (omega arith) in
              subst
                (λ (block : List ℕ).
                  (proven' : IsProven trees tree block) × (entry m.bytes index
                    ≡ signed_block trees tree block proven'))
                same (p, rw (width', start) e);
        },
      )
