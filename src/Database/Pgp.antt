-- ===== src/Database/Pgp.antt =====
-- lib/database/pgp.go: the databases that are made of OpenPGP keys. Reading the keys from disk belongs to
-- lib/pgp and an OpenPGP library; a key here is its identifier and its packet.
pub mod Buckets
pub mod Infos
pub mod Lookup
pub mod Proven
pub mod Verified
use apir_code.Base.{
  ◌>>=◌, ltb, ◌==◌, if◌then◌else◌, length, get_elem?, get_or, set, replicate, Result, ok, panic, ℕ,
  ◌+◌, ◌-◌, ◌*◌, ◌%◌, ◌≡◌, Bool, true, false, Option, none, some, List, [], ◌∷◌, ◌++◌, map,
}
use apir_code.Query.{Platform}
use apir_code.Utils.Encoding.{max_bytes_length}
use apir_code.Database.Bytes.{BytesDb}
use apir_code.Database.Fields.{hash_to_index}
use apir_code.Database.Padding.{pad_with_signal_byte}
use apir_code.Point.{Proofs}
use apir_code.Database.Merkle.{Trees, MerkleDb, make_merkle_entries}
use apir_code.Database.Size.{Floats, calculate_num_rows_and_columns}

-- pgp.Key
pub record PgpKey : Type 0 where
  pub id : List ℕ
  pub packet : List ℕ

-- Whether a string is greater than another, byte by byte.
pub greater : List ℕ → List ℕ → Bool
greater [] ys = false
greater (x ∷ xs) [] = true
greater (x ∷ xs) (y ∷ ys) = if x == y then greater xs ys else ltb y x

-- sort.Slice, which is not part of the repository: it keeps the elements of the slice.
pub record Sorter : Type 1 where
  pub sort : (PgpKey → PgpKey → Bool) → List PgpKey → List PgpKey
  pub length-sort :
      (less : PgpKey → PgpKey → Bool) (keys : List PgpKey) → length (sort less keys) ≡ length keys
  pub get_elem?-sort :
      (less : PgpKey → PgpKey → Bool) (keys : List PgpKey) (i : ℕ) (key : PgpKey)
      → get_elem? keys i ≡ some key
      → (j : ℕ) × (get_elem? (sort less keys) j ≡ some key)

-- sortById
unfoldable pub sort_by_id : Sorter → List PgpKey → List PgpKey
sort_by_id sorter keys = sorter.sort (λ a b. greater a.id b.id) keys

-- The map of makeHashTable, with a place for each index of the table.
abbrev pub HashTable : Type 0
HashTable = List (Option (List ℕ))

-- `append(db[hashKey], packet...)`: a missing key has no bytes.
unfoldable pub bucket_bytes : Option (List ℕ) → List ℕ
bucket_bytes none = []
bucket_bytes (some v) = v

-- The loop of makeHashTable.
unfoldable pub add_keys : Platform → ℕ → List PgpKey → HashTable → Result HashTable
add_keys p table_len [] db = ok db
add_keys p table_len (key ∷ keys) db = do
  hash_key ← hash_to_index p key.id table_len
  add_keys p table_len keys
      (set db hash_key (some (bucket_bytes (get_or db hash_key none) ++ key.packet)))

unfoldable pub make_hash_table : Platform → List PgpKey → ℕ → Result HashTable
make_hash_table p keys table_len = add_keys p table_len keys (replicate table_len none)

-- The values of the map.
unfoldable pub table_values : HashTable → List (List ℕ)
table_values [] = []
table_values (none ∷ db) = table_values db
table_values (some v ∷ db) = v ∷ table_values db

-- What is stored for a place: nothing where the map has no key.
unfoldable pub block_of : Option (List ℕ) → List ℕ
block_of none = []
block_of (some v) = pad_with_signal_byte v

-- The bytes of blocks one behind the other.
unfoldable pub join_blocks : List (List ℕ) → List ℕ
join_blocks [] = []
join_blocks (block ∷ blocks) = block ++ join_blocks blocks

-- GenerateRealKeyBytes, on the keys that LoadKeysFromDisk has read.
unfoldable pub generate_real_key_bytes :
    ⦃floats : Floats⦄ → Platform → Sorter → List PgpKey → Bool → Result BytesDb
generate_real_key_bytes ⦃floats = floats⦄ p sorter keys rebalanced =
    let (num_rows, num_columns) =
      calculate_num_rows_and_columns (floats.tenth (length keys)) rebalanced in
    do
      ht ← make_hash_table p (sort_by_id sorter keys) (num_rows * num_columns)
      let blocks = map block_of ht
      ok (record {
        entries = join_blocks blocks;
        num_rows = num_rows;
        num_columns = num_columns;
        block_size = max_bytes_length (table_values ht) 0 + 1;
        block_lengths = map length blocks;
      })

-- The loop of GenerateRealKeyMerkle for the greatest of the block lengths.
unfoldable pub max_block_len : List ℕ → ℕ → ℕ
max_block_len [] max = max
max_block_len (len ∷ lens) max = max_block_len lens (if ltb max len then len else max)

-- GenerateRealKeyMerkle, on the keys that LoadKeysFromDisk has read.
unfoldable pub generate_real_key_merkle :
    ⦃floats : Floats⦄
    → {proofs : Proofs} → Trees proofs
    → Platform
    → Sorter
    → List PgpKey
    → Bool
    → Result MerkleDb
generate_real_key_merkle ⦃floats = floats⦄ trees p sorter keys rebalanced =
    let (num_rows, num_columns) =
      calculate_num_rows_and_columns (floats.tenth (length keys)) rebalanced in
    do
      ht ← make_hash_table p (sort_by_id sorter keys) (num_rows * num_columns)
      let blocks = map block_of ht
      tree ← trees.new_tree blocks
      let proof_len = trees.encoded_proof_length tree
      let block_lens = map (λ block. length block + proof_len + 1) blocks
      entries ← make_merkle_entries trees blocks tree num_rows num_columns
      ok (record {
        bytes = record {
          entries = entries;
          num_rows = num_rows;
          num_columns = num_columns;
          block_size = max_block_len block_lens 0;
          block_lengths = block_lens;
        };
        root = trees.root tree;
        proof_len = proof_len;
      })

-- maxKeyLength, from a number on.
pub max_key_length : List PgpKey → ℕ → ℕ
max_key_length [] max = max
max_key_length (key ∷ keys) max =
    max_key_length keys (if ltb max (length key.packet) then length key.packet else max)

-- PadBlock: a block of the length already gets a whole length of zeros more. A length of 0 divides by it.
unfoldable pub pad_block : List ℕ → ℕ → Result (List ℕ)
pad_block block block_len =
    let padded = pad_with_signal_byte block in
    if block_len == 0
    then panic
    else ok (padded ++ replicate (block_len - length padded % block_len) 0)
