-- ===== src/Database/Fields.antt =====
-- The databases of field elements of lib/database/db.go.
use apir_code.Base.{
  ltb, ◌==◌, if◌then◌else◌, length, take, replicate, u32, byte_at, Bytes4, big_endian, Result,
  ◌>>=◌, library_error, ok, err, panic, ℕ, ◌+◌, ◌*◌, ◌/◌, ◌%◌, List, [],
}
use apir_code.Field.{bytes_to_elements}
use apir_code.Query.{Platform}

pub record BitsDb : Type 0 where
  pub entries : List ℕ
  pub num_rows : ℕ
  pub num_columns : ℕ
  pub block_size : ℕ
  pub block_lengths : List ℕ

-- NewBitsDB, for the three sizes of its Info.
pub new_bits_db : ℕ → ℕ → ℕ → BitsDb
new_bits_db num_rows num_columns block_size = record {
  entries = replicate (num_rows * num_columns * block_size) 0;
  num_rows = num_rows;
  num_columns = num_columns;
  block_size = block_size;
  block_lengths = [];
}

-- The columns for a length in bits; a very small database has one.
columns_for : ℕ → ℕ → ℕ → ℕ
columns_for db_len num_rows block_len =
    let num_columns = db_len / (8 * 4 * num_rows * block_len) in
    if num_columns == 0 then 1 else num_columns

-- CreateRandomBitsDB: `bytes` is what the reader can return, and `draws` what toElement draws. The last
-- loop stores the block length at every block.
pub create_random_bits_db : List ℕ → List Bytes4 → ℕ → ℕ → ℕ → Result BitsDb
create_random_bits_db bytes draws db_len num_rows block_len =
    let num_columns = columns_for db_len num_rows block_len in
    let n = num_rows * num_columns * block_len in
    if 8 * 4 * num_rows * block_len == 0
    then panic
    else if ltb (length bytes) (n * 4 + 1)
    then err library_error
    else (do
      (elements, rest, draws') ← bytes_to_elements n (take (n * 4 + 1) bytes) draws
      ok (record (new_bits_db num_rows num_columns block_len) {
        entries = elements;
        block_lengths = replicate (num_rows * num_columns) block_len;
      }))

-- HashToIndex: the remainder for a length of 0 modulo 2^32 panics.
unfoldable pub hash_to_index : Platform → List ℕ → ℕ → Result ℕ
hash_to_index p id len =
    let hash = p.sum256 id in
    if u32 len == 0
    then panic
    else ok (
        big_endian (record {
          b0 = byte_at hash 0;
          b1 = byte_at hash 1;
          b2 = byte_at hash 2;
          b3 = byte_at hash 3;
        })
        % u32 len)
