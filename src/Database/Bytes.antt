-- ===== src/Database/Bytes.antt =====
-- lib/database/bytes.go: the databases of bytes of the point queries, and the parts of database.Info that
-- these read.
use apir_code.Base.{
  ltb, ◌==◌, if◌then◌else◌, length, take, replicate, All, length-take, length-replicate, Result, ok,
  panic, stuck, ℕ, zero, suc, ◌+◌, ◌*◌, ◌/◌, ◌≤◌, ◌≡◌, refl, ◌≢◌, false, List, [], ◌∷◌, arith,
}
use native.Mathlib.Nat.{div-add-mod}

pub record BytesDb : Type 0 where
  pub entries : List ℕ
  pub num_rows : ℕ
  pub num_columns : ℕ
  pub block_size : ℕ
  pub block_lengths : List ℕ

-- CreateZeroBytes, which sets no block lengths.
pub create_zero_bytes : ℕ → ℕ → ℕ → BytesDb
create_zero_bytes num_rows num_columns block_len = record {
  entries = replicate (num_rows * num_columns * block_len) 0;
  num_rows = num_rows;
  num_columns = num_columns;
  block_size = block_len;
  block_lengths = [];
}

-- InitBytes
pub init_bytes : ℕ → ℕ → ℕ → BytesDb
init_bytes num_rows num_columns block_len = record {
  entries = [];
  num_rows = num_rows;
  num_columns = num_columns;
  block_size = block_len;
  block_lengths = replicate (num_rows * num_columns) 0;
}

-- CreateRandomBytes: the reader fills `db_len / 8` bytes from the front of `bytes`. No rows or blocks
-- of no bytes divide by 0.
pub create_random_bytes : List ℕ → ℕ → ℕ → ℕ → Result BytesDb
create_random_bytes bytes db_len num_rows block_len =
    let num_columns = db_len / (8 * num_rows * block_len) in
    if 8 * num_rows * block_len == 0
    then panic
    else if ltb (length bytes) (db_len / 8)
    then stuck
    else ok (record {
      entries = take (db_len / 8) bytes;
      num_rows = num_rows;
      num_columns = num_columns;
      block_size = block_len;
      block_lengths = replicate (num_rows * num_columns) block_len;
    })

-- The bytes of some blocks.
unfoldable pub sum_lengths : List ℕ → ℕ
sum_lengths [] = 0
sum_lengths (x ∷ xs) = x + sum_lengths xs

-- What the servers rely on: a length for each block, none above the block size, and bytes for all blocks.
pub record IsWhole (db : BytesDb) : Type 0 where
  pub all_blocks : length db.block_lengths ≡ db.num_rows * db.num_columns
  pub fits : All (λ len. len ≤ db.block_size) db.block_lengths
  pub all_bytes : sum_lengths db.block_lengths ≤ length db.entries

pub sum_lengths-replicate : (n x : ℕ) → sum_lengths (replicate n x) ≡ n * x
unfolding sum_lengths
sum_lengths-replicate zero x = omega arith
sum_lengths-replicate (suc n) x = omega (arith, sum_lengths-replicate n x)

pub All-replicate : (n x : ℕ) → All (λ len. len ≤ x) (replicate n x)
All-replicate zero x = tt
All-replicate (suc n) x = (omega arith, All-replicate n x)

columns-le : (d r b : ℕ) → r * (d / (8 * r * b)) * b ≤ d / 8
columns-le d r b =
    let split = div-add-mod d (8 * r * b) in
    let same : 8 * r * b * (d / (8 * r * b)) ≡ 8 * (r * (d / (8 * r * b)) * b) = omega arith in
    omega arith

-- With at least one row and one byte in a block, and enough random bytes, CreateRandomBytes returns a
-- database with a length for each block, none above the block size, and bytes for all of its blocks.
pub create_random_bytes-IsWhole :
    (bytes : List ℕ) (db_len num_rows block_len : ℕ)
    → 8 * num_rows * block_len ≢ 0
    → db_len / 8 ≤ length bytes
    → (db : BytesDb) × (create_random_bytes bytes db_len num_rows block_len ≡ ok db) × IsWhole db
unfolding create_random_bytes
create_random_bytes-IsWhole bytes db_len num_rows block_len some_block enough =
    let c = db_len / (8 * num_rows * block_len) in
    let whole : ltb (length bytes) (db_len / 8) ≡ false = ground arith in
    let divides : (8 * num_rows * block_len == 0) ≡ false = ground arith in
    let db : BytesDb = record {
      entries = take (db_len / 8) bytes;
      num_rows = num_rows;
      num_columns = c;
      block_size = block_len;
      block_lengths = replicate (num_rows * c) block_len;
    } in
    (
      db,
      rw (divides, whole) refl,
      record {
        all_blocks = length-replicate (num_rows * c) block_len;
        fits = All-replicate (num_rows * c) block_len;
        all_bytes = omega (
          arith,
          sum_lengths-replicate (num_rows * c) block_len,
          columns-le db_len num_rows block_len,
          length-take (db_len / 8) bytes,
        );
      },
    )
