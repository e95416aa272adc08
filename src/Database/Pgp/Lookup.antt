-- ===== src/Database/Pgp/Lookup.antt =====
-- Looking up a key in a database of GenerateRealKeyBytes, from its creation to the client.
use apir_code.Base.{
  ◌==◌, length, get_elem?, replicate, length-append, length-replicate, length-map, ok, panic,
  FastXor, ℕ, ◌+◌, ◌-◌, ◌*◌, ◌/◌, ◌%◌, ◌^◌, ◌≤◌, ◌<◌, ◌≡◌, refl, sym, ap, ap₂, ◌∙◌, subst, ◌≢◌,
  Bool, false, none, some, List, ◌++◌, map, arith,
}
use native.Mathlib.Nat.{div-add-mod, mod-lt, mul-mod_right}
use apir_code.Query.{Platform}
use apir_code.Utils.Encoding.{max_bytes_length}
use apir_code.Database.Bytes.{BytesDb, IsWhole}
use apir_code.Database.Padding.{
  pad_with_signal_byte, un_pad_block, un_pad_block-pad_with_signal_byte, un_pad_block-zeros,
}
use apir_code.Database.Size.{Floats, IsExact, no_places, calculate_num_rows_and_columns}
use apir_code.Database.Pgp.{
  PgpKey, Sorter, greater, sort_by_id, table_values, block_of, join_blocks, generate_real_key_bytes,
  pad_block,
}
use apir_code.Database.Pgp.Buckets.{
  index_of, index_of-lt, bucket, bucket-holds, make_hash_table-bucket, join_blocks-at,
  sum_lengths-map, block_lengths-fit, get_or-map-block_of, make_hash_table_panic,
}
use apir_code.Point.{PointKeys, point_query, reconstruct_value_pir}
use apir_code.Point.Retrieve.{entry, filled_entry}
use apir_code.Point.Scheme.{all_answers, point_query-answer-reconstruct}

module _ ⦃floats : Floats⦄ (p : Platform) (sorter : Sorter) (keys : List PgpKey)
    (rebalanced : Bool) where
  abbrev pub key_rows : ℕ
  key_rows = (calculate_num_rows_and_columns (floats.tenth (length keys)) rebalanced).0

  abbrev pub key_columns : ℕ
  key_columns = (calculate_num_rows_and_columns (floats.tenth (length keys)) rebalanced).1

  abbrev pub table_len : ℕ
  table_len = key_rows * key_columns

  -- What GenerateRealKeyBytes promises: a well-formed database whose block at an index is the padded bucket of
  -- the keys of that index, or has no bytes if there is none.
  pub record HoldsKeys (db : BytesDb) : Type 0 where
    pub rows : db.num_rows ≡ key_rows
    pub columns : db.num_columns ≡ key_columns
    pub whole : IsWhole db
    pub at_index :
        (i : ℕ)
        → i < table_len
        → entry db i ≡ block_of (bucket p table_len i (sort_by_id sorter keys) none)

  -- For a table of at least one place and fewer than 2^32, GenerateRealKeyBytes returns a database that holds
  -- the keys.
  pub generate_real_key_bytes-HoldsKeys :
      table_len ≢ 0
      → table_len < 2 ^ 32
      → (db : BytesDb) × (generate_real_key_bytes p sorter keys rebalanced ≡ ok db) × HoldsKeys db
  unfolding generate_real_key_bytes entry
  generate_real_key_bytes-HoldsKeys some_place fits =
      let (ht, run, len, at) =
        make_hash_table-bucket p table_len some_place fits (sort_by_id sorter keys) in
      let blocks = map block_of ht in
      let db : BytesDb = record {
        entries = join_blocks blocks;
        num_rows = key_rows;
        num_columns = key_columns;
        block_size = max_bytes_length (table_values ht) 0 + 1;
        block_lengths = map length blocks;
      } in
      (
        db,
        rw run refl,
        record {
          rows = refl;
          columns = refl;
          whole = record {
            all_blocks = length-map length blocks ∙ length-map block_of ht ∙ len;
            fits = block_lengths-fit ht 0 _ (omega arith);
            all_bytes = omega (arith, sum_lengths-map blocks);
          };
          at_index =
              λ i below. join_blocks-at blocks i ∙ get_or-map-block_of ht i ∙ ap block_of (at i);
        },
      )

  length-sort_by_id : length (sort_by_id sorter keys) ≡ length keys
  unfolding sort_by_id
  length-sort_by_id = sorter.length-sort (λ a b. greater a.id b.id) keys

  -- With the float arithmetic of `IsExact`, at least one key and fewer than ten, GenerateRealKeyBytes panics:
  -- a tenth of the keys is cut to no blocks, and the first hash has a remainder by 0.
  pub generate_real_key_bytes_panic :
      IsExact floats
      → length keys ≢ 0
      → length keys < 10
      → generate_real_key_bytes p sorter keys rebalanced ≡ panic
  unfolding generate_real_key_bytes
  generate_real_key_bytes_panic exact some_key few =
      rw
        (make_hash_table_panic p (sort_by_id sorter keys) table_len
          (λ e. some_key (sym (length-sort_by_id) ∙ e))
          (no_places exact (length keys) rebalanced few))
        refl

  module _ (db : BytesDb) (holds : HoldsKeys db) where
    -- A bucket is unpadded from its block with the zeros behind it.
    un_pad_block-bucket :
        (i : ℕ) (v : List ℕ)
        → i < table_len
        → bucket p table_len i (sort_by_id sorter keys) none ≡ some v
        → un_pad_block (filled_entry db i) ≡ ok v
    unfolding filled_entry block_of
    un_pad_block-bucket i v below e =
        let k = db.block_size - length (entry db i) in
        ap (λ (b : List ℕ). un_pad_block (b ++ replicate k 0))
          (holds.at_index i below ∙ ap block_of e)
        ∙ un_pad_block-pad_with_signal_byte v k

    -- For a database that holds the keys and an index that none of them has, the block that a client retrieves
    -- at this index has no signal byte, and taking the padding off panics.
    pub un_pad_block-no_key :
        (i : ℕ)
        → i < table_len
        → bucket p table_len i (sort_by_id sorter keys) none ≡ none
        → un_pad_block (filled_entry db i) ≡ panic
    unfolding filled_entry block_of
    un_pad_block-no_key i below e =
        let k = db.block_size - length (entry db i) in
        ap (λ (b : List ℕ). un_pad_block (b ++ replicate k 0))
          (holds.at_index i below ∙ ap block_of e)
        ∙ un_pad_block-zeros k

    -- For a database that holds the keys, in a table of at least one place and fewer than 2^32, one of the
    -- keys, any number of servers but none and two, and enough random bytes: the query for the
    -- place of the key's identifier is made and answered, and the block that the client adds up is, without its
    -- padding, bytes among which the key's packet stands whole.
    pub key_lookup :
        ⦃fx : FastXor⦄ (point_keys : PointKeys) (j : ℕ) (key : PgpKey) (n : ℕ) (rand : List ℕ)
        → table_len ≢ 0
        → table_len < 2 ^ 32
        → get_elem? keys j ≡ some key
        → n ≢ 0
        → n ≢ 2
        → (n - 1) * (db.num_columns / 8 + 1) ≤ length rand
        → (vectors : List (List ℕ)) × (ix : ℕ) × (iy : ℕ) × (answers : List (List ℕ))
          × (block : List ℕ) × (pre : List ℕ) × (post : List ℕ) × (point_query point_keys
                db.num_columns
                (index_of p table_len key.id)
                n
                rand
              ≡ ok (vectors, ix, iy))
          × (all_answers point_keys db n vectors ≡ ok answers)
          × (reconstruct_value_pir answers db.block_size ix (replicate db.block_size 0) ≡ ok block)
          × (un_pad_block block ≡ ok (pre ++ (key.packet ++ post)))
    unfolding sort_by_id
    key_lookup point_keys j key n rand some_place fits here some_server others enough =
        let index = index_of p table_len key.id in
        let below = index_of-lt p table_len some_place fits key.id in
        let inside : index < db.num_rows * db.num_columns =
          subst (λ (k : ℕ). index < k) (ap₂ ◌*◌ (sym holds.rows) (sym holds.columns)) below in
        let (vectors, ix, iy, answers, queried, answered, found) =
          point_query-answer-reconstruct point_keys db index n rand holds.whole some_server others
            enough inside in
        let (j', sorted) = sorter.get_elem?-sort (λ a b. greater a.id b.id) keys j key here in
        let (pre, post, stands) =
          bucket-holds p table_len index (sort_by_id sorter keys) j' key none sorted refl in
        (
          vectors,
          ix,
          iy,
          answers,
          filled_entry db index,
          pre,
          post,
          queried,
          answered,
          found,
          un_pad_block-bucket index (pre ++ (key.packet ++ post)) below stands,
        )

-- For a block length that is not 0, a padded block has a length that it divides, and is read back as it was.
pad_block-un_pad_block :
    (block : List ℕ) (block_len : ℕ)
    → block_len ≢ 0
    → (padded : List ℕ) × (pad_block block block_len ≡ ok padded)
      × (length padded % block_len ≡ 0)
      × (un_pad_block padded ≡ ok block)
unfolding pad_block
pad_block-un_pad_block block block_len nonzero =
    let some_length : (block_len == 0) ≡ false = ground arith in
    let front = pad_with_signal_byte block in
    let l = length front in
    let zeros : List ℕ = replicate (block_len - l % block_len) 0 in
    let split = div-add-mod l block_len in
    let positive : 0 < block_len = omega arith in
    let rest = mod-lt l positive in
    let total : length (front ++ zeros) ≡ block_len * (l / block_len + 1) =
      omega (
        arith,
        length-append front zeros,
        length-replicate {A = ℕ} (block_len - l % block_len) 0,
      ) in
    (
      front ++ zeros,
      rw some_length refl,
      ap (λ (k : ℕ). k % block_len) total ∙ mul-mod_right block_len (l / block_len + 1),
      un_pad_block-pad_with_signal_byte block (block_len - l % block_len),
    )
