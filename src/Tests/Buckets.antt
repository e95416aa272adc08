-- ===== src/Tests/Buckets.antt =====
-- A database of twenty keys that all have the same hash.
use apir_code.Base.{
  replicate, ok, panic, ℕ, ◌+◌, ◌*◌, ◌/◌, ◌≤◌, ◌≡◌, refl, sym, subst, false, List, [], ◌∷◌, ◌++◌,
  arith,
}
use apir_code.Database.Size.{calculate_num_rows_and_columns}
use apir_code.Database.Bytes.{BytesDb}
use apir_code.Database.Padding.{un_pad_block}
use apir_code.Database.Pgp.{PgpKey, Sorter, generate_real_key_bytes, sort_by_id}
use apir_code.Database.Pgp.Buckets.{index_of, bucket}
use apir_code.Database.Pgp.Lookup.{
  HoldsKeys, generate_real_key_bytes-HoldsKeys, generate_real_key_bytes_panic, un_pad_block-no_key,
  key_lookup,
}
use apir_code.Point.{point_query, reconstruct_value_pir}
use apir_code.Point.Retrieve.{filled_entry}
use apir_code.Point.Scheme.{all_answers}
use apir_code.Tests.{toy_xor}
use apir_code.Tests.Numbers.{int_floats, int_floats-IsExact}
use apir_code.Tests.Predicates.{toy_platform}
use apir_code.Tests.Blocks.{no_keys}

abbrev pub same_order : Sorter
same_order = record {
  sort = λ less keys. keys;
  length-sort = λ less keys. refl;
  get_elem?-sort = λ less keys i key e. (i, e);
}

abbrev pub some_key : PgpKey
some_key = record { id = 97 ∷ []; packet = 1 ∷ 2 ∷ [] }

abbrev pub twenty_keys : List PgpKey
twenty_keys = replicate 20 some_key

generate_real_key_bytes-HoldsKeys_example :
    (db : BytesDb) × (generate_real_key_bytes toy_platform same_order twenty_keys false ≡ ok db)
    × HoldsKeys toy_platform same_order twenty_keys false db
unfolding calculate_num_rows_and_columns
generate_real_key_bytes-HoldsKeys_example =
    generate_real_key_bytes-HoldsKeys toy_platform same_order twenty_keys false (omega arith)
      (omega arith)

some_key_db :
    (db : BytesDb) × (generate_real_key_bytes toy_platform same_order twenty_keys false ≡ ok db)
    × HoldsKeys toy_platform same_order twenty_keys false db
unfolding calculate_num_rows_and_columns
some_key_db =
    generate_real_key_bytes-HoldsKeys toy_platform same_order twenty_keys false (omega arith)
      (omega arith)

generate_real_key_bytes_panic_example :
    generate_real_key_bytes toy_platform same_order (some_key ∷ []) false ≡ panic
generate_real_key_bytes_panic_example =
    generate_real_key_bytes_panic toy_platform same_order (some_key ∷ []) false int_floats-IsExact
      (omega arith) (omega arith)

un_pad_block-no_key_example : un_pad_block (filled_entry some_key_db.0 0) ≡ panic
unfolding calculate_num_rows_and_columns bucket index_of sort_by_id
un_pad_block-no_key_example =
    un_pad_block-no_key toy_platform same_order twenty_keys false some_key_db.0 some_key_db.2 0
      (omega arith) refl

key_lookup_example :
    (vectors : List (List ℕ)) × (ix : ℕ) × (iy : ℕ) × (answers : List (List ℕ)) × (block : List ℕ)
    × (pre : List ℕ) × (post : List ℕ) × (point_query ⦃fx = toy_xor⦄ no_keys
          some_key_db.0.num_columns
          (index_of toy_platform 2 (97 ∷ []))
          3
          (77 ∷ 130 ∷ [])
        ≡ ok (vectors, ix, iy))
    × (all_answers ⦃fx = toy_xor⦄ no_keys some_key_db.0 3 vectors ≡ ok answers)
    × (reconstruct_value_pir ⦃fx = toy_xor⦄ answers some_key_db.0.block_size ix
          (replicate some_key_db.0.block_size 0)
        ≡ ok block)
    × (un_pad_block block ≡ ok (pre ++ ((1 ∷ 2 ∷ []) ++ post)))
unfolding calculate_num_rows_and_columns
key_lookup_example =
    key_lookup toy_platform same_order twenty_keys false some_key_db.0 some_key_db.2 ⦃fx = toy_xor⦄
      no_keys 4 some_key 3 (77 ∷ 130 ∷ []) (omega arith) (omega arith) refl (omega arith)
      (omega arith)
      (subst (λ (c : ℕ). 2 * (c / 8 + 1) ≤ 2) (sym (HoldsKeys.columns some_key_db.2)) (omega arith))
