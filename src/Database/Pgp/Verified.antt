-- ===== src/Database/Pgp/Verified.antt =====
-- Looking up a key in a database of GenerateRealKeyMerkle, from its creation to the client.
use apir_code.Base.{
  length, get_elem?, ok, FastXor, ℕ, ◌+◌, ◌-◌, ◌*◌, ◌/◌, ◌^◌, ◌≤◌, ◌<◌, ◌≡◌, refl, sym, ap, ap₂,
  ◌∙◌, subst, ◌≢◌, Bool, none, some, List, ◌++◌, append-nil,
}
use apir_code.Query.{Platform}
use apir_code.Database.Padding.{
  un_pad_block, un_pad_block-pad_with_signal_byte, pad_with_signal_byte,
}
use apir_code.Database.Size.{Floats}
use apir_code.Database.Merkle.{Trees, MerkleDb}
use apir_code.Database.Pgp.{PgpKey, Sorter, greater, sort_by_id, block_of}
use apir_code.Database.Pgp.Buckets.{index_of, index_of-lt, bucket-holds}
use apir_code.Database.Pgp.Proven.{proven_rows, proven_columns, key_block, HoldsProvenKeys}
use apir_code.Point.{PointKeys, Proofs, merkle_type, point_query, reconstruct_pir}
use apir_code.Point.Scheme.{all_answers, point_query-answer-reconstruct}
use apir_code.Point.Merkle.{reconstruct_pir-signed_block}

-- For a database that holds the keys with their proofs, as GenerateRealKeyMerkle makes it, in a table of at
-- least one place and fewer than 2^32, one of the keys, any number of servers but none and two, and enough
-- random bytes: the query for the place of the key's identifier is made and answered, and the block that the
-- client returns, whose proof has verified, is without its padding bytes among which the key's packet
-- stands whole.
pub proven_key_lookup :
    ⦃fx : FastXor⦄ ⦃floats : Floats⦄ {proofs : Proofs} (trees : Trees proofs) (p : Platform)
    (sorter : Sorter) (keys : List PgpKey) (rebalanced : Bool) (tree : trees.Tree) (m : MerkleDb)
    (point_keys : PointKeys) (j : ℕ) (key : PgpKey) (n : ℕ) (rand : List ℕ)
    → HoldsProvenKeys trees p sorter keys rebalanced tree m
    → proven_rows trees p sorter keys rebalanced * proven_columns trees p sorter keys rebalanced ≢ 0
    → proven_rows trees p sorter keys rebalanced * proven_columns trees p sorter keys rebalanced
      < 2 ^ 32
    → get_elem? keys j ≡ some key
    → n ≢ 0
    → n ≢ 2
    → (n - 1) * (m.bytes.num_columns / 8 + 1) ≤ length rand
    → (vectors : List (List ℕ)) × (ix : ℕ) × (iy : ℕ) × (answers : List (List ℕ)) × (block : List ℕ)
      × (pre : List ℕ) × (post : List ℕ) × (point_query point_keys m.bytes.num_columns
            (index_of p
              (proven_rows trees p sorter keys rebalanced
                * proven_columns trees p sorter keys rebalanced)
              key.id)
            n
            rand
          ≡ ok (vectors, ix, iy))
      × (all_answers point_keys m.bytes n vectors ≡ ok answers)
      × (reconstruct_pir proofs merkle_type m.proof_len m.root answers m.bytes.block_size ix
          ≡ ok block)
      × (un_pad_block block ≡ ok (pre ++ (key.packet ++ post)))
unfolding sort_by_id block_of
proven_key_lookup trees p sorter keys rebalanced tree m point_keys j key n rand holds some_place
      fits here some_server others enough =
    let places =
      proven_rows trees p sorter keys rebalanced * proven_columns trees p sorter keys rebalanced in
    let index = index_of p places key.id in
    let below = index_of-lt p places some_place fits key.id in
    let inside : index < m.bytes.num_rows * m.bytes.num_columns =
      subst (λ (k : ℕ). index < k) (ap₂ ◌*◌ (sym holds.rows) (sym holds.columns)) below in
    let (vectors, ix, iy, answers, queried, answered, found) =
      point_query-answer-reconstruct point_keys m.bytes index n rand holds.whole some_server others
        enough inside in
    let (j', sorted) = sorter.get_elem?-sort (λ a b. greater a.id b.id) keys j key here in
    let (pre, post, stands) =
      bucket-holds p places index (sort_by_id sorter keys) j' key none sorted refl in
    let (proven, e) = holds.at_index index below in
    let block = key_block trees p sorter keys rebalanced index in
    (
      vectors,
      ix,
      iy,
      answers,
      block,
      pre,
      post,
      queried,
      answered,
      reconstruct_pir-signed_block trees tree m answers ix index block proven holds.the_length
          holds.the_root found e,
      ap (λ o. un_pad_block (block_of o)) stands
          ∙ ap un_pad_block (sym (append-nil (pad_with_signal_byte (pre ++ (key.packet ++ post)))))
          ∙ un_pad_block-pad_with_signal_byte (pre ++ (key.packet ++ post)) 0,
    )
