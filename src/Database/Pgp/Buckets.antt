-- ===== src/Database/Pgp/Buckets.antt =====
-- What the hash table of the keys holds, and the databases that GenerateRealKeyBytes makes of it.
use apir_code.Base.{
  ltb, ◌==◌, if◌then◌else◌, ltb→lt, Bool-cases, length, get_elem?, get_or, set, take, drop,
  replicate, All, length-append, length-set, length-replicate, take-append, drop-append_more,
  get_or-replicate, get_or-set_same, get_or-set_other, u32, byte_at, big_endian, ok, panic, ℕ, zero,
  suc, ◌+◌, ◌%◌, ◌^◌, ◌≤◌, ◌<◌, ◌≡◌, refl, sym, ap, ◌∙◌, subst, ◌≢◌, inl, inr, true, false, Option,
  none, some, List, [], ◌∷◌, ◌++◌, map, append-nil, append_assoc, arith,
}
use native.Mathlib.Decide.{ℕ_discrete}
use native.Mathlib.Nat.{mod-lt}
use apir_code.Query.{Platform}
use apir_code.Utils.Encoding.{max_bytes_length}
use apir_code.Database.Fields.{hash_to_index}
use apir_code.Database.Bytes.{sum_lengths}
use apir_code.Database.Padding.{pad_with_signal_byte}
use apir_code.Database.Pgp.{
  PgpKey, HashTable, bucket_bytes, add_keys, make_hash_table, table_values, block_of, join_blocks,
}

module _ (p : Platform) (table_len : ℕ) where
  -- The place of an identifier in the table.
  unfoldable pub index_of : List ℕ → ℕ
  index_of id =
      let hash = p.sum256 id in
      big_endian (record {
        b0 = byte_at hash 0;
        b1 = byte_at hash 1;
        b2 = byte_at hash 2;
        b3 = byte_at hash 3;
      })
      % u32 table_len

  -- The bucket of a place: the packets of the keys of that place, in the order of the keys.
  unfoldable pub bucket : ℕ → List PgpKey → Option (List ℕ) → Option (List ℕ)
  bucket i [] acc = acc
  bucket i (key ∷ keys) acc =
      bucket i keys (if index_of key.id == i then some (bucket_bytes acc ++ key.packet) else acc)

  module _ (some_place : table_len ≢ 0) (fits : table_len < 2 ^ 32) where
    hash_to_index-index_of : (id : List ℕ) → hash_to_index p id table_len ≡ ok (index_of id)
    unfolding hash_to_index index_of
    hash_to_index-index_of id =
        let word : u32 table_len ≡ table_len = omega arith in
        let nonzero : (u32 table_len == 0) ≡ false = ground arith in rw nonzero refl

    pub index_of-lt : (id : List ℕ) → index_of id < table_len
    unfolding index_of
    index_of-lt id =
        let word : u32 table_len ≡ table_len = omega arith in
        let positive : 0 < u32 table_len = omega arith in omega (arith, mod-lt _ positive)

    -- The loop of makeHashTable returns a table with the bucket of each place.
    add_keys-bucket :
        (keys : List PgpKey) (db : HashTable)
        → length db ≡ table_len
        → (ht : HashTable) × (add_keys p table_len keys db ≡ ok ht)
          × (length ht ≡ table_len)
          × ((i : ℕ) → get_or ht i none ≡ bucket i keys (get_or db i none))
    unfolding add_keys bucket
    add_keys-bucket [] db len = (db, refl, len, λ i. refl)
    add_keys-bucket (key ∷ keys) db len =
        let h = index_of key.id in
        let v = some (bucket_bytes (get_or db h none) ++ key.packet) in
        let (ht, run, len', at) = add_keys-bucket keys (set db h v) (length-set db h v ∙ len) in
        let below = index_of-lt key.id in
        (
          ht,
          rw (hash_to_index-index_of key.id) run,
          len',
          λ i.
              at i
              ∙ ap (bucket i keys) (elim (ℕ_discrete h i) [
                | yes same ↦
                    let here : (h == i) ≡ true = ground arith in
                    rw (here, ← same) (get_or-set_same db h v none (omega arith))
                | no other ↦
                    let away : (h == i) ≡ false = ground arith in
                    rw away (get_or-set_other db h i v none (λ e. other (sym e)))
              ]),
        )

    pub make_hash_table-bucket :
        (keys : List PgpKey)
        → (ht : HashTable) × (make_hash_table p keys table_len ≡ ok ht)
          × (length ht ≡ table_len)
          × ((i : ℕ) → get_or ht i none ≡ bucket i keys none)
    unfolding make_hash_table
    make_hash_table-bucket keys =
        let (ht, run, len, at) =
          add_keys-bucket keys (replicate table_len none) (length-replicate table_len none) in
        (ht, run, len, λ i. at i ∙ ap (bucket i keys) (get_or-replicate table_len i none))

pub some_injective : {a b : PgpKey} → some a ≡ some b → a ≡ b
some_injective h = cc

module _ (p : Platform) (table_len i : ℕ) where
  -- What stands in a bucket stays there.
  bucket-keeps :
      (keys : List PgpKey) (pre packet post : List ℕ)
      → (post' : List ℕ) × (bucket p table_len i keys (some (pre ++ (packet ++ post)))
          ≡ some (pre ++ (packet ++ post')))
  unfolding bucket bucket_bytes
  bucket-keeps [] pre packet post = (post, refl)
  bucket-keeps (key ∷ keys) pre packet post = elim (Bool-cases (index_of p table_len key.id == i)) [
    | inr other ↦ rw other (bucket-keeps keys pre packet post)
    | inl here ↦
        let longer : (pre ++ (packet ++ post)) ++ key.packet
            ≡ pre ++ (packet ++ (post ++ key.packet)) =
          append_assoc pre (packet ++ post) key.packet
          ∙ ap (◌++◌ pre) (append_assoc packet post key.packet) in
        rw (here, longer) (bucket-keeps keys pre packet (post ++ key.packet))
  ]

  -- A key of the place stands in the bucket.
  pub bucket-holds :
      (keys : List PgpKey) (j : ℕ) (key : PgpKey) (acc : Option (List ℕ))
      → get_elem? keys j ≡ some key
      → index_of p table_len key.id ≡ i
      → (pre : List ℕ) × (post : List ℕ) × (bucket p table_len i keys acc
          ≡ some (pre ++ (key.packet ++ post)))
  unfolding bucket
  bucket-holds [] j key acc h e = cc
  bucket-holds (k ∷ keys) zero key acc h e =
      let same : k ≡ key = some_injective h in
      let here : (index_of p table_len key.id == i) ≡ true = ground arith in
      let (post, kept) = bucket-keeps keys (bucket_bytes acc) key.packet [] in
      let ends : key.packet ++ [] ≡ key.packet = append-nil key.packet in
      (
        bucket_bytes acc,
        post,
        rw (same, here)
            (subst
              (λ (t : List ℕ).
                bucket p table_len i keys (some (bucket_bytes acc ++ t))
                ≡ some (bucket_bytes acc ++ (key.packet ++ post)))
              ends kept),
      )
  bucket-holds (k ∷ keys) (suc j) key acc h e = bucket-holds keys j key _ h e

-- The blocks of a table one behind the other.
pub join_blocks-at :
    (blocks : List (List ℕ)) (i : ℕ)
    → take
        (get_or (map length blocks) i 0)
        (drop (sum_lengths (take i (map length blocks))) (join_blocks blocks))
      ≡ get_or blocks i []
unfolding join_blocks sum_lengths
join_blocks-at [] i = refl
join_blocks-at (block ∷ blocks) zero = take-append (length block) block (join_blocks blocks) refl
join_blocks-at (block ∷ blocks) (suc i) =
    ap (take (get_or (map length blocks) i 0)) (
      drop-append_more block (join_blocks blocks) _ (sum_lengths (take i (map length blocks))) refl)
    ∙ join_blocks-at blocks i

pub sum_lengths-map :
    (blocks : List (List ℕ)) → sum_lengths (map length blocks) ≡ length (join_blocks blocks)
unfolding join_blocks sum_lengths
sum_lengths-map [] = refl
sum_lengths-map (block ∷ blocks) =
    omega (arith, sum_lengths-map blocks, length-append block (join_blocks blocks))

-- The greatest length of the values is not below any of them.
max_bytes_length-le : (vs : List (List ℕ)) (m : ℕ) → m ≤ max_bytes_length vs m
unfolding max_bytes_length
max_bytes_length-le [] m = omega arith
max_bytes_length-le (v ∷ vs) m = elim (Bool-cases (ltb m (length v))) [
  | inl greater' ↦
      rw greater' (omega (arith, ltb→lt m (length v) greater', max_bytes_length-le vs (length v)))
  | inr other ↦ rw other (max_bytes_length-le vs m)
]

max_bytes_length-le_first :
    (v : List ℕ) (vs : List (List ℕ)) (m : ℕ) → length v ≤ max_bytes_length (v ∷ vs) m
unfolding max_bytes_length
max_bytes_length-le_first v vs m = elim (Bool-cases (ltb m (length v))) [
  | inl greater' ↦ rw greater' (max_bytes_length-le vs (length v))
  | inr other ↦
      let le : length v ≤ m = ground arith in rw other (omega (arith, max_bytes_length-le vs m))
]

pub block_lengths-fit :
    (ht : HashTable) (m size : ℕ)
    → max_bytes_length (table_values ht) m + 1 ≤ size
    → All (λ len. len ≤ size) (map length (map block_of ht))
unfolding table_values block_of max_bytes_length pad_with_signal_byte
block_lengths-fit [] m size h = tt
block_lengths-fit (none ∷ ht) m size h = (omega arith, block_lengths-fit ht m size h)
block_lengths-fit (some v ∷ ht) m size h = (
  omega (arith, length-append v (128 ∷ []), max_bytes_length-le_first v (table_values ht) m),
  block_lengths-fit ht _ size h,
)

pub get_or-map-block_of :
    (ht : HashTable) (i : ℕ) → get_or (map block_of ht) i [] ≡ block_of (get_or ht i none)
unfolding block_of
get_or-map-block_of [] i = refl
get_or-map-block_of (v ∷ ht) zero = refl
get_or-map-block_of (v ∷ ht) (suc i) = get_or-map-block_of ht i

-- No key has a place in a table without places.
pub make_hash_table_panic :
    (p : Platform) (keys : List PgpKey) (n : ℕ)
    → length keys ≢ 0
    → n ≡ 0
    → make_hash_table p keys n ≡ panic
unfolding make_hash_table add_keys hash_to_index
make_hash_table_panic p [] n some_key none_left = absurd (some_key refl)
make_hash_table_panic p (key ∷ keys) n some_key none_left =
    let nothing : (u32 n == 0) ≡ true = ground arith in rw nothing refl
