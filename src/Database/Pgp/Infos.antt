-- ===== src/Database/Pgp/Infos.antt =====
-- GenerateRealKeyDB of lib/database/pgp.go: the database of the predicate queries, made of the keys on disk.
-- The parser of key rings belongs to an OpenPGP library and is a parameter.
use apir_code.Base.{
  Option-cases, length, Result, ◌>>=◌, bind_ok, library_error, ok, err, panic, stuck, ℕ, suc, ◌≡◌,
  refl, sym, ap, ◌∙◌, subst, ◌↔◌, ◌⊎◌, inl, inr, Option, none, some, List, [], ◌∷◌,
}
use apir_code.Query.{Platform}
use apir_code.Database.Keys.{UserId, KeyInfo, Db}
use apir_code.Database.Merkle.{or_fatal}
use apir_code.Database.Pgp.{PgpKey, Sorter, greater, sort_by_id}

-- What GetKeyInfoFromPacket reads of an openpgp.Entity; an entity can be without an identity, and the key can
-- be of a kind without a bit length.
pub record Entity (p : Platform) : Type 0 where
  pub primary_identity : Option UserId
  pub creation_time : p.Time
  pub pub_key_algo : ℕ
  pub bit_length : Option ℕ

-- openpgp.ReadKeyRing
pub record OpenPgp (p : Platform) : Type 0 where
  pub read_key_ring : List ℕ → Result (List (Entity p))

-- `bl`: an error leaves 0.
unfoldable pub bits_or_zero : Option ℕ → ℕ
bits_or_zero none = 0
bits_or_zero (some bl) = bl

or_fatal_ok {ℓ} : {A : Type ℓ} (r : Result A) (a : A) → or_fatal r ≡ ok a → r ≡ ok a
unfolding or_fatal
or_fatal_ok (ok b) a h = h
or_fatal_ok (err e) a h = cc
or_fatal_ok panic a h = cc
or_fatal_ok stuck a h = cc

module _ {p : Platform} (openpgp : OpenPgp p) where
  -- The information of the only entity; the field of a missing identity panics.
  unfoldable pub entity_info : Entity p → Result (KeyInfo p)
  entity_info e = elim e.primary_identity [
    | none ↦ panic
    | some user_id ↦ ok (record {
      user_id = user_id;
      creation_time = e.creation_time;
      pub_key_algo = e.pub_key_algo;
      bit_length = bits_or_zero e.bit_length;
    })
  ]

  unfoldable pub only_entity : List (Entity p) → Result (KeyInfo p)
  only_entity [] = err library_error
  only_entity (e ∷ []) = entity_info e
  only_entity (e ∷ e' ∷ el) = err library_error

  unfoldable pub get_key_info_from_packet : List ℕ → Result (KeyInfo p)
  get_key_info_from_packet pkt = do el ← openpgp.read_key_ring pkt; only_entity el

  -- The loop of GenerateRealKeyDB, where an error ends the program.
  unfoldable pub embed_keys : List PgpKey → Result (List (KeyInfo p))
  embed_keys [] = ok []
  embed_keys (key ∷ keys) = do
    key_info ← or_fatal (get_key_info_from_packet key.packet)
    keys_info ← embed_keys keys
    ok (key_info ∷ keys_info)

  -- GenerateRealKeyDB, on the keys that LoadKeysFromDisk has read.
  unfoldable pub generate_real_key_db : Sorter → List PgpKey → Result (Db p)
  generate_real_key_db sorter keys = do
    keys_info ← embed_keys (sort_by_id sorter keys)
    ok (record { keys_info = keys_info; num_columns = length keys })

  -- What the information of a key promises: the packet is a key ring of one entity, which has an identity, and
  -- the fields are those of the entity, with a bit length of 0 where it has none.
  pub record DescribesKey (key : PgpKey) (key_info : KeyInfo p) : Type 0 where
    pub entity : Entity p
    pub only : openpgp.read_key_ring key.packet ≡ ok (entity ∷ [])
    pub same_user : entity.primary_identity ≡ some key_info.user_id
    pub same_time : entity.creation_time ≡ key_info.creation_time
    pub same_algo : entity.pub_key_algo ≡ key_info.pub_key_algo
    pub same_bits :
        (entity.bit_length ≡ some key_info.bit_length)
        ⊎ ((entity.bit_length ≡ none) × (key_info.bit_length ≡ 0))

  -- As many as there are keys, in their order.
  unfoldable pub DescribeKeys : List PgpKey → List (KeyInfo p) → Type 0
  DescribeKeys [] [] = Unit {0}
  DescribeKeys [] (i ∷ infos) = ⊥
  DescribeKeys (key ∷ keys) [] = ⊥
  DescribeKeys (key ∷ keys) (i ∷ infos) = DescribesKey key i × DescribeKeys keys infos

  bits_cases :
      (bits : Option ℕ)
      → (bits ≡ some (bits_or_zero bits)) ⊎ ((bits ≡ none) × (bits_or_zero bits ≡ 0))
  unfolding bits_or_zero
  bits_cases none = inr (refl, refl)
  bits_cases (some bl) = inl refl

  entity_info-DescribesKey :
      (key : PgpKey) (el : List (Entity p)) (key_info : KeyInfo p)
      → openpgp.read_key_ring key.packet ≡ ok el
      → only_entity el ≡ ok key_info
      → DescribesKey key key_info
  unfolding only_entity entity_info
  entity_info-DescribesKey key [] key_info read h = cc
  entity_info-DescribesKey key (e ∷ e' ∷ el) key_info read h = cc
  entity_info-DescribesKey key (e ∷ []) key_info read h = elim (Option-cases e.primary_identity) [
    | inl missing ↦ cc (rw missing at h)
    | inr (user_id, found) ↦
        let here : KeyInfo p = record {
          user_id = user_id;
          creation_time = e.creation_time;
          pub_key_algo = e.pub_key_algo;
          bit_length = bits_or_zero e.bit_length;
        } in
        let made : ok here ≡ ok key_info = rw found at h in
        subst (DescribesKey key) (same_info made) (record {
          entity = e;
          only = read;
          same_user = found;
          same_time = refl;
          same_algo = refl;
          same_bits = bits_cases e.bit_length;
        })
  ]
    where
      same_info : {a b : KeyInfo p} → ok a ≡ ok b → a ≡ b
      same_info h = cc

  DescribesKey-get_key_info :
      (key : PgpKey) (key_info : KeyInfo p)
      → DescribesKey key key_info
      → get_key_info_from_packet key.packet ≡ ok key_info
  unfolding get_key_info_from_packet only_entity entity_info bits_or_zero
  DescribesKey-get_key_info key key_info d =
      let bits : bits_or_zero d.entity.bit_length ≡ key_info.bit_length = elim d.same_bits [
        | inl announced ↦ ap bits_or_zero announced
        | inr (missing, nothing) ↦ ap bits_or_zero missing ∙ sym nothing
      ] in
      rw (d.only, d.same_user, d.same_time, d.same_algo, bits) refl

  embed_keys-DescribeKeys :
      (keys : List PgpKey) (infos : List (KeyInfo p))
      → embed_keys keys ≡ ok infos
      → DescribeKeys keys infos
  unfolding embed_keys DescribeKeys get_key_info_from_packet or_fatal
  embed_keys-DescribeKeys [] infos h = let e : [] ≡ infos = cc in subst (DescribeKeys []) e tt
  embed_keys-DescribeKeys (key ∷ keys) infos h =
      let (key_info, here, h1) =
        bind_ok (or_fatal (get_key_info_from_packet key.packet)) _ infos h in
      let (rest, others, h2) = bind_ok (embed_keys keys) _ infos h1 in
      let got = or_fatal_ok (get_key_info_from_packet key.packet) key_info here in
      let (el, read, only) = bind_ok (openpgp.read_key_ring key.packet) _ key_info got in
      let e : key_info ∷ rest ≡ infos = cc in
      subst (DescribeKeys (key ∷ keys)) e (
        entity_info-DescribesKey key el key_info read only,
        embed_keys-DescribeKeys keys rest others,
      )

  DescribeKeys-embed_keys :
      (keys : List PgpKey) (infos : List (KeyInfo p))
      → DescribeKeys keys infos
      → (embed_keys keys ≡ ok infos) × (length infos ≡ length keys)
  unfolding embed_keys DescribeKeys or_fatal
  DescribeKeys-embed_keys [] [] d = (refl, refl)
  DescribeKeys-embed_keys [] (i ∷ infos) d = absurd d
  DescribeKeys-embed_keys (key ∷ keys) [] d = absurd d
  DescribeKeys-embed_keys (key ∷ keys) (i ∷ infos) d =
      let (run, len) = DescribeKeys-embed_keys keys infos d.1 in
      (rw (DescribesKey-get_key_info key i d.0, run) refl, ap suc len)

  -- GenerateRealKeyDB returns a database exactly if its number of columns is the number of its keys and each key,
  -- in the order of their identifiers, is described by the information at its place: the packet is a key ring of
  -- one entity with an identity, and the fields are those of the entity, the bit length 0 where it has none.
  pub generate_real_key_db_iff :
      (sorter : Sorter) (keys : List PgpKey) (db : Db p)
      → (generate_real_key_db sorter keys ≡ ok db) ↔ (
          (db.num_columns ≡ length db.keys_info)
          × DescribeKeys (sort_by_id sorter keys) db.keys_info)
  unfolding generate_real_key_db sort_by_id
  generate_real_key_db_iff sorter keys db = (there, back)
    where
      length-sorted : length (sort_by_id sorter keys) ≡ length keys
      length-sorted = sorter.length-sort (λ a b. greater a.id b.id) keys

      same_db : {a b : Db p} → ok a ≡ ok b → a ≡ b
      same_db h = cc

      there :
          generate_real_key_db sorter keys ≡ ok db
          → (db.num_columns ≡ length db.keys_info)
            × DescribeKeys (sort_by_id sorter keys) db.keys_info
      there h =
          let (infos, run, made) = bind_ok (embed_keys (sort_by_id sorter keys)) _ db h in
          let described = embed_keys-DescribeKeys (sort_by_id sorter keys) infos run in
          let (again, len) = DescribeKeys-embed_keys (sort_by_id sorter keys) infos described in
          subst
            (λ (d : Db p).
              (d.num_columns ≡ length d.keys_info)
              × DescribeKeys (sort_by_id sorter keys) d.keys_info)
            (same_db made) (sym (len ∙ length-sorted), described)

      back :
          (db.num_columns ≡ length db.keys_info)
            × DescribeKeys (sort_by_id sorter keys) db.keys_info
          → generate_real_key_db sorter keys ≡ ok db
      back (columns, described) =
          let (run, len) =
            DescribeKeys-embed_keys (sort_by_id sorter keys) db.keys_info described in
          let all : length keys ≡ db.num_columns = sym (columns ∙ len ∙ length-sorted) in
          rw (run, all) refl
