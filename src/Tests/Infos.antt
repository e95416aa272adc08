-- ===== src/Tests/Infos.antt =====
-- The database of the predicate queries made of two keys, whose packets are their emails.
use apir_code.Base.{length, ok, ℕ, ◌≡◌, refl, ◌↔◌, none, some, List, [], ◌∷◌}
use apir_code.Database.Keys.{UserId, KeyInfo, Db}
use apir_code.Database.Pgp.{PgpKey, sort_by_id}
use apir_code.Database.Pgp.Infos.{
  OpenPgp, bits_or_zero, entity_info, only_entity, get_key_info_from_packet, embed_keys,
  generate_real_key_db, DescribeKeys, generate_real_key_db_iff,
}
use apir_code.Database.Merkle.{or_fatal}
use apir_code.Tests.Predicates.{toy_platform}
use apir_code.Tests.Buckets.{same_order}

abbrev email_of : List ℕ → UserId
email_of pkt = record { id = pkt; name = []; comment = []; email = pkt }

abbrev email_info : List ℕ → KeyInfo toy_platform
email_info pkt = record {
  user_id = email_of pkt;
  creation_time = 2020;
  pub_key_algo = 1;
  bit_length = 0;
}

abbrev email_rings : OpenPgp toy_platform
email_rings = record {
  read_key_ring = λ pkt. ok (
      record {
        primary_identity = some (email_of pkt);
        creation_time = 2020;
        pub_key_algo = 1;
        bit_length = none;
      }
      ∷ []);
}

abbrev two_keys : List PgpKey
two_keys =
    record { id = 98 ∷ []; packet = 5 ∷ [] } ∷ record { id = 97 ∷ []; packet = 6 ∷ 7 ∷ [] } ∷ []

abbrev two_infos : Db toy_platform
two_infos = record {
  keys_info = email_info (5 ∷ []) ∷ email_info (6 ∷ 7 ∷ []) ∷ [];
  num_columns = 2;
}

generate_real_key_db_iff_example :
    (generate_real_key_db email_rings same_order two_keys ≡ ok two_infos) ↔ (
      (2 ≡ length two_infos.keys_info)
      × DescribeKeys email_rings (sort_by_id same_order two_keys) two_infos.keys_info)
generate_real_key_db_iff_example =
    generate_real_key_db_iff email_rings same_order two_keys two_infos

made_infos : generate_real_key_db email_rings same_order two_keys ≡ ok two_infos
unfolding generate_real_key_db embed_keys or_fatal sort_by_id get_key_info_from_packet only_entity
    entity_info bits_or_zero
made_infos = refl
