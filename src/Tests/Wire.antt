-- ===== src/Tests/Wire.antt =====
-- A predicate query on messages, which stand for the queries that are put into them.
use apir_code.Base.{library_error, ok, err, ℕ, ◌≡◌, refl, ◌⊎◌, inl, inr, List, [], ◌∷◌, arith}
use apir_code.Query.{ClientFss, FssQuery, id_for_pub_key_algo}
use apir_code.Utils.Encoding.{byte_to_bits, byte_bits}
use apir_code.Client.Predicate.{ClientState, new_predicate_apir}
use apir_code.Server.Predicate.{ServerFss, target_id}
use apir_code.Client.Wire.{
  Gob, IsGob, query_bytes, answer_bytes, reconstruct_bytes, predicate_query_bytes,
}
use apir_code.Tests.{toy_cipher, toy_xor}
use apir_code.Tests.Predicates.{
  clean_1, clean_17, leaves, some_alphas, some_client, some_db, some_key-IsServed, some_query,
  some_sample, some_server, toy_platform,
}
use apir_code.Fss.Correct.{client_initialize-IsReady, server_initialize-IsReady}
use apir_code.Tests.{seeds_are_clean_sound, some_rand0, some_rand1, some_IsRandom}

abbrev toy_gob : Gob
toy_gob = record {
  Message = ClientFss ⊎ FssQuery;
  decode_client = λ message. elim message [ inl q ↦ ok q | inr q ↦ err library_error ];
  encode_query = λ q. ok (inr q);
  decode_query = λ message. elim message [ inl q ↦ err library_error | inr q ↦ ok q ];
}

toy_gob-IsGob : IsGob toy_gob
toy_gob-IsGob = record { carried = λ q. (inr q, refl, refl) }

predicate_query_bytes_example :
    (m0 : toy_gob.Message) × (m1 : toy_gob.Message) × (c' : ClientState) × (wire0 : List ℕ)
    × (wire1 : List ℕ) × (s0 : ServerFss toy_platform) × (s1 : ServerFss toy_platform)
    × (query_bytes ⦃gob = toy_gob⦄ ⦃fx = toy_xor⦄ some_client
          (inl some_query)
          2
          some_rand0
          some_rand1
        ≡ ok (m0, m1, c'))
    × (answer_bytes ⦃gob = toy_gob⦄ ⦃fx = toy_xor⦄ 5 2021
          (record { db = some_db; server_num = 0; fss = some_server })
          m0
        ≡ ok (wire0, s0))
    × (answer_bytes ⦃gob = toy_gob⦄ ⦃fx = toy_xor⦄ 5 2021
          (record { db = some_db; server_num = 1; fss = some_server })
          m1
        ≡ ok (wire1, s1))
    × (reconstruct_bytes c' (wire0 ∷ wire1 ∷ []) ≡ ok 2)
unfolding new_predicate_apir target_id id_for_pub_key_algo byte_to_bits byte_bits
predicate_query_bytes_example =
    predicate_query_bytes ⦃gob = toy_gob⦄ toy_gob-IsGob ⦃aes = toy_cipher⦄ ⦃fx = toy_xor⦄
      some_client some_query (inl some_query) some_rand0 some_rand1 some_alphas [] some_db
      some_server some_server 2021 refl some_IsRandom (ground arith) some_sample refl (omega arith)
      (client_initialize-IsReady ⦃aes = toy_cipher⦄ 5 [])
      (server_initialize-IsReady ⦃aes = toy_cipher⦄ 5 [])
      (server_initialize-IsReady ⦃aes = toy_cipher⦄ 5 []) refl refl refl refl refl
      (seeds_are_clean_sound 5 (leaves 1) clean_1)
      (
        some_key-IsServed 1 clean_1,
        (some_key-IsServed 17 clean_17, (some_key-IsServed 1 clean_1, tt)),
      )
