-- ===== src/Tests/Predicates.antt =====
-- A predicate query for the keys with algorithm 1, in a database of three keys.
use apir_code.Base.{
  replicate, tabulate, Bytes4, reject, ok, err, ℕ, ◌%◌, ◌<◌, ◌≡◌, refl, true, false, some, List, [],
  ◌∷◌, arith,
}
use apir_code.Field.{mask_top, rand_element_with_prg}
use apir_code.Field.Vectors.{element_values}
use apir_code.Fss.{Fss, server_initialize}
use apir_code.Fss.Expand.{stream_from, block, xor_zip}
use apir_code.Fss.Convert.{leaf_words}
use apir_code.Fss.Walk.{child, level_cw, expand_at}
use apir_code.Fss.Tree.{tree_cws, descend}
use apir_code.Fss.Keys.{leaf_seeds}
use apir_code.Fss.Correct.{client_initialize-IsReady, server_initialize-IsReady}
use apir_code.Utils.Encoding.{byte_bits, byte_to_bits}
use apir_code.Query.{Platform, pub_key_algo, Info, ClientFss, FssQuery, id_for_pub_key_algo}
use apir_code.Database.Keys.{KeyInfo, Db}
use apir_code.Server.Predicate.{ServerFss, answer, target_id}
use apir_code.Server.Predicate.Loops.{IsServed}
use apir_code.Client.Predicate.{
  ClientState, sample_alphas, new_predicate_apir, query, reconstruct, reconstruct_data,
}
use apir_code.Client.Predicate.Tags.{reconstruct_data_decides, Fits}
use apir_code.Client.Predicate.Honest.{predicate_query}
use apir_code.Tests.{
  toy_cipher, toy_xor, none_is_mod_p, seeds_are_clean, seeds_are_clean_sound, some_rand0,
  some_rand1, some_IsRandom,
}

abbrev pub toy_platform : Platform
toy_platform = record {
  Time = ℕ;
  year = λ t. t;
  marshal_binary = λ t. some (t % 256 ∷ []);
  sum256 = λ email. replicate 32 7;
  length-sum256 = λ email. refl;
}

abbrev some_key : ℕ → KeyInfo toy_platform
some_key algo = record {
  user_id = record { id = 97 ∷ 64 ∷ []; name = []; comment = []; email = 97 ∷ 64 ∷ [] };
  creation_time = 2020;
  pub_key_algo = algo;
  bit_length = 2048;
}

abbrev pub some_db : Db toy_platform
some_db = record { keys_info = some_key 1 ∷ some_key 17 ∷ some_key 1 ∷ []; num_columns = 3 }

abbrev pub some_info : Info
some_info = record {
  target = pub_key_algo;
  from_start = 0;
  from_end = 0;
  and = false;
  targets = [];
  avg = false;
  sum = false;
}

abbrev pub some_query : ClientFss
some_query = record { info = some_info; input = id_for_pub_key_algo 1 }

abbrev group : ℕ → Bytes4
group v = record { b0 = 0; b1 = 0; b2 = 1; b3 = v }

abbrev some_rnd : List Bytes4
some_rnd = group 5 ∷ group 7 ∷ group 9 ∷ group 11 ∷ []

abbrev pub some_alphas : List ℕ
some_alphas = 261 ∷ 263 ∷ 265 ∷ 267 ∷ []

abbrev pub some_client : ClientState
unfolding new_predicate_apir
some_client = new_predicate_apir ⦃aes = toy_cipher⦄ some_rnd []

abbrev pub some_server : Fss
some_server = server_initialize ⦃aes = toy_cipher⦄ 5 []

pub some_sample : sample_alphas 4 some_rnd ≡ ok (some_alphas, [])
unfolding sample_alphas rand_element_with_prg mask_top
some_sample = refl

abbrev pub leaves : ℕ → List (List ℕ)
leaves algo =
    leaf_seeds ⦃aes = toy_cipher⦄ some_rand0 some_rand1 (id_for_pub_key_algo 1) (1 ∷ some_alphas)
      (id_for_pub_key_algo algo)

pub clean_1 : seeds_are_clean 5 (leaves 1) ≡ true
unfolding seeds_are_clean tree_cws descend child level_cw expand_at stream_from block xor_zip
    none_is_mod_p element_values mask_top leaf_words tabulate id_for_pub_key_algo byte_to_bits
    byte_bits
clean_1 = refl

pub clean_17 : seeds_are_clean 5 (leaves 17) ≡ true
unfolding seeds_are_clean tree_cws descend child level_cw expand_at stream_from block xor_zip
    none_is_mod_p element_values mask_top leaf_words tabulate id_for_pub_key_algo byte_to_bits
    byte_bits
clean_17 = refl

pub some_key-IsServed :
    (algo : ℕ)
    → seeds_are_clean 5 (leaves algo) ≡ true
    → IsServed ⦃aes = toy_cipher⦄ ⦃fx = toy_xor⦄ some_rand0 some_rand1
        (id_for_pub_key_algo 1)
        (1 ∷ some_alphas)
        (target_id ⦃fx = toy_xor⦄ some_info)
        (some_key algo)
unfolding target_id id_for_pub_key_algo byte_to_bits byte_bits
some_key-IsServed algo clean = (
  some (id_for_pub_key_algo algo),
  refl,
  (refl, omega arith, seeds_are_clean_sound 5 (leaves algo) clean),
)

predicate_query_example :
    (q0 : FssQuery) × (q1 : FssQuery) × (c' : ClientState) × (answer0 : List ℕ) × (answer1 : List ℕ)
    × (s0 : ServerFss toy_platform) × (s1 : ServerFss toy_platform) × (query ⦃fx = toy_xor⦄
          some_client some_query 2 some_rand0 some_rand1
        ≡ ok (q0, q1, c'))
    × (answer ⦃fx = toy_xor⦄ 2021
          (record { db = some_db; server_num = 0; fss = some_server })
          q0
          (replicate 5 0)
        ≡ ok (answer0, s0))
    × (answer ⦃fx = toy_xor⦄ 2021
          (record { db = some_db; server_num = 1; fss = some_server })
          q1
          (replicate 5 0)
        ≡ ok (answer1, s1))
    × (reconstruct c' answer0 answer1 ≡ ok 2)
unfolding new_predicate_apir target_id id_for_pub_key_algo byte_to_bits byte_bits
predicate_query_example =
    predicate_query ⦃aes = toy_cipher⦄ ⦃fx = toy_xor⦄ some_client some_query some_rand0 some_rand1
      some_alphas [] some_db some_server some_server 2021 some_IsRandom (ground arith) some_sample
      refl (omega arith) (client_initialize-IsReady ⦃aes = toy_cipher⦄ 5 [])
      (server_initialize-IsReady ⦃aes = toy_cipher⦄ 5 [])
      (server_initialize-IsReady ⦃aes = toy_cipher⦄ 5 []) refl refl refl refl refl
      (seeds_are_clean_sound 5 (leaves 1) clean_1)
      (
        some_key-IsServed 1 clean_1,
        (some_key-IsServed 17 clean_17, (some_key-IsServed 1 clean_1, tt)),
      )

reconstruct_data_decides_example :
    (((k : ℕ) → k < 1 → Fits (3 ∷ 0 ∷ []) (5 ∷ 7 ∷ []) (2 ∷ 8 ∷ []) 7 k)
      → reconstruct_data 2 (3 ∷ 0 ∷ []) (5 ∷ 7 ∷ []) (2 ∷ 8 ∷ []) ≡ ok 7)
    × ((k : ℕ)
        → k < 1
        → ¬ Fits (3 ∷ 0 ∷ []) (5 ∷ 7 ∷ []) (2 ∷ 8 ∷ []) 7 k
        → reconstruct_data 2 (3 ∷ 0 ∷ []) (5 ∷ 7 ∷ []) (2 ∷ 8 ∷ []) ≡ err reject)
reconstruct_data_decides_example =
    reconstruct_data_decides (3 ∷ 0 ∷ []) (5 ∷ 7 ∷ []) (2 ∷ 8 ∷ []) 2 (omega arith) (omega arith)
      (omega arith) (omega arith)
