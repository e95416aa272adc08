-- ===== src/Tests/Points.antt =====
-- The two-party point function on a point of two bits and five elements.
use apir_code.Base.{
  tabulate, All, byte_at, ok, ℕ, ◌+◌, ◌-◌, ◌%◌, ◌≤◌, ◌<◌, ◌≡◌, refl, ◌⊎◌, Bool, true, false, List,
  [], ◌∷◌, arith,
}
use apir_code.Field.{mod_p, mask_top}
use apir_code.Field.Vectors.{element_values}
use apir_code.Fss.{
  Fss, client_initialize, server_initialize, FssKeyEq2P, generate_tree_pf, evaluate_pf,
}
use apir_code.Fss.Expand.{stream_from, block, xor_zip}
use apir_code.Fss.Convert.{IsReady, IsCleanLeaf, leaf_words}
use apir_code.Fss.Walk.{child, level_cw, expand_at}
use apir_code.Fss.Tree.{tree_cws, descend}
use apir_code.Fss.Keys.{leaf_seeds}
use apir_code.Fss.Correct.{
  evaluate-generate, client_initialize-IsReady, server_initialize-IsReady, final_cw_exposed,
}
use apir_code.Tests.{
  toy_cipher, toy_xor, none_is_mod_p, seeds_are_clean, seeds_are_clean_sound, some_rand0,
  some_rand1, some_IsRandom,
}

abbrev some_point : List Bool
some_point = true ∷ false ∷ []

abbrev some_b : List ℕ
some_b = 1 ∷ 1000 ∷ 2000 ∷ 3000 ∷ 4000 ∷ []

some_leaves-clean :
    All
      (IsCleanLeaf ⦃aes = toy_cipher⦄ 5)
      (leaf_seeds ⦃aes = toy_cipher⦄ some_rand0 some_rand1 some_point some_b some_point)
unfolding seeds_are_clean tree_cws descend child level_cw expand_at stream_from block xor_zip
    none_is_mod_p element_values mask_top leaf_words tabulate
some_leaves-clean =
    seeds_are_clean_sound 5
      (leaf_seeds ⦃aes = toy_cipher⦄ some_rand0 some_rand1 some_point some_b some_point) refl

abbrev some_client : Fss
some_client = client_initialize ⦃aes = toy_cipher⦄ 5 []

abbrev some_server : Fss
some_server = server_initialize ⦃aes = toy_cipher⦄ 5 []

some_b-lt : All (λ v. v < mod_p) some_b
some_b-lt = ground arith

evaluate-generate_example :
    (k0 : FssKeyEq2P) × (k1 : FssKeyEq2P) × (client' : Fss) × (server0' : Fss) × (server1' : Fss)
    × (out0 : List ℕ) × (out1 : List ℕ) × (generate_tree_pf ⦃fx = toy_xor⦄ some_client some_rand0
          some_rand1 some_point some_b
        ≡ ok (k0, k1, client'))
    × (evaluate_pf ⦃fx = toy_xor⦄ some_server 0 k0 some_point 5 ≡ ok (out0, server0'))
    × (evaluate_pf ⦃fx = toy_xor⦄ some_server 1 k1 some_point 5 ≡ ok (out1, server1'))
    × ((i : ℕ) → i < 5 → (byte_at out0 i + byte_at out1 i) % mod_p ≡ byte_at some_b i)
    × IsReady ⦃aes = toy_cipher⦄ 5 server0'
    × IsReady ⦃aes = toy_cipher⦄ 5 server1'
evaluate-generate_example =
    evaluate-generate ⦃aes = toy_cipher⦄ ⦃fx = toy_xor⦄ some_rand0 some_rand1 some_point some_b
      some_IsRandom (omega arith) some_client some_server some_server some_point
      (client_initialize-IsReady ⦃aes = toy_cipher⦄ 5 [])
      (server_initialize-IsReady ⦃aes = toy_cipher⦄ 5 [])
      (server_initialize-IsReady ⦃aes = toy_cipher⦄ 5 []) refl (omega arith) some_b-lt
      some_leaves-clean

final_cw_exposed_example :
    (k0 : FssKeyEq2P) × (k1 : FssKeyEq2P) × (client' : Fss) × (generate_tree_pf ⦃fx = toy_xor⦄
        some_client some_rand0 some_rand1 some_point some_b
      ≡ ok (k0, k1, client'))
    × (k1.final_cw ≡ k0.final_cw)
    × ((i : ℕ)
        → 4 ≤ i
        → i < 5
        → (byte_at k0.final_cw i ≡ byte_at some_b i)
          ⊎ (byte_at k0.final_cw i ≡ mod_p - byte_at some_b i))
final_cw_exposed_example =
    final_cw_exposed ⦃aes = toy_cipher⦄ ⦃fx = toy_xor⦄ some_rand0 some_rand1 some_point some_b
      some_IsRandom (omega arith) some_client (client_initialize-IsReady ⦃aes = toy_cipher⦄ 5 [])
      (some_leaves-clean.0) (some_leaves-clean.1.0) some_b-lt
