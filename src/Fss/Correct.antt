-- ===== src/Fss/Correct.antt =====
-- The two-party point function: what its keys evaluate to, and what they show.
use apir_code.Base.{
  if◌then◌else◌, length, drop, All, length-replicate, All-get_or, byte_at, Bytes4, ok, FastXor, ℕ,
  zero, suc, ◌+◌, ◌-◌, ◌*◌, ◌/◌, ◌%◌, ◌≤◌, ◌<◌, ◌≡◌, refl, ap, ap₂, ◌∙◌, ◌⊎◌, Bool, List, arith,
}
use apir_code.Field.{mod_p}
use apir_code.Fss.{
  BlockCipher, Fss, FssKeyEq2P, client_initialize, server_initialize, generate_tree_pf, evaluate_pf,
  final_word,
}
use apir_code.Fss.Convert.{IsReady, IsCleanLeaf, leaf_words_behind, zeros}
use apir_code.Fss.Tree.{same_bits, descend-IsNode}
use apir_code.Fss.Shares.{final_word_bare}
use apir_code.Fss.Keys.{
  IsRandom, root0, root1, root0-IsNode, root1-IsNode, leaf0, leaf1, leaf_seeds, final_cw, key0,
  key1, final_cw_at, shares_add, generate_tree_pf_lem, evaluate_pf_lem,
}

drop-zeros : (m n : ℕ) → drop m (zeros (m + n)) ≡ zeros n
drop-zeros zero n = ap zeros (omega arith)
drop-zeros (suc m) n = let e : suc m + n ≡ suc (m + n) = omega arith in rw e (drop-zeros m n)

module _ ⦃aes : BlockCipher⦄ (len : ℕ) (draws : List Bytes4) where
  fresh_buffer : drop (16 * (len / 4)) (zeros (len * 4)) ≡ zeros (4 * (len % 4))
  fresh_buffer =
      let e : len * 4 ≡ 16 * (len / 4) + 4 * (len % 4) = omega arith in
      ap (λ (k : ℕ). drop (16 * (len / 4)) (zeros k)) e
      ∙ drop-zeros (16 * (len / 4)) (4 * (len % 4))

  -- Both sides begin ready.
  pub client_initialize-IsReady : IsReady len (client_initialize len draws)
  unfolding client_initialize
  client_initialize-IsReady = record {
    blocks = refl;
    bits = refl;
    out_length = refl;
    buffer_length = length-replicate (len * 4) _ ∙ omega arith;
    zeros_behind = fresh_buffer;
  }

  pub server_initialize-IsReady : IsReady len (server_initialize len draws)
  unfolding server_initialize
  server_initialize-IsReady = record {
    blocks = refl;
    bits = refl;
    out_length = refl;
    buffer_length = length-replicate (len * 4) _ ∙ omega arith;
    zeros_behind = fresh_buffer;
  }

module _ ⦃aes : BlockCipher⦄ ⦃fx : FastXor⦄ (rand0 rand1 : List ℕ) (a : List Bool) (b : List ℕ)
    (random : IsRandom rand0 rand1) (few : length b / 4 ≤ 4) where
  -- A client and two servers, each ready for outputs as long as `b`, which has fewer than 20 elements,
  -- all below ModP, with 17 and 16 random bytes, where no group of the leaves that are reached stands
  -- for ModP: GenerateTreePF returns two keys, and for an input `x` as long as the point `a`, at most
  -- 256 bits, EvaluatePF returns a vector on each server. Place by place the two add up, modulo ModP,
  -- to `b` if `x` is `a`, and to 0 otherwise. The servers are ready again.
  pub evaluate-generate :
      (client server0 server1 : Fss) (x : List Bool)
      → IsReady (length b) client
      → IsReady (length b) server0
      → IsReady (length b) server1
      → length a ≡ length x
      → length x ≤ 256
      → All (λ v. v < mod_p) b
      → All (IsCleanLeaf (length b)) (leaf_seeds rand0 rand1 a b x)
      → (k0 : FssKeyEq2P) × (k1 : FssKeyEq2P) × (client' : Fss) × (server0' : Fss)
        × (server1' : Fss) × (out0 : List ℕ) × (out1 : List ℕ) × (generate_tree_pf client rand0
              rand1 a b
            ≡ ok (k0, k1, client'))
        × (evaluate_pf server0 0 k0 x (length b) ≡ ok (out0, server0'))
        × (evaluate_pf server1 1 k1 x (length b) ≡ ok (out1, server1'))
        × ((i : ℕ)
            → i < length b
            → (byte_at out0 i + byte_at out1 i) % mod_p
              ≡ (if same_bits a x then byte_at b i else 0))
        × IsReady (length b) server0'
        × IsReady (length b) server1'
  evaluate-generate client server0 server1 x rc r0 r1 l fits small clean =
      let (client', generated, rc') =
        generate_tree_pf_lem rand0 rand1 a b random few client rc clean.0 clean.1.0 in
      let (server0', e0, r0') =
        evaluate_pf_lem rand0 rand1 a b random few 0 _ (root0 rand0) server0 x
          (root0-IsNode rand0 rand1 a b random) refl r0 l fits clean.1.1.0 in
      let (server1', e1, r1') =
        evaluate_pf_lem rand0 rand1 a b random few 1 _ (root1 rand0 rand1) server1 x
          (root1-IsNode rand0 rand1 a b random) refl r1 l fits clean.1.1.1.0 in
      (
        _,
        _,
        client',
        server0',
        server1',
        _,
        _,
        generated,
        e0,
        e1,
        (λ i h. shares_add rand0 rand1 a b random x i l small clean h),
        r0',
        r1',
      )

  -- On a ready client for fewer than 20 elements, where no group of the two leaves stands for ModP and the elements of `b` lie
  -- below ModP, GenerateTreePF returns two keys with the same FinalCW, and a word of `b` behind the last
  -- whole cipher block is not hidden in it: FinalCW holds the word itself, or ModP minus it. With five
  -- words, as the authenticated client has, that is the last.
  pub final_cw_exposed :
      (client : Fss)
      → IsReady (length b) client
      → IsCleanLeaf (length b) (leaf0 rand0 rand1 a b a).s
      → IsCleanLeaf (length b) (leaf1 rand0 rand1 a b a).s
      → All (λ v. v < mod_p) b
      → (k0 : FssKeyEq2P) × (k1 : FssKeyEq2P) × (client' : Fss) × (generate_tree_pf client rand0
            rand1 a b
          ≡ ok (k0, k1, client'))
        × (k1.final_cw ≡ k0.final_cw)
        × ((i : ℕ)
            → 4 * (length b / 4) ≤ i
            → i < length b
            → (byte_at k0.final_cw i ≡ byte_at b i) ⊎ (byte_at k0.final_cw i ≡ mod_p - byte_at b i))
  final_cw_exposed client rc c0 c1 small =
      let (made, generated, ready) =
        generate_tree_pf_lem rand0 rand1 a b random few client rc c0 c1 in
      (key0 rand0 rand1 a b, key1 rand0 rand1 a b, made, generated, refl, bare)
    where
      bare :
          (i : ℕ)
          → 4 * (length b / 4) ≤ i
          → i < length b
          → (byte_at (final_cw rand0 rand1 a b) i ≡ byte_at b i)
            ⊎ (byte_at (final_cw rand0 rand1 a b) i ≡ mod_p - byte_at b i)
      bare i behind h =
          let e : byte_at (final_cw rand0 rand1 a b) i ≡ final_word (byte_at b i) 0 0 _ =
            final_cw_at rand0 rand1 a b i h
            ∙ ap₂ (λ (x y : ℕ). final_word (byte_at b i) x y (leaf1 rand0 rand1 a b a).t)
                (leaf_words_behind (length b) i (leaf0 rand0 rand1 a b a).s
                  (descend-IsNode _ a (root0-IsNode rand0 rand1 a b random)).full behind)
                (leaf_words_behind (length b) i (leaf1 rand0 rand1 a b a).s
                  (descend-IsNode _ a (root1-IsNode rand0 rand1 a b random)).full behind) in
          rw e (
            final_word_bare (byte_at b i) (leaf1 rand0 rand1 a b a).t
              (All-get_or (λ v. v < mod_p) b i 0 small (omega arith)))
