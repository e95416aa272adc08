-- ===== src/Fss/Keys.antt =====
-- The keys and the outputs of the two-party point function, as functions of the random bytes, the
-- point `a` and the vector `b`.
use apir_code.Base.{
  sym, replicate, take-append, ltb, if◌then◌else◌, Bool-cases, bit_xor_bits, length, take, tabulate,
  All, length-take, length-tabulate, get_or-tabulate, All-tabulate, All-get_or, IsByte, byte_at, ok,
  FastXor, ℕ, zero, suc, ◌+◌, ◌/◌, ◌%◌, ◌≤◌, ◌<◌, bit_xor, ◌≡◌, ap, ◌∙◌, subst, inl, inr, Bool,
  false, List, [], ◌∷◌, arith,
}
use apir_code.Field.{mod_p}
use apir_code.Fss.{
  seed_copy, BlockCipher, Fss, FssKeyEq2P, Node, generate_levels, generate_tree_pf, evaluate_levels,
  evaluate_pf, final_word, output_word,
}
use apir_code.Fss.Convert.{
  IsReady, IsCleanLeaf, leaf_words, leaf_words-lt, convert_block_lem, after_convert,
  after_convert-IsReady, walked-IsReady,
}
use apir_code.Fss.Walk.{IsNode}
use apir_code.Fss.Tree.{
  same_bits, tree_cws, descend, descend-IsNode, length-tree_cws, tree_cws-length, descend_keep,
  descend_lose, same_bits_eq, generate_levels_lem, evaluate_levels_lem,
}
use apir_code.Fss.Shares.{words_keep, words_lose, output_word-le}

-- The first node of a side, from what rand.Read stored for it.
abbrev pub root0 : List ℕ → Node
root0 rand0 = record { s = take 16 rand0; t = byte_at rand0 16 % 2 }

abbrev pub root1 : List ℕ → List ℕ → Node
root1 rand0 rand1 = record { s = rand1; t = bit_xor (byte_at rand0 16 % 2) 1 }

-- The bytes that the two calls of rand.Read store.
pub record IsRandom (rand0 rand1 : List ℕ) : Type 0 where
  pub length0 : length rand0 ≡ 17
  pub length1 : length rand1 ≡ 16
  pub bytes0 : All IsByte rand0
  pub bytes1 : All IsByte rand1

All-take : (n : ℕ) (xs : List ℕ) → All IsByte xs → All IsByte (take n xs)
All-take zero xs h = tt
All-take (suc n) [] h = tt
All-take (suc n) (x ∷ xs) h = (h.0, All-take n xs h.1)

module _ ⦃aes : BlockCipher⦄ (rand0 rand1 : List ℕ) (a : List Bool) (b : List ℕ) where
  abbrev pub cws : List (List ℕ)
  cws = tree_cws a (root0 rand0) (root1 rand0 rand1)

  -- The node of each side at the end of a path.
  abbrev pub leaf0 : List Bool → Node
  leaf0 x = descend cws x (root0 rand0)

  abbrev pub leaf1 : List Bool → Node
  leaf1 x = descend cws x (root1 rand0 rand1)

  -- The seeds that become elements when the keys are made, and when they are evaluated at `x`.
  abbrev pub leaf_seeds : List Bool → List (List ℕ)
  leaf_seeds x = (leaf0 a).s ∷ (leaf1 a).s ∷ (leaf0 x).s ∷ (leaf1 x).s ∷ []

  -- FinalCW.
  pub final_cw : List ℕ
  final_cw = tabulate (length b) (λ i.
      final_word (byte_at b i) (byte_at (leaf_words (length b) (leaf0 a).s) i)
        (byte_at (leaf_words (length b) (leaf1 a).s) i) (leaf1 a).t)

  length-final_cw : length final_cw ≡ length b
  unfolding final_cw
  length-final_cw = length-tabulate (length b) _

  pub final_cw_at :
      (i : ℕ)
      → i < length b
      → byte_at final_cw i
        ≡ final_word
            (byte_at b i)
            (byte_at (leaf_words (length b) (leaf0 a).s) i)
            (byte_at (leaf_words (length b) (leaf1 a).s) i)
            (leaf1 a).t
  unfolding final_cw
  final_cw_at i h = get_or-tabulate (length b) i _ 0 h

  abbrev pub key0 : FssKeyEq2P
  key0 = record {
    s_init = take 16 rand0;
    t_init = byte_at rand0 16 % 2;
    cw = cws;
    final_cw = final_cw;
  }

  abbrev pub key1 : FssKeyEq2P
  key1 = record {
    s_init = rand1;
    t_init = bit_xor (byte_at rand0 16 % 2) 1;
    cw = cws;
    final_cw = final_cw;
  }

  -- What a server outputs at `x`, from its node there.
  pub share : ℕ → Node → List ℕ
  share server leaf = tabulate (length b) (λ i.
      output_word server (byte_at (leaf_words (length b) leaf.s) i) leaf.t (byte_at final_cw i))

  pub length-share : (server : ℕ) (leaf : Node) → length (share server leaf) ≡ length b
  unfolding share
  length-share server leaf = length-tabulate (length b) _

  pub share-le : (server : ℕ) (leaf : Node) (j : ℕ) → byte_at (share server leaf) j ≤ mod_p
  unfolding share
  share-le server leaf j =
      All-get_or (λ v. v ≤ mod_p) (share server leaf) j 0
        (All-tabulate (λ v. v ≤ mod_p) (length b) _ (λ i. output_word-le server _ leaf.t _))
        (omega arith)

  module _ (random : IsRandom rand0 rand1) where
    pub root0-IsNode : IsNode (root0 rand0)
    root0-IsNode = record {
      full = omega (arith, length-take 16 rand0, random.length0);
      seed_bytes = All-take 16 rand0 random.bytes0;
      is_bit = omega arith;
    }

    pub root1-IsNode : IsNode (root1 rand0 rand1)
    root1-IsNode = record {
      full = random.length1;
      seed_bytes = random.bytes1;
      is_bit = omega (arith, bit_xor_bits (byte_at rand0 16 % 2) 1 (omega arith) (omega arith));
    }

    roots_differ : (root0 rand0).t + (root1 rand0 rand1).t ≡ 1
    roots_differ = omega (arith, bit_xor_bits (byte_at rand0 16 % 2) 1 (omega arith) (omega arith))

    pub share_at :
        (server : ℕ) (leaf : Node) (i : ℕ)
        → i < length b
        → byte_at (share server leaf) i
          ≡ output_word server (byte_at (leaf_words (length b) leaf.s) i) leaf.t (
              final_word
                (byte_at b i)
                (byte_at (leaf_words (length b) (leaf0 a).s) i)
                (byte_at (leaf_words (length b) (leaf1 a).s) i)
                (leaf1 a).t)
    unfolding share
    share_at server leaf i h =
        get_or-tabulate (length b) i _ 0 h
        ∙ ap (output_word server (byte_at (leaf_words (length b) leaf.s) i) leaf.t)
            (final_cw_at i h)

    word-lt :
        (leaf : Node) (i : ℕ)
        → IsNode leaf
        → IsCleanLeaf (length b) leaf.s
        → byte_at (leaf_words (length b) leaf.s) i < mod_p
    word-lt leaf i h clean =
        All-get_or (λ v. v < mod_p) _ i 0 (leaf_words-lt (length b) leaf.s h.seed_bytes clean)
          (omega arith)

    shares_add_keep :
        (i : ℕ)
        → All (λ v. v < mod_p) b
        → IsCleanLeaf (length b) (leaf0 a).s
        → IsCleanLeaf (length b) (leaf1 a).s
        → i < length b
        → (byte_at (share 0 (leaf0 a)) i + byte_at (share 1 (leaf1 a)) i) % mod_p ≡ byte_at b i
    shares_add_keep i small c0 c1 h =
        rw (share_at 0 (leaf0 a) i h, share_at 1 (leaf1 a) i h)
          (words_keep (byte_at b i) _ _ (leaf0 a).t (leaf1 a).t
            (All-get_or (λ v. v < mod_p) b i 0 small (omega arith))
            (word-lt (leaf0 a) i (descend-IsNode cws a root0-IsNode) c0)
            (word-lt (leaf1 a) i (descend-IsNode cws a root1-IsNode) c1)
            (descend_keep a (root0 rand0) (root1 rand0 rand1) roots_differ))

    shares_add_lose :
        (x : List Bool) (i : ℕ)
        → length a ≡ length x
        → same_bits a x ≡ false
        → i < length b
        → (byte_at (share 0 (leaf0 x)) i + byte_at (share 1 (leaf1 x)) i) % mod_p ≡ 0
    shares_add_lose x i l other h =
        rw
          (
            share_at 0 (leaf0 x) i h,
            share_at 1 (leaf1 x) i h,
            descend_lose a x (root0 rand0) (root1 rand0 rand1) root0-IsNode root1-IsNode
                roots_differ l other,
          )
          (words_lose _ (leaf1 x).t _)

    -- The outputs of the two servers at `x`.
    pub shares_add :
        (x : List Bool) (i : ℕ)
        → length a ≡ length x
        → All (λ v. v < mod_p) b
        → All (IsCleanLeaf (length b)) (leaf_seeds x)
        → i < length b
        → (byte_at (share 0 (leaf0 x)) i + byte_at (share 1 (leaf1 x)) i) % mod_p
          ≡ (if same_bits a x then byte_at b i else 0)
    shares_add x i l small clean h = elim (Bool-cases (same_bits a x)) [
      | inl same ↦ rw same (
          subst
            (λ (y : List Bool).
              (byte_at (share 0 (leaf0 y)) i + byte_at (share 1 (leaf1 y)) i) % mod_p ≡ byte_at b i)
            (same_bits_eq a x same) (shares_add_keep i small clean.0 clean.1.0 h))
      | inr other ↦ rw other (shares_add_lose x i l other h)
    ]

    module _ ⦃fx : FastXor⦄ (few : length b / 4 ≤ 4) where
      pub generate_tree_pf_lem :
          (f : Fss)
          → IsReady (length b) f
          → IsCleanLeaf (length b) (leaf0 a).s
          → IsCleanLeaf (length b) (leaf1 a).s
          → (f' : Fss) × (generate_tree_pf f rand0 rand1 a b ≡ ok (key0, key1, f'))
            × IsReady (length b) f'
      unfolding generate_tree_pf final_cw
      generate_tree_pf_lem f ready c0 c1 =
          let n0 = leaf0 a in
          let n1 = leaf1 a in
          let h0 = descend-IsNode cws a root0-IsNode in
          let h1 = descend-IsNode cws a root1-IsNode in
          let (out, walked, room) =
            generate_levels_lem a (root0 rand0) (root1 rand0 rand1) f.out root0-IsNode root1-IsNode
              ready.out_length in
          let f1 : Fss = record f { num_bits = length a; out = out } in
          let r1 : IsReady (length b) f1 = walked-IsReady (length a) out ready room in
          let f2 = after_convert (length b) few f1 r1 n0.s h0.full c0 in
          let r2 = after_convert-IsReady (length b) few f1 r1 n0.s h0.full c0 in
          let e2 = convert_block_lem (length b) few f1 r1 n0.s h0.full c0 in
          let f3 = after_convert (length b) few f2 r2 n1.s h1.full c1 in
          let r3 = after_convert-IsReady (length b) few f2 r2 n1.s h1.full c1 in
          let e3 = convert_block_lem (length b) few f2 r2 n1.s h1.full c1 in
          let walked' : generate_levels f.fixed_blocks a (root0 rand0) (root1 rand0 rand1) f.out
              ≡ ok (cws, n0, n1, out) =
            rw ready.blocks walked in
          (
            record f3 { num_bits = f.num_bits },
            rw (walked', e2, e3),
            walked-IsReady f.num_bits f3.out r3 r3.out_length,
          )

      pub evaluate_pf_lem :
          (server : ℕ) (k : FssKeyEq2P) (root : Node) (f : Fss) (x : List Bool)
          → IsNode root
          → k ≡ record { s_init = root.s; t_init = root.t; cw = cws; final_cw = final_cw }
          → IsReady (length b) f
          → length a ≡ length x
          → length x ≤ 256
          → IsCleanLeaf (length b) (descend cws x root).s
          → (f' : Fss) × (evaluate_pf f server k x (length b)
              ≡ ok (share server (descend cws x root), f'))
            × IsReady (length b) f'
      unfolding evaluate_pf seed_copy share
      evaluate_pf_lem server k root f x h e ready l fits clean =
          let node = descend cws x root in
          let hn = descend-IsNode cws x h in
          let (out, walked, room) =
            evaluate_levels_lem x 0 cws root f.out h ready.out_length
              (length-tree_cws a (root0 rand0) (root1 rand0 rand1) ∙ l)
              (tree_cws-length a (root0 rand0) (root1 rand0 rand1)) (omega arith) in
          let f1 : Fss = record f { num_bits = length x; out = out } in
          let r1 : IsReady (length b) f1 = walked-IsReady (length x) out ready room in
          let f2 = after_convert (length b) few f1 r1 node.s hn.full clean in
          let r2 = after_convert-IsReady (length b) few f1 r1 node.s hn.full clean in
          let e2 = convert_block_lem (length b) few f1 r1 node.s hn.full clean in
          let walked' : evaluate_levels f.fixed_blocks f.n 0 x cws root f.out ≡ ok (node, out) =
            rw (ready.blocks, ready.bits) walked in
          let whole : ltb (length final_cw) (length b) ≡ false = ground (arith, length-final_cw) in
          let whole_seed : seed_copy root.s ≡ root.s =
            take-append 16 root.s (replicate 16 0) (sym h.full) in
          (
            record f2 { num_bits = f.num_bits },
            rw e (rw whole_seed (rw (walked', e2, whole))),
            walked-IsReady f.num_bits f2.out r2 r2.out_length,
          )
