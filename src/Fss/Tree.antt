-- ===== src/Fss/Tree.antt =====
-- The loops over the bits: along the point of the client the two sides keep different control bits,
-- and from the first other bit on they are one node.
use apir_code.Base.{
  ltb, ◌==◌, length, All, ok, FastXor, ℕ, suc, ◌+◌, ◌≤◌, ◌<◌, ◌≡◌, refl, ap, Bool, true, false,
  List, [], ◌∷◌, arith,
}
use apir_code.Fss.{BlockCipher, Node, bit_of, generate_levels, evaluate_levels}
use apir_code.Fss.Expand.{standard_blocks}
use apir_code.Fss.Walk.{
  IsNode, child, level_cw, child-IsNode, child_keep, child_lose, length-level_cw,
}
use apir_code.Fss.Levels.{grown, length-grown, corrected, length-corrected, evaluate_level_lem}
use apir_code.Fss.Generate.{generate_level_lem}

-- Equality of two bit strings.
abbrev pub same_bits : List Bool → List Bool → Bool
same_bits [] [] = true
same_bits [] (y ∷ ys) = false
same_bits (x ∷ xs) [] = false
same_bits (true ∷ xs) (true ∷ ys) = same_bits xs ys
same_bits (false ∷ xs) (false ∷ ys) = same_bits xs ys
same_bits (true ∷ xs) (false ∷ ys) = false
same_bits (false ∷ xs) (true ∷ ys) = false

pub same_bits_eq : (xs ys : List Bool) → same_bits xs ys ≡ true → xs ≡ ys
same_bits_eq [] [] h = refl
same_bits_eq [] (y ∷ ys) h = cc
same_bits_eq (x ∷ xs) [] h = cc
same_bits_eq (true ∷ xs) (true ∷ ys) h = ap (λ t. true ∷ t) (same_bits_eq xs ys h)
same_bits_eq (false ∷ xs) (false ∷ ys) h = ap (λ t. false ∷ t) (same_bits_eq xs ys h)
same_bits_eq (true ∷ xs) (false ∷ ys) h = cc
same_bits_eq (false ∷ xs) (true ∷ ys) h = cc

module _ ⦃aes : BlockCipher⦄ where
  -- The correction words of the point `a`.
  unfoldable pub tree_cws : List Bool → Node → Node → List (List ℕ)
  tree_cws [] n0 n1 = []
  tree_cws (a ∷ as') n0 n1 =
      let cw = level_cw a n0.s n1.s in
      cw ∷ tree_cws as' (child (bit_of a) cw n0) (child (bit_of a) cw n1)

  -- The node at the end of the path `x`.
  unfoldable pub descend : List (List ℕ) → List Bool → Node → Node
  descend cws [] node = node
  descend [] (x ∷ xs) node = node
  descend (cw ∷ cws) (x ∷ xs) node = descend cws xs (child (bit_of x) cw node)

  pub descend-IsNode :
      (cws : List (List ℕ)) (xs : List Bool) {node : Node}
      → IsNode node
      → IsNode (descend cws xs node)
  unfolding descend
  descend-IsNode cws [] h = h
  descend-IsNode [] (x ∷ xs) h = h
  descend-IsNode (cw ∷ cws) (x ∷ xs) h = descend-IsNode cws xs (child-IsNode (bit_of x) cw h)

  pub length-tree_cws : (as' : List Bool) (n0 n1 : Node) → length (tree_cws as' n0 n1) ≡ length as'
  unfolding tree_cws
  length-tree_cws [] n0 n1 = refl
  length-tree_cws (a ∷ as') n0 n1 = ap suc (length-tree_cws as' _ _)

  pub tree_cws-length :
      (as' : List Bool) (n0 n1 : Node) → All (λ (cw : List ℕ). length cw ≡ 18) (tree_cws as' n0 n1)
  unfolding tree_cws
  tree_cws-length [] n0 n1 = tt
  tree_cws-length (a ∷ as') n0 n1 = (length-level_cw a n0.s n1.s, tree_cws-length as' _ _)

  -- At the end of the point itself the control bits differ.
  pub descend_keep :
      (as' : List Bool) (n0 n1 : Node)
      → n0.t + n1.t ≡ 1
      → (descend (tree_cws as' n0 n1) as' n0).t + (descend (tree_cws as' n0 n1) as' n1).t ≡ 1
  unfolding tree_cws descend
  descend_keep [] n0 n1 e = e
  descend_keep (a ∷ as') n0 n1 e = descend_keep as' _ _ (child_keep a n0.s n1.s n0.t n1.t e)

  -- At the end of any other path of the same length the two sides stand at one node.
  pub descend_lose :
      (as' xs : List Bool) (n0 n1 : Node)
      → IsNode n0
      → IsNode n1
      → n0.t + n1.t ≡ 1
      → length as' ≡ length xs
      → same_bits as' xs ≡ false
      → descend (tree_cws as' n0 n1) xs n0 ≡ descend (tree_cws as' n0 n1) xs n1
  unfolding tree_cws descend
  descend_lose [] [] n0 n1 h0 h1 e l d = cc
  descend_lose [] (x ∷ xs) n0 n1 h0 h1 e l d = absurd (omega arith)
  descend_lose (a ∷ as') [] n0 n1 h0 h1 e l d = absurd (omega arith)
  descend_lose (true ∷ as') (true ∷ xs) n0 n1 h0 h1 e l d =
      descend_lose as' xs _ _ (child-IsNode 1 _ h0) (child-IsNode 1 _ h1)
        (child_keep true n0.s n1.s n0.t n1.t e) (omega arith) d
  descend_lose (false ∷ as') (false ∷ xs) n0 n1 h0 h1 e l d =
      descend_lose as' xs _ _ (child-IsNode 0 _ h0) (child-IsNode 0 _ h1)
        (child_keep false n0.s n1.s n0.t n1.t e) (omega arith) d
  descend_lose (true ∷ as') (false ∷ xs) n0 n1 h0 h1 e l d =
      ap (descend _ xs) (child_lose true n0.s n1.s n0.t n1.t h0.seed_bytes h1.seed_bytes e)
  descend_lose (false ∷ as') (true ∷ xs) n0 n1 h0 h1 e l d =
      ap (descend _ xs) (child_lose false n0.s n1.s n0.t n1.t h0.seed_bytes h1.seed_bytes e)

  module _ ⦃fx : FastXor⦄ where
    -- The loop of GenerateTreePF.
    pub generate_levels_lem :
        (as' : List Bool) (n0 n1 : Node) (out : List ℕ)
        → IsNode n0
        → IsNode n1
        → length out ≡ 64
        → (out' : List ℕ) × (generate_levels standard_blocks as' n0 n1 out
            ≡ ok (
              tree_cws as' n0 n1,
              descend (tree_cws as' n0 n1) as' n0,
              descend (tree_cws as' n0 n1) as' n1,
              out',
            ))
          × (length out' ≡ 64)
    unfolding generate_levels tree_cws descend
    generate_levels_lem [] n0 n1 out h0 h1 room = (out, refl, room)
    generate_levels_lem (a ∷ as') n0 n1 out h0 h1 room =
        let cw = level_cw a n0.s n1.s in
        let out0 = grown n0.s out in
        let room0 = length-grown n0.s out h0.full room in
        let (out', e, room') =
          generate_levels_lem as' (child (bit_of a) cw n0) (child (bit_of a) cw n1)
            (grown n1.s out0) (child-IsNode (bit_of a) cw h0) (child-IsNode (bit_of a) cw h1)
            (length-grown n1.s out0 h1.full room0) in
        (out', rw (generate_level_lem a n0 n1 out h0 h1 room, e), room')

    bit_of-lt : (x : Bool) → bit_of x < 2
    bit_of-lt true = omega arith
    bit_of-lt false = omega arith

    -- The loop of EvaluatePF, on a key whose correction words are whole.
    pub evaluate_levels_lem :
        (xs : List Bool) (i : ℕ) (cws : List (List ℕ)) (node : Node) (out : List ℕ)
        → IsNode node
        → length out ≡ 64
        → length cws ≡ length xs
        → All (λ (cw : List ℕ). length cw ≡ 18) cws
        → i + length xs ≤ 256
        → (out' : List ℕ) × (evaluate_levels standard_blocks 256 i xs cws node out
            ≡ ok (descend cws xs node, out'))
          × (length out' ≡ 64)
    unfolding evaluate_levels descend
    evaluate_levels_lem [] i cws node out h room l w fits = (out, refl, room)
    evaluate_levels_lem (x ∷ xs) i [] node out h room l w fits = absurd (omega arith)
    evaluate_levels_lem (x ∷ xs) i (cw ∷ cws) node out h room l w fits =
        let (out', e, room') =
          evaluate_levels_lem xs (suc i) cws (child (bit_of x) cw node) (corrected cw node out)
            (child-IsNode (bit_of x) cw h) (length-corrected cw node out h.full room) (omega arith)
            w.1 (omega arith) in
        let inside : (i == 256) ≡ false = ground arith in
        let whole : ltb (length cw) 18 ≡ false = rw (w.0) in
        (
          out',
          rw (
            inside,
            whole,
            evaluate_level_lem cw node h.full out room (bit_of x) (bit_of-lt x),
            e,
          ),
          room',
        )
