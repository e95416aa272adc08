-- ===== src/Fss/Levels.antt =====
-- Both programs compute `child` on a level, with the correction word `level_cw`.
use apir_code.Base.{
  length, take, drop, length-append, length-take, length-drop, length-tabulate, get_or-tabulate,
  get_or-append_left, get_or-drop, get_or-take, get_or_ext, byte_at, ok, FastXor, ℕ, zero, suc, ◌+◌,
  ◌%◌, ◌<◌, bit_xor, ◌≡◌, refl, sym, ap, ap₂, ◌∙◌, inr, List, ◌++◌, arith,
}
use apir_code.Fss.{BlockCipher, Node, mul8, correct_from, evaluate_level}
use apir_code.Fss.Expand.{standard_blocks, stream_from, length-stream_from, prf_lem}
use apir_code.Fss.Walk.{slot, correct_from_at, length-correct_from, expand_at, child}

module _ ⦃aes : BlockCipher⦄ where
  -- f.Out after prf.
  abbrev pub grown : List ℕ → List ℕ → List ℕ
  grown s out = stream_from 3 0 s ++ drop 48 out

  grown_at :
      (s out : List ℕ) (j : ℕ) → length s ≡ 16 → j < 48 → byte_at (grown s out) j ≡ expand_at s j
  unfolding expand_at
  grown_at s out j e h =
      get_or-append_left (stream_from 3 0 s) _ j 0 (omega (arith, length-stream_from 3 0 s e))

  pub length-grown : (s out : List ℕ) → length s ≡ 16 → length out ≡ 64 → length (grown s out) ≡ 64
  length-grown s out e h = omega (
    arith,
    length-append (stream_from 3 0 s) (drop 48 out),
    length-stream_from 3 0 s e,
    length-drop 48 out,
  )

  -- f.Out after the correction of its first 34 bytes.
  abbrev pub corrected : List ℕ → Node → List ℕ → List ℕ
  corrected cw node out =
      correct_from 34 0 0 node.t cw (grown node.s out) ++ drop 34 (grown node.s out)

  pub length-corrected :
      (cw : List ℕ) (node : Node) (out : List ℕ)
      → length node.s ≡ 16
      → length out ≡ 64
      → length (corrected cw node out) ≡ 64
  length-corrected cw node out e h = omega (
    arith,
    length-append (correct_from 34 0 0 node.t cw (grown node.s out)) (drop 34 (grown node.s out)),
    length-correct_from 34 0 0 node.t cw (grown node.s out),
    length-drop 34 (grown node.s out),
    length-grown node.s out e h,
  )

  module _ (cw : List ℕ) (node : Node) (full : length node.s ≡ 16) (out : List ℕ) where
    corrected_at :
        (j : ℕ)
        → j < 34
        → byte_at (corrected cw node out) j
          ≡ bit_xor (expand_at node.s j) (mul8 node.t (byte_at cw (slot j)))
    corrected_at j h =
        let out' = grown node.s out in
        let z : 0 + j ≡ j = omega arith in
        get_or-append_left (correct_from 34 0 0 node.t cw out') _ j 0
          (omega (arith, length-correct_from 34 0 0 node.t cw out'))
        ∙ correct_from_at 34 0 0 j node.t cw out' (omega arith) (inr (inr refl)) h
        ∙ ap₂ (λ (x p : ℕ). bit_xor x (mul8 node.t (byte_at cw (slot p))))
            (ap (byte_at out') z ∙ grown_at node.s out j full (omega arith)) z

    left_seed : length out ≡ 64 → take 16 (corrected cw node out) ≡ (child 0 cw node).s
    unfolding child
    left_seed h =
        get_or_ext 0 _ _
          (omega (
            arith,
            length-take 16 (corrected cw node out),
            length-corrected cw node out full h,
            length-tabulate {0},
          ))
          (λ i p. at i (omega (arith, length-take 16 (corrected cw node out))))
      where
        at :
            (i : ℕ)
            → i < 16
            → byte_at (take 16 (corrected cw node out)) i ≡ byte_at (child 0 cw node).s i
        at i p =
            get_or-take 16 i (corrected cw node out) 0 p
            ∙ corrected_at i (omega arith)
            ∙ ap (λ (k : ℕ). bit_xor (expand_at node.s i) (mul8 node.t (byte_at cw k)))
                (ground arith)
            ∙ sym (
                get_or-tabulate 16 i _ 0 p
                ∙ ap (λ (k : ℕ). bit_xor (expand_at node.s k) (mul8 node.t (byte_at cw i)))
                    (omega arith))

    right_seed : length out ≡ 64 → take 16 (drop 17 (corrected cw node out)) ≡ (child 1 cw node).s
    unfolding child
    right_seed h =
        get_or_ext 0 _ _
          (omega (
            arith,
            length-take 16 (drop 17 (corrected cw node out)),
            length-drop 17 (corrected cw node out),
            length-corrected cw node out full h,
            length-tabulate {0},
          ))
          (λ i p. at i (omega (arith, length-take 16 (drop 17 (corrected cw node out)))))
      where
        at :
            (i : ℕ)
            → i < 16
            → byte_at (take 16 (drop 17 (corrected cw node out))) i ≡ byte_at (child 1 cw node).s i
        at i p =
            get_or-take 16 i (drop 17 (corrected cw node out)) 0 p
            ∙ get_or-drop 17 i (corrected cw node out) 0
            ∙ corrected_at (17 + i) (omega arith)
            ∙ ap (λ (k : ℕ). bit_xor (expand_at node.s (17 + i)) (mul8 node.t (byte_at cw k)))
                (ground arith)
            ∙ sym (get_or-tabulate 16 i _ 0 p)

    module _ ⦃fx : FastXor⦄ (room : length out ≡ 64) where
      -- A level of EvaluatePF.
      pub evaluate_level_lem :
          (bit : ℕ)
          → bit < 2
          → evaluate_level standard_blocks bit cw node out
            ≡ ok (child bit cw node, corrected cw node out)
      unfolding evaluate_level
      evaluate_level_lem zero h = rw (prf_lem node.s full 3 out (omega arith) (omega arith)) (
          ap (λ (n : Node). ok (n, corrected cw node out))
            (λ i. record { s = left_seed room i; t = left_bit i }))
        where
          left_bit : byte_at (corrected cw node out) 16 % 2 ≡ (child 0 cw node).t
          left_bit = unfold child in ap (λ (k : ℕ). k % 2) (corrected_at 16 (omega arith))
      evaluate_level_lem (suc zero) h = rw (prf_lem node.s full 3 out (omega arith) (omega arith)) (
          ap (λ (n : Node). ok (n, corrected cw node out))
            (λ i. record { s = right_seed room i; t = right_bit i }))
        where
          right_bit : byte_at (corrected cw node out) 33 % 2 ≡ (child 1 cw node).t
          right_bit = unfold child in ap (λ (k : ℕ). k % 2) (corrected_at 33 (omega arith))
      evaluate_level_lem (suc (suc bit)) h = absurd (omega arith)
