-- ===== src/Fss/Generate.antt =====
-- A level of GenerateTreePF computes `child` for both nodes, with the correction word `level_cw`.
use apir_code.Base.{
  bit_xor-mod_two, xor-zero, bit_xor_bits, length, drop, tabulate, take-append, byte_at, ok,
  FastXor, ℕ, zero, suc, ◌+◌, ◌*◌, ◌%◌, ◌<◌, bit_xor, ◌≡◌, refl, ap, ap₂, Bool, true, false, List,
  [], ◌∷◌, ◌++◌, arith,
}
use apir_code.Fss.{BlockCipher, Node, mul8, bit_of, correction_word, next_node, generate_level}
use apir_code.Fss.Expand.{standard_blocks, stream_from, length-stream_from, prf_lem}
use apir_code.Fss.Walk.{IsNode, expand_at, child, level_cw, level_cw_left, level_cw_right}
use apir_code.Fss.Levels.{grown, length-grown}

left_word :
    (x y a : ℕ) → a < 2 → bit_xor (bit_xor (bit_xor (x % 2) (y % 2)) a) 1 ≡ (x + y + a + 1) % 2
left_word x y a h =
    let u = bit_xor (x % 2) (y % 2) in
    let eu = bit_xor_bits (x % 2) (y % 2) (omega arith) (omega arith) in
    let ev = bit_xor_bits u a (omega (arith, eu)) h in
    omega (arith, eu, ev, bit_xor_bits (bit_xor u a) 1 (omega (arith, ev)) (omega arith))

right_word : (x y a : ℕ) → a < 2 → bit_xor (bit_xor (x % 2) (y % 2)) a ≡ (x + y + a) % 2
right_word x y a h =
    let u = bit_xor (x % 2) (y % 2) in
    let eu = bit_xor_bits (x % 2) (y % 2) (omega arith) (omega arith) in
    omega (arith, eu, bit_xor_bits u a (omega (arith, eu)) h)

-- The control bit of the next node: the client takes the bit before, the server after the correction.
next_bit : (g c t : ℕ) → c < 2 → t < 2 → bit_xor (g % 2) (mul8 c t) ≡ bit_xor g (mul8 t c) % 2
next_bit g c zero hc ht = omega (
  arith,
  bit_xor-mod_two g (0 * c % 256),
  ap (bit_xor (g % 2)) (zero_product c),
  xor-zero (g % 2),
)
  where
    zero_product : (c : ℕ) → mul8 c 0 ≡ 0
    zero_product c = omega arith
next_bit g c (suc zero) hc ht = omega (
  arith,
  bit_xor-mod_two g (1 * c % 256),
  ap (bit_xor (g % 2)) (one_product c hc),
  bit_xor_bits (g % 2) c (omega arith) hc,
)
  where
    one_product : (c : ℕ) → c < 2 → mul8 c 1 ≡ c
    one_product c h = omega arith
next_bit g c (suc (suc t)) hc ht = absurd (omega arith)

module _ ⦃aes : BlockCipher⦄ where
  correction_word-level_cw :
      (a : Bool) (s0 s1 : List ℕ)
      → correction_word a (stream_from 3 0 s0) (stream_from 3 0 s1) ≡ level_cw a s0 s1
  unfolding correction_word level_cw expand_at
  correction_word-level_cw false s0 s1 =
      ap₂
        (λ (l r : ℕ).
          tabulate 16 (λ j. bit_xor (expand_at s0 (17 + j)) (expand_at s1 (17 + j)))
          ++ (l ∷ r ∷ []))
        (left_word (expand_at s0 16) (expand_at s1 16) 0 (omega arith))
        (right_word (expand_at s0 33) (expand_at s1 33) 0 (omega arith))
  correction_word-level_cw true s0 s1 =
      ap₂
        (λ (l r : ℕ).
          tabulate 16 (λ j. bit_xor (expand_at s0 (0 + j)) (expand_at s1 (0 + j))) ++ (l ∷ r ∷ []))
        (left_word (expand_at s0 16) (expand_at s1 16) 1 (omega arith))
        (right_word (expand_at s0 33) (expand_at s1 33) 1 (omega arith))

  next_node-child :
      (a : Bool) (s0 s1 : List ℕ) (node : Node)
      → node.t < 2
      → next_node a (level_cw a s0 s1) (stream_from 3 0 node.s) node.t
        ≡ child (bit_of a) (level_cw a s0 s1) node
  next_node-child false s0 s1 node h =
      unfold next_node child expand_at in
      λ i. record {
        s = tabulate 16 (λ j.
            bit_xor (expand_at node.s (0 + j)) (mul8 node.t (byte_at (level_cw false s0 s1) j)));
        t =
            next_bit (expand_at node.s 16) (byte_at (level_cw false s0 s1) 16) node.t
              (omega (arith, level_cw_left false s0 s1)) h i;
      }
  next_node-child true s0 s1 node h =
      unfold next_node child expand_at in
      λ i. record {
        s = tabulate 16 (λ j.
            bit_xor (expand_at node.s (17 + j)) (mul8 node.t (byte_at (level_cw true s0 s1) j)));
        t =
            next_bit (expand_at node.s 33) (byte_at (level_cw true s0 s1) 17) node.t
              (omega (arith, level_cw_right true s0 s1)) h i;
      }

  module _ ⦃fx : FastXor⦄ where
    -- A level of GenerateTreePF.
    pub generate_level_lem :
        (a : Bool) (n0 n1 : Node) (out : List ℕ)
        → IsNode n0
        → IsNode n1
        → length out ≡ 64
        → generate_level standard_blocks a n0 n1 out
          ≡ ok (
            level_cw a n0.s n1.s,
            child (bit_of a) (level_cw a n0.s n1.s) n0,
            child (bit_of a) (level_cw a n0.s n1.s) n1,
            grown n1.s (grown n0.s out),
          )
    unfolding generate_level
    generate_level_lem a n0 n1 out h0 h1 room =
        let out0 = grown n0.s out in
        let room0 = length-grown n0.s out h0.full room in
        rw
          (
            prf_lem n0.s h0.full 3 out (omega arith) (omega arith),
            prf_lem n1.s h1.full 3 out0 (omega arith) (omega arith),
            take-append 48 (stream_from 3 0 n0.s) (drop 48 out)
                (omega (arith, length-stream_from 3 0 n0.s h0.full)),
            take-append 48 (stream_from 3 0 n1.s) (drop 48 out0)
                (omega (arith, length-stream_from 3 0 n1.s h1.full)),
            correction_word-level_cw a n0.s n1.s,
            next_node-child a n0.s n1.s n0 h0.is_bit,
            next_node-child a n0.s n1.s n1 h1.is_bit,
          )
          refl
