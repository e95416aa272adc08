-- ===== src/Fss/Walk.antt =====
-- One level of the tree in both programs, in terms of one function: the child of a node under a
-- correction word.
use apir_code.Base.{
  ltb, ◌==◌, if◌then◌else◌, bit_xor-mod_two, xor-zero, bit_xor-lt, bit_xor_cancel, bit_xor_swap,
  length, tabulate, All, length-append, length-tabulate, get_or-tabulate, tabulate_ext,
  get_or-append_left, get_or-append_right, All-tabulate, IsByte, byte_at, get_or-IsByte, ℕ, zero,
  suc, ◌+◌, ◌-◌, ◌*◌, ◌%◌, ◌≤◌, ◌<◌, bit_xor, ◌≡◌, refl, sym, ap, ◌∙◌, ◌⊎◌, Bool, true, false, List,
  [], ◌∷◌, ◌++◌, arith,
}
use apir_code.Fss.{BlockCipher, Node, mul8, bit_of, correct_from}
use apir_code.Fss.Expand.{stream_from, stream_from-IsByte}

pub record IsNode (node : Node) : Type 0 where
  pub full : length node.s ≡ 16
  pub seed_bytes : All IsByte node.s
  pub is_bit : node.t < 2

-- The place in a correction word that belongs to place `j` of the expanded seed.
abbrev pub slot : ℕ → ℕ
slot j = if ltb j 17 then j else if ltb j 33 then j - 17 else 17

pub correct_from_at :
    (left j count k t : ℕ) (cw out : List ℕ)
    → j + left ≤ 34
    → (j ≡ 17) ⊎ ((j ≡ 33) ⊎ (count ≡ slot j))
    → k < left
    → byte_at (correct_from left j count t cw out) k
      ≡ bit_xor (byte_at out (j + k)) (mul8 t (byte_at cw (slot (j + k))))
unfolding correct_from
correct_from_at zero j count k t cw out h c lt = absurd (omega arith)
correct_from_at (suc left) j count zero t cw out h c lt =
    let e : j + 0 ≡ j = omega arith in rw e (ground arith)
correct_from_at (suc left) j count (suc k) t cw out h c lt =
    let e : j + suc k ≡ suc j + k = omega arith in
    rw e (correct_from_at left (suc j) _ k t cw out (omega arith) (ground arith) (omega arith))

-- The control bits `t0` and `t1` differ, and `c` is the bit of the correction word.
keep_bits :
    (g0 g1 c t0 t1 : ℕ)
    → t0 + t1 ≡ 1
    → c ≡ (g0 + g1 + 1) % 2
    → bit_xor g0 (mul8 t0 c) % 2 + bit_xor g1 (mul8 t1 c) % 2 ≡ 1
keep_bits g0 g1 c zero t1 e h =
    let e' : t1 ≡ 1 = omega arith in
    rw e' (omega (arith, bit_xor-mod_two g0 (0 * c % 256), bit_xor-mod_two g1 (1 * c % 256)))
keep_bits g0 g1 c (suc zero) zero e h =
    omega (arith, bit_xor-mod_two g0 (1 * c % 256), bit_xor-mod_two g1 (0 * c % 256))
keep_bits g0 g1 c (suc zero) (suc t1) e h = absurd (omega arith)
keep_bits g0 g1 c (suc (suc t0)) t1 e h = absurd (omega arith)

lose_bits :
    (g0 g1 c t0 t1 : ℕ)
    → t0 + t1 ≡ 1
    → c ≡ (g0 + g1) % 2
    → bit_xor g0 (mul8 t0 c) % 2 ≡ bit_xor g1 (mul8 t1 c) % 2
lose_bits g0 g1 c zero t1 e h =
    let e' : t1 ≡ 1 = omega arith in
    rw e' (omega (arith, bit_xor-mod_two g0 (0 * c % 256), bit_xor-mod_two g1 (1 * c % 256)))
lose_bits g0 g1 c (suc zero) zero e h =
    omega (arith, bit_xor-mod_two g0 (1 * c % 256), bit_xor-mod_two g1 (0 * c % 256))
lose_bits g0 g1 c (suc zero) (suc t1) e h = absurd (omega arith)
lose_bits g0 g1 c (suc (suc t0)) t1 e h = absurd (omega arith)

lose_seed :
    (g0 g1 t0 t1 : ℕ)
    → IsByte g0
    → IsByte g1
    → t0 + t1 ≡ 1
    → bit_xor g0 (mul8 t0 (bit_xor g0 g1)) ≡ bit_xor g1 (mul8 t1 (bit_xor g0 g1))
lose_seed g0 g1 zero t1 h0 h1 e =
    let c = bit_xor g0 g1 in
    let one : mul8 t1 c ≡ c =
      let e' : t1 ≡ 1 = omega arith in rw e' (omega (arith, bit_xor-lt 8 g0 g1 h0 h1)) in
    rw (one, bit_xor_swap g0 g1) (ap (bit_xor g0) (omega arith) ∙ xor-zero g0)
lose_seed g0 g1 (suc zero) zero h0 h1 e =
    let c = bit_xor g0 g1 in
    let one : mul8 1 c ≡ c = omega (arith, bit_xor-lt 8 g0 g1 h0 h1) in
    rw (one, bit_xor_cancel g0 g1) (sym (ap (bit_xor g1) (omega arith) ∙ xor-zero g1))
lose_seed g0 g1 (suc zero) (suc t1) h0 h1 e = absurd (omega arith)
lose_seed g0 g1 (suc (suc t0)) t1 h0 h1 e = absurd (omega arith)

pub length-correct_from :
    (left j count t : ℕ) (cw out : List ℕ) → length (correct_from left j count t cw out) ≡ left
unfolding correct_from
length-correct_from zero j count t cw out = refl
length-correct_from (suc left) j count t cw out =
    ap suc (length-correct_from left (suc j) _ t cw out)

module _ ⦃aes : BlockCipher⦄ where
  -- Byte `j` of the expanded seed.
  unfoldable pub expand_at : List ℕ → ℕ → ℕ
  expand_at s j = byte_at (stream_from 3 0 s) j

  pub expand_at-IsByte : (s : List ℕ) (j : ℕ) → All IsByte s → IsByte (expand_at s j)
  unfolding expand_at
  expand_at-IsByte s j h = get_or-IsByte _ j (stream_from-IsByte 3 0 s h)

  -- Where the half of the expanded seed for a bit begins.
  abbrev pub half_start : ℕ → ℕ
  half_start bit = if bit == 0 then 0 else 17

  unfoldable pub child : ℕ → List ℕ → Node → Node
  child bit cw node = record {
    s =
        tabulate 16
          (λ j. bit_xor (expand_at node.s (half_start bit + j)) (mul8 node.t (byte_at cw j)));
    t = bit_xor (expand_at node.s (half_start bit + 16)) (mul8 node.t (byte_at cw (16 + bit))) % 2;
  }

  -- The correction word of a level, for the bit `a`.
  unfoldable pub level_cw : Bool → List ℕ → List ℕ → List ℕ
  level_cw a s0 s1 =
      let lose = half_start (1 - bit_of a) in
      tabulate 16 (λ j. bit_xor (expand_at s0 (lose + j)) (expand_at s1 (lose + j)))
      ++ ((expand_at s0 16 + expand_at s1 16 + bit_of a + 1) % 2
          ∷ (expand_at s0 33 + expand_at s1 33 + bit_of a) % 2
          ∷ [])

  module _ (a : Bool) (s0 s1 : List ℕ) where
    abbrev pub lost_half : ℕ
    lost_half = half_start (1 - bit_of a)

    pub level_cw_seed :
        (j : ℕ)
        → j < 16
        → byte_at (level_cw a s0 s1) j
          ≡ bit_xor (expand_at s0 (lost_half + j)) (expand_at s1 (lost_half + j))
    unfolding level_cw
    level_cw_seed j h =
        let f : ℕ → ℕ =
          λ i. bit_xor (expand_at s0 (lost_half + i)) (expand_at s1 (lost_half + i)) in
        let e = length-tabulate 16 f in
        get_or-append_left (tabulate 16 f) _ j 0 (omega arith) ∙ get_or-tabulate 16 j f 0 h

    pub level_cw_left :
        byte_at (level_cw a s0 s1) 16 ≡ (expand_at s0 16 + expand_at s1 16 + bit_of a + 1) % 2
    unfolding level_cw
    level_cw_left =
        get_or-append_right (tabulate 16 _) _ 16 0 0 (omega (arith, length-tabulate {0}))

    pub level_cw_right :
        byte_at (level_cw a s0 s1) 17 ≡ (expand_at s0 33 + expand_at s1 33 + bit_of a) % 2
    unfolding level_cw
    level_cw_right =
        get_or-append_right (tabulate 16 _) _ 17 1 0 (omega (arith, length-tabulate {0}))

    pub length-level_cw : length (level_cw a s0 s1) ≡ 18
    unfolding level_cw
    length-level_cw = length-append (tabulate 16 _) _ ∙ omega (arith, length-tabulate {0})

  pub child-IsNode :
      (bit : ℕ) (cw : List ℕ) {node : Node} → IsNode node → IsNode (child bit cw node)
  unfolding child
  child-IsNode bit cw {node} h = record {
    full = length-tabulate 16 _;
    seed_bytes = All-tabulate IsByte 16 _ (λ j.
        bit_xor-lt 8 (expand_at node.s (half_start bit + j)) (mul8 node.t (byte_at cw j))
          (expand_at-IsByte node.s (half_start bit + j) h.seed_bytes) (omega arith));
    is_bit = omega arith;
  }

  -- On the side of the bit the two children differ in their control bits.
  pub child_keep :
      (a : Bool) (s0 s1 : List ℕ) (t0 t1 : ℕ)
      → t0 + t1 ≡ 1
      → (child (bit_of a) (level_cw a s0 s1) (record { s = s0; t = t0 })).t
          + (child (bit_of a) (level_cw a s0 s1) (record { s = s1; t = t1 })).t
        ≡ 1
  unfolding child
  child_keep false s0 s1 t0 t1 e =
      keep_bits (expand_at s0 16) (expand_at s1 16) _ t0 t1 e
        (level_cw_left false s0 s1 ∙ omega arith)
  child_keep true s0 s1 t0 t1 e =
      keep_bits (expand_at s0 33) (expand_at s1 33) _ t0 t1 e
        (level_cw_right true s0 s1 ∙ omega arith)

  child_lose_bit :
      (a : Bool) (s0 s1 : List ℕ) (t0 t1 : ℕ)
      → t0 + t1 ≡ 1
      → (child (1 - bit_of a) (level_cw a s0 s1) (record { s = s0; t = t0 })).t
        ≡ (child (1 - bit_of a) (level_cw a s0 s1) (record { s = s1; t = t1 })).t
  unfolding child
  child_lose_bit false s0 s1 t0 t1 e =
      lose_bits (expand_at s0 33) (expand_at s1 33) _ t0 t1 e
        (level_cw_right false s0 s1 ∙ omega arith)
  child_lose_bit true s0 s1 t0 t1 e =
      lose_bits (expand_at s0 16) (expand_at s1 16) _ t0 t1 e
        (level_cw_left true s0 s1 ∙ omega arith)

  -- On the other side they are one node.
  pub child_lose :
      (a : Bool) (s0 s1 : List ℕ) (t0 t1 : ℕ)
      → All IsByte s0
      → All IsByte s1
      → t0 + t1 ≡ 1
      → child (1 - bit_of a) (level_cw a s0 s1) (record { s = s0; t = t0 })
        ≡ child (1 - bit_of a) (level_cw a s0 s1) (record { s = s1; t = t1 })
  child_lose a s0 s1 t0 t1 h0 h1 e =
      λ i. record { s = seeds i; t = child_lose_bit a s0 s1 t0 t1 e i }
    where
      seeds :
          (child (1 - bit_of a) (level_cw a s0 s1) (record { s = s0; t = t0 })).s
          ≡ (child (1 - bit_of a) (level_cw a s0 s1) (record { s = s1; t = t1 })).s
      seeds =
          unfold child in
          tabulate_ext 16 _ _ (λ j h. rw (level_cw_seed a s0 s1 j h) (
            lose_seed (expand_at s0 (half_start (1 - bit_of a) + j))
              (expand_at s1 (half_start (1 - bit_of a) + j)) t0 t1 (expand_at-IsByte s0 _ h0)
              (expand_at-IsByte s1 _ h1) e))
