-- ===== src/Fss.antt =====
-- lib/fss/common.go, client.go and server.go: the two-party point function.
-- AES is the interface `BlockCipher`, and fastxor the interface `FastXor`. The slices `Out` and
-- `OutConvertBlock`, which the calls of one `Fss` share, are fields that each call returns anew; `Temp`
-- is overwritten before it is read. `draws` is what the random reader of toElement will return.
pub mod Expand
pub mod Convert
pub mod Walk
pub mod Levels
pub mod Generate
pub mod Tree
pub mod Shares
pub mod Keys
pub mod Correct
use apir_code.Base.{
  ◌>>=◌, ltb, ◌==◌, if◌then◌else◌, length, get_elem?, take, drop, replicate, tabulate, All, IsByte,
  u32, byte_at, Bytes4, Result, or_panic, ok, panic, FastXor, ℕ, zero, suc, ◌+◌, ◌-◌, ◌*◌, ◌/◌, ◌%◌,
  ◌^◌, bit_xor, ◌≡◌, Bool, true, false, List, [], ◌∷◌, ◌++◌, map,
}
use apir_code.Field.{mod_p, bytes_to_elements}

-- crypto/aes: the block that the cipher with a given key writes for a source block.
pub record BlockCipher : Type 0 where
  pub encrypt : List ℕ → List ℕ → List ℕ
  pub length-encrypt : (key src : List ℕ) → length (encrypt key src) ≡ 16
  pub encrypt-IsByte : (key src : List ℕ) → All IsByte (encrypt key src)

abbrev pub prf_keys : List (List ℕ)
prf_keys =
    (2 ∷ 16 ∷ 223 ∷ 155 ∷ 240 ∷ 218 ∷ 18 ∷ 217 ∷ 66 ∷ 61 ∷ 95 ∷ 162 ∷ 213 ∷ 195 ∷ 169 ∷ 50 ∷ [])
    ∷ (130 ∷ 178 ∷ 43 ∷ 30 ∷ 226 ∷ 225 ∷ 106 ∷ 13 ∷ 196 ∷ 22 ∷ 96 ∷ 191 ∷ 75 ∷ 100 ∷ 87 ∷ 221 ∷ [])
    ∷ (227 ∷ 121 ∷ 10 ∷ 139 ∷ 215 ∷ 136 ∷ 201 ∷ 227 ∷ 253 ∷ 210 ∷ 170 ∷ 246 ∷ 215 ∷ 213 ∷ 65 ∷ 69
        ∷ [])
    ∷ (49 ∷ 194 ∷ 90 ∷ 224 ∷ 41 ∷ 253 ∷ 48 ∷ 252 ∷ 55 ∷ 167 ∷ 51 ∷ 93 ∷ 246 ∷ 176 ∷ 38 ∷ 220 ∷ [])
    ∷ []

pub record Fss : Type 0 where
  pub fixed_blocks : List (List ℕ → List ℕ)
  pub n : ℕ
  pub num_bits : ℕ
  pub out : List ℕ
  pub block_length : ℕ
  pub out_convert_block : List ℕ
  pub draws : List Bytes4

pub record FssKeyEq2P : Type 0 where
  pub s_init : List ℕ
  pub t_init : ℕ
  pub cw : List (List ℕ)
  pub final_cw : List ℕ

-- A seed and its control bit: sCurr and tCurr.
pub record Node : Type 0 where
  pub s : List ℕ
  pub t : ℕ

-- The product of two bytes.
abbrev pub mul8 : ℕ → ℕ → ℕ
mul8 a b = a * b % 256

abbrev pub bit_of : Bool → ℕ
bit_of true = 1
bit_of false = 0

-- ClientInitialize takes the first four keys, ServerInitialize all of them; there are four.
pub client_initialize : ⦃aes : BlockCipher⦄ → ℕ → List Bytes4 → Fss
client_initialize ⦃aes⦄ block_length draws = record {
  fixed_blocks = map aes.encrypt (take 4 prf_keys);
  n = 256;
  num_bits = 0;
  out = replicate (16 * 4) 0;
  block_length = block_length;
  out_convert_block = replicate (block_length * 4) 0;
  draws = draws;
}

pub server_initialize : ⦃aes : BlockCipher⦄ → ℕ → List Bytes4 → Fss
server_initialize ⦃aes⦄ block_length draws = record {
  fixed_blocks = map aes.encrypt prf_keys;
  n = 256;
  num_bits = 0;
  out = replicate (16 * length prf_keys) 0;
  block_length = 0;
  out_convert_block = replicate (block_length * 4) 0;
  draws = draws;
}

-- One place of FinalCW; `t1` is tCurr1.
pub final_word : ℕ → ℕ → ℕ → ℕ → ℕ
final_word b tmp0 tmp1 t1 =
    let val = u32 (b + u32 (mod_p + 2 ^ 32 - tmp0)) % mod_p in
    let val' = u32 (val + tmp1) % mod_p in if t1 == 1 then u32 (mod_p + 2 ^ 32 - val') else val'

-- The loop of EvaluatePF that applies the correction word, from place `j` on: `count` is the place
-- in the correction word, and is set back where the second seed and the last bit begin.
pub correct_from : ℕ → ℕ → ℕ → ℕ → List ℕ → List ℕ → List ℕ
correct_from zero j count t cw out = []
correct_from (suc left) j count t cw out =
    let count' : ℕ = if j == 17 then 0 else if j == 33 then 17 else count in
    bit_xor (byte_at out j) (mul8 t (byte_at cw count'))
    ∷ correct_from left (suc j) (count' + 1) t cw out

-- The copy of SInit into 16 bytes: a longer one is cut, and zeros stay behind a shorter one.
unfoldable pub seed_copy : List ℕ → List ℕ
seed_copy s_init = take 16 (s_init ++ replicate 16 0)

-- One place of the output of a server.
pub output_word : ℕ → ℕ → ℕ → ℕ → ℕ
output_word server_num tmp t final =
    let v = u32 (tmp + u32 (t * final)) % mod_p in
    if server_num == 0 then v else u32 (mod_p + 2 ^ 32 - v)

-- Where the half of the expanded seeds begins that is kept, and the one that is lost.
abbrev pub keep_start : Bool → ℕ
keep_start a = if bit_of a == 0 then 0 else 17

abbrev pub lose_start : Bool → ℕ
lose_start a = if bit_of a == 0 then 17 else 0

-- The correction word of a level of GenerateTreePF.
pub correction_word : Bool → List ℕ → List ℕ → List ℕ
correction_word a prf_out0 prf_out1 =
    let t0_left = byte_at prf_out0 16 % 2 in
    let t0_right = byte_at prf_out0 33 % 2 in
    let t1_left = byte_at prf_out1 16 % 2 in
    let t1_right = byte_at prf_out1 33 % 2 in
    let lose = lose_start a in
    tabulate 16 (λ j. bit_xor (byte_at prf_out0 (lose + j)) (byte_at prf_out1 (lose + j)))
    ++ (bit_xor (bit_xor (bit_xor t0_left t1_left) (bit_of a)) 1
        ∷ bit_xor (bit_xor t0_right t1_right) (bit_of a)
        ∷ [])

-- The next sCurr and tCurr of one side.
pub next_node : Bool → List ℕ → List ℕ → ℕ → Node
next_node a cw prf_out t =
    let keep = keep_start a in
    let t_cw_keep = if keep == 17 then byte_at cw 17 else byte_at cw 16 in
    record {
      s = tabulate 16 (λ j. bit_xor (byte_at prf_out (keep + j)) (mul8 t (byte_at cw j)));
      t = bit_xor (byte_at prf_out (keep + 16) % 2) (mul8 t_cw_keep t);
    }

module _ ⦃fx : FastXor⦄ where
  -- The loop of prf from block `i` on, with `left` blocks to write.
  pub prf_loop : List ℕ → List (List ℕ → List ℕ) → ℕ → ℕ → List ℕ → Result (List ℕ)
  prf_loop x blocks zero i out = ok out
  prf_loop x blocks (suc left) i out = do
    encrypt ← or_panic (get_elem? blocks i)
    out' ←
        if ltb (length out) (i * 16)
        then panic
        else ok (take (i * 16) out ++ fx.bytes (drop (i * 16) out) (encrypt x) x)
    prf_loop x blocks left (suc i) out'

  pub prf : List ℕ → List (List ℕ → List ℕ) → ℕ → List ℕ → Result (List ℕ)
  prf x blocks num_blocks out = prf_loop x blocks num_blocks 0 out

  -- `convertBlock(f, x, out)` for a slice `out` of `len` elements.
  pub convert_block : Fss → List ℕ → ℕ → Result (List ℕ × Fss)
  convert_block f x len = do
    buf ← prf x f.fixed_blocks (len / 4) f.out_convert_block
    (values, buf', draws) ← bytes_to_elements len buf f.draws
    ok (values, record f { out_convert_block = buf'; draws = draws })

  -- One round of the loop of GenerateTreePF: both nodes, the correction word of the level, and f.Out.
  pub generate_level :
      List (List ℕ → List ℕ) → Bool → Node → Node → List ℕ → Result (List ℕ × Node × Node × List ℕ)
  generate_level blocks a n0 n1 out = do
    out0 ← prf n0.s blocks 3 out
    out1 ← prf n1.s blocks 3 out0
    let prf_out0 = take 48 out0
    let prf_out1 = take 48 out1
    let cw = correction_word a prf_out0 prf_out1
    ok (cw, next_node a cw prf_out0 n0.t, next_node a cw prf_out1 n1.t, out1)

  -- The loop of GenerateTreePF over the bits of `a`: the correction words and the last nodes.
  pub generate_levels :
      List (List ℕ → List ℕ)
      → List Bool
      → Node
      → Node
      → List ℕ
      → Result (List (List ℕ) × Node × Node × List ℕ)
  generate_levels blocks [] n0 n1 out = ok ([], n0, n1, out)
  generate_levels blocks (a ∷ rest) n0 n1 out = do
    (cw, n0', n1', out') ← generate_level blocks a n0 n1 out
    (cws, m0, m1, out'') ← generate_levels blocks rest n0' n1' out'
    ok (cw ∷ cws, m0, m1, out'')

  -- GenerateTreePF: `rand0` and `rand1` are what the two calls of rand.Read store, 17 and 16 bytes. NumBits is
  -- set on a copy of the Fss, and that of the caller stays.
  pub generate_tree_pf :
      Fss → List ℕ → List ℕ → List Bool → List ℕ → Result (FssKeyEq2P × FssKeyEq2P × Fss)
  generate_tree_pf f rand0 rand1 a b = do
    let t_init0 = byte_at rand0 16 % 2
    let t_init1 = bit_xor t_init0 1
    let s_init0 = take 16 rand0
    let root0 : Node = record { s = s_init0; t = t_init0 }
    let root1 : Node = record { s = rand1; t = t_init1 }
    (cws, n0, n1, out) ← generate_levels f.fixed_blocks a root0 root1 f.out
    let f1 = record f { num_bits = length a; out = out }
    (tmp0, f2) ← convert_block f1 n0.s (length b)
    (tmp1, f3) ← convert_block f2 n1.s (length b)
    let final_cw =
        tabulate (length b) (λ i. final_word (byte_at b i) (byte_at tmp0 i) (byte_at tmp1 i) n1.t)
    let key0 : FssKeyEq2P = record {
      s_init = s_init0;
      t_init = t_init0;
      cw = cws;
      final_cw = final_cw;
    }
    let key1 : FssKeyEq2P = record {
      s_init = rand1;
      t_init = t_init1;
      cw = cws;
      final_cw = final_cw;
    }
    ok (key0, key1, record f3 { num_bits = f.num_bits })

  -- One round of the loop of EvaluatePF; `x_bit` is xBit.
  pub evaluate_level : List (List ℕ → List ℕ) → ℕ → List ℕ → Node → List ℕ → Result (Node × List ℕ)
  evaluate_level blocks x_bit cw node out = do
    out' ← prf node.s blocks 3 out
    ok (
        let out'' = correct_from 34 0 0 node.t cw out' ++ drop 34 out' in
        let left : Node = record { s = take 16 out''; t = byte_at out'' 16 % 2 } in
        let right : Node = record { s = take 16 (drop 17 out''); t = byte_at out'' 33 % 2 } in
        (if x_bit == 0 then left else right, out''))

  -- The loop over the bits of `x` from place `i` on. A correction word that is missing or shorter
  -- than 18 bytes panics; the bit at place `n`, that is f.N, is not read.
  pub evaluate_levels :
      List (List ℕ → List ℕ)
      → ℕ
      → ℕ
      → List Bool
      → List (List ℕ)
      → Node
      → List ℕ
      → Result (Node × List ℕ)
  evaluate_levels blocks n i [] cws node out = ok (node, out)
  evaluate_levels blocks n i (x ∷ xs) [] node out = panic
  evaluate_levels blocks n i (x ∷ xs) (cw ∷ cws) node out =
      let x_bit : ℕ = if i == n then 0 else bit_of x in
      do
        (node', out') ←
            if ltb (length cw) 18 then panic else evaluate_level blocks x_bit cw node out
        evaluate_levels blocks n (suc i) xs cws node' out'

  -- EvaluatePF for an `out` of `len` elements. Like GenerateTreePF it has its own copy of the Fss, so that
  -- NumBits of the caller stays; the slices are shared.
  pub evaluate_pf : Fss → ℕ → FssKeyEq2P → List Bool → ℕ → Result (List ℕ × Fss)
  evaluate_pf f server_num k x len = do
    let root : Node = record { s = seed_copy k.s_init; t = k.t_init }
    (node, out) ← evaluate_levels f.fixed_blocks f.n 0 x k.cw root f.out
    let f1 = record f { num_bits = length x; out = out }
    (tmp, f2) ← convert_block f1 node.s len
    if ltb (length k.final_cw) len
        then panic
        else ok (
          tabulate len (λ i. output_word server_num (byte_at tmp i) node.t (byte_at k.final_cw i)),
          record f2 { num_bits = f.num_bits },
        )
