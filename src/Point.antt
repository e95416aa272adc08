-- ===== src/Point.antt =====
-- lib/client/pir_point.go, lib/server/point.go and lib/client/client.go: point queries for more than two
-- servers, by exclusive or. For two servers the keys of github.com/dkales/dpf-go take the place of the
-- vectors; that package is the parameter `PointKeys`.
pub mod Sharing
pub mod Bits
pub mod Rows
pub mod Answers
pub mod Retrieve
pub mod Scheme
pub mod Merkle
use apir_code.Database.Padding.{un_pad_block}
use apir_code.Database.Bytes.{BytesDb, sum_lengths}
use apir_code.Utils.Encoding.{vector_to_matrix_indices}
use apir_code.Base.{
  ◌>>=◌, slice, big_endian, err, reject, stuck, ltb, ◌==◌, if◌then◌else◌, length, get_elem?, set,
  take, drop, replicate, Result, or_panic, ok, panic, FastXor, ℕ, zero, suc, ◌+◌, ◌-◌, ◌*◌, ◌/◌,
  ◌%◌, ◌^◌, Bool, List, [], ◌∷◌, ◌++◌,
}

-- dpf.Gen, which makes two keys for an index, and dpf.EvalFull; both take the bits of the domain.
pub record PointKeys : Type 0 where
  pub gen : ℕ → ℕ → List ℕ × List ℕ
  pub eval_full : List ℕ → ℕ → List ℕ

-- math/bits.Len
pub bits_len : ℕ → ℕ → ℕ
bits_len zero n = 0
bits_len (suc fuel) n = let rest = bits_len fuel (n / 2) in if n == 0 then 0 else suc rest

module _ ⦃fx : FastXor⦄ where
  -- secretShare for `k + 1` servers: `rand` is what the reader stores for the first `k`. The vector of
  -- the last server begins with the one bit of the column.
  unfoldable pub share_from : ℕ → ℕ → List ℕ → List ℕ → List (List ℕ)
  share_from vector_len zero rand last = last ∷ []
  share_from vector_len (suc k) rand last =
      let v = take vector_len rand in
      v ∷ share_from vector_len k (drop vector_len rand) (fx.bytes last last v)

  -- The queried column is one of the vector's, so that the store has a place.
  unfoldable pub unit_vector : ℕ → ℕ → List ℕ
  unit_vector vector_len iy = set (replicate vector_len 0) (iy / 8) (2 ^ (iy % 8))

  unfoldable pub secret_share : ℕ → ℕ → ℕ → List ℕ → List (List ℕ)
  secret_share num_columns num_servers iy rand =
      let vector_len = num_columns / 8 + 1 in
      share_from vector_len (num_servers - 1) rand (unit_vector vector_len iy)

  -- `(q[j/8] >> (j%8)) & 1 == 1`
  unfoldable pub query_bit : List ℕ → ℕ → Result Bool
  query_bit q j = do byte ← or_panic (get_elem? q (j / 8)); ok (byte / 2 ^ (j % 8) % 2 == 1)

  -- xorValues from block `j` on, at byte `pos` of the entries.
  unfoldable pub xor_values : List ℕ → List ℕ → List ℕ → ℕ → ℕ → List ℕ → Result (List ℕ)
  xor_values entries [] q j pos out = ok out
  xor_values entries (len ∷ lens) q j pos out = do
    bit ← query_bit q j
    block ← if bit then slice entries pos (pos + len) else ok []
    xor_values entries lens q (suc j) (pos + len) (if bit then fx.bytes out out block else out)

  -- The loop of Answer over the rows, where each row of `out` has `block_size` bytes.
  unfoldable pub answer_rows : BytesDb → List ℕ → ℕ → ℕ → ℕ → Result (List ℕ)
  answer_rows db q zero i prev_pos = ok []
  answer_rows db q (suc left) i prev_pos = do
    lens ← slice db.block_lengths (i * db.num_columns) ((i + 1) * db.num_columns)
    let next_pos = prev_pos + sum_lengths lens
    row ← slice db.entries prev_pos next_pos
    out ← xor_values row lens q 0 0 (replicate db.block_size 0)
    outs ← answer_rows db q left (suc i) next_pos
    ok (out ++ outs)

  unfoldable pub point_answer : PointKeys → BytesDb → ℕ → List ℕ → Result (List ℕ)
  point_answer keys db num_servers q =
      let q' =
        if num_servers == 2
        then keys.eval_full q (bits_len (suc db.num_columns) db.num_columns)
        else q in
      answer_rows db q' db.num_rows 0 0

  -- reconstructValuePIR
  unfoldable pub reconstruct_value_pir : List (List ℕ) → ℕ → ℕ → List ℕ → Result (List ℕ)
  reconstruct_value_pir [] bs ix sum = ok sum
  reconstruct_value_pir (a ∷ answers) bs ix sum = do
    block ← slice a (ix * bs) (bs * (ix + 1))
    reconstruct_value_pir answers bs ix (fx.bytes sum sum block)

  -- Query, for an index that is not negative: the two indices that the state keeps, and what is sent.
  -- The test of the inputs lets every number of servers pass for such an index.
  unfoldable pub point_query : PointKeys → ℕ → ℕ → ℕ → List ℕ → Result (List (List ℕ) × ℕ × ℕ)
  point_query keys num_columns index num_servers rand =
      let (ix, iy) = vector_to_matrix_indices index num_columns in
      let (k0, k1) = keys.gen iy (bits_len (suc num_columns) num_columns) in
      if num_columns == 0
      then panic
      else if num_servers == 2
      then ok (k0 ∷ k1 ∷ [], ix, iy)
      else if num_servers == 0
      then panic
      else ok (secret_share num_columns num_servers iy rand, ix, iy)

  -- QueryBytes: the index is the first four bytes, and fewer panic.
  pub point_query_bytes : PointKeys → ℕ → List ℕ → ℕ → List ℕ → Result (List (List ℕ) × ℕ × ℕ)
  point_query_bytes keys num_columns (b0 ∷ b1 ∷ b2 ∷ b3 ∷ bytes) num_servers rand =
      let index = big_endian (record { b0 = b0; b1 = b1; b2 = b2; b3 = b3 }) in
      point_query keys num_columns index num_servers rand
  point_query_bytes keys num_columns bytes num_servers rand = panic

-- The Merkle proofs of the package merkle.
pub record Proofs : Type 1 where
  pub Proof : Type 0
  pub decode_proof : List ℕ → Proof
  pub verify_proof : List ℕ → Proof → List ℕ → Result Bool

-- The kinds of database that reconstructPIR knows: "classical" and the empty string are the first.
pub data PirType : Type 0 where
  classical_type merkle_type other_type : PirType

-- The block without its proof, if that verifies. log.Fatalf, for an error of the verification, and a
-- block shorter than the proof are `panic`.
unfoldable pub verified_data : Proofs → ℕ → List ℕ → List ℕ → Result (List ℕ)
verified_data proofs proof_len root padded =
    let data' = take (length padded - proof_len) padded in
    let proof = proofs.decode_proof (drop (length padded - proof_len) padded) in
    if ltb (length padded) proof_len then panic else elim (proofs.verify_proof data' proof root) [
      | ok verified ↦ if verified then ok data' else err reject
      | err e ↦ panic
      | panic ↦ panic
      | stuck ↦ stuck
    ]

-- reconstructPIR
unfoldable pub reconstruct_pir :
    ⦃fx : FastXor⦄ → Proofs → PirType → ℕ → List ℕ → List (List ℕ) → ℕ → ℕ → Result (List ℕ)
reconstruct_pir proofs classical_type proof_len root answers bs ix =
    reconstruct_value_pir answers bs ix (replicate bs 0)
reconstruct_pir proofs merkle_type proof_len root answers bs ix = do
  block ← reconstruct_value_pir answers bs ix (replicate bs 0)
  padded ← un_pad_block block
  verified_data proofs proof_len root padded
reconstruct_pir proofs other_type proof_len root answers bs ix = panic
