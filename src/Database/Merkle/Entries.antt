-- ===== src/Database/Merkle/Entries.antt =====
-- What stands in the entries that makeMerkleEntries writes.
use apir_code.Base.{
  length, get_or, take, drop, All, length-append, take-append, drop-append_more, ok, ℕ, zero, suc,
  ◌+◌, ◌*◌, ◌<◌, ◌≡◌, refl, sym, ap, ◌∙◌, true, List, [], ◌∷◌, ◌++◌, arith,
}
use apir_code.Point.{Proofs}
use apir_code.Database.Padding.{pad_with_signal_byte}
use apir_code.Database.Merkle.{Trees, or_fatal, generate_merkle_proofs}

module _ {proofs : Proofs} (trees : Trees proofs) (tree : trees.Tree) where
  -- A block with a proof of the length that the tree announces, which is decoded as it was encoded and
  -- which verifies against the root.
  pub record IsProven (block : List ℕ) : Type 0 where
    pub proof : proofs.Proof
    pub generated : trees.generate_proof tree block ≡ ok proof
    pub announced : length (trees.encode_proof proof) ≡ trees.encoded_proof_length tree
    pub decoded : proofs.decode_proof (trees.encode_proof proof) ≡ proof
    pub verifies : proofs.verify_proof block proof (trees.root tree) ≡ ok true

  -- A block of the entries: the data, its proof and the signal byte.
  abbrev pub signed_block : (block : List ℕ) → IsProven block → List ℕ
  signed_block block proven = block ++ pad_with_signal_byte (trees.encode_proof proven.proof)

  pub length-signed_block :
      (block : List ℕ) (proven : IsProven block)
      → length (signed_block block proven) ≡ length block + trees.encoded_proof_length tree + 1
  unfolding pad_with_signal_byte
  length-signed_block block proven =
      let e = trees.encode_proof proven.proof in
      omega
        (arith, length-append block (e ++ (128 ∷ [])), length-append e (128 ∷ []), proven.announced)

  -- A place in front of the others.
  at_place :
      (block : List ℕ) (blocks : List (List ℕ)) (entries : List ℕ) (size : ℕ)
      (proven : IsProven block)
      → length (signed_block block proven) ≡ size
      → ((i : ℕ)
          → i < length blocks
          → (p : IsProven (get_or blocks i [])) × (take size (drop (i * size) entries)
              ≡ signed_block (get_or blocks i []) p))
      → (i : ℕ) → i < suc (length blocks)
      → (p : IsProven (get_or (block ∷ blocks) i [])) × (take size
            (drop (i * size) (signed_block block proven ++ entries))
          ≡ signed_block (get_or (block ∷ blocks) i []) p)
  at_place block blocks entries size proven same at zero below =
      let front : 0 * size ≡ 0 = omega arith in
      (proven, rw front (take-append size (signed_block block proven) entries (sym same)))
  at_place block blocks entries size proven same at (suc i) below =
      let (p, e) = at i (omega arith) in
      (
        p,
        ap (take size) (
              drop-append_more (signed_block block proven) entries (suc i * size) (i * size)
                (omega arith))
            ∙ e,
      )

  -- The entries hold the blocks one behind the other, each with its proof.
  pub generate_merkle_proofs-signed_block :
      (block_len size : ℕ) (blocks : List (List ℕ))
      → size ≡ block_len + trees.encoded_proof_length tree + 1
      → All IsProven blocks
      → All (λ b. length b ≡ block_len) blocks
      → (entries : List ℕ) × (generate_merkle_proofs trees tree blocks ≡ ok entries)
        × (length entries ≡ length blocks * size)
        × ((i : ℕ)
            → i < length blocks
            → (proven : IsProven (get_or blocks i [])) × (take size (drop (i * size) entries)
                ≡ signed_block (get_or blocks i []) proven))
  unfolding generate_merkle_proofs or_fatal
  generate_merkle_proofs-signed_block block_len size [] e proven len =
      ([], refl, omega arith, λ i h. absurd (omega arith))
  generate_merkle_proofs-signed_block block_len size (block ∷ blocks) e proven len =
      let here = signed_block block proven.0 in
      let same : length here ≡ size = length-signed_block block proven.0 ∙ omega (arith, len.0) in
      let (entries, run, all, at) =
        generate_merkle_proofs-signed_block block_len size blocks e proven.1 len.1 in
      let both = length-append here entries in
      (
        here ++ entries,
        rw (proven.0.generated, run) refl,
        omega arith,
        λ i below. at_place block blocks entries size proven.0 same at i below,
      )
