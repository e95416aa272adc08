-- ===== src/Fss/Convert.antt =====
-- convertBlock: what it stores, and what it keeps of the `Fss` that it works in.
use apir_code.Base.{
  length, drop, replicate, All, length-append, length-replicate, drop-append, IsByte, byte_at,
  All-append, ok, FastXor, ℕ, zero, suc, ◌+◌, ◌-◌, ◌*◌, ◌/◌, ◌%◌, ◌≤◌, ◌<◌, ◌≡◌, refl, ap, ap₂, ◌∙◌,
  List, [], ◌∷◌, ◌++◌, arith,
}
use apir_code.Field.{mod_p, mask_top}
use apir_code.Field.Vectors.{
  element_values, masked_bytes, IsClean, bytes_to_elements_clean, length-element_values,
  length-masked_bytes, element_values-lt,
}
use apir_code.Fss.{BlockCipher, Fss, convert_block}
use apir_code.Fss.Expand.{
  standard_blocks, stream_from, length-stream_from, stream_from-IsByte, prf_lem,
}

abbrev pub zeros : ℕ → List ℕ
zeros n = replicate n 0

replicate_four : (r : ℕ) → zeros (4 * suc r) ≡ 0 ∷ 0 ∷ 0 ∷ 0 ∷ zeros (4 * r)
replicate_four r =
    let e : 4 * suc r ≡ suc (suc (suc (suc (4 * r)))) = omega arith in ap (λ (k : ℕ). zeros k) e

masked_bytes-zeros : (r : ℕ) → masked_bytes r (zeros (4 * r)) ≡ zeros (4 * r)
unfolding masked_bytes mask_top
masked_bytes-zeros zero = refl
masked_bytes-zeros (suc r) = rw (replicate_four r, masked_bytes-zeros r)

element_values-zeros : (r j : ℕ) → byte_at (element_values r (zeros (4 * r))) j ≡ 0
unfolding element_values mask_top
element_values-zeros zero j = refl
element_values-zeros (suc r) zero = rw (replicate_four r)
element_values-zeros (suc r) (suc j) = rw (replicate_four r) (element_values-zeros r j)

-- The first `m` groups and the others are converted apart.
module _ (r : ℕ) where
  drop-masked_bytes :
      (m : ℕ) (bytes : List ℕ)
      → 4 * m ≤ length bytes
      → drop (4 * m) (masked_bytes (m + r) bytes) ≡ masked_bytes r (drop (4 * m) bytes)
  unfolding masked_bytes
  drop-masked_bytes zero bytes h = ap (λ (k : ℕ). masked_bytes k bytes) (omega arith)
  drop-masked_bytes (suc m) (b0 ∷ b1 ∷ b2 ∷ b3 ∷ bytes) h =
      let e : 4 * suc m ≡ suc (suc (suc (suc (4 * m)))) = omega arith in
      let e' : suc m + r ≡ suc (m + r) = omega arith in
      rw (e, e') (drop-masked_bytes m bytes (omega arith))
  drop-masked_bytes (suc m) [] h = absurd (omega arith)
  drop-masked_bytes (suc m) (b0 ∷ []) h = absurd (omega arith)
  drop-masked_bytes (suc m) (b0 ∷ b1 ∷ []) h = absurd (omega arith)
  drop-masked_bytes (suc m) (b0 ∷ b1 ∷ b2 ∷ []) h = absurd (omega arith)

  element_values_behind :
      (m j : ℕ) (bytes : List ℕ)
      → 4 * m ≤ length bytes
      → byte_at (element_values (m + r) bytes) (m + j)
        ≡ byte_at (element_values r (drop (4 * m) bytes)) j
  unfolding element_values
  element_values_behind zero j bytes h =
      ap₂ (λ (k i : ℕ). byte_at (element_values k bytes) i) (omega arith) (omega arith)
  element_values_behind (suc m) j (b0 ∷ b1 ∷ b2 ∷ b3 ∷ bytes) h =
      let e : 4 * suc m ≡ suc (suc (suc (suc (4 * m)))) = omega arith in
      let e' : suc m + r ≡ suc (m + r) = omega arith in
      let e'' : suc m + j ≡ suc (m + j) = omega arith in
      rw (e, e', e'') (element_values_behind m j bytes (omega arith))
  element_values_behind (suc m) j [] h = absurd (omega arith)
  element_values_behind (suc m) j (b0 ∷ []) h = absurd (omega arith)
  element_values_behind (suc m) j (b0 ∷ b1 ∷ []) h = absurd (omega arith)
  element_values_behind (suc m) j (b0 ∷ b1 ∷ b2 ∷ []) h = absurd (omega arith)

module _ ⦃aes : BlockCipher⦄ where
  -- The bytes that convertBlock turns into elements: whole cipher blocks, and zeros.
  abbrev pub leaf_bytes : ℕ → List ℕ → List ℕ
  leaf_bytes len s = stream_from (len / 4) 0 s ++ zeros (4 * (len % 4))

  unfoldable pub leaf_words : ℕ → List ℕ → List ℕ
  leaf_words len s = element_values len (leaf_bytes len s)

  -- No group of the leaf stands for ModP, so nothing is drawn for it.
  abbrev pub IsCleanLeaf : ℕ → List ℕ → Type 0
  IsCleanLeaf len s = IsClean len (leaf_bytes len s)

  -- What both sides keep of an `Fss` between the calls for outputs of `len` elements.
  pub record IsReady (len : ℕ) (f : Fss) : Type 0 where
    pub blocks : f.fixed_blocks ≡ standard_blocks
    pub bits : f.n ≡ 256
    pub out_length : length f.out ≡ 64
    pub buffer_length : length f.out_convert_block ≡ 4 * len
    pub zeros_behind : drop (16 * (len / 4)) f.out_convert_block ≡ zeros (4 * (len % 4))

  -- A walk over the bits writes f.Out, and its length stays.
  pub walked-IsReady :
      {len : ℕ} {f : Fss} (bits : ℕ) (out : List ℕ)
      → IsReady len f
      → length out ≡ 64
      → IsReady len (record f { num_bits = bits; out = out })
  walked-IsReady bits out ready room = record {
    blocks = ready.blocks;
    bits = ready.bits;
    out_length = room;
    buffer_length = ready.buffer_length;
    zeros_behind = ready.zeros_behind;
  }

  length-leaf_bytes : (len : ℕ) (s : List ℕ) → length s ≡ 16 → length (leaf_bytes len s) ≡ 4 * len
  length-leaf_bytes len s e = omega (
    arith,
    length-append (stream_from (len / 4) 0 s) (zeros (4 * (len % 4))),
    length-stream_from (len / 4) 0 s e,
    length-replicate {A = ℕ} (4 * (len % 4)) 0,
  )

  pub length-leaf_words : (len : ℕ) (s : List ℕ) → length s ≡ 16 → length (leaf_words len s) ≡ len
  unfolding leaf_words
  length-leaf_words len s e =
      length-element_values len (leaf_bytes len s) (omega (arith, length-leaf_bytes len s e))

  zeros-IsByte : (n : ℕ) → All IsByte (zeros n)
  zeros-IsByte zero = tt
  zeros-IsByte (suc n) = (omega arith, zeros-IsByte n)

  pub leaf_words-lt :
      (len : ℕ) (s : List ℕ)
      → All IsByte s
      → IsCleanLeaf len s
      → All (λ x. x < mod_p) (leaf_words len s)
  unfolding leaf_words
  leaf_words-lt len s h c =
      element_values-lt len (leaf_bytes len s)
        (All-append IsByte _ _ (stream_from-IsByte (len / 4) 0 s h) (zeros-IsByte _)) c

  drop-leaf_bytes :
      (len : ℕ) (s : List ℕ)
      → length s ≡ 16
      → drop (4 * (4 * (len / 4))) (leaf_bytes len s) ≡ zeros (4 * (len % 4))
  drop-leaf_bytes len s e =
      drop-append _ (stream_from (len / 4) 0 s) _
        (omega (arith, length-stream_from (len / 4) 0 s e))

  -- The words behind the last whole cipher block are 0, whatever the seed.
  pub leaf_words_behind :
      (len i : ℕ) (s : List ℕ)
      → length s ≡ 16
      → 4 * (len / 4) ≤ i
      → byte_at (leaf_words len s) i ≡ 0
  unfolding leaf_words
  leaf_words_behind len i s e h =
      let m = 4 * (len / 4) in
      let r = len % 4 in
      let j = i - m in
      let split : len ≡ m + r = omega arith in
      let place : i ≡ m + j = omega arith in
      ap₂ (λ (k p : ℕ). byte_at (element_values k (leaf_bytes len s)) p) split place
      ∙ element_values_behind r m j (leaf_bytes len s) (omega (arith, length-leaf_bytes len s e))
      ∙ ap (λ t. byte_at (element_values r t) j) (drop-leaf_bytes len s e)
      ∙ element_values-zeros r j

  module _ ⦃fx : FastXor⦄ (len : ℕ) (few : len / 4 ≤ 4) (f : Fss) (ready : IsReady len f)
      (s : List ℕ) (full : length s ≡ 16) (clean : IsCleanLeaf len s) where
    abbrev pub after_convert : Fss
    after_convert = record f {
      out_convert_block = masked_bytes len (leaf_bytes len s);
      draws = f.draws;
    }

    -- convertBlock stores the words of the leaf.
    pub convert_block_lem : convert_block f s len ≡ ok (leaf_words len s, after_convert)
    unfolding convert_block leaf_words
    convert_block_lem =
        let written =
          prf_lem s full (len / 4) f.out_convert_block few (omega (arith, ready.buffer_length)) in
        rw (
          ready.blocks,
          written,
          ready.zeros_behind,
          bytes_to_elements_clean len (leaf_bytes len s) f.draws
              (omega (arith, length-leaf_bytes len s full)) clean,
        )

    pub after_convert-IsReady : IsReady len after_convert
    after_convert-IsReady = record {
      blocks = ready.blocks;
      bits = ready.bits;
      out_length = ready.out_length;
      buffer_length = length-masked_bytes len (leaf_bytes len s) ∙ length-leaf_bytes len s full;
      zeros_behind = behind;
    }
      where
        behind : drop (16 * (len / 4)) (masked_bytes len (leaf_bytes len s)) ≡ zeros (4 * (len % 4))
        behind =
            let m = 4 * (len / 4) in
            let r = len % 4 in
            ap₂ (λ (k p : ℕ). drop k (masked_bytes p (leaf_bytes len s))) (omega arith)
              (omega arith)
            ∙ drop-masked_bytes r m (leaf_bytes len s) (omega (arith, length-leaf_bytes len s full))
            ∙ ap (masked_bytes r) (drop-leaf_bytes len s full)
            ∙ masked_bytes-zeros r
