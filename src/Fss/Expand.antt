-- ===== src/Fss/Expand.antt =====
-- What prf writes: for each block the exclusive or of its cipher with the seed, and nothing behind.
use apir_code.Base.{
  ltb, bit_xor-lt, length, get_or, take, drop, All, length-append, length-drop, take-append,
  drop-append, drop-drop, get_elem?-map, IsByte, All-append, ok, xor_into, FastXor, ℕ, zero, suc,
  ◌+◌, ◌*◌, ◌≤◌, bit_xor, ◌≡◌, refl, sym, ap, ◌∙◌, false, List, [], ◌∷◌, ◌++◌, map, append_assoc,
  arith,
}
use apir_code.Fss.{BlockCipher, prf_keys, prf_loop, prf}

unfoldable pub xor_zip : List ℕ → List ℕ → List ℕ
xor_zip [] b = []
xor_zip (x ∷ a) [] = []
xor_zip (x ∷ a) (y ∷ b) = bit_xor x y ∷ xor_zip a b

length-xor_zip : (a b : List ℕ) → length a ≡ length b → length (xor_zip a b) ≡ length a
unfolding xor_zip
length-xor_zip [] b e = refl
length-xor_zip (x ∷ a) [] e = absurd (omega arith)
length-xor_zip (x ∷ a) (y ∷ b) e = ap suc (length-xor_zip a b (omega arith))

xor_zip-IsByte : (a b : List ℕ) → All IsByte a → All IsByte b → All IsByte (xor_zip a b)
unfolding xor_zip
xor_zip-IsByte [] b h k = tt
xor_zip-IsByte (x ∷ a) [] h k = tt
xor_zip-IsByte (x ∷ a) (y ∷ b) h k = (bit_xor-lt 8 x y h.0 k.0, xor_zip-IsByte a b h.1 k.1)

pub xor_into-xor_zip :
    (dst a b : List ℕ)
    → length a ≡ length b
    → length a ≤ length dst
    → xor_into dst a b ≡ xor_zip a b ++ drop (length a) dst
unfolding xor_zip
xor_into-xor_zip [] [] b e h = refl
xor_into-xor_zip [] (x ∷ a) b e h = absurd (omega arith)
xor_into-xor_zip (d ∷ dst) [] b e h = refl
xor_into-xor_zip (d ∷ dst) (x ∷ a) [] e h = absurd (omega arith)
xor_into-xor_zip (d ∷ dst) (x ∷ a) (y ∷ b) e h =
    ap (λ t. bit_xor x y ∷ t) (xor_into-xor_zip dst a b (omega arith) (omega arith))

module _ ⦃aes : BlockCipher⦄ where
  -- The ciphers of both initialisations.
  abbrev pub standard_blocks : List (List ℕ → List ℕ)
  standard_blocks = map aes.encrypt prf_keys

  unfoldable pub block : List ℕ → ℕ → List ℕ
  block x i = xor_zip (aes.encrypt (get_or prf_keys i []) x) x

  -- Blocks `i .. i + left` of the expansion of the seed `x`.
  unfoldable pub stream_from : ℕ → ℕ → List ℕ → List ℕ
  stream_from zero i x = []
  stream_from (suc left) i x = block x i ++ stream_from left (suc i) x

  length-block : (x : List ℕ) (i : ℕ) → length x ≡ 16 → length (block x i) ≡ 16
  unfolding block
  length-block x i e = length-xor_zip _ x (aes.length-encrypt _ x ∙ sym e) ∙ aes.length-encrypt _ x

  pub length-stream_from :
      (left i : ℕ) (x : List ℕ) → length x ≡ 16 → length (stream_from left i x) ≡ 16 * left
  unfolding stream_from
  length-stream_from zero i x e = refl
  length-stream_from (suc left) i x e = omega (
    arith,
    length-append (block x i) (stream_from left (suc i) x),
    length-block x i e,
    length-stream_from left (suc i) x e,
  )

  pub stream_from-IsByte :
      (left i : ℕ) (x : List ℕ) → All IsByte x → All IsByte (stream_from left i x)
  unfolding stream_from block
  stream_from-IsByte zero i x h = tt
  stream_from-IsByte (suc left) i x h =
      All-append IsByte (block x i) (stream_from left (suc i) x)
        (xor_zip-IsByte _ x (aes.encrypt-IsByte _ x) h) (stream_from-IsByte left (suc i) x h)

  module _ ⦃fx : FastXor⦄ (x : List ℕ) (full : length x ≡ 16) where
    write_block :
        (i : ℕ) (pre rest : List ℕ)
        → i * 16 ≡ length pre
        → 16 ≤ length rest
        → take (i * 16) (pre ++ rest)
            ++ fx.bytes (drop (i * 16) (pre ++ rest)) (aes.encrypt (get_or prf_keys i []) x) x
          ≡ (pre ++ block x i) ++ drop 16 rest
    unfolding block
    write_block i pre rest e h =
        let c = aes.encrypt (get_or prf_keys i []) x in
        let lc : length c ≡ 16 = aes.length-encrypt _ x in
        let written : xor_into rest c x ≡ xor_zip c x ++ drop 16 rest =
          xor_into-xor_zip rest c x (lc ∙ sym full) (omega arith)
          ∙ ap (λ (k : ℕ). xor_zip c x ++ drop k rest) lc in
        rw (take-append (i * 16) pre rest e, drop-append (i * 16) pre rest e, fx.bytes_lem, written)
          (sym (append_assoc pre (xor_zip c x) (drop 16 rest)))

    prf_loop_lem :
        (left i : ℕ) (pre rest : List ℕ)
        → i * 16 ≡ length pre
        → 16 * left ≤ length rest
        → i + left ≤ 4
        → prf_loop x standard_blocks left i (pre ++ rest)
          ≡ ok (pre ++ (stream_from left i x ++ drop (16 * left) rest))
    unfolding prf_loop stream_from
    prf_loop_lem zero i pre rest e h k = refl
    prf_loop_lem (suc left) i pre rest e h k =
        let found = get_elem?-map aes.encrypt prf_keys i [] (omega arith) in
        let fits : ltb (length (pre ++ rest)) (i * 16) ≡ false =
          ground (arith, length-append pre rest) in
        let pre' = pre ++ block x i in
        let e' : suc i * 16 ≡ length pre' =
          omega (arith, length-append pre (block x i), length-block x i full) in
        let more =
          prf_loop_lem left (suc i) pre' (drop 16 rest) e' (omega (arith, length-drop 16 rest))
            (omega arith) in
        let tail : drop (16 * left) (drop 16 rest) ≡ drop (16 * suc left) rest =
          drop-drop (16 * left) 16 rest ∙ ap (λ (n : ℕ). drop n rest) (omega arith) in
        rw (found, fits, write_block i pre rest e (omega arith), more, tail)
          (ap ok (
            append_assoc pre (block x i) _
            ∙ ap (λ t. pre ++ t) (sym (append_assoc (block x i) _ _))))

    -- A call for at most four blocks overwrites the front of `out` with the expansion of the seed.
    pub prf_lem :
        (n : ℕ) (out : List ℕ)
        → n ≤ 4
        → 16 * n ≤ length out
        → prf x standard_blocks n out ≡ ok (stream_from n 0 x ++ drop (16 * n) out)
    unfolding prf
    prf_lem n out h k = prf_loop_lem n 0 [] out refl k (omega arith)
