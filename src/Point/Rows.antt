-- ===== src/Point/Rows.antt =====
-- xorValues and the loop of Answer over the rows: which bytes of which blocks each byte of an answer adds up.
use apir_code.Base.{
  ◌==◌, if◌then◌else◌, bit_xor_assoc, zero-xor, xor-zero, length, take, drop, replicate, All,
  length-take, length-drop, get_elem?-eq-get_or, slice, slice_ok, byte_at, ok, xor_into, FastXor, ℕ,
  zero, suc, ◌+◌, ◌-◌, ◌*◌, ◌/◌, ◌≤◌, ◌<◌, bit_xor, ◌≡◌, refl, sym, ap, ◌∙◌, Bool, true, false,
  List, [], ◌∷◌, arith,
}
use native.Mathlib.Nat.{mul-le-mul_right}
use apir_code.Database.Bytes.{BytesDb, IsWhole, sum_lengths}
use apir_code.Point.{query_bit, xor_values}
use apir_code.Point.Sharing.{length-xor_into}
use apir_code.Point.Bits.{vector_bit, selected_byte}

-- A block that may be shorter than what it is added to.
pub xor_into_front :
    (dst b : List ℕ) (p : ℕ)
    → length b ≤ length dst
    → byte_at (xor_into dst dst b) p ≡ bit_xor (byte_at dst p) (byte_at b p)
xor_into_front [] [] p h = sym (zero-xor 0)
xor_into_front [] (y ∷ b) p h = absurd (omega arith)
xor_into_front (d ∷ dst) [] p h = sym (xor-zero (byte_at (d ∷ dst) p))
xor_into_front (d ∷ dst) (y ∷ b) zero h = refl
xor_into_front (d ∷ dst) (y ∷ b) (suc p) h = xor_into_front dst b p (omega arith)

query_bit_lem :
    ⦃fx : FastXor⦄ (q : List ℕ) (j : ℕ)
    → j < 8 * length q
    → query_bit q j ≡ ok (vector_bit q j == 1)
unfolding query_bit
query_bit_lem q j h = rw (get_elem?-eq-get_or q (j / 8) 0 (omega arith)) refl

module _ ⦃fx : FastXor⦄ (entries q : List ℕ) where
  -- What one block adds to the row.
  one_block :
      (bit : Bool) (len pos : ℕ) (out : List ℕ)
      → pos + len ≤ length entries
      → len ≤ length out
      → (block : List ℕ) × ((if bit then slice entries pos (pos + len) else ok []) ≡ ok block)
        × (length (if bit then fx.bytes out out block else out) ≡ length out)
        × ((p : ℕ)
            → byte_at (if bit then fx.bytes out out block else out) p
              ≡ bit_xor
                  (byte_at out p)
                  (if bit then byte_at (take len (drop pos entries)) p else 0))
  one_block false len pos out fits short = ([], refl, refl, λ p. sym (xor-zero (byte_at out p)))
  one_block true len pos out fits short =
      let width : pos + len - pos ≡ len = omega arith in
      let block = take len (drop pos entries) in
      let written = fx.bytes_lem out out block in
      (
        block,
        slice_ok entries pos (pos + len) (omega arith) fits
            ∙ ap (λ (k : ℕ). ok (take k (drop pos entries))) width,
        ap length written ∙ length-xor_into out out block,
        λ p.
            ap (λ (o : List ℕ). byte_at o p) written
            ∙ xor_into_front out block p (omega (arith, length-take len (drop pos entries))),
      )

  -- xorValues adds the selected blocks to what it is given.
  pub xor_values-selected_byte :
      (lens : List ℕ) (j pos : ℕ) (out : List ℕ)
      → pos + sum_lengths lens ≤ length entries
      → All (λ len. len ≤ length out) lens
      → j + length lens ≤ 8 * length q
      → (out' : List ℕ) × (xor_values entries lens q j pos out ≡ ok out')
        × (length out' ≡ length out)
        × ((p : ℕ)
            → byte_at out' p
              ≡ bit_xor (byte_at out p) (selected_byte entries (vector_bit q) lens j pos p))
  unfolding xor_values selected_byte sum_lengths
  xor_values-selected_byte [] j pos out fits short long =
      (out, refl, refl, λ p. sym (xor-zero (byte_at out p)))
  xor_values-selected_byte (len ∷ lens) j pos out fits short long =
      let bit = vector_bit q j == 1 in
      let (block, read, same, at) = one_block bit len pos out (omega arith) short.0 in
      let next = if bit then fx.bytes out out block else out in
      let (out', run, same', at') =
        xor_values-selected_byte lens (suc j) (pos + len) next (omega arith) (rw same short.1)
          (omega arith) in
      (
        out',
        rw (query_bit_lem q j (omega arith), read) run,
        same' ∙ same,
        λ p.
            at' p
            ∙ ap
                (λ (b : ℕ).
                  bit_xor b (selected_byte entries (vector_bit q) lens (suc j) (pos + len) p))
                (at p)
            ∙ bit_xor_assoc (byte_at out p) _ _,
      )

pub byte_at-zeros : (n p : ℕ) → byte_at (replicate n 0) p ≡ 0
byte_at-zeros zero p = refl
byte_at-zeros (suc n) zero = refl
byte_at-zeros (suc n) (suc p) = byte_at-zeros n p

-- The block lengths and the bytes of a row.
abbrev pub row_lens : BytesDb → ℕ → List ℕ
row_lens db i = take db.num_columns (drop (i * db.num_columns) db.block_lengths)

abbrev pub row_start : BytesDb → ℕ → ℕ
row_start db i = sum_lengths (take (i * db.num_columns) db.block_lengths)

abbrev pub row_bytes : BytesDb → ℕ → List ℕ
row_bytes db i = take (sum_lengths (row_lens db i)) (drop (row_start db i) db.entries)

take-nil : (n : ℕ) → take {A = ℕ} n [] ≡ []
take-nil zero = refl
take-nil (suc n) = refl

pub sum_lengths-take-drop :
    (a b : ℕ) (xs : List ℕ)
    → sum_lengths (take a xs) + sum_lengths (take b (drop a xs)) ≡ sum_lengths (take (a + b) xs)
unfolding sum_lengths
sum_lengths-take-drop zero b xs = let e : 0 + b ≡ b = omega arith in rw e (omega arith)
sum_lengths-take-drop (suc a) b [] = rw (take-nil b, take-nil (suc a + b)) (omega arith)
sum_lengths-take-drop (suc a) b (x ∷ xs) =
    let e : suc a + b ≡ suc (a + b) = omega arith in
    rw e (omega (arith, sum_lengths-take-drop a b xs))

sum_lengths-take_le : (a : ℕ) (xs : List ℕ) → sum_lengths (take a xs) ≤ sum_lengths xs
unfolding sum_lengths
sum_lengths-take_le zero xs = omega arith
sum_lengths-take_le (suc a) [] = omega arith
sum_lengths-take_le (suc a) (x ∷ xs) = omega (arith, sum_lengths-take_le a xs)

module _ (db : BytesDb) (whole : IsWhole db) where
  -- Where the row behind the row `i` begins.
  pub row_start-suc : (i : ℕ) → row_start db i + sum_lengths (row_lens db i) ≡ row_start db (suc i)
  row_start-suc i =
      let e : i * db.num_columns + db.num_columns ≡ suc i * db.num_columns = omega arith in
      sum_lengths-take-drop (i * db.num_columns) db.num_columns db.block_lengths
      ∙ ap (λ (k : ℕ). sum_lengths (take k db.block_lengths)) e

  pub row-fits :
      (i : ℕ)
      → i < db.num_rows
      → (length (row_lens db i) ≡ db.num_columns)
        × (row_start db i + sum_lengths (row_lens db i) ≤ length db.entries)
  row-fits i below =
      let cols = db.num_columns in
      let all = whole.all_blocks in
      let bytes = whole.all_bytes in
      let rows : i + 1 ≤ db.num_rows = omega arith in
      let scaled = mul-le-mul_right cols rows in
      (
        omega (
          arith,
          length-take cols (drop (i * cols) db.block_lengths),
          length-drop (i * cols) db.block_lengths,
        ),
        omega (arith, row_start-suc i, sum_lengths-take_le (suc i * cols) db.block_lengths),
      )
