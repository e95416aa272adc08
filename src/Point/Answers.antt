-- ===== src/Point/Answers.antt =====
-- The rows of the answer of one server to a vector of bits.
use apir_code.Base.{
  zero-xor, length, take, drop, replicate, length-append, length-take, length-drop,
  length-replicate, get_or-append_left, get_or-append_right, slice, slice_ok, All-take-drop,
  byte_at, ok, FastXor, ℕ, zero, suc, ◌+◌, ◌-◌, ◌*◌, ◌≤◌, ◌<◌, bit_xor, ◌≡◌, refl, ap, ◌∙◌, List,
  [], ◌++◌, arith,
}
use native.Mathlib.Nat.{mul-le-mul_right}
use apir_code.Database.Bytes.{BytesDb, IsWhole, sum_lengths}
use apir_code.Point.{xor_values, answer_rows}
use apir_code.Point.Bits.{vector_bit, selected_byte}
use apir_code.Point.Rows.{
  row_lens, row_start, row_bytes, row_start-suc, row-fits, byte_at-zeros, xor_values-selected_byte,
}

-- The bytes of rows of one size that stand one behind the other.
rows_at :
    (row rest : List ℕ) (size i left : ℕ) (f : ℕ → ℕ → ℕ)
    → length row ≡ size
    → ((p : ℕ) → byte_at row p ≡ f i p)
    → ((k p : ℕ) → k < left → p < size → byte_at rest (k * size + p) ≡ f (suc i + k) p)
    → (k p : ℕ) → k < suc left
    → p < size
    → byte_at (row ++ rest) (k * size + p) ≡ f (i + k) p
rows_at row rest size i left f len first others zero p below inside =
    let here : 0 * size + p ≡ p = omega arith in
    let same : i + 0 ≡ i = omega arith in
    rw (here, same) (get_or-append_left row rest p 0 (omega arith) ∙ first p)
rows_at row rest size i left f len first others (suc k) p below inside =
    let same : i + suc k ≡ suc i + k = omega arith in
    rw same (
      get_or-append_right row rest (suc k * size + p) (k * size + p) 0 (omega arith)
      ∙ others k p (omega arith) inside)

module _ ⦃fx : FastXor⦄ (db : BytesDb) (whole : IsWhole db) (q : List ℕ)
    (long : db.num_columns ≤ 8 * length q) where
  -- One row of the answer.
  answer_row :
      (i : ℕ)
      → i < db.num_rows
      → (out : List ℕ) × (xor_values
            (row_bytes db i)
            (row_lens db i)
            q
            0
            0
            (replicate db.block_size 0)
          ≡ ok out)
        × (length out ≡ db.block_size)
        × ((p : ℕ)
            → byte_at out p ≡ selected_byte (row_bytes db i) (vector_bit q) (row_lens db i) 0 0 p)
  answer_row i below =
      let (columns, inside) = row-fits db whole i below in
      let zeros = replicate db.block_size 0 in
      let len = length-replicate db.block_size 0 in
      let sum = sum_lengths (row_lens db i) in
      let (out, run, same, at) =
        xor_values-selected_byte (row_bytes db i) q (row_lens db i) 0 0 zeros
          (omega (
            arith,
            length-take sum (drop (row_start db i) db.entries),
            length-drop (row_start db i) db.entries,
          ))
          (rw len (
            All-take-drop (λ l. l ≤ db.block_size) db.num_columns (i * db.num_columns)
              db.block_lengths whole.fits))
          (omega arith) in
      (
        out,
        run,
        same ∙ len,
        λ p.
            at p
            ∙ ap
                (λ (b : ℕ).
                  bit_xor b (selected_byte (row_bytes db i) (vector_bit q) (row_lens db i) 0 0 p))
                (byte_at-zeros db.block_size p)
            ∙ zero-xor _,
      )

  -- The places where Answer reads a row.
  read_lens :
      (i : ℕ)
      → i < db.num_rows
      → slice db.block_lengths (i * db.num_columns) ((i + 1) * db.num_columns) ≡ ok (row_lens db i)
  read_lens i below =
      let cols = db.num_columns in
      let rows : i + 1 ≤ db.num_rows = omega arith in
      let scaled = mul-le-mul_right cols rows in
      let all = whole.all_blocks in
      let width : (i + 1) * cols - i * cols ≡ cols = omega arith in
      slice_ok db.block_lengths (i * cols) ((i + 1) * cols) (omega arith) (omega arith)
      ∙ ap (λ (k : ℕ). ok (take k (drop (i * cols) db.block_lengths))) width

  read_row :
      (i : ℕ)
      → i < db.num_rows
      → slice db.entries (row_start db i) (row_start db i + sum_lengths (row_lens db i))
        ≡ ok (row_bytes db i)
  read_row i below =
      let (columns, inside) = row-fits db whole i below in
      let sum = sum_lengths (row_lens db i) in
      let width : row_start db i + sum - row_start db i ≡ sum = omega arith in
      slice_ok db.entries (row_start db i) (row_start db i + sum) (omega arith) inside
      ∙ ap (λ (k : ℕ). ok (take k (drop (row_start db i) db.entries))) width

  -- The rows of the answer from row `i` on stand one behind the other, each on its own bytes.
  pub answer_rows-selected_byte :
      (left i start : ℕ)
      → i + left ≤ db.num_rows
      → start ≡ row_start db i
      → (out : List ℕ) × (answer_rows db q left i start ≡ ok out)
        × (length out ≡ left * db.block_size)
        × ((k p : ℕ)
            → k < left
            → p < db.block_size
            → byte_at out (k * db.block_size + p)
              ≡ selected_byte (row_bytes db (i + k)) (vector_bit q) (row_lens db (i + k)) 0 0 p)
  unfolding answer_rows
  answer_rows-selected_byte zero i start fits e =
      ([], refl, omega arith, λ k p h. absurd (omega arith))
  answer_rows-selected_byte (suc left) i start fits e =
      let (row, run, len, at) = answer_row i (omega arith) in
      let (rest, runs, lens, ats) =
        answer_rows-selected_byte left (suc i) (start + sum_lengths (row_lens db i)) (omega arith)
          (ap (λ (s : ℕ). s + sum_lengths (row_lens db i)) e ∙ row_start-suc db whole i) in
      (
        row ++ rest,
        rw (read_lens i (omega arith), e, read_row i (omega arith), run, ← e, runs) refl,
        omega (arith, length-append row rest),
        rows_at row rest db.block_size i left
            (λ j p. selected_byte (row_bytes db j) (vector_bit q) (row_lens db j) 0 0 p) len at ats,
      )
