-- ===== src/Point/Retrieve.antt =====
-- A point query from end to end, for servers that answer vectors of bits: what the client retrieves is the block.
use apir_code.Base.{
  ◌==◌, if◌then◌else◌, ==_iff, Bool-cases, bit_xor_assoc, xor-zero, length, get_or, set, take, drop,
  replicate, All, length-take, length-replicate, drop-drop, get_or-drop, get_or-take, slice_ok,
  get_or-set_same, get_or-set_other, byte_at, holds_below, holds_below_lem, ok, FastXor, ℕ, zero,
  suc, ◌+◌, ◌-◌, ◌*◌, ◌/◌, ◌%◌, ◌^◌, ◌≤◌, ◌<◌, bit_xor, ◌≡◌, refl, sym, ap, ap₂, ◌∙◌, inl, inr,
  Bool, true, false, List, [], ◌∷◌, ◌++◌, arith,
}
use native.Mathlib.Nat.{zero-div}
use native.Mathlib.Decide.{ℕ_discrete}
use apir_code.Database.Bytes.{BytesDb, IsWhole, sum_lengths}
use apir_code.Point.{unit_vector, reconstruct_value_pir}
use apir_code.Point.Sharing.{xor_all, length-xor_into}
use apir_code.Point.Bits.{
  vector_bit, bit_xor-bit, selected_byte, selected_byte-xor, selected_byte_none,
}
use apir_code.Point.Rows.{
  row_lens, row_start, row_bytes, row-fits, sum_lengths-take-drop, xor_into_front, byte_at-zeros,
}

-- The bits of the query vectors of all servers, added up.
pub xor_bits : List (List ℕ) → ℕ → ℕ
xor_bits [] j = 0
xor_bits (v ∷ vs) j = bit_xor (vector_bit v j) (xor_bits vs j)

pub xor_bits-xor_all :
    (vs : List (List ℕ)) (j : ℕ) → xor_bits vs j ≡ xor_all vs (j / 8) / 2 ^ (j % 8) % 2
unfolding xor_bits xor_all
xor_bits-xor_all [] j =
    let e : 0 ≡ 0 / 2 ^ (j % 8) = sym (zero-div (2 ^ (j % 8))) in ap (λ (t : ℕ). t % 2) e
xor_bits-xor_all (v ∷ vs) j =
    ap (bit_xor (vector_bit v j)) (xor_bits-xor_all vs j)
    ∙ sym (bit_xor-bit (j % 8) (byte_at v (j / 8)) (xor_all vs (j / 8)))

pub xor_bits-lt : (vs : List (List ℕ)) (j : ℕ) → xor_bits vs j < 2
xor_bits-lt vs j = omega (arith, xor_bits-xor_all vs j)

powers :
    holds_below (λ m. holds_below (λ k. 2 ^ m / 2 ^ k % 2 == (if k == m then 1 else 0)) 8) 8 ≡ true
unfolding holds_below
powers = refl

power_bit : (m k : ℕ) → m < 8 → k < 8 → 2 ^ m / 2 ^ k % 2 ≡ (if k == m then 1 else 0)
power_bit m k h h' =
    (==_iff (2 ^ m / 2 ^ k % 2) (if k == m then 1 else 0)).0
      (holds_below_lem _ 8 (holds_below_lem _ 8 powers m h) k h')

module _ ⦃fx : FastXor⦄ where
  -- Bit `j` of the unit vector is 1 where `j` is the column, and 0 elsewhere.
  pub vector_bit-unit_vector :
      (n iy j : ℕ) → iy / 8 < n → vector_bit (unit_vector n iy) j ≡ (if j == iy then 1 else 0)
  unfolding unit_vector
  vector_bit-unit_vector n iy j below = elim (ℕ_discrete (j / 8) (iy / 8)) [
    | yes same ↦
        let here =
          get_or-set_same (replicate n 0) (iy / 8) (2 ^ (iy % 8)) 0
            (omega (arith, length-replicate {A = ℕ} n 0)) in
        let same_column : (j % 8 == iy % 8) ≡ (j == iy) = elim (ℕ_discrete j iy) [
          | yes e ↦ rw e (ground arith)
          | no e ↦
              let left : (j % 8 == iy % 8) ≡ false = ground arith in
              let right : (j == iy) ≡ false = ground arith in left ∙ sym right
        ] in
        ap (λ (t : ℕ). byte_at (set (replicate n 0) (iy / 8) (2 ^ (iy % 8))) t / 2 ^ (j % 8) % 2)
          same
        ∙ ap (λ (t : ℕ). t / 2 ^ (j % 8) % 2) here
        ∙ power_bit (iy % 8) (j % 8) (omega arith) (omega arith)
        ∙ ap (λ (t : Bool). if t then 1 else 0) same_column
    | no other ↦
        let away = get_or-set_other (replicate n 0) (iy / 8) (j / 8) (2 ^ (iy % 8)) 0 other in
        let differ : (j == iy) ≡ false = elim (Bool-cases (j == iy)) [
          | inl t ↦ absurd (other (ap (λ (k : ℕ). k / 8) ((==_iff j iy).0 t)))
          | inr f ↦ f
        ] in
        rw differ (
          ap (λ (t : ℕ). t / 2 ^ (j % 8) % 2) (away ∙ byte_at-zeros n (j / 8))
          ∙ ap (λ (t : ℕ). t % 2) (zero-div (2 ^ (j % 8))))
  ]

  -- reconstructValuePIR adds up the same block of all answers.
  pub reconstruct_value_pir-xor_all :
      (answers : List (List ℕ)) (bs ix : ℕ) (sum : List ℕ)
      → length sum ≡ bs
      → All (λ a. bs * (ix + 1) ≤ length a) answers
      → (out : List ℕ) × (reconstruct_value_pir answers bs ix sum ≡ ok out)
        × (length out ≡ bs)
        × ((p : ℕ)
            → p < bs
            → byte_at out p ≡ bit_xor (byte_at sum p) (xor_all answers (ix * bs + p)))
  unfolding reconstruct_value_pir xor_all
  reconstruct_value_pir-xor_all [] bs ix sum len full =
      (sum, refl, len, λ p h. sym (xor-zero (byte_at sum p)))
  reconstruct_value_pir-xor_all (a ∷ answers) bs ix sum len full =
      let block = take (bs * (ix + 1) - ix * bs) (drop (ix * bs) a) in
      let written = fx.bytes_lem sum sum block in
      let width : length block ≤ length sum =
        omega (arith, length-take (bs * (ix + 1) - ix * bs) (drop (ix * bs) a), len) in
      let (out, run, same, at) =
        reconstruct_value_pir-xor_all answers bs ix (fx.bytes sum sum block)
          (ap length written ∙ length-xor_into sum sum block ∙ len) full.1 in
      (
        out,
        rw (slice_ok a (ix * bs) (bs * (ix + 1)) (omega arith) full.0) run,
        same,
        λ p h.
            at p h
            ∙ let place : byte_at block p ≡ byte_at a (ix * bs + p) =
                get_or-take (bs * (ix + 1) - ix * bs) p (drop (ix * bs) a) 0 (omega arith)
                ∙ get_or-drop (ix * bs) p a 0 in
              let first : byte_at (fx.bytes sum sum block) p
                  ≡ bit_xor (byte_at sum p) (byte_at a (ix * bs + p)) =
                ap (λ (o : List ℕ). byte_at o p) written
                ∙ xor_into_front sum block p width
                ∙ ap (bit_xor (byte_at sum p)) place in
              ap (λ (b : ℕ). bit_xor b (xor_all answers (ix * bs + p))) first
              ∙ bit_xor_assoc (byte_at sum p) _ _,
      )

  -- Where each answer is, from row `ix` on, what the bits of its vector select, all of them together
  -- are what the bits of all vectors together select.
  module _ (row lens : List ℕ) (bs ix p : ℕ) where
    -- Each vector with its answer.
    pub data Answered : List (List ℕ) → List (List ℕ) → Type 0 where
      no_more : Answered [] []
      and_more :
          {v a : List ℕ} {vs answers : List (List ℕ)}
          → byte_at a (ix * bs + p) ≡ selected_byte row (vector_bit v) lens 0 0 p
          → Answered vs answers
          → Answered (v ∷ vs) (a ∷ answers)

    pub xor_all-xor_bits :
        (vs answers : List (List ℕ))
        → Answered vs answers
        → xor_all answers (ix * bs + p) ≡ selected_byte row (xor_bits vs) lens 0 0 p
    unfolding xor_all xor_bits
    xor_all-xor_bits [] [] no_more =
        sym (selected_byte_none row (xor_bits []) lens 0 0 p (λ k h. refl))
    xor_all-xor_bits [] (a ∷ answers) h = elim h [ ]
    xor_all-xor_bits (v ∷ vs) [] h = elim h [ ]
    xor_all-xor_bits (v ∷ vs) (a ∷ answers) (and_more here more) =
        ap₂ bit_xor here (xor_all-xor_bits vs answers more)
        ∙ sym (
            selected_byte-xor row (vector_bit v) (xor_bits vs) lens 0 0 p (λ k. omega arith)
              (xor_bits-lt vs))

-- The block of the database at an index, and what a client without padding gets for it: zeros fill it up.
unfoldable pub entry : BytesDb → ℕ → List ℕ
entry db index =
    take (get_or db.block_lengths index 0)
      (drop (sum_lengths (take index db.block_lengths)) db.entries)

unfoldable pub filled_entry : BytesDb → ℕ → List ℕ
filled_entry db index = entry db index ++ replicate (db.block_size - length (entry db index)) 0

take-drop_inner :
    (len s size : ℕ) (xs : List ℕ)
    → s + len ≤ size
    → take len (drop s (take size xs)) ≡ take len (drop s xs)
take-drop_inner zero s size xs h = refl
take-drop_inner (suc len) zero zero xs h = absurd (omega arith)
take-drop_inner (suc len) zero (suc size) [] h = refl
take-drop_inner (suc len) zero (suc size) (x ∷ xs) h =
    ap (λ (t : List ℕ). x ∷ t) (take-drop_inner len zero size xs (omega arith))
take-drop_inner (suc len) (suc s) zero xs h = absurd (omega arith)
take-drop_inner (suc len) (suc s) (suc size) [] h = refl
take-drop_inner (suc len) (suc s) (suc size) (x ∷ xs) h =
    take-drop_inner (suc len) s size xs (omega arith)

-- The lengths up to a place and that place.
place-fits :
    (lens : List ℕ) (i : ℕ)
    → i < length lens
    → sum_lengths (take i lens) + get_or lens i 0 ≤ sum_lengths lens
unfolding sum_lengths
place-fits [] i h = absurd (omega arith)
place-fits (x ∷ xs) zero h = omega arith
place-fits (x ∷ xs) (suc i) h = omega (arith, place-fits xs i (omega arith))

module _ ⦃fx : FastXor⦄ (db : BytesDb) (whole : IsWhole db) (ix iy : ℕ)
    (row_below : ix < db.num_rows) (column_below : iy < db.num_columns) where
  -- The block of a row is the block of the database.
  pub row_entry :
      take
        (get_or (row_lens db ix) iy 0)
        (drop (0 + sum_lengths (take iy (row_lens db ix))) (row_bytes db ix))
      ≡ entry db (ix * db.num_columns + iy)
  unfolding entry
  row_entry =
      let cols = db.num_columns in
      let (columns, inside) = row-fits db whole ix row_below in
      let len : get_or (row_lens db ix) iy 0 ≡ get_or db.block_lengths (ix * cols + iy) 0 =
        get_or-take cols iy (drop (ix * cols) db.block_lengths) 0 column_below
        ∙ get_or-drop (ix * cols) iy db.block_lengths 0 in
      let before : sum_lengths (take iy (row_lens db ix))
          ≡ sum_lengths (take iy (drop (ix * cols) db.block_lengths)) =
        ap sum_lengths
          (take-drop_inner iy 0 cols (drop (ix * cols) db.block_lengths) (omega arith)) in
      let s = sum_lengths (take iy (row_lens db ix)) in
      let start : row_start db ix + (0 + s) ≡ sum_lengths (take (ix * cols + iy) db.block_lengths) =
        omega (arith, sum_lengths-take-drop (ix * cols) iy db.block_lengths, before) in
      take-drop_inner (get_or (row_lens db ix) iy 0) (0 + s) (sum_lengths (row_lens db ix))
        (drop (row_start db ix) db.entries)
        (omega (arith, place-fits (row_lens db ix) iy (omega arith)))
      ∙ ap (take (get_or (row_lens db ix) iy 0)) (drop-drop (0 + s) (row_start db ix) db.entries)
      ∙ ap₂ (λ (k m : ℕ). take k (drop m db.entries)) len start
