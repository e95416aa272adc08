-- ===== src/Point/Scheme.antt =====
-- A point query from end to end, for any number of servers but two: the client, all servers and the
-- reconstruction look up the block at the index.
use apir_code.Base.{
  ◌==◌, if◌then◌else◌, zero-xor, length, get_or, take, drop, replicate, All, length-append,
  length-set, length-take, length-drop, length-replicate, get_or_ext, All-get_or, byte_at, Result,
  ◌>>=◌, ok, FastXor, ℕ, zero, suc, ◌+◌, ◌-◌, ◌*◌, ◌/◌, ◌%◌, ◌^◌, ◌≤◌, ◌<◌, bit_xor, ◌≡◌, refl, sym,
  ap, ◌∙◌, ◌≢◌, Bool, true, false, List, [], ◌∷◌, ◌++◌, arith,
}
use native.Mathlib.Nat.{div-add-mod, mul-le-mul_right}
use apir_code.Utils.Encoding.{vector_to_matrix_indices}
use apir_code.Utils.Encoding.Indices.{index-lt}
use apir_code.Database.Bytes.{BytesDb, IsWhole, sum_lengths}
use apir_code.Point.{
  PointKeys, unit_vector, share_from, secret_share, answer_rows, point_query, point_answer,
  reconstruct_value_pir,
}
use apir_code.Point.Sharing.{xor_all, length-xor_into, secret_share-xor}
use apir_code.Point.Bits.{vector_bit, selected_byte, selected_byte_one}
use apir_code.Point.Answers.{answer_rows-selected_byte}
use apir_code.Point.Rows.{row_lens, row_start, row_bytes, row-fits, byte_at-zeros}
use apir_code.Point.Retrieve.{
  xor_bits, xor_bits-xor_all, vector_bit-unit_vector, Answered, xor_all-xor_bits, row_entry, entry,
  filled_entry, reconstruct_value_pir-xor_all,
}

-- The answers of all servers, each to its vector.
pub all_answers : ⦃fx : FastXor⦄ → PointKeys → BytesDb → ℕ → List (List ℕ) → Result (List (List ℕ))
all_answers keys db n [] = ok []
all_answers keys db n (q ∷ qs) = do
  a ← point_answer keys db n q
  answers ← all_answers keys db n qs
  ok (a ∷ answers)

module _ ⦃fx : FastXor⦄ where
  length-share_from :
      (n k : ℕ) (rand last : List ℕ)
      → length last ≡ n
      → k * n ≤ length rand
      → All (λ v. length v ≡ n) (share_from n k rand last)
  unfolding share_from
  length-share_from n zero rand last e h = (e, tt)
  length-share_from n (suc k) rand last e h =
      let v = take n rand in
      (
        omega (arith, length-take n rand),
        length-share_from n k (drop n rand) (fx.bytes last last v)
            (ap length (fx.bytes_lem last last v) ∙ length-xor_into last last v ∙ e)
            (omega (arith, length-drop n rand)),
      )

  length-secret_share :
      (num_columns n iy : ℕ) (rand : List ℕ)
      → (n - 1) * (num_columns / 8 + 1) ≤ length rand
      → All (λ v. length v ≡ num_columns / 8 + 1) (secret_share num_columns n iy rand)
  unfolding secret_share unit_vector
  length-secret_share num_columns n iy rand h =
      length-share_from (num_columns / 8 + 1) (n - 1) rand (unit_vector (num_columns / 8 + 1) iy)
        (length-set (replicate (num_columns / 8 + 1) 0) (iy / 8) _
          ∙ length-replicate (num_columns / 8 + 1) 0)
        h

  module _ (keys : PointKeys) (db : BytesDb) (whole : IsWhole db) (n ix : ℕ) (others : n ≢ 2)
      (row_below : ix < db.num_rows) where
    point_answer-answer_rows :
        (q : List ℕ) → point_answer keys db n q ≡ answer_rows db q db.num_rows 0 0
    unfolding point_answer
    point_answer-answer_rows q = let not_two : (n == 2) ≡ false = ground arith in rw not_two refl

    row_start_first : row_start db 0 ≡ 0
    unfolding sum_lengths
    row_start_first =
        let e : 0 * db.num_columns ≡ 0 = omega arith in
        ap (λ (k : ℕ). sum_lengths (take k db.block_lengths)) e

    -- All servers answer, and each what the bits of its vector select.
    all_answers-Answered :
        (vs : List (List ℕ))
        → All (λ v. length v ≡ db.num_columns / 8 + 1) vs
        → (answers : List (List ℕ)) × (all_answers keys db n vs ≡ ok answers)
          × All (λ a. db.block_size * (ix + 1) ≤ length a) answers
          × ((p : ℕ)
              → p < db.block_size
              → Answered (row_bytes db ix) (row_lens db ix) db.block_size ix p vs answers)
    unfolding all_answers
    all_answers-Answered [] lens = ([], refl, tt, λ p h. Answered.no_more)
    all_answers-Answered (v ∷ vs) lens =
        let len = lens.0 in
        let (a, run, len', at) =
          answer_rows-selected_byte db whole v (omega arith) db.num_rows 0 0 (omega arith)
            (sym row_start_first) in
        let rows : ix + 1 ≤ db.num_rows = omega arith in
        let scaled = mul-le-mul_right db.block_size rows in
        let long : db.block_size * (ix + 1) ≤ length a = omega arith in
        let same : 0 + ix ≡ ix = omega arith in
        let here : (p : ℕ)
            → p < db.block_size
            → byte_at a (ix * db.block_size + p)
              ≡ selected_byte (row_bytes db ix) (vector_bit v) (row_lens db ix) 0 0 p =
          λ p h.
            at ix p row_below h
            ∙ ap (λ (i : ℕ). selected_byte (row_bytes db i) (vector_bit v) (row_lens db i) 0 0 p)
                same in
        let (answers, runs, fulls, ats) = all_answers-Answered vs lens.1 in
        (
          a ∷ answers,
          rw (point_answer-answer_rows v, run, runs) refl,
          (long, fulls),
          λ p h. Answered.and_more (here p h) (ats p h),
        )

  byte_at-append_zeros : (xs : List ℕ) (k p : ℕ) → byte_at (xs ++ replicate k 0) p ≡ byte_at xs p
  byte_at-append_zeros [] k p = byte_at-zeros k p
  byte_at-append_zeros (x ∷ xs) k zero = refl
  byte_at-append_zeros (x ∷ xs) k (suc p) = byte_at-append_zeros xs k p

  byte_at-filled_entry :
      (db : BytesDb) (index p : ℕ) → byte_at (filled_entry db index) p ≡ byte_at (entry db index) p
  unfolding filled_entry
  byte_at-filled_entry db index p = byte_at-append_zeros (entry db index) _ p

  length-filled_entry :
      (db : BytesDb) (index : ℕ) → IsWhole db → length (filled_entry db index) ≡ db.block_size
  unfolding filled_entry entry
  length-filled_entry db index whole =
      let len = get_or db.block_lengths index 0 in
      let fits =
        All-get_or (λ l. l ≤ db.block_size) db.block_lengths index 0 whole.fits (omega arith) in
      let start = sum_lengths (take index db.block_lengths) in
      let block = take len (drop start db.entries) in
      omega (
        arith,
        length-append block (replicate (db.block_size - length block) 0),
        length-take len (drop start db.entries),
        length-replicate {A = ℕ} (db.block_size - length block) 0,
      )

  -- The bits of all vectors together.
  xor_bits-secret_share :
      (num_columns n iy : ℕ) (rand : List ℕ) (j : ℕ)
      → n ≢ 0
      → (n - 1) * (num_columns / 8 + 1) ≤ length rand
      → iy < num_columns
      → xor_bits (secret_share num_columns n iy rand) j ≡ (if j == iy then 1 else 0)
  xor_bits-secret_share num_columns n iy rand j some_server enough below =
      xor_bits-xor_all (secret_share num_columns n iy rand) j
      ∙ ap (λ (b : ℕ). b / 2 ^ (j % 8) % 2)
          (secret_share-xor num_columns n iy rand (j / 8) (omega arith) enough).1
      ∙ vector_bit-unit_vector (num_columns / 8 + 1) iy j (omega arith)

  -- What these bits select.
  selected_byte-entry :
      (db : BytesDb) (whole : IsWhole db) (n ix iy p : ℕ) (rand : List ℕ)
      → n ≢ 0
      → (n - 1) * (db.num_columns / 8 + 1) ≤ length rand
      → ix < db.num_rows
      → iy < db.num_columns
      → selected_byte
          (row_bytes db ix)
          (xor_bits (secret_share db.num_columns n iy rand))
          (row_lens db ix)
          0
          0
          p
        ≡ byte_at (entry db (ix * db.num_columns + iy)) p
  selected_byte-entry db whole n ix iy p rand some_server enough row_below column_below =
      let cols = db.num_columns in
      let vs = secret_share cols n iy rand in
      let bit : (j : ℕ) → xor_bits vs j ≡ (if j == iy then 1 else 0) =
        λ j. xor_bits-secret_share cols n iy rand j some_server enough column_below in
      let columns = (row-fits db whole ix row_below).0 in
      let first : 0 + iy ≡ iy = omega arith in
      selected_byte_one (row_bytes db ix) (xor_bits vs) (row_lens db ix) iy 0 0 p (omega arith)
        (rw first (
          let here : (iy == iy) ≡ true = ground arith in
          bit iy ∙ ap (λ (t : Bool). if t then 1 else 0) here))
        (λ k away.
          let differ : (k == iy) ≡ false = ground arith in
          bit k ∙ ap (λ (t : Bool). if t then 1 else 0) differ)
      ∙ ap (λ (b : List ℕ). byte_at b p) (row_entry db whole ix iy row_below column_below)

  -- For a database with a length for each block, none above the block size, and bytes for all blocks, an
  -- index of one of its blocks, any number of servers but none and two, and enough random bytes: the
  -- query is made without a panic, all servers answer it, and what the client adds up is the block at the
  -- index, filled up with zeros to the block size.
  pub point_query-answer-reconstruct :
      (keys : PointKeys) (db : BytesDb) (index n : ℕ) (rand : List ℕ)
      → IsWhole db
      → n ≢ 0
      → n ≢ 2
      → (n - 1) * (db.num_columns / 8 + 1) ≤ length rand
      → index < db.num_rows * db.num_columns
      → (vectors : List (List ℕ)) × (ix : ℕ) × (iy : ℕ) × (answers : List (List ℕ)) × (point_query
            keys db.num_columns index n rand
          ≡ ok (vectors, ix, iy))
        × (all_answers keys db n vectors ≡ ok answers)
        × (reconstruct_value_pir answers db.block_size ix (replicate db.block_size 0)
            ≡ ok (filled_entry db index))
  unfolding point_query vector_to_matrix_indices
  point_query-answer-reconstruct keys db index n rand whole some_server others enough below =
      let cols = db.num_columns in
      let bs = db.block_size in
      let (row_below, column_below) = index-lt index db.num_rows cols below in
      let split = div-add-mod index cols in
      let here : index / cols * cols + index % cols ≡ index = omega arith in
      let some_columns : (cols == 0) ≡ false = ground arith in
      let not_two : (n == 2) ≡ false = ground arith in
      let not_none : (n == 0) ≡ false = ground arith in
      let vs = secret_share cols n (index % cols) rand in
      let (answers, runs, fulls, at) =
        all_answers-Answered keys db whole n (index / cols) others row_below vs
          (length-secret_share cols n (index % cols) rand enough) in
      let (out, run, len, at') =
        reconstruct_value_pir-xor_all answers bs (index / cols) (replicate bs 0)
          (length-replicate bs 0) fulls in
      (
        vs,
        index / cols,
        index % cols,
        answers,
        rw (some_columns, not_two, not_none) refl,
        runs,
        run
            ∙ ap ok (
                get_or_ext 0 out (filled_entry db index)
                  (len ∙ sym (length-filled_entry db index whole))
                  (λ p inside.
                    at' p (omega arith)
                    ∙ ap (λ (b : ℕ). bit_xor b (xor_all answers (index / cols * bs + p)))
                        (byte_at-zeros bs p)
                    ∙ zero-xor _
                    ∙ xor_all-xor_bits (row_bytes db (index / cols)) (row_lens db (index / cols)) bs
                        (index / cols) p vs answers (at p (omega arith))
                    ∙ selected_byte-entry db whole n (index / cols) (index % cols) p rand
                        some_server enough row_below column_below
                    ∙ ap (λ (i : ℕ). byte_at (entry db i) p) here
                    ∙ sym (byte_at-filled_entry db index p))),
      )
