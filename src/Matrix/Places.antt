-- ===== src/Matrix/Places.antt =====
-- Products, sums and differences of matrices that fit each other return, and what stands at their places.
use apir_code.Base.{
  ltb, ◌==◌, length, replicate, tabulate, All, length-replicate, length-tabulate, get_or-tabulate,
  All-tabulate, IsU32, u32, byte_at, ok, ℕ, zero, suc, ◌+◌, ◌-◌, ◌*◌, ◌^◌, ◌≤◌, ◌<◌, ◌≡◌, refl, sym,
  ap, ap₂, ◌∙◌, ◌≢◌, true, false, List, [], ◌∷◌, arith,
}
use apir_code.Matrix.{
  Matrix, MatrixBytes, new, first_place, multiply, binary_multiply, mul, binary_mul, add, sub,
}
use apir_code.Matrix.Product.{sum_from, multiply_at, binary_multiply_at, length-all_rows}

-- A matrix of the given size with a place for each row and column.
pub record IsSized (rows cols : ℕ) (m : Matrix) : Type 0 where
  pub all_rows' : m.rows ≡ rows
  pub all_cols : m.cols ≡ cols
  pub all_places : length m.data' ≡ rows * cols

-- A matrix of the given size with at least a place for each row and column: NewRandom leaves more words behind.
pub record IsFilled (rows cols : ℕ) (m : Matrix) : Type 0 where
  pub all_rows' : m.rows ≡ rows
  pub all_cols : m.cols ≡ cols
  pub all_places : rows * cols ≤ length m.data'

pub sized-IsFilled : (rows cols : ℕ) (m : Matrix) → IsSized rows cols m → IsFilled rows cols m
sized-IsFilled rows cols m sized = record {
  all_rows' = sized.all_rows';
  all_cols = sized.all_cols;
  all_places = let e = sized.all_places in omega arith;
}

first_place_ok : (xs : List ℕ) → length xs ≢ 0 → first_place xs ≡ ok tt
unfolding first_place
first_place_ok [] h = absurd (h refl)
first_place_ok (x ∷ xs) h = refl

pub some_area : (r c : ℕ) → r ≢ 0 → c ≢ 0 → r * c ≢ 0
some_area zero c h k = absurd (h refl)
some_area (suc r) zero h k = absurd (k refl)
some_area (suc r) (suc c) h k = omega arith

length-multiply :
    (a_rows a_cols b_cols : ℕ) (a b out : List ℕ)
    → length (multiply a_rows a_cols b_cols a b out) ≡ length out
unfolding multiply
length-multiply a_rows a_cols b_cols a b out = length-all_rows _ a_cols b_cols a_rows 0 out

length-binary_multiply :
    (a_rows a_cols b_cols : ℕ) (a b out : List ℕ)
    → length (binary_multiply a_rows a_cols b_cols a b out) ≡ length out
unfolding binary_multiply
length-binary_multiply a_rows a_cols b_cols a b out = length-all_rows _ a_cols b_cols a_rows 0 out

-- A matrix of `rows` rows times another.
module _ (a : Matrix) (rows n cols : ℕ) (sized : IsFilled rows n a) (some_cols : cols ≢ 0)
    (some_rows : rows ≢ 0) (some_n : n ≢ 0) where
  some_product : rows * cols ≢ 0
  some_product = some_area rows cols some_rows some_cols

  some_row : length a.data' ≢ 0
  some_row e = some_area rows n some_rows some_n (let filled = sized.all_places in omega arith)

  out_data : ℕ → List ℕ
  out_data b_cols = replicate (a.rows * b_cols) 0

  length-out_data : (b_cols : ℕ) → b_cols ≡ cols → length (out_data b_cols) ≡ rows * cols
  unfolding out_data
  length-out_data b_cols e =
      length-replicate {A = ℕ} (a.rows * b_cols) 0 ∙ ap₂ ◌*◌ sized.all_rows' e

  -- The terms of a place, where the slices are read by the sizes of the matrices.
  same_terms :
      (f : ℕ → ℕ → ℕ) (b_cols r q : ℕ)
      → b_cols ≡ cols
      → sum_from (λ k. f (a.cols * r + k) (b_cols * k + q)) 0 a.cols
        ≡ sum_from (λ k. f (n * r + k) (cols * k + q)) 0 n
  same_terms f b_cols r q e =
      ap₂ (λ (w v : ℕ). sum_from (λ k. f (w * r + k) (v * k + q)) 0 w) sized.all_cols e

  pub mul_at :
      (b : Matrix)
      → b.rows ≡ n
      → b.cols ≡ cols
      → length b.data' ≢ 0
      → (p : Matrix) × (mul a b ≡ ok p)
        × IsSized rows cols p
        × ((r q : ℕ)
            → r < rows
            → q < cols
            → byte_at p.data' (cols * r + q)
              ≡ u32 (
                  sum_from
                    (λ k. u32 (byte_at a.data' (n * r + k) * byte_at b.data' (cols * k + q)))
                    0
                    n))
  unfolding mul new out_data
  mul_at b rows' cols' some_data =
      let e1 = sized.all_rows' in
      let e2 = sized.all_cols in
      let fits : (a.cols == b.rows) ≡ true = ground arith in
      let out = out_data b.cols in
      let len = length-out_data b.cols cols' in
      let some_out : length out ≢ 0 = λ e. some_product (sym len ∙ e) in
      let data' = multiply a.rows a.cols b.cols a.data' b.data' out in
      (
        record { rows = a.rows; cols = b.cols; data' = data' },
        rw
            (
              fits,
              first_place_ok a.data' some_row,
              first_place_ok b.data' some_data,
              first_place_ok out some_out,
            )
            refl,
        record {
          all_rows' = e1;
          all_cols = cols';
          all_places = length-multiply a.rows a.cols b.cols a.data' b.data' out ∙ len;
        },
        λ r q inside below.
            ap (λ (w : ℕ). byte_at data' (w * r + q)) (sym cols')
            ∙ multiply_at a.rows a.cols b.cols a.data' b.data' r q (omega arith) (omega arith)
            ∙ ap u32
                (same_terms (λ x y. u32 (byte_at a.data' x * byte_at b.data' y)) b.cols r q cols'),
      )

  pub binary_mul_at :
      (b : MatrixBytes)
      → b.rows ≡ n
      → b.cols ≡ cols
      → length b.data' ≢ 0
      → All IsU32 a.data'
      → All (λ v. v < 2) b.data'
      → (p : Matrix) × (binary_mul a b ≡ ok p)
        × IsSized rows cols p
        × ((r q : ℕ)
            → r < rows
            → q < cols
            → byte_at p.data' (cols * r + q)
              ≡ u32 (
                  sum_from (λ k. byte_at a.data' (n * r + k) * byte_at b.data' (cols * k + q)) 0 n))
  unfolding binary_mul new out_data
  binary_mul_at b rows' cols' some_data words bits =
      let e1 = sized.all_rows' in
      let e2 = sized.all_cols in
      let fits : (a.cols == b.rows) ≡ true = ground arith in
      let out = out_data b.cols in
      let len = length-out_data b.cols cols' in
      let some_out : length out ≢ 0 = λ e. some_product (sym len ∙ e) in
      let data' = binary_multiply a.rows a.cols b.cols a.data' b.data' out in
      (
        record { rows = a.rows; cols = b.cols; data' = data' },
        rw
            (
              fits,
              first_place_ok a.data' some_row,
              first_place_ok b.data' some_data,
              first_place_ok out some_out,
            )
            refl,
        record {
          all_rows' = e1;
          all_cols = cols';
          all_places = length-binary_multiply a.rows a.cols b.cols a.data' b.data' out ∙ len;
        },
        λ r q inside below.
            ap (λ (w : ℕ). byte_at data' (w * r + q)) (sym cols')
            ∙ binary_multiply_at a.rows a.cols b.cols a.data' b.data' r q (omega arith)
                (omega arith) words bits
            ∙ ap u32 (same_terms (λ x y. byte_at a.data' x * byte_at b.data' y) b.cols r q cols'),
      )

-- The vector of a row and its sums and differences with another.
module _ (a b : Matrix) (cols : ℕ) (sized_a : IsSized 1 cols a) (sized_b : IsSized 1 cols b) where
  fitting :
      (a.cols == b.cols ≡ true)
      × (a.rows == b.rows ≡ true)
      × (ltb (length b.data') (length a.data') ≡ false)
  fitting =
      let e1 = sized_a.all_rows' in
      let e2 = sized_a.all_cols in
      let e3 = sized_a.all_places in
      let f1 = sized_b.all_rows' in
      let f2 = sized_b.all_cols in
      let f3 = sized_b.all_places in (ground arith, ground arith, ground arith)

  pub add_at :
      (p : Matrix) × (add a b ≡ ok p)
      × IsSized 1 cols p
      × All IsU32 p.data'
      × ((q : ℕ) → q < cols → byte_at p.data' q ≡ u32 (byte_at a.data' q + byte_at b.data' q))
  unfolding add
  add_at =
      let (same_cols, same_rows, long) = fitting in
      let f : ℕ → ℕ = λ i. u32 (byte_at a.data' i + byte_at b.data' i) in
      let places = sized_a.all_places in
      (
        record a { data' = tabulate (length a.data') f },
        rw (same_cols, same_rows, long) refl,
        record {
          all_rows' = sized_a.all_rows';
          all_cols = sized_a.all_cols;
          all_places = length-tabulate (length a.data') f ∙ places;
        },
        All-tabulate IsU32 (length a.data') f (λ i. omega arith),
        λ q below. get_or-tabulate (length a.data') q f 0 (omega arith),
      )

  pub sub_at :
      (p : Matrix) × (sub a b ≡ ok p)
      × IsSized 1 cols p
      × ((q : ℕ)
          → q < cols
          → byte_at p.data' q ≡ u32 (byte_at a.data' q + u32 (2 ^ 32 - byte_at b.data' q)))
  unfolding sub
  sub_at =
      let (same_cols, same_rows, long) = fitting in
      let f : ℕ → ℕ = λ i. u32 (byte_at a.data' i + u32 (2 ^ 32 - byte_at b.data' i)) in
      let places = sized_a.all_places in
      (
        record a { data' = tabulate (length a.data') f },
        rw (same_cols, same_rows, long) refl,
        record {
          all_rows' = sized_a.all_rows';
          all_cols = sized_a.all_cols;
          all_places = length-tabulate (length a.data') f ∙ places;
        },
        λ q below. get_or-tabulate (length a.data') q f 0 (omega arith),
      )
