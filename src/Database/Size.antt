-- ===== src/Database/Size.antt =====
-- CalculateNumRowsAndColumns of lib/database/db.go and IncreaseToNextSquare of lib/utils/utils.go, over the
-- floating point numbers of Go.
use apir_code.Base.{
  leb, ◌==◌, if◌then◌else◌, leb→le, ==_iff, Bool-cases, ℕ, ◌+◌, ◌*◌, ◌/◌, ◌^◌, ◌≤◌, ◌<◌, ◌≡◌, refl,
  ap, ◌∙◌, ◌≢◌, inl, inr, Bool, true, false, arith,
}
use native.Mathlib.Nat.{mul-le-mul}

-- Go's floats, of which the code uses what an int becomes in four ways.
pub record Floats : Type 0 where
  -- The whole part of math.Sqrt(float64(n)), and whether math.Modf leaves a fraction of 0.
  pub whole_sqrt : ℕ → ℕ
  pub is_whole_sqrt : ℕ → Bool
  -- int(math.Pow(i, 2)) for a whole number i.
  pub square : ℕ → ℕ
  -- int(float32(n) * 0.1), of the float32 nearest to 0.1.
  pub tenth : ℕ → ℕ

-- Where the arithmetic of IEEE 754 gives the exact whole numbers: square roots of float64 up to 2 ^ 52, squares
-- that are no greater, and tenths of float32 below 2 ^ 20.
pub record IsExact (floats : Floats) : Type 0 where
  pub whole_sqrt_lem :
      (n : ℕ)
      → n ≤ 2 ^ 52
      → (floats.whole_sqrt n * floats.whole_sqrt n ≤ n)
        × (n < (floats.whole_sqrt n + 1) * (floats.whole_sqrt n + 1))
  pub is_whole_sqrt_lem :
      (n : ℕ)
      → n ≤ 2 ^ 52
      → floats.is_whole_sqrt n ≡ (floats.whole_sqrt n * floats.whole_sqrt n == n)
  pub square_lem : (n : ℕ) → n ≤ 2 ^ 26 → floats.square n ≡ n * n
  pub tenth_lem : (n : ℕ) → n < 2 ^ 20 → floats.tenth n ≡ n / 10

module _ ⦃floats : Floats⦄ where
  -- IncreaseToNextSquare
  unfoldable pub increase_to_next_square : ℕ → ℕ
  increase_to_next_square num =
      if floats.is_whole_sqrt num then num else floats.square (floats.whole_sqrt num + 1)

  -- CalculateNumRowsAndColumns: the rows and the columns.
  unfoldable pub calculate_num_rows_and_columns : ℕ → Bool → ℕ × ℕ
  calculate_num_rows_and_columns num_blocks matrix =
      let side = floats.whole_sqrt (increase_to_next_square num_blocks) in
      if matrix then (side, side) else (1, num_blocks)

pub square_lt : (a b : ℕ) → a * a < (b + 1) * (b + 1) → a ≤ b
square_lt a b h = elim (Bool-cases (leb a b)) [
  | inl le ↦ leb→le a b le
  | inr gt ↦
      let above : b + 1 ≤ a = ground arith in
      let squares = mul-le-mul above above in absurd (omega arith)
]

module _ ⦃floats : Floats⦄ (exact : IsExact floats) where
  whole_sqrt-square : (a : ℕ) → a * a ≤ 2 ^ 52 → floats.whole_sqrt (a * a) ≡ a
  whole_sqrt-square a fits =
      let (low, high) = exact.whole_sqrt_lem (a * a) fits in
      let le1 = square_lt a (floats.whole_sqrt (a * a)) high in
      let le2 = square_lt (floats.whole_sqrt (a * a)) a (omega arith) in omega arith

  -- With the float arithmetic of `IsExact` and at most 2 ^ 52 blocks, the matrix of the blocks is square and
  -- holds them all, and one row and one column fewer hold fewer; without a matrix there is one row of as many
  -- columns.
  pub calculate_num_rows_and_columns_lem :
      (num_blocks : ℕ)
      → num_blocks ≤ 2 ^ 52
      → (side : ℕ) × (calculate_num_rows_and_columns num_blocks true ≡ (side, side))
        × (num_blocks ≤ side * side)
        × ((smaller : ℕ) → smaller < side → smaller * smaller < num_blocks)
        × (calculate_num_rows_and_columns num_blocks false ≡ (1, num_blocks))
  unfolding calculate_num_rows_and_columns increase_to_next_square
  calculate_num_rows_and_columns_lem n fits =
      let (low, high) = exact.whole_sqrt_lem n fits in
      let s = floats.whole_sqrt n in
      let flag = exact.is_whole_sqrt_lem n fits in
      elim (Bool-cases (s * s == n)) [
        | inl whole ↦
            rw (flag, whole)
              (
                s,
                refl,
                omega (arith, (==_iff (s * s) n).0 whole),
                (λ smaller h.
                    let le : smaller + 1 ≤ s = omega arith in
                    let squares = mul-le-mul le le in
                    let same = (==_iff (s * s) n).0 whole in omega arith),
                refl,
              )
        | inr other ↦
            let differ : s * s ≢ n = ground arith in
            let below : s ≤ 67108863 = square_lt s 67108863 (ground arith) in
            let le : s + 1 ≤ 67108864 = omega arith in
            let squares = mul-le-mul le le in
            let next = exact.square_lem (s + 1) (omega arith) in
            rw (flag, other)
              (
                s + 1,
                ap (λ (k : ℕ). (k, k))
                    (ap floats.whole_sqrt next ∙ whole_sqrt-square (s + 1) (omega arith)),
                omega arith,
                (λ smaller h.
                    let le : smaller ≤ s = omega arith in
                    let squares = mul-le-mul le le in ground arith),
                refl,
              )
      ]

  sqrt-zero : (floats.whole_sqrt 0 ≡ 0) × (floats.is_whole_sqrt 0 ≡ true)
  sqrt-zero =
      let (low, high) = exact.whole_sqrt_lem 0 (omega arith) in
      let root : floats.whole_sqrt 0 ≡ 0 =
        omega (arith, square_lt (floats.whole_sqrt 0) 0 (omega arith)) in
      (root, exact.is_whole_sqrt_lem 0 (omega arith) ∙ ap (λ (w : ℕ). w * w == 0) root)

  -- Fewer than ten keys have no blocks, and these no places.
  pub no_places :
      (keys : ℕ) (matrix : Bool)
      → keys < 10
      → (calculate_num_rows_and_columns (floats.tenth keys) matrix).0
          * (calculate_num_rows_and_columns (floats.tenth keys) matrix).1
        ≡ 0
  unfolding calculate_num_rows_and_columns increase_to_next_square
  no_places keys true few =
      let none_left : floats.tenth keys ≡ 0 = exact.tenth_lem keys (omega arith) ∙ omega arith in
      rw (none_left, sqrt-zero.1, sqrt-zero.0) refl
  no_places keys false few =
      let none_left : floats.tenth keys ≡ 0 = exact.tenth_lem keys (omega arith) ∙ omega arith in
      rw none_left refl
