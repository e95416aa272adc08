-- ===== src/Matrix/Product.antt =====
-- The loops of the C functions: each place of a product is a sum of products, modulo 2^32.
use apir_code.Base.{
  bit_and-zero, bit_and-ones, length, set, replicate, All, length-set, length-replicate, All-get_or,
  IsU32, u32, byte_at, ℕ, zero, suc, ◌+◌, ◌-◌, ◌*◌, ◌^◌, ◌≤◌, ◌<◌, bit_and, ◌≡◌, refl, sym, ap, ◌∙◌,
  subst, ◌≢◌, ◌⊎◌, inl, inr, List, [], ◌∷◌, arith,
}
use native.Mathlib.Nat.{mul-le-mul_left}
use native.Mathlib.Decide.{ℕ_discrete}
use apir_code.Matrix.{add_row, add_products, all_rows, multiply, binary_multiply}

-- The sum of the first `n` values of `f` from `k` on.
unfoldable pub sum_from : (ℕ → ℕ) → ℕ → ℕ → ℕ
sum_from f k zero = 0
sum_from f k (suc n) = f k + sum_from f (suc k) n

set_at_here : (xs : List ℕ) (i v : ℕ) → i < length xs → byte_at (set xs i v) i ≡ v
set_at_here [] i v h = absurd (omega arith)
set_at_here (x ∷ xs) zero v h = refl
set_at_here (x ∷ xs) (suc i) v h = set_at_here xs i v (omega arith)

set_at_other : (xs : List ℕ) (i j v : ℕ) → i ≢ j → byte_at (set xs i v) j ≡ byte_at xs j
set_at_other [] i j v h = refl
set_at_other (x ∷ xs) zero zero v h = absurd (h refl)
set_at_other (x ∷ xs) zero (suc j) v h = refl
set_at_other (x ∷ xs) (suc i) zero v h = refl
set_at_other (x ∷ xs) (suc i) (suc j) v h = set_at_other xs i j v (λ e. h (ap suc e))

length-add_row :
    (term : ℕ → ℕ) (base left j : ℕ) (out : List ℕ)
    → length (add_row term base left j out) ≡ length out
unfolding add_row
length-add_row term base zero j out = refl
length-add_row term base (suc left) j out =
    length-add_row term base left (suc j) _ ∙ length-set out (base + j) _

-- A place that the innermost loop does not reach.
add_row_other :
    (term : ℕ → ℕ) (base left j : ℕ) (out : List ℕ) (p : ℕ)
    → (p < base + j) ⊎ (base + j + left ≤ p)
    → byte_at (add_row term base left j out) p ≡ byte_at out p
unfolding add_row
add_row_other term base zero j out p h = refl
add_row_other term base (suc left) j out p h =
    add_row_other term base left (suc j) _ p (omega arith)
    ∙ set_at_other out (base + j) p _ (λ e. omega arith)

-- A place that it reaches.
add_row_here :
    (term : ℕ → ℕ) (base left j : ℕ) (out : List ℕ) (q : ℕ)
    → j ≤ q
    → q < j + left
    → base + q < length out
    → byte_at (add_row term base left j out) (base + q) ≡ u32 (byte_at out (base + q) + term q)
unfolding add_row
add_row_here term base zero j out q h k l = absurd (omega arith)
add_row_here term base (suc left) j out q h k l = elim (ℕ_discrete j q) [
  | yes same ↦
      add_row_other term base left (suc j) _ (base + q) (inl (omega arith))
      ∙ subst
          (λ (i : ℕ).
            byte_at (set out (base + j) (u32 (byte_at out (base + j) + term j))) (base + i)
            ≡ u32 (byte_at out (base + i) + term i))
          same (set_at_here out (base + j) _ (omega arith))
  | no other ↦
      add_row_here term base left (suc j) _ q (omega arith) (omega arith)
        (omega (arith, length-set out (base + j) (u32 (byte_at out (base + j) + term j))))
      ∙ ap (λ (v : ℕ). u32 (v + term q))
          (set_at_other out (base + j) (base + q) _ (λ e. other (omega arith)))
]

module _ (term : ℕ → ℕ → ℕ) (base b_cols : ℕ) where
  length-add_products :
      (left k : ℕ) (out : List ℕ) → length (add_products term base b_cols left k out) ≡ length out
  unfolding add_products
  length-add_products zero k out = refl
  length-add_products (suc left) k out =
      length-add_products left (suc k) _ ∙ length-add_row (term k) base b_cols 0 out

  add_products_other :
      (left k : ℕ) (out : List ℕ) (p : ℕ)
      → (p < base) ⊎ (base + b_cols ≤ p)
      → byte_at (add_products term base b_cols left k out) p ≡ byte_at out p
  unfolding add_products
  add_products_other zero k out p h = refl
  add_products_other (suc left) k out p h =
      add_products_other left (suc k) _ p h
      ∙ add_row_other (term k) base b_cols 0 out p (omega arith)

  add_products_here :
      (left k : ℕ) (out : List ℕ) (q : ℕ)
      → q < b_cols
      → base + q < length out
      → byte_at out (base + q) < 2 ^ 32
      → byte_at (add_products term base b_cols left k out) (base + q)
        ≡ u32 (byte_at out (base + q) + sum_from (λ i. term i q) k left)
  unfolding add_products sum_from
  add_products_here zero k out q h l s = omega arith
  add_products_here (suc left) k out q h l s =
      let e = add_row_here (term k) base b_cols 0 out q (omega arith) (omega arith) l in
      add_products_here left (suc k) (add_row (term k) base b_cols 0 out) q h
        (omega (arith, length-add_row (term k) base b_cols 0 out)) (omega (arith, e))
      ∙ rw e (omega arith)

row_end : (w i r : ℕ) → i < r → w * i + w ≤ w * r
row_end w i r h = let below : w * suc i ≤ w * r = mul-le-mul_left w (omega arith) in omega arith

module _ (term : ℕ → ℕ → ℕ → ℕ) (a_cols b_cols : ℕ) where
  all_rows_other :
      (left i : ℕ) (out : List ℕ) (r q : ℕ)
      → q < b_cols
      → r < i
      → byte_at (all_rows term a_cols b_cols left i out) (b_cols * r + q)
        ≡ byte_at out (b_cols * r + q)
  unfolding all_rows
  all_rows_other zero i out r q h k = refl
  all_rows_other (suc left) i out r q h k =
      all_rows_other left (suc i) _ r q h (omega arith)
      ∙ add_products_other (term i) (b_cols * i) b_cols a_cols 0 out (b_cols * r + q)
          (inl (omega (arith, row_end b_cols r i k)))

  all_rows_here :
      (left i : ℕ) (out : List ℕ) (r q : ℕ)
      → q < b_cols
      → i ≤ r
      → r < i + left
      → b_cols * r + q < length out
      → byte_at out (b_cols * r + q) < 2 ^ 32
      → byte_at (all_rows term a_cols b_cols left i out) (b_cols * r + q)
        ≡ u32 (byte_at out (b_cols * r + q) + sum_from (λ k. term r k q) 0 a_cols)
  unfolding all_rows
  all_rows_here zero i out r q h k l m s = absurd (omega arith)
  all_rows_here (suc left) i out r q h k l m s = elim (ℕ_discrete i r) [
    | yes same ↦
        all_rows_other left (suc i) _ r q h (omega arith)
        ∙ subst
            (λ (x : ℕ).
              byte_at (add_products (term x) (b_cols * x) b_cols a_cols 0 out) (b_cols * r + q)
              ≡ u32 (byte_at out (b_cols * r + q) + sum_from (λ j. term r j q) 0 a_cols))
            (sym same) (add_products_here (term r) (b_cols * r) b_cols a_cols 0 out q h m s)
    | no other ↦
        let e =
          add_products_other (term i) (b_cols * i) b_cols a_cols 0 out (b_cols * r + q)
            (inr (omega (arith, row_end b_cols i r (omega arith)))) in
        all_rows_here left (suc i) (add_products (term i) (b_cols * i) b_cols a_cols 0 out) r q h
          (omega arith) (omega arith)
          (omega (arith, length-add_products (term i) (b_cols * i) b_cols a_cols 0 out))
          (omega (arith, e))
        ∙ rw e refl
  ]

pub length-all_rows :
    (term : ℕ → ℕ → ℕ → ℕ) (a_cols b_cols left i : ℕ) (out : List ℕ)
    → length (all_rows term a_cols b_cols left i out) ≡ length out
unfolding all_rows
length-all_rows term a_cols b_cols zero i out = refl
length-all_rows term a_cols b_cols (suc left) i out =
    length-all_rows term a_cols b_cols left (suc i) _
    ∙ length-add_products (term i) (b_cols * i) b_cols a_cols 0 out

pub zeros_at : (n j : ℕ) → byte_at (replicate n 0) j ≡ 0
zeros_at zero j = refl
zeros_at (suc n) zero = refl
zeros_at (suc n) (suc j) = zeros_at n j

place-lt : (rows cols r q : ℕ) → r < rows → q < cols → cols * r + q < rows * cols
place-lt rows cols r q h k = omega (arith, row_end cols r rows h)

pub sum_from_ext : (f g : ℕ → ℕ) (k n : ℕ) → ((i : ℕ) → f i ≡ g i) → sum_from f k n ≡ sum_from g k n
unfolding sum_from
sum_from_ext f g k zero h = refl
sum_from_ext f g k (suc n) h = omega (arith, h k, sum_from_ext f g (suc k) n h)

-- A word under the mask of a byte that is 0 or 1.
masked :
    (a b : List ℕ) (i j : ℕ)
    → All IsU32 a
    → All (λ v. v < 2) b
    → bit_and (byte_at a i) (u32 (2 ^ 32 - byte_at b j)) ≡ byte_at a i * byte_at b j
masked a b i j words bits = mask_of (byte_at b j) (All-get_or (λ v. v < 2) b j 0 bits (omega arith))
  where
    word : IsU32 (byte_at a i)
    word = All-get_or IsU32 a i 0 words (omega arith)

    mask_of : (v : ℕ) → v < 2 → bit_and (byte_at a i) (u32 (2 ^ 32 - v)) ≡ byte_at a i * v
    mask_of zero h = bit_and-zero (byte_at a i) ∙ omega arith
    mask_of (suc zero) h = bit_and-ones 32 (byte_at a i) word ∙ omega arith
    mask_of (suc (suc v)) h = absurd (omega arith)

-- multiply on a fresh slice: place (r, q) of the product is the sum over `k` of a(r, k) * b(k, q),
-- modulo 2^32.
pub multiply_at :
    (a_rows a_cols b_cols : ℕ) (a b : List ℕ) (r q : ℕ)
    → r < a_rows
    → q < b_cols
    → byte_at (multiply a_rows a_cols b_cols a b (replicate (a_rows * b_cols) 0)) (b_cols * r + q)
      ≡ u32 (sum_from (λ k. u32 (byte_at a (a_cols * r + k) * byte_at b (b_cols * k + q))) 0 a_cols)
unfolding multiply
multiply_at a_rows a_cols b_cols a b r q h k =
    let z = zeros_at (a_rows * b_cols) (b_cols * r + q) in
    all_rows_here _ a_cols b_cols a_rows 0 (replicate (a_rows * b_cols) 0) r q k (omega arith)
      (omega arith)
      (omega (arith, length-replicate {A = ℕ} (a_rows * b_cols) 0, place-lt a_rows b_cols r q h k))
      (omega (arith, z))
    ∙ ap u32 (omega (arith, z))

-- binary_multiply by a matrix of zeros and ones: place (r, q) is the sum of those a(r, k) where b(k, q)
-- is 1, modulo 2^32.
pub binary_multiply_at :
    (a_rows a_cols b_cols : ℕ) (a b : List ℕ) (r q : ℕ)
    → r < a_rows
    → q < b_cols
    → All IsU32 a
    → All (λ v. v < 2) b
    → byte_at
        (binary_multiply a_rows a_cols b_cols a b (replicate (a_rows * b_cols) 0))
        (b_cols * r + q)
      ≡ u32 (sum_from (λ k. byte_at a (a_cols * r + k) * byte_at b (b_cols * k + q)) 0 a_cols)
unfolding binary_multiply
binary_multiply_at a_rows a_cols b_cols a b r q h k words bits =
    let z = zeros_at (a_rows * b_cols) (b_cols * r + q) in
    all_rows_here _ a_cols b_cols a_rows 0 (replicate (a_rows * b_cols) 0) r q k (omega arith)
      (omega arith)
      (omega (arith, length-replicate {A = ℕ} (a_rows * b_cols) 0, place-lt a_rows b_cols r q h k))
      (omega (arith, z))
    ∙ ap u32 (
        omega (
          arith,
          z,
          sum_from_ext _ _ 0 a_cols (λ j. masked a b (a_cols * r + j) (b_cols * j + q) words bits),
        ))
