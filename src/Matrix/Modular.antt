-- ===== src/Matrix/Modular.antt =====
-- Sums of products modulo 2^32: what may be reduced before and after, and the exchange of two sums.
use apir_code.Base.{
  u32, ℕ, zero, suc, ◌+◌, ◌*◌, ◌/◌, ◌^◌, ◌≤◌, ◌<◌, ◌≡◌, refl, sym, ap, ◌∙◌, ◌≢◌, arith,
}
use native.Mathlib.Decide.{ℕ_discrete}
use apir_code.Matrix.Product.{sum_from, sum_from_ext}

u32-multiple : (k r b : ℕ) → u32 ((2 ^ 32 * k + r) * b) ≡ u32 (r * b)
u32-multiple k r b =
    let e : (2 ^ 32 * k + r) * b ≡ 2 ^ 32 * (k * b) + r * b = grind arith in omega arith

-- A factor may be reduced.
pub u32-mul_left : (a b : ℕ) → u32 (u32 a * b) ≡ u32 (a * b)
u32-mul_left a b =
    let split : a ≡ 2 ^ 32 * (a / 2 ^ 32) + u32 a = omega arith in
    sym (u32-multiple (a / 2 ^ 32) (u32 a) b) ∙ ap (λ (x : ℕ). u32 (x * b)) (sym split)

pub u32-mul_right : (a b : ℕ) → u32 (a * u32 b) ≡ u32 (a * b)
u32-mul_right a b =
    let c1 : a * u32 b ≡ u32 b * a = grind arith in
    let c2 : b * a ≡ a * b = grind arith in ap u32 c1 ∙ u32-mul_left b a ∙ ap u32 c2

-- Sums of values that are the same modulo 2^32.
pub sum_from_mod :
    (f g : ℕ → ℕ) (k n : ℕ)
    → ((i : ℕ) → i < k + n → u32 (f i) ≡ u32 (g i))
    → u32 (sum_from f k n) ≡ u32 (sum_from g k n)
unfolding sum_from
sum_from_mod f g k zero h = refl
sum_from_mod f g k (suc n) h =
    let here = h k (omega arith) in
    let rest = sum_from_mod f g (suc k) n (λ i below. h i (omega arith)) in omega arith

pub sum_from-add :
    (f g : ℕ → ℕ) (k n : ℕ) → sum_from (λ i. f i + g i) k n ≡ sum_from f k n + sum_from g k n
unfolding sum_from
sum_from-add f g k zero = omega arith
sum_from-add f g k (suc n) = omega (arith, sum_from-add f g (suc k) n)

pub sum_from-mul : (f : ℕ → ℕ) (c k n : ℕ) → sum_from (λ i. f i * c) k n ≡ sum_from f k n * c
unfolding sum_from
sum_from-mul f c k zero = omega arith
sum_from-mul f c k (suc n) =
    let rest = sum_from-mul f c (suc k) n in
    let e : (f k + sum_from f (suc k) n) * c ≡ f k * c + sum_from f (suc k) n * c = grind arith in
    omega arith

pub mul-sum_from : (f : ℕ → ℕ) (c k n : ℕ) → sum_from (λ i. c * f i) k n ≡ c * sum_from f k n
unfolding sum_from
mul-sum_from f c k zero = omega arith
mul-sum_from f c k (suc n) =
    let rest = mul-sum_from f c (suc k) n in
    let e : c * (f k + sum_from f (suc k) n) ≡ c * f k + c * sum_from f (suc k) n = grind arith in
    omega arith

sum_from_none : (f : ℕ → ℕ) (k n : ℕ) → ((x : ℕ) → k ≤ x → f x ≡ 0) → sum_from f k n ≡ 0
unfolding sum_from
sum_from_none f k zero none_left = refl
sum_from_none f k (suc n) none_left = omega (
  arith,
  none_left k (omega arith),
  sum_from_none f (suc k) n (λ x above. none_left x (omega arith)),
)

-- Two sums may be exchanged.
pub sum_from_swap :
    (f : ℕ → ℕ → ℕ) (k n l m : ℕ)
    → sum_from (λ x. sum_from (λ y. f x y) l m) k n ≡ sum_from (λ y. sum_from (λ x. f x y) k n) l m
unfolding sum_from
sum_from_swap f k zero l m = sym (sum_from_none (λ y. 0) l m (λ x above. refl))
sum_from_swap f k (suc n) l m =
    ap (λ (s : ℕ). sum_from (λ y. f k y) l m + s) (sum_from_swap f (suc k) n l m)
    ∙ sym (sum_from-add (λ y. f k y) (λ y. sum_from (λ x. f x y) (suc k) n) l m)

-- Only one term is left.
pub sum_from_one :
    (f : ℕ → ℕ) (k n i : ℕ) → k ≤ i → i < k + n → ((x : ℕ) → x ≢ i → f x ≡ 0) → sum_from f k n ≡ f i
unfolding sum_from
sum_from_one f k zero i low high others = absurd (omega arith)
sum_from_one f k (suc n) i low high others = elim (ℕ_discrete k i) [
  | yes same ↦
      let rest = sum_from_none f (suc k) n (λ x above. others x (λ e. absurd (omega arith))) in
      ap (λ (t : ℕ). f k + t) rest ∙ omega arith ∙ ap f same
  | no other ↦
      let rest = sum_from_one f (suc k) n i (omega arith) (omega arith) others in
      omega (arith, others k other)
]

-- The product of three matrices, at one place, in both orders.
pub sum_products_assoc :
    (s : ℕ → ℕ) (a : ℕ → ℕ → ℕ) (d : ℕ → ℕ) (n l : ℕ)
    → sum_from (λ k. sum_from (λ x. s x * a x k) 0 n * d k) 0 l
      ≡ sum_from (λ x. s x * sum_from (λ k. a x k * d k) 0 l) 0 n
sum_products_assoc s a d n l =
    sum_from_ext _ _ 0 l (λ k. sym (sum_from-mul (λ x. s x * a x k) (d k) 0 n))
    ∙ sum_from_swap (λ k x. s x * a x k * d k) 0 l 0 n
    ∙ sum_from_ext _ _ 0 n
        (λ x. sum_from_ext _ _ 0 l (λ k. grind arith) ∙ mul-sum_from (λ k. a x k * d k) (s x) 0 l)
