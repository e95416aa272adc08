-- ===== src/Base/Xor.antt =====
-- `bit_xor` at variables: the law for the lowest digit, and from it that bit strings form a
-- commutative group of exponent two. Every law is proved with a bound on its arguments, which halve.
use Prim.Native.Nat.{
  ℕ, zero, suc, ◌+◌, ◌-◌, ◌*◌, ◌/◌, ◌%◌, ◌≤◌, ◌<◌, ◌^◌, bit_xor, bit_xor-bitwise, digits, differ,
}
use mathlib.Core.Path.{◌≡◌, refl, sym, ◌∙◌, ap}
use native.Mathlib.Nat.{le_refl, pow-suc}
use native.Mathlib.Omega.{arith}

-- One digit more to go, where the first number has run out before, changes nothing; nor do `k` more.
one_more : (n a b : ℕ) → a ≤ n → digits (λ y. y) differ (suc n) a b ≡ digits (λ y. y) differ n a b
one_more zero zero b p = refl
one_more (suc n) zero b p = refl
one_more zero (suc a) b p = absurd (omega arith)
one_more (suc n) (suc a) b p =
    ap (λ (d : ℕ). d * 2 + differ (suc a % 2) (b % 2))
      (one_more n (suc a / 2) (b / 2) (omega arith))

some_more :
    (k n m a b : ℕ)
    → m ≡ k + n
    → a ≤ n
    → digits (λ y. y) differ m a b ≡ digits (λ y. y) differ n a b
some_more zero n m a b e p =
    ap (λ (t : ℕ). digits (λ y. y) differ t a b) (let q : m ≡ n = omega arith in q)
some_more (suc k) n zero a b e p = absurd (omega arith)
some_more (suc k) n (suc m) a b e p =
    one_more m a b (omega arith) ∙ some_more k n m a b (omega arith) p

differ_bits : (a b : ℕ) → a < 2 → b < 2 → differ a b ≡ (a + b) % 2
differ_bits zero zero h k = refl
differ_bits zero (suc zero) h k = refl
differ_bits (suc zero) zero h k = refl
differ_bits (suc zero) (suc zero) h k = refl
differ_bits zero (suc (suc b)) h k = absurd (omega arith)
differ_bits (suc zero) (suc (suc b)) h k = absurd (omega arith)
differ_bits (suc (suc a)) b h k = absurd (omega arith)

zero-bit_xor : (b : ℕ) → bit_xor 0 b ≡ b
zero-bit_xor b = bit_xor-bitwise 0 b

pub bit_xor_step : (a b : ℕ) → bit_xor a b ≡ bit_xor (a / 2) (b / 2) * 2 + (a + b) % 2
bit_xor_step zero b = omega (arith, zero-bit_xor b, zero-bit_xor (b / 2))
bit_xor_step (suc a) b = omega (
  arith,
  bit_xor-bitwise (suc a) b,
  bit_xor-bitwise (suc a / 2) (b / 2),
  some_more (a - suc a / 2) (suc a / 2) a (suc a / 2) (b / 2) (omega arith) (le_refl _),
  differ_bits (suc a % 2) (b % 2) (omega arith) (omega arith),
)

bit_xor_comm_below : (n a b : ℕ) → a < n → b < n → bit_xor a b ≡ bit_xor b a
bit_xor_comm_below zero a b h k = absurd (omega arith)
bit_xor_comm_below (suc zero) zero zero h k = refl
bit_xor_comm_below (suc zero) zero (suc b) h k = absurd (omega arith)
bit_xor_comm_below (suc zero) (suc a) b h k = absurd (omega arith)
bit_xor_comm_below (suc (suc n)) a b h k = omega (
  arith,
  bit_xor_step a b,
  bit_xor_step b a,
  bit_xor_comm_below (suc n) (a / 2) (b / 2) (omega arith) (omega arith),
)

pub bit_xor_comm : (a b : ℕ) → bit_xor a b ≡ bit_xor b a
bit_xor_comm a b = bit_xor_comm_below (suc (a + b)) a b (omega arith) (omega arith)

bit_xor_half : (a b : ℕ) → bit_xor a b / 2 ≡ bit_xor (a / 2) (b / 2)
bit_xor_half a b = omega (arith, bit_xor_step a b)

pub bit_xor-mod_two : (a b : ℕ) → bit_xor a b % 2 ≡ (a + b) % 2
bit_xor-mod_two a b = omega (arith, bit_xor_step a b)

bit_xor_assoc_below :
    (n a b c : ℕ) → a < n → b < n → c < n → bit_xor (bit_xor a b) c ≡ bit_xor a (bit_xor b c)
bit_xor_assoc_below zero a b c h k l = absurd (omega arith)
bit_xor_assoc_below (suc zero) zero zero zero h k l = refl
bit_xor_assoc_below (suc zero) zero zero (suc c) h k l = absurd (omega arith)
bit_xor_assoc_below (suc zero) zero (suc b) c h k l = absurd (omega arith)
bit_xor_assoc_below (suc zero) (suc a) b c h k l = absurd (omega arith)
bit_xor_assoc_below (suc (suc n)) a b c h k l =
    let left =
      bit_xor_step (bit_xor a b) c
      ∙ ap (λ (t : ℕ). bit_xor t (c / 2) * 2 + (bit_xor a b + c) % 2) (bit_xor_half a b) in
    let right =
      bit_xor_step a (bit_xor b c)
      ∙ ap (λ (t : ℕ). bit_xor (a / 2) t * 2 + (a + bit_xor b c) % 2) (bit_xor_half b c) in
    omega (
      arith,
      left,
      right,
      bit_xor-mod_two a b,
      bit_xor-mod_two b c,
      bit_xor_assoc_below (suc n) (a / 2) (b / 2) (c / 2) (omega arith) (omega arith) (omega arith),
    )

pub bit_xor_assoc : (a b c : ℕ) → bit_xor (bit_xor a b) c ≡ bit_xor a (bit_xor b c)
bit_xor_assoc a b c =
    bit_xor_assoc_below (suc (a + b + c)) a b c (omega arith) (omega arith) (omega arith)

bit_xor_self_below : (n a : ℕ) → a < n → bit_xor a a ≡ 0
bit_xor_self_below zero a h = absurd (omega arith)
bit_xor_self_below (suc zero) zero h = refl
bit_xor_self_below (suc zero) (suc a) h = absurd (omega arith)
bit_xor_self_below (suc (suc n)) a h =
    omega (arith, bit_xor_step a a, bit_xor_self_below (suc n) (a / 2) (omega arith))

pub bit_xor_self : (a : ℕ) → bit_xor a a ≡ 0
bit_xor_self a = bit_xor_self_below (suc a) a (omega arith)

pub zero-xor : (a : ℕ) → bit_xor 0 a ≡ a
zero-xor a = zero-bit_xor a

pub xor-zero : (a : ℕ) → bit_xor a 0 ≡ a
xor-zero a = bit_xor_comm a 0 ∙ zero-bit_xor a

-- Words of `w` bits are closed under the operation.
pub bit_xor-lt : (w a b : ℕ) → a < 2 ^ w → b < 2 ^ w → bit_xor a b < 2 ^ w
bit_xor-lt zero zero zero h k = omega (arith, zero-bit_xor 0)
bit_xor-lt zero zero (suc b) h k = absurd (omega arith)
bit_xor-lt zero (suc a) b h k = absurd (omega arith)
bit_xor-lt (suc w) a b h k = omega (
  arith,
  pow-suc 2 w,
  bit_xor_step a b,
  bit_xor-lt w (a / 2) (b / 2) (omega (arith, pow-suc 2 w)) (omega (arith, pow-suc 2 w)),
)

-- A value taken away again: the two copies cancel.
pub bit_xor_cancel : (a b : ℕ) → bit_xor a (bit_xor a b) ≡ b
bit_xor_cancel a b =
    sym (bit_xor_assoc a a b) ∙ ap (λ (t : ℕ). bit_xor t b) (bit_xor_self a) ∙ zero-bit_xor b

pub bit_xor_middle :
    (a b c d : ℕ) → bit_xor (bit_xor a b) (bit_xor c d) ≡ bit_xor (bit_xor a c) (bit_xor b d)
bit_xor_middle a b c d =
    bit_xor_assoc a b (bit_xor c d)
    ∙ ap (bit_xor a) (
        sym (bit_xor_assoc b c d)
        ∙ ap (λ (t : ℕ). bit_xor t d) (bit_xor_comm b c)
        ∙ bit_xor_assoc c b d)
    ∙ sym (bit_xor_assoc a c (bit_xor b d))

pub bit_xor_bits : (a b : ℕ) → a < 2 → b < 2 → bit_xor a b ≡ (a + b) % 2
bit_xor_bits a b h k = omega (arith, bit_xor-mod_two a b, bit_xor-lt 1 a b h k)

pub bit_xor_swap : (a b : ℕ) → bit_xor b (bit_xor a b) ≡ a
bit_xor_swap a b = ap (bit_xor b) (bit_xor_comm a b) ∙ bit_xor_cancel b a
