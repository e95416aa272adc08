-- ===== src/Base/Masks.antt =====
-- `bit_and` with a mask of all ones, and of none.
use Prim.Native.Nat.{
  ℕ, zero, suc, ◌-◌, ◌/◌, ◌%◌, ◌≤◌, ◌<◌, ◌^◌, min, bit_and, bit_and-bitwise, digits,
}
use mathlib.Core.Path.{◌≡◌, refl, ◌∙◌}
use native.Mathlib.Nat.{pow-suc}
use native.Mathlib.Omega.{arith}

min_one : (x : ℕ) → x < 2 → min x 1 ≡ x
min_one x h = omega arith

min_zero : (x : ℕ) → min x 0 ≡ 0
min_zero x = omega arith

digits-zero : (n a : ℕ) → digits (λ y. 0) min n a 0 ≡ 0
digits-zero zero a = refl
digits-zero (suc n) zero = refl
digits-zero (suc n) (suc a) = omega (arith, digits-zero n (suc a / 2), min_zero (suc a % 2))

digits-ones : (w n a : ℕ) → a ≤ n → a < 2 ^ w → digits (λ y. 0) min n a (2 ^ w - 1) ≡ a
digits-ones w zero zero h k = refl
digits-ones w zero (suc a) h k = absurd (omega arith)
digits-ones w (suc n) zero h k = refl
digits-ones zero (suc n) (suc a) h k = absurd (omega arith)
digits-ones (suc w) (suc n) (suc a) h k =
    let p = pow-suc 2 w in
    let half : (2 ^ suc w - 1) / 2 ≡ 2 ^ w - 1 = omega (arith, p) in
    let odd : (2 ^ suc w - 1) % 2 ≡ 1 = omega (arith, p) in
    let rest = digits-ones w n (suc a / 2) (omega arith) (omega (arith, p)) in
    rw (half, odd) (omega (arith, rest, min_one (suc a % 2) (omega arith)))

pub bit_and-zero : (a : ℕ) → bit_and a 0 ≡ 0
bit_and-zero a = bit_and-bitwise a 0 ∙ digits-zero a a

pub bit_and-ones : (w a : ℕ) → a < 2 ^ w → bit_and a (2 ^ w - 1) ≡ a
bit_and-ones w a h = bit_and-bitwise a (2 ^ w - 1) ∙ digits-ones w a a (omega arith) h
