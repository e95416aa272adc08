-- ===== src/Tests/Numbers.antt =====
-- Floats that are exact for every number, with a square root that is searched from the number down.
use apir_code.Base.{
  leb, ◌==◌, if◌then◌else◌, leb→le, Bool-cases, ℕ, zero, suc, ◌+◌, ◌*◌, ◌/◌, ◌≤◌, ◌<◌, refl, inl,
  inr, arith,
}
use apir_code.Database.Size.{Floats, IsExact}

-- The whole part of the square root.
unfoldable pub sqrt_below : ℕ → ℕ → ℕ
sqrt_below zero n = 0
sqrt_below (suc bound) n =
    let rest = sqrt_below bound n in if leb (suc bound * suc bound) n then suc bound else rest

instance abbrev pub int_floats : Floats
int_floats = record {
  whole_sqrt = λ n. sqrt_below n n;
  is_whole_sqrt = λ n. sqrt_below n n * sqrt_below n n == n;
  square = λ n. n * n;
  tenth = λ n. n / 10;
}

sqrt_below_lem :
    (bound n : ℕ)
    → n < (bound + 1) * (bound + 1)
    → (sqrt_below bound n * sqrt_below bound n ≤ n)
      × (n < (sqrt_below bound n + 1) * (sqrt_below bound n + 1))
unfolding sqrt_below
sqrt_below_lem zero n h = (omega arith, omega arith)
sqrt_below_lem (suc bound) n h = elim (Bool-cases (leb (suc bound * suc bound) n)) [
  | inl here ↦ rw here (leb→le _ n here, h)
  | inr below ↦ rw below (sqrt_below_lem bound n (ground arith))
]

pub int_floats-IsExact : IsExact int_floats
int_floats-IsExact = record {
  whole_sqrt_lem = λ n h. sqrt_below_lem n n (grind arith);
  is_whole_sqrt_lem = λ n h. refl;
  square_lem = λ n h. refl;
  tenth_lem = λ n h. refl;
}
