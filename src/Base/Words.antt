-- ===== src/Base/Words.antt =====
-- Bytes, 32-bit words and byte slices; encoding/binary in both byte orders.
use Prim.Native.Nat.{ℕ, zero, suc, ◌+◌, ◌*◌, ◌/◌, ◌%◌, ◌^◌, ◌<◌, bit_and}
use mathlib.Core.Path.{◌≡◌, refl, ◌∙◌, ap}
use mathlib.Core.Bool.{Bool, true, false}
use mathlib.Core.List.{List, [], ◌∷◌, ◌++◌}
use mathlib.Core.Logic.{inl, inr}
use native.Mathlib.Decide.{ℕ_discrete}
use native.Mathlib.Omega.{arith}
use apir_code.Base.Tests.{if◌then◌else◌, Bool-cases, ◌==◌, ==_iff}
use apir_code.Base.Lists.{get_or, All}

abbrev pub IsByte : ℕ → Type 0
IsByte b = b < 256

abbrev pub IsU32 : ℕ → Type 0
IsU32 v = v < 2 ^ 32

-- A conversion or an operation of uint32, and of byte.
abbrev pub u32 : ℕ → ℕ
u32 n = n % 2 ^ 32

abbrev pub u8 : ℕ → ℕ
u8 n = n % 256

-- An index that is known to be in range: 0 stands for what is never read.
abbrev pub byte_at : List ℕ → ℕ → ℕ
byte_at xs i = get_or xs i 0

-- Four bytes of a slice.
pub record Bytes4 : Type 0 where
  pub b0 : ℕ
  pub b1 : ℕ
  pub b2 : ℕ
  pub b3 : ℕ

abbrev pub IsBytes4 : Bytes4 → Type 0
IsBytes4 w = IsByte w.b0 × IsByte w.b1 × IsByte w.b2 × IsByte w.b3

-- binary.BigEndian.Uint32 and PutUint32.
abbrev pub big_endian : Bytes4 → ℕ
big_endian w = w.b0 * 16777216 + w.b1 * 65536 + w.b2 * 256 + w.b3

abbrev pub put_big_endian : ℕ → Bytes4
put_big_endian v = record {
  b0 = v / 16777216 % 256;
  b1 = v / 65536 % 256;
  b2 = v / 256 % 256;
  b3 = v % 256;
}

pub big_endian_put : (v : ℕ) → IsU32 v → big_endian (put_big_endian v) ≡ v
big_endian_put v h = omega arith

-- binary.LittleEndian.Uint32 and PutUint32.
abbrev pub little_endian : Bytes4 → ℕ
little_endian w = w.b3 * 16777216 + w.b2 * 65536 + w.b1 * 256 + w.b0

abbrev pub put_little_endian : ℕ → Bytes4
put_little_endian v = record {
  b0 = v % 256;
  b1 = v / 256 % 256;
  b2 = v / 65536 % 256;
  b3 = v / 16777216 % 256;
}

pub little_endian_put : (v : ℕ) → IsU32 v → little_endian (put_little_endian v) ≡ v
little_endian_put v h = omega arith

-- Over a small range every value is checked by evaluation.
-- Whether a test holds below a bound.
unfoldable pub holds_below : (ℕ → Bool) → ℕ → Bool
holds_below test zero = true
holds_below test (suc bound) = if test bound then holds_below test bound else false

pub holds_below_lem :
    (test : ℕ → Bool) (bound : ℕ)
    → holds_below test bound ≡ true
    → (v : ℕ) → v < bound
    → test v ≡ true
unfolding holds_below
holds_below_lem test zero all v h = absurd (omega arith)
holds_below_lem test (suc bound) all v h = elim (Bool-cases (test bound)) [
  | inr fails ↦ cc (rw fails at all)
  | inl here ↦ elim (ℕ_discrete v bound) [
    | yes same ↦ ap test same ∙ here
    | no other ↦ holds_below_lem test bound (rw here at all) v (omega arith)
  ]
]

low_bits : holds_below (λ x. bit_and x 127 == x % 128) 256 ≡ true
unfolding holds_below
low_bits = refl

pub bit_and-127 : (b : ℕ) → IsByte b → bit_and b 127 ≡ b % 128
bit_and-127 b h = (==_iff (bit_and b 127) (b % 128)).0 (holds_below_lem _ 256 low_bits b h)

pub get_or-IsByte : (xs : List ℕ) (i : ℕ) → All IsByte xs → IsByte (byte_at xs i)
get_or-IsByte [] i h = omega arith
get_or-IsByte (x ∷ xs) zero h = h.0
get_or-IsByte (x ∷ xs) (suc i) h = get_or-IsByte xs i h.1

pub All-append {ℓ κ} :
    {A : Type ℓ} (P : A → Type κ) (xs ys : List A) → All P xs → All P ys → All P (xs ++ ys)
All-append P [] ys h k = k
All-append P (x ∷ xs) ys h k = (h.0, All-append P xs ys h.1 k)
