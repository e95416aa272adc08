-- ===== src/Utils/Encoding/Bits.antt =====
-- ByteToBits tells any two byte slices apart.
use apir_code.Base.{
  ◌==◌, ==_iff, length, take, drop, All, take-append, drop-append, IsByte, holds_below,
  holds_below_lem, ℕ, zero, suc, ◌+◌, ◌*◌, ◌%◌, ◌≡◌, refl, sym, ap, ap₂, ◌∙◌, Bool, true, false,
  List, [], ◌∷◌, ◌++◌, arith,
}
use apir_code.Utils.Encoding.{byte_bits, byte_to_bits}

bit_value : Bool → ℕ
bit_value true = 1
bit_value false = 0

-- The number that a list of bits writes, first bit first.
bits_value : List Bool → ℕ → ℕ
bits_value [] acc = acc
bits_value (x ∷ xs) acc = bits_value xs (acc * 2 + bit_value x)

-- The eight bits of a byte write the byte.
bits_table : holds_below (λ d. bits_value (byte_bits 8 d) 0 == d) 256 ≡ true
unfolding holds_below bits_value bit_value byte_bits
bits_table = refl

byte_bits_value : (d : ℕ) → IsByte d → bits_value (byte_bits 8 d) 0 ≡ d
byte_bits_value d h =
    (==_iff (bits_value (byte_bits 8 d) 0) d).0 (holds_below_lem _ 256 bits_table d h)

length-byte_bits : (n d : ℕ) → length (byte_bits n d) ≡ n
unfolding byte_bits
length-byte_bits zero d = refl
length-byte_bits (suc n) d = ap suc (length-byte_bits n (d * 2 % 256))

pub length-byte_to_bits : (bytes : List ℕ) → length (byte_to_bits bytes) ≡ 8 * length bytes
unfolding byte_to_bits
length-byte_to_bits [] = refl
length-byte_to_bits (d ∷ bytes) = omega (arith, length-byte_to_bits bytes)

-- Two byte slices with the same bits are the same.
byte_to_bits-injective :
    (xs ys : List ℕ) → All IsByte xs → All IsByte ys → byte_to_bits xs ≡ byte_to_bits ys → xs ≡ ys
byte_to_bits-injective [] [] h k e = refl
byte_to_bits-injective [] (y ∷ ys) h k e =
    absurd (omega (arith, ap length e, length-byte_to_bits [], length-byte_to_bits (y ∷ ys)))
byte_to_bits-injective (x ∷ xs) [] h k e =
    absurd (omega (arith, ap length e, length-byte_to_bits [], length-byte_to_bits (x ∷ xs)))
byte_to_bits-injective (x ∷ xs) (y ∷ ys) h k e =
    ap₂ ◌∷◌ (sym (byte_bits_value x h.0) ∙ ap (λ t. bits_value t 0) first ∙ byte_bits_value y k.0)
      (byte_to_bits-injective xs ys h.1 k.1 others)
  where
    whole : byte_bits 8 x ++ byte_to_bits xs ≡ byte_bits 8 y ++ byte_to_bits ys
    whole = unfold byte_to_bits in e

    first : byte_bits 8 x ≡ byte_bits 8 y
    first =
        sym (take-append 8 (byte_bits 8 x) (byte_to_bits xs) (sym (length-byte_bits 8 x)))
        ∙ ap (take 8) whole
        ∙ take-append 8 (byte_bits 8 y) (byte_to_bits ys) (sym (length-byte_bits 8 y))

    others : byte_to_bits xs ≡ byte_to_bits ys
    others =
        sym (drop-append 8 (byte_bits 8 x) (byte_to_bits xs) (sym (length-byte_bits 8 x)))
        ∙ ap (drop 8) whole
        ∙ drop-append 8 (byte_bits 8 y) (byte_to_bits ys) (sym (length-byte_bits 8 y))
