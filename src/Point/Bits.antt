-- ===== src/Point/Bits.antt =====
-- The bits of exclusive ors, and the sums of the blocks that a vector of bits selects.
use apir_code.Base.{
  ◌==◌, if◌then◌else◌, bit_xor_step, bit_xor-mod_two, bit_xor_self, zero-xor, xor-zero,
  bit_xor_middle, bit_xor_bits, length, get_or, take, drop, byte_at, ℕ, zero, suc, ◌+◌, ◌/◌, ◌%◌,
  ◌^◌, ◌≤◌, ◌<◌, bit_xor, ◌≡◌, refl, sym, ap, ap₂, ◌∙◌, ◌≢◌, List, [], ◌∷◌, arith,
}
use native.Mathlib.Nat.{pow-succ', div-div-eq-div-mul}
use apir_code.Database.Bytes.{sum_lengths}

-- Bit `j` of a query vector.
abbrev pub vector_bit : List ℕ → ℕ → ℕ
vector_bit q j = byte_at q (j / 8) / 2 ^ (j % 8) % 2

div_pow_suc : (a k : ℕ) → a / 2 ^ suc k ≡ a / 2 / 2 ^ k
div_pow_suc a k = ap (λ (t : ℕ). a / t) (pow-succ' 2 k) ∙ sym (div-div-eq-div-mul a 2 (2 ^ k))

bit_xor-half : (a b : ℕ) → bit_xor a b / 2 ≡ bit_xor (a / 2) (b / 2)
bit_xor-half a b = omega (arith, bit_xor_step a b)

bit_xor-shift : (k a b : ℕ) → bit_xor a b / 2 ^ k ≡ bit_xor (a / 2 ^ k) (b / 2 ^ k)
bit_xor-shift zero a b =
    let e : bit_xor a b / 1 ≡ bit_xor a b = omega arith in
    let ea : a / 1 ≡ a = omega arith in
    let eb : b / 1 ≡ b = omega arith in e ∙ sym (ap₂ bit_xor ea eb)
bit_xor-shift (suc k) a b =
    div_pow_suc (bit_xor a b) k
    ∙ ap (λ (t : ℕ). t / 2 ^ k) (bit_xor-half a b)
    ∙ bit_xor-shift k (a / 2) (b / 2)
    ∙ sym (ap₂ bit_xor (div_pow_suc a k) (div_pow_suc b k))

parity : (a b : ℕ) → (a + b) % 2 ≡ bit_xor (a % 2) (b % 2)
parity a b = sym (bit_xor_bits (a % 2) (b % 2) (omega arith) (omega arith) ∙ omega arith)

pub bit_xor-bit : (k a b : ℕ) → bit_xor a b / 2 ^ k % 2 ≡ bit_xor (a / 2 ^ k % 2) (b / 2 ^ k % 2)
bit_xor-bit k a b =
    ap (λ (t : ℕ). t % 2) (bit_xor-shift k a b)
    ∙ bit_xor-mod_two (a / 2 ^ k) (b / 2 ^ k)
    ∙ parity (a / 2 ^ k) (b / 2 ^ k)

module _ (entries : List ℕ) where
  -- Byte `p` of the exclusive or of the blocks whose bit is 1, where the first length is of the block `j`.
  unfoldable pub selected_byte : (ℕ → ℕ) → List ℕ → ℕ → ℕ → ℕ → ℕ
  selected_byte bits [] j pos p = 0
  selected_byte bits (len ∷ lens) j pos p =
      bit_xor (if bits j == 1 then byte_at (take len (drop pos entries)) p else 0)
        (selected_byte bits lens (suc j) (pos + len) p)

  masked-xor :
      (m n b : ℕ)
      → m < 2
      → n < 2
      → (if bit_xor m n == 1 then b else 0)
        ≡ bit_xor (if m == 1 then b else 0) (if n == 1 then b else 0)
  masked-xor zero n b h k = ap (λ (t : ℕ). if t == 1 then b else 0) (zero-xor n) ∙ sym (zero-xor _)
  masked-xor (suc zero) zero b h k = sym (xor-zero b)
  masked-xor (suc zero) (suc zero) b h k = sym (bit_xor_self b)
  masked-xor (suc zero) (suc (suc n)) b h k = absurd (omega arith)
  masked-xor (suc (suc m)) n b h k = absurd (omega arith)

  pub selected_byte-xor :
      (bits bits' : ℕ → ℕ) (lens : List ℕ) (j pos p : ℕ)
      → ((k : ℕ) → bits k < 2)
      → ((k : ℕ) → bits' k < 2)
      → selected_byte (λ k. bit_xor (bits k) (bits' k)) lens j pos p
        ≡ bit_xor (selected_byte bits lens j pos p) (selected_byte bits' lens j pos p)
  unfolding selected_byte
  selected_byte-xor bits bits' [] j pos p h h' = sym (zero-xor 0)
  selected_byte-xor bits bits' (len ∷ lens) j pos p h h' =
      ap₂ bit_xor
        (masked-xor (bits j) (bits' j) (byte_at (take len (drop pos entries)) p) (h j) (h' j))
        (selected_byte-xor bits bits' lens (suc j) (pos + len) p h h')
      ∙ bit_xor_middle _ _ _ _

  -- No bit is 1 from the block `j` on.
  pub selected_byte_none :
      (bits : ℕ → ℕ) (lens : List ℕ) (j pos p : ℕ)
      → ((k : ℕ) → j ≤ k → bits k ≡ 0)
      → selected_byte bits lens j pos p ≡ 0
  unfolding selected_byte
  selected_byte_none bits [] j pos p none_left = refl
  selected_byte_none bits (len ∷ lens) j pos p none_left =
      rw
        (
          none_left j (omega arith),
          selected_byte_none bits lens (suc j) (pos + len) p (λ k h. none_left k (omega arith)),
        )
        (zero-xor 0)

  -- The one bit that is 1 is that of the block `j + i`.
  pub selected_byte_one :
      (bits : ℕ → ℕ) (lens : List ℕ) (i j pos p : ℕ)
      → i < length lens
      → bits (j + i) ≡ 1
      → ((k : ℕ) → k ≢ j + i → bits k ≡ 0)
      → selected_byte bits lens j pos p
        ≡ byte_at (take (get_or lens i 0) (drop (pos + sum_lengths (take i lens)) entries)) p
  unfolding selected_byte sum_lengths
  selected_byte_one bits [] i j pos p below one others = absurd (omega arith)
  selected_byte_one bits (len ∷ lens) zero j pos p below one others =
      let here : j + 0 ≡ j = omega arith in
      let one' : bits j ≡ 1 = ap bits (sym here) ∙ one in
      let start : pos + 0 ≡ pos = omega arith in
      rw
        (
          one',
          start,
          selected_byte_none bits lens (suc j) (pos + len) p
              (λ k h. others k (λ e. absurd (omega arith))),
        )
        (xor-zero (byte_at (take len (drop pos entries)) p))
  selected_byte_one bits (len ∷ lens) (suc i) j pos p below one others =
      let step : suc j + i ≡ j + suc i = omega arith in
      let zero' : bits j ≡ 0 = others j (λ e. absurd (omega arith)) in
      let start : pos + (len + sum_lengths (take i lens)) ≡ pos + len + sum_lengths (take i lens) =
        omega arith in
      rw (zero', start)
        (zero-xor _
          ∙ selected_byte_one bits lens i (suc j) (pos + len) p (omega arith) (ap bits step ∙ one)
              (λ k h. others k (λ e. h (e ∙ sym step))))
