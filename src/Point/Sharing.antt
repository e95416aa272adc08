-- ===== src/Point/Sharing.antt =====
-- The vectors of secretShare add up to the one bit of the column.
use apir_code.Base.{
  zero-xor, xor-zero, bit_xor_swap, length, take, drop, replicate, length-set, length-take,
  length-drop, length-replicate, byte_at, xor_into, FastXor, ℕ, zero, suc, ◌+◌, ◌-◌, ◌*◌, ◌/◌, ◌≤◌,
  bit_xor, ◌≡◌, refl, sym, ap, ◌∙◌, List, [], ◌∷◌, arith,
}
use apir_code.Point.{share_from, unit_vector, secret_share}

-- The exclusive or of vectors.
unfoldable pub xor_all : List (List ℕ) → ℕ → ℕ
xor_all [] i = 0
xor_all (v ∷ vs) i = bit_xor (byte_at v i) (xor_all vs i)

-- One byte of fastxor on slices of one length.
xor_into_at :
    (dst a b : List ℕ) (i : ℕ)
    → length a ≡ length dst
    → length b ≡ length dst
    → byte_at (xor_into dst a b) i ≡ bit_xor (byte_at a i) (byte_at b i)
xor_into_at [] [] [] i e f = sym (zero-xor 0)
xor_into_at [] (x ∷ a) b i e f = absurd (omega arith)
xor_into_at [] [] (y ∷ b) i e f = absurd (omega arith)
xor_into_at (d ∷ dst) [] b i e f = absurd (omega arith)
xor_into_at (d ∷ dst) (x ∷ a) [] i e f = absurd (omega arith)
xor_into_at (d ∷ dst) (x ∷ a) (y ∷ b) zero e f = refl
xor_into_at (d ∷ dst) (x ∷ a) (y ∷ b) (suc i) e f =
    xor_into_at dst a b i (omega arith) (omega arith)

pub length-xor_into : (dst a b : List ℕ) → length (xor_into dst a b) ≡ length dst
length-xor_into [] a b = refl
length-xor_into (d ∷ dst) [] b = refl
length-xor_into (d ∷ dst) (x ∷ a) [] = refl
length-xor_into (d ∷ dst) (x ∷ a) (y ∷ b) = ap suc (length-xor_into dst a b)

module _ ⦃fx : FastXor⦄ where
  share_from_sum :
      (n k : ℕ) (rand last : List ℕ) (i : ℕ)
      → length last ≡ n
      → k * n ≤ length rand
      → (length (share_from n k rand last) ≡ suc k)
        × (xor_all (share_from n k rand last) i ≡ byte_at last i)
  unfolding share_from xor_all
  share_from_sum n zero rand last i e h = (refl, xor-zero (byte_at last i))
  share_from_sum n (suc k) rand last i e h =
      let v = take n rand in
      let lv : length v ≡ length last = omega (arith, length-take n rand) in
      let written = fx.bytes_lem last last v in
      let (l, s) =
        share_from_sum n k (drop n rand) (fx.bytes last last v) i
          (ap length written ∙ length-xor_into last last v ∙ e)
          (omega (arith, length-drop n rand)) in
      (
        ap suc l,
        ap (bit_xor (byte_at v i))
              (s ∙ ap (λ (b : List ℕ). byte_at b i) written ∙ xor_into_at last last v i refl lv)
            ∙ bit_xor_swap (byte_at last i) (byte_at v i),
      )

  -- secretShare makes one vector for each server, and byte `i` of all of them together is byte `i` of
  -- the vector with the one bit of column `iy`, whatever the random bytes are.
  pub secret_share-xor :
      (num_columns num_servers iy : ℕ) (rand : List ℕ) (i : ℕ)
      → 1 ≤ num_servers
      → (num_servers - 1) * (num_columns / 8 + 1) ≤ length rand
      → (length (secret_share num_columns num_servers iy rand) ≡ num_servers)
        × (xor_all (secret_share num_columns num_servers iy rand) i
            ≡ byte_at (unit_vector (num_columns / 8 + 1) iy) i)
  unfolding secret_share unit_vector
  secret_share-xor num_columns num_servers iy rand i some_server h =
      let (l, s) =
        share_from_sum (num_columns / 8 + 1) (num_servers - 1) rand
          (unit_vector (num_columns / 8 + 1) iy) i
          (length-set (replicate (num_columns / 8 + 1) 0) (iy / 8) _
            ∙ length-replicate (num_columns / 8 + 1) 0)
          h in
      (omega (arith, l), s)
