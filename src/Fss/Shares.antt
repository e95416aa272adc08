-- ===== src/Fss/Shares.antt =====
-- The words at the end of the tree: what the two sides add up to.
use apir_code.Base.{
  ◌==◌, if◌then◌else◌, Bool-cases, u32, ℕ, zero, suc, ◌+◌, ◌-◌, ◌*◌, ◌%◌, ◌^◌, ◌≤◌, ◌<◌, ◌≡◌, ◌⊎◌,
  inl, inr, arith,
}
use apir_code.Field.{mod_p}
use apir_code.Fss.{final_word, output_word}

-- With different control bits the outputs add up to `b`.
pub words_keep :
    (b tmp0 tmp1 t0 t1 : ℕ)
    → b < mod_p
    → tmp0 < mod_p
    → tmp1 < mod_p
    → t0 + t1 ≡ 1
    → (output_word 0 tmp0 t0 (final_word b tmp0 tmp1 t1)
          + output_word 1 tmp1 t1 (final_word b tmp0 tmp1 t1))
        % mod_p
      ≡ b
unfolding output_word final_word
words_keep b tmp0 tmp1 zero t1 hb h0 h1 e = let e' : t1 ≡ 1 = omega arith in rw e' (omega arith)
words_keep b tmp0 tmp1 (suc zero) zero hb h0 h1 e = omega arith
words_keep b tmp0 tmp1 (suc zero) (suc t1) hb h0 h1 e = absurd (omega arith)
words_keep b tmp0 tmp1 (suc (suc t0)) t1 hb h0 h1 e = absurd (omega arith)

-- At one node they add up to 0.
pub words_lose :
    (tmp t final : ℕ) → (output_word 0 tmp t final + output_word 1 tmp t final) % mod_p ≡ 0
unfolding output_word
words_lose tmp t final = words (u32 (tmp + u32 (t * final)) % mod_p) (omega arith)
  where
    words : (v : ℕ) → v < mod_p → (v + u32 (mod_p + 2 ^ 32 - v)) % mod_p ≡ 0
    words v h = omega arith

-- An output is an element, or ModP itself.
pub output_word-le : (server tmp t final : ℕ) → output_word server tmp t final ≤ mod_p
unfolding output_word
output_word-le server tmp t final = words (u32 (tmp + u32 (t * final)) % mod_p) (omega arith)
  where
    words : (v : ℕ) → v < mod_p → (if server == 0 then v else u32 (mod_p + 2 ^ 32 - v)) ≤ mod_p
    words v h = ground arith

-- With no words to hide it the vector is in the final word as it is, or negated.
pub final_word_bare :
    (b t : ℕ) → b < mod_p → (final_word b 0 0 t ≡ b) ⊎ (final_word b 0 0 t ≡ mod_p - b)
unfolding final_word
final_word_bare b t h = elim (Bool-cases (t == 1)) [
  | inl one ↦ inr (rw one (omega arith))
  | inr other ↦ inl (rw other (omega arith))
]
