-- ===== src/Client/Predicate/Tags.antt =====
-- What reconstruct decides: exactly the answers whose tags fit are accepted.
use apir_code.Base.{
  ◌==◌, ==_iff, Bool-cases, length, get_elem?-eq-get_or, u32, byte_at, Error, reject, ok, err, ℕ,
  zero, suc, ◌+◌, ◌-◌, ◌*◌, ◌%◌, ◌^◌, ◌≤◌, ◌<◌, ◌≡◌, refl, subst, inl, inr, List, arith,
}
use native.Mathlib.Decide.{ℕ_discrete}
use apir_code.Field.{mod_p}
use apir_code.Client.Predicate.{combine, check_tag, check_tags, reconstruct_data}

-- The sum of one place of two answers.
abbrev pub sum_at : List ℕ → List ℕ → ℕ → ℕ
sum_at first second j = u32 (byte_at first j + byte_at second j) % mod_p

-- Tag `i` fits the value.
abbrev pub Fits : List ℕ → List ℕ → List ℕ → ℕ → ℕ → Type 0
Fits alphas first second value i =
    value * byte_at alphas i % 2 ^ 64 % mod_p ≡ sum_at first second (suc i)

pub combine_lem :
    (first second : List ℕ) (j : ℕ)
    → j < length first
    → j < length second
    → combine first second j ≡ ok (sum_at first second j)
unfolding combine
combine_lem first second j h k =
    rw (get_elem?-eq-get_or first j 0 h, get_elem?-eq-get_or second j 0 k)

module _ (alphas first second : List ℕ) where
  pub check_tag-Fits :
      (e : Error) (value i : ℕ)
      → i < length alphas
      → suc i < length first
      → suc i < length second
      → Fits alphas first second value i
      → check_tag e alphas value first second i ≡ ok tt
  unfolding check_tag
  check_tag-Fits e value i h0 h1 h2 fits =
      rw (get_elem?-eq-get_or alphas i 0 h0, combine_lem first second (suc i) h1 h2)
        (rw (
          (==_iff (value * byte_at alphas i % 2 ^ 64 % mod_p) (sum_at first second (suc i))).1
            fits))

  pub check_tag_wrong :
      (e : Error) (value i : ℕ)
      → i < length alphas
      → suc i < length first
      → suc i < length second
      → ¬ Fits alphas first second value i
      → check_tag e alphas value first second i ≡ err e
  unfolding check_tag
  check_tag_wrong e value i h0 h1 h2 wrong =
      rw (get_elem?-eq-get_or alphas i 0 h0, combine_lem first second (suc i) h1 h2)
        (elim (Bool-cases
          (value * byte_at alphas i % 2 ^ 64 % mod_p == sum_at first second (suc i))) [
            | inl same ↦ absurd (
                wrong (
                  (==_iff (value * byte_at alphas i % 2 ^ 64 % mod_p)
                      (sum_at first second (suc i))).0
                    same))
            | inr other ↦ rw other
          ])

  -- The loop passes when every tag fits, and rejects when one does not.
  check_tags-Fits :
      (left i value : ℕ)
      → i + left ≤ length alphas
      → i + left < length first
      → i + left < length second
      → ((k : ℕ) → i ≤ k → k < i + left → Fits alphas first second value k)
      → check_tags left i alphas value first second ≡ ok tt
  unfolding check_tags
  check_tags-Fits zero i value h0 h1 h2 fits = refl
  check_tags-Fits (suc left) i value h0 h1 h2 fits =
      rw
        (check_tag-Fits reject value i (omega arith) (omega arith) (omega arith)
          (fits i (omega arith) (omega arith)))
        (check_tags-Fits left (suc i) value (omega arith) (omega arith) (omega arith)
          (λ k p q. fits k (omega arith) (omega arith)))

  check_tags_wrong :
      (left i value k : ℕ)
      → i + left ≤ length alphas
      → i + left < length first
      → i + left < length second
      → i ≤ k
      → k < i + left
      → ¬ Fits alphas first second value k
      → check_tags left i alphas value first second ≡ err reject
  unfolding check_tags
  check_tags_wrong zero i value k h0 h1 h2 p q wrong = absurd (omega arith)
  check_tags_wrong (suc left) i value k h0 h1 h2 p q wrong =
      elim (ℕ_discrete (value * byte_at alphas i % 2 ^ 64 % mod_p) (sum_at first second (suc i))) [
        | yes fits ↦
            rw (check_tag-Fits reject value i (omega arith) (omega arith) (omega arith) fits) (
              check_tags_wrong left (suc i) value k (omega arith) (omega arith) (omega arith)
                (later fits) (omega arith) wrong)
        | no other ↦
            rw (check_tag_wrong reject value i (omega arith) (omega arith) (omega arith) other)
      ]
    where
      later : Fits alphas first second value i → suc i ≤ k
      later fits = elim (ℕ_discrete i k) [
        | yes same ↦ absurd (wrong (subst (Fits alphas first second value) same fits))
        | no other ↦ omega arith
      ]

  -- On two answers with a word for the data and for each of the tags, reconstruct returns the sum of
  -- the data words if every tag is alpha times that sum, and rejects if one tag is not.
  pub reconstruct_data_decides :
      (executions : ℕ)
      → 1 ≤ executions
      → executions ≤ length alphas + 1
      → executions ≤ length first
      → executions ≤ length second
      → (((k : ℕ) → k < executions - 1 → Fits alphas first second (sum_at first second 0) k)
          → reconstruct_data executions alphas first second ≡ ok (sum_at first second 0))
        × ((k : ℕ)
            → k < executions - 1
            → ¬ Fits alphas first second (sum_at first second 0) k
            → reconstruct_data executions alphas first second ≡ err reject)
  unfolding reconstruct_data
  reconstruct_data_decides executions h h0 h1 h2 = (
    (λ fits.
        rw
          (
            combine_lem first second 0 (omega arith) (omega arith),
            check_tags-Fits (executions - 1) 0 (sum_at first second 0) (omega arith) (omega arith)
                (omega arith) (λ k p q. fits k (omega arith)),
          )
          refl),
    (λ k q wrong.
        rw
          (
            combine_lem first second 0 (omega arith) (omega arith),
            check_tags_wrong (executions - 1) 0 (sum_at first second 0) k (omega arith)
                (omega arith) (omega arith) (omega arith) (omega arith) wrong,
          )
          refl),
  )
