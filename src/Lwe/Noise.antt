-- ===== src/Lwe/Noise.antt =====
-- What the client reads from answers with a bounded noise.
use apir_code.Base.{
  Bool-cases, length, tabulate_from, length-tabulate_from, get_or-tabulate_from,
  get_elem?-eq-get_or, u32, byte_at, reject, ok, err, ℕ, zero, suc, ◌+◌, ◌-◌, ◌*◌, ◌^◌, ◌≤◌, ◌<◌,
  ◌≡◌, refl, ap, subst, ◌⊎◌, inl, inr, true, false, some, arith,
}
use native.Mathlib.Decide.{ℕ_discrete}
use apir_code.Matrix.{Matrix, get, mul, sub}
use apir_code.Lwe.{Lwe, StateLwe, in_range, decode_value, decode_values, lwe_reconstruct}

-- Noise below `b` on either side of 0.
abbrev pub IsNoise : ℕ → ℕ → Type 0
IsNoise b e = (e < b) ⊎ ((2 ^ 32 - b < e) × (e < 2 ^ 32))

-- The scalar leaves the two ranges apart.
abbrev pub IsApart : ℕ → ℕ → Type 0
IsApart b t = (1 ≤ b) × (2 * b ≤ t + 1) × (t + 2 * b ≤ 2 ^ 32 + 1) × (t < 2 ^ 32)

in_range_noise : (b v : ℕ) → 1 ≤ b → b < 2 ^ 32 → IsNoise b v → in_range b v ≡ true
unfolding in_range
in_range_noise b v h k (inl low) = ground arith
in_range_noise b v h k (inr (high, word)) = ground arith

in_range_apart : (b v : ℕ) → 1 ≤ b → b ≤ v → v + b ≤ 2 ^ 32 → in_range b v ≡ false
unfolding in_range
in_range_apart b v h low high = ground arith

decode_value_zero : (b t e : ℕ) → IsApart b t → IsNoise b e → decode_value b t e ≡ ok 0
unfolding decode_value
decode_value_zero b t e apart noise = rw (in_range_noise b e (omega arith) (omega arith) noise) refl

decode_value_one : (b t e : ℕ) → IsApart b t → IsNoise b e → decode_value b t (u32 (e + t)) ≡ ok 1
unfolding decode_value
decode_value_one b t e apart noise =
    let back : u32 (u32 (e + t) + u32 (2 ^ 32 - t)) ≡ e = elim noise [
      | inl low ↦ omega arith
      | inr high ↦ omega (arith, high.0, high.1)
    ] in
    rw
      (
        in_range_apart b (u32 (e + t)) (omega arith) (omega arith) (omega arith),
        back,
        in_range_noise b e (omega arith) (omega arith) noise,
      )
      refl

module _ (b t : ℕ) (apart : IsApart b t) (bit noise : ℕ → ℕ) (bits : (i : ℕ) → bit i < 2)
    (bounded : (i : ℕ) → IsNoise b (noise i)) where
  one_value : (i : ℕ) → decode_value b t (u32 (noise i + t * bit i)) ≡ ok (bit i)
  one_value i = value (bit i) (bits i)
    where
      word : noise i < 2 ^ 32
      word = elim (bounded i) [ inl low ↦ omega arith | inr high ↦ high.1 ]

      value : (v : ℕ) → v < 2 → decode_value b t (u32 (noise i + t * v)) ≡ ok v
      value zero h =
          let e : u32 (noise i + t * 0) ≡ noise i = omega arith in
          rw e (decode_value_zero b t (noise i) apart (bounded i))
      value (suc zero) h =
          let e : noise i + t * 1 ≡ noise i + t = omega arith in
          rw e (decode_value_one b t (noise i) apart (bounded i))
      value (suc (suc v)) h = absurd (omega arith)

  decode_values_noisy :
      (answers : Matrix) (left i : ℕ)
      → i + left ≤ length answers.data'
      → ((k : ℕ) → k < i + left → byte_at answers.data' k ≡ u32 (noise k + t * bit k))
      → decode_values b t answers left i ≡ ok (tabulate_from left i bit)
  unfolding decode_values get tabulate_from
  decode_values_noisy answers zero i h values = refl
  decode_values_noisy answers (suc left) i h values =
      let place : answers.cols * 0 + i ≡ i = omega arith in
      rw
        (
          place,
          get_elem?-eq-get_or answers.data' i 0 (omega arith),
          values i (omega arith),
          one_value i,
          decode_values_noisy answers left (suc i) (omega arith) (λ k l. values k (omega arith)),
        )
        refl

-- A value outside of both ranges.
decode_value_far :
    (b t v : ℕ)
    → in_range b v ≡ false
    → in_range b (u32 (v + u32 (2 ^ 32 - t))) ≡ false
    → decode_value b t v ≡ err reject
unfolding decode_value
decode_value_far b t v h k = rw (h, k) refl

decode_value_cases :
    (b t v : ℕ) → ((out : ℕ) × (decode_value b t v ≡ ok out)) ⊎ (decode_value b t v ≡ err reject)
unfolding decode_value
decode_value_cases b t v = elim (Bool-cases (in_range b v)) [
  | inl here ↦ inl (0, rw here refl)
  | inr other ↦ elim (Bool-cases (in_range b (u32 (v + u32 (2 ^ 32 - t))))) [
    | inl there ↦ inl (1, rw (other, there) refl)
    | inr far ↦ inr (rw (other, far) refl)
  ]
]

decode_values_far :
    (b t : ℕ) (answers : Matrix) (left i k : ℕ)
    → i + left ≤ length answers.data'
    → i ≤ k
    → k < i + left
    → decode_value b t (byte_at answers.data' k) ≡ err reject
    → decode_values b t answers left i ≡ err reject
unfolding decode_values get
decode_values_far b t answers zero i k h p q far = absurd (omega arith)
decode_values_far b t answers (suc left) i k h p q far =
    let place : answers.cols * 0 + i ≡ i = omega arith in
    rw (place, get_elem?-eq-get_or answers.data' i 0 (omega arith))
      (elim (decode_value_cases b t (byte_at answers.data' i)) [
        | inl (out, e) ↦
            rw
              (
                e,
                decode_values_far b t answers left (suc i) k (omega arith) (later out e)
                    (omega arith) far,
              )
              refl
        | inr e ↦ rw e refl
      ])
  where
    later : (out : ℕ) → decode_value b t (byte_at answers.data' i) ≡ ok out → suc i ≤ k
    later out e = elim (ℕ_discrete i k) [
      | yes same ↦
          cc (subst (λ (j : ℕ). decode_value b t (byte_at answers.data' j) ≡ ok out) same e, far)
      | no other ↦ omega arith
    ]

module _ (c : Lwe) (st : StateLwe) (answers product difference : Matrix) (has : c.state ≡ some st)
    (multiplied : mul st.secret st.digest ≡ ok product)
    (subtracted : sub answers product ≡ ok difference)
    (whole : c.params.m ≤ length difference.data') where
  -- After a query, if place `k` of the answers less secret * digest is noise(k) + t * bit(k), for noise
  -- below B on either side of 0 and a scalar t that is at least 2B - 1 away from 0 on both sides,
  -- Reconstruct returns the bit of the column asked for.
  pub lwe_reconstruct_noisy :
      (bit noise : ℕ → ℕ)
      → IsApart c.params.b st.t
      → ((i : ℕ) → bit i < 2)
      → ((i : ℕ) → IsNoise c.params.b (noise i))
      → ((k : ℕ) → k < c.params.m → byte_at difference.data' k ≡ u32 (noise k + st.t * bit k))
      → st.j < c.params.m
      → lwe_reconstruct c answers ≡ ok (bit st.j)
  unfolding lwe_reconstruct
  lwe_reconstruct_noisy bit noise apart bits bounded values inside =
      let outs = tabulate_from c.params.m 0 bit in
      rw
        (
          has,
          multiplied,
          subtracted,
          decode_values_noisy c.params.b st.t apart bit noise bits bounded difference c.params.m 0
              (omega (arith, whole)) (λ k h. values k (omega arith)),
          get_elem?-eq-get_or outs st.j 0 (omega (arith, length-tabulate_from c.params.m 0 bit)),
          get_or-tabulate_from c.params.m 0 st.j bit 0 inside,
        )
        (ap ok (ap bit (omega arith)))

  -- After a query, one value that lies in neither of the two ranges makes Reconstruct reject, whatever
  -- column was asked for.
  pub lwe_reconstruct_rejects :
      (k : ℕ)
      → k < c.params.m
      → in_range c.params.b (byte_at difference.data' k) ≡ false
      → in_range c.params.b (u32 (byte_at difference.data' k + u32 (2 ^ 32 - st.t))) ≡ false
      → lwe_reconstruct c answers ≡ err reject
  unfolding lwe_reconstruct
  lwe_reconstruct_rejects k inside far far' =
      rw
        (
          has,
          multiplied,
          subtracted,
          decode_values_far c.params.b st.t difference c.params.m 0 k (omega (arith, whole))
              (omega arith) (omega arith) (decode_value_far c.params.b st.t _ far far'),
        )
        refl
