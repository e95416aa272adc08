-- ===== src/Dh/Accepted.antt =====
-- What the client knows of an answer that ReconstructBytes accepts, whoever made it.
use apir_code.Base.{
  ◌==◌, if◌then◌else◌, ==_iff, Bool-cases, get_elem?, slice, or_panic, bind_ok, ok, ℕ, zero, suc,
  ◌+◌, ◌*◌, ◌≤◌, ◌<◌, ◌≡◌, refl, sym, ap, ◌∙◌, subst, ◌≢◌, inl, inr, Option, none, some, List,
  arith,
}
use native.Mathlib.Decide.{ℕ_discrete}
use apir_code.Dh.Groups.{Group, IsGroup, add-identity}
use apir_code.Dh.{
  DhInfo, DhState, check_row, reconstruct_rows, dh_reconstruct, unmarshal_group_elements,
}

or_panic_ok {ℓ} : {A : Type ℓ} (o : Option A) (a : A) → or_panic o ≡ ok a → o ≡ some a
or_panic_ok none a h = cc
or_panic_ok (some b) a h = cc

ok-injective : {a b : ℕ} → ok a ≡ ok b → a ≡ b
ok-injective h = cc

module _ {g : Group} (law : IsGroup g) (info : DhInfo) (st : DhState g) where
  -- An answer of a row that differs from what the digest says by nothing, or by the blinding of the column.
  pub data AcceptedRow (d a : g.Element) (bit : ℕ) : Type 0 where
    entry_0 : a ≡ g.mul_scalar d st.r → bit ≡ 0 → AcceptedRow d a bit
    entry_1 : a ≡ g.add_elements (g.mul_scalar d st.r) st.ht → bit ≡ 1 → AcceptedRow d a bit

  -- The row `i`: its digest can be read, its answer is there, and the one differs from the other as an
  -- entry 0 or 1 wants.
  pub record RowAccepted (answer : List g.Element) (i : ℕ) (res : ℕ) : Type 0 where
    pub bytes : List ℕ
    pub row_digest : g.Element
    pub row_answer : g.Element
    pub bit : ℕ
    pub in_digests :
        slice info.sub_digests (i * info.element_size) (suc i * info.element_size) ≡ ok bytes
    pub decoded : g.unmarshal bytes ≡ ok row_digest
    pub in_answer : get_elem? answer i ≡ some row_answer
    pub differs_by : AcceptedRow row_digest row_answer bit
    pub retrieved : i ≡ st.ix → res ≡ bit

  unblinded :
      (d a x : g.Element)
      → g.add_elements (g.mul_scalar d (g.neg st.r)) a ≡ x
      → a ≡ g.add_elements (g.mul_scalar d st.r) x
  unblinded d a x e =
      sym (law.identity-add a)
      ∙ ap (λ y. g.add_elements y a)
          (sym (law.mul_neg d st.r)
            ∙ law.add_comm (g.mul_scalar d (g.neg st.r)) (g.mul_scalar d st.r))
      ∙ law.add_assoc (g.mul_scalar d st.r) (g.mul_scalar d (g.neg st.r)) a
      ∙ ap (g.add_elements (g.mul_scalar d st.r)) e

  -- The cases of the tests on the element that is left.
  kept :
      (i res bit : ℕ) (res' : ℕ)
      → (if i == st.ix then ok bit else ok res) ≡ ok res'
      → (i ≡ st.ix → res' ≡ bit) × (i ≢ st.ix → res' ≡ res)
  kept i res bit res' h = elim (Bool-cases (i == st.ix)) [
    | inl here ↦
        let same = (==_iff i st.ix).0 here in
        let eq : bit ≡ res' = ok-injective (rw here at h) in
        ((λ e. sym eq), (λ other. absurd (other same)))
    | inr away ↦
        let other : i ≢ st.ix = ground arith in
        let eq : res ≡ res' = ok-injective (rw away at h) in
        ((λ e. absurd (other e)), (λ e. sym eq))
  ]

  check_row-AcceptedRow :
      (i res res' : ℕ) (d a : g.Element)
      → check_row g st i (g.add_elements (g.mul_scalar d (g.neg st.r)) a) res ≡ ok res'
      → (bit : ℕ) × AcceptedRow d a bit × ((i ≡ st.ix → res' ≡ bit) × (i ≢ st.ix → res' ≡ res))
  unfolding check_row
  check_row-AcceptedRow i res res' d a h =
      let m = g.add_elements (g.mul_scalar d (g.neg st.r)) a in
      elim (Bool-cases (g.is_identity m)) [
        | inl none_left ↦
            let e = (law.is_identity_iff m).0 none_left in
            (
              0,
              entry_0 (unblinded d a g.identity e ∙ add-identity law (g.mul_scalar d st.r)) refl,
              kept i res 0 res' (rw none_left at h),
            )
        | inr blinded ↦ elim (Bool-cases (g.is_equal m st.ht)) [
          | inl the_mask ↦ (
            1,
            entry_1 (unblinded d a st.ht ((law.is_equal_iff m st.ht).0 the_mask)) refl,
            kept i res 1 res' (rw (blinded, the_mask) at h),
          )
          | inr other ↦ cc (rw (blinded, other) at h)
        ]
      ]

  -- What one round of the loop that accepts has read.
  row_step :
      (answer : List g.Element) (left i res res' : ℕ)
      → reconstruct_rows g info st answer (suc left) i res ≡ ok res'
      → (bytes : List ℕ) × (d : g.Element) × (a : g.Element) × (res1 : ℕ) × (slice info.sub_digests
            (i * info.element_size)
            (suc i * info.element_size)
          ≡ ok bytes)
        × (g.unmarshal bytes ≡ ok d)
        × (get_elem? answer i ≡ some a)
        × (check_row g st i (g.add_elements (g.mul_scalar d (g.neg st.r)) a) res ≡ ok res1)
        × (reconstruct_rows g info st answer left (suc i) res1 ≡ ok res')
  unfolding reconstruct_rows
  row_step answer left i res res' h =
      let (bytes, e0, h0) = bind_ok _ _ res' h in
      let (d, e1, h1) = bind_ok _ _ res' h0 in
      let (a, e2, h2) = bind_ok _ _ res' h1 in
      let (res1, e3, h3) = bind_ok _ _ res' h2 in
      (bytes, d, a, res1, e0, e1, or_panic_ok (get_elem? answer i) a e2, e3, h3)

  reconstruct_rows_behind :
      (answer : List g.Element) (left i res res' : ℕ)
      → st.ix < i
      → reconstruct_rows g info st answer left i res ≡ ok res'
      → res' ≡ res
  unfolding reconstruct_rows
  reconstruct_rows_behind answer zero i res res' behind h = sym (ok-injective h)
  reconstruct_rows_behind answer (suc left) i res res' behind h =
      let (bytes, d, a, res1, e0, e1, e2, check, rest) = row_step answer left i res res' h in
      let (bit, accepted, (here, away)) = check_row-AcceptedRow i res res1 d a check in
      reconstruct_rows_behind answer left (suc i) res1 res' (omega arith) rest
      ∙ away (λ e. absurd (omega arith))

  reconstruct_rows-RowAccepted :
      (answer : List g.Element) (left i res res' : ℕ)
      → reconstruct_rows g info st answer left i res ≡ ok res'
      → (k : ℕ) → i ≤ k
      → k < i + left
      → RowAccepted answer k res'
  reconstruct_rows-RowAccepted answer zero i res res' h k le lt = absurd (omega arith)
  reconstruct_rows-RowAccepted answer (suc left) i res res' h k le lt =
      let (bytes, d, a, res1, e0, e1, e2, check, rest) = row_step answer left i res res' h in
      let (bit, accepted, (here, away)) = check_row-AcceptedRow i res res1 d a check in
      let later : i ≢ k → RowAccepted answer k res' = λ other.
        reconstruct_rows-RowAccepted answer left (suc i) res1 res' rest k (omega arith)
          (omega arith) in
      elim (ℕ_discrete i k) [
        | no other ↦ later other
        | yes same ↦
            subst (λ (n : ℕ). RowAccepted answer n res') same
              (record {
                bytes = bytes;
                row_digest = d;
                row_answer = a;
                bit = bit;
                in_digests = e0;
                decoded = e1;
                in_answer = e2;
                differs_by = accepted;
                retrieved = λ at_ix.
                    reconstruct_rows_behind answer left (suc i) res1 res' (omega arith) rest
                    ∙ here at_ix;
              })
      ]

  -- Whoever made the answer: where the client accepts it, it decodes to elements such that in each row of
  -- the database the element is the row's digest times `r` or that plus `ht`, and the result is 0
  -- or 1 as the first or the second holds in the row of the index.
  pub dh_reconstruct-RowAccepted :
      (a : List ℕ) (res : ℕ)
      → dh_reconstruct g info st a ≡ ok res
      → (answer : List g.Element) × (unmarshal_group_elements g info.element_size a ≡ ok answer)
        × ((i : ℕ) → i < info.num_rows → RowAccepted answer i res)
  unfolding dh_reconstruct
  dh_reconstruct-RowAccepted a res h =
      let (answer, e, rows) = bind_ok _ _ res h in
      (
        answer,
        e,
        λ i below.
            reconstruct_rows-RowAccepted answer info.num_rows 0 0 res rows i (omega arith)
              (omega arith),
      )
