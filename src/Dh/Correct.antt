-- ===== src/Dh/Correct.antt =====
-- The scheme from end to end: what the client makes of the server's answer to its query.
use apir_code.Base.{
  ◌==◌, if◌then◌else◌, Bool-cases, length, get_or, tabulate, All, length-set, length-tabulate,
  get_or-tabulate, get_elem?-eq-get_or, slice, get_or-set_same, get_or-set_other, byte_at, ok, ℕ,
  zero, suc, ◌+◌, ◌*◌, ◌≤◌, ◌<◌, ◌≡◌, refl, sym, ap, ◌∙◌, ◌≢◌, inl, inr, Bool, true, false, List,
  arith,
}
use native.Mathlib.Decide.{ℕ_discrete}
use apir_code.Dh.Groups.{Group, IsGroup, unblind}
use apir_code.Dh.{
  DhInfo, DhState, Elliptic, hash_index_to_group, commit_scalar_to_index, dh_elements, check_row,
  reconstruct_rows,
}
use apir_code.Dh.Codec.{IsFull, encodings, slice-encodings}
use apir_code.Dh.Sums.{row_sum, row_sums, row_mask, row_sum-blinded}

-- The sums of the rows of a database, of the elements `f` of the columns.
abbrev pub db_sums : (g : Group) → Elliptic → (ℕ → g.Element) → List g.Element
db_sums g db f = row_sums g db.entries db.info.num_columns f db.info.num_rows 0

-- What the client and the server rely on: an entry for each place, and for each row the encoding of
-- the sum of the hashed columns whose entry is 1.
pub record IsDigested {g : Group} (law : IsGroup g) (db : Elliptic) : Type 0 where
  pub all_entries : length db.entries ≡ db.info.num_rows * db.info.num_columns
  pub all_digests : db.info.sub_digests ≡ encodings law (db_sums g db (hash_index_to_group g))
  pub some_size : db.info.element_size ≢ 0

module _ {g : Group} (law : IsGroup g) (r : g.Scalar) (ht : g.Element) (num_columns iy : ℕ) where
  query_other :
      (k : ℕ)
      → k < num_columns
      → k ≢ iy
      → get_or (dh_elements g num_columns r iy ht) k g.identity
        ≡ g.mul_scalar (hash_index_to_group g k) r
  unfolding dh_elements commit_scalar_to_index
  query_other k below other =
      get_or-set_other (tabulate num_columns (commit_scalar_to_index g r)) iy k _ g.identity other
      ∙ get_or-tabulate num_columns k (commit_scalar_to_index g r) g.identity below

  query_here :
      iy < num_columns
      → get_or (dh_elements g num_columns r iy ht) iy g.identity
        ≡ g.add_elements (g.mul_scalar (hash_index_to_group g iy) r) ht
  unfolding dh_elements commit_scalar_to_index
  query_here below =
      let query = tabulate num_columns (commit_scalar_to_index g r) in
      get_or-set_same query iy _ g.identity
        (omega (arith, length-tabulate num_columns (commit_scalar_to_index g r)))
      ∙ ap (λ e. g.add_elements e ht)
          (get_or-tabulate num_columns iy (commit_scalar_to_index g r) g.identity below)

  pub length-dh_elements : length (dh_elements g num_columns r iy ht) ≡ num_columns
  unfolding dh_elements
  length-dh_elements =
      length-set (tabulate num_columns (commit_scalar_to_index g r)) iy _
      ∙ length-tabulate num_columns (commit_scalar_to_index g r)

  -- What a row of the answer is once the digest of the row, blinded, is taken away.
  pub unblinded-row_mask :
      (entries : List ℕ) (start : ℕ)
      → iy < num_columns
      → g.add_elements
          (g.mul_scalar
            (row_sum g entries start (hash_index_to_group g) num_columns 0 g.identity)
            (g.neg r))
          (row_sum g entries start
            (λ j. get_or (dh_elements g num_columns r iy ht) j g.identity)
            num_columns
            0
            g.identity)
        ≡ row_mask g entries start ht iy
  unblinded-row_mask entries start below =
      let f : ℕ → g.Element = λ j. get_or (dh_elements g num_columns r iy ht) j g.identity in
      let h = hash_index_to_group g in
      let d = row_sum g entries start h num_columns 0 g.identity in
      ap (g.add_elements (g.mul_scalar d (g.neg r))) (
        row_sum-blinded g entries law start f h r ht iy num_columns 0 g.identity g.identity
          (omega arith) (omega arith) (λ k under other. query_other k (omega arith) other)
          (query_here below) (sym (law.mul_identity r)))
      ∙ unblind law d (row_mask g entries start ht iy) r

module _ {g : Group} (law : IsGroup g) (db : Elliptic) (st : DhState g) where
  -- The entry of the column that the client retrieves, in the row `i`.
  abbrev pub row_bit : ℕ → ℕ
  row_bit i = if byte_at db.entries (i * db.info.num_columns + st.iy) == 1 then 1 else 0

  ok-if : (b : Bool) (x y : ℕ) → (if b then ok x else ok y) ≡ ok (if b then x else y)
  ok-if true x y = refl
  ok-if false x y = refl

  check_row-row_mask :
      (i res : ℕ)
      → st.ht ≢ g.identity
      → check_row g st i (row_mask g db.entries (i * db.info.num_columns) st.ht st.iy) res
        ≡ ok (if i == st.ix then row_bit i else res)
  unfolding check_row
  check_row-row_mask i res blinds =
      elim (Bool-cases (byte_at db.entries (i * db.info.num_columns + st.iy) == 1)) [
        | inl one ↦
            let differs : g.is_identity st.ht ≡ false = elim (Bool-cases (g.is_identity st.ht)) [
              | inl t ↦ absurd (blinds ((law.is_identity_iff st.ht).0 t))
              | inr f ↦ f
            ] in
            let same = (law.is_equal_iff st.ht st.ht).1 refl in
            rw (one, differs, same) (ok-if (i == st.ix) 1 res)
        | inr other ↦
            let same = (law.is_identity_iff g.identity).1 refl in
            rw (other, same) (ok-if (i == st.ix) 0 res)
      ]

  module _ (digests answer : List g.Element) (info : DhInfo)
      (sums : info.sub_digests ≡ encodings law digests)
      (full : All (IsFull law info.element_size) digests)
      (unblinds : (i : ℕ)
        → i < length digests
        → g.add_elements
            (g.mul_scalar (get_or digests i g.identity) (g.neg st.r))
            (get_or answer i g.identity)
          ≡ row_mask g db.entries (i * db.info.num_columns) st.ht st.iy)
      (same_length : length answer ≡ length digests) (blinds : st.ht ≢ g.identity) where
    reconstruct_rows_step :
        (left i res : ℕ)
        → i < length digests
        → reconstruct_rows g info st answer (suc left) i res
          ≡ reconstruct_rows g info st answer left (suc i) (if i == st.ix then row_bit i else res)
    unfolding reconstruct_rows
    reconstruct_rows_step left i res below =
        let bytes : slice info.sub_digests (i * info.element_size) (suc i * info.element_size)
            ≡ ok (law.encoding (get_or digests i g.identity)) =
          rw sums (slice-encodings law info.element_size digests i full below) in
        let a = get_elem?-eq-get_or answer i g.identity (omega arith) in
        rw
          (
            bytes,
            law.unmarshal_encode (get_or digests i g.identity),
            a,
            unblinds i below,
            check_row-row_mask i res blinds,
          )
          refl

    reconstruct_rows_behind :
        (left i res : ℕ)
        → i + left ≤ length digests
        → st.ix < i
        → reconstruct_rows g info st answer left i res ≡ ok res
    unfolding reconstruct_rows
    reconstruct_rows_behind zero i res fits behind = refl
    reconstruct_rows_behind (suc left) i res fits behind =
        let other : (i == st.ix) ≡ false = ground arith in
        reconstruct_rows_step left i res (omega arith)
        ∙ rw other (reconstruct_rows_behind left (suc i) res (omega arith) (omega arith))

    pub reconstruct_rows-row_bit :
        (left i res : ℕ)
        → i + left ≤ length digests
        → i ≤ st.ix
        → st.ix < i + left
        → reconstruct_rows g info st answer left i res ≡ ok (row_bit st.ix)
    reconstruct_rows-row_bit zero i res fits le lt = absurd (omega arith)
    reconstruct_rows-row_bit (suc left) i res fits le lt = elim (ℕ_discrete i st.ix) [
      | yes here ↦
          let same : (i == st.ix) ≡ true = ground arith in
          reconstruct_rows_step left i res (omega arith)
          ∙ rw (same, here)
              (reconstruct_rows_behind left (suc st.ix) (row_bit st.ix) (omega arith) (omega arith))
      | no before ↦
          let other : (i == st.ix) ≡ false = ground arith in
          reconstruct_rows_step left i res (omega arith)
          ∙ rw other
              (reconstruct_rows-row_bit left (suc i) res (omega arith) (omega arith) (omega arith))
    ]
