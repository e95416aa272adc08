-- ===== src/Dh/Sums.antt =====
-- The sums of the elements of the selected columns that computeDigests and processRows take, and what the
-- blinding of the query does to them.
use apir_code.Base.{
  ◌==◌, if◌then◌else◌, Bool-cases, length, get_elem?, get_or, tabulate_from, length-tabulate_from,
  get_or-tabulate_from, get_elem?-eq-get_or, byte_at, Result, or_panic, ok, ℕ, zero, suc, ◌+◌, ◌*◌,
  ◌≤◌, ◌<◌, ◌≡◌, refl, sym, ap, ap₂, ◌∙◌, ◌≢◌, inl, inr, List, arith,
}
use native.Mathlib.Decide.{ℕ_discrete}
use apir_code.Dh.Groups.{Group, IsGroup, add-identity, add_before_last}
use apir_code.Dh.Codec.{encodings}
use apir_code.Dh.{Elliptic, add_selected, digest_rows, process_rows, hash_index_to_group}

module _ (g : Group) (entries : List ℕ) where
  -- The sum over the columns `j ..` of the row that begins at `start`.
  unfoldable pub row_sum : ℕ → (ℕ → g.Element) → ℕ → ℕ → g.Element → g.Element
  row_sum start f zero j d = d
  row_sum start f (suc left) j d =
      row_sum start f left (suc j)
        (if byte_at entries (start + j) == 1 then g.add_elements d (f j) else d)

  -- The sums of the rows `i ..`.
  pub row_sums : ℕ → (ℕ → g.Element) → ℕ → ℕ → List g.Element
  row_sums num_columns f left i =
      tabulate_from left i (λ k. row_sum (k * num_columns) f num_columns 0 g.identity)

  pub length-row_sums :
      (num_columns : ℕ) (f : ℕ → g.Element) (rows : ℕ)
      → length (row_sums num_columns f rows 0) ≡ rows
  unfolding row_sums
  length-row_sums num_columns f rows = length-tabulate_from rows 0 _

  pub get_or-row_sums :
      (num_columns : ℕ) (f : ℕ → g.Element) (rows i : ℕ) (d : g.Element)
      → i < rows
      → get_or (row_sums num_columns f rows 0) i d
        ≡ row_sum (i * num_columns) f num_columns 0 g.identity
  unfolding row_sums
  get_or-row_sums num_columns f rows i d below =
      get_or-tabulate_from rows 0 i (λ k. row_sum (k * num_columns) f num_columns 0 g.identity) d
        below
      ∙ ap (λ (k : ℕ). row_sum (k * num_columns) f num_columns 0 g.identity) (omega arith)

  -- The mask of a row: `ht` where the entry of the blinded column is 1.
  abbrev pub row_mask : ℕ → g.Element → ℕ → g.Element
  row_mask start ht iy = if byte_at entries (start + iy) == 1 then ht else g.identity

  pub add_selected-row_sum :
      (start : ℕ) (element : ℕ → Result g.Element) (f : ℕ → g.Element) (left j : ℕ) (d : g.Element)
      → start + j + left ≤ length entries
      → ((k : ℕ) → k < j + left → element k ≡ ok (f k))
      → add_selected g entries start element left j d ≡ ok (row_sum start f left j d)
  unfolding add_selected row_sum
  add_selected-row_sum start element f zero j d fits elements = refl
  add_selected-row_sum start element f (suc left) j d fits elements =
      let here = get_elem?-eq-get_or entries (start + j) 0 (omega arith) in
      let rest : (d' : g.Element)
          → add_selected g entries start element left (suc j) d'
            ≡ ok (row_sum start f left (suc j) d') =
        λ d'.
          add_selected-row_sum start element f left (suc j) d' (omega arith)
            (λ k below. elements k (omega arith)) in
      elim (Bool-cases (byte_at entries (start + j) == 1)) [
        | inl one ↦ rw (here, one, elements j (omega arith)) (rest (g.add_elements d (f j)))
        | inr other ↦ rw (here, other) (rest d)
      ]

  module _ (law : IsGroup g) (start : ℕ) (f h : ℕ → g.Element) (s : g.Scalar) where
    -- Adding a blinded summand blinds the sum.
    add-blinded :
        (d e x a b : g.Element)
        → e ≡ g.add_elements (g.mul_scalar d s) x
        → a ≡ g.mul_scalar b s
        → g.add_elements e a ≡ g.add_elements (g.mul_scalar (g.add_elements d b) s) x
    add-blinded d e x a b eq eq' =
        ap₂ g.add_elements eq eq'
        ∙ add_before_last law (g.mul_scalar d s) x (g.mul_scalar b s)
        ∙ ap (λ y. g.add_elements y x) (sym (law.mul_add d b s))

    -- Behind the blinded column.
    row_sum-behind :
        (x : g.Element) (left j : ℕ) (d e : g.Element)
        → ((k : ℕ) → j ≤ k → k < j + left → f k ≡ g.mul_scalar (h k) s)
        → e ≡ g.add_elements (g.mul_scalar d s) x
        → row_sum start f left j e ≡ g.add_elements (g.mul_scalar (row_sum start h left j d) s) x
    unfolding row_sum
    row_sum-behind x zero j d e same eq = eq
    row_sum-behind x (suc left) j d e same eq =
        let same' : (k : ℕ) → suc j ≤ k → k < suc j + left → f k ≡ g.mul_scalar (h k) s =
          λ k above below. same k (omega arith) (omega arith) in
        elim (Bool-cases (byte_at entries (start + j) == 1)) [
          | inl one ↦ rw one (
              row_sum-behind x left (suc j) (g.add_elements d (h j)) (g.add_elements e (f j)) same'
                (add-blinded d e x (f j) (h j) eq (same j (omega arith) (omega arith))))
          | inr other ↦ rw other (row_sum-behind x left (suc j) d e same' eq)
        ]

    -- Blinding at one column: the sum is blinded too, and masked where the entry of the column is 1.
    pub row_sum-blinded :
        (ht : g.Element) (iy left j : ℕ) (d e : g.Element)
        → j ≤ iy
        → iy < j + left
        → ((k : ℕ) → k < j + left → k ≢ iy → f k ≡ g.mul_scalar (h k) s)
        → f iy ≡ g.add_elements (g.mul_scalar (h iy) s) ht
        → e ≡ g.mul_scalar d s
        → row_sum start f left j e
          ≡ g.add_elements (g.mul_scalar (row_sum start h left j d) s) (row_mask start ht iy)
    unfolding row_sum
    row_sum-blinded ht iy zero j d e le lt same blind eq = absurd (omega arith)
    row_sum-blinded ht iy (suc left) j d e le lt same blind eq = elim (ℕ_discrete j iy) [
      | yes here ↦
          let same' : (k : ℕ) → suc iy ≤ k → k < suc iy + left → f k ≡ g.mul_scalar (h k) s =
            λ k above below. same k (omega arith) (λ at. absurd (omega arith)) in
          let both =
            ap₂ g.add_elements eq blind
            ∙ sym (law.add_assoc (g.mul_scalar d s) (g.mul_scalar (h iy) s) ht)
            ∙ ap (λ y. g.add_elements y ht) (sym (law.mul_add d (h iy) s)) in
          elim (Bool-cases (byte_at entries (start + iy) == 1)) [
            | inl one ↦
                rw (here, one)
                  (row_sum-behind ht left (suc iy) (g.add_elements d (h iy))
                    (g.add_elements e (f iy)) same' both)
            | inr other ↦
                rw (here, other)
                  (row_sum-behind g.identity left (suc iy) d e same'
                    (eq ∙ sym (add-identity law (g.mul_scalar d s))))
          ]
      | no before ↦
          let same' : (k : ℕ) → k < suc j + left → k ≢ iy → f k ≡ g.mul_scalar (h k) s =
            λ k below. same k (omega arith) in
          let both =
            ap₂ g.add_elements eq (same j (omega arith) before) ∙ sym (law.mul_add d (h j) s) in
          elim (Bool-cases (byte_at entries (start + j) == 1)) [
            | inl one ↦ rw one (
                row_sum-blinded ht iy left (suc j) (g.add_elements d (h j)) (g.add_elements e (f j))
                  (omega arith) (omega arith) same' blind both)
            | inr other ↦
                rw other (
                  row_sum-blinded ht iy left (suc j) d e (omega arith) (omega arith) same' blind eq)
          ]
    ]

module _ {g : Group} (law : IsGroup g) where
  -- The rows of processRows, where each column has an element.
  pub process_rows-row_sums :
      (db : Elliptic) (input : List g.Element) (left i : ℕ)
      → length input ≡ db.info.num_columns
      → (i + left) * db.info.num_columns ≤ length db.entries
      → process_rows g db input left i
        ≡ ok (row_sums g db.entries db.info.num_columns (λ j. get_or input j g.identity) left i)
  unfolding process_rows row_sums tabulate_from
  process_rows-row_sums db input zero i len fits = refl
  process_rows-row_sums db input (suc left) i len fits =
      let cols = db.info.num_columns in
      let here : i * cols + 0 + cols ≤ length db.entries = omega arith in
      let row =
        add_selected-row_sum g db.entries (i * cols) (λ j. or_panic (get_elem? input j))
          (λ j. get_or input j g.identity) cols 0 g.identity here
          (λ k below. ap or_panic (get_elem?-eq-get_or input k g.identity (omega arith))) in
      rw (row, process_rows-row_sums db input left (suc i) len (omega arith)) refl

  -- The rows of computeDigests.
  pub digest_rows-row_sums :
      (entries : List ℕ) (row_len left i : ℕ)
      → (i + left) * row_len ≤ length entries
      → digest_rows g entries row_len left i
        ≡ ok (encodings law (row_sums g entries row_len (hash_index_to_group g) left i))
  unfolding digest_rows row_sums tabulate_from encodings
  digest_rows-row_sums entries row_len zero i fits = refl
  digest_rows-row_sums entries row_len (suc left) i fits =
      let here : i * row_len + 0 + row_len ≤ length entries = omega arith in
      let row =
        add_selected-row_sum g entries (i * row_len) (λ j. ok (hash_index_to_group g j))
          (hash_index_to_group g) row_len 0 g.identity here (λ k below. refl) in
      let d = row_sum g entries (i * row_len) (hash_index_to_group g) row_len 0 g.identity in
      rw (row, law.marshal_lem d, digest_rows-row_sums entries row_len left (suc i) (omega arith))
        refl
