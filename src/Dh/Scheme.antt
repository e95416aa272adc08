-- ===== src/Dh/Scheme.antt =====
-- The scheme from end to end: what the client makes of the server's answer to its query.
use apir_code.Base.{
  ◌==◌, if◌then◌else◌, length, get_or, All, byte_at, ok, ℕ, ◌+◌, ◌*◌, ◌/◌, ◌%◌, ◌<◌, ◌≡◌, refl, sym,
  ap, ◌∙◌, ◌≢◌, false, List, arith,
}
use native.Mathlib.Nat.{div-add-mod}
use apir_code.Utils.Encoding.Indices.{index-lt}
use apir_code.Utils.Encoding.{vector_to_matrix_indices}
use apir_code.Dh.Groups.{Group, IsGroup}
use apir_code.Dh.{
  DhState, Elliptic, hash_index_to_group, commit_scalar_to_index, dh_elements, dh_query, dh_answer,
  dh_reconstruct, reconstruct_rows,
}
use apir_code.Dh.Codec.{IsFull, encodings, marshal-encodings, unmarshal-encodings}
use apir_code.Dh.Sums.{row_mask, length-row_sums, get_or-row_sums, process_rows-row_sums}
use apir_code.Dh.Correct.{
  IsDigested, db_sums, unblinded-row_mask, length-dh_elements, reconstruct_rows-row_bit,
}

module _ {g : Group} (law : IsGroup g) (db : Elliptic) (index : ℕ) (r t : g.Scalar) where
  -- The column, its blinding, and the elements that the client sends.
  abbrev pub sent_ht : g.Element
  sent_ht = commit_scalar_to_index g t (index % db.info.num_columns)

  abbrev pub sent_elements : List g.Element
  sent_elements = dh_elements g db.info.num_columns r (index % db.info.num_columns) sent_ht

  abbrev pub answered_elements : List g.Element
  answered_elements = db_sums g db (λ j. get_or sent_elements j g.identity)

  -- All elements that are sent or stored have encodings of the element size.
  pub record IsFullRun : Type 0 where
    pub full_query : All (IsFull law db.info.element_size) sent_elements
    pub full_answer : All (IsFull law db.info.element_size) answered_elements
    pub full_digests : All (IsFull law db.info.element_size) (db_sums g db (hash_index_to_group g))

  abbrev pub sent_state : DhState g
  sent_state = record {
    ix = index / db.info.num_columns;
    iy = index % db.info.num_columns;
    r = r;
    ht = sent_ht;
  }

  dh_query-encodings :
      db.info.num_columns ≢ 0
      → dh_query g db.info index r t ≡ ok (encodings law sent_elements, sent_state)
  unfolding dh_query vector_to_matrix_indices
  dh_query-encodings columns =
      let some_columns : (db.info.num_columns == 0) ≡ false = ground arith in
      rw (some_columns, marshal-encodings law sent_elements) refl

  dh_answer-encodings :
      IsDigested law db
      → IsFullRun
      → dh_answer g db (encodings law sent_elements) ≡ ok (encodings law answered_elements)
  unfolding dh_answer
  dh_answer-encodings digested full =
      let len =
        length-dh_elements law r sent_ht db.info.num_columns (index % db.info.num_columns) in
      let all = digested.all_entries in
      rw
        (
          unmarshal-encodings law db.info.element_size sent_elements digested.some_size
              full.full_query,
          process_rows-row_sums law db sent_elements db.info.num_rows 0 len (omega arith),
          marshal-encodings law answered_elements,
        )
        refl

  -- The client's loop over the rows, on the server's sums.
  reconstruct_rows-entry :
      IsDigested law db
      → IsFullRun
      → index < db.info.num_rows * db.info.num_columns
      → sent_ht ≢ g.identity
      → reconstruct_rows g db.info sent_state answered_elements db.info.num_rows 0 0
        ≡ ok (if byte_at db.entries index == 1 then 1 else 0)
  reconstruct_rows-entry digested full below blinds =
      let rows = db.info.num_rows in
      let cols = db.info.num_columns in
      let (row_below, column_below) = index-lt index rows cols below in
      let split = div-add-mod index cols in
      let here : index / cols * cols + index % cols ≡ index = omega arith in
      let h = hash_index_to_group g in
      let f : ℕ → g.Element = λ j. get_or sent_elements j g.identity in
      let len = length-row_sums g db.entries cols h rows in
      let len' = length-row_sums g db.entries cols f rows in
      let unblinds : (i : ℕ)
          → i < length (db_sums g db h)
          → g.add_elements (g.mul_scalar (get_or (db_sums g db h) i g.identity) (g.neg r))
              (get_or answered_elements i g.identity)
            ≡ row_mask g db.entries (i * cols) sent_ht (index % cols) =
        λ i inside.
          let under : i < rows = omega arith in
          rw
            (
              get_or-row_sums g db.entries cols h rows i g.identity under,
              get_or-row_sums g db.entries cols f rows i g.identity under,
            )
            (unblinded-row_mask law r sent_ht cols (index % cols) db.entries (i * cols)
              column_below) in
      reconstruct_rows-row_bit law db sent_state (db_sums g db h) answered_elements db.info
        digested.all_digests full.full_digests unblinds (len' ∙ sym len) blinds rows 0 0
        (omega arith) (omega arith) (omega arith)
      ∙ ap (λ (k : ℕ). ok (if byte_at db.entries k == 1 then 1 else 0)) here

  -- Over a group with the laws of `IsGroup`, a database that is digested, and an index of one of its
  -- entries whose column the second scalar does not blind to the identity, where the encodings of all
  -- elements sent and stored have the element size: the client's query is made without an error, the
  -- server answers it without one, and the client accepts the answer and returns 1 where the entry at the
  -- index is 1, and 0 where it is another byte.
  pub dh_query-answer-reconstruct :
      IsDigested law db
      → IsFullRun
      → index < db.info.num_rows * db.info.num_columns
      → sent_ht ≢ g.identity
      → (encoded : List ℕ) × (st : DhState g) × (answer : List ℕ) × (dh_query g db.info index r t
          ≡ ok (encoded, st))
        × (dh_answer g db encoded ≡ ok answer)
        × (dh_reconstruct g db.info st answer ≡ ok (if byte_at db.entries index == 1 then 1 else 0))
  unfolding dh_reconstruct
  dh_query-answer-reconstruct digested full below blinds =
      let cols = db.info.num_columns in
      let (row_below, column_below) = index-lt index db.info.num_rows cols below in
      let columns : cols ≢ 0 = λ e. absurd (omega arith) in
      (
        encodings law sent_elements,
        sent_state,
        encodings law answered_elements,
        dh_query-encodings columns,
        dh_answer-encodings digested full,
        rw
            (unmarshal-encodings law db.info.element_size answered_elements digested.some_size
              full.full_answer)
            (reconstruct_rows-entry digested full below blinds),
      )
