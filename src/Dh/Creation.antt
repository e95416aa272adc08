-- ===== src/Dh/Creation.antt =====
-- CreateRandomEllipticWithDigest of lib/database/elliptic.go: which databases it makes, and when one of
-- its goroutines panics.
use apir_code.Base.{
  ltb, ◌==◌, length, take, length-take, length-map, ok, panic, ℕ, zero, suc, ◌+◌, ◌-◌, ◌*◌, ◌/◌,
  ◌≤◌, ◌<◌, bit_and, ◌≡◌, refl, sym, ap, ◌∙◌, subst, ◌≢◌, Bool, true, false, List, [], ◌∷◌, map,
  arith,
}
use native.Mathlib.Nat.{div-add-mod, mod-lt}
use apir_code.Database.Size.{Floats, calculate_num_rows_and_columns}
use apir_code.Dh.Groups.{Group, IsGroup}
use apir_code.Dh.{
  Elliptic, hash_index_to_group, digest_chunks, num_routines, create_random_elliptic, bytes_equal,
  new_dh,
}
use apir_code.Dh.Codec.{encodings}
use apir_code.Dh.Sums.{row_sums, digest_rows-row_sums}
use apir_code.Dh.Chunks.{digest_chunks-digest_rows, digest_chunks_panic}
use apir_code.Dh.Correct.{IsDigested}

bytes_equal_self : (xs : List ℕ) → bytes_equal xs xs ≡ true
unfolding bytes_equal
bytes_equal_self [] = refl
bytes_equal_self (x ∷ xs) =
    let same : (x == x) ≡ true = ground arith in rw same (bytes_equal_self xs)

ceil_reaches : (rows n : ℕ) → 0 < n → rows ≤ n * ((rows + n - 1) / n)
ceil_reaches rows n h =
    let split = div-add-mod (rows + n - 1) n in let below = mod-lt (rows + n - 1) h in omega arith

routines_pos : (n per rows : ℕ) → rows < (n - 1) * per → 0 < n
routines_pos zero per rows h = omega arith
routines_pos (suc n) per rows h = omega arith

module _ ⦃floats : Floats⦄ {g : Group} (law : IsGroup g) (hash : List ℕ → List ℕ) (random : List ℕ)
    (num_cpu : ℕ) (sample : g.Element) (db_len : ℕ) (rebalanced : Bool) where
  abbrev pub made_rows : ℕ
  made_rows = (calculate_num_rows_and_columns db_len rebalanced).0

  abbrev pub made_columns : ℕ
  made_columns = (calculate_num_rows_and_columns db_len rebalanced).1

  -- The rows that each goroutine takes.
  abbrev pub rows_per_routine : ℕ
  rows_per_routine =
      let routines = num_routines num_cpu db_len in (made_rows + routines - 1) / routines

  abbrev pub made_entries : List ℕ
  made_entries = map (λ b. bit_and b 1) (take (made_rows * made_columns) random)

  length-made_entries :
      made_rows * made_columns ≤ length random → length made_entries ≡ made_rows * made_columns
  length-made_entries enough =
      length-map (λ b. bit_and b 1) (take (made_rows * made_columns) random)
      ∙ length-take (made_rows * made_columns) random
      ∙ omega arith

  -- All chunks together are the digests of all rows.
  digest_chunks-encodings :
      made_rows * made_columns ≤ length random
      → 0 < num_routines num_cpu db_len
      → (num_routines num_cpu db_len - 1) * rows_per_routine ≤ made_rows
      → digest_chunks g made_entries made_rows made_columns rows_per_routine
          (num_routines num_cpu db_len)
          0
        ≡ ok (
            encodings law
              (row_sums g made_entries made_columns (hash_index_to_group g) made_rows 0))
  digest_chunks-encodings enough routines within =
      let n = num_routines num_cpu db_len in
      let per = rows_per_routine in
      let reaches = ceil_reaches made_rows n routines in
      let len = length-made_entries enough in
      let one_more : suc (n - 1) ≡ n = omega arith in
      let last : (0 + (n - 1)) * per ≡ (n - 1) * per = ap (λ (k : ℕ). k * per) (omega arith) in
      let end' : (0 + suc (n - 1)) * per ≡ n * per = ap (λ (k : ℕ). k * per) (omega arith) in
      let start : 0 * per ≡ 0 = omega arith in
      let all_rows : made_rows - 0 ≡ made_rows = omega arith in
      ap (λ (k : ℕ). digest_chunks g made_entries made_rows made_columns per k 0) (sym one_more)
      ∙ digest_chunks-digest_rows g made_entries made_columns made_rows per (n - 1) 0 (omega arith)
          (omega arith)
      ∙ rw (start, all_rows)
          (digest_rows-row_sums law made_entries made_columns made_rows 0 (omega arith))

  -- With a group as `IsGroup` has it, enough random bytes, at least one goroutine and an element size that
  -- is not 0, where the last goroutine does not begin behind the last row: the database that is made has an
  -- entry for each place and the digests of its rows, and a client accepts its row digests.
  pub create_random_elliptic-IsDigested :
      made_rows * made_columns ≤ length random
      → 0 < num_routines num_cpu db_len
      → (num_routines num_cpu db_len - 1) * rows_per_routine ≤ made_rows
      → length (law.encoding sample) ≢ 0
      → (db : Elliptic) × (create_random_elliptic g hash random num_cpu sample db_len rebalanced
          ≡ ok db)
        × IsDigested law db
        × (new_dh hash db.info ≡ ok db.info)
  unfolding create_random_elliptic new_dh
  create_random_elliptic-IsDigested enough routines within some_size =
      let filled : ltb (length random) (made_rows * made_columns) ≡ false = ground arith in
      let digests =
        encodings law (row_sums g made_entries made_columns (hash_index_to_group g) made_rows 0) in
      let db : Elliptic = record {
        entries = made_entries;
        info = record {
          num_rows = made_rows;
          num_columns = made_columns;
          element_size = length (law.encoding sample);
          digest = hash digests;
          sub_digests = digests;
        };
      } in
      (
        db,
        rw (filled, digest_chunks-encodings enough routines within, law.marshal_lem sample) refl,
        record {
          all_entries = length-made_entries enough;
          all_digests = refl;
          some_size = some_size;
        },
        rw (bytes_equal_self (hash digests)) refl,
      )

  -- With a group as `IsGroup` has it and enough random bytes, where the last goroutine begins behind the
  -- last row, a goroutine asks for a slice of a negative capacity, and the creation panics.
  pub create_random_elliptic_panic :
      made_rows * made_columns ≤ length random
      → made_rows < (num_routines num_cpu db_len - 1) * rows_per_routine
      → create_random_elliptic g hash random num_cpu sample db_len rebalanced ≡ panic
  unfolding create_random_elliptic
  create_random_elliptic_panic enough behind =
      let n = num_routines num_cpu db_len in
      let filled : ltb (length random) (made_rows * made_columns) ≡ false = ground arith in
      let len = length-made_entries enough in
      let some_routine = routines_pos n rows_per_routine made_rows behind in
      let one_more : suc (n - 1) ≡ n = omega arith in
      let last : (0 + (n - 1)) * rows_per_routine ≡ (n - 1) * rows_per_routine =
        ap (λ (k : ℕ). k * rows_per_routine) (omega arith) in
      let panics : digest_chunks g made_entries made_rows made_columns rows_per_routine n 0
          ≡ panic =
        subst
          (λ (k : ℕ).
            digest_chunks g made_entries made_rows made_columns rows_per_routine k 0 ≡ panic)
          one_more
          (digest_chunks_panic law made_entries made_columns made_rows rows_per_routine (n - 1) 0
            (omega arith) (omega arith)) in
      rw (filled, panics) refl
