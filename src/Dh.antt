-- ===== src/Dh.antt =====
-- lib/database/elliptic.go, lib/client/dh.go and lib/server/dh.go: the single-server scheme over a group
-- in which discrete logarithms are hard. The goroutines of the code are chunks of rows, taken in the
-- order in which their channels are read; a panic of one ends the program.
pub mod Groups
pub mod Sums
pub mod Codec
pub mod Chunks
pub mod Correct
pub mod Scheme
pub mod Accepted
pub mod Creation
use apir_code.Base.{
  ◌>>=◌, ltb, leb, ◌==◌, if◌then◌else◌, length, get_elem?, get_or, set, take, drop, tabulate, slice,
  Result, or_panic, reject, ok, err, panic, stuck, ℕ, zero, suc, ◌+◌, ◌-◌, ◌*◌, ◌/◌, ◌%◌, bit_and,
  Bool, true, false, ◌&&◌, not, List, [], ◌∷◌, ◌++◌, map,
}
use apir_code.Utils.Encoding.{vector_to_matrix_indices}
use apir_code.Database.Size.{Floats, calculate_num_rows_and_columns}
use apir_code.Dh.Groups.{Group}
use Prim.Native.Nat.{min}

-- binary.LittleEndian.PutUint64, for `n` bytes.
unfoldable pub little_endian_bytes : ℕ → ℕ → List ℕ
little_endian_bytes zero v = []
little_endian_bytes (suc n) v = v % 256 ∷ little_endian_bytes n (v / 256)

-- The fields of database.Info and database.Auth that the scheme reads.
pub record DhInfo : Type 0 where
  pub num_rows : ℕ
  pub num_columns : ℕ
  pub element_size : ℕ
  pub digest : List ℕ
  pub sub_digests : List ℕ

-- Elliptic
pub record Elliptic : Type 0 where
  pub entries : List ℕ
  pub info : DhInfo

-- NGoRoutines of CreateRandomEllipticWithDigest
unfoldable pub num_routines : ℕ → ℕ → ℕ
num_routines num_cpu db_len = if leb db_len (1024 * 1024) then 8 else num_cpu

module _ (g : Group) where
  -- HashIndexToGroup
  unfoldable pub hash_index_to_group : ℕ → g.Element
  hash_index_to_group j = g.hash_to_element (little_endian_bytes 8 j)

  -- CommitScalarToIndex
  unfoldable pub commit_scalar_to_index : g.Scalar → ℕ → g.Element
  commit_scalar_to_index x j = g.mul_scalar (hash_index_to_group j) x

  -- MarshalGroupElements
  pub marshal_group_elements : List g.Element → Result (List ℕ)
  marshal_group_elements [] = ok []
  marshal_group_elements (el ∷ q) = do
    tmp ← g.marshal el
    encoded ← marshal_group_elements q
    ok (tmp ++ encoded)

  -- The loop of UnmarshalGroupElements, with fuel for the elements left. Fewer bytes than an element
  -- has panic.
  pub unmarshal_from : ℕ → ℕ → List ℕ → Result (List g.Element)
  unmarshal_from elem_size fuel [] = ok []
  unmarshal_from elem_size zero (b ∷ q) = stuck
  unmarshal_from elem_size (suc fuel) (b ∷ q) = do
    bytes ← slice (b ∷ q) 0 elem_size
    elem ← g.unmarshal bytes
    decoded ← unmarshal_from elem_size fuel (drop elem_size (b ∷ q))
    ok (elem ∷ decoded)

  -- UnmarshalGroupElements: an element size of 0 divides by it.
  pub unmarshal_group_elements : ℕ → List ℕ → Result (List g.Element)
  unmarshal_group_elements elem_size q =
      if elem_size == 0 then panic else unmarshal_from elem_size (length q) q

  -- The loop over the columns that computeDigests and processRows both have: the sum of the elements
  -- of the columns whose entry is 1, in the row that begins at `start`.
  pub add_selected : List ℕ → ℕ → (ℕ → Result g.Element) → ℕ → ℕ → g.Element → Result g.Element
  add_selected data' start element zero j d = ok d
  add_selected data' start element (suc left) j d = do
    bit ← or_panic (get_elem? data' (start + j))
    x ← if bit == 1 then element j else ok g.identity
    add_selected data' start element left (suc j) (if bit == 1 then g.add_elements d x else d)

  -- The loop over the rows of computeDigests, with `left` rows to go.
  pub digest_rows : List ℕ → ℕ → ℕ → ℕ → Result (List ℕ)
  digest_rows data' row_len zero i = ok []
  digest_rows data' row_len (suc left) i = do
    d ← add_selected data' (i * row_len) (λ j. ok (hash_index_to_group j)) row_len 0 g.identity
    tmp ← g.marshal d
    digs ← digest_rows data' row_len left (suc i)
    ok (tmp ++ digs)

  -- computeDigests for the rows `lo .. hi`: make panics on a negative capacity.
  pub compute_digests : List ℕ → ℕ → ℕ → ℕ → Result (List ℕ)
  compute_digests data' row_len lo hi =
      if ltb hi lo then panic else digest_rows data' row_len (hi - lo) lo

  -- The goroutines of CreateRandomEllipticWithDigest from number `i` on, their replies appended.
  pub digest_chunks : List ℕ → ℕ → ℕ → ℕ → ℕ → ℕ → Result (List ℕ)
  digest_chunks data' num_rows row_len rows_per_routine zero i = ok []
  digest_chunks data' num_rows row_len rows_per_routine (suc left) i = do
    chunk ←
        compute_digests data' row_len (i * rows_per_routine)
          (min (suc i * rows_per_routine) num_rows)
    digests ← digest_chunks data' num_rows row_len rows_per_routine left (suc i)
    ok (chunk ++ digests)

  -- CreateRandomEllipticWithDigest. `random` is what the reader fills the entries from, `sample` the
  -- element whose encoding gives the element size, and `hash` is BLAKE2b.
  pub create_random_elliptic :
      ⦃floats : Floats⦄ → (List ℕ → List ℕ) → List ℕ → ℕ → g.Element → ℕ → Bool → Result Elliptic
  create_random_elliptic hash random num_cpu sample db_len rebalanced =
      let (num_rows, num_columns) = calculate_num_rows_and_columns db_len rebalanced in
      let routines = num_routines num_cpu db_len in
      let data' = map (λ b. bit_and b 1) (take (num_rows * num_columns) random) in
      if ltb (length random) (num_rows * num_columns) then stuck else do
        digests ←
            digest_chunks data' num_rows num_columns ((num_rows + routines - 1) / routines) routines
              0
        encoded ← g.marshal sample
        ok (record {
          entries = data';
          info = record {
            num_rows = num_rows;
            num_columns = num_columns;
            element_size = length encoded;
            digest = hash digests;
            sub_digests = digests;
          };
        })

  -- processRows of the server from row `i` on, with `left` rows to go.
  pub process_rows : Elliptic → List g.Element → ℕ → ℕ → Result (List g.Element)
  process_rows db input zero i = ok []
  process_rows db input (suc left) i = do
    prod ←
        add_selected db.entries (i * db.info.num_columns) (λ j. or_panic (get_elem? input j))
          db.info.num_columns 0 g.identity
    prods ← process_rows db input left (suc i)
    ok (prod ∷ prods)

  -- AnswerBytes: its one goroutine takes all rows.
  pub dh_answer : Elliptic → List ℕ → Result (List ℕ)
  dh_answer db q = do
    query ← unmarshal_group_elements db.info.element_size q
    answer ← process_rows db query db.info.num_rows 0
    marshal_group_elements answer

  -- The fields of the client's state that the scheme uses.
  pub record DhState : Type 0 where
    pub ix : ℕ
    pub iy : ℕ
    pub r : g.Scalar
    pub ht : g.Element

  -- The query before it is encoded: the loop over the columns, and the blinding at the column `iy`.
  pub dh_elements : ℕ → g.Scalar → ℕ → g.Element → List g.Element
  dh_elements num_columns r iy ht =
      let query = tabulate num_columns (commit_scalar_to_index r) in
      set query iy (g.add_elements (get_or query iy g.identity) ht)

  -- QueryBytes of the client, for an index that is not negative and the two scalars that it samples.
  pub dh_query : DhInfo → ℕ → g.Scalar → g.Scalar → Result (List ℕ × DhState)
  dh_query info index r t =
      let (ix, iy) = vector_to_matrix_indices index info.num_columns in
      let ht = commit_scalar_to_index t iy in
      if info.num_columns == 0 then panic else do
        encoded ← marshal_group_elements (dh_elements info.num_columns r iy ht)
        ok (encoded, record { ix = ix; iy = iy; r = r; ht = ht })

  -- The body of the loop of ReconstructBytes for row `i`, on the element `m`: the result so far.
  pub check_row : DhState → ℕ → g.Element → ℕ → Result ℕ
  check_row st i m res =
      if not (g.is_identity m) && not (g.is_equal m st.ht)
      then err reject
      else if i == st.ix
      then ok (if g.is_identity m then 0 else if g.is_equal m st.ht then 1 else res)
      else ok res

  -- The loop of ReconstructBytes from row `i` on.
  pub reconstruct_rows : DhInfo → DhState → List g.Element → ℕ → ℕ → ℕ → Result ℕ
  reconstruct_rows info st answer zero i res = ok res
  reconstruct_rows info st answer (suc left) i res = do
    bytes ← slice info.sub_digests (i * info.element_size) (suc i * info.element_size)
    d ← g.unmarshal bytes
    a ← or_panic (get_elem? answer i)
    res' ← check_row st i (g.add_elements (g.mul_scalar d (g.neg st.r)) a) res
    reconstruct_rows info st answer left (suc i) res'

  -- ReconstructBytes
  pub dh_reconstruct : DhInfo → DhState → List ℕ → Result ℕ
  dh_reconstruct info st a = do
    answer ← unmarshal_group_elements info.element_size a
    reconstruct_rows info st answer info.num_rows 0 0

-- bytes.Equal
pub bytes_equal : List ℕ → List ℕ → Bool
bytes_equal [] [] = true
bytes_equal (x ∷ xs) (y ∷ ys) = x == y && bytes_equal xs ys
bytes_equal [] (y ∷ ys) = false
bytes_equal (x ∷ xs) [] = false

-- NewDH
pub new_dh : (List ℕ → List ℕ) → DhInfo → Result DhInfo
new_dh hash info = if bytes_equal (hash info.sub_digests) info.digest then ok info else panic
