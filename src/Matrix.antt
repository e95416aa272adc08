-- ===== src/Matrix.antt =====
-- lib/matrix/matrix.go, matrixBytes.go and matrix.c: matrices of uint32, row by row in one slice, and
-- their products with a second matrix or with a matrix of bytes, modulo 2^32.
pub mod Codec
pub mod Product
pub mod Many
pub mod Modular
pub mod Places
use apir_code.Base.{
  ◌>>=◌, ltb, ◌==◌, if◌then◌else◌, length, get_elem?, set, replicate, tabulate, u32, byte_at,
  big_endian, put_big_endian, Result, or_panic, ok, panic, ℕ, zero, suc, ◌+◌, ◌-◌, ◌*◌, ◌^◌,
  bit_and, ◌||◌, not, List, [], ◌∷◌,
}
use apir_code.Utils.Encoding.{uint32_slice_to_byte_slice, byte_slice_to_uint32_slice}

pub record Matrix : Type 0 where
  pub rows : ℕ
  pub cols : ℕ
  pub data' : List ℕ

-- MatrixBytes, with one byte for each place.
pub record MatrixBytes : Type 0 where
  pub rows : ℕ
  pub cols : ℕ
  pub data' : List ℕ

unfoldable pub new : ℕ → ℕ → Matrix
new r c = record { rows = r; cols = c; data' = replicate (r * c) 0 }

pub new_with_data : ℕ → ℕ → List ℕ → Matrix
new_with_data r c data' = record { rows = r; cols = c; data' = data' }

pub new_bytes : ℕ → ℕ → MatrixBytes
new_bytes r c = record { rows = r; cols = c; data' = replicate (r * c) 0 }

-- A store at an index out of range panics.
unfoldable pub store : List ℕ → ℕ → ℕ → Result (List ℕ)
store data' i v = if ltb i (length data') then ok (set data' i v) else panic

unfoldable pub set_data : Matrix → ℕ → ℕ → Result Matrix
set_data m i v = do data' ← store m.data' i v; ok (record m { data' = data' })

pub set_byte : MatrixBytes → ℕ → ℕ → Result MatrixBytes
set_byte m i v = do data' ← store m.data' i v; ok (record m { data' = data' })

unfoldable pub set_at : Matrix → ℕ → ℕ → ℕ → Result Matrix
set_at m r c v = set_data m (m.cols * r + c) v

unfoldable pub get : Matrix → ℕ → ℕ → Result ℕ
get m r c = or_panic (get_elem? m.data' (m.cols * r + c))

pub get_byte : MatrixBytes → ℕ → ℕ → Result ℕ
get_byte m r c = or_panic (get_elem? m.data' (m.cols * r + c))

-- The innermost loop of the two C functions, over `j`: `term j` is what is added to place `base + j`.
unfoldable pub add_row : (ℕ → ℕ) → ℕ → ℕ → ℕ → List ℕ → List ℕ
add_row term base zero j out = out
add_row term base (suc left) j out =
    add_row term base left (suc j) (set out (base + j) (u32 (byte_at out (base + j) + term j)))

-- The loop over `k`, and the one over `i`.
unfoldable pub add_products : (ℕ → ℕ → ℕ) → ℕ → ℕ → ℕ → ℕ → List ℕ → List ℕ
add_products term base b_cols zero k out = out
add_products term base b_cols (suc left) k out =
    add_products term base b_cols left (suc k) (add_row (term k) base b_cols 0 out)

unfoldable pub all_rows : (ℕ → ℕ → ℕ → ℕ) → ℕ → ℕ → ℕ → ℕ → List ℕ → List ℕ
all_rows term a_cols b_cols zero i out = out
all_rows term a_cols b_cols (suc left) i out =
    all_rows term a_cols b_cols left (suc i)
      (add_products (term i) (b_cols * i) b_cols a_cols 0 out)

-- The C function `multiply`, for slices that hold all the places it reads and sizes that an int holds.
unfoldable pub multiply : ℕ → ℕ → ℕ → List ℕ → List ℕ → List ℕ → List ℕ
multiply a_rows a_cols b_cols a b out =
    all_rows (λ i k j. u32 (byte_at a (a_cols * i + k) * byte_at b (b_cols * k + j))) a_cols b_cols
      a_rows 0 out

-- `-b` of an unsigned char is taken as an int, and made unsigned by the `&`.
unfoldable pub binary_multiply : ℕ → ℕ → ℕ → List ℕ → List ℕ → List ℕ → List ℕ
binary_multiply a_rows a_cols b_cols a b out =
    all_rows
      (λ i k j. bit_and (byte_at a (a_cols * i + k)) (u32 (2 ^ 32 - byte_at b (b_cols * k + j))))
      a_cols b_cols a_rows 0 out

-- The address of the first place of an empty slice panics.
unfoldable pub first_place : List ℕ → Result (Unit {0})
first_place [] = panic
first_place (x ∷ xs) = ok tt

unfoldable pub mul : Matrix → Matrix → Result Matrix
mul a b =
    let out = new a.rows b.cols in
    if not (a.cols == b.rows) then panic else (do
      _ ← first_place a.data'
      _ ← first_place b.data'
      _ ← first_place out.data'
      ok (record out { data' = multiply a.rows a.cols b.cols a.data' b.data' out.data' }))

unfoldable pub binary_mul : Matrix → MatrixBytes → Result Matrix
binary_mul a b =
    let out = new a.rows b.cols in
    if not (a.cols == b.rows) then panic else (do
      _ ← first_place a.data'
      _ ← first_place b.data'
      _ ← first_place out.data'
      ok (record out { data' = binary_multiply a.rows a.cols b.cols a.data' b.data' out.data' }))

-- Add and Sub change `a` in place; `b` may not be shorter.
unfoldable pub add : Matrix → Matrix → Result Matrix
add a b =
    if not (a.cols == b.cols) || not (a.rows == b.rows)
    then panic
    else (if ltb (length b.data') (length a.data')
        then panic
        else ok (record a {
          data' = tabulate (length a.data') (λ i. u32 (byte_at a.data' i + byte_at b.data' i));
        }))

unfoldable pub sub : Matrix → Matrix → Result Matrix
sub a b =
    if not (a.cols == b.cols) || not (a.rows == b.rows)
    then panic
    else (if ltb (length b.data') (length a.data')
        then panic
        else ok (record a {
          data' =
              tabulate (length a.data')
                (λ i. u32 (byte_at a.data' i + u32 (2 ^ 32 - byte_at b.data' i)));
        }))

-- MatrixToBytes: both dimensions, and then the places.
pub matrix_to_bytes : Matrix → List ℕ
matrix_to_bytes m =
    let r = put_big_endian (u32 m.rows) in
    let c = put_big_endian (u32 m.cols) in
    r.b0 ∷ r.b1 ∷ r.b2 ∷ r.b3 ∷ c.b0 ∷ c.b1 ∷ c.b2 ∷ c.b3 ∷ uint32_slice_to_byte_slice m.data'

-- BytesToMatrix: fewer than eight bytes panic.
pub bytes_to_matrix : List ℕ → Result Matrix
bytes_to_matrix (r0 ∷ r1 ∷ r2 ∷ r3 ∷ c0 ∷ c1 ∷ c2 ∷ c3 ∷ rest) = ok (record {
  rows = big_endian (record { b0 = r0; b1 = r1; b2 = r2; b3 = r3 });
  cols = big_endian (record { b0 = c0; b1 = c1; b2 = c2; b3 = c3 });
  data' = byte_slice_to_uint32_slice rest;
})
bytes_to_matrix bytes = panic
