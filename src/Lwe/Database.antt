-- ===== src/Lwe/Database.antt =====
-- lib/database/lwe.go: a database of random bits, and its digest.
use apir_code.Base.{
  length, tabulate, All, length-tabulate, get_or-tabulate, All-tabulate, IsU32, u32, byte_at,
  Result, ◌>>=◌, ok, ℕ, zero, suc, ◌+◌, ◌*◌, ◌/◌, ◌%◌, ◌^◌, ◌<◌, ◌≡◌, refl, sym, ◌∙◌, ◌≢◌, List,
  arith,
}
use native.Mathlib.Nat.{div-add-mod, mod-lt, pow-suc, pow-zero}
use apir_code.Matrix.{Matrix, MatrixBytes, binary_mul}
use apir_code.Matrix.Product.{sum_from}
use apir_code.Matrix.Places.{IsSized, IsFilled, some_area, binary_mul_at}

-- database.LWE with the fields of its Info.
pub record LweDb : Type 0 where
  pub matrix : MatrixBytes
  pub num_rows : ℕ
  pub num_columns : ℕ
  pub block_size : ℕ
  pub digest_lwe : Matrix

-- Digest, for the public matrix that NewRandom makes from the fixed seed.
unfoldable pub digest : Matrix → MatrixBytes → Result Matrix
digest public_matrix db = binary_mul public_matrix db

-- The bit of place `i`, `(data[i/8] >> (i % 8)) & 1`.
unfoldable pub bit_at : List ℕ → ℕ → ℕ
bit_at bytes i = byte_at bytes (i / 8) / 2 ^ (i % 8) % 2

-- CreateRandomBinaryLWE: `bytes` is what the reader stores in `data`, one bit for each place and one byte
-- more, so that no place is read behind its end; bytes that are not stored stay 0. A bit is below
-- plaintextModulus, so the test of its value does not fail.
unfoldable pub create_random_binary_lwe : List ℕ → Matrix → ℕ → ℕ → Result LweDb
create_random_binary_lwe bytes public_matrix num_rows num_columns =
    let m : MatrixBytes = record {
      rows = num_rows;
      cols = num_columns;
      data' = tabulate (num_rows * num_columns) (bit_at bytes);
    } in
    do
      digest_lwe ← digest public_matrix m
      ok (record {
        matrix = m;
        num_rows = num_rows;
        num_columns = num_columns;
        block_size = 1;
        digest_lwe = digest_lwe;
      })

-- Place `8 * q + r` is binary digit `r` of byte `q`.
abbrev pub IsDigit : ℕ → ℕ → ℕ → Type 0
IsDigit byte r bit =
    (bit < 2) × ((high : ℕ) × (low : ℕ) × (low < 2 ^ r) × (byte ≡ (2 * high + bit) * 2 ^ r + low))

power_pos : (r : ℕ) → 0 < 2 ^ r
power_pos zero = omega (arith, pow-zero 2)
power_pos (suc r) = omega (arith, pow-suc 2 r, power_pos r)

quotient-IsDigit : (byte r : ℕ) → r < 8 → IsDigit byte r (byte / 2 ^ r % 2)
quotient-IsDigit byte r h =
    let some_power : 0 < 2 ^ r = power_pos r in
    let split = div-add-mod byte (2 ^ r) in
    let halves = div-add-mod (byte / 2 ^ r) 2 in
    (omega arith, (byte / 2 ^ r / 2, byte % 2 ^ r, mod-lt byte some_power, rw halves (omega arith)))

module _ (bytes : List ℕ) (public_matrix : Matrix) (n num_rows num_columns : ℕ) where
  -- What CreateRandomBinaryLWE promises: a bit for each row and column, which are the binary digits of the random
  -- bytes one after the other, and the product of the public matrix with them, modulo 2^32.
  pub record HoldsDigits (db : LweDb) : Type 0 where
    pub rows : db.matrix.rows ≡ num_rows
    pub cols : db.matrix.cols ≡ num_columns
    pub places : length db.matrix.data' ≡ num_rows * num_columns
    pub all_bits : All (λ v. v < 2) db.matrix.data'
    pub digits :
        (q r : ℕ)
        → r < 8
        → 8 * q + r < num_rows * num_columns
        → IsDigit (byte_at bytes q) r (byte_at db.matrix.data' (8 * q + r))
    pub digested : digest public_matrix db.matrix ≡ ok db.digest_lwe
    pub digest_sized : IsSized n num_columns db.digest_lwe
    pub digest_places :
        (x p : ℕ)
        → x < n
        → p < num_columns
        → byte_at db.digest_lwe.data' (num_columns * x + p)
          ≡ u32 (
              sum_from
                (λ k.
                  byte_at public_matrix.data' (num_rows * x + k)
                  * byte_at db.matrix.data' (num_columns * k + p))
                0
                num_rows)

  -- For at least one row and column, and a public matrix of words with a column for each row of the database, as
  -- NewRandom makes it, CreateRandomBinaryLWE returns a database with the digits of the random bytes and the
  -- digest of them.
  pub create_random_binary_lwe-HoldsDigits :
      n ≢ 0
      → num_rows ≢ 0
      → num_columns ≢ 0
      → IsFilled n num_rows public_matrix
      → All IsU32 public_matrix.data'
      → (db : LweDb) × (create_random_binary_lwe bytes public_matrix num_rows num_columns ≡ ok db)
        × HoldsDigits db
  unfolding create_random_binary_lwe digest bit_at
  create_random_binary_lwe-HoldsDigits some_n some_rows some_columns filled words =
      let area = num_rows * num_columns in
      let data' = tabulate area (bit_at bytes) in
      let len = length-tabulate area (bit_at bytes) in
      let m : MatrixBytes = record { rows = num_rows; cols = num_columns; data' = data' } in
      let bits = All-tabulate (λ v. v < 2) area (bit_at bytes) (λ i. omega arith) in
      let (product, run, sized, at) =
        binary_mul_at public_matrix n num_rows num_columns filled some_columns some_n some_rows m
          refl refl (λ e. some_area num_rows num_columns some_rows some_columns (sym len ∙ e)) words
          bits in
      (
        record {
          matrix = m;
          num_rows = num_rows;
          num_columns = num_columns;
          block_size = 1;
          digest_lwe = product;
        },
        rw run refl,
        record {
          rows = refl;
          cols = refl;
          places = len;
          all_bits = bits;
          digits = λ q r h below.
              let whole : (8 * q + r) / 8 ≡ q = omega arith in
              let rest : (8 * q + r) % 8 ≡ r = omega arith in
              rw (get_or-tabulate area (8 * q + r) (bit_at bytes) 0 below, whole, rest)
                (quotient-IsDigit (byte_at bytes q) r h);
          digested = run;
          digest_sized = sized;
          digest_places = at;
        },
      )
