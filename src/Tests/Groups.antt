-- ===== src/Tests/Groups.antt =====
-- The single-server scheme over the group of two elements, whose scalars are the two numbers.
use apir_code.Base.{
  ◌==◌, if◌then◌else◌, replicate, All, byte_at, Result, library_error, ok, err, panic, ℕ, ◌-◌, ◌*◌,
  ◌%◌, ◌≤◌, ◌<◌, ◌≡◌, refl, ◌≢◌, ◌↔◌, Bool, true, false, ◌&&◌, not, List, [], ◌∷◌, arith,
}
use apir_code.Tests.Numbers.{sqrt_below, int_floats, int_floats-IsExact}
use apir_code.Database.Size.{
  increase_to_next_square, calculate_num_rows_and_columns, calculate_num_rows_and_columns_lem,
}
use apir_code.Dh.Groups.{Group, IsGroup}
use apir_code.Dh.{
  commit_scalar_to_index, little_endian_bytes, DhState, Elliptic, hash_index_to_group, num_routines,
  create_random_elliptic, digest_chunks, digest_rows, dh_query, dh_answer, dh_reconstruct, new_dh,
  marshal_group_elements, unmarshal_group_elements,
}
use apir_code.Dh.Codec.{IsFull, encodings, marshal_group_elements-unmarshal}
use apir_code.Dh.Sums.{row_sums}
use apir_code.Dh.Chunks.{digest_chunks-digest_rows}
use apir_code.Dh.Correct.{IsDigested}
use apir_code.Dh.Scheme.{sent_ht, IsFullRun, dh_query-answer-reconstruct}
use apir_code.Dh.Accepted.{RowAccepted, dh_reconstruct-RowAccepted}
use apir_code.Dh.Creation.{create_random_elliptic-IsDigested, create_random_elliptic_panic}

abbrev bool_xor : Bool → Bool → Bool
bool_xor true b = not b
bool_xor false b = b

abbrev bool_encode : Bool → List ℕ
bool_encode b = (if b then 1 else 0) ∷ []

abbrev bool_decode : List ℕ → Result Bool
bool_decode (b ∷ []) = ok (b == 1)
bool_decode bytes = err library_error

-- The columns of even numbers have the element that is not the identity.
abbrev bool_group : Group
bool_group = record {
  Element = Bool;
  Scalar = Bool;
  identity = false;
  add_elements = bool_xor;
  mul_scalar = λ a s. a && s;
  neg = λ s. s;
  is_identity = not;
  is_equal = λ a b. not (bool_xor a b);
  hash_to_element = λ bytes. byte_at bytes 0 % 2 == 0;
  marshal = λ a. ok (bool_encode a);
  unmarshal = bool_decode;
}

bool_xor_comm : (a b : Bool) → bool_xor a b ≡ bool_xor b a
bool_xor_comm true true = refl
bool_xor_comm true false = refl
bool_xor_comm false true = refl
bool_xor_comm false false = refl

bool_xor_assoc : (a b c : Bool) → bool_xor (bool_xor a b) c ≡ bool_xor a (bool_xor b c)
bool_xor_assoc true true true = refl
bool_xor_assoc true true false = refl
bool_xor_assoc true false c = refl
bool_xor_assoc false b c = refl

bool_and_xor : (a b s : Bool) → (bool_xor a b && s) ≡ bool_xor (a && s) (b && s)
bool_and_xor true true true = refl
bool_and_xor true true false = refl
bool_and_xor true false true = refl
bool_and_xor true false false = refl
bool_and_xor false b s = refl

bool_xor_self : (a s : Bool) → bool_xor (a && s) (a && s) ≡ false
bool_xor_self true true = refl
bool_xor_self true false = refl
bool_xor_self false s = refl

bool_not_iff : (a : Bool) → (not a ≡ true) ↔ (a ≡ false)
bool_not_iff true = ((λ h. cc), (λ h. cc))
bool_not_iff false = ((λ h. refl), (λ h. refl))

bool_equal_iff : (a b : Bool) → (not (bool_xor a b) ≡ true) ↔ (a ≡ b)
bool_equal_iff true true = ((λ h. refl), (λ h. refl))
bool_equal_iff true false = ((λ h. cc), (λ h. cc))
bool_equal_iff false true = ((λ h. cc), (λ h. cc))
bool_equal_iff false false = ((λ h. refl), (λ h. refl))

bool_decode-encode : (a : Bool) → bool_decode (bool_encode a) ≡ ok a
bool_decode-encode true = refl
bool_decode-encode false = refl

abbrev bool_IsGroup : IsGroup bool_group
bool_IsGroup = record {
  add_comm = bool_xor_comm;
  add_assoc = bool_xor_assoc;
  identity-add = λ a. refl;
  mul_add = bool_and_xor;
  mul_identity = λ s. refl;
  mul_neg = bool_xor_self;
  is_identity_iff = bool_not_iff;
  is_equal_iff = bool_equal_iff;
  encoding = bool_encode;
  marshal_lem = λ a. refl;
  unmarshal_encode = bool_decode-encode;
}

bool_IsFull : (els : List Bool) → All (IsFull bool_IsGroup 1) els
bool_IsFull [] = tt
bool_IsFull (a ∷ els) = (refl, bool_IsFull els)

abbrev some_entries : List ℕ
some_entries = 1 ∷ 0 ∷ 1 ∷ 1 ∷ []

abbrev some_elliptic : Elliptic
some_elliptic = record {
  entries = some_entries;
  info = record {
    num_rows = 2;
    num_columns = 2;
    element_size = 1;
    digest = [];
    sub_digests =
        encodings bool_IsGroup
          (row_sums bool_group some_entries 2 (hash_index_to_group bool_group) 2 0);
  };
}

some_IsDigested : IsDigested bool_IsGroup some_elliptic
some_IsDigested = record { all_entries = refl; all_digests = refl; some_size = omega arith }

some_IsFullRun : IsFullRun bool_IsGroup some_elliptic 2 true true
some_IsFullRun = record {
  full_query = bool_IsFull _;
  full_answer = bool_IsFull _;
  full_digests = bool_IsFull _;
}

some_blinding : sent_ht bool_IsGroup some_elliptic 2 true true ≢ false
unfolding commit_scalar_to_index hash_index_to_group little_endian_bytes
some_blinding = λ h. cc

dh_query-answer-reconstruct_example :
    (encoded : List ℕ) × (st : DhState bool_group) × (answer : List ℕ) × (dh_query bool_group
        some_elliptic.info 2 true true
      ≡ ok (encoded, st))
    × (dh_answer bool_group some_elliptic encoded ≡ ok answer)
    × (dh_reconstruct bool_group some_elliptic.info st answer ≡ ok 1)
dh_query-answer-reconstruct_example =
    dh_query-answer-reconstruct bool_IsGroup some_elliptic 2 true true some_IsDigested
      some_IsFullRun (omega arith) some_blinding

some_run :
    (encoded : List ℕ) × (st : DhState bool_group) × (answer : List ℕ) × (dh_query bool_group
        some_elliptic.info 2 true true
      ≡ ok (encoded, st))
    × (dh_answer bool_group some_elliptic encoded ≡ ok answer)
    × (dh_reconstruct bool_group some_elliptic.info st answer ≡ ok 1)
some_run =
    dh_query-answer-reconstruct bool_IsGroup some_elliptic 2 true true some_IsDigested
      some_IsFullRun (omega arith) some_blinding

abbrev some_dh_state : DhState bool_group
some_dh_state = some_run.1

abbrev some_dh_answer : List ℕ
some_dh_answer = some_run.2

dh_reconstruct-RowAccepted_example :
    (answer : List Bool) × (unmarshal_group_elements bool_group 1 some_dh_answer ≡ ok answer)
    × ((i : ℕ) → i < 2 → RowAccepted bool_IsGroup some_elliptic.info some_dh_state answer i 1)
dh_reconstruct-RowAccepted_example =
    dh_reconstruct-RowAccepted bool_IsGroup some_elliptic.info some_dh_state some_dh_answer 1
      some_run.5

marshal_group_elements-unmarshal_example :
    (encoded : List ℕ) × (marshal_group_elements bool_group (true ∷ false ∷ []) ≡ ok encoded)
    × (unmarshal_group_elements bool_group 1 encoded ≡ ok (true ∷ false ∷ []))
marshal_group_elements-unmarshal_example =
    marshal_group_elements-unmarshal bool_IsGroup 1 (true ∷ false ∷ []) (omega arith)
      (bool_IsFull (true ∷ false ∷ []))

digest_chunks-digest_rows_example :
    digest_chunks bool_group some_entries 2 2 1 2 0
    ≡ digest_rows bool_group some_entries 2 (2 - 0 * 1) (0 * 1)
digest_chunks-digest_rows_example =
    digest_chunks-digest_rows bool_group some_entries 2 2 1 1 0 (omega arith) (omega arith)

-- 49 blocks are 7 rows of 7, one for each of the first 7 goroutines.
create_random_elliptic-IsDigested_example :
    (db : Elliptic) × (create_random_elliptic bool_group
        (λ bytes. bytes)
        (replicate 49 3)
        4
        true
        49
        true
      ≡ ok db)
    × IsDigested bool_IsGroup db
    × (new_dh (λ bytes. bytes) db.info ≡ ok db.info)
unfolding sqrt_below increase_to_next_square calculate_num_rows_and_columns num_routines
create_random_elliptic-IsDigested_example =
    create_random_elliptic-IsDigested bool_IsGroup (λ bytes. bytes) (replicate 49 3) 4 true 49 true
      (omega arith) (omega arith) (omega arith) (omega arith)

-- A vector of four bits has one row for eight goroutines.
create_random_elliptic_panic_example :
    create_random_elliptic bool_group (λ bytes. bytes) (replicate 4 3) 4 true 4 false ≡ panic
unfolding calculate_num_rows_and_columns num_routines
create_random_elliptic_panic_example =
    create_random_elliptic_panic bool_IsGroup (λ bytes. bytes) (replicate 4 3) 4 true 4 false
      (omega arith) (omega arith)

calculate_num_rows_and_columns_lem_example :
    (side : ℕ) × (calculate_num_rows_and_columns 10 true ≡ (side, side))
    × (10 ≤ side * side)
    × ((smaller : ℕ) → smaller < side → smaller * smaller < 10)
    × (calculate_num_rows_and_columns 10 false ≡ (1, 10))
calculate_num_rows_and_columns_lem_example =
    calculate_num_rows_and_columns_lem int_floats-IsExact 10 (omega arith)
