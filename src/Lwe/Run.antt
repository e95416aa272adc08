-- ===== src/Lwe/Run.antt =====
-- The lattice scheme from end to end: the query, the answer of an honest server, and the reconstruction with the
-- digest of the database.
use apir_code.Base.{
  ltb, if◌then◌else◌, ltb→lt, lt→ltb, Bool-cases, length, All, All-get_or, IsU32, u32, byte_at, ok,
  ℕ, ◌+◌, ◌-◌, ◌*◌, ◌^◌, ◌<◌, ◌≡◌, refl, sym, ap, ap₂, ◌∙◌, subst, ◌≢◌, inl, inr, Bool, true, some,
  List, arith,
}
use apir_code.Matrix.{Matrix, MatrixBytes, get}
use apir_code.Matrix.Product.{sum_from, sum_from_ext}
use apir_code.Matrix.Places.{
  IsSized, IsFilled, sized-IsFilled, some_area, mul_at, binary_mul_at, add_at, sub_at,
}
use apir_code.Lwe.{Lwe, StateLwe, lwe_query, lwe_answer, lwe_reconstruct}
use apir_code.Lwe.Database.{digest}
use apir_code.Matrix.Modular.{sum_from_mod}
use apir_code.Lwe.Honest.{message_at, query_place, answer-place}
use apir_code.Lwe.Noise.{IsNoise, IsApart, lwe_reconstruct_noisy}

-- A client and a server that fit: the matrices have the sizes of the parameters, those of NewRandom with any
-- words behind their places; the database is one of bits; and the client has the digest that the server
-- computed with its own public matrix, whose places are those of the client's.
pub record IsSetUp (c : Lwe) (a server_a secret e : Matrix) (db : MatrixBytes) : Type 0 where
  pub some_n : c.params.n ≢ 0
  pub some_l : c.params.l ≢ 0
  pub some_m : c.params.m ≢ 0
  pub public_filled : IsFilled c.params.n c.params.l a
  pub server_filled : IsFilled c.params.n c.params.l server_a
  pub server_words : All IsU32 server_a.data'
  pub same_public :
      (k : ℕ) → k < c.params.n * c.params.l → byte_at server_a.data' k ≡ byte_at a.data' k
  pub secret_filled : IsFilled 1 c.params.n secret
  pub error_sized : IsSized 1 c.params.l e
  pub db_rows : db.rows ≡ c.params.l
  pub db_cols : db.cols ≡ c.params.m
  pub db_places : length db.data' ≢ 0
  pub db_bits : All (λ v. v < 2) db.data'
  pub digested : digest server_a db ≡ ok c.digest

place_inside : (n l x k : ℕ) → x < n → k < l → l * x + k < n * l
place_inside n l x k h below = grind arith

same_ok : {a b : Matrix} → ok a ≡ ok b → a ≡ b
same_ok h = cc

-- Reading the first row of a product.
first_row :
    (p : List ℕ) (f : ℕ → ℕ → ℕ) (cols n q : ℕ)
    → byte_at p (cols * 0 + q) ≡ u32 (sum_from (λ k. f (n * 0 + k) (cols * k + q)) 0 n)
    → byte_at p q ≡ u32 (sum_from (λ k. f k (cols * k + q)) 0 n)
first_row p f cols n q h =
    let front : cols * 0 + q ≡ q = omega arith in
    ap (byte_at p) (sym front)
    ∙ h
    ∙ ap u32 (
        sum_from_ext _ _ 0 n (λ k.
          let start : n * 0 + k ≡ k = omega arith in ap (λ (x : ℕ). f x (cols * k + q)) start))

module _ (c : Lwe) (a server_a secret e : Matrix) (db : MatrixBytes) where
  -- The noise that the errors of the query leave in column `p` of the answer.
  abbrev pub answer_noise : ℕ → ℕ
  answer_noise p =
      u32 (sum_from (λ k. byte_at e.data' k * byte_at db.data' (c.params.m * k + p)) 0 c.params.l)

  module _ (setup : IsSetUp c a server_a secret e db) (rand : Matrix) (i t : ℕ)
      (scalar : get rand 0 0 ≡ ok t) (row_inside : i < c.params.l) where
    -- What the client keeps.
    abbrev pub sent_state : ℕ → StateLwe
    sent_state j = record { a = a; digest = c.digest; secret = secret; i = i; j = j; t = t }

    -- The query, and its places.
    lwe_query-query_place :
        (j : ℕ)
        → (q : Matrix) × (lwe_query c rand a secret e i j
            ≡ ok (q, record c { state = some (sent_state j) }))
          × IsSized 1 c.params.l q
          × All IsU32 q.data'
          × ((k : ℕ)
              → k < c.params.l
              → byte_at q.data' k
                ≡ query_place
                    (byte_at secret.data')
                    (byte_at db.data')
                    (byte_at e.data')
                    (λ x y. byte_at a.data' (c.params.l * x + y))
                    c.params.n
                    c.params.l
                    i
                    t
                    row_inside
                    k)
    unfolding lwe_query
    lwe_query-query_place j =
        let (p, run, sized, at) =
          mul_at secret 1 c.params.n c.params.l setup.secret_filled setup.some_l (omega arith)
            setup.some_n a setup.public_filled.all_rows' setup.public_filled.all_cols
            (λ none_left.
              some_area c.params.n c.params.l setup.some_n setup.some_l
                (let filled = setup.public_filled.all_places in omega arith)) in
        let s_a : (k : ℕ)
            → k < c.params.l
            → byte_at p.data' k
              ≡ u32 (
                  sum_from
                    (λ x. u32 (byte_at secret.data' x * byte_at a.data' (c.params.l * x + k))) 0
                    c.params.n) =
          λ k below.
            first_row p.data' (λ x y. u32 (byte_at secret.data' x * byte_at a.data' y)) c.params.l
              c.params.n k (at 0 k (omega arith) below) in
        let (msg, run', sized', at') = message_at c.params.l i t row_inside in
        let (q1, run1, sized1, words1, at1) = add_at p e c.params.l sized setup.error_sized in
        let (q2, run2, sized2, words2, at2) = add_at q1 msg c.params.l sized1 sized' in
        (
          q2,
          rw (scalar, run, run', run1, run2) refl,
          sized2,
          words2,
          λ k below.
              let with_error =
                at1 k below ∙ ap (λ (w : ℕ). u32 (w + byte_at e.data' k)) (s_a k below) in
              at2 k below ∙ ap₂ (λ (v w : ℕ). u32 (v + w)) with_error (at' k),
        )

    -- The digest that the client has, and its places.
    digest_at :
        IsSized c.params.n c.params.m c.digest
        × ((x p : ℕ)
            → x < c.params.n
            → p < c.params.m
            → byte_at c.digest.data' (c.params.m * x + p)
              ≡ u32 (
                  sum_from
                    (λ k.
                      byte_at a.data' (c.params.l * x + k) * byte_at db.data' (c.params.m * k + p))
                    0
                    c.params.l))
    unfolding digest
    digest_at =
        let (p, run, sized, at) =
          binary_mul_at server_a c.params.n c.params.l c.params.m setup.server_filled setup.some_m
            setup.some_n setup.some_l db setup.db_rows setup.db_cols setup.db_places
            setup.server_words setup.db_bits in
        subst
          (λ (d : Matrix).
            IsSized c.params.n c.params.m d
            × ((x p : ℕ)
                → x < c.params.n
                → p < c.params.m
                → byte_at d.data' (c.params.m * x + p)
                  ≡ u32 (
                      sum_from
                        (λ k.
                          byte_at a.data' (c.params.l * x + k)
                          * byte_at db.data' (c.params.m * k + p))
                        0 c.params.l)))
          (same_ok (sym run ∙ setup.digested))
          (
            sized,
            λ x p x_below below.
                at x p x_below below
                ∙ sum_from_mod _ _ 0 c.params.l (λ k k_below.
                  let inside : c.params.l * x + k < c.params.n * c.params.l =
                    place_inside c.params.n c.params.l x k x_below (omega arith) in
                  ap (λ (w : ℕ). u32 (w * byte_at db.data' (c.params.m * k + p)))
                    (setup.same_public (c.params.l * x + k) inside)),
          )

    -- The answer less secret * digest, in column `p`.
    difference_place :
        (q answers product : ℕ → ℕ) (dig : ℕ → ℕ) (p : ℕ)
        → p < c.params.m
        → ((k : ℕ)
            → k < c.params.l
            → q k
              ≡ query_place
                  (byte_at secret.data')
                  (byte_at db.data')
                  (byte_at e.data')
                  (λ x y. byte_at a.data' (c.params.l * x + y))
                  c.params.n
                  c.params.l
                  i
                  t
                  row_inside
                  k)
        → answers p ≡ u32 (sum_from (λ k. q k * byte_at db.data' (c.params.m * k + p)) 0 c.params.l)
        → product p
          ≡ u32
              (sum_from (λ x. u32 (byte_at secret.data' x * dig (c.params.m * x + p))) 0 c.params.n)
        → ((x : ℕ)
            → x < c.params.n
            → dig (c.params.m * x + p)
              ≡ u32 (
                  sum_from
                    (λ k.
                      byte_at a.data' (c.params.l * x + k) * byte_at db.data' (c.params.m * k + p))
                    0
                    c.params.l))
        → u32 (answers p + u32 (2 ^ 32 - product p))
          ≡ u32 (answer_noise p + t * byte_at db.data' (c.params.m * i + p))
    difference_place q answers product dig p below queried answered multiplied digests =
        let d : ℕ → ℕ = λ k. byte_at db.data' (c.params.m * k + p) in
        let s = byte_at secret.data' in
        let a' : ℕ → ℕ → ℕ = λ x y. byte_at a.data' (c.params.l * x + y) in
        let e1 =
          answered
          ∙ sum_from_mod _ _ 0 c.params.l
              (λ k inside. ap (λ (v : ℕ). u32 (v * d k)) (queried k (omega arith))) in
        let e2 =
          multiplied
          ∙ sum_from_mod _ _ 0 c.params.n
              (λ x inside. ap (λ (v : ℕ). u32 (u32 (s x * v))) (digests x (omega arith))) in
        ap₂ (λ (v w : ℕ). u32 (v + u32 (2 ^ 32 - w))) e1 e2
        ∙ answer-place s d (byte_at e.data') a' c.params.n c.params.l i t row_inside

    -- With matrices of the sizes of the parameters, of which the random ones may have more words behind their
    -- places, a database of bits whose digest the client has, made with the same public places, a row
    -- and a column of the database, a scalar at least 2B - 1 away from 0 on both sides, and errors that
    -- leave a noise below B on either side of 0 in every column: the query is made, the server answers it,
    -- and the client accepts the answer and returns the bit of the database in that row and column.
    pub lwe_query-answer-reconstruct :
        (j : ℕ)
        → j < c.params.m
        → IsApart c.params.b t
        → ((p : ℕ) → p < c.params.m → IsNoise c.params.b (answer_noise p))
        → (q : Matrix) × (c' : Lwe) × (answers : Matrix) × (lwe_query c rand a secret e i j
            ≡ ok (q, c'))
          × (lwe_answer db q ≡ ok answers)
          × (lwe_reconstruct c' answers ≡ ok (byte_at db.data' (c.params.m * i + j)))
    unfolding lwe_answer
    lwe_query-answer-reconstruct j column_inside apart bounded =
        let m = c.params.m in
        let (q, queried, sized, words, at) = lwe_query-query_place j in
        let (answers, answered, sized', at') =
          binary_mul_at q 1 c.params.l m (sized-IsFilled 1 c.params.l q sized) setup.some_m
            (λ e. absurd (omega arith)) setup.some_l db setup.db_rows setup.db_cols setup.db_places
            words setup.db_bits in
        let (dig_sized, dig) = digest_at in
        let (product, multiplied, sized2, at2) =
          mul_at secret 1 c.params.n m setup.secret_filled setup.some_m (λ e. absurd (omega arith))
            setup.some_n c.digest dig_sized.all_rows' dig_sized.all_cols
            (λ none_left.
              some_area c.params.n m setup.some_n setup.some_m
                (sym dig_sized.all_places ∙ none_left)) in
        let (difference, subtracted, sized3, at3) = sub_at answers product m sized' sized2 in
        let c' = record c { state = some (sent_state j) } in
        let places = sized3.all_places in
        let bit : ℕ → ℕ = λ p. byte_at db.data' (m * i + p) in
        let noise : ℕ → ℕ = λ p. if ltb p m then answer_noise p else 0 in
        let noise_bounded : (p : ℕ) → IsNoise c.params.b (noise p) = λ p.
          elim (Bool-cases (ltb p m)) [
            | inl inside ↦ rw inside (bounded p (ltb→lt p m inside))
            | inr outside ↦ rw outside (inl (omega arith))
          ] in
        let values : (k : ℕ) → k < m → byte_at difference.data' k ≡ u32 (noise k + t * bit k) =
          λ k below.
            let inside : ltb k m ≡ true = lt→ltb k m below in
            at3 k below
            ∙ difference_place (byte_at q.data') (byte_at answers.data') (byte_at product.data')
                (byte_at c.digest.data') k below at
                (first_row answers.data' (λ x y. byte_at q.data' x * byte_at db.data' y) m
                  c.params.l k (at' 0 k (omega arith) below))
                (first_row product.data'
                  (λ x y. u32 (byte_at secret.data' x * byte_at c.digest.data' y)) m c.params.n k
                  (at2 0 k (omega arith) below))
                (λ x row_below. dig x k row_below below)
            ∙ ap (λ (b : Bool). u32 ((if b then answer_noise k else 0) + t * bit k)) (sym inside) in
        (
          q,
          c',
          answers,
          queried,
          answered,
          lwe_reconstruct_noisy c' (sent_state j) answers product difference refl multiplied
              subtracted (omega arith) bit noise apart
              (λ p. All-get_or (λ v. v < 2) db.data' (m * i + p) 0 setup.db_bits (omega arith))
              noise_bounded values column_inside,
        )
