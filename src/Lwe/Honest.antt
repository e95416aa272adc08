-- ===== src/Lwe/Honest.antt =====
-- The lattice scheme from end to end: the query, the answer of an honest server, and the reconstruction with the
-- digest of the database.
use apir_code.Base.{
  ltb, ◌==◌, if◌then◌else◌, lt→ltb, length, set, replicate, length-set, length-replicate,
  get_or-set_same, get_or-set_other, u32, byte_at, ok, ℕ, ◌+◌, ◌-◌, ◌*◌, ◌^◌, ◌<◌, ◌≡◌, refl, sym,
  ap, ◌∙◌, Bool, true, false, List, arith,
}
use native.Mathlib.Decide.{ℕ_discrete}
use apir_code.Matrix.{Matrix, new, store, set_data, set_at}
use apir_code.Matrix.Product.{sum_from, zeros_at}
use apir_code.Matrix.Places.{IsSized}
use apir_code.Matrix.Modular.{
  u32-mul_left, u32-mul_right, sum_from_mod, sum_from-add, sum_from_one, sum_products_assoc,
}

==_self : (i : ℕ) → (i == i) ≡ true
==_self i = ground arith

-- The message of the query.
pub message_at :
    (l i t : ℕ)
    → i < l
    → (msg : Matrix) × (set_at (new 1 l) 0 i t ≡ ok msg)
      × IsSized 1 l msg
      × ((q : ℕ) → byte_at msg.data' q ≡ (if q == i then t else 0))
unfolding set_at set_data store new
message_at l i t below =
    let out : List ℕ = replicate (1 * l) 0 in
    let place : l * 0 + i ≡ i = omega arith in
    let len = length-replicate {A = ℕ} (1 * l) 0 in
    let inside : ltb i (length out) ≡ true = lt→ltb i (length out) (omega arith) in
    (
      record { rows = 1; cols = l; data' = set out i t },
      rw (place, inside) refl,
      record { all_rows' = refl; all_cols = refl; all_places = length-set out i t ∙ len },
      λ q. elim (ℕ_discrete q i) [
        | yes same ↦ rw same (
            get_or-set_same out i t 0 (omega arith)
            ∙ sym (ap (λ (b : Bool). if b then t else 0) (==_self i)))
        | no other ↦
            let differs : (q == i) ≡ false = ground arith in
            rw differs (get_or-set_other out i q t 0 other ∙ zeros_at (1 * l) q)
      ],
    )

nested : (a b c : ℕ) → u32 (u32 (u32 a + b) + c) ≡ u32 (a + b + c)
nested a b c = omega arith

-- What the answer of a place is, when everything before it is written out modulo 2^32.
module _ (s d e : ℕ → ℕ) (a : ℕ → ℕ → ℕ) (n l i t : ℕ) (inside : i < l) where
  -- Place `k` of the query.
  abbrev pub query_place : ℕ → ℕ
  query_place k =
      u32 (u32 (u32 (sum_from (λ x. u32 (s x * a x k)) 0 n) + e k) + (if k == i then t else 0))

  query_place_mod :
      (k : ℕ)
      → u32 (query_place k * d k)
        ≡ u32 (sum_from (λ x. s x * a x k) 0 n * d k + e k * d k + (if k == i then t else 0) * d k)
  query_place_mod k =
      let sum = sum_from (λ x. s x * a x k) 0 n in
      let m = if k == i then t else 0 in
      let reduced : u32 (sum_from (λ x. u32 (s x * a x k)) 0 n) ≡ u32 sum =
        sum_from_mod _ _ 0 n (λ x below.
          let twice : u32 (u32 (s x * a x k)) ≡ u32 (s x * a x k) = omega arith in twice) in
      let all : query_place k ≡ u32 (sum + e k + m) =
        ap (λ (v : ℕ). u32 (u32 (v + e k) + m)) reduced ∙ nested sum (e k) m in
      let expanded : (sum + e k + m) * d k ≡ sum * d k + e k * d k + m * d k = grind arith in
      ap (λ (v : ℕ). u32 (v * d k)) all ∙ u32-mul_left (sum + e k + m) (d k) ∙ ap u32 expanded

  -- The answer less secret * digest.
  pub answer-place :
      u32 (
        u32 (sum_from (λ k. query_place k * d k) 0 l)
        + u32
            (2 ^ 32 - u32 (sum_from (λ x. u32 (s x * u32 (sum_from (λ k. a x k * d k) 0 l))) 0 n)))
      ≡ u32 (u32 (sum_from (λ k. e k * d k) 0 l) + t * d i)
  answer-place =
      let f : ℕ → ℕ = λ k. sum_from (λ x. s x * a x k) 0 n * d k in
      let g : ℕ → ℕ = λ k. e k * d k in
      let h : ℕ → ℕ = λ k. (if k == i then t else 0) * d k in
      let one_message : sum_from h 0 l ≡ t * d i =
        sum_from_one h 0 l i (omega arith) (omega arith) (λ x other.
          let differs : (x == i) ≡ false = ground arith in
          ap (λ (b : Bool). (if b then t else 0) * d x) differs ∙ omega arith)
        ∙ ap (λ (b : Bool). (if b then t else 0) * d i) (==_self i) in
      let places : u32 (sum_from (λ k. query_place k * d k) 0 l)
          ≡ u32 (sum_from (λ k. f k + g k + h k) 0 l) =
        sum_from_mod _ _ 0 l (λ k below. query_place_mod k) in
      let parts : sum_from (λ k. f k + g k + h k) 0 l
          ≡ sum_from f 0 l + sum_from g 0 l + sum_from h 0 l =
        sum_from-add (λ k. f k + g k) h 0 l
        ∙ ap (λ (x : ℕ). x + sum_from h 0 l) (sum_from-add f g 0 l) in
      let hashed : u32 (sum_from (λ x. u32 (s x * u32 (sum_from (λ k. a x k * d k) 0 l))) 0 n)
          ≡ u32 (sum_from (λ x. s x * sum_from (λ k. a x k * d k) 0 l) 0 n) =
        sum_from_mod _ _ 0 n (λ x below.
          let outer : u32 (u32 (s x * u32 (sum_from (λ k. a x k * d k) 0 l)))
              ≡ u32 (s x * u32 (sum_from (λ k. a x k * d k) 0 l)) =
            omega arith in
          outer ∙ u32-mul_right (s x) (sum_from (λ k. a x k * d k) 0 l)) in
      let same = sum_products_assoc s a d n l in omega arith
