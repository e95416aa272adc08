-- ===== src/Client/Predicate/Accepted.antt =====
-- What the client makes of two answers that add up, and what its calls return around them.
use apir_code.Base.{
  ◌==◌, length, All, length-append, get_or-append_left, All-get_or, IsU32, u32, byte_at, Bytes4,
  IsBytes4, bind_ok, ok, FastXor, ℕ, zero, suc, ◌+◌, ◌-◌, ◌*◌, ◌/◌, ◌%◌, ◌^◌, ◌≤◌, ◌<◌, ◌≡◌, refl,
  sym, ap, ◌∙◌, subst, false, some, List, [], ◌∷◌, ◌++◌, arith,
}
use native.Mathlib.Nat.{div-add-mod, add-mul-mod_self_left, mul-le-mul_left}
use apir_code.Field.{mod_p, rand_element_with_prg}
use apir_code.Field.Elements.{rand_element_with_prg-All, rand_element_with_prg-lt}
use apir_code.Fss.{Fss, FssKeyEq2P, generate_tree_pf}
use apir_code.Query.{ClientFss}
use apir_code.Client.Predicate.{ClientState, query, reconstruct, sample_alphas, reconstruct_data}
use apir_code.Client.Predicate.Tags.{sum_at, Fits, reconstruct_data_decides}

pub words-IsU32 : (xs : List ℕ) → ((j : ℕ) → byte_at xs j < 2 ^ 32) → All IsU32 xs
words-IsU32 [] h = tt
words-IsU32 (x ∷ xs) h = (h 0, words-IsU32 xs (λ j. h (suc j)))

distribute : (p q r n m : ℕ) → p * q + r ≡ n → n * m ≡ r * m + p * (q * m)
distribute p q r n m e = ap (λ (k : ℕ). k * m) (sym e) ∙ omega arith

-- A tag of an honest answer.
mul-mod : (n m : ℕ) → n % mod_p * m % mod_p ≡ n * m % mod_p
mul-mod n m =
    let split = div-add-mod n mod_p in
    let e : n * m ≡ n % mod_p * m + mod_p * (n / mod_p * m) =
      distribute mod_p (n / mod_p) (n % mod_p) n m split in
    sym (ap (λ (t : ℕ). t % mod_p) e ∙ add-mul-mod_self_left (n % mod_p * m) mod_p (n / mod_p * m))

mul-lt : (x y : ℕ) → x < mod_p → y < mod_p → x * y < 2 ^ 64
mul-lt x y h k = let below : x * y ≤ x * mod_p = mul-le-mul_left x (omega arith) in omega arith

tag_lem : (n m : ℕ) → m < mod_p → n % mod_p * m % 2 ^ 64 % mod_p ≡ n * m % mod_p
tag_lem n m h =
    let small = mul-lt (n % mod_p) m (omega arith) h in
    let whole : n % mod_p * m % 2 ^ 64 ≡ n % mod_p * m = omega arith in rw whole (mul-mod n m)

-- Two answers that add up to `n` times `1 :: alphas` are accepted.
pub honest_data :
    (alphas first second : List ℕ) (n : ℕ)
    → All (λ v. v < mod_p) alphas
    → length first ≡ suc (length alphas)
    → length second ≡ suc (length alphas)
    → ((j : ℕ) → byte_at first j ≤ mod_p)
    → ((j : ℕ) → byte_at second j ≤ mod_p)
    → ((j : ℕ)
        → j < suc (length alphas)
        → (byte_at first j + byte_at second j) % mod_p ≡ n * byte_at (1 ∷ alphas) j % mod_p)
    → reconstruct_data (suc (length alphas)) (alphas ++ (0 ∷ [])) first second ≡ ok (n % mod_p)
honest_data alphas first second n small l0 l1 s0 s1 sums =
    (reconstruct_data_decides (alphas ++ (0 ∷ [])) first second (suc (length alphas)) (omega arith)
        (omega (arith, length-append alphas (0 ∷ []))) (omega arith) (omega arith)).0
      fits
    ∙ ap ok value
  where
    sum_lem :
        (j : ℕ)
        → j < suc (length alphas)
        → sum_at first second j ≡ n * byte_at (1 ∷ alphas) j % mod_p
    sum_lem j h =
        let e : u32 (byte_at first j + byte_at second j) ≡ byte_at first j + byte_at second j =
          omega (arith, s0 j, s1 j) in
        rw e (sums j h)

    value : sum_at first second 0 ≡ n % mod_p
    value = sum_lem 0 (omega arith) ∙ ap (λ (t : ℕ). t % mod_p) (omega arith)

    fits :
        (k : ℕ)
        → k < suc (length alphas) - 1
        → Fits (alphas ++ (0 ∷ [])) first second (sum_at first second 0) k
    fits k h =
        let q : k < length alphas = omega arith in
        rw (value, get_or-append_left alphas (0 ∷ []) k 0 q)
          (tag_lem n (byte_at alphas k) (All-get_or (λ v. v < mod_p) alphas k 0 small (omega arith))
            ∙ sym (sum_lem (suc k) (omega arith)))

pub sample_alphas_lem :
    (left : ℕ) (rnd rest : List Bytes4) (xs : List ℕ)
    → All IsBytes4 rnd
    → sample_alphas left rnd ≡ ok (xs, rest)
    → (length xs ≡ left) × All (λ v. v < mod_p) xs
unfolding sample_alphas
sample_alphas_lem zero rnd rest xs h e =
    let q : [] ≡ xs = cc in
    subst (λ (l : List ℕ). (length l ≡ 0) × All (λ v. v < mod_p) l) q (refl, tt)
sample_alphas_lem (suc left) rnd rest xs h e =
    let ((x, rnd1), found, e1) = bind_ok (rand_element_with_prg rnd) _ _ e in
    let ((ys, rnd2), more, e2) = bind_ok (sample_alphas left rnd1) _ _ e1 in
    let (l, small) =
      sample_alphas_lem left rnd1 rnd2 ys (rand_element_with_prg-All rnd x rnd1 h found) more in
    let q : x ∷ ys ≡ xs = cc in
    subst (λ (l : List ℕ). (length l ≡ suc left) × All (λ v. v < mod_p) l) q
      (omega arith, (rand_element_with_prg-lt rnd x rnd1 h found, small))

-- What a query keeps.
abbrev pub after_query : ClientState → List ℕ → List Bytes4 → Fss → ClientState
after_query c alphas rnd' f = record c {
  rnd = rnd';
  state = some (record { alphas = alphas ++ (0 ∷ []); a = 1 ∷ alphas });
  fss = f;
}

pub query_lem :
    ⦃fx : FastXor⦄ (c : ClientState) (q : ClientFss) (rand0 rand1 alphas : List ℕ)
    (rnd' : List Bytes4) (k0 k1 : FssKeyEq2P) (f : Fss)
    → sample_alphas (c.executions - 1) c.rnd ≡ ok (alphas, rnd')
    → generate_tree_pf c.fss rand0 rand1 q.input (1 ∷ alphas) ≡ ok (k0, k1, f)
    → query c q 2 rand0 rand1
      ≡ ok (
        record { info = q.info; fss_key = k0 },
        record { info = q.info; fss_key = k1 },
        after_query c alphas rnd' f,
      )
unfolding query
query_lem c q rand0 rand1 alphas rnd' k0 k1 f e g = rw (e, g) refl

pub reconstruct_lem :
    (c : ClientState) (alphas : List ℕ) (rnd' : List Bytes4) (f : Fss) (answer0 answer1 : List ℕ)
    (n : ℕ)
    → c.executions ≡ suc n
    → length answer0 ≡ suc n
    → reconstruct (after_query c alphas rnd' f) answer0 answer1
      ≡ reconstruct_data (suc n) (alphas ++ (0 ∷ [])) answer0 answer1
unfolding reconstruct
reconstruct_lem c alphas rnd' f answer0 answer1 n e l =
    let other : (length answer0 == 2 * c.executions) ≡ false = ground arith in
    rw other (ap (λ (k : ℕ). reconstruct_data k (alphas ++ (0 ∷ [])) answer0 answer1) e)
