-- ===== src/Client/Predicate.antt =====
-- lib/client/fss.go: the client of the predicate queries. `rnd` is what its reader will return in
-- groups of four bytes, and `rand0`, `rand1` what crypto/rand stores for the keys.
pub mod Tags
pub mod Accepted
pub mod Honest
use apir_code.Base.{
  ◌>>=◌, ltb, ◌==◌, if◌then◌else◌, length, get_elem?, take, drop, u32, Bytes4, Error, Result,
  or_panic, reject, reject_count, reject_sum, ok, err, panic, FastXor, ℕ, zero, suc, ◌+◌, ◌-◌, ◌*◌,
  ◌/◌, ◌%◌, ◌^◌, Option, none, some, List, [], ◌∷◌, ◌++◌,
}
use apir_code.Field.{mod_p, concurrent_executions, rand_element_with_prg}
use apir_code.Fss.{BlockCipher, Fss, client_initialize, generate_tree_pf}
use apir_code.Query.{ClientFss, FssQuery}

-- The part of `state` that these schemes use.
pub record State : Type 0 where
  pub alphas : List ℕ
  pub a : List ℕ

pub record ClientState : Type 0 where
  pub rnd : List Bytes4
  pub state : Option State
  pub fss : Fss
  pub executions : ℕ

-- NewPredicateAPIR and NewPredicatePIR.
unfoldable pub new_predicate_apir : ⦃aes : BlockCipher⦄ → List Bytes4 → List Bytes4 → ClientState
new_predicate_apir rnd draws = record {
  rnd = rnd;
  state = none;
  fss = client_initialize (1 + concurrent_executions) draws;
  executions = 1 + concurrent_executions;
}

pub new_predicate_pir : ⦃aes : BlockCipher⦄ → List Bytes4 → List Bytes4 → ClientState
new_predicate_pir rnd draws = record {
  rnd = rnd;
  state = none;
  fss = client_initialize 1 draws;
  executions = 1;
}

-- `left` calls of RandElementWithPRG.
unfoldable pub sample_alphas : ℕ → List Bytes4 → Result (List ℕ × List Bytes4)
sample_alphas zero rnd = ok ([], rnd)
sample_alphas (suc left) rnd = do
  (x, rnd') ← rand_element_with_prg rnd
  (xs, rnd'') ← sample_alphas left rnd'
  ok (x ∷ xs, rnd'')

-- query: log.Fatal, for other than two servers, is `panic`. The last place of `state.alphas` is never
-- set, and stays 0.
pub query :
    ⦃fx : FastXor⦄
    → ClientState
    → ClientFss
    → ℕ
    → List ℕ
    → List ℕ
    → Result (FssQuery × FssQuery × ClientState)
query c q num_servers rand0 rand1 = do
  (alphas, rnd) ← if num_servers == 2 then sample_alphas (c.executions - 1) c.rnd else panic
  let st : State = record { alphas = alphas ++ (0 ∷ []); a = 1 ∷ alphas }
  (k0, k1, f) ← generate_tree_pf c.fss rand0 rand1 q.input st.a
  ok (
    record { info = q.info; fss_key = k0 },
    record { info = q.info; fss_key = k1 },
    record c { rnd = rnd; state = some st; fss = f },
  )

-- The sum of one place of two answers, `(first[j] + second[j]) % field.ModP`.
pub combine : List ℕ → List ℕ → ℕ → Result ℕ
combine first second j = do
  x ← or_panic (get_elem? first j)
  y ← or_panic (get_elem? second j)
  ok (u32 (x + y) % mod_p)

-- A tag is wrong when `data * alpha_i` is not the sum at place `i + 1`.
pub check_tag : Error → List ℕ → ℕ → List ℕ → List ℕ → ℕ → Result (Unit {0})
check_tag e alphas data' first second i = do
  alpha ← or_panic (get_elem? alphas i)
  reconstructed ← combine first second (suc i)
  if data' * alpha % 2 ^ 64 % mod_p == reconstructed then ok tt else err e

-- The loop over the tags from place `i` on.
pub check_tags : ℕ → ℕ → List ℕ → ℕ → List ℕ → List ℕ → Result (Unit {0})
check_tags zero i alphas data' first second = ok tt
check_tags (suc left) i alphas data' first second = do
  _ ← check_tag reject alphas data' first second i
  check_tags left (suc i) alphas data' first second

check_both_tags : ℕ → ℕ → List ℕ → ℕ → List ℕ → List ℕ → ℕ → List ℕ → List ℕ → Result (Unit {0})
check_both_tags zero i alphas count count0 count1 sum sum0 sum1 = ok tt
check_both_tags (suc left) i alphas count count0 count1 sum sum0 sum1 = do
  _ ← check_tag reject_count alphas count count0 count1 i
  _ ← check_tag reject_sum alphas sum sum0 sum1 i
  check_both_tags left (suc i) alphas count count0 count1 sum sum0 sum1

-- `x / y` on integers.
abbrev pub divide : ℕ → ℕ → Result ℕ
divide x y = if y == 0 then panic else ok (x / y)

-- The case of an average: the first half of an answer counts, the second sums up.
pub reconstruct_average : ℕ → List ℕ → List ℕ → List ℕ → Result ℕ
unfolding check_both_tags
reconstruct_average executions alphas answer0 answer1 =
    let count0 = take executions answer0 in
    let sum0 = drop executions answer0 in
    let sum1 = drop executions answer1 in
    do
      count1 ← if ltb (length answer1) executions then panic else ok (take executions answer1)
      count ← combine count0 count1 0
      sum ← combine sum0 sum1 0
      _ ← check_both_tags (executions - 1) 0 alphas count count0 count1 sum sum0 sum1
      divide sum count

-- The other case.
pub reconstruct_data : ℕ → List ℕ → List ℕ → List ℕ → Result ℕ
reconstruct_data executions alphas answer0 answer1 = do
  data' ← combine answer0 answer1 0
  _ ← check_tags (executions - 1) 0 alphas data' answer0 answer1
  ok data'

-- reconstruct on the answers of two servers. With no query before it the state is a nil pointer, and
-- the first tag panics.
pub reconstruct : ClientState → List ℕ → List ℕ → Result ℕ
reconstruct c answer0 answer1 =
    let alphas : List ℕ = elim c.state [ none ↦ [] | some st ↦ st.alphas ] in
    if length answer0 == 2 * c.executions
    then reconstruct_average c.executions alphas answer0 answer1
    else reconstruct_data c.executions alphas answer0 answer1
