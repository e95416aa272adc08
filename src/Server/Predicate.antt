-- ===== src/Server/Predicate.antt =====
-- lib/server/fss.go: the server of the predicate queries. `now_year` is the year of time.Now().
pub mod Loops
pub mod Count
use apir_code.Base.{
  ◌>>=◌, true, false, ltb, if◌then◌else◌, length, get_elem?, replicate, tabulate, u32, byte_at,
  Bytes4, Result, or_panic, ok, err, panic, stuck, FastXor, ℕ, zero, suc, ◌+◌, ◌-◌, ◌*◌, ◌%◌, ◌^◌,
  Bool, ◌&&◌, not, Option, none, some, List, [], ◌∷◌, ◌++◌,
}
use apir_code.Field.{mod_p, concurrent_executions}
use apir_code.Fss.{BlockCipher, Fss, FssKeyEq2P, evaluate_pf, server_initialize}
use apir_code.Query.{
  Platform, Target, user_id, creation_time, pub_key_algo, other_target, Info, FssQuery,
  id_for_email, id_for_pub_key_algo, id_for_creation_time, id_for_year_creation_time,
}
use apir_code.Database.Keys.{KeyInfo, Db}

pub record ServerFss (p : Platform) : Type 0 where
  pub db : Db p
  pub server_num : ℕ
  pub fss : Fss

-- `out[j] = (out[j] + tmp[j]) % field.ModP` for each place of `out`.
unfoldable pub add_words : List ℕ → List ℕ → List ℕ
add_words out tmp = tabulate (length out) (λ j. u32 (byte_at out j + byte_at tmp j) % mod_p)

-- `uint64(tmp[j]) * uint64(diffYears) % ModP`, added to `sum[j]`.
unfoldable pub add_years : ℕ → List ℕ → List ℕ → List ℕ
add_years diff sum tmp =
    tabulate (length sum) (λ j. u32 (byte_at sum j + byte_at tmp j * diff % 2 ^ 64 % mod_p) % mod_p)

-- The cases of the switch; the default panics, whatever keys there are.
abbrev pub is_implemented : Target → Bool
is_implemented user_id = true
is_implemented creation_time = true
is_implemented pub_key_algo = true
is_implemented other_target = false

module _ {p : Platform} ⦃fx : FastXor⦄ where
  -- One of the loops of answer over the keys from index `i` on, with `left` to come. `id_of` is
  -- the identifier that it compares: `ok none` is the `continue` for an email that is too short.
  unfoldable pub count_loop :
      (KeyInfo p → Result (Option (List Bool)))
      → Db p
      → ℕ
      → FssKeyEq2P
      → ℕ
      → ℕ
      → Fss
      → List ℕ
      → Result (List ℕ × Fss)
  count_loop id_of db server_num key zero i f out = ok (out, f)
  count_loop id_of db server_num key (suc left) i f out = do
    info ← or_panic (get_elem? db.keys_info i)
    id ← id_of info
    (out', f') ← elim id [
      | none ↦ ok (out, f)
      | some bits ↦ (do
        (tmp, f1) ← evaluate_pf f server_num key bits (length out)
        ok (add_words out tmp, f1))
    ]
    count_loop id_of db server_num key left (suc i) f' out'

  -- The loop of an average. The years are subtracted as integers, and a key from the future is left out.
  pub average_loop :
      ℕ
      → Info
      → Db p
      → ℕ
      → FssKeyEq2P
      → ℕ
      → ℕ
      → Fss
      → List ℕ
      → List ℕ
      → Result (List ℕ × List ℕ × Fss)
  average_loop now_year q db server_num key zero i f out sum = ok (out, sum, f)
  average_loop now_year q db server_num key (suc left) i f out sum = do
    info ← or_panic (get_elem? db.keys_info i)
    (out', sum', f') ← elim (id_for_email p q info.user_id.email) [
      | none ↦ ok (out, sum, f)
      | some bits ↦ (do
        (tmp, f1) ← evaluate_pf f server_num key bits (length out)
        if ltb now_year (p.year info.creation_time)
            then ok (out, sum, f1)
            else ok
                (add_words out tmp, add_years (now_year - p.year info.creation_time) sum tmp, f1))
    ]
    average_loop now_year q db server_num key left (suc i) f' out' sum'

  -- The identifier of a key for a query with one target.
  unfoldable pub target_id : Info → KeyInfo p → Result (Option (List Bool))
  target_id q info = elim q.target [
    | user_id ↦ ok (id_for_email p q info.user_id.email)
    | pub_key_algo ↦ ok (some (id_for_pub_key_algo info.pub_key_algo))
    | creation_time ↦ elim (id_for_creation_time p info.creation_time) [
      | ok id ↦ ok (some id)
      | err e ↦ panic
      | panic ↦ panic
      | stuck ↦ stuck
    ]
    | other_target ↦ panic
  ]

  -- The identifier for a conjunction of a year and an email.
  unfoldable pub and_id : Info → KeyInfo p → Result (Option (List Bool))
  and_id q info = elim (id_for_email p q info.user_id.email) [
    | none ↦ ok none
    | some id ↦ ok (some (id_for_year_creation_time p info.creation_time ++ id))
  ]

  -- answer, for a slice `tmp` as long as `out`.
  unfoldable pub answer : ℕ → ServerFss p → FssQuery → List ℕ → Result (List ℕ × ServerFss p)
  answer now_year s q out =
      let num_identifiers = s.db.num_columns in
      let plain =
        if is_implemented q.info.target
        then count_loop (target_id q.info) s.db s.server_num q.fss_key num_identifiers 0 s.fss out
        else panic in
      let conjunction =
        count_loop (and_id q.info) s.db s.server_num q.fss_key num_identifiers 0 s.fss out in
      let average =
        average_loop now_year q.info s.db s.server_num q.fss_key num_identifiers 0 s.fss out
          (replicate (length out) 0) in
      if not q.info.and && (not q.info.avg && not q.info.sum)
      then (do (out', f) ← plain; ok (out', record s { fss = f }))
      else if q.info.and && (not q.info.avg && not q.info.sum)
      then (do (out', f) ← conjunction; ok (out', record s { fss = f }))
      else if q.info.and && (q.info.sum && not q.info.avg)
      then panic
      else if q.info.and && (q.info.avg && not q.info.sum)
      then (do (out', sum, f) ← average; ok (out' ++ sum, record s { fss = f }))
      else panic

-- What NewPredicateAPIR and NewPredicatePIR share: they differ in the words of an answer.
new_server : {p : Platform} ⦃aes : BlockCipher⦄ → ℕ → Db p → ℕ → List Bytes4 → ServerFss p
new_server words db server_num draws = record {
  db = db;
  server_num = server_num;
  fss = server_initialize words draws;
}

pub new_predicate_apir : {p : Platform} ⦃aes : BlockCipher⦄ → Db p → ℕ → List Bytes4 → ServerFss p
new_predicate_apir db server_num draws = new_server (1 + concurrent_executions) db server_num draws

pub new_predicate_pir : {p : Platform} ⦃aes : BlockCipher⦄ → Db p → ℕ → List Bytes4 → ServerFss p
new_predicate_pir db server_num draws = new_server 1 db server_num draws

-- Answer of both servers.
pub predicate_apir_answer :
    {p : Platform} ⦃fx : FastXor⦄ → ℕ → ServerFss p → FssQuery → Result (List ℕ × ServerFss p)
predicate_apir_answer now_year s q = answer now_year s q (replicate (1 + concurrent_executions) 0)

pub predicate_pir_answer :
    {p : Platform} ⦃fx : FastXor⦄ → ℕ → ServerFss p → FssQuery → Result (List ℕ × ServerFss p)
predicate_pir_answer now_year s q = answer now_year s q (0 ∷ [])
