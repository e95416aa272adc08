-- ===== src/Client/Predicate/Honest.antt =====
-- The whole run of a predicate query with two honest servers.
use apir_code.Base.{
  length, replicate, All, IsU32, Bytes4, IsBytes4, ok, FastXor, ℕ, suc, ◌-◌, ◌/◌, ◌%◌, ◌≤◌, ◌<◌,
  ◌≡◌, ap, ◌∙◌, subst, true, false, List, ◌∷◌, arith,
}
use apir_code.Field.{mod_p}
use apir_code.Fss.{BlockCipher, Fss}
use apir_code.Fss.Convert.{IsReady, IsCleanLeaf}
use apir_code.Fss.Keys.{IsRandom, leaf_seeds, generate_tree_pf_lem, key0, key1}
use apir_code.Query.{Platform, ClientFss, FssQuery}
use apir_code.Database.Keys.{Db}
use apir_code.Server.Predicate.{is_implemented, ServerFss, answer, target_id}
use apir_code.Server.Predicate.Loops.{IsServed, matches}
use apir_code.Server.Predicate.Count.{plain_answers}
use apir_code.Client.Predicate.{ClientState, query, reconstruct, sample_alphas}
use apir_code.Client.Predicate.Accepted.{
  words-IsU32, query_lem, reconstruct_lem, honest_data, sample_alphas_lem,
}

module _ {p : Platform} ⦃aes : BlockCipher⦄ ⦃fx : FastXor⦄ (c : ClientState) (q : ClientFss)
    (rand0 rand1 : List ℕ) (alphas : List ℕ) (rnd' : List Bytes4) (db : Db p) (f0 f1 : Fss) where
  -- The run, with the answers as words of 32 bits.
  pub predicate_run :
      (now_year : ℕ)
      → IsRandom rand0 rand1
      → All IsBytes4 c.rnd
      → sample_alphas (c.executions - 1) c.rnd ≡ ok (alphas, rnd')
      → c.executions ≡ suc (length alphas)
      → c.executions < 20
      → IsReady c.executions c.fss
      → IsReady c.executions f0
      → IsReady c.executions f1
      → db.num_columns ≡ length db.keys_info
      → q.info.and ≡ false
      → q.info.avg ≡ false
      → q.info.sum ≡ false
      → is_implemented q.info.target ≡ true
      → All (IsCleanLeaf c.executions) (leaf_seeds rand0 rand1 q.input (1 ∷ alphas) q.input)
      → All (IsServed rand0 rand1 q.input (1 ∷ alphas) (target_id q.info)) db.keys_info
      → (q0 : FssQuery) × (q1 : FssQuery) × (c' : ClientState) × (answer0 : List ℕ)
        × (answer1 : List ℕ) × (s0 : ServerFss p) × (s1 : ServerFss p) × (query c q 2 rand0 rand1
            ≡ ok (q0, q1, c'))
        × (answer now_year
              (record { db = db; server_num = 0; fss = f0 })
              q0
              (replicate c.executions 0)
            ≡ ok (answer0, s0))
        × (answer now_year
              (record { db = db; server_num = 1; fss = f1 })
              q1
              (replicate c.executions 0)
            ≡ ok (answer1, s1))
        × (reconstruct c' answer0 answer1
            ≡ ok (matches rand0 rand1 q.input (1 ∷ alphas) (target_id q.info) db.keys_info % mod_p))
        × All IsU32 answer0
        × All IsU32 answer1
  predicate_run now_year random draws sampled len few rc r0 r1 columns and avg sum known clean
        served =
      let b = 1 ∷ alphas in
      let small_alphas = (sample_alphas_lem (c.executions - 1) c.rnd rnd' alphas draws sampled).1 in
      let small : All (λ v. v < mod_p) b = (omega arith, small_alphas) in
      let few' : length b / 4 ≤ 4 = omega arith in
      let ready : (f : Fss) → IsReady c.executions f → IsReady (length b) f =
        λ f r. subst (λ (n : ℕ). IsReady n f) len r in
      let clean' =
        subst (λ (n : ℕ). All (IsCleanLeaf n) (leaf_seeds rand0 rand1 q.input b q.input)) len
          clean in
      let (client', generated, rc') =
        generate_tree_pf_lem rand0 rand1 q.input b random few' c.fss (ready c.fss rc) clean'.0
          clean'.1.0 in
      let (o0, o1, g0, g1, e0, e1, part, sums) =
        plain_answers rand0 rand1 q.input b q.info random few' small db f0 f1 now_year (ready f0 r0)
          (ready f1 r1) columns served and avg sum known in
      let e0' =
        ap
          (λ (n : ℕ).
            answer now_year (record { db = db; server_num = 0; fss = f0 })
              (record { info = q.info; fss_key = key0 rand0 rand1 q.input b }) (replicate n 0))
          len
        ∙ e0 in
      let e1' =
        ap
          (λ (n : ℕ).
            answer now_year (record { db = db; server_num = 1; fss = f1 })
              (record { info = q.info; fss_key = key1 rand0 rand1 q.input b }) (replicate n 0))
          len
        ∙ e1 in
      (
        _,
        _,
        _,
        o0,
        o1,
        _,
        _,
        query_lem c q rand0 rand1 alphas rnd' _ _ client' sampled generated,
        e0',
        e1',
        reconstruct_lem c alphas rnd' client' o0 o1 (length alphas) len part.length0
            ∙ honest_data alphas o0 o1 _ small_alphas part.length0 part.length1 part.small0
                part.small1 sums,
        words-IsU32 o0 (λ j. omega (arith, part.small0 j)),
        words-IsU32 o1 (λ j. omega (arith, part.small1 j)),
      )

  -- A query with one target, which is one that the server implements, to two servers with the same keys, by a client with fewer than 20
  -- executions whose random reader gives it the elements `alphas`, where the identifier of each key is
  -- as long as the input, has at most 256 bits, and no group of the leaves that are reached stands for
  -- ModP: query returns two keys, each server answers its own, and reconstruct accepts the answers and
  -- returns how many keys have the identifier of the query, modulo ModP.
  pub predicate_query :
      (now_year : ℕ)
      → IsRandom rand0 rand1
      → All IsBytes4 c.rnd
      → sample_alphas (c.executions - 1) c.rnd ≡ ok (alphas, rnd')
      → c.executions ≡ suc (length alphas)
      → c.executions < 20
      → IsReady c.executions c.fss
      → IsReady c.executions f0
      → IsReady c.executions f1
      → db.num_columns ≡ length db.keys_info
      → q.info.and ≡ false
      → q.info.avg ≡ false
      → q.info.sum ≡ false
      → is_implemented q.info.target ≡ true
      → All (IsCleanLeaf c.executions) (leaf_seeds rand0 rand1 q.input (1 ∷ alphas) q.input)
      → All (IsServed rand0 rand1 q.input (1 ∷ alphas) (target_id q.info)) db.keys_info
      → (q0 : FssQuery) × (q1 : FssQuery) × (c' : ClientState) × (answer0 : List ℕ)
        × (answer1 : List ℕ) × (s0 : ServerFss p) × (s1 : ServerFss p) × (query c q 2 rand0 rand1
            ≡ ok (q0, q1, c'))
        × (answer now_year
              (record { db = db; server_num = 0; fss = f0 })
              q0
              (replicate c.executions 0)
            ≡ ok (answer0, s0))
        × (answer now_year
              (record { db = db; server_num = 1; fss = f1 })
              q1
              (replicate c.executions 0)
            ≡ ok (answer1, s1))
        × (reconstruct c' answer0 answer1
            ≡ ok (matches rand0 rand1 q.input (1 ∷ alphas) (target_id q.info) db.keys_info % mod_p))
  predicate_query now_year random draws sampled len few rc r0 r1 columns and avg sum known clean
        served =
      let (q0, q1, c', answer0, answer1, s0, s1, queried, e0, e1, found, w0, w1) =
        predicate_run now_year random draws sampled len few rc r0 r1 columns and avg sum known clean
          served in
      (q0, q1, c', answer0, answer1, s0, s1, queried, e0, e1, found)
