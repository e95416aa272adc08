-- ===== src/Server/Predicate/Count.antt =====
-- The answers of the two servers to one query.
use apir_code.Base.{
  length, replicate, All, length-replicate, byte_at, Result, ok, FastXor, ℕ, zero, suc, ◌+◌, ◌*◌,
  ◌/◌, ◌%◌, ◌≤◌, ◌<◌, ◌≡◌, refl, ap, ◌∙◌, Bool, true, false, Option, List, [], arith,
}
use apir_code.Field.{mod_p}
use apir_code.Fss.{BlockCipher, Fss, FssKeyEq2P}
use apir_code.Fss.Convert.{IsReady}
use apir_code.Fss.Keys.{IsRandom, key0, key1}
use apir_code.Query.{Platform, Info, FssQuery}
use apir_code.Database.Keys.{KeyInfo, Db}
use apir_code.Server.Predicate.{is_implemented, ServerFss, answer, count_loop, target_id, and_id}
use apir_code.Server.Predicate.Loops.{IsServed, matches, IsPartial, loops_lem}

replicate_at : (n j : ℕ) → byte_at (replicate n 0) j ≡ 0
replicate_at zero j = refl
replicate_at (suc n) zero = refl
replicate_at (suc n) (suc j) = replicate_at n j

-- The branches of answer that count.
module _ {p : Platform} ⦃fx : FastXor⦄ (now_year : ℕ) (s : ServerFss p) (q : FssQuery)
    (out out' : List ℕ) (f' : Fss) (no_avg : q.info.avg ≡ false) (no_sum : q.info.sum ≡ false) where
  answer_plain :
      q.info.and ≡ false
      → is_implemented q.info.target ≡ true
      → count_loop (target_id q.info) s.db s.server_num q.fss_key s.db.num_columns 0 s.fss out
        ≡ ok (out', f')
      → answer now_year s q out ≡ ok (out', record s { fss = f' })
  unfolding answer
  answer_plain no_and known e = rw (e, known, no_and, no_avg, no_sum) refl

  answer_and :
      q.info.and ≡ true
      → count_loop (and_id q.info) s.db s.server_num q.fss_key s.db.num_columns 0 s.fss out
        ≡ ok (out', f')
      → answer now_year s q out ≡ ok (out', record s { fss = f' })
  unfolding answer
  answer_and is_and e = rw (e, is_and, no_avg, no_sum) refl

module _ {p : Platform} ⦃aes : BlockCipher⦄ ⦃fx : FastXor⦄ (rand0 rand1 : List ℕ) (a : List Bool)
    (b : List ℕ) (q : Info) (random : IsRandom rand0 rand1) (few : length b / 4 ≤ 4)
    (small : All (λ v. v < mod_p) b) (db : Db p) (f0 f1 : Fss) where
  -- What two answers are that add up to the number of keys with the identifier of the query, times `b`.
  abbrev pub AddUp : (KeyInfo p → Result (Option (List Bool))) → List ℕ → List ℕ → Type 0
  AddUp id_of out0 out1 =
      (j : ℕ)
      → j < length b
      → (byte_at out0 j + byte_at out1 j) % mod_p
        ≡ matches rand0 rand1 a b id_of db.keys_info * byte_at b j % mod_p

  loops_from_zero :
      (id_of : KeyInfo p → Result (Option (List Bool)))
      → IsReady (length b) f0
      → IsReady (length b) f1
      → db.num_columns ≡ length db.keys_info
      → All (IsServed rand0 rand1 a b id_of) db.keys_info
      → (out0 : List ℕ) × (out1 : List ℕ) × (f0' : Fss) × (f1' : Fss) × (count_loop id_of db 0
            (key0 rand0 rand1 a b)
            db.num_columns
            0
            f0
            (replicate (length b) 0)
          ≡ ok (out0, f0'))
        × (count_loop id_of db 1 (key1 rand0 rand1 a b) db.num_columns 0 f1 (replicate (length b) 0)
            ≡ ok (out1, f1'))
        × IsPartial b out0 out1 f0' f1'
        × AddUp id_of out0 out1
  loops_from_zero id_of r0 r1 columns served =
      let start : List ℕ = replicate (length b) 0 in
      let part : IsPartial b start start f0 f1 = record {
        ready0 = r0;
        ready1 = r1;
        length0 = length-replicate (length b) 0;
        length1 = length-replicate (length b) 0;
        small0 = λ j. omega (arith, replicate_at (length b) j);
        small1 = λ j. omega (arith, replicate_at (length b) j);
      } in
      let (o0, o1, g0, g1, c0, c1, part', grown) =
        loops_lem rand0 rand1 a b id_of random few small db db.keys_info [] served 0 f0 f1 start
          start refl refl part in
      (
        o0,
        o1,
        g0,
        g1,
        whole 0 (key0 rand0 rand1 a b) f0 (o0, g0) c0,
        whole 1 (key1 rand0 rand1 a b) f1 (o1, g1) c1,
        part',
        (λ j h. grown j h ∙ ap (λ (t : ℕ). t % mod_p) (omega (arith, replicate_at (length b) j))),
      )
    where
      whole :
          (server : ℕ) (k : FssKeyEq2P) (f : Fss) (r : List ℕ × Fss)
          → count_loop id_of db server k (length db.keys_info) 0 f (replicate (length b) 0) ≡ ok r
          → count_loop id_of db server k db.num_columns 0 f (replicate (length b) 0) ≡ ok r
      whole server k f r e =
          ap (λ (n : ℕ). count_loop id_of db server k n 0 f (replicate (length b) 0)) columns ∙ e

  -- The two servers answer a query with one target: their answers add up, modulo ModP, to `b` times
  -- the number of keys that have its identifier.
  pub plain_answers :
      (now_year : ℕ)
      → IsReady (length b) f0
      → IsReady (length b) f1
      → db.num_columns ≡ length db.keys_info
      → All (IsServed rand0 rand1 a b (target_id q)) db.keys_info
      → q.and ≡ false
      → q.avg ≡ false
      → q.sum ≡ false
      → is_implemented q.target ≡ true
      → (out0 : List ℕ) × (out1 : List ℕ) × (f0' : Fss) × (f1' : Fss) × (answer now_year
            (record { db = db; server_num = 0; fss = f0 })
            (record { info = q; fss_key = key0 rand0 rand1 a b })
            (replicate (length b) 0)
          ≡ ok (out0, record { db = db; server_num = 0; fss = f0' }))
        × (answer now_year
              (record { db = db; server_num = 1; fss = f1 })
              (record { info = q; fss_key = key1 rand0 rand1 a b })
              (replicate (length b) 0)
            ≡ ok (out1, record { db = db; server_num = 1; fss = f1' }))
        × IsPartial b out0 out1 f0' f1'
        × AddUp (target_id q) out0 out1
  plain_answers now_year r0 r1 columns served no_and no_avg no_sum known =
      let (o0, o1, g0, g1, c0, c1, part, sums) =
        loops_from_zero (target_id q) r0 r1 columns served in
      (
        o0,
        o1,
        g0,
        g1,
        answer_plain now_year _ _ _ o0 g0 no_avg no_sum no_and known c0,
        answer_plain now_year _ _ _ o1 g1 no_avg no_sum no_and known c1,
        part,
        sums,
      )

  -- The same of a conjunction of a year and an email.
  pub and_answers :
      (now_year : ℕ)
      → IsReady (length b) f0
      → IsReady (length b) f1
      → db.num_columns ≡ length db.keys_info
      → All (IsServed rand0 rand1 a b (and_id q)) db.keys_info
      → q.and ≡ true
      → q.avg ≡ false
      → q.sum ≡ false
      → (out0 : List ℕ) × (out1 : List ℕ) × (f0' : Fss) × (f1' : Fss) × (answer now_year
            (record { db = db; server_num = 0; fss = f0 })
            (record { info = q; fss_key = key0 rand0 rand1 a b })
            (replicate (length b) 0)
          ≡ ok (out0, record { db = db; server_num = 0; fss = f0' }))
        × (answer now_year
              (record { db = db; server_num = 1; fss = f1 })
              (record { info = q; fss_key = key1 rand0 rand1 a b })
              (replicate (length b) 0)
            ≡ ok (out1, record { db = db; server_num = 1; fss = f1' }))
        × IsPartial b out0 out1 f0' f1'
        × AddUp (and_id q) out0 out1
  and_answers now_year r0 r1 columns served is_and no_avg no_sum =
      let (o0, o1, g0, g1, c0, c1, part, sums) = loops_from_zero (and_id q) r0 r1 columns served in
      (
        o0,
        o1,
        g0,
        g1,
        answer_and now_year _ _ _ o0 g0 no_avg no_sum is_and c0,
        answer_and now_year _ _ _ o1 g1 no_avg no_sum is_and c1,
        part,
        sums,
      )
