-- ===== src/Server/Predicate/Loops.antt =====
-- The loops of the two servers of one query, side by side: what their answers add up to.
use apir_code.Base.{
  if◌then◌else◌, length, get_elem?, All, length-append, length-tabulate, get_or-tabulate,
  All-tabulate, All-get_or, get_elem?-append_here, u32, byte_at, Result, ok, err, panic, stuck,
  FastXor, ℕ, suc, ◌+◌, ◌*◌, ◌/◌, ◌%◌, ◌≤◌, ◌<◌, ◌≡◌, refl, sym, ap, ◌∙◌, Bool, true, false, Option,
  none, some, List, [], ◌∷◌, ◌++◌, append_assoc, arith,
}
use apir_code.Field.{mod_p}
use apir_code.Fss.{BlockCipher, Fss, evaluate_pf}
use apir_code.Fss.Convert.{IsReady, IsCleanLeaf}
use apir_code.Fss.Tree.{same_bits}
use apir_code.Fss.Keys.{
  IsRandom, root0, root1, root0-IsNode, root1-IsNode, leaf0, leaf1, leaf_seeds, share, share-le,
  key0, key1, shares_add, evaluate_pf_lem,
}
use apir_code.Query.{Platform}
use apir_code.Database.Keys.{KeyInfo, Db}
use apir_code.Server.Predicate.{add_words, count_loop}

abbrev pub one_if : Bool → ℕ
one_if true = 1
one_if false = 0

-- Whether an identifier is the one of the query.
abbrev pub hit : List Bool → Result (Option (List Bool)) → ℕ
hit a (ok none) = 0
hit a (ok (some x)) = one_if (same_bits a x)
hit a (err e) = 0
hit a panic = 0
hit a stuck = 0

-- One round of additions on both servers, where the two words add up to `w`.
round_adds :
    (x0 x1 t0 t1 w rest : ℕ)
    → x0 ≤ mod_p
    → x1 ≤ mod_p
    → t0 ≤ mod_p
    → t1 ≤ mod_p
    → (t0 + t1) % mod_p ≡ w
    → (u32 (x0 + t0) % mod_p + u32 (x1 + t1) % mod_p + rest) % mod_p
      ≡ (x0 + x1 + (w + rest)) % mod_p
round_adds x0 x1 t0 t1 w rest h0 h1 k0 k1 e = omega arith

length-add_words : (out tmp : List ℕ) → length (add_words out tmp) ≡ length out
unfolding add_words
length-add_words out tmp = length-tabulate (length out) _

add_words_at :
    (out tmp : List ℕ) (j : ℕ)
    → j < length out
    → byte_at (add_words out tmp) j ≡ u32 (byte_at out j + byte_at tmp j) % mod_p
unfolding add_words
add_words_at out tmp j h = get_or-tabulate (length out) j _ 0 h

add_words-le : (out tmp : List ℕ) (j : ℕ) → byte_at (add_words out tmp) j ≤ mod_p
unfolding add_words
add_words-le out tmp j =
    All-get_or (λ v. v ≤ mod_p) (add_words out tmp) j 0
      (All-tabulate (λ v. v ≤ mod_p) (length out) _ (λ i. omega arith)) (omega arith)

-- The partial answers of both servers, and the two machines.
pub record IsPartial ⦃aes : BlockCipher⦄ (b out0 out1 : List ℕ) (f0 f1 : Fss) : Type 0 where
  pub ready0 : IsReady (length b) f0
  pub ready1 : IsReady (length b) f1
  pub length0 : length out0 ≡ length b
  pub length1 : length out1 ≡ length b
  pub small0 : (j : ℕ) → byte_at out0 j ≤ mod_p
  pub small1 : (j : ℕ) → byte_at out1 j ≤ mod_p

-- The answers have grown by `n` times `b`.
abbrev pub HasGrown : List ℕ → List ℕ → List ℕ → ℕ → List ℕ → List ℕ → Type 0
HasGrown b start0 start1 n out0 out1 =
    (j : ℕ)
    → j < length b
    → (byte_at out0 j + byte_at out1 j) % mod_p
      ≡ (byte_at start0 j + byte_at start1 j + n * byte_at b j) % mod_p

module _ {p : Platform} ⦃aes : BlockCipher⦄ ⦃fx : FastXor⦄ (rand0 rand1 : List ℕ) (a : List Bool)
    (b : List ℕ) (id_of : KeyInfo p → Result (Option (List Bool))) where
  -- An identifier that both servers can evaluate: as long as the point, and on clean leaves.
  abbrev pub IsUsable : Option (List Bool) → Type 0
  IsUsable none = Unit {0}
  IsUsable (some x) =
      (length a ≡ length x)
      × (length x ≤ 256)
      × All (IsCleanLeaf (length b)) (leaf_seeds rand0 rand1 a b x)

  abbrev pub IsServed : KeyInfo p → Type 0
  IsServed k = (id : Option (List Bool)) × (id_of k ≡ ok id) × IsUsable id

  -- How many keys have the identifier of the query.
  abbrev pub matches : List (KeyInfo p) → ℕ
  matches [] = 0
  matches (k ∷ ks) = hit a (id_of k) + matches ks

  module _ (random : IsRandom rand0 rand1) (few : length b / 4 ≤ 4)
      (small : All (λ v. v < mod_p) b) where
    -- One key, on both servers.
    one_key :
        (x : List Bool) (out0 out1 : List ℕ) (f0 f1 : Fss)
        → IsUsable (some x)
        → IsPartial b out0 out1 f0 f1
        → (g0 : Fss) × (g1 : Fss) × (evaluate_pf f0 0 (key0 rand0 rand1 a b) x (length out0)
            ≡ ok (share rand0 rand1 a b 0 (leaf0 rand0 rand1 a b x), g0))
          × (evaluate_pf f1 1 (key1 rand0 rand1 a b) x (length out1)
              ≡ ok (share rand0 rand1 a b 1 (leaf1 rand0 rand1 a b x), g1))
          × IsPartial b
              (add_words out0 (share rand0 rand1 a b 0 (leaf0 rand0 rand1 a b x)))
              (add_words out1 (share rand0 rand1 a b 1 (leaf1 rand0 rand1 a b x)))
              g0
              g1
    one_key x out0 out1 f0 f1 usable c =
        let (g0, e0, r0) =
          evaluate_pf_lem rand0 rand1 a b random few 0 (key0 rand0 rand1 a b) (root0 rand0) f0 x
            (root0-IsNode rand0 rand1 a b random) refl c.ready0 usable.0 usable.1
            (usable.2.1.1.0) in
        let (g1, e1, r1) =
          evaluate_pf_lem rand0 rand1 a b random few 1 (key1 rand0 rand1 a b) (root1 rand0 rand1) f1
            x (root1-IsNode rand0 rand1 a b random) refl c.ready1 usable.0 usable.1
            (usable.2.1.1.1.0) in
        (
          g0,
          g1,
          rw c.length0 e0,
          rw c.length1 e1,
          record {
            ready0 = r0;
            ready1 = r1;
            length0 = length-add_words out0 _ ∙ c.length0;
            length1 = length-add_words out1 _ ∙ c.length1;
            small0 = λ j. add_words-le out0 _ j;
            small1 = λ j. add_words-le out1 _ j;
          },
        )

    -- What one key adds.
    one_key_grows :
        (x : List Bool) (out0 out1 : List ℕ) (f0 f1 : Fss) (n : ℕ) (end0 end1 : List ℕ)
        → IsUsable (some x)
        → IsPartial b out0 out1 f0 f1
        → HasGrown b
            (add_words out0 (share rand0 rand1 a b 0 (leaf0 rand0 rand1 a b x)))
            (add_words out1 (share rand0 rand1 a b 1 (leaf1 rand0 rand1 a b x)))
            n
            end0
            end1
        → HasGrown b out0 out1 (one_if (same_bits a x) + n) end0 end1
    one_key_grows x out0 out1 f0 f1 n end0 end1 usable c grown j h =
        grown j h
        ∙ rw
            (
              add_words_at out0 _ j (omega (arith, c.length0)),
              add_words_at out1 _ j (omega (arith, c.length1)),
            )
            (round_adds (byte_at out0 j) (byte_at out1 j) _ _ _ (n * byte_at b j) (c.small0 j)
              (c.small1 j) (share-le rand0 rand1 a b 0 _ j) (share-le rand0 rand1 a b 1 _ j)
              (shares_add rand0 rand1 a b random x j usable.0 small usable.2 h))
        ∙ counted (same_bits a x)
      where
        counted :
            (same : Bool)
            → (byte_at out0 j
                  + byte_at out1 j
                  + ((if same then byte_at b j else 0) + n * byte_at b j))
                % mod_p
              ≡ (byte_at out0 j + byte_at out1 j + (one_if same + n) * byte_at b j) % mod_p
        counted true = omega arith
        counted false = omega arith

    module _ (db : Db p) where
      pub loops_lem :
          (rest pre : List (KeyInfo p)) (h : All IsServed rest) (i : ℕ) (f0 f1 : Fss)
          (out0 out1 : List ℕ)
          → db.keys_info ≡ pre ++ rest
          → i ≡ length pre
          → IsPartial b out0 out1 f0 f1
          → (out0' : List ℕ) × (out1' : List ℕ) × (f0' : Fss) × (f1' : Fss) × (count_loop id_of db 0
                (key0 rand0 rand1 a b)
                (length rest)
                i
                f0
                out0
              ≡ ok (out0', f0'))
            × (count_loop id_of db 1 (key1 rand0 rand1 a b) (length rest) i f1 out1
                ≡ ok (out1', f1'))
            × IsPartial b out0' out1' f0' f1'
            × HasGrown b out0 out1 (matches rest) out0' out1'
      unfolding count_loop
      loops_lem [] pre h i f0 f1 out0 out1 e l c =
          (out0, out1, f0, f1, refl, refl, c, λ j k. ap (λ (t : ℕ). t % mod_p) (omega arith))
      loops_lem (k ∷ rest) pre ((none, served, usable), h) i f0 f1 out0 out1 e l c =
          let found : get_elem? db.keys_info i ≡ some k =
            rw e (get_elem?-append_here pre rest k i l) in
          let e' : db.keys_info ≡ (pre ++ (k ∷ [])) ++ rest =
            e ∙ sym (append_assoc pre (k ∷ []) rest) in
          let l' : suc i ≡ length (pre ++ (k ∷ [])) = omega (arith, length-append pre (k ∷ [])) in
          let (o0, o1, g0, g1, c0, c1, part, grown) =
            loops_lem rest (pre ++ (k ∷ [])) h (suc i) f0 f1 out0 out1 e' l' c in
          (
            o0,
            o1,
            g0,
            g1,
            rw (found, served) c0,
            rw (found, served) c1,
            part,
            (λ j q. rw served (
                grown j q
                ∙ ap (λ (n : ℕ). (byte_at out0 j + byte_at out1 j + n * byte_at b j) % mod_p)
                    (let z : matches rest ≡ 0 + matches rest = omega arith in z))),
          )
      loops_lem (k ∷ rest) pre ((some x, served, usable), h) i f0 f1 out0 out1 e l c =
          let found : get_elem? db.keys_info i ≡ some k =
            rw e (get_elem?-append_here pre rest k i l) in
          let e' : db.keys_info ≡ (pre ++ (k ∷ [])) ++ rest =
            e ∙ sym (append_assoc pre (k ∷ []) rest) in
          let l' : suc i ≡ length (pre ++ (k ∷ [])) = omega (arith, length-append pre (k ∷ [])) in
          let (f0', f1', v0, v1, c') = one_key x out0 out1 f0 f1 usable c in
          let (o0, o1, g0, g1, c0, c1, part, grown) =
            loops_lem rest (pre ++ (k ∷ [])) h (suc i) f0' f1' _ _ e' l' c' in
          (
            o0,
            o1,
            g0,
            g1,
            rw (found, served, v0) c0,
            rw (found, served, v1) c1,
            part,
            rw served (one_key_grows x out0 out1 f0 f1 (matches rest) o0 o1 usable c grown),
          )
