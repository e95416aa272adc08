-- ===== src/Ecc/Majority.antt =====
-- What Decode makes of a received word.
use apir_code.Base.{
  ◌==◌, if◌then◌else◌, [], ltb, ltb→lt, lt→ltb, ==_iff, Bool-cases, length, replicate,
  length-replicate, no_word, ok, err, ℕ, zero, suc, ◌+◌, ◌*◌, ◌/◌, ◌≤◌, ◌<◌, ◌≡◌, refl, sym, ap,
  subst, ◌≢◌, ◌↔◌, inl, inr, List, ◌∷◌, arith,
}
use apir_code.Ecc.{encode, count, decode}

count-replicate_here : (x n : ℕ) → count x (replicate n x) ≡ n
unfolding count
count-replicate_here x zero = refl
count-replicate_here x (suc n) = rw ((==_iff x x).1 refl) (ap suc (count-replicate_here x n))

count-replicate_other : (x y n : ℕ) → x ≢ y → count y (replicate n x) ≡ 0
unfolding count
count-replicate_other x y zero h = refl
count-replicate_other x y (suc n) h = ground (arith, count-replicate_other x y n h)

-- The condition of Decode.
pub decode_iff :
    (y x : ℕ) (ys : List ℕ)
    → (decode (y ∷ ys) ≡ ok x) ↔ ((x ≡ y) × (length (y ∷ ys) / 2 < count x (y ∷ ys)))
unfolding decode
decode_iff y x ys = (there, back)
  where
    there : decode (y ∷ ys) ≡ ok x → (x ≡ y) × (length (y ∷ ys) / 2 < count x (y ∷ ys))
    there h = elim (Bool-cases (ltb (length (y ∷ ys) / 2) (count y (y ∷ ys)))) [
      | inl more ↦
          let e : y ≡ x = cc (rw more at h) in
          (sym e, subst (λ (z : ℕ). length (y ∷ ys) / 2 < count z (y ∷ ys)) e (ltb→lt _ _ more))
      | inr fewer ↦ cc (rw fewer at h)
    ]

    back : (x ≡ y) × (length (y ∷ ys) / 2 < count x (y ∷ ys)) → decode (y ∷ ys) ≡ ok x
    back (e, more) =
        let more' = subst (λ (z : ℕ). length (y ∷ ys) / 2 < count z (y ∷ ys)) e more in
        rw (lt→ltb _ _ more') (ap ok (sym e))

-- In how many places two words of code differ.
unfoldable pub distance : List ℕ → List ℕ → ℕ
distance [] ys = length ys
distance (x ∷ xs) [] = suc (length xs)
distance (x ∷ xs) (y ∷ ys) = let rest = distance xs ys in if x == y then rest else suc rest

distance-count :
    (xs : List ℕ) (y : ℕ) → distance xs (replicate (length xs) y) + count y xs ≡ length xs
unfolding distance count
distance-count [] y = omega arith
distance-count (x ∷ xs) y = elim (Bool-cases (x == y)) [
  | inl same ↦ rw same (omega (arith, distance-count xs y))
  | inr other ↦ rw other (omega (arith, distance-count xs y))
]

-- For 2t + 1 received words, Decode returns a word exactly if it is the first one and at most t of the received
-- words differ from its code word.
pub decode-distance :
    (t x y : ℕ) (ys : List ℕ)
    → length ys ≡ 2 * t
    → (decode (y ∷ ys) ≡ ok x) ↔ ((x ≡ y) × (distance (y ∷ ys) (encode t x) ≤ t))
unfolding encode
decode-distance t x y ys len =
    let (there, back) = decode_iff y x ys in
    let all : length (y ∷ ys) ≡ 2 * t + 1 = omega arith in
    let both : distance (y ∷ ys) (replicate (2 * t + 1) x) + count x (y ∷ ys) ≡ 2 * t + 1 =
      subst (λ (n : ℕ). distance (y ∷ ys) (replicate n x) + count x (y ∷ ys) ≡ n) all
        (distance-count (y ∷ ys) x) in
    (
      (λ h. let (same, more) = there h in (same, omega arith)),
      (λ (same, near). back (same, omega arith)),
    )

-- A code word is decoded.
pub decode-encode : (t x : ℕ) → decode (encode t x) ≡ ok x
unfolding encode
decode-encode t x =
    let e : 2 * t + 1 ≡ suc (2 * t) = omega arith in
    rw e (
      (decode_iff x x (replicate (2 * t) x)).1 (
        refl,
        (let c = count-replicate_here x (suc (2 * t)) in
            let l = length-replicate (2 * t) x in ground (arith, c, l)),
      ))

-- A code word whose first place was changed is not decoded, although all its other places are right.
pub decode_first_wrong :
    (t x y : ℕ) → 1 ≤ t → x ≢ y → decode (y ∷ replicate (2 * t) x) ≡ err no_word
unfolding decode count
decode_first_wrong t x y h other =
    let c = count-replicate_other x y (2 * t) other in
    let l = length-replicate (2 * t) x in rw ((==_iff y y).1 refl, c, l) (ground arith)
