-- ===== src/Base/Slices.antt =====
-- Parts of Go slices.
use Prim.Native.Nat.{ℕ, zero, suc, ◌+◌, ◌-◌, ◌≤◌, ◌<◌}
use mathlib.Core.Path.{◌≡◌, refl, ap, ◌∙◌, sym}
use mathlib.Core.Logic.{inl, inr, ◌≢◌}
use mathlib.Core.Bool.{true, false, ◌||◌}
use mathlib.Core.List.{List, [], ◌∷◌, ◌++◌}
use native.Mathlib.Omega.{arith}
use apir_code.Base.Tests.{if◌then◌else◌, Bool-cases, ltb}
use apir_code.Base.Lists.{
  replicate, All, tabulate_from, tabulate, get_or, set, length, take, drop, length-append,
  take-append, drop-append, drop-drop,
}
use apir_code.Base.Results.{Result, ok, panic}

module _ {ℓ} {A : Type ℓ} where
  -- The places `lo .. hi` of a slice, whose capacity is its length; a bound behind the end panics.
  unfoldable pub slice : List A → ℕ → ℕ → Result (List A)
  slice xs lo hi =
      if ltb hi lo || ltb (length xs) hi then panic else ok (take (hi - lo) (drop lo xs))

  pub slice_ok :
      (xs : List A) (lo hi : ℕ)
      → lo ≤ hi
      → hi ≤ length xs
      → slice xs lo hi ≡ ok (take (hi - lo) (drop lo xs))
  unfolding slice
  slice_ok xs lo hi h k =
      let order : ltb hi lo ≡ false = ground arith in
      let fits : ltb (length xs) hi ≡ false = ground arith in rw (order, fits) refl

  pub slice_panic : (xs : List A) (lo hi : ℕ) → length xs < hi → slice xs lo hi ≡ panic
  unfolding slice
  slice_panic xs lo hi h =
      let over : ltb (length xs) hi ≡ true = ground arith in
      elim (Bool-cases (ltb hi lo)) [ inl t ↦ rw t refl | inr f ↦ rw (f, over) refl ]

  -- A part of what stands behind `pre`.
  pub slice-append :
      (pre mid post : List A) (lo hi : ℕ)
      → lo ≡ length pre
      → hi ≡ length pre + length mid
      → slice (pre ++ (mid ++ post)) lo hi ≡ ok mid
  slice-append pre mid post lo hi el eh =
      let all = length-append pre (mid ++ post) in
      let tail = length-append mid post in
      slice_ok (pre ++ (mid ++ post)) lo hi (omega arith) (omega arith)
      ∙ ap (λ t. ok (take (hi - lo) t)) (drop-append lo pre (mid ++ post) el)
      ∙ ap ok (take-append (hi - lo) mid post (omega arith))

  -- What stands behind `pre` and some places more.
  pub drop-append_more :
      (pre post : List A) (n m : ℕ) → n ≡ length pre + m → drop n (pre ++ post) ≡ drop m post
  drop-append_more pre post n m e =
      ap (λ (k : ℕ). drop k (pre ++ post)) e
      ∙ sym (drop-drop m (length pre) (pre ++ post))
      ∙ ap (drop m) (drop-append (length pre) pre post refl)

  -- Behind the end the default is read, as in a slice of defaults.
  pub get_or-replicate : (n i : ℕ) (d : A) → get_or (replicate n d) i d ≡ d
  get_or-replicate zero i d = refl
  get_or-replicate (suc n) zero d = refl
  get_or-replicate (suc n) (suc i) d = get_or-replicate n i d

  pub get_or-set_same :
      (xs : List A) (i : ℕ) (v d : A) → i < length xs → get_or (set xs i v) i d ≡ v
  get_or-set_same [] i v d h = absurd (omega arith)
  get_or-set_same (x ∷ xs) zero v d h = refl
  get_or-set_same (x ∷ xs) (suc i) v d h = get_or-set_same xs i v d (omega arith)

  pub get_or-set_other :
      (xs : List A) (i j : ℕ) (v d : A) → j ≢ i → get_or (set xs i v) j d ≡ get_or xs j d
  get_or-set_other [] i j v d h = refl
  get_or-set_other (x ∷ xs) zero zero v d h = absurd (h refl)
  get_or-set_other (x ∷ xs) zero (suc j) v d h = refl
  get_or-set_other (x ∷ xs) (suc i) zero v d h = refl
  get_or-set_other (x ∷ xs) (suc i) (suc j) v d h = get_or-set_other xs i j v d (λ e. h (ap suc e))

module _ {ℓ κ} {A : Type ℓ} (P : A → Type κ) where
  pub All-take-drop : (a b : ℕ) (xs : List A) → All P xs → All P (take a (drop b xs))
  All-take-drop zero zero xs h = tt
  All-take-drop zero (suc b) xs h = tt
  All-take-drop (suc a) zero [] h = tt
  All-take-drop (suc a) zero (x ∷ xs) h = (h.0, All-take-drop a zero xs h.1)
  All-take-drop (suc a) (suc b) [] h = tt
  All-take-drop (suc a) (suc b) (x ∷ xs) h = All-take-drop (suc a) b xs h.1

  All-tabulate_from_below :
      (n i : ℕ) (f : ℕ → A) → ((j : ℕ) → j < i + n → P (f j)) → All P (tabulate_from n i f)
  unfolding tabulate_from
  All-tabulate_from_below zero i f h = tt
  All-tabulate_from_below (suc n) i f h =
      (h i (omega arith), All-tabulate_from_below n (suc i) f (λ j below. h j (omega arith)))

  pub All-tabulate_below : (n : ℕ) (f : ℕ → A) → ((j : ℕ) → j < n → P (f j)) → All P (tabulate n f)
  unfolding tabulate
  All-tabulate_below n f h = All-tabulate_from_below n 0 f (λ j below. h j (omega arith))
