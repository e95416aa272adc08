-- ===== src/Dh/Chunks.antt =====
-- The goroutines of CreateRandomEllipticWithDigest: when their chunks of rows are all rows.
use apir_code.Base.{
  ltb, ltb→lt, lt→ltb, Bool-cases, length, Result, ◌>>=◌, ok, err, panic, stuck, ℕ, zero, suc, ◌+◌,
  ◌-◌, ◌*◌, ◌≤◌, ◌<◌, ◌≡◌, refl, sym, ap, ap₂, ◌∙◌, inl, inr, true, false, List, [], ◌++◌,
  append-nil, append_assoc, arith,
}
use apir_code.Dh.Groups.{Group, IsGroup}
use apir_code.Dh.{add_selected, hash_index_to_group, compute_digests, digest_rows, digest_chunks}
use apir_code.Dh.Codec.{encodings}
use apir_code.Dh.Sums.{row_sums, digest_rows-row_sums}
use native.Mathlib.Nat.{mul-le-mul_right}
use Prim.Native.Nat.{min}

then_append : Result (List ℕ) → Result (List ℕ) → Result (List ℕ)
then_append r s = do x ← r; y ← s; ok (x ++ y)

then_append_assoc :
    (m ra rb : Result (List ℕ))
    → then_append m (then_append ra rb) ≡ then_append (then_append m ra) rb
unfolding then_append
then_append_assoc (ok t) (ok x) (ok y) = ap ok (sym (append_assoc t x y))
then_append_assoc (ok t) (ok x) (err e) = refl
then_append_assoc (ok t) (ok x) panic = refl
then_append_assoc (ok t) (ok x) stuck = refl
then_append_assoc (ok t) (err e) rb = refl
then_append_assoc (ok t) panic rb = refl
then_append_assoc (ok t) stuck rb = refl
then_append_assoc (err e) ra rb = refl
then_append_assoc panic ra rb = refl
then_append_assoc stuck ra rb = refl

bind-then_append {ℓ} :
    {A : Type ℓ} (d : Result A) (m : A → Result (List ℕ)) (ra rb : Result (List ℕ))
    → (d >>= (λ a. then_append (m a) (then_append ra rb)))
      ≡ then_append (d >>= (λ a. then_append (m a) ra)) rb
unfolding then_append
bind-then_append (ok a) m ra rb = then_append_assoc (m a) ra rb
bind-then_append (err e) m ra rb = refl
bind-then_append panic m ra rb = refl
bind-then_append stuck m ra rb = refl

then_append-nil : (r : Result (List ℕ)) → then_append r (ok []) ≡ r
unfolding then_append
then_append-nil (ok x) = ap ok (append-nil x)
then_append-nil (err e) = refl
then_append-nil panic = refl
then_append-nil stuck = refl

nil-then_append : (r : Result (List ℕ)) → then_append (ok []) r ≡ r
unfolding then_append
nil-then_append (ok x) = refl
nil-then_append (err e) = refl
nil-then_append panic = refl
nil-then_append stuck = refl

module _ (g : Group) (data' : List ℕ) (row_len : ℕ) where
  digest_rows-append :
      (a b i : ℕ)
      → digest_rows g data' row_len (a + b) i
        ≡ then_append (digest_rows g data' row_len a i) (digest_rows g data' row_len b (a + i))
  unfolding digest_rows then_append
  digest_rows-append zero b i =
      let e1 : 0 + b ≡ b = omega arith in
      let e2 : 0 + i ≡ i = omega arith in
      rw (e1, e2) (sym (nil-then_append (digest_rows g data' row_len b i)))
  digest_rows-append (suc a) b i =
      let e1 : suc a + b ≡ suc (a + b) = omega arith in
      let e2 : suc a + i ≡ a + suc i = omega arith in
      let row =
        add_selected g data' (i * row_len) (λ j. ok (hash_index_to_group g j)) row_len 0
          g.identity in
      rw (e1, e2, digest_rows-append a b (suc i))
        (bind-then_append row g.marshal (digest_rows g data' row_len a (suc i))
          (digest_rows g data' row_len b (a + suc i)))

  compute_digests_ok :
      (lo hi : ℕ)
      → lo ≤ hi
      → compute_digests g data' row_len lo hi ≡ digest_rows g data' row_len (hi - lo) lo
  unfolding compute_digests
  compute_digests_ok lo hi h = let order : ltb hi lo ≡ false = ground arith in rw order refl

  -- Where no chunk begins behind the end and the last one reaches it, the chunks of `left` goroutines from
  -- number `i` on, appended, are what one pass over the rows `i * per ..` gives, errors included.
  pub digest_chunks-digest_rows :
      (num_rows per left i : ℕ)
      → num_rows ≤ (i + suc left) * per
      → (i + left) * per ≤ num_rows
      → digest_chunks g data' num_rows row_len per (suc left) i
        ≡ digest_rows g data' row_len (num_rows - i * per) (i * per)
  unfolding digest_chunks digest_rows then_append
  digest_chunks-digest_rows num_rows per zero i reach within =
      let top : min (suc i * per) num_rows ≡ num_rows = omega arith in
      rw (top, compute_digests_ok (i * per) num_rows (omega arith))
        (then_append-nil (digest_rows g data' row_len (num_rows - i * per) (i * per)))
  digest_chunks-digest_rows num_rows per (suc left) i reach within =
      let top : min (suc i * per) num_rows ≡ suc i * per = omega arith in
      let rest = digest_chunks-digest_rows num_rows per left (suc i) (omega arith) (omega arith) in
      let a = suc i * per - i * per in
      let b = num_rows - suc i * per in
      let e1 : num_rows - i * per ≡ a + b = omega arith in
      let e2 : a + i * per ≡ suc i * per = omega arith in
      ap₂ then_append
        (ap (compute_digests g data' row_len (i * per)) top
          ∙ compute_digests_ok (i * per) (suc i * per) (omega arith))
        rest
      ∙ ap
          (λ (k : ℕ).
            then_append (digest_rows g data' row_len a (i * per)) (digest_rows g data' row_len b k))
          (sym e2)
      ∙ sym (digest_rows-append a b (i * per))
      ∙ ap (λ (k : ℕ). digest_rows g data' row_len k (i * per)) (sym e1)

module _ {g : Group} (law : IsGroup g) (entries : List ℕ) (row_len : ℕ) where
  chunk_behind :
      (num_rows lo hi : ℕ)
      → num_rows < lo
      → compute_digests g entries row_len lo (min hi num_rows) ≡ panic
  unfolding compute_digests
  chunk_behind num_rows lo hi h =
      let le : min hi num_rows < lo = omega arith in
      let order : ltb (min hi num_rows) lo ≡ true = lt→ltb (min hi num_rows) lo le in rw order refl

  chunk_ok :
      (num_rows lo hi : ℕ)
      → num_rows * row_len ≤ length entries
      → lo ≤ num_rows
      → lo ≤ hi
      → (chunk : List ℕ) × (compute_digests g entries row_len lo (min hi num_rows) ≡ ok chunk)
  chunk_ok num_rows lo hi whole h k =
      let top = min hi num_rows in
      let rows : lo + (top - lo) ≤ num_rows = omega arith in
      let scaled = mul-le-mul_right row_len rows in
      (
        encodings law (row_sums g entries row_len (hash_index_to_group g) (top - lo) lo),
        compute_digests_ok g entries row_len lo top (omega arith)
            ∙ digest_rows-row_sums law entries row_len (top - lo) lo (omega arith),
      )

  -- With an entry for each place, where the last of the chunks begins behind the end, one of the
  -- goroutines panics.
  pub digest_chunks_panic :
      (num_rows per left i : ℕ)
      → num_rows * row_len ≤ length entries
      → num_rows < (i + left) * per
      → digest_chunks g entries num_rows row_len per (suc left) i ≡ panic
  unfolding digest_chunks
  digest_chunks_panic num_rows per zero i whole behind =
      rw (chunk_behind num_rows (i * per) (suc i * per) (omega arith)) refl
  digest_chunks_panic num_rows per (suc left) i whole behind =
      elim (Bool-cases (ltb num_rows (i * per))) [
        | inl over ↦
            rw (chunk_behind num_rows (i * per) (suc i * per) (ltb→lt num_rows (i * per) over)) refl
        | inr within ↦
            let (chunk, e) =
              chunk_ok num_rows (i * per) (suc i * per) whole (ground arith) (omega arith) in
            rw (e, digest_chunks_panic num_rows per left (suc i) whole (omega arith)) refl
      ]
