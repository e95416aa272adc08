-- ===== src/Dh/Codec.antt =====
-- MarshalGroupElements and UnmarshalGroupElements of lib/database/elliptic.go.
use apir_code.Base.{
  ◌==◌, length, get_or, drop, All, length-append, drop-append, slice, slice-append, ◌>>=◌, ok, ℕ,
  zero, suc, ◌+◌, ◌*◌, ◌≤◌, ◌<◌, ◌≡◌, refl, sym, ap, ◌∙◌, ◌≢◌, false, List, [], ◌∷◌, ◌++◌,
  append_assoc, arith,
}
use apir_code.Dh.Groups.{Group, IsGroup}
use apir_code.Dh.{marshal_group_elements, unmarshal_from, unmarshal_group_elements}

module _ {g : Group} (law : IsGroup g) where
  -- An element whose encoding has the size that the scheme takes for all.
  abbrev pub IsFull : ℕ → g.Element → Type 0
  IsFull size a = length (law.encoding a) ≡ size

  unfoldable pub encodings : List g.Element → List ℕ
  encodings [] = []
  encodings (a ∷ els) = law.encoding a ++ encodings els

  pub marshal-encodings : (els : List g.Element) → marshal_group_elements g els ≡ ok (encodings els)
  unfolding marshal_group_elements encodings
  marshal-encodings [] = refl
  marshal-encodings (a ∷ els) = rw (law.marshal_lem a, marshal-encodings els) refl

  -- The bytes `i * size ..` of encodings of one size are those of the element `i`.
  slice-encodings_behind :
      (size : ℕ) (pre : List ℕ) (els : List g.Element) (i lo : ℕ)
      → All (IsFull size) els
      → i < length els
      → lo ≡ length pre + i * size
      → slice (pre ++ encodings els) lo (lo + size) ≡ ok (law.encoding (get_or els i g.identity))
  unfolding encodings
  slice-encodings_behind size pre [] i lo full h e = absurd (omega arith)
  slice-encodings_behind size pre (a ∷ els) zero lo full h e =
      let len = full.0 in
      slice-append pre (law.encoding a) (encodings els) lo (lo + size) (omega arith) (omega arith)
  slice-encodings_behind size pre (a ∷ els) (suc i) lo full h e =
      let len = full.0 in
      let both = length-append pre (law.encoding a) in
      rw (← append_assoc pre (law.encoding a) (encodings els)) (
        slice-encodings_behind size (pre ++ law.encoding a) els i lo full.1 (omega arith)
          (omega arith))

  pub slice-encodings :
      (size : ℕ) (els : List g.Element) (i : ℕ)
      → All (IsFull size) els
      → i < length els
      → slice (encodings els) (i * size) (suc i * size)
        ≡ ok (law.encoding (get_or els i g.identity))
  slice-encodings size els i full h =
      let end' : suc i * size ≡ i * size + size = omega arith in
      rw end' (slice-encodings_behind size [] els i (i * size) full h (omega arith))

  unmarshal_from-append :
      (size fuel : ℕ) (xs rest : List ℕ) (el : g.Element)
      → size ≢ 0
      → length xs ≡ size
      → g.unmarshal xs ≡ ok el
      → unmarshal_from g size (suc fuel) (xs ++ rest)
        ≡ (do decoded ← unmarshal_from g size fuel rest; ok (el ∷ decoded))
  unfolding unmarshal_from
  unmarshal_from-append size fuel [] rest el nonzero len e = absurd (nonzero (sym len))
  unmarshal_from-append size fuel (b ∷ xs) rest el nonzero len e =
      let front : slice (b ∷ (xs ++ rest)) 0 size ≡ ok (b ∷ xs) =
        slice-append [] (b ∷ xs) rest 0 size (omega arith) (omega arith) in
      let behind : drop size (b ∷ (xs ++ rest)) ≡ rest = drop-append size (b ∷ xs) rest (sym len) in
      rw (front, e, behind) refl

  unmarshal_from-encodings :
      (size fuel : ℕ) (els : List g.Element)
      → size ≢ 0
      → All (IsFull size) els
      → length (encodings els) ≤ fuel
      → unmarshal_from g size fuel (encodings els) ≡ ok els
  unfolding encodings unmarshal_from
  unmarshal_from-encodings size fuel [] nonzero full enough = refl
  unmarshal_from-encodings size zero (a ∷ els) nonzero full enough =
      let len = full.0 in
      let both = length-append (law.encoding a) (encodings els) in absurd (omega arith)
  unmarshal_from-encodings size (suc fuel) (a ∷ els) nonzero full enough =
      let len = full.0 in
      let both = length-append (law.encoding a) (encodings els) in
      let rest = unmarshal_from-encodings size fuel els nonzero full.1 (omega arith) in
      unmarshal_from-append size fuel (law.encoding a) (encodings els) a nonzero full.0
        (law.unmarshal_encode a)
      ∙ ap (λ r. r >>= (λ decoded. ok (a ∷ decoded))) rest

  pub unmarshal-encodings :
      (size : ℕ) (els : List g.Element)
      → size ≢ 0
      → All (IsFull size) els
      → unmarshal_group_elements g size (encodings els) ≡ ok els
  unfolding unmarshal_group_elements
  unmarshal-encodings size els nonzero full =
      let some_size : (size == 0) ≡ false = ground arith in
      rw some_size
        (unmarshal_from-encodings size (length (encodings els)) els nonzero full (omega arith))

  -- In a group whose elements an encoding gives back, elements whose encodings all have the element size,
  -- which is not 0, are encoded without an error, and the decoding of what comes out returns them.
  pub marshal_group_elements-unmarshal :
      (size : ℕ) (els : List g.Element)
      → size ≢ 0
      → All (IsFull size) els
      → (encoded : List ℕ) × (marshal_group_elements g els ≡ ok encoded)
        × (unmarshal_group_elements g size encoded ≡ ok els)
  marshal_group_elements-unmarshal size els nonzero full =
      (encodings els, marshal-encodings els, unmarshal-encodings size els nonzero full)
