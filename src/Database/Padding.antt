-- ===== src/Database/Padding.antt =====
-- PadWithSignalByte and UnPadBlock of lib/database/pgp.go: a block ends with the byte 128, and the
-- zeros behind it are filling.
use apir_code.Base.{
  ◌==◌, if◌then◌else◌, length, take, replicate, length-append, Result, ok, panic, ℕ, zero, suc, ◌≡◌,
  refl, ap, ◌∙◌, List, [], ◌∷◌, ◌++◌, append_assoc, arith,
}

unfoldable pub pad_with_signal_byte : List ℕ → List ℕ
pad_with_signal_byte block = block ++ (128 ∷ [])

-- bytes.TrimRightFunc for zero bytes.
trim_right : List ℕ → List ℕ
trim_right [] = []
trim_right (x ∷ xs) = elim (trim_right xs) [
  | [] ↦ if x == 0 then [] else x ∷ []
  | y ∷ ys ↦ x ∷ y ∷ ys
]

-- `block[:len(block)-1]` panics on an empty slice.
drop_last : List ℕ → Result (List ℕ)
drop_last [] = panic
drop_last (x ∷ xs) = ok (take (length xs) (x ∷ xs))

pub un_pad_block : List ℕ → Result (List ℕ)
un_pad_block block = drop_last (trim_right block)

trim_right-zeros : (n : ℕ) → trim_right (replicate n 0) ≡ []
unfolding trim_right
trim_right-zeros zero = refl
trim_right-zeros (suc n) = rw (trim_right-zeros n) refl

trim_right-more :
    (x y : ℕ) (ys xs : List ℕ) → trim_right xs ≡ y ∷ ys → trim_right (x ∷ xs) ≡ x ∷ y ∷ ys
unfolding trim_right
trim_right-more x y ys xs e = rw e refl

trim_right-last : (xs : List ℕ) → trim_right xs ≡ [] → trim_right (128 ∷ xs) ≡ 128 ∷ []
unfolding trim_right
trim_right-last xs e = rw e refl

trim_right-signal :
    (block : List ℕ) (n : ℕ) → trim_right (block ++ (128 ∷ replicate n 0)) ≡ block ++ (128 ∷ [])
unfolding trim_right
trim_right-signal [] n = trim_right-last (replicate n 0) (trim_right-zeros n)
trim_right-signal (x ∷ []) n =
    trim_right-more x 128 [] (128 ∷ replicate n 0) (trim_right-signal [] n)
trim_right-signal (x ∷ y ∷ block) n =
    trim_right-more x y (block ++ (128 ∷ [])) (y ∷ block ++ (128 ∷ replicate n 0))
      (trim_right-signal (y ∷ block) n)

take_front : (xs : List ℕ) (y : ℕ) → take (length xs) (xs ++ (y ∷ [])) ≡ xs
take_front [] y = refl
take_front (x ∷ xs) y = ap (λ (t : List ℕ). x ∷ t) (take_front xs y)

drop_last-append : (xs : List ℕ) (y : ℕ) → drop_last (xs ++ (y ∷ [])) ≡ ok xs
unfolding drop_last
drop_last-append [] y = refl
drop_last-append (x ∷ xs) y =
    let l : length (xs ++ (y ∷ [])) ≡ suc (length xs) = length-append xs (y ∷ []) ∙ omega arith in
    rw l (ap ok (take_front (x ∷ xs) y))

-- A padded block, with any number of zeros behind it, is read back as it was, whatever bytes it ends
-- with itself.
pub un_pad_block-pad_with_signal_byte :
    (block : List ℕ) (n : ℕ) → un_pad_block (pad_with_signal_byte block ++ replicate n 0) ≡ ok block
unfolding un_pad_block pad_with_signal_byte
un_pad_block-pad_with_signal_byte block n =
    ap (λ (t : List ℕ). drop_last (trim_right t)) (append_assoc block (128 ∷ []) (replicate n 0))
    ∙ ap drop_last (trim_right-signal block n)
    ∙ drop_last-append block 128

-- Nothing but zeros has no signal byte to take off.
pub un_pad_block-zeros : (n : ℕ) → un_pad_block (replicate n 0) ≡ panic
unfolding un_pad_block drop_last
un_pad_block-zeros n = rw (trim_right-zeros n) refl
