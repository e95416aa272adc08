-- ===== src/Field/Elements.antt =====
-- toElement and RandElementWithPRG: what they return.
use apir_code.Base.{
  All, Bytes4, IsBytes4, big_endian, bit_and-127, ok, ℕ, ◌≤◌, ◌<◌, ◌≡◌, ◌≢◌, List, [], ◌∷◌, ◌++◌,
  arith,
}
use apir_code.Field.{mod_p, mask_top, resample, to_element, rand_element_with_prg}

pub big_endian-mask_top : (w : Bytes4) → IsBytes4 w → big_endian (mask_top w) < 2147483648
unfolding mask_top
big_endian-mask_top w h = omega (arith, bit_and-127 w.b0 h.0)

-- Whatever it has to draw again, an element that RandElementWithPRG returns lies below ModP.
pub rand_element_with_prg-lt :
    (draws : List Bytes4) (x : ℕ) (rest : List Bytes4)
    → All IsBytes4 draws
    → rand_element_with_prg draws ≡ ok (x, rest)
    → x < mod_p
unfolding rand_element_with_prg
rand_element_with_prg-lt [] x rest h e = cc
rand_element_with_prg-lt (d ∷ draws) x rest h e =
    ground (arith, big_endian-mask_top d h.0, rand_element_with_prg-lt draws x rest h.1)

-- RandElementWithPRG ends with the first draw that does not stand for ModP, whatever comes before it.
pub rand_element_with_prg-append :
    (before : List Bytes4) (d : Bytes4) (after : List Bytes4)
    → All (λ w. big_endian (mask_top w) ≡ mod_p) before
    → big_endian (mask_top d) ≢ mod_p
    → rand_element_with_prg (before ++ (d ∷ after)) ≡ ok (big_endian (mask_top d), after)
unfolding rand_element_with_prg
rand_element_with_prg-append [] d after h k = ground arith
rand_element_with_prg-append (w ∷ before) d after h k =
    ground (arith, rand_element_with_prg-append before d after h.1 k)

-- A group that does not stand for ModP is its masked value, and draws nothing.
pub to_element_first :
    (draws : List Bytes4) (w : Bytes4)
    → big_endian (mask_top w) ≢ mod_p
    → to_element draws w ≡ ok (big_endian (mask_top w), draws)
unfolding to_element resample
to_element_first [] w h = ground arith
to_element_first (d ∷ draws) w h = ground arith

resample_other : (draws : List Bytes4) (v : ℕ) → v ≢ mod_p → resample draws v ≡ ok (v, draws)
unfolding resample
resample_other [] v h = ground arith
resample_other (d ∷ draws) v h = ground arith

-- A group that stands for ModP is replaced by the next draw, which toElement does not mask: a draw
-- whose first byte is 128 or more gives a value above ModP, outside the field.
pub to_element_redrawn :
    (w d : Bytes4) (draws : List Bytes4)
    → big_endian (mask_top w) ≡ mod_p
    → 128 ≤ d.b0
    → (to_element (d ∷ draws) w ≡ ok (big_endian d, draws)) × (mod_p < big_endian d)
unfolding to_element resample
to_element_redrawn w d draws e h =
    (ground (arith, resample_other draws (big_endian d)), omega arith)

-- The groups that are left are among those that were there.
pub rand_element_with_prg-All :
    (draws : List Bytes4) (x : ℕ) (rest : List Bytes4)
    → All IsBytes4 draws
    → rand_element_with_prg draws ≡ ok (x, rest)
    → All IsBytes4 rest
unfolding rand_element_with_prg
rand_element_with_prg-All [] x rest h e = cc
rand_element_with_prg-All (d ∷ draws) x rest h e =
    ground (arith, rand_element_with_prg-All draws x rest h.1)
