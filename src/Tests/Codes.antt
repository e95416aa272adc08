-- ===== src/Tests/Codes.antt =====
-- The repetition code, the encodings, and elements of the field.
use apir_code.Base.{
  ◌++◌, length, replicate, Bytes4, big_endian, no_word, ok, err, ℕ, ◌*◌, ◌<◌, ◌≤◌, ◌≡◌, refl, ◌↔◌,
  List, [], ◌∷◌, arith,
}
use apir_code.Field.{mod_p, mask_top, to_element, rand_element_with_prg}
use apir_code.Field.Elements.{
  rand_element_with_prg-lt, rand_element_with_prg-append, to_element_redrawn,
}
use apir_code.Ecc.{encode, decode}
use apir_code.Ecc.Majority.{distance, decode-distance, decode-encode, decode_first_wrong}
use apir_code.Database.Bytes.{BytesDb, IsWhole, create_random_bytes, create_random_bytes-IsWhole}
use apir_code.Database.Padding.{
  pad_with_signal_byte, un_pad_block, un_pad_block-pad_with_signal_byte,
}
use apir_code.Utils.Encoding.{uint32_slice_to_byte_slice, byte_slice_to_uint32_slice}
use apir_code.Utils.Encoding.Words.{byte_slice-uint32_slice}

abbrev seven : ℕ
seven = 7

abbrev received : List ℕ
received = 7 ∷ 8 ∷ 7 ∷ []

decode-distance_example :
    (decode received ≡ ok seven) ↔ ((seven ≡ seven) × (distance received (encode 1 seven) ≤ 1))
decode-distance_example = decode-distance 1 7 7 (8 ∷ 7 ∷ []) (omega arith)

decode-encode_example : decode (encode 2 9) ≡ ok 9
decode-encode_example = decode-encode 2 9

decode_first_wrong_example : decode (8 ∷ replicate (2 * 2) 9) ≡ err no_word
decode_first_wrong_example = decode_first_wrong 2 9 8 (omega arith) (λ e. omega arith)

byte_slice-uint32_slice_example :
    (byte_slice_to_uint32_slice (uint32_slice_to_byte_slice (70000 ∷ 5 ∷ [])) ≡ 70000 ∷ 5 ∷ [])
    × (length (uint32_slice_to_byte_slice (70000 ∷ 5 ∷ [])) ≡ 8)
byte_slice-uint32_slice_example = byte_slice-uint32_slice (70000 ∷ 5 ∷ []) (ground arith)

abbrev some_bytes : List ℕ
some_bytes = 0 ∷ 1 ∷ 17 ∷ 112 ∷ []

abbrev all_ones : Bytes4
all_ones = record { b0 = 127; b1 = 255; b2 = 255; b3 = 255 }

abbrev high_group : Bytes4
high_group = record { b0 = 200; b1 = 0; b2 = 0; b3 = 1 }

some_masks :
    (big_endian (mask_top all_ones) ≡ mod_p) × (big_endian (mask_top high_group) ≡ 1207959553)
unfolding mask_top
some_masks = (refl, refl)

to_element_redrawn_example :
    (to_element (high_group ∷ []) all_ones ≡ ok (big_endian high_group, []))
    × (mod_p < big_endian high_group)
to_element_redrawn_example = to_element_redrawn all_ones high_group [] (some_masks.0) (omega arith)

some_draw :
    rand_element_with_prg (all_ones ∷ high_group ∷ []) ≡ ok (big_endian (mask_top high_group), [])
some_draw =
    rand_element_with_prg-append (all_ones ∷ []) high_group [] (some_masks.0, tt)
      (λ e. omega (arith, some_masks.1, e))

rand_element_with_prg-append_example :
    rand_element_with_prg (all_ones ∷ high_group ∷ []) ≡ ok (big_endian (mask_top high_group), [])
rand_element_with_prg-append_example =
    rand_element_with_prg-append (all_ones ∷ []) high_group [] (some_masks.0, tt)
      (λ e. omega (arith, some_masks.1, e))

rand_element_with_prg-lt_example : 1207959553 < mod_p
unfolding mask_top
rand_element_with_prg-lt_example =
    rand_element_with_prg-lt (all_ones ∷ high_group ∷ []) 1207959553 [] (ground arith) some_draw

un_pad_block-pad_with_signal_byte_example :
    un_pad_block (pad_with_signal_byte some_bytes ++ replicate 3 0) ≡ ok some_bytes
un_pad_block-pad_with_signal_byte_example = un_pad_block-pad_with_signal_byte some_bytes 3

create_random_bytes-IsWhole_example :
    (db : BytesDb) × (create_random_bytes some_bytes 32 1 2 ≡ ok db) × IsWhole db
create_random_bytes-IsWhole_example =
    create_random_bytes-IsWhole some_bytes 32 1 2 (λ e. omega arith) (omega arith)
