-- ===== src/Tests.antt =====
-- Concrete inputs, and each theorem at one of them. The cipher, the hash and the clock of the tests are
-- small functions that fill the interfaces.
mod Points
mod Predicates
mod Proven
mod Lattices
mod Numbers
mod Codes
mod Wire
mod Groups
mod Infos
mod Blocks
mod Runs
mod Buckets
use apir_code.Base.{
  ◌==◌, tabulate, All, length-tabulate, All-tabulate, IsByte, byte_at, xor_into, FastXor, ℕ, ◌+◌,
  ◌-◌, ◌*◌, ◌%◌, ◌≡◌, refl, ◌≢◌, Bool, true, ◌&&◌, not, List, [], ◌∷◌, arith,
}
use apir_code.Field.{mod_p}
use apir_code.Fss.{BlockCipher}
use apir_code.Fss.Keys.{IsRandom}
use apir_code.Fss.Convert.{IsCleanLeaf, leaf_words}

abbrev pub toy_cipher : BlockCipher
toy_cipher = record {
  encrypt = λ key src. tabulate 16 (λ i. (byte_at key i + 3 * byte_at src i) % 256);
  length-encrypt = λ key src. length-tabulate 16 _;
  encrypt-IsByte = λ key src. All-tabulate IsByte 16 _ (λ i. omega arith);
}

abbrev pub toy_xor : FastXor
toy_xor = record { bytes = xor_into; bytes_lem = λ dst a b. refl }

-- A test for elements other than ModP.
unfoldable pub none_is_mod_p : List ℕ → Bool
none_is_mod_p [] = true
none_is_mod_p (x ∷ xs) = not (x == mod_p) && none_is_mod_p xs

pub none_is_mod_p_sound : (xs : List ℕ) → none_is_mod_p xs ≡ true → All (λ x. x ≢ mod_p) xs
unfolding none_is_mod_p
none_is_mod_p_sound [] h = tt
none_is_mod_p_sound (x ∷ xs) h = (ground arith, none_is_mod_p_sound xs (ground arith))

-- What crypto/rand stores for the keys.
abbrev pub some_rand0 : List ℕ
some_rand0 = 3 ∷ 1 ∷ 4 ∷ 1 ∷ 5 ∷ 9 ∷ 2 ∷ 6 ∷ 5 ∷ 3 ∷ 5 ∷ 8 ∷ 9 ∷ 7 ∷ 9 ∷ 3 ∷ 2 ∷ []

abbrev pub some_rand1 : List ℕ
some_rand1 = 2 ∷ 7 ∷ 1 ∷ 8 ∷ 2 ∷ 8 ∷ 1 ∷ 8 ∷ 2 ∷ 8 ∷ 4 ∷ 5 ∷ 9 ∷ 0 ∷ 4 ∷ 5 ∷ []

-- A test for leaves that need no draw.
unfoldable pub seeds_are_clean : ℕ → List (List ℕ) → Bool
seeds_are_clean len [] = true
seeds_are_clean len (s ∷ ss) =
    none_is_mod_p (leaf_words ⦃aes = toy_cipher⦄ len s) && seeds_are_clean len ss

pub seeds_are_clean_sound :
    (len : ℕ) (ss : List (List ℕ))
    → seeds_are_clean len ss ≡ true
    → All (IsCleanLeaf ⦃aes = toy_cipher⦄ len) ss
unfolding seeds_are_clean leaf_words
seeds_are_clean_sound len [] h = tt
seeds_are_clean_sound len (s ∷ ss) h = (
  none_is_mod_p_sound (leaf_words ⦃aes = toy_cipher⦄ len s) (ground arith),
  seeds_are_clean_sound len ss (ground arith),
)

pub some_IsRandom : IsRandom some_rand0 some_rand1
some_IsRandom = record {
  length0 = refl;
  length1 = refl;
  bytes0 = ground arith;
  bytes1 = ground arith;
}
