-- ===== src/Ecc.antt =====
-- lib/ecc/ecc.go: the repetition code. `e.t`, an integer that is not negative, is the parameter `t`.
pub mod Majority
use apir_code.Base.{
  ltb, ◌==◌, if◌then◌else◌, length, replicate, Result, no_word, ok, err, panic, ℕ, suc, ◌+◌, ◌*◌,
  ◌/◌, List, [], ◌∷◌,
}

-- Encode
pub encode : ℕ → ℕ → List ℕ
encode t in_word = replicate (2 * t + 1) in_word

-- How many words are `decoded`: the second loop of Decode.
unfoldable pub count : ℕ → List ℕ → ℕ
count decoded [] = 0
count decoded (x ∷ xs) = let rest = count decoded xs in if x == decoded then suc rest else rest

-- Decode. The candidate is the first word; an empty slice has none, and panics. The variable
-- `votes` is not read after the first loop.
pub decode : List ℕ → Result ℕ
decode [] = panic
decode (decoded ∷ xs) =
    if ltb (length (decoded ∷ xs) / 2) (count decoded (decoded ∷ xs))
    then ok decoded
    else err no_word
