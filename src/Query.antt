-- ===== src/Query.antt =====
-- lib/query/query.go: the identifiers that a predicate query compares. An email is the list of its
-- bytes; blake2b, a public key algorithm's number and a time with its binary form are parameters.
use apir_code.Base.{
  ltb, ◌==◌, if◌then◌else◌, length, take, drop, u32, u8, put_big_endian, Result, library_error, ok,
  err, panic, stuck, ℕ, ◌-◌, ◌≡◌, Bool, not, Option, none, some, List, [], ◌∷◌, ◌++◌,
}
use apir_code.Fss.{FssKeyEq2P}
use apir_code.Utils.Encoding.{byte_to_bits}

-- A number other than the three constants is no target that the server knows.
pub data Target : Type 0 where
  user_id creation_time pub_key_algo other_target : Target

pub record Info : Type 0 where
  pub target : Target
  pub from_start : ℕ
  pub from_end : ℕ
  pub and : Bool
  pub targets : List Target
  pub avg : Bool
  pub sum : Bool

pub record ClientFss : Type 0 where
  pub info : Info
  pub input : List Bool

-- What is sent to a server.
pub record FssQuery : Type 0 where
  pub info : Info
  pub fss_key : FssKeyEq2P

-- time.Time as far as the queries read it, and golang.org/x/crypto/blake2b, whose Sum256 has 32 bytes.
pub record Platform : Type 1 where
  pub Time : Type 0
  pub year : Time → ℕ
  pub marshal_binary : Time → Option (List ℕ)
  pub sum256 : List ℕ → List ℕ
  pub length-sum256 : (email : List ℕ) → length (sum256 email) ≡ 32

-- The constants of the package openpgp/packet for the names of ToPKAClientFSS.
pub record Algorithms : Type 0 where
  pub rsa : ℕ
  pub el_gamal : ℕ
  pub dsa : ℕ
  pub ecdh : ℕ
  pub ecdsa : ℕ

-- The names that ToPKAClientFSS knows; another leaves the variable `pka` at 0.
pub data AlgorithmName : Type 0 where
  rsa_name el_gamal_name dsa_name ecdh_name ecdsa_name other_name : AlgorithmName

-- uint8(pka)
unfoldable pub id_for_pub_key_algo : ℕ → List Bool
id_for_pub_key_algo pka = byte_to_bits (u8 pka ∷ [])

-- The first or last bytes of an email that is long enough, or else half of its hash. `none` is the
-- answer `nil, false`. The two lengths are not negative.
pub id_for_email : (Platform) → Info → List ℕ → Option (List Bool)
id_for_email p i email =
    if not (i.from_start == 0)
    then (if ltb (length email) i.from_start
        then none
        else some (byte_to_bits (take i.from_start email)))
    else (if not (i.from_end == 0)
        then (if ltb (length email) i.from_end
            then none
            else some (byte_to_bits (drop (length email - i.from_end) email)))
        else some (byte_to_bits (take 16 (p.sum256 email))))

-- The bits of an id, and none of an answer `nil`.
abbrev pub bits_or_nil : Option (List Bool) → List Bool
bits_or_nil none = []
bits_or_nil (some id) = id

module _ (p : Platform) where
  open p use {Time, year, marshal_binary}

  pub id_for_creation_time : Time → Result (List Bool)
  id_for_creation_time t = elim (marshal_binary t) [
    | none ↦ err library_error
    | some bytes ↦ ok (byte_to_bits bytes)
  ]

  -- The bytes of uint32(t.Year())
  pub id_for_year_creation_time : Time → List Bool
  id_for_year_creation_time t =
      let w = put_big_endian (u32 (year t)) in byte_to_bits (w.b0 ∷ w.b1 ∷ w.b2 ∷ w.b3 ∷ [])

  pub to_email_client_fss : Info → List ℕ → ClientFss
  to_email_client_fss i email = record { info = i; input = bits_or_nil (id_for_email p i email) }

  pub to_pka_client_fss : Algorithms → Info → AlgorithmName → ClientFss
  to_pka_client_fss known i name =
      let pka : ℕ = elim name [
        | rsa_name ↦ known.rsa
        | el_gamal_name ↦ known.el_gamal
        | dsa_name ↦ known.dsa
        | ecdh_name ↦ known.ecdh
        | ecdsa_name ↦ known.ecdsa
        | other_name ↦ 0
      ] in
      record { info = i; input = id_for_pub_key_algo pka }

  -- `match` is time.Date(year, 0, 0, ..), made from the number in the input.
  pub to_creation_time_client_fss : Info → Time → Result ClientFss
  to_creation_time_client_fss i match = elim (id_for_creation_time match) [
    | ok id ↦ ok (record { info = i; input = id })
    | err e ↦ panic
    | panic ↦ panic
    | stuck ↦ stuck
  ]

  -- `match` is time.Date(2019, 0, 0, ..)
  pub to_and_client_fss : Info → Time → List ℕ → ClientFss
  to_and_client_fss i match email = record {
    info = i;
    input = id_for_year_creation_time match ++ bits_or_nil (id_for_email p i email);
  }

  pub to_avg_client_fss : Info → List ℕ → ClientFss
  to_avg_client_fss i email = record { info = i; input = bits_or_nil (id_for_email p i email) }
