-- ===== src/Database/Keys.antt =====
-- The database of keys that the predicate queries run over, of lib/database/db.go. Of the time only what the
-- queries read is there.
use apir_code.Base.{ℕ, List}
use apir_code.Query.{Platform}

-- packet.UserId of the OpenPGP library, as a record of its four strings.
pub record UserId : Type 0 where
  pub id : List ℕ
  pub name : List ℕ
  pub comment : List ℕ
  pub email : List ℕ

pub record KeyInfo (p : Platform) : Type 0 where
  pub user_id : UserId
  pub creation_time : p.Time
  pub pub_key_algo : ℕ
  pub bit_length : ℕ

pub record Db (p : Platform) : Type 0 where
  pub keys_info : List (KeyInfo p)
  pub num_columns : ℕ
