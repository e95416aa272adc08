-- ===== src/Client/Wire.antt =====
-- queryBytes and reconstructBytes of lib/client/fss.go and answerBytes of lib/server/fss.go: the same
-- calls on encoded queries and answers. encoding/gob is the parameter `Gob`.
use apir_code.Base.{
  true, length, replicate, All, Bytes4, IsBytes4, Result, ◌>>=◌, ok, panic, FastXor, ℕ, suc, ◌-◌,
  ◌%◌, ◌<◌, ◌≡◌, refl, ap₂, ◌∙◌, false, List, [], ◌∷◌, map,
}
use apir_code.Utils.Encoding.{uint32_slice_to_byte_slice, byte_slice_to_uint32_slice}
use apir_code.Utils.Encoding.Words.{byte_slice-uint32_slice}
use apir_code.Field.{mod_p}
use apir_code.Fss.{BlockCipher, Fss}
use apir_code.Fss.Convert.{IsReady, IsCleanLeaf}
use apir_code.Fss.Keys.{IsRandom, leaf_seeds}
use apir_code.Database.Keys.{Db}
use apir_code.Server.Predicate.Loops.{IsServed, matches}
use apir_code.Client.Predicate.Honest.{predicate_run}
use apir_code.Query.{Platform, ClientFss, FssQuery}
use apir_code.Server.Predicate.{is_implemented, ServerFss, answer, target_id}
use apir_code.Client.Predicate.{ClientState, query, reconstruct, sample_alphas}

pub record Gob : Type 1 where
  -- Byte slices that gob has written, which the code only passes on.
  pub Message : Type 0
  pub decode_client : Message → Result ClientFss
  pub encode_query : FssQuery → Result Message
  pub decode_query : Message → Result FssQuery

module _ ⦃gob : Gob⦄ ⦃fx : FastXor⦄ where
  -- queryBytes
  unfoldable pub query_bytes :
      ClientState
      → gob.Message
      → ℕ
      → List ℕ
      → List ℕ
      → Result (gob.Message × gob.Message × ClientState)
  query_bytes c bytes num_servers rand0 rand1 = do
    q ← gob.decode_client bytes
    (q0, q1, c') ← query c q num_servers rand0 rand1
    b0 ← gob.encode_query q0
    b1 ← gob.encode_query q1
    ok (b0, b1, c')

  -- AnswerBytes of both servers: `words` is 5 for the authenticated one, and 1 for the other.
  unfoldable pub answer_bytes :
      {p : Platform} → ℕ → ℕ → ServerFss p → gob.Message → Result (List ℕ × ServerFss p)
  answer_bytes words now_year s bytes = do
    q ← gob.decode_query bytes
    (a, s') ← answer now_year s q (replicate words 0)
    ok (uint32_slice_to_byte_slice a, s')

-- decodeAnswer, for two servers.
pub decode_answer : List (List ℕ) → List (List ℕ)
decode_answer answers = map byte_slice_to_uint32_slice answers

-- reconstructBytes. With fewer than two answers, reconstruct panics.
pub reconstruct_bytes : ClientState → List (List ℕ) → Result ℕ
reconstruct_bytes c answers = elim (decode_answer answers) [
  | [] ↦ panic
  | a0 ∷ rest ↦ elim rest [ [] ↦ panic | a1 ∷ more ↦ reconstruct c a0 a1 ]
]

-- What gob documents: a query that is encoded is decoded as it was.
pub record IsGob (gob : Gob) : Type 0 where
  pub carried :
      (q : FssQuery)
      → (message : gob.Message) × (gob.encode_query q ≡ ok message)
        × (gob.decode_query message ≡ ok q)

module _ ⦃gob : Gob⦄ (is_gob : IsGob gob) {p : Platform} ⦃aes : BlockCipher⦄ ⦃fx : FastXor⦄
    (c : ClientState) (q : ClientFss) (message : gob.Message) (rand0 rand1 : List ℕ)
    (alphas : List ℕ) (rnd' : List Bytes4) (db : Db p) (f0 f1 : Fss) where
  -- With gob as it is documented, and a message that stands for the query, under the conditions of a predicate
  -- query on values: queryBytes returns two messages, AnswerBytes of each server returns the bytes of its
  -- answer, and reconstructBytes of both returns how many keys have the identifier of the query, modulo ModP.
  -- These conditions are: a query with one target, which is one that the server implements; two servers with the same keys; fewer than 20 executions; a
  -- random reader that gives the client the elements `alphas`; for each key an identifier as long as the input,
  -- of at most 256 bits; and no group of the leaves that are reached stands for ModP.
  pub predicate_query_bytes :
      (now_year : ℕ)
      → gob.decode_client message ≡ ok q
      → IsRandom rand0 rand1
      → All IsBytes4 c.rnd
      → sample_alphas (c.executions - 1) c.rnd ≡ ok (alphas, rnd')
      → c.executions ≡ suc (length alphas)
      → c.executions < 20
      → IsReady c.executions c.fss
      → IsReady c.executions f0
      → IsReady c.executions f1
      → db.num_columns ≡ length db.keys_info
      → q.info.and ≡ false
      → q.info.avg ≡ false
      → q.info.sum ≡ false
      → is_implemented q.info.target ≡ true
      → All (IsCleanLeaf c.executions) (leaf_seeds rand0 rand1 q.input (1 ∷ alphas) q.input)
      → All (IsServed rand0 rand1 q.input (1 ∷ alphas) (target_id q.info)) db.keys_info
      → (m0 : gob.Message) × (m1 : gob.Message) × (c' : ClientState) × (wire0 : List ℕ)
        × (wire1 : List ℕ) × (s0 : ServerFss p) × (s1 : ServerFss p) × (query_bytes c message 2
              rand0 rand1
            ≡ ok (m0, m1, c'))
        × (answer_bytes c.executions now_year (record { db = db; server_num = 0; fss = f0 }) m0
            ≡ ok (wire0, s0))
        × (answer_bytes c.executions now_year (record { db = db; server_num = 1; fss = f1 }) m1
            ≡ ok (wire1, s1))
        × (reconstruct_bytes c' (wire0 ∷ wire1 ∷ [])
            ≡ ok (matches rand0 rand1 q.input (1 ∷ alphas) (target_id q.info) db.keys_info % mod_p))
  unfolding query_bytes answer_bytes reconstruct_bytes decode_answer
  predicate_query_bytes now_year decoded random draws sampled len few rc r0 r1 columns and avg sum
        known clean served =
      let (q0, q1, c', a0, a1, s0, s1, queried, e0, e1, found, w0, w1) =
        predicate_run c q rand0 rand1 alphas rnd' db f0 f1 now_year random draws sampled len few rc
          r0 r1 columns and avg sum known clean served in
      let (m0, sent0, received0) = is_gob.carried q0 in
      let (m1, sent1, received1) = is_gob.carried q1 in
      (
        m0,
        m1,
        c',
        uint32_slice_to_byte_slice a0,
        uint32_slice_to_byte_slice a1,
        s0,
        s1,
        rw (decoded, queried, sent0, sent1) refl,
        rw (received0, e0) refl,
        rw (received1, e1) refl,
        ap₂ (reconstruct c') (byte_slice-uint32_slice a0 w0).0 (byte_slice-uint32_slice a1 w1).0
            ∙ found,
      )
