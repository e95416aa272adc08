-- ===== src/Dh/Groups.antt =====
-- github.com/cloudflare/circl/group, which is not part of the repository: the parameter `Group`, and
-- what the scheme relies on, `IsGroup`.
use apir_code.Base.{Result, ok, ℕ, ◌≡◌, sym, ap, ◌∙◌, ◌↔◌, Bool, true, List}

-- The operations that the repository calls. `marshal` is MarshalBinaryCompress.
pub record Group : Type 1 where
  pub Element : Type 0
  pub Scalar : Type 0
  pub identity : Element
  pub add_elements : Element → Element → Element
  pub mul_scalar : Element → Scalar → Element
  pub neg : Scalar → Scalar
  pub is_identity : Element → Bool
  pub is_equal : Element → Element → Bool
  pub hash_to_element : List ℕ → Element
  pub marshal : Element → Result (List ℕ)
  pub unmarshal : List ℕ → Result Element

-- An abelian group on which the scalars act, with tests that decide equality, and an encoding that can
-- be decoded.
pub record IsGroup (g : Group) : Type 0 where
  pub add_comm : (a b : g.Element) → g.add_elements a b ≡ g.add_elements b a
  pub add_assoc :
      (a b c : g.Element)
      → g.add_elements (g.add_elements a b) c ≡ g.add_elements a (g.add_elements b c)
  pub identity-add : (a : g.Element) → g.add_elements g.identity a ≡ a
  pub mul_add :
      (a b : g.Element) (s : g.Scalar)
      → g.mul_scalar (g.add_elements a b) s ≡ g.add_elements (g.mul_scalar a s) (g.mul_scalar b s)
  pub mul_identity : (s : g.Scalar) → g.mul_scalar g.identity s ≡ g.identity
  pub mul_neg :
      (a : g.Element) (s : g.Scalar)
      → g.add_elements (g.mul_scalar a (g.neg s)) (g.mul_scalar a s) ≡ g.identity
  pub is_identity_iff : (a : g.Element) → (g.is_identity a ≡ true) ↔ (a ≡ g.identity)
  pub is_equal_iff : (a b : g.Element) → (g.is_equal a b ≡ true) ↔ (a ≡ b)
  pub encoding : g.Element → List ℕ
  pub marshal_lem : (a : g.Element) → g.marshal a ≡ ok (encoding a)
  pub unmarshal_encode : (a : g.Element) → g.unmarshal (encoding a) ≡ ok a

module _ {g : Group} (law : IsGroup g) where
  -- The sums that blinding by a scalar and unblinding by its negative take.
  pub unblind :
      (d x : g.Element) (s : g.Scalar)
      → g.add_elements (g.mul_scalar d (g.neg s)) (g.add_elements (g.mul_scalar d s) x) ≡ x
  unblind d x s =
      sym (law.add_assoc (g.mul_scalar d (g.neg s)) (g.mul_scalar d s) x)
      ∙ ap (λ e. g.add_elements e x) (law.mul_neg d s)
      ∙ law.identity-add x

  pub add-identity : (a : g.Element) → g.add_elements a g.identity ≡ a
  add-identity a = law.add_comm a g.identity ∙ law.identity-add a

  -- Adding to what stands before the last summand.
  pub add_before_last :
      (a x b : g.Element)
      → g.add_elements (g.add_elements a x) b ≡ g.add_elements (g.add_elements a b) x
  add_before_last a x b =
      law.add_assoc a x b ∙ ap (g.add_elements a) (law.add_comm x b) ∙ sym (law.add_assoc a b x)
