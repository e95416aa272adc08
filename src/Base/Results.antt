-- ===== src/Base/Results.antt =====
-- What a Go function returns: a value, one of the errors of the repository, or nothing, by a panic or
-- because a loop has not ended within the random draws or the fuel that it was given.
use mathlib.Core.Path.{◌≡◌, refl}
use mathlib.Core.Option.{Option, none, some}

pub data Error : Type 0 where
  -- errors.New("REJECT"), ("REJECT count"), ("REJECT sum"), ("REJECT!"), ("reject")
  reject reject_count reject_sum : Error
  -- errors.New("impossible to find a decoded word")
  no_word : Error
  -- errors.New("data not found") and ("tree must have at least 1 piece of data")
  data_not_found empty_tree : Error
  -- an error that a library call returned
  library_error : Error

pub data Result {ℓ} (A : Type ℓ) : Type ℓ where
  ok : A → Result A
  err : Error → Result A
  panic : Result A
  stuck : Result A

infixl 5 ◌>>=◌
abbrev pub ◌>>=◌ {ℓ κ} : {A : Type ℓ} {B : Type κ} → Result A → (A → Result B) → Result B
ok a >>= f = f a
err e >>= f = err e
panic >>= f = panic
stuck >>= f = stuck

-- An index out of range panics.
abbrev pub or_panic {ℓ} : {A : Type ℓ} → Option A → Result A
or_panic none = panic
or_panic (some a) = ok a

-- What returns a value has a first step that did.
pub bind_ok {ℓ κ} :
    {A : Type ℓ} {B : Type κ} (r : Result A) (f : A → Result B) (b : B)
    → (r >>= f) ≡ ok b
    → (a : A) × (r ≡ ok a) × (f a ≡ ok b)
bind_ok (ok a) f b h = (a, refl, h)
bind_ok (err e) f b h = cc
bind_ok panic f b h = cc
bind_ok stuck f b h = cc
