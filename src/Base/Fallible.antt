-- ===== src/Base/Fallible.antt =====
-- Rust's `Result`, with a third constructor for a panic, which unwinds past every caller.
use mathlib.Core.Path.{◌≡◌, refl}
use mathlib.Core.Logic.{◌⊎◌, inl, inr}
use mathlib.Core.Option.{Option, none, some}

pub data Result {ℓ κ} (E : Type ℓ) (A : Type κ) : Type (ℓ ⊔ κ) where
  panic : Result E A
  ok : A → Result E A
  err : E → Result E A

module _ {ℓ κ} {E : Type ℓ} {A : Type κ} where
  -- `Option::unwrap` and `Option::expect`.
  abbrev pub unwrap : Option A → Result E A
  unwrap (some a) = ok a
  unwrap none = panic

  -- `Option::ok_or`, followed by `?`.
  abbrev pub ok_or : Option A → E → Result E A
  ok_or (some a) e = ok a
  ok_or none e = err e

  module _ {ι} where
    -- `Result::map_err`.
    abbrev pub map_err : {F : Type ι} → (E → F) → Result E A → Result F A
    map_err f panic = panic
    map_err f (ok a) = ok a
    map_err f (err e) = err (f e)

    -- `?`: what is no value ends the caller.
    infixl 5 ◌>>=◌
    abbrev pub ◌>>=◌ : {B : Type ι} → Result E A → (A → Result E B) → Result E B
    panic >>= rest = panic
    err e >>= rest = err e
    ok a >>= rest = rest a

    -- What has a value had one before.
    pub >>=-eq-ok :
        {B : Type ι} (first : Result E A) (rest : A → Result E B) {last : B}
        → (first >>= rest) ≡ ok last
        → (a : A) × (first ≡ ok a) × (rest a ≡ ok last)
    >>=-eq-ok panic rest e = cc
    >>=-eq-ok (err _) rest e = cc
    >>=-eq-ok (ok a) rest e = (a, refl, e)

  -- The three cases of a result.
  pub Result-cases :
      (r : Result E A) → (r ≡ panic) ⊎ (((e : E) × (r ≡ err e)) ⊎ ((a : A) × (r ≡ ok a)))
  Result-cases panic = inl refl
  Result-cases (err e) = inr (inl (e, refl))
  Result-cases (ok a) = inr (inr (a, refl))
