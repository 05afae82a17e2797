-- ===== src/Prelude/Results.antt =====
-- Rust's `Result`, with `?` as the bind of a `do` block.

use mathlib.Core.Path.{◌≡◌, refl, ap, subst}

pub data Result {ℓ κ} (E : Type ℓ) (A : Type κ) : Type (ℓ ⊔ κ) where
  ok : A → Result E A
  err : E → Result E A

infixl 5 ◌>>=◌ ◌>>◌
abbrev pub ◌>>=◌ {ℓ κ ι} :
    {E : Type ℓ} {A : Type κ} {B : Type ι} → Result E A → (A → Result E B) → Result E B
ok a >>= f = f a
err e >>= f = err e

abbrev pub ◌>>◌ {ℓ κ} : {E : Type ℓ} {B : Type κ} → Result E (Unit {0}) → Result E B → Result E B
m >> k = m >>= λ _. k

-- What a chain of steps that succeeds has done.
module _ {ℓ κ} {E : Type ℓ} {A : Type κ} where
  pub err-ne-ok : (x : E) (a : A) → Path (Result E A) (err x) (ok a) → ⊥
  err-ne-ok x a e =
      subst {A = Result E A} (λ r. elim r as (λ _. Type 0) [ ok _ ↦ ⊥ | err _ ↦ Unit ]) e tt

  value_or : A → Result E A → A
  value_or d (ok x) = x
  value_or d (err x) = d

  pub ok-injective : (a b : A) → Path (Result E A) (ok a) (ok b) → a ≡ b
  unfolding value_or
  ok-injective a b e = ap (value_or a) e

module _ {ℓ κ} {E : Type ℓ} {A : Type κ} where
  pub bind_ok {ι} :
      {B : Type ι} (m : Result E A) (f : A → Result E B) (b : B)
      → (m >>= f) ≡ ok b
      → (a : A) × (m ≡ ok a) × (f a ≡ ok b)
  bind_ok (ok a) f b e = (a, refl, e)
  bind_ok (err x) f b e = absurd (err-ne-ok x b e)
