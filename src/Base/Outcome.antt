-- ===== src/Base/Outcome.antt =====
-- The result of a Go function that may return an error or panic.

use mathlib.Core.Path.{◌≡◌, refl}

pub data Outcome {ℓ} (E A : Type ℓ) : Type ℓ where
  ok : A → Outcome E A
  err : E → Outcome E A
  panic : Outcome E A

infixl 5 ◌>>=◌
abbrev pub ◌>>=◌ {ℓ} : {E A B : Type ℓ} → Outcome E A → (A → Outcome E B) → Outcome E B
ok a >>= f = f a
err e >>= f = err e
panic >>= f = panic

module _ {ℓ} {E A B C : Type ℓ} where
  pub bind_assoc :
      (m : Outcome E A) (f : A → Outcome E B) (g : B → Outcome E C)
      → ((m >>= f) >>= g) ≡ (m >>= λ a. f a >>= g)
  bind_assoc (ok a) f g = refl
  bind_assoc (err e) f g = refl
  bind_assoc panic f g = refl

module _ {ℓ} {E A B : Type ℓ} where
  pub bind_cong :
      (m : Outcome E A) (f g : A → Outcome E B) → ((a : A) → f a ≡ g a) → (m >>= f) ≡ (m >>= g)
  bind_cong (ok a) f g h = h a
  bind_cong (err e) f g h = refl
  bind_cong panic f g h = refl
