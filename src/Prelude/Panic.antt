-- ===== src/Prelude/Panic.antt =====
-- Code that may panic: `done a` is a normal return, `panic` unwinds.
use mathlib.Core.Path.{◌≡◌, ap}

pub data Exec {ℓ} (A : Type ℓ) : Type ℓ where
  done : A → Exec A
  panic : Exec A

infixl 5 ◌>>=◌
abbrev pub ◌>>=◌ {ℓ κ} : {A : Type ℓ} {B : Type κ} → Exec A → (A → Exec B) → Exec B
done a >>= f = f a
panic >>= f = panic

-- The code returns.
abbrev pub Returns {ℓ} : {A : Type ℓ} → Exec A → Type ℓ
Returns {A} m = (a : A) × (m ≡ done a)

pub Returns-bind {ℓ κ} :
    {A : Type ℓ} {B : Type κ} (m : Exec A) (f : A → B) → Returns m → Returns (m >>= λ a. done (f a))
Returns-bind m f (a, e) = (f a, ap (λ n. n >>= λ x. done (f x)) e)
