-- ===== src/Base/Go.antt =====
-- A computation that returns or panics.
use mathlib.Core.Path.{◌≡◌, refl, ap}
use totem.Base.ByteText.{Text}

pub data Go {ℓ} (A : Type ℓ) : Type ℓ where
  returns : A → Go A
  panics : Text → Go A

infixl 5 ◌>>=◌
abbrev pub ◌>>=◌ {ℓ κ} : {A : Type ℓ} {B : Type κ} → Go A → (A → Go B) → Go B
returns a >>= f = f a
panics m >>= f = panics m

-- A bind of what returns goes on with its value.
pub >>=-returns {ℓ κ} :
    {A : Type ℓ} {B : Type κ} (m : Go A) (a : A) (f : A → Go B) → m ≡ returns a → (m >>= f) ≡ f a
>>=-returns m a f h = ap (λ x. x >>= f) h

-- Inversion of a bind that returned.
pub >>=-eq-returns {ℓ κ} :
    {A : Type ℓ} {B : Type κ} (m : Go A) (f : A → Go B) {b : B}
    → (m >>= f) ≡ returns b
    → (a : A) × (m ≡ returns a) × (f a ≡ returns b)
>>=-eq-returns (returns a) f h = (a, refl, h)
>>=-eq-returns (panics m) f h = cc

pub returns_inj {ℓ} : {A : Type ℓ} {a b : A} → ◌≡◌ {A = Go A} (returns a) (returns b) → a ≡ b
returns_inj h = cc
