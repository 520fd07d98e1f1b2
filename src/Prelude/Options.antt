-- ===== src/Prelude/Options.antt =====
-- Chains of fallible steps.
use mathlib.Core.Path.{◌≡◌, refl}
use mathlib.Core.Option.{Option, none, some}

infixl 5 ◌>>=◌
abbrev pub ◌>>=◌ {ℓ κ} : {A : Type ℓ} {B : Type κ} → Option A → (A → Option B) → Option B
none >>= f = none
some a >>= f = f a

module _ {A B : Type 0} where
  pub >>=-cong : (m : Option A) {f g : A → Option B} → ((a : A) → f a ≡ g a) → (m >>= f) ≡ (m >>= g)
  >>=-cong none h = refl
  >>=-cong (some a) h = h a

  pub >>=-assoc :
      {C : Type 0} (m : Option A) (f : A → Option B) (g : B → Option C)
      → ((m >>= f) >>= g) ≡ (m >>= λ a. f a >>= g)
  >>=-assoc none f g = refl
  >>=-assoc (some a) f g = refl
