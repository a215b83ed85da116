-- ===== src/Common/Faults.antt =====
-- The outcome of a run of C code: a result, or a fault (an access out of bounds, a read of
-- indeterminate memory, a failed assertion).
use mathlib.Core.Path.{◌≡◌, refl, ap, ◌∙◌}
use mathlib.Core.Bool.{Bool, true, false}

pub data Fault : Type 0 where
  out_of_bounds indeterminate assertion null_pointer out_of_fuel : Fault

pub data Outcome {ℓ} (A : Type ℓ) : Type ℓ where
  ok : A → Outcome A
  fault : Fault → Outcome A

infixl 5 ◌>>=◌ ◌>>◌
abbrev pub ◌>>=◌ {ℓ κ} : {A : Type ℓ} {B : Type κ} → Outcome A → (A → Outcome B) → Outcome B
ok a >>= f = f a
fault e >>= f = fault e

abbrev pub ◌>>◌ {ℓ} : {B : Type ℓ} → Outcome (Unit {0}) → Outcome B → Outcome B
m >> k = m >>= λ _. k

pub bind_assoc {ℓ} :
    {A B C : Type ℓ} (m : Outcome A) (f : A → Outcome B) (g : B → Outcome C)
    → m >>= f >>= g ≡ m >>= (λ a. f a >>= g)
bind_assoc (ok a) f g = refl
bind_assoc (fault e) f g = refl

pub bind_cong {ℓ} :
    {A B : Type ℓ} {m n : Outcome A} {f g : A → Outcome B}
    → m ≡ n
    → ((a : A) → f a ≡ g a)
    → m >>= f ≡ n >>= g
bind_cong {m = ok a} {f = f} {g = g} e h = h a ∙ ap (λ k. k >>= g) e
bind_cong {m = fault x} {g = g} e h = ap (λ k. k >>= g) e

-- The run goes on where the test holds, and faults where it does not.
abbrev pub require : Bool → Fault → Outcome (Unit {0})
require true e = ok tt
require false e = fault e

-- The run ends without a fault, in a value with the property.
abbrev pub Returns {ℓ κ} : {A : Type ℓ} → Outcome A → (A → Type κ) → Type (ℓ ⊔ κ)
Returns {A} r P = (a : A) × (r ≡ ok a) × P a
