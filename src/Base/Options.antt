-- ===== src/Base/Options.antt =====
-- Code that may raise and keeps no state: `none` is the exception.
use mathlib.Core.Path.{◌≡◌, refl}
use mathlib.Core.Option.{Option, none, some}
use mathlib.Core.Bool.{Bool, true, false}

infixl 5 ◌>>=◌
abbrev pub ◌>>=◌ {ℓ κ} : {A : Type ℓ} {B : Type κ} → Option A → (A → Option B) → Option B
none >>= f = none
some a >>= f = f a

infixl 5 ◌>>◌
abbrev pub ◌>>◌ {ℓ κ} : {A : Type ℓ} {B : Type κ} → Option A → Option B → Option B
m >> k = m >>= λ _. k

-- `if not test: raise ...`
abbrev pub require : Bool → Option (Unit {0})
require true = some tt
require false = none

-- A chain that returns has returned at each step.
pub bind_inv {ℓ κ} :
    {A : Type ℓ} {B : Type κ} (o : Option A) (f : A → Option B) (b : B)
    → (o >>= f) ≡ some b
    → (a : A) × (o ≡ some a) × (f a ≡ some b)
bind_inv none f b e = absurd (cc)
bind_inv (some a) f b e = (a, refl, e)

pub require-inv : (test : Bool) (u : Unit {0}) → require test ≡ some u → test ≡ true
require-inv true u e = refl
require-inv false u e = absurd (cc)
