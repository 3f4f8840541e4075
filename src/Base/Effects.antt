-- ===== src/Base/Effects.antt =====
-- Code that mutates an object and may raise: the state comes back beside the outcome, since what
-- was written before a raise stays written.
pub mod Keeps
pub mod Meets
pub mod Yields
use mathlib.Core.Option.{Option, none, some}

pub data Outcome {ℓ} (A : Type ℓ) : Type ℓ where
  done : A → Outcome A
  raised : Outcome A

abbrev pub Eff {ℓ} : Type ℓ → Type ℓ → Type ℓ
Eff S A = S → Outcome A × S

module _ {ℓ} {S A : Type ℓ} where
  abbrev pub pure : A → Eff S A
  pure a s = (done a, s)

  abbrev pub raise : Eff S A
  raise s = (raised, s)

  -- A pure computation that may raise.
  abbrev pub lift : Option A → Eff S A
  lift none s = (raised, s)
  lift (some a) s = (done a, s)

  abbrev pub gets : (S → A) → Eff S A
  gets f s = (done (f s), s)

module _ {ℓ} {S A B : Type ℓ} where
  abbrev pub continue : Outcome A → (A → Eff S B) → Eff S B
  continue (done a) f s = f a s
  continue raised f s = (raised, s)

  infixl 5 ◌>>=◌ ◌>>◌
  abbrev pub ◌>>=◌ : Eff S A → (A → Eff S B) → Eff S B
  ◌>>=◌ m f s = let (r, s') = m s in continue r f s'

  abbrev pub ◌>>◌ : Eff S A → Eff S B → Eff S B
  ◌>>◌ m k s = let (r, s') = m s in continue r (λ _. k) s'

abbrev pub modify {ℓ} : {S : Type ℓ} → (S → S) → Eff S (Unit {ℓ})
modify f s = (done tt, f s)
