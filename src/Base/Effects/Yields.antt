-- ===== src/Base/Effects/Yields.antt =====
-- What holds of every value that code returns, from any state.
use tartarus_nix.Base.Effects.{Eff, Outcome, done, raised, pure, raise, ◌>>=◌, ◌>>◌}

abbrev pub IfDone : {A : Type 0} → (A → Type 0) → Outcome A → Type 0
IfDone Q (done a) = Q a
IfDone Q raised = Unit

pub record Yields {S A : Type 0} (Q : A → Type 0) (m : Eff S A) : Type 0 where
  pub at : (s : S) → IfDone Q (m s).0

module _ {S A : Type 0} {Q : A → Type 0} where
  pub Yields-pure : (a : A) → Q a → Yields {S = S} Q (pure a)
  Yields-pure a q = record { at = λ s. q }

  pub Yields-raise : Yields {S = S} Q raise
  Yields-raise = record { at = λ s. tt }

module _ {S A B : Type 0} {Q : B → Type 0} where
  continue-Yields :
      (r : Outcome A) (f : A → Eff S B) (s : S)
      → ((a : A) → Yields Q (f a))
      → IfDone Q (((λ _. (r, s)) >>= f) s).0
  continue-Yields (done a) f s k = (k a).at s
  continue-Yields raised f s k = tt

  pub Yields-bind :
      (m : Eff S A) (f : A → Eff S B) → ((a : A) → Yields Q (f a)) → Yields Q (m >>= f)
  Yields-bind m f k = record { at = λ s. continue-Yields (m s).0 f (m s).1 k }

  pub Yields-then : (m : Eff S A) (n : Eff S B) → Yields Q n → Yields Q (m >> n)
  Yields-then m n k = record { at = λ s. continue-Yields (m s).0 (λ _. n) (m s).1 (λ _. k) }

pub ruleset yields_rules = (Yields-raise, Yields-bind, Yields-then)
