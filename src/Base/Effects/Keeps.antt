-- ===== src/Base/Effects/Keeps.antt =====
-- Invariants of effectful code: one rule for each way to build it.
use mathlib.Core.Path.{◌≡◌, refl}
use mathlib.Core.Logic.{inl, inr}
use mathlib.Core.Bool.{Bool, true, false}
use mathlib.Core.Option.{Option, none, some}
use tartarus_nix.Base.Tests.{if◌then◌else◌, Bool-cases}
use tartarus_nix.Base.Effects.{Eff, Outcome, done, raised, pure, raise, lift, modify, ◌>>=◌, ◌>>◌}

-- `m` keeps `P`, whether it returns or raises.
pub record Keeps {S A : Type 0} (P : S → Type 0) (m : Eff S A) : Type 0 where
  pub at : (s : S) → P s → P (m s).1

module _ {S A : Type 0} {P : S → Type 0} where
  pub Keeps-pure : (a : A) → Keeps P (pure a)
  Keeps-pure a = record { at = λ s h. h }

  pub Keeps-raise : Keeps P (raise {A = A})
  Keeps-raise = record { at = λ s h. h }

  pub Keeps-lift : (o : Option A) → Keeps P (lift o)
  Keeps-lift none = record { at = λ s h. h }
  Keeps-lift (some a) = record { at = λ s h. h }

  pub Keeps-if : (b : Bool) (m n : Eff S A) → Keeps P m → Keeps P n → Keeps P (if b then m else n)
  Keeps-if true m n km kn = km
  Keeps-if false m n km kn = kn

  pub Keeps-cases :
      (b : Bool) (m n : Eff S A)
      → (b ≡ true → Keeps P m)
      → (b ≡ false → Keeps P n)
      → Keeps P (if b then m else n)
  Keeps-cases true m n km kn = km refl
  Keeps-cases false m n km kn = kn refl

  -- a test of the state
  pub Keeps-test :
      (b : S → Bool) (m n : Eff S A)
      → ((s : S) → b s ≡ true → P s → P (m s).1)
      → ((s : S) → b s ≡ false → P s → P (n s).1)
      → Keeps P (λ s. if b s then m s else n s)
  Keeps-test b m n km kn = record {
    at = λ s h. elim (Bool-cases (b s)) [ inl e ↦ rw e (km s e h) | inr e ↦ rw e (kn s e h) ];
  }

module _ {S : Type 0} {P : S → Type 0} where
  pub Keeps-modify : (f : S → S) → ((s : S) → P s → P (f s)) → Keeps P (modify f)
  Keeps-modify f h = record { at = h }

module _ {S A B : Type 0} {P : S → Type 0} where
  continue_keeps :
      (r : Outcome A) (f : A → Eff S B) (s : S)
      → ((a : A) → Keeps P (f a))
      → P s
      → P (((λ _. (r, s)) >>= f) s).1
  continue_keeps (done a) f s kf h = (kf a).at s h
  continue_keeps raised f s kf h = h

  pub Keeps-bind :
      (m : Eff S A) (f : A → Eff S B) → Keeps P m → ((a : A) → Keeps P (f a)) → Keeps P (m >>= f)
  Keeps-bind m f km kf = record { at = λ s h. continue_keeps (m s).0 f (m s).1 kf (km.at s h) }

  -- a value that was computed, and then code that knows it
  pub Keeps-given :
      (o : Option A) (f : A → Eff S B)
      → ((a : A) → o ≡ some a → Keeps P (f a))
      → Keeps P (lift o >>= f)
  Keeps-given none f kf = record { at = λ s h. h }
  Keeps-given (some a) f kf = kf a refl

  pub Keeps-then : (m : Eff S A) (n : Eff S B) → Keeps P m → Keeps P n → Keeps P (m >> n)
  Keeps-then m n km kn = record {
    at = λ s h. continue_keeps (m s).0 (λ _. n) (m s).1 (λ _. kn) (km.at s h);
  }

-- Code that keeps more than the code after it.
module _ {S A B : Type 0} {P Q : S → Type 0} where
  continue_weaker :
      (r : Outcome A) (f : A → Eff S B) (s : S)
      → ((s : S) → Q s → P s)
      → ((a : A) → Keeps P (f a))
      → Q s
      → P (((λ _. (r, s)) >>= f) s).1
  continue_weaker (done a) f s weaker kf h = (kf a).at s (weaker s h)
  continue_weaker raised f s weaker kf h = weaker s h

  pub Keeps-weaker :
      (m : Eff S A) (f : A → Eff S B)
      → ((s : S) → Q s → P s)
      → Keeps Q m
      → ((a : A) → Keeps P (f a))
      → (s : S) → Q s
      → P ((m >>= f) s).1
  Keeps-weaker m f weaker km kf s h = continue_weaker (m s).0 f (m s).1 weaker kf (km.at s h)

pub ruleset keeps_rules =
    (Keeps-pure, Keeps-raise, Keeps-lift, Keeps-if, Keeps-modify, Keeps-bind, Keeps-then)
