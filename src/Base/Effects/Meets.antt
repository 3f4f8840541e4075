-- ===== src/Base/Effects/Meets.antt =====
-- What effectful code makes of a condition on the state: a condition on what it leaves, and one on
-- what it returns. One rule for each way to build it.
use mathlib.Core.Path.{◌≡◌, refl}
use mathlib.Core.Bool.{Bool, true, false}
use tartarus_nix.Base.Tests.{if◌then◌else◌}
use tartarus_nix.Base.Effects.{Eff, Outcome, done, raised, pure, raise, ◌>>=◌, ◌>>◌}
use tartarus_nix.Base.Effects.Keeps.{Keeps}

abbrev pub Returns : {S A : Type 0} → (A → S → Type 0) → Outcome A → S → Type 0
Returns Q (done a) s = Q a s
Returns Q raised s = Unit

pub record Meets {S A : Type 0} (P R : S → Type 0) (Q : A → S → Type 0) (m : Eff S A) : Type 0 where
  pub at : (s : S) → P s → R (m s).1 × Returns Q (m s).0 (m s).1

module _ {S A : Type 0} {P R : S → Type 0} {Q : A → S → Type 0} where
  pub Meets-gets :
      (f : S → A) → ((s : S) → P s → R s × Q (f s) s) → Meets P R Q (λ s. (done (f s), s))
  Meets-gets f h = record { at = λ s p. h s p }

  pub Meets-pure : (a : A) → ((s : S) → P s → R s × Q a s) → Meets P R Q (pure a)
  Meets-pure a h = record { at = λ s p. h s p }

  pub Meets-raise : ((s : S) → P s → R s) → Meets P R Q raise
  Meets-raise h = record { at = λ s p. (h s p, tt) }

  pub Meets-if :
      (b : Bool) (m n : Eff S A)
      → (b ≡ true → Meets P R Q m)
      → (b ≡ false → Meets P R Q n)
      → Meets P R Q (if b then m else n)
  Meets-if true m n km kn = km refl
  Meets-if false m n km kn = kn refl

module _ {S A : Type 0} {R R' : S → Type 0} {Q : A → S → Type 0} where
  pub Meets-weaken :
      (m : Eff S A) → ((s : S) → R s → R' s) → {P : S → Type 0} → Meets P R Q m → Meets P R' Q m
  Meets-weaken m h k = record { at = λ s p. (h _ (k.at s p).0, (k.at s p).1) }

module _ {S A B : Type 0} {M R : S → Type 0} {T : A → S → Type 0} {Q : B → S → Type 0} where
  continue-Meets :
      (r : Outcome A) (f : A → Eff S B) (s : S)
      → ((s : S) → M s → R s)
      → ((a : A) → Meets (λ t. M t × T a t) R Q (f a))
      → M s
      → Returns T r s
      → R (((λ _. (r, s)) >>= f) s).1
        × Returns Q (((λ _. (r, s)) >>= f) s).0 (((λ _. (r, s)) >>= f) s).1
  continue-Meets (done a) f s g k p t = (k a).at s (p, t)
  continue-Meets raised f s g k p t = (g s p, tt)

  pub Meets-bind :
      {P : S → Type 0} (m : Eff S A) (f : A → Eff S B)
      → ((s : S) → M s → R s)
      → Meets P M T m
      → ((a : A) → Meets (λ t. M t × T a t) R Q (f a))
      → Meets P R Q (m >>= f)
  Meets-bind m f g km k = record {
    at = λ s p. continue-Meets (m s).0 f (m s).1 g k (km.at s p).0 (km.at s p).1;
  }

module _ {S A : Type 0} where
  pub trivially_returned : (r : Outcome A) (s : S) → Returns (λ a t. Unit) r s
  trivially_returned (done a) s = tt
  trivially_returned raised s = tt

  pub Meets-Keeps : {P : S → Type 0} (m : Eff S A) → Keeps P m → Meets P P (λ a s. Unit) m
  Meets-Keeps m k = record { at = λ s p. (k.at s p, trivially_returned (m s).0 (m s).1) }

  pub Keeps-Meets : {P : S → Type 0} {Q : A → S → Type 0} (m : Eff S A) → Meets P P Q m → Keeps P m
  Keeps-Meets m k = record { at = λ s p. (k.at s p).0 }

module _ {S A B : Type 0} {P R : S → Type 0} {Q : B → S → Type 0} where
  -- Code that keeps the condition, and then code that meets it.
  pub Meets-then :
      (m : Eff S A) (n : Eff S B)
      → ((s : S) → P s → R s)
      → Keeps P m
      → Meets P R Q n
      → Meets P R Q (m >> n)
  Meets-then m n g km kn =
      Meets-bind {P = P} m (λ _. n) g (Meets-Keeps m km) (λ a. record { at = λ t q. kn.at t q.0 })
