-- ===== src/Base/ByteStrings.antt =====
-- Byte strings and texts as lists of numbers: a byte is a number below 256, a character its code
-- point.
use Prim.Native.Nat.{ℕ}
use Prim.Native.Char.{code}
use Prim.Native.String.{String}
use mathlib.Core.Path.{◌≡◌, refl}
use mathlib.Core.Logic.{◌↔◌, ◌⊎◌, inl, inr}
use mathlib.Core.Bool.{Bool, true, false, ◌&&◌, ◌||◌}
use mathlib.Core.List.{List, [], ◌∷◌}
use native.Mathlib.Omega.{arith}
use tartarus_nix.Base.Tests.{◌==◌, or-eq-true}

abbrev pub Bytes : Type 0
Bytes = List ℕ

abbrev pub Text : Type 0
Text = List ℕ

abbrev pub codes : String → Text
codes String.[] = []
codes (String.◌∷◌ c s) = code c ∷ codes s

-- `a == b` of two byte strings, or of two texts.
unfoldable pub bytes_eq : List ℕ → List ℕ → Bool
bytes_eq [] [] = true
bytes_eq [] (y ∷ ys) = false
bytes_eq (x ∷ xs) [] = false
bytes_eq (x ∷ xs) (y ∷ ys) = (x == y) && bytes_eq xs ys

pub bytes_eq_refl : (xs : List ℕ) → bytes_eq xs xs ≡ true
unfolding bytes_eq
bytes_eq_refl [] = refl
bytes_eq_refl (x ∷ xs) = ground (arith, bytes_eq_refl xs)

eq_of_bytes_eq : (xs ys : List ℕ) → bytes_eq xs ys ≡ true → xs ≡ ys
unfolding bytes_eq
eq_of_bytes_eq [] [] h = refl
eq_of_bytes_eq [] (y ∷ ys) h = cc
eq_of_bytes_eq (x ∷ xs) [] h = cc
eq_of_bytes_eq (x ∷ xs) (y ∷ ys) h = ground (arith, eq_of_bytes_eq xs ys)

pub bytes_eq_iff : (xs ys : List ℕ) → (bytes_eq xs ys ≡ true) ↔ (xs ≡ ys)
bytes_eq_iff xs ys = (eq_of_bytes_eq xs ys, λ e. rw e (bytes_eq_refl ys))

-- `a in xs`
unfoldable pub contains : Bytes → List Bytes → Bool
contains a [] = false
contains a (x ∷ xs) = bytes_eq a x || contains a xs

-- The members of a list, as a predicate.
abbrev pub Among : Bytes → List Bytes → Type 0
Among a [] = ⊥
Among a (x ∷ xs) = (a ≡ x) ⊎ Among a xs

pub contains-Among : (a : Bytes) (xs : List Bytes) → contains a xs ≡ true → Among a xs
unfolding contains
contains-Among a [] h = cc
contains-Among a (x ∷ xs) h = elim (or-eq-true h) [
  | inl e ↦ inl ((bytes_eq_iff a x).0 e)
  | inr e ↦ inr (contains-Among a xs e)
]

pub Among-contains : (a : Bytes) (xs : List Bytes) → Among a xs → contains a xs ≡ true
unfolding contains
Among-contains a [] h = absurd h
Among-contains a (x ∷ xs) (inl e) = ground (arith, (bytes_eq_iff a x).1 e)
Among-contains a (x ∷ xs) (inr h) = ground (arith, Among-contains a xs h)

pub contains_iff : (a : Bytes) (xs : List Bytes) → (contains a xs ≡ true) ↔ Among a xs
contains_iff a xs = (contains-Among a xs, Among-contains a xs)

-- `s.startswith(p)`
unfoldable pub starts_with : List ℕ → List ℕ → Bool
starts_with [] s = true
starts_with (x ∷ p) [] = false
starts_with (x ∷ p) (y ∷ s) = (x == y) && starts_with p s
