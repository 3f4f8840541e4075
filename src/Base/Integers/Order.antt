-- ===== src/Base/Integers/Order.antt =====
-- The order of Python's integers, and that the test of it decides it.
use native.Mathlib.Omega.{arith}
use mathlib.Core.Path.{◌≡◌}
use mathlib.Core.Bool.{true, false}
use tartarus_nix.Base.{◌≤◌, ◌<◌}
use tartarus_nix.Base.Integers.{ℤ, pos, negsuc, ltb_int}

infix 40 ◌≤ℤ◌ ◌<ℤ◌
abbrev pub ◌≤ℤ◌ : ℤ → ℤ → Type 0
pos m ≤ℤ pos n = m ≤ n
pos m ≤ℤ negsuc n = ⊥
negsuc m ≤ℤ pos n = Unit {0}
negsuc m ≤ℤ negsuc n = n ≤ m

abbrev pub ◌<ℤ◌ : ℤ → ℤ → Type 0
pos m <ℤ pos n = m < n
pos m <ℤ negsuc n = ⊥
negsuc m <ℤ pos n = Unit {0}
negsuc m <ℤ negsuc n = n < m

pub ltb_int-true : (a b : ℤ) → ltb_int a b ≡ true → a <ℤ b
unfolding ltb_int
ltb_int-true (pos m) (pos n) h = ground arith
ltb_int-true (pos m) (negsuc n) h = absurd (ground (arith, h))
ltb_int-true (negsuc m) (pos n) h = tt
ltb_int-true (negsuc m) (negsuc n) h = ground arith

pub ltb_int-false : (a b : ℤ) → ltb_int a b ≡ false → b ≤ℤ a
unfolding ltb_int
ltb_int-false (pos m) (pos n) h = ground arith
ltb_int-false (pos m) (negsuc n) h = tt
ltb_int-false (negsuc m) (pos n) h = absurd (ground (arith, h))
ltb_int-false (negsuc m) (negsuc n) h = ground arith
