-- ===== src/Base/Numerals.antt =====
-- The decimal text of a number, and Python's `int` of a text in a base up to ten.
use Prim.Native.Nat.{ℕ, zero, suc, ◌+◌, ◌-◌, ◌*◌, ◌/◌, ◌%◌}
use mathlib.Core.Bool.{Bool, true, false, ◌&&◌, ◌||◌}
use mathlib.Core.List.{[], ◌∷◌}
use mathlib.Core.Option
use mathlib.Core.Option.{Option, none, some}
use tartarus_nix.Base.Tests.{ltb, leb, ◌==◌, if◌then◌else◌}
use tartarus_nix.Base.Integers.{ℤ, pos, negsuc}
use tartarus_nix.Base.ByteStrings.{Text}

digits_from : ℕ → ℕ → Text → Text
digits_from zero n later = later
digits_from (suc fuel) n later = elim (ltb n 10) [
  | true ↦ (48 + n) ∷ later
  | false ↦ digits_from fuel (n / 10) ((48 + n % 10) ∷ later)
]

-- `str(n)`: a number has fewer digits than its successor counts.
unfoldable pub decimal : ℕ → Text
unfolding digits_from
decimal n = digits_from (suc n) n []

-- `str` of an integer
unfoldable pub shown : ℤ → Text
unfolding decimal
shown (pos n) = decimal n
shown (negsuc n) = 45 ∷ decimal (suc n)

-- What a character is within a number.
pub data Glyph : Type 0 where
  underscore : Glyph
  digit : ℕ → Glyph
  other : Glyph

glyph : ℕ → ℕ → Glyph
glyph base c =
    if c == 95 then underscore else if leb 48 c && ltb c (48 + base) then digit (c - 48) else other

-- The digits after those read, which end in a digit or not. An underscore stands between digits.
scan_digits : ℕ → ℕ → Bool → Text → Option ℕ
unfolding glyph
scan_digits base n after [] = if after then some n else none
scan_digits base n after (c ∷ s) = elim (glyph base c) [
  | underscore ↦ elim after [ true ↦ scan_digits base n false s | false ↦ none ]
  | digit d ↦ scan_digits base (n * base + d) true s
  | other ↦ none
]

-- In base 8 a prefix `0o` may stand before the digits, with an underscore behind it.
unsigned : ℕ → Text → Option ℕ
unfolding scan_digits
unsigned base (z ∷ o ∷ s) = elim (base == 8 && (z == 48 && (o == 111 || o == 79))) [
  | true ↦ elim s [ [] ↦ none | c ∷ s' ↦ scan_digits base 0 (c == 95) (c ∷ s') ]
  | false ↦ scan_digits base 0 false (z ∷ o ∷ s)
]
unsigned base s = scan_digits base 0 false s

negated : ℕ → ℤ
negated zero = pos zero
negated (suc n) = negsuc n

signed : ℕ → Text → Option ℤ
unfolding unsigned negated
signed base [] = none
signed base (c ∷ s) = elim (c == 45) [
  | true ↦ Option.map negated (unsigned base s)
  | false ↦ Option.map pos (unsigned base (if c == 43 then s else c ∷ s))
]

is_space : ℕ → Bool
is_space c = (leb 9 c && leb c 13) || (leb 28 c && leb c 32) || (c == 133) || (c == 160)

without_leading : Text → Text
unfolding is_space
without_leading [] = []
without_leading (c ∷ s) = elim (is_space c) [ true ↦ without_leading s | false ↦ c ∷ s ]

without_trailing : Text → Text
unfolding is_space
without_trailing [] = []
without_trailing (c ∷ s) = elim (without_trailing s) [
  | [] ↦ if is_space c then [] else c ∷ []
  | d ∷ s' ↦ c ∷ d ∷ s'
]

-- `int(s, base)` of a text of ASCII and Latin-1 characters
unfoldable pub int_of : ℕ → Text → Option ℤ
unfolding signed without_leading without_trailing
int_of base s = signed base (without_trailing (without_leading s))
