-- ===== src/Fnmatch.antt =====
-- `fnmatch.fnmatchcase` of the Python library, which every rule of the services matches names by:
-- the pattern is compiled to tokens, as `fnmatch.translate` does, and the whole name must fit.
pub mod Laws
pub mod Relation
use tartarus_nix.Base.{
  ℕ, zero, suc, Bool, true, false, ◌&&◌, ◌||◌, not, Option, none, some, List, [], ◌∷◌, ◌++◌, Text,
  length, any, leb, ◌==◌, if◌then◌else◌,
}

pub data Token : Type 0 where
  star one : Token
  lit : ℕ → Token
  -- `[…]` and `[!…]`: negated or not, and the ranges
  class : Bool → List (ℕ × ℕ) → Token

-- The members of a class: `x-y` is a range, and a `-` at either end stands for itself.
ranges : Text → List (ℕ × ℕ)
ranges [] = []
ranges (x ∷ []) = (x, x) ∷ []
ranges (x ∷ d ∷ []) = (x, x) ∷ (d, d) ∷ []
ranges (x ∷ d ∷ y ∷ s) = elim (d == b'-') [
  | true ↦ (x, y) ∷ ranges s
  | false ↦ (x, x) ∷ ranges (d ∷ y ∷ s)
]

-- What stands before the first `]`, and what behind it.
split_close : Text → Option (Text × Text)
split_close [] = none
split_close (c ∷ s) = elim (c == b']') [
  | true ↦ some ([], s)
  | false ↦ elim (split_close s) [ none ↦ none | some (before, behind) ↦ some (c ∷ before, behind) ]
]

-- A `]` that stands first is a member.
split_members : Text → Option (Text × Text)
unfolding split_close
split_members [] = none
split_members (c ∷ s) = elim (c == b']') [
  | true ↦ elim (split_close s) [ none ↦ none | some (before, behind) ↦ some (c ∷ before, behind) ]
  | false ↦ split_close (c ∷ s)
]

-- The class behind a `[`, and the pattern behind its `]`; `none` if no `]` closes it.
parse_class : Text → Option (Token × Text)
unfolding split_members ranges
parse_class [] = none
parse_class (c ∷ s) = elim (c == b'!') [
  | true ↦ elim (split_members s) [
    | none ↦ none
    | some (m, behind) ↦ some (class true (ranges m), behind)
  ]
  | false ↦ elim (split_members (c ∷ s)) [
    | none ↦ none
    | some (m, behind) ↦ some (class false (ranges m), behind)
  ]
]

plain_token : ℕ → Token
plain_token c = if c == b'*' then star else if c == b'?' then one else lit c

-- Each round takes a character at least: the length of the pattern is enough fuel.
compile : ℕ → Text → List Token
unfolding parse_class plain_token
compile zero p = []
compile (suc fuel) [] = []
compile (suc fuel) (c ∷ p) = elim (c == b'[') [
  | true ↦ elim (parse_class p) [
    | none ↦ lit c ∷ compile fuel p
    | some (t, behind) ↦ t ∷ compile fuel behind
  ]
  | false ↦ plain_token c ∷ compile fuel p
]

-- Whether a token takes the character.
unfoldable pub fits : Token → ℕ → Bool
fits star c = true
fits one c = true
fits (lit x) c = c == x
fits (class negated rs) c =
    let inside = any (λ r. leb r.0 c && leb c r.1) rs in if negated then not inside else inside

unfoldable pub accepts : List Token → Text → Bool
unfolding fits
accepts [] [] = true
accepts [] (c ∷ s) = false
accepts (star ∷ p) [] = accepts p []
accepts (star ∷ p) (c ∷ s) = accepts p (c ∷ s) || accepts (star ∷ p) s
accepts (t ∷ p) [] = false
accepts (t ∷ p) (c ∷ s) = fits t c && accepts p s

unfoldable pub fnmatchcase : Text → Text → Bool
unfolding compile accepts
fnmatchcase name pattern = accepts (compile (length pattern) pattern) name

-- `re_compile(r"[*?\[\]]").search(s)`
unfoldable pub has_wildcard : Text → Bool
has_wildcard = any (λ c. c == b'*' || c == b'?' || c == b'[' || c == b']')
