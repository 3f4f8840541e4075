-- ===== src/Mount/Paths/Normal.antt =====
-- What a normal path looks like, and that a target is accepted only in that form.
use tartarus_nix.Base.{
  ℕ, ◌≡◌, refl, sym, ap, ◌⊎◌, inl, inr, Bool, true, false, not, ◌&&◌, Option, some, List, [], ◌∷◌,
  ◌++◌, Text, codes, bytes_eq, starts_with, all, any, is_empty, arith, ◌==◌, Bool-cases,
  if◌then◌else◌,
}
use mathlib.Core.Path.{subst}
use tartarus_nix.Base.Options.{bind_inv, require, require-inv}
use tartarus_nix.Json.{Value, string}
use tartarus_nix.Mount.Paths.{
  slash, split, push, collapse, join_reversed, leading, components, normpath, reserves,
  forbidden_targets, validate_target,
}

-- A component without a slash.
abbrev pub slashless : Text → Bool
slashless = all (λ c. not (c == slash))

-- A component that names an entry of its directory.
abbrev pub plain : Text → Bool
plain comp =
    not (bytes_eq comp [])
    && not (bytes_eq comp (codes "."))
    && not (bytes_eq comp (codes ".."))
    && slashless comp

both : (a b : Bool) → (a && b) ≡ true → (a ≡ true) × (b ≡ true)
both a b e = ground arith

negated : (b : Bool) → not b ≡ true → b ≡ false
negated b e = ground arith

apart : {b : Bool} → b ≡ true → b ≡ false → ⊥
apart {b} e f = absurd (ground (arith, e, f))

split-slashless :
    (path : Text) → (slashless (split path).0 ≡ true) × (all slashless (split path).1 ≡ true)
unfolding split
split-slashless [] = (refl, refl)
split-slashless (c ∷ path) =
    let (head, rest) = split-slashless path in
    elim (Bool-cases (c == slash)) [
      | inl e ↦ rw e (refl, rw head rest)
      | inr e ↦ rw e (rw e head, rest)
    ]

-- Below the root a component is pushed only if it is plain.
push-plain :
    (stack : List Text) (comp : Text)
    → all plain stack ≡ true
    → slashless comp ≡ true
    → all plain (push true stack comp) ≡ true
unfolding push
push-plain [] comp h s = ground arith
push-plain (top ∷ stack) comp h s = ground arith

collapse-plain :
    (stack later : List Text)
    → all plain stack ≡ true
    → all slashless later ≡ true
    → all plain (collapse true stack later) ≡ true
unfolding collapse
collapse-plain stack [] h s = h
collapse-plain stack (comp ∷ later) h s =
    collapse-plain (push true stack comp) later
      (push-plain stack comp h (both (slashless comp) _ s).0) (both (slashless comp) _ s).1

-- A component of a path that is relative to no root.
abbrev pub solid : Text → Bool
solid comp = not (is_empty comp) && slashless comp

push-solid :
    (stack : List Text) (comp : Text)
    → all solid stack ≡ true
    → slashless comp ≡ true
    → all solid (push false stack comp) ≡ true
unfolding push bytes_eq
push-solid [] [] h s = ground arith
push-solid [] (c ∷ comp) h s = ground arith
push-solid (top ∷ stack) [] h s = ground arith
push-solid (top ∷ stack) (c ∷ comp) h s = ground arith

collapse-solid :
    (stack later : List Text)
    → all solid stack ≡ true
    → all slashless later ≡ true
    → all solid (collapse false stack later) ≡ true
unfolding collapse
collapse-solid stack [] h s = h
collapse-solid stack (comp ∷ later) h s =
    collapse-solid (push false stack comp) later
      (push-solid stack comp h (both (slashless comp) _ s).0) (both (slashless comp) _ s).1

abbrev pub Unrooted : Text → Type 0
Unrooted t = (x : ℕ) × (rest : Text) × (t ≡ x ∷ rest) × ((x == slash) ≡ false)

solid-Unrooted : (comp : Text) → solid comp ≡ true → Unrooted comp
solid-Unrooted [] s = absurd (cc)
solid-Unrooted (x ∷ rest) s = (x, rest, refl, ground arith)

pub join-Unrooted :
    (comp : Text) (stack : List Text)
    → all solid (comp ∷ stack) ≡ true
    → Unrooted (join_reversed (comp ∷ stack))
unfolding join_reversed
join-Unrooted comp [] s = solid-Unrooted comp (both (solid comp) _ s).0
join-Unrooted comp (below ∷ stack) s =
    let (x, rest, shape, apart) = join-Unrooted below stack (both (solid comp) _ s).1 in
    (x, rest ++ slash ∷ comp, ap (λ l. l ++ slash ∷ comp) shape, apart)

join-relative :
    (stack : List Text)
    → all solid stack ≡ true
    → starts_with
        (slash ∷ [])
        (if is_empty (join_reversed stack) then codes "." else join_reversed stack)
      ≡ false
unfolding join_reversed starts_with
join-relative [] s = refl
join-relative (comp ∷ stack) s =
    let (x, rest, shape, apart) = join-Unrooted comp stack s in
    subst (λ l. starts_with (slash ∷ []) (if is_empty l then codes "." else l) ≡ false) (sym shape)
      (ground (arith, apart))

all-components :
    (rooted : Bool) (good : Text → Bool) (path : Text)
    → ((later : List Text)
        → all slashless later ≡ true
        → all good (collapse rooted [] later) ≡ true)
    → starts_with (slash ∷ []) path ≡ rooted
    → all good (components path) ≡ true
unfolding components
all-components rooted good path collapses e =
    let (head, rest) = split-slashless path in
    rw e (collapses ((split path).0 ∷ (split path).1) (rw head rest))

-- A path from the root: its components are plain, and one slash is before them, or two.
pub record Normal (t : Text) : Type 0 where
  pub stack : List Text
  pub shape : (t ≡ slash ∷ join_reversed stack) ⊎ (t ≡ slash ∷ slash ∷ join_reversed stack)
  pub named : all plain stack ≡ true

pub normpath-rooted : (path : Text) → starts_with (slash ∷ []) path ≡ true → Normal (normpath path)
unfolding normpath leading
normpath-rooted path e =
    let named = all-components true plain path (λ later. collapse-plain [] later refl) e in
    elim (Bool-cases (
      starts_with (slash ∷ slash ∷ []) path
      && not (starts_with (slash ∷ slash ∷ slash ∷ []) path))) [
        | inl two ↦ record { stack = components path; shape = inr (rw (two) refl); named = named }
        | inr one ↦ record {
          stack = components path;
          shape = inl (rw (one, e) refl);
          named = named;
        }
      ]

no_two :
    (path : Text)
    → starts_with (slash ∷ []) path ≡ false
    → starts_with (slash ∷ slash ∷ []) path ≡ false
unfolding starts_with
no_two [] e = refl
no_two (c ∷ path) e = ground (arith, e)

normpath-relative :
    (path : Text)
    → starts_with (slash ∷ []) path ≡ false
    → starts_with (slash ∷ []) (normpath path) ≡ false
unfolding normpath leading
normpath-relative path e =
    rw (e, no_two path e)
      (join-relative (components path)
        (all-components false solid path (λ later. collapse-solid [] later refl) e))

-- A target that is accepted is absolute and normal, so that no component of it is empty, `.` or `..`,
-- and it is none of the reserved targets and below none of them but the root, as texts.
pub validate_target-Normal :
    (target : Option Value) (t : Text)
    → validate_target target ≡ some t
    → Normal t × (any (reserves t) forbidden_targets ≡ false)
unfolding validate_target
validate_target-Normal (some (string (c ∷ target))) t e =
    let (_, absolute, e1) =
      bind_inv (require (starts_with (slash ∷ []) (normpath (c ∷ target)))) _ _ e in
    let (_, allowed, e2) =
      bind_inv (require (not (any (reserves (normpath (c ∷ target))) forbidden_targets))) _ _ e1 in
    let same : normpath (c ∷ target) ≡ t = cc in
    elim (Bool-cases (starts_with (slash ∷ []) (c ∷ target))) [
      | inl rooted ↦
          subst (λ p. Normal p × (any (reserves p) forbidden_targets ≡ false)) same
            (normpath-rooted (c ∷ target) rooted, negated _ (require-inv _ _ allowed))
      | inr relative ↦
          absurd (apart (require-inv _ _ absolute) (normpath-relative (c ∷ target) relative))
    ]
validate_target-Normal _ t e = absurd (cc)
