-- ===== src/Mount/Paths/Stable.antt =====
-- A normal path is left as it is.
use tartarus_nix.Base.{
  ◌≡◌, refl, sym, ap, inl, inr, true, false, List, [], ◌∷◌, ◌++◌, Text, bytes_eq, starts_with, all,
  arith, ◌==◌, Bool-cases,
}
use mathlib.Core.Path.{subst}
use tartarus_nix.Mount.Paths.{
  slash, split, push, collapse, join_reversed, leading, components, normpath,
}
use tartarus_nix.Mount.Paths.Normal.{slashless, plain, solid, join-Unrooted, Normal}

abbrev parts : Text → List Text
parts path = (split path).0 ∷ (split path).1

parts-slashless : (comp : Text) → slashless comp ≡ true → parts comp ≡ comp ∷ []
unfolding split
parts-slashless [] s = refl
parts-slashless (c ∷ comp) s =
    let other : (c == slash) ≡ false = ground arith in
    let rest : slashless comp ≡ true = ground arith in
    let tail = parts-slashless comp rest in
    rw other (ap (λ (l : List Text). elim l [ [] ↦ [] | p ∷ ps ↦ (c ∷ p) ∷ ps ]) tail)

parts-append :
    (s comp : Text) → slashless comp ≡ true → parts (s ++ slash ∷ comp) ≡ parts s ++ comp ∷ []
unfolding split
parts-append [] comp h = ap (λ (l : List Text). [] ∷ l) (parts-slashless comp h)
parts-append (c ∷ s) comp h = elim (Bool-cases (c == slash)) [
  | inl e ↦ rw e (ap (λ (l : List Text). [] ∷ l) (parts-append s comp h))
  | inr e ↦
      rw e
        (ap (λ (l : List Text). elim l [ [] ↦ [] | p ∷ ps ↦ (c ∷ p) ∷ ps ]) (parts-append s comp h))
]

collapse-snoc :
    (stack later : List Text) (comp : Text)
    → collapse true stack (later ++ comp ∷ []) ≡ push true (collapse true stack later) comp
unfolding collapse
collapse-snoc stack [] comp = refl
collapse-snoc stack (x ∷ later) comp = collapse-snoc (push true stack x) later comp

push-on :
    (stack : List Text) (comp : Text) → plain comp ≡ true → push true stack comp ≡ comp ∷ stack
unfolding push
push-on [] comp h = ground arith
push-on (top ∷ stack) comp h = ground arith

collapse-parts :
    (stack : List Text)
    → all plain stack ≡ true
    → collapse true [] (parts (join_reversed stack)) ≡ stack
unfolding join_reversed split collapse push bytes_eq
collapse-parts [] h = refl
collapse-parts (comp ∷ []) h =
    let named : plain comp ≡ true = ground arith in
    let whole : slashless comp ≡ true = ground arith in
    rw (parts-slashless comp whole) (push-on [] comp named)
collapse-parts (comp ∷ below ∷ stack) h =
    let named : plain comp ≡ true = ground arith in
    let whole : slashless comp ≡ true = ground arith in
    let rest : all plain (below ∷ stack) ≡ true = ground arith in
    rw
      (
        parts-append (join_reversed (below ∷ stack)) comp whole,
        collapse-snoc [] (parts (join_reversed (below ∷ stack))) comp,
        collapse-parts (below ∷ stack) rest,
      )
      (push-on (below ∷ stack) comp named)

plain-solid : (stack : List Text) → all plain stack ≡ true → all solid stack ≡ true
unfolding bytes_eq
plain-solid [] h = refl
plain-solid ([] ∷ stack) h = absurd (cc)
plain-solid ((c ∷ comp) ∷ stack) h = ground (arith, plain-solid stack)

-- What does not start with a slash.
no_slash :
    (stack : List Text)
    → all plain stack ≡ true
    → starts_with (slash ∷ []) (join_reversed stack) ≡ false
unfolding starts_with join_reversed
no_slash [] h = refl
no_slash (comp ∷ stack) h =
    let (x, rest, shape, apart) = join-Unrooted comp stack (plain-solid (comp ∷ stack) h) in
    subst (λ l. starts_with (slash ∷ []) l ≡ false) (sym shape) (ground (arith, apart))

one_slash :
    (s : Text)
    → starts_with (slash ∷ []) s ≡ false
    → (leading (slash ∷ s) ≡ slash ∷ []) × (leading (slash ∷ slash ∷ s) ≡ slash ∷ slash ∷ [])
unfolding leading starts_with
one_slash [] h = (refl, refl)
one_slash (c ∷ s) h = (ground arith, ground arith)

components-once :
    (stack : List Text)
    → all plain stack ≡ true
    → (components (slash ∷ join_reversed stack) ≡ stack)
      × (components (slash ∷ slash ∷ join_reversed stack) ≡ stack)
unfolding components split collapse push starts_with bytes_eq
components-once stack h = (collapse-parts stack h, collapse-parts stack h)

-- Normalising twice is normalising once.
pub normpath-Normal : (t : Text) → Normal t → normpath t ≡ t
unfolding normpath
normpath-Normal t n =
    let free = no_slash n.stack n.named in
    let (single, double) = one_slash (join_reversed n.stack) free in
    let (once, again) = components-once n.stack n.named in
    elim n.shape [
      | inl e ↦ subst (λ p. normpath p ≡ p) (sym e) (rw (single, once))
      | inr e ↦ subst (λ p. normpath p ≡ p) (sym e) (rw (double, again))
    ]
