-- ===== src/Clipboard/Rules/Selectors.antt =====
-- Which rule of clipboard-bridge.py allows a request.
use tartarus_nix.Base.{◌≡◌, refl, ◌⊎◌, inl, inr, true, none, List, [], ◌∷◌, Text, Bool-cases, arith}
use tartarus_nix.Clipboard.Rules.{allow, Rule, Context, machine_matches, matches, evaluate_rules}

-- A rule that allows, and that a peer need not be identified for.
abbrev pub AllowsAnyone : Rule → Context → Type 0
AllowsAnyone rule c = (rule.policy ≡ allow) × (rule.machine ≡ []) × (matches rule c ≡ true)

abbrev pub SomeRule : (Rule → Type 0) → List Rule → Type 0
SomeRule P [] = ⊥
SomeRule P (rule ∷ rules) = P rule ⊎ SomeRule P rules

machine_matches_unidentified :
    (patterns : List Text) → machine_matches patterns none ≡ true → patterns ≡ []
unfolding machine_matches
machine_matches_unidentified [] e = refl
machine_matches_unidentified (p ∷ patterns) e = absurd (cc)

matches_unidentified :
    (rule : Rule) (c : Context) → c.machine ≡ none → matches rule c ≡ true → rule.machine ≡ []
unfolding matches
matches_unidentified rule c unknown e =
    machine_matches_unidentified rule.machine
      (let m : machine_matches rule.machine c.machine ≡ true = ground arith in rw unknown at m)

-- A peer that has no name is allowed only what a rule allows everyone: no rule for a machine applies
-- to it.
pub evaluate_rules_unidentified :
    (rules : List Rule) (c : Context)
    → c.machine ≡ none
    → evaluate_rules rules c ≡ allow
    → SomeRule (λ rule. AllowsAnyone rule c) rules
unfolding evaluate_rules
evaluate_rules_unidentified [] c unknown e = absurd (cc)
evaluate_rules_unidentified (rule ∷ rules) c unknown e = elim (Bool-cases (matches rule c)) [
  | inl applies ↦ inl (rw applies at e, matches_unidentified rule c unknown applies, applies)
  | inr other ↦ inr (evaluate_rules_unidentified rules c unknown (rw other at e))
]
