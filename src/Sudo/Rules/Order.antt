-- ===== src/Sudo/Rules/Order.antt =====
-- Which rule decides.
use tartarus_nix.Base.{
  ◌≡◌, refl, ap, ◌⊎◌, inl, inr, true, false, not, List, [], ◌∷◌, ◌++◌, all, Bool-cases,
}
use tartarus_nix.Sudo.Rules.{ask, Rule, Context, matches, evaluate_rules}

-- `rule` is the first of `rules` that matches.
pub record Decides (rules : List Rule) (c : Context) (rule : Rule) : Type 0 where
  pub before : List Rule
  pub behind : List Rule
  pub split : rules ≡ before ++ (rule ∷ behind)
  pub passed_over : all (λ r. not (matches r c)) before ≡ true
  pub hit : matches rule c ≡ true

later :
    (r : Rule) (rules : List Rule) (c : Context) (rule : Rule)
    → matches r c ≡ false
    → Decides rules c rule
    → Decides (r ∷ rules) c rule
later r rules c rule e d = record {
  before = r ∷ d.before;
  behind = d.behind;
  split = ap (λ l. r ∷ l) d.split;
  passed_over = rw e d.passed_over;
  hit = d.hit;
}

-- The policy is that of the first rule in file order that matches, all those before it being passed
-- over, or it is `ask` and no rule matches.
pub evaluate_rules-Decides :
    (rules : List Rule) (c : Context)
    → ((rule : Rule) × Decides rules c rule × (evaluate_rules rules c ≡ rule.policy))
      ⊎ ((all (λ r. not (matches r c)) rules ≡ true) × (evaluate_rules rules c ≡ ask))
unfolding evaluate_rules
evaluate_rules-Decides [] c = inr (refl, refl)
evaluate_rules-Decides (r ∷ rules) c = elim (Bool-cases (matches r c)) [
  | inl e ↦ inl (
    r,
    record { before = []; behind = rules; split = refl; passed_over = refl; hit = e },
    rw e refl,
  )
  | inr e ↦ elim (evaluate_rules-Decides rules c) [
    | inl (rule, d, same) ↦ inl (rule, later r rules c rule e d, rw e same)
    | inr (passed, same) ↦ inr (rw e passed, rw e same)
  ]
]
