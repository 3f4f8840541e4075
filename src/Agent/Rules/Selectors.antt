-- ===== src/Agent/Rules/Selectors.antt =====
-- Which peers and listeners the selectors of a rule let through.
use tartarus_nix.Base.{
  ◌≡◌, refl, inl, inr, Bool, true, false, Option, none, some, List, [], ◌∷◌, Text, codes, any, all,
  arith, bytes_eq, bytes_eq_iff, Bool-cases, ap, ◌++◌, ◌↔◌, not,
}
use tartarus_nix.Fnmatch.{has_wildcard}
use tartarus_nix.Fnmatch.Laws.{fnmatchcase-star}
use tartarus_nix.Agent.Rules.{
  Rule, selects, matches_key, matches_machine, matches_listener, applies, match_rule,
}

selects_all :
    (ps : List Text) (name : Option Text) → selects ps none ≡ true → selects ps name ≡ true
unfolding selects
selects_all [] name h = refl
selects_all (p ∷ ps) none h = h
selects_all (p ∷ ps) (some name) h =
    ground (arith, fnmatchcase-star name, bytes_eq_iff p (codes "*"))

-- A rule that applies to a peer whose identity was not established, over a listener with no name,
-- applies to every peer over every listener: no pattern that names anyone lets such a peer in.
pub applies_unidentified :
    (rule : Rule) (key_id : Text) (identity listener : Option Text)
    → applies rule key_id none none ≡ true
    → applies rule key_id identity listener ≡ true
unfolding matches_machine matches_listener
applies_unidentified rule key_id identity listener h =
    ground (arith, selects_all rule.machine identity, selects_all rule.listeners listener)

plain-ne-star : (p : Text) → has_wildcard p ≡ false → bytes_eq p (codes "*") ≡ false
unfolding has_wildcard bytes_eq
plain-ne-star [] w = refl
plain-ne-star (c ∷ p) w = ground arith

-- A key selector with none of `*?[]` governs the key of that id alone; in particular it never governs
-- the request to remove every key, which is matched under the id `*`.
pub matches_key-plain :
    (rule : Rule) (key_id : Text)
    → has_wildcard rule.key ≡ false
    → (matches_key rule key_id ≡ bytes_eq rule.key key_id) × (matches_key rule (codes "*") ≡ false)
unfolding matches_key
matches_key-plain rule key_id w = ground (arith, plain-ne-star rule.key w)

pub record First (rules : List Rule) (test : Rule → Bool) (rule : Rule) : Type 0 where
  pub before : List Rule
  pub behind : List Rule
  pub split : rules ≡ before ++ (rule ∷ behind)
  pub passed_over : all (λ r. not (test r)) before ≡ true
  pub hit : test rule ≡ true

-- The rule found is the first in file order that applies: it applies, and none before it does.
pub match_rule-First :
    (rules : List Rule) (key_id : Text) (identity listener : Option Text) (rule : Rule)
    → match_rule rules key_id identity listener ≡ some rule
    → First rules (λ r. applies r key_id identity listener) rule
unfolding match_rule
match_rule-First [] key_id identity listener rule h = absurd (cc)
match_rule-First (r ∷ rules) key_id identity listener rule h =
    elim (Bool-cases (applies r key_id identity listener)) [
      | inl e ↦ record {
        before = [];
        behind = rules;
        split = ground arith;
        passed_over = refl;
        hit = ground arith;
      }
      | inr e ↦
          let rest = match_rule-First rules key_id identity listener rule (ground arith) in
          record {
            before = r ∷ rest.before;
            behind = rest.behind;
            split = ap (λ l. r ∷ l) rest.split;
            passed_over = rw e rest.passed_over;
            hit = rest.hit;
          }
    ]

-- No rule is found exactly when none applies.
pub match_rule-none :
    (rules : List Rule) (key_id : Text) (identity listener : Option Text)
    → (match_rule rules key_id identity listener ≡ none)
      ↔ (any (λ r. applies r key_id identity listener) rules ≡ false)
unfolding match_rule
match_rule-none [] key_id identity listener = (λ h. refl, λ h. refl)
match_rule-none (r ∷ rules) key_id identity listener =
    let ih = match_rule-none rules key_id identity listener in
    (λ h. ground (arith, ih.0), λ h. ground (arith, ih.1))
