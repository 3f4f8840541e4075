-- ===== src/Sudo/Rules.antt =====
-- The approval rules of sudo-auth-proxy.py: `Rule`, `identity_candidates`, `evaluate_rules` and
-- `effective_target_user`.
pub mod Order
use tartarus_nix.Base.{
  ℕ, Bool, true, false, ◌&&◌, ◌||◌, not, Option, none, some, List, [], ◌∷◌, ◌++◌, Text, codes,
  bytes_eq, contains, any, is_empty, if◌then◌else◌,
}
use tartarus_nix.Fnmatch.{fnmatchcase}

pub data Policy : Type 0 where
  allow : Policy
  ask : Policy
  deny : Policy

pub record Rule : Type 0 where
  pub machine : List Text
  pub listeners : List Text
  pub service : List Text
  pub target_user : List Text
  pub invoking_user : List Text
  pub policy : Policy

-- The keyword arguments of `Rule.matches` and `evaluate_rules`.
pub record Context : Type 0 where
  pub identities : List Text
  pub target_user : Text
  pub invoking_user : Text
  pub service : Text
  pub listener : Text

unfoldable pub matches_any : List Text → Text → Bool
matches_any patterns value = is_empty patterns || any (fnmatchcase value) patterns

unfoldable pub matches_any_of : List Text → List Text → Bool
matches_any_of patterns values =
    is_empty patterns || any (λ pattern. any (λ value. fnmatchcase value pattern) values) patterns

unfoldable pub matches : Rule → Context → Bool
matches rule c =
    matches_any_of rule.machine c.identities
    && matches_any rule.target_user c.target_user
    && matches_any rule.invoking_user c.invoking_user
    && matches_any rule.service c.service
    && matches_any rule.listeners c.listener

unfoldable pub evaluate_rules : List Rule → Context → Policy
evaluate_rules [] c = ask
evaluate_rules (rule ∷ rules) c = if matches rule c then rule.policy else evaluate_rules rules c

-- `if value and value not in seen: seen.append(value)`
add_candidate : Text → List Text → List Text
add_candidate value seen =
    if is_empty value || contains value seen then seen else seen ++ value ∷ []

unfoldable pub identity_candidates : Text → Text → Text → List Text
unfolding add_candidate
identity_candidates requester label peer =
    add_candidate requester (add_candidate peer (add_candidate label []))

unfoldable pub effective_target_user : Text → Text → Text → Text
effective_target_user service target_user invoking_user =
    if bytes_eq service (codes "sudo")
      && (is_empty target_user || bytes_eq target_user invoking_user)
    then codes "root"
    else target_user
