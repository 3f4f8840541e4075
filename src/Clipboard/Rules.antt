-- ===== src/Clipboard/Rules.antt =====
-- The authorization rules of clipboard-bridge.py: `Rule`, `parse_rules` and `evaluate_rules`.
pub mod Selectors
use tartarus_nix.Base.{
  ℕ, Bool, true, false, not, ◌&&◌, ◌||◌, Option, none, some, List, [], ◌∷◌, Text, codes, any,
  is_empty, if◌then◌else◌,
}
use tartarus_nix.Base.Options.{◌>>=◌, ◌>>◌, require}
use tartarus_nix.Json.{
  Value, null, string, array, object, Values, no_values, value, Fields, no_fields, lookup, equals,
  keys_among, strings_of,
}
use tartarus_nix.Fnmatch.{fnmatchcase}

pub data Policy : Type 0 where
  allow : Policy
  deny : Policy

pub record Rule : Type 0 where
  pub machine : List Text
  pub listeners : List Text
  pub action : List Text
  pub target : List Text
  pub policy : Policy

-- The keyword arguments of `Rule.matches` and `evaluate_rules`.
pub record Context : Type 0 where
  pub listener : Text
  pub machine : Option Text
  pub action : Text
  pub target : Option Text

unfoldable pub machine_matches : List Text → Option Text → Bool
machine_matches [] machine = true
machine_matches (p ∷ patterns) none = false
machine_matches (p ∷ patterns) (some machine) = any (fnmatchcase machine) (p ∷ patterns)

unfoldable pub any_pattern_matches : List Text → Text → Bool
any_pattern_matches patterns name = is_empty patterns || any (fnmatchcase name) patterns

abbrev or_empty : Option Text → Text
or_empty none = []
or_empty (some s) = s

unfoldable pub matches : Rule → Context → Bool
matches rule c =
    machine_matches rule.machine c.machine
    && any_pattern_matches rule.listeners c.listener
    && any_pattern_matches rule.action c.action
    && any_pattern_matches rule.target (or_empty c.target)

unfoldable pub evaluate_rules : List Rule → Context → Policy
evaluate_rules [] c = deny
evaluate_rules (rule ∷ rules) c = if matches rule c then rule.policy else evaluate_rules rules c

-- `_as_pattern_tuple`
unfoldable pub as_pattern_tuple : Option Value → Option (List Text)
as_pattern_tuple none = some []
as_pattern_tuple (some null) = some []
as_pattern_tuple (some (string s)) = some (if is_empty s then [] else s ∷ [])
as_pattern_tuple (some (array vs)) = strings_of vs
as_pattern_tuple (some _) = none

-- `entry.get("policy", "deny")`, which is one of `RULE_POLICIES`
unfoldable pub policy_of : Option Value → Option Policy
policy_of none = some deny
policy_of (some v) =
    if equals (some v) (codes "allow")
    then some allow
    else if equals (some v) (codes "deny")
    then some deny
    else none

-- `entry.get("match", {})`
unfoldable pub match_of : Option Value → Option Fields
match_of none = some no_fields
match_of (some (object m)) = some m
match_of (some _) = none

abbrev pub config_rule_keys : List Text
config_rule_keys = codes "match" ∷ codes "policy" ∷ []

abbrev pub config_rule_match_keys : List Text
config_rule_match_keys = codes "machine" ∷ codes "listeners" ∷ codes "action" ∷ codes "target" ∷ []

unfoldable pub parse_rule : Value → Option Rule
unfolding as_pattern_tuple policy_of match_of
parse_rule (object entry) = do
  require (keys_among entry config_rule_keys)
  policy ← policy_of (lookup entry (codes "policy"))
  match ← match_of (lookup entry (codes "match"))
  require (keys_among match config_rule_match_keys)
  machine ← as_pattern_tuple (lookup match (codes "machine"))
  listeners ← as_pattern_tuple (lookup match (codes "listeners"))
  action ← as_pattern_tuple (lookup match (codes "action"))
  target ← as_pattern_tuple (lookup match (codes "target"))
  some (record {
    machine = machine;
    listeners = listeners;
    action = action;
    target = target;
    policy = policy;
  })
parse_rule _ = none

unfoldable pub parse_entries : Values → Option (List Rule)
parse_entries no_values = some []
parse_entries (value entry entries) = do
  rule ← parse_rule entry
  rules ← parse_entries entries
  some (rule ∷ rules)

unfoldable pub parse_rules : Option Value → Option (List Rule)
parse_rules none = some []
parse_rules (some null) = some []
parse_rules (some (array entries)) = parse_entries entries
parse_rules (some _) = none
