-- ===== src/Agent/Rules.antt =====
-- `KeyConfig`, `Rule`, `_as_pattern_list` and `Handler._match_rule` of ssh-agent-proxy.py.
pub mod Selectors
use tartarus_nix.Base.{
  Bool, true, false, ◌&&◌, ◌||◌, Option, none, some, List, [], ◌∷◌, Bytes, Text, codes, any, all,
  bytes_eq, if◌then◌else◌,
}
use tartarus_nix.Fnmatch.{fnmatchcase, has_wildcard}

pub data Policy : Type 0 where
  deny ask allow : Policy

abbrev pub is_deny : Policy → Bool
is_deny deny = true
is_deny _ = false

pub record KeyConfig : Type 0 where
  pub id : Text
  pub key_type : Text
  pub public_blob : Bytes
  pub fingerprint : Text
  pub socket : Text
  pub explicit_socket : Bool

pub record Rule : Type 0 where
  pub key : Text
  pub machine : List Text
  pub listeners : List Text
  pub auth : Policy
  pub data_signing : Policy
  pub add : Policy
  pub remove : Policy
  pub notify : Bool
  pub allowed_host_keys : List Bytes

-- `DEFAULT_RULE`
abbrev pub default_rule : Rule
default_rule = record {
  key = codes "*";
  machine = [];
  listeners = [];
  auth = ask;
  data_signing = deny;
  add = deny;
  remove = deny;
  notify = true;
  allowed_host_keys = [];
}

abbrev is_star : Text → Bool
is_star p = bytes_eq p (codes "*")

unfoldable pub matches_key : Rule → Text → Bool
matches_key rule key_id =
    if has_wildcard rule.key
    then fnmatchcase key_id rule.key
    else bytes_eq rule.key (codes "*") || bytes_eq rule.key key_id

-- A selector: the names that it lists, and the name, if any, that it is matched against. The empty
-- selector takes every name; where there is none, only `*` patterns do.
unfoldable pub selects : List Text → Option Text → Bool
selects [] name = true
selects (p ∷ ps) none = all is_star (p ∷ ps)
selects (p ∷ ps) (some name) = any (fnmatchcase name) (p ∷ ps)

unfoldable pub matches_machine : Rule → Option Text → Bool
unfolding selects
matches_machine rule identity = selects rule.machine identity

unfoldable pub matches_listener : Rule → Option Text → Bool
unfolding selects
matches_listener rule listener_name = selects rule.listeners listener_name

abbrev pub applies : Rule → Text → Option Text → Option Text → Bool
applies rule key_id identity listener =
    matches_key rule key_id && matches_machine rule identity && matches_listener rule listener

-- `_match_rule`: the first rule in file order
unfoldable pub match_rule : List Rule → Text → Option Text → Option Text → Option Rule
match_rule [] key_id identity listener = none
match_rule (rule ∷ rules) key_id identity listener =
    if applies rule key_id identity listener
    then some rule
    else match_rule rules key_id identity listener

-- What a selector may be in the configuration file.
pub data PatternValue : Type 0 where
  absent : PatternValue
  single : Text → PatternValue
  several : List Text → PatternValue
  other : PatternValue

-- `_as_pattern_list`; `none` is the `ValueError`
unfoldable pub as_pattern_list : PatternValue → Option (List Text)
as_pattern_list absent = some []
as_pattern_list (single p) = some (p ∷ [])
as_pattern_list (several ps) = some ps
as_pattern_list other = none
