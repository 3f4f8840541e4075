-- ===== src/Json.antt =====
-- JSON values, as `json.loads` returns them: a float is kept as its text.
pub mod Lookups
use mathlib.Core.Option
use tartarus_nix.Base.{
  zero, Bool, true, false, not, ◌&&◌, ◌||◌, Option, none, some, List, [], ◌∷◌, Text, bytes_eq,
  codes, contains, is_empty, is_some, if◌then◌else◌,
}
use tartarus_nix.Base.Integers.{ℤ, pos}

mutual
  pub data Value : Type 0 where
    null : Value
    boolean : Bool → Value
    integer : ℤ → Value
    real : Text → Value
    string : Text → Value
    array : Values → Value
    object : Fields → Value

  pub data Values : Type 0 where
    no_values : Values
    value : Value → Values → Values

  pub data Fields : Type 0 where
    no_fields : Fields
    field : Text → Value → Fields → Fields

-- `d.get(name)`; no value stands for the missing key
unfoldable pub lookup : Fields → Text → Option Value
lookup no_fields name = none
lookup (field key v d) name = if bytes_eq key name then some v else lookup d name

-- `d[name] = v`
unfoldable pub assign : Fields → Text → Value → Fields
assign no_fields name v = field name v no_fields
assign (field key u d) name v =
    if bytes_eq key name then field key v d else field key u (assign d name v)

-- `isinstance(v, str)`
unfoldable pub is_string : Option Value → Bool
is_string (some (string s)) = true
is_string _ = false

-- `v == s`
unfoldable pub equals : Option Value → Text → Bool
equals (some (string s)) t = bytes_eq s t
equals _ t = false

-- The text of a value that is one, and else the empty text.
unfoldable pub string_or_empty : Option Value → Text
string_or_empty (some (string s)) = s
string_or_empty _ = []

-- `v is None`, and a key that is missing is None too
unfoldable pub is_none : Option Value → Bool
is_none none = true
is_none (some null) = true
is_none _ = false

-- `bool(v)`
unfoldable pub truthy : Option Value → Bool
truthy none = false
truthy (some null) = false
truthy (some (boolean b)) = b
truthy (some (integer (pos zero))) = false
truthy (some (integer n)) = true
truthy (some (real t)) = not (bytes_eq t (codes "0.0") || bytes_eq t (codes "-0.0"))
truthy (some (string s)) = not (is_empty s)
truthy (some (array no_values)) = false
truthy (some (array vs)) = true
truthy (some (object no_fields)) = false
truthy (some (object d)) = true

-- `v in options` for a tuple of texts
unfoldable pub one_of : Option Value → List Text → Bool
one_of (some (string s)) options = contains s options
one_of _ options = false

-- `isinstance(v, str) and v`
unfoldable pub is_nonempty_string : Option Value → Bool
is_nonempty_string (some (string s)) = not (is_empty s)
is_nonempty_string _ = false

-- `isinstance(v, bool)`
unfoldable pub is_boolean : Option Value → Bool
is_boolean (some (boolean b)) = true
is_boolean _ = false

-- `not set(d) - allowed`
unfoldable pub keys_among : Fields → List Text → Bool
keys_among no_fields allowed = true
keys_among (field key v d) allowed = contains key allowed && keys_among d allowed

-- The texts of a list of texts, if it is one.
unfoldable pub strings_of : Values → Option (List Text)
strings_of no_values = some []
strings_of (value (string s) vs) = Option.map (λ l. s ∷ l) (strings_of vs)
strings_of (value _ vs) = none

-- `name in d`
unfoldable pub has_key : Fields → Text → Bool
unfolding lookup
has_key d name = is_some (lookup d name)

-- `d.pop(name, None)`, for a dict, where a key stands once
unfoldable pub drop_key : Fields → Text → Fields
drop_key no_fields name = no_fields
drop_key (field key v d) name =
    let rest = drop_key d name in if bytes_eq key name then rest else field key v rest
