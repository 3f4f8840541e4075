-- ===== src/Clipboard/Schema/Listed.antt =====
-- The listeners of a server document that clipboard-bridge.py accepts.
use tartarus_nix.Base.{
  ◌≡◌, refl, true, false, not, Option, none, some, List, [], ◌∷◌, Text, codes, bytes_eq_iff,
  bytes_eq_refl, contains, is_empty, arith,
}
use mathlib.Core.Path.{subst}
use tartarus_nix.Base.Options.{require, bind_inv, require-inv}
use tartarus_nix.Json.{
  Value, null, boolean, integer, real, string, array, object, Values, no_values, value, Fields,
  lookup, keys_among,
}
use tartarus_nix.Clipboard.Schema.{server_top_level_keys}
use tartarus_nix.Clipboard.Schema.Listeners.{validate_listener_table}
use tartarus_nix.Clipboard.Schema.Accepted.{Guarded, validate_listener-Guarded}
use tartarus_nix.Clipboard.Schema.Documents.{
  see_name, listener_name, validate_listeners, listeners_of, validate_server,
}

abbrev pub with_name : Option Value → List Text → List Text
with_name (some (string name)) names = name ∷ names
with_name _ names = names

abbrev pub names_of : Values → List Text
names_of no_values = []
names_of (value entry entries) = with_name (listener_name entry) (names_of entries)

abbrev pub NoneTwice : List Text → Type 0
NoneTwice [] = Unit {0}
NoneTwice (name ∷ names) = (contains name names ≡ false) × NoneTwice names

abbrev pub AllGuarded : Values → Type 0
AllGuarded no_values = Unit {0}
AllGuarded (value v entries) =
    ((entry : Fields) × (v ≡ object entry) × Guarded entry) × AllGuarded entries

-- No name that was seen comes again.
abbrev Fresh : List Text → List Text → Type 0
Fresh seen names = (n : Text) → contains n seen ≡ true → contains n names ≡ false

see_name-Fresh :
    (seen seen' : List Text) (o : Option Value) (names : List Text)
    → see_name seen o ≡ some seen'
    → Fresh seen' names
    → NoneTwice names
    → Fresh seen (with_name o names) × NoneTwice (with_name o names)
unfolding see_name contains
see_name-Fresh seen seen' none names h f d =
    let same : seen' ≡ seen = cc in (subst (λ s. Fresh s names) same f, d)
see_name-Fresh seen seen' (some (string name)) names h f d =
    let (_, e1, h1) = bind_inv (require (not (is_empty name))) _ _ h in
    let (_, e2, h2) = bind_inv (require (not (contains name seen))) _ _ h1 in
    let extended : seen' ≡ name ∷ seen = cc in
    let unseen : not (contains name seen) ≡ true = require-inv _ _ e2 in
    let fresh : Fresh (name ∷ seen) names = subst (λ s. Fresh s names) extended f in
    (
      λ n e. ground (arith, bytes_eq_iff n name, fresh n, unseen, bytes_eq_refl n),
      (fresh name (ground (arith, bytes_eq_refl name)), d),
    )
see_name-Fresh seen seen' (some null) names h f d =
    let same : seen' ≡ seen = cc in (subst (λ s. Fresh s names) same f, d)
see_name-Fresh seen seen' (some (boolean v)) names h f d = absurd (cc)
see_name-Fresh seen seen' (some (integer v)) names h f d = absurd (cc)
see_name-Fresh seen seen' (some (real v)) names h f d = absurd (cc)
see_name-Fresh seen seen' (some (array v)) names h f d = absurd (cc)
see_name-Fresh seen seen' (some (object v)) names h f d = absurd (cc)

entry_Guarded :
    (v : Value) (u : Unit {0})
    → validate_listener_table v ≡ some u
    → (entry : Fields) × (v ≡ object entry) × Guarded entry
unfolding validate_listener_table
entry_Guarded (object entry) u h = (entry, refl, validate_listener-Guarded entry u h)
entry_Guarded null u h = absurd (cc)
entry_Guarded (boolean v) u h = absurd (cc)
entry_Guarded (integer v) u h = absurd (cc)
entry_Guarded (real v) u h = absurd (cc)
entry_Guarded (string v) u h = absurd (cc)
entry_Guarded (array v) u h = absurd (cc)

validate_listeners-Guarded :
    (seen : List Text) (entries : Values) (u : Unit {0})
    → validate_listeners seen entries ≡ some u
    → AllGuarded entries × Fresh seen (names_of entries) × NoneTwice (names_of entries)
unfolding validate_listeners contains
validate_listeners-Guarded seen no_values u h = (tt, (λ n e. refl), tt)
validate_listeners-Guarded seen (value v entries) u h =
    let (_, e1, h1) = bind_inv (validate_listener_table v) _ _ h in
    let (seen', e2, h2) = bind_inv (see_name seen (listener_name v)) _ _ h1 in
    let (guarded, fresh, distinct) = validate_listeners-Guarded seen' entries u h2 in
    let (fresh', distinct') =
      see_name-Fresh seen seen' (listener_name v) (names_of entries) e2 fresh distinct in
    ((entry_Guarded v _ e1, guarded), fresh', distinct')

-- A server document that is accepted has listeners; each of them is guarded, and no two share a name.
pub validate_server-Guarded :
    (config : Fields) (u : Unit {0})
    → validate_server config ≡ some u
    → (entries : Values) × (listeners_of (lookup config (codes "listeners")) ≡ some entries)
      × AllGuarded entries
      × NoneTwice (names_of entries)
unfolding validate_server
validate_server-Guarded config u h =
    let (_, e1, h1) = bind_inv (require (keys_among config server_top_level_keys)) _ _ h in
    let (entries, e2, h2) = bind_inv (listeners_of (lookup config (codes "listeners"))) _ _ h1 in
    let (v, e3, h3) = bind_inv (validate_listeners [] entries) _ _ h2 in
    let (guarded, fresh, distinct) = validate_listeners-Guarded [] entries v e3 in
    (entries, e2, guarded, distinct)
