-- ===== src/Clipboard/Schema/Documents.antt =====
-- `validate_document_schema`, `load_client_acl` and `listener_views` of clipboard-bridge.py.
use tartarus_nix.Base.{
  ℕ, suc, Bool, true, false, not, ◌&&◌, ◌||◌, Option, none, some, List, [], ◌∷◌, Bytes, Text, codes,
  contains, is_empty, if◌then◌else◌,
}
use tartarus_nix.Base.Options.{◌>>=◌, ◌>>◌, require}
use tartarus_nix.Base.Integers.{pos}
use tartarus_nix.Json.{
  Value, null, boolean, integer, string, array, object, Values, no_values, value, Fields, lookup,
  assign, equals, truthy, is_nonempty_string, keys_among, has_key, drop_key,
}
use tartarus_nix.Clipboard.Security.{Knobs, is_mtls, resolve_listener_security}
use tartarus_nix.Clipboard.Rules.{parse_rules}
use tartarus_nix.Clipboard.Schema.{
  server_top_level_keys, client_top_level_keys, validate_tables, positive_number, if_present,
  load_mtls,
}
use tartarus_nix.Clipboard.Schema.Listeners.{validate_listener_table}
use tartarus_nix.Clipboard.Schema.Pins.{load_client_acl}

vm_entry_valid : Text → Value → Bool
vm_entry_valid key (object entry) =
    keys_among entry (key ∷ codes "name" ∷ [])
    && has_key entry key
    && is_nonempty_string (lookup entry (codes "name"))
vm_entry_valid key _ = false

vm_entries_valid : Text → Values → Bool
unfolding vm_entry_valid
vm_entries_valid key no_values = true
vm_entries_valid key (value entry entries) =
    vm_entry_valid key entry && vm_entries_valid key entries

-- `_validate_vm_table`
unfoldable pub validate_vm_table : Text → Option Value → Bool
unfolding vm_entries_valid
validate_vm_table key none = true
validate_vm_table key (some null) = true
validate_vm_table key (some (array entries)) = vm_entries_valid key entries
validate_vm_table key (some _) = false

-- A name that is there is a text, and no name of a listener before; the names seen from then on.
unfoldable pub see_name : List Text → Option Value → Option (List Text)
see_name seen none = some seen
see_name seen (some null) = some seen
see_name seen (some (string name)) = do
  require (not (is_empty name))
  require (not (contains name seen))
  some (name ∷ seen)
see_name seen (some _) = none

unfoldable pub listener_name : Value → Option Value
listener_name (object entry) = lookup entry (codes "name")
listener_name _ = none

unfoldable pub validate_listeners : List Text → Values → Option (Unit {0})
unfolding see_name listener_name
validate_listeners seen no_values = some tt
validate_listeners seen (value entry entries) = do
  validate_listener_table entry
  seen' ← see_name seen (listener_name entry)
  validate_listeners seen' entries

unfoldable pub listeners_of : Option Value → Option Values
listeners_of (some (array (value entry entries))) = some (value entry entries)
listeners_of _ = none

unfoldable pub validate_server : Fields → Option (Unit {0})
unfolding validate_listeners listeners_of validate_vm_table
validate_server config = do
  require (keys_among config server_top_level_keys)
  entries ← listeners_of (lookup config (codes "listeners"))
  validate_listeners [] entries
  require (validate_vm_table (codes "cid") (lookup config (codes "vm")))
  require (validate_vm_table (codes "ip") (lookup config (codes "tcp_vm")))
  _ ← parse_rules (lookup config (codes "rule"))
  some tt

-- A client has one transport, and its security is resolved where it says anything of it.
secured : Fields → Knobs → Option (Unit {0})
secured config knobs =
    if is_mtls knobs.transport_encryption then (do _ ← load_mtls true config; some tt) else some tt

client_security : Fields → Option (Unit {0})
unfolding secured
client_security config =
    if has_key config (codes "security")
      || has_key config (codes "mtls")
      || has_key config (codes "transport")
    then resolve_listener_security config >>= secured config
    else some tt

client_bounds : Fields → Bool
client_bounds config =
    if_present (positive_number false) (lookup config (codes "connect_timeout"))
    && if_present (positive_number false) (lookup config (codes "handshake_timeout"))
    && if_present (positive_number false) (lookup config (codes "recv_timeout"))

unfoldable pub validate_client : (Text → Option Bytes) → Fields → Option (Unit {0})
unfolding client_security client_bounds
validate_client decode config = do
  require (keys_among config client_top_level_keys)
  require (validate_tables config)
  client_security config
  require (
      not (
        equals (lookup config (codes "transport")) (codes "unix")
        && not (truthy (lookup config (codes "socket")))))
  require (client_bounds config)
  _ ← load_client_acl decode config
  some tt

pub data Role : Type 0 where
  server : Role
  client : Role

abbrev pub role_text : Role → Text
role_text server = codes "server"
role_text client = codes "client"

-- The role of a document that none is asked of.
unfoldable pub role_of : Fields → Role
role_of config =
    if equals (lookup config (codes "mode")) (codes "server")
    then server
    else if equals (lookup config (codes "mode")) (codes "client")
    then client
    else if has_key config (codes "listeners")
    then server
    else client

or_role : Option Role → Role → Role
or_role none other = other
or_role (some role) other = role

validate_for : (Text → Option Bytes) → Role → Fields → Option (Unit {0})
unfolding validate_server validate_client
validate_for decode server config = validate_server config
validate_for decode client config = validate_client decode config

unfoldable pub validate_document_schema : (Text → Option Bytes) → Option Role → Value → Option Role
unfolding role_of or_role validate_for
validate_document_schema decode asked (object config) =
    let role = or_role asked (role_of config) in
    (do
      require
          (if_present (λ mode. equals (some mode) (role_text role)) (lookup config (codes "mode")))
      validate_for decode role config
      some role)
validate_document_schema decode asked _ = none

-- Where the key is there, it is passed on under its private name.
unfoldable pub passed_on : Fields → Text → Text → Fields → Fields
passed_on config key private view = elim (lookup config key) [
  | none ↦ view
  | some v ↦ assign view private v
]

-- `view.get("type", view.get("transport"))`, if it is not None
unfoldable pub with_transport : Option Value → Fields → Fields
with_transport none view = view
with_transport (some null) view = view
with_transport (some v) view = assign view (codes "transport") v

unfoldable pub first_value : Option Value → Option Value → Option Value
first_value none other = other
first_value (some v) other = some v

unfoldable pub or_null : Option Value → Value
or_null none = null
or_null (some v) = v

unfoldable pub own_view : Fields → Fields
unfolding with_transport first_value
own_view entry =
    drop_key
      (with_transport (first_value (lookup entry (codes "type")) (lookup entry (codes "transport")))
        entry)
      (codes "type")

unfoldable pub view_of : Fields → ℕ → Fields → Fields
unfolding own_view or_null passed_on
view_of config index entry =
    let view = own_view entry in
    let view1 = assign view (codes "_listener_index") (integer (pos index)) in
    let view2 = assign view1 (codes "_listener_name") (or_null (lookup view1 (codes "name"))) in
    let view3 = assign view2 (codes "_admin") (boolean (truthy (lookup view2 (codes "admin")))) in
    passed_on config (codes "tcp_vm") (codes "_tcp_vm") (
      passed_on config (codes "vm") (codes "_vm") (
        passed_on config (codes "labels") (codes "_labels") (
          passed_on config (codes "rule") (codes "_rule")
            (passed_on config (codes "debug") (codes "_debug") view3))))

unfoldable pub views_from : Fields → ℕ → Values → Option (List Fields)
unfolding view_of
views_from config index no_values = some []
views_from config index (value (object entry) entries) = do
  views ← views_from config (suc index) entries
  some (view_of config index entry ∷ views)
views_from config index (value _ entries) = none

unfoldable pub listener_views : Value → Option (List Fields)
unfolding views_from listeners_of
listener_views (object config) = do
  entries ← listeners_of (lookup config (codes "listeners"))
  views_from config 0 entries
listener_views _ = none
