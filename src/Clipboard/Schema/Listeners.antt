-- ===== src/Clipboard/Schema/Listeners.antt =====
-- `validate_listener_table` of clipboard-bridge.py.
use tartarus_nix.Base.{
  Bool, true, false, not, ◌&&◌, ◌||◌, Option, none, some, [], ◌∷◌, codes, is_some, if◌then◌else◌,
}
use tartarus_nix.Base.Options.{◌>>=◌, ◌>>◌, require}
use tartarus_nix.Json.{
  Value, object, Fields, lookup, equals, is_none, truthy, one_of, is_nonempty_string, is_boolean,
  keys_among,
}
use tartarus_nix.Clipboard.Security.{
  Encryption, mtls, plain, is_mtls, listener_types, resolve_listener_security,
}
use tartarus_nix.Clipboard.Schema.{
  admin_oid, config_listener_keys, resolution_modes, validate_tables, parse_mode_value,
  positive_number, if_present, is_true, load_mtls,
}

-- The resolution is absent or a mode, and a unix listener has neither CID nor IP to look up.
resolution_valid : Option Value → Option Value → Bool
resolution_valid transport resolution =
    is_none resolution
    || (one_of resolution resolution_modes
        && not (
            equals transport (codes "unix")
            && one_of resolution (codes "tartarus" ∷ codes "mofos" ∷ [])))

is_mode : Value → Bool
is_mode v = is_some (parse_mode_value v)

bounds_valid : Fields → Bool
unfolding is_mode
bounds_valid entry =
    if_present (positive_number false) (lookup entry (codes "connect_timeout"))
    && if_present (positive_number false) (lookup entry (codes "handshake_timeout"))
    && if_present (positive_number true) (lookup entry (codes "max_connections"))
    && if_present (positive_number false) (lookup entry (codes "server_read_timeout"))
    && if_present is_mode (lookup entry (codes "socket_dir_mode"))
    && if_present is_mode (lookup entry (codes "socket_mode"))

-- What is checked before the security is resolved.
unfoldable pub shape_valid : Fields → Bool
unfolding resolution_valid bounds_valid
shape_valid entry =
    let transport = lookup entry (codes "type") in
    keys_among entry config_listener_keys
    && one_of transport listener_types
    && not (equals transport (codes "unix") && not (truthy (lookup entry (codes "socket"))))
    && validate_tables entry
    && if_present (λ v. is_boolean (some v)) (lookup entry (codes "admin"))
    && resolution_valid transport (lookup entry (codes "resolution"))
    && bounds_valid entry

-- Which end an OID names: an admin's listener takes the admin's, no other does.
unfoldable pub oids_valid : Bool → Option Fields → Bool
oids_valid admin none = false
oids_valid admin (some block) =
    let peer_oid = lookup block (codes "peer_required_oid") in
    is_nonempty_string (lookup block (codes "required_oid"))
    && is_nonempty_string peer_oid
    && (if admin then equals peer_oid admin_oid else not (equals peer_oid admin_oid))

-- What is checked of the `[mtls]` block, by the encryption that was resolved.
unfoldable pub block_valid : Fields → Encryption → Option (Unit {0})
unfolding oids_valid
block_valid entry mtls = do
  block ← load_mtls true entry
  require (oids_valid (is_true (lookup entry (codes "admin"))) block)
block_valid entry plain = do _ ← load_mtls false entry; some tt

unfoldable pub validate_listener : Fields → Option (Unit {0})
unfolding shape_valid block_valid
validate_listener entry = do
  require (shape_valid entry)
  knobs ← resolve_listener_security entry
  require (
      not (equals (lookup entry (codes "resolution")) (codes "certificate"))
      || is_mtls knobs.transport_encryption)
  block_valid entry knobs.transport_encryption

unfoldable pub validate_listener_table : Value → Option (Unit {0})
unfolding validate_listener
validate_listener_table (object entry) = validate_listener entry
validate_listener_table _ = none
