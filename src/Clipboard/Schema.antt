-- ===== src/Clipboard/Schema.antt =====
-- The validation of a configuration document of clipboard-bridge.py. `none` is a `ConfigError`,
-- whose message is not modelled.
pub mod Listeners
pub mod Pins
pub mod Accepted
pub mod Documents
pub mod Listed
pub mod Views
use tartarus_nix.Base.{
  ℕ, suc, Bool, true, false, not, ◌&&◌, ◌||◌, Option, none, some, List, [], ◌∷◌, ◌++◌, Bytes, Text,
  codes, contains, is_empty, is_some, bytes_eq, starts_with, int_of, leb, all, length, drop, ◌%◌,
  ◌-◌, ◌==◌, if◌then◌else◌,
}
use tartarus_nix.Base.Options.{◌>>=◌, ◌>>◌, require}
use tartarus_nix.Base.Integers.{ℤ, pos, negsuc, ltb_int}
use tartarus_nix.Json.{
  Value, null, boolean, integer, real, string, array, object, Values, no_values, value, Fields,
  no_fields, field, lookup, equals, is_none, truthy, one_of, is_nonempty_string, is_boolean,
  is_string, keys_among, has_key, string_or_empty, strings_of,
}
use tartarus_nix.Clipboard.Security.{
  Knobs, Encryption, mtls, plain, is_mtls, config_security_keys, listener_types,
  resolve_listener_security,
}
use tartarus_nix.Clipboard.Rules.{Rule, parse_rules}

abbrev pub admin_oid : Text
admin_oid = codes "1.3.6.1.4.1.99999.3.3"

abbrev pub config_mtls_keys : List Text
config_mtls_keys =
    codes "enable"
    ∷ codes "ca_file"
    ∷ codes "cert_file"
    ∷ codes "key_file"
    ∷ codes "required_oid"
    ∷ codes "peer_required_oid"
    ∷ []

abbrev pub config_acl_keys : List Text
config_acl_keys = codes "trusted_fingerprints" ∷ codes "trusted_names" ∷ []

abbrev pub config_listener_keys : List Text
config_listener_keys =
    codes "type"
    ∷ codes "name"
    ∷ codes "admin"
    ∷ codes "port"
    ∷ codes "cid"
    ∷ codes "host"
    ∷ codes "socket"
    ∷ codes "socket_dir_mode"
    ∷ codes "socket_mode"
    ∷ codes "connect_timeout"
    ∷ codes "handshake_timeout"
    ∷ codes "max_connections"
    ∷ codes "server_read_timeout"
    ∷ codes "resolution"
    ∷ codes "security"
    ∷ codes "mtls"
    ∷ []

abbrev pub server_top_level_keys : List Text
server_top_level_keys =
    codes "mode"
    ∷ codes "debug"
    ∷ codes "vm"
    ∷ codes "tcp_vm"
    ∷ codes "labels"
    ∷ codes "listeners"
    ∷ codes "rule"
    ∷ []

abbrev pub client_top_level_keys : List Text
client_top_level_keys =
    codes "mode"
    ∷ codes "transport"
    ∷ codes "host"
    ∷ codes "port"
    ∷ codes "cid"
    ∷ codes "socket"
    ∷ codes "proxy_socket"
    ∷ codes "register"
    ∷ codes "debug"
    ∷ codes "connect_timeout"
    ∷ codes "handshake_timeout"
    ∷ codes "recv_timeout"
    ∷ codes "security"
    ∷ codes "mtls"
    ∷ codes "acl"
    ∷ []

abbrev pub resolution_modes : List Text
resolution_modes = codes "none" ∷ codes "certificate" ∷ codes "tartarus" ∷ codes "mofos" ∷ []

-- `_validate_table`, for the table of that name
unfoldable pub validate_table : List Text → Option Value → Bool
validate_table allowed none = true
validate_table allowed (some null) = true
validate_table allowed (some (object table)) = keys_among table allowed
validate_table allowed (some _) = false

-- The loop over `TABLE_KEYS`.
unfoldable pub validate_tables : Fields → Bool
unfolding validate_table
validate_tables d =
    validate_table config_security_keys (lookup d (codes "security"))
    && validate_table config_mtls_keys (lookup d (codes "mtls"))
    && validate_table config_acl_keys (lookup d (codes "acl"))

in_mode_range : ℤ → Option ℕ
in_mode_range (pos n) = if leb n 511 then some n else none
in_mode_range (negsuc n) = none

-- No text of another value is an octal number.
unfoldable pub parse_mode_value : Value → Option ℕ
unfolding in_mode_range
parse_mode_value (integer n) = in_mode_range n
parse_mode_value (string s) = int_of 8 s >>= in_mode_range
parse_mode_value _ = none

-- A float below or at zero, by its text; a NaN is neither.
is_positive_real : Text → Bool
is_positive_real t = not (starts_with (codes "-") t || bytes_eq t (codes "0.0"))

unfoldable pub positive_number : Bool → Value → Bool
unfolding is_positive_real
positive_number whole (integer n) = ltb_int (pos 0) n
positive_number whole (real t) = not whole && is_positive_real t
positive_number whole _ = false

-- `if field in entry`
unfoldable pub if_present : (Value → Bool) → Option Value → Bool
if_present test none = true
if_present test (some v) = test v

unfoldable pub is_true : Option Value → Bool
is_true (some (boolean b)) = b
is_true _ = false

-- The block of a listener over mTLS.
unfoldable pub is_complete : Fields → Bool
unfolding is_true
is_complete block =
    is_true (lookup block (codes "enable"))
    && is_nonempty_string (lookup block (codes "ca_file"))
    && is_nonempty_string (lookup block (codes "cert_file"))
    && is_nonempty_string (lookup block (codes "key_file"))

unfoldable pub load_block : Bool → Option Value → Option (Option Fields)
unfolding is_complete
load_block required none = if required then none else some none
load_block required (some null) = if required then none else some none
load_block required (some (object block)) = do
  require (keys_among block config_mtls_keys)
  require (not required || is_complete block)
  some (some block)
load_block required (some _) = none

unfoldable pub load_mtls : Bool → Fields → Option (Option Fields)
unfolding load_block
load_mtls required container = load_block required (lookup container (codes "mtls"))
