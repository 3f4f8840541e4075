-- ===== src/Clipboard/Security.antt =====
-- `resolve_listener_security` of clipboard-bridge.py. A configuration is the value that its TOML is
-- read as; `none` is a `ConfigError`.
pub mod Strict
use tartarus_nix.Base.{
  Bool, true, false, not, ◌&&◌, ◌||◌, Option, none, some, List, [], ◌∷◌, Text, codes, bytes_eq,
  if◌then◌else◌,
}
use tartarus_nix.Base.Options.{◌>>=◌, ◌>>◌, require}
use tartarus_nix.Json.{
  Value, null, string, object, Fields, no_fields, lookup, equals, is_none, truthy, one_of,
  keys_among,
}

abbrev pub config_security_keys : List Text
config_security_keys = codes "transport_encryption" ∷ codes "client_auth" ∷ codes "server_auth" ∷ []

abbrev pub listener_types : List Text
listener_types = codes "vsock" ∷ codes "tcp" ∷ codes "unix" ∷ []

-- One of `TRANSPORT_ENCRYPTIONS`.
pub data Encryption : Type 0 where
  plain : Encryption
  mtls : Encryption

-- One of the authentication methods.
pub data Auth : Type 0 where
  by_transport : Auth
  unchecked : Auth

pub record Knobs : Type 0 where
  pub transport_encryption : Encryption
  pub client_auth : Auth
  pub server_auth : Auth

-- A table of the configuration, empty where it is absent.
unfoldable pub table_of : Option Value → Option Fields
table_of none = some no_fields
table_of (some null) = some no_fields
table_of (some (object t)) = some t
table_of _ = none

-- `entry.get("type") or entry.get("transport") or "tcp"`
unfoldable pub transport_of : Fields → Option Value
transport_of entry =
    if truthy (lookup entry (codes "type"))
    then lookup entry (codes "type")
    else if truthy (lookup entry (codes "transport"))
    then lookup entry (codes "transport")
    else some (string (codes "tcp"))

-- `isinstance(mtls, dict) and bool(mtls.get("enable", False))`
unfoldable pub mtls_enabled : Fields → Bool
mtls_enabled block = truthy (lookup block (codes "enable"))

unfoldable pub encryption_of : Bool → Option Value → Option Encryption
encryption_of by_default v =
    if is_none v || equals v (codes "auto")
    then some (if by_default then mtls else plain)
    else if equals v (codes "mtls")
    then some mtls
    else if equals v (codes "none")
    then some plain
    else none

-- A knob that is absent, or one of the methods.
unfoldable pub auth_of : Option Value → Option (Option Auth)
auth_of v =
    if is_none v
    then some none
    else if equals v (codes "transport")
    then some (some by_transport)
    else if equals v (codes "none")
    then some (some unchecked)
    else none

-- mTLS forces both knobs to the transport, and plaintext wants both to be given as `none`.
unfoldable pub combine : Encryption → Option Auth → Option Auth → Option Knobs
combine mtls (some unchecked) server = none
combine mtls client (some unchecked) = none
combine mtls client server =
    some (record {
      transport_encryption = mtls;
      client_auth = by_transport;
      server_auth = by_transport;
    })
combine plain (some unchecked) (some unchecked) =
    some (record { transport_encryption = plain; client_auth = unchecked; server_auth = unchecked })
combine plain client server = none

unfoldable pub is_mtls : Encryption → Bool
is_mtls mtls = true
is_mtls plain = false

unfoldable pub resolve_listener_security : Fields → Option Knobs
unfolding table_of transport_of mtls_enabled encryption_of auth_of combine is_mtls
resolve_listener_security entry = do
  security ← table_of (lookup entry (codes "security"))
  require (keys_among security config_security_keys)
  require (one_of (transport_of entry) listener_types)
  block ← table_of (lookup entry (codes "mtls"))
  encryption ←
      encryption_of (mtls_enabled block || equals (transport_of entry) (codes "tcp"))
        (lookup security (codes "transport_encryption"))
  require (not (mtls_enabled block) || is_mtls encryption)
  client ← auth_of (lookup security (codes "client_auth"))
  server ← auth_of (lookup security (codes "server_auth"))
  combine encryption client server
