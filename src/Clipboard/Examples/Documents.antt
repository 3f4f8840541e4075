-- ===== src/Clipboard/Examples/Documents.antt =====
-- The theorems on clipboard-bridge.py's configuration at work: a unix listener, and a document.
use tartarus_nix.Base.{◌≡◌, refl, ◌⊎◌, true, none, some, [], codes, bytes_eq, contains, decimal}
use tartarus_nix.Json.{
  boolean, string, array, object, Values, no_values, value, Fields, no_fields, field, lookup,
  equals, truthy, is_none, one_of, keys_among, is_nonempty_string, is_boolean, assign, drop_key,
  string_or_empty,
}
use tartarus_nix.Clipboard.Security.{
  resolve_listener_security, table_of, transport_of, mtls_enabled, encryption_of, auth_of, combine,
  is_mtls,
}
use tartarus_nix.Clipboard.Security.Strict.{
  encrypted, unprotected, PlaintextWanted, resolve_listener_security-Strict,
}
use tartarus_nix.Clipboard.Rules.{parse_rules}
use tartarus_nix.Clipboard.Names.{
  cid, Listener, get_client_id, resolve_friendly_name, get_resolution_mode,
}
use tartarus_nix.Clipboard.Hub.{Connection}
use tartarus_nix.Clipboard.Loop.{
  admit, admit_secured, peer_verified, read_certificate, admit_named, mtls_block,
}
use tartarus_nix.Clipboard.Schema.{
  admin_oid, validate_tables, validate_table, is_true, load_mtls, load_block, is_complete,
  if_present, parse_mode_value, positive_number,
}
use tartarus_nix.Clipboard.Schema.Listeners.{
  shape_valid, oids_valid, block_valid, validate_listener, validate_listener_table,
}
use tartarus_nix.Clipboard.Schema.Accepted.{Complete}
use tartarus_nix.Clipboard.Schema.Documents.{
  see_name, listener_name, validate_listeners, listeners_of, validate_server, validate_vm_table,
  view_of, own_view, with_transport, first_value, passed_on, or_null,
}
use tartarus_nix.Clipboard.Schema.Listed.{AllGuarded, NoneTwice, names_of, validate_server-Guarded}
use tartarus_nix.Clipboard.Admissions.{Certified, admit-Certified}
use tartarus_nix.Clipboard.Examples.{clipboard_rules, names}

-- A unix listener without encryption, which says so.
abbrev unix_entry : Fields
unix_entry = field (codes "type") (string (codes "unix")) (
    field (codes "socket") (string (codes "/run/c.sock")) (
      field (codes "name") (string (codes "admin")) (
        field (codes "security")
          (object (
            field (codes "client_auth") (string (codes "none"))
              (field (codes "server_auth") (string (codes "none")) no_fields)))
          no_fields)))

resolve_listener_security-Strict_example :
    (unprotected ≡ encrypted) ⊎ ((unprotected ≡ unprotected) × PlaintextWanted unix_entry)
unfolding resolve_listener_security table_of transport_of mtls_enabled encryption_of auth_of combine
    is_mtls lookup equals truthy is_none one_of keys_among contains bytes_eq
resolve_listener_security-Strict_example =
    resolve_listener_security-Strict unix_entry unprotected refl

-- An admin's listener over VSOCK and mTLS.
abbrev mtls_entry : Fields
mtls_entry = field (codes "type") (string (codes "vsock")) (
    field (codes "admin") (boolean true) (
      field (codes "mtls")
        (object (
          field (codes "enable") (boolean true) (
            field (codes "ca_file") (string (codes "ca.crt")) (
              field (codes "cert_file") (string (codes "s.crt")) (
                field (codes "key_file") (string (codes "s.key")) (
                  field (codes "required_oid") (string (codes "1.3.6.1.4.1.99999.3.1"))
                    (field (codes "peer_required_oid") (string admin_oid) no_fields)))))))
        no_fields))

abbrev document : Fields
document = field (codes "mode") (string (codes "server")) (
    field (codes "listeners")
      (array (value (object unix_entry) (value (object mtls_entry) no_values))) no_fields)

validate_server-Guarded_example :
    (entries : Values) × (listeners_of (lookup document (codes "listeners")) ≡ some entries)
    × AllGuarded entries
    × NoneTwice (names_of entries)
unfolding validate_server validate_listeners validate_listener_table validate_listener shape_valid
    validate_tables validate_table is_true block_valid load_mtls load_block is_complete oids_valid
    see_name listener_name listeners_of validate_vm_table parse_rules if_present parse_mode_value
    positive_number resolve_listener_security table_of transport_of mtls_enabled encryption_of
    auth_of combine is_mtls lookup equals truthy is_none one_of keys_among contains bytes_eq
    is_nonempty_string is_boolean
validate_server-Guarded_example = validate_server-Guarded document tt refl

abbrev admin_listener : Listener
admin_listener = record {
  config = view_of document 1 mtls_entry;
  transport = codes "vsock";
  admin = true;
  name = [];
  rules = clipboard_rules;
  resolution = none;
  vm = [];
  tcp_vm = [];
}

abbrev admin_connection : Connection
admin_connection = record {
  handle = 4;
  client_id = codes "vsock:1";
  machine = none;
  listener = admin_listener;
}

admit-Certified_example :
    (block : Fields) × Complete mtls_entry block × Certified names mtls_entry block admin_oid
unfolding validate_listener shape_valid validate_tables validate_table is_true block_valid load_mtls
    load_block is_complete oids_valid if_present parse_mode_value positive_number
    resolve_listener_security table_of transport_of mtls_enabled encryption_of auth_of combine
    is_mtls lookup equals truthy is_none one_of keys_among contains bytes_eq is_nonempty_string
    is_boolean admit admit_secured peer_verified read_certificate admit_named mtls_block
    resolve_friendly_name get_resolution_mode get_client_id view_of own_view with_transport
    first_value passed_on or_null assign drop_key string_or_empty decimal
admit-Certified_example =
    admit-Certified names document mtls_entry 1 4 (cid 1) 49 (codes ".3.6.1.4.1.99999.3.3")
      admin_listener admin_connection encrypted tt refl refl refl refl refl
