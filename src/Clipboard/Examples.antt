-- ===== src/Clipboard/Examples.antt =====
-- Tests of the model of clipboard-bridge.py, and its theorems at work.
mod Documents
use tartarus_nix.Base.{
  ℕ, ◌≡◌, refl, ◌⊎◌, Bool, true, false, Option, none, some, List, [], ◌∷◌, Text, codes, get,
  bytes_eq, contains, starts_with, decimal, put, take, ◌==◌, if◌then◌else◌,
}
use tartarus_nix.Base.Integers.{pos}
use tartarus_nix.Base.Effects.{done}
use tartarus_nix.Json.{
  Value, null, boolean, string, array, object, Values, no_values, value, Fields, no_fields, field,
  lookup, equals, truthy, is_none, one_of, keys_among, is_nonempty_string, is_boolean, assign,
  drop_key, string_or_empty,
}
use tartarus_nix.Clipboard.Security.{
  resolve_listener_security, table_of, transport_of, mtls_enabled, encryption_of, auth_of, combine,
  is_mtls,
}
use tartarus_nix.Clipboard.Security.Strict.{
  encrypted, unprotected, PlaintextWanted, resolve_listener_security-Strict,
}
use tartarus_nix.Clipboard.Rules.{
  Rule, Context, allow, matches, evaluate_rules, parse_rules, machine_matches, any_pattern_matches,
}
use tartarus_nix.Clipboard.Rules.Selectors.{AllowsAnyone, SomeRule, evaluate_rules_unidentified}
use tartarus_nix.Clipboard.Names.{
  cid, Listener, Directory, unresolved, get_client_id, resolve_target_to_id, resolve_friendly_name,
  get_resolution_mode, is_direct,
}
use tartarus_nix.Clipboard.Hub.{
  Connection, Request, Event, wrote, Hub, World, status_ok, ok_data, write, log, notify,
  notify_and_broadcast, store_pushed, store_slot, notify_name, slot_name, pushed_name, broadcast_to,
  broadcast, try_write, is_excluded, subscribers_of,
}
use tartarus_nix.Clipboard.Handlers.{
  unauthorized, verdict, target_text, handle_admin, handle_guest, admin_ruled, admin_allowed,
  admin_set, guest_set, guest_get, own_content, content_of, subscribe, subscribed, enter, appended,
  is_admin_action, is_allowed, action_text,
}
use tartarus_nix.Clipboard.Loop.{
  parsed, closed, Step, input, expiry, run, idle, admit, admit_secured, peer_verified,
  read_certificate, admit_named, mtls_block, step, is_in, wait_on, settle, end_connection,
  serve_line, serve_value, read_request, serve_request, receive, respond, write_response, recover,
}
use tartarus_nix.Clipboard.Schema.{
  admin_oid, validate_tables, validate_table, is_true, load_mtls, load_block, is_complete,
  if_present, parse_mode_value, positive_number,
}
use tartarus_nix.Clipboard.Schema.Listeners.{
  shape_valid, oids_valid, block_valid, validate_listener, validate_listener_table,
}
use tartarus_nix.Clipboard.Schema.Accepted.{Complete}
use tartarus_nix.Clipboard.Schema.Documents.{
  see_name, listener_name, validate_listeners, listeners_of, validate_server, validate_vm_table,
  view_of, own_view, with_transport, first_value, passed_on, or_null,
}
use tartarus_nix.Clipboard.Schema.Listed.{AllGuarded, NoneTwice, names_of, validate_server-Guarded}
use tartarus_nix.Clipboard.Admissions.{Certified, admit-Certified}
use tartarus_nix.Fnmatch.{fnmatchcase}
use tartarus_nix.Clipboard.Isolation.{Isolated}
use tartarus_nix.Clipboard.Isolation.Runs.{run-Isolated}
use tartarus_nix.Clipboard.Delivery.{after_push, guest_set-get}

abbrev pub names : Directory
names = record {
  states = some ((codes "mail", some (codes "9")) ∷ (codes "dev", some (codes " 7 ")) ∷ []);
  id_for_ip = λ s. none;
  mofos_cid = λ n. none;
  mofos_ip = λ s. none;
  cert_cn = λ der. none;
  cert_has_oid = λ der oid. bytes_eq der oid;
}

abbrev world : World
world = record {
  now = λ trace. 1000;
  broken = λ trace handle. false;
  directory = names;
  repr = λ v. codes "'x'";
  error_text = λ trace. codes "Broken pipe";
}

-- The rules of the admins: the slots of two clients may be read and written.
abbrev pub clipboard_rules : List Rule
clipboard_rules =
    record {
      machine = [];
      listeners = codes "admin" ∷ [];
      action = codes "[gs]et" ∷ [];
      target = codes "vsock:[57]" ∷ [];
      policy = allow;
    }
    ∷ []

abbrev listening : Bool → Text → List Rule → Listener
listening admin name rules = record {
  config = no_fields;
  transport = codes "vsock";
  admin = admin;
  name = name;
  rules = rules;
  resolution = none;
  vm = (pos 5, codes "notes") ∷ [];
  tcp_vm = [];
}

abbrev guest : ℕ → Text → Connection
guest handle client_id = record {
  handle = handle;
  client_id = client_id;
  machine = none;
  listener = listening false (codes "guests") [];
}

abbrev host : Connection
host = record {
  handle = 9;
  client_id = codes "unix:local";
  machine = none;
  listener = listening true (codes "admin") clipboard_rules;
}

abbrev asks : Text → Value → Fields → Value
asks action content more =
    object (field (codes "action") (string action) (field (codes "data") content more))

-- A guest subscribes, another connection of it pushes, the host pushes to another guest, which pulls.
abbrev session : List Step
session =
    input (guest 1 (codes "vsock:7")) (parsed (asks (codes "subscribe") null no_fields))
    ∷ input (guest 2 (codes "vsock:7")) (parsed (asks (codes "set") (string (codes "a")) no_fields))
    ∷ input host (
        parsed (
          asks (codes "set") (string (codes "b"))
            (field (codes "target") (string (codes "vsock:5")) no_fields)))
    ∷ input (guest 3 (codes "vsock:5")) (parsed (asks (codes "get") null no_fields))
    ∷ expiry
    ∷ input (guest 1 (codes "vsock:7")) closed
    ∷ []

run-Isolated_example : Isolated (run world session idle)
run-Isolated_example = run-Isolated world session

abbrev written_to : ℕ → List Event → List Fields
written_to handle [] = []
written_to handle (wrote c m ∷ before) =
    if c.handle == handle then m ∷ written_to handle before else written_to handle before
written_to handle (_ ∷ before) = written_to handle before

abbrev stays : List Step
stays = take 4 session

-- The subscriber is sent what the other connection of its client pushed, and the other guest gets
-- what the host pushed.
session_writes :
    (written_to 1 (run world stays idle).trace ≡ ok_data (string (codes "a")) ∷ subscribed ∷ [])
    × (written_to 3 (run world stays idle).trace ≡ ok_data (string (codes "b")) ∷ [])
unfolding run step is_in wait_on settle end_connection serve_line serve_value read_request
    serve_request receive respond write_response recover handle_guest handle_admin admin_ruled
    admin_allowed admin_set guest_set guest_get own_content content_of subscribe enter appended
    write log notify notify_and_broadcast store_pushed store_slot notify_name slot_name pushed_name
    broadcast_to broadcast try_write is_excluded subscribers_of get_resolution_mode is_admin_action
    is_allowed verdict action_text target_text evaluate_rules matches machine_matches
    any_pattern_matches fnmatchcase resolve_target_to_id is_direct starts_with lookup equals
    bytes_eq truthy is_none get put
session_writes = (refl, refl)

abbrev request : Text → Value → Option Value → Request
request action content target = record {
  action = some (string action);
  content = content;
  target = target;
  wants_json = false;
}

abbrev push : Request
push = request (codes "set") (string (codes "a")) none

abbrev pull : Request
pull = request (codes "get") (string []) none

abbrev subscribed_hub : Hub
subscribed_hub = record {
  clipboards = [];
  subscribers = (codes "vsock:7", guest 1 (codes "vsock:7") ∷ guest 2 (codes "vsock:7") ∷ []) ∷ [];
  waiting = 1 ∷ [];
  ended = [];
  trace = [];
}

abbrev pushed_hub : Hub
pushed_hub = after_push world (guest 2 (codes "vsock:7")) push unresolved subscribed_hub

guest_set-get_example :
    (handle_guest world (guest 2 (codes "vsock:7")) push subscribed_hub
      ≡ (done (some status_ok), pushed_hub))
    × (handle_guest world (guest 3 (codes "vsock:7")) pull pushed_hub
        ≡ (done (some (ok_data (string (codes "a")))), pushed_hub))
unfolding get_resolution_mode is_none truthy
guest_set-get_example =
    guest_set-get world (guest 2 (codes "vsock:7")) push unresolved subscribed_hub (refl, refl) refl
      (guest 3 (codes "vsock:7")) pull refl (refl, refl) refl

abbrev context : Context
context = record {
  listener = codes "admin";
  machine = none;
  action = codes "get";
  target = some (codes "vsock:5");
}

evaluate_rules_unidentified_example : SomeRule (λ rule. AllowsAnyone rule context) clipboard_rules
unfolding evaluate_rules matches machine_matches any_pattern_matches fnmatchcase bytes_eq
evaluate_rules_unidentified_example = evaluate_rules_unidentified clipboard_rules context refl refl
