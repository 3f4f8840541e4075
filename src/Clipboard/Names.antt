-- ===== src/Clipboard/Names.antt =====
-- How clipboard-bridge.py names the clients: their ids, the friendly names that a listener resolves,
-- and the client that the target of an admin stands for.
use tartarus_nix.Base.{
  ℕ, Bool, false, ◌||◌, Option, none, some, List, [], ◌∷◌, ◌++◌, Bytes, Text, Dict, codes, bytes_eq,
  starts_with, decimal, shown, int_of, drop, is_empty, if◌then◌else◌,
}
use tartarus_nix.Base.Options.{◌>>=◌}
use tartarus_nix.Base.Integers.{ℤ, int_eq}
use tartarus_nix.Json.{Value, Fields, equals, is_none}
use tartarus_nix.Clipboard.Rules.{Rule}

-- `client_address[0]`: a CID or an IP address
pub data Address : Type 0 where
  cid : ℕ → Address
  ip : Text → Address

-- One entry of `client_clipboards`; `content` is its `data`.
pub record Slot : Type 0 where
  pub content : Value
  pub updated : ℕ
  pub name : Option Text

-- What the handler reads of its listener. The two maps are those of `[[vm]]` and `[[tcp_vm]]`, with
-- integers for the CIDs.
pub record Listener : Type 0 where
  pub config : Fields
  pub transport : Text
  pub admin : Bool
  pub name : Text
  pub rules : List Rule
  pub resolution : Option Value
  pub vm : List (ℤ × Text)
  pub tcp_vm : List (Text × Text)

-- What is looked up outside of the program: the directories of `TARTARUS_STATE_ROOT`, each with the
-- text of its file `cid`, the guest behind an address in the ARP table, the answers of `mofos ls`,
-- and the names and the usages in a certificate.
pub record Directory : Type 0 where
  pub states : Option (List (Text × Option Text))
  pub id_for_ip : Text → Option ℤ
  pub mofos_cid : ℤ → Option Text
  pub mofos_ip : Text → Option Text
  pub cert_cn : Bytes → Option Text
  pub cert_has_oid : Bytes → Text → Bool

pub data Mode : Type 0 where
  unresolved certificate tartarus mofos : Mode

address_text : Address → Text
address_text (cid n) = decimal n
address_text (ip s) = s

unfoldable pub get_client_id : Text → Address → Text
unfolding address_text
get_client_id server_type address =
    if bytes_eq server_type (codes "vsock")
    then codes "vsock:" ++ address_text address
    else if bytes_eq server_type (codes "tcp")
    then codes "tcp:" ++ address_text address
    else if bytes_eq server_type (codes "unix")
    then codes "unix:local"
    else codes "unknown"

-- The first key whose value is the wanted one.
unfoldable pub key_of : {K : Type 0} → List (K × Text) → Text → Option K
key_of [] name = none
key_of ((key, other) ∷ entries) name = if bytes_eq other name then some key else key_of entries name

is_named : Option Text → Text → Bool
is_named none target = false
is_named (some name) target = bytes_eq name target

unfoldable pub client_named : Dict Slot → Text → Option Text
unfolding is_named
client_named [] target = none
client_named ((client, slot) ∷ slots) target =
    if is_named slot.name target then some client else client_named slots target

-- `target.startswith(("vsock:", "tcp:", "unix:"))`
unfoldable pub is_direct : Text → Bool
is_direct target =
    starts_with (codes "vsock:") target
    || starts_with (codes "tcp:") target
    || starts_with (codes "unix:") target

first_of : Option Text → Text → Text
first_of none other = other
first_of (some s) other = s

vsock_of : Option ℤ → Option Text
vsock_of none = none
vsock_of (some n) = some (codes "vsock:" ++ shown n)

tcp_of : Option Text → Option Text
tcp_of none = none
tcp_of (some s) = some (codes "tcp:" ++ s)

-- A target that is a text; the code returns None for None, which no accepted request asks for.
unfoldable pub resolve_target_to_id : Dict Slot → Listener → Text → Text
unfolding client_named is_direct first_of vsock_of tcp_of key_of
resolve_target_to_id slots listener target =
    if is_direct target
    then target
    else first_of (client_named slots target) (
        first_of (vsock_of (key_of listener.vm target))
          (first_of (tcp_of (key_of listener.tcp_vm target)) target))

has_cid : ℤ → Option Text → Bool
has_cid vm_id none = false
has_cid vm_id (some file) = elim (int_of 10 file) [ none ↦ false | some n ↦ int_eq n vm_id ]

state_named : List (Text × Option Text) → ℤ → Option Text
unfolding has_cid
state_named [] vm_id = none
state_named ((name, file) ∷ entries) vm_id =
    if has_cid vm_id file then some name else state_named entries vm_id

unfoldable pub tartarus_name_for_id : Directory → ℤ → Option Text
unfolding state_named
tartarus_name_for_id dir vm_id = do entries ← dir.states; state_named entries vm_id

-- `client_id.split(":", 1)[1]` of an id with the prefix `vsock:`
after_vsock : Text → Text
after_vsock client_id = drop 6 client_id

after_tcp : Text → Text
after_tcp client_id = drop 4 client_id

vm_name : List (ℤ × Text) → ℤ → Option Text
vm_name [] n = none
vm_name ((m, name) ∷ vms) n = if int_eq m n then some name else vm_name vms n

tcp_vm_name : List (Text × Text) → Text → Option Text
tcp_vm_name [] address = none
tcp_vm_name ((other, name) ∷ vms) address =
    if bytes_eq other address then some name else tcp_vm_name vms address

or_else : Option Text → Option Text → Option Text
or_else none other = other
or_else (some name) other = some name

vsock_name : Directory → Listener → ℤ → Option Text
unfolding vm_name or_else tartarus_name_for_id
vsock_name dir listener n = or_else (vm_name listener.vm n) (tartarus_name_for_id dir n)

unfoldable pub resolve_tartarus_name : Directory → Text → Listener → Option Text
unfolding after_vsock after_tcp vsock_name tcp_vm_name or_else tartarus_name_for_id
resolve_tartarus_name dir client_id listener =
    if starts_with (codes "vsock:") client_id
    then int_of 10 (after_vsock client_id) >>= vsock_name dir listener
    else if starts_with (codes "tcp:") client_id
    then or_else (tcp_vm_name listener.tcp_vm (after_tcp client_id))
        (dir.id_for_ip (after_tcp client_id) >>= tartarus_name_for_id dir)
    else none

name_or_id : Text → Option Text → Text
name_or_id client_id none = client_id
name_or_id client_id (some name) = if is_empty name then client_id else name

unfoldable pub resolve_client_name : Directory → Text → Text
unfolding after_vsock name_or_id tartarus_name_for_id
resolve_client_name dir client_id =
    if starts_with (codes "vsock:") client_id
    then name_or_id client_id (int_of 10 (after_vsock client_id) >>= tartarus_name_for_id dir)
    else client_id

-- `none` is a `ConfigError`.
unfoldable pub get_resolution_mode : Option Value → Option Mode
get_resolution_mode mode =
    if is_none mode
    then some unresolved
    else if equals mode (codes "none")
    then some unresolved
    else if equals mode (codes "certificate")
    then some certificate
    else if equals mode (codes "tartarus")
    then some tartarus
    else if equals mode (codes "mofos")
    then some mofos
    else none

certificate_name : Directory → Option Bytes → Option Text
certificate_name dir none = none
certificate_name dir (some der) = if is_empty der then none else dir.cert_cn der

mofos_name : Directory → Text → Option Text
unfolding after_vsock after_tcp
mofos_name dir client_id =
    if starts_with (codes "vsock:") client_id
    then int_of 10 (after_vsock client_id) >>= dir.mofos_cid
    else if starts_with (codes "tcp:") client_id
    then dir.mofos_ip (after_tcp client_id)
    else none

name_in_mode : Mode → Directory → Text → Listener → Option Bytes → Option Text
unfolding certificate_name mofos_name resolve_tartarus_name
name_in_mode unresolved dir client_id listener der = none
name_in_mode certificate dir client_id listener der = certificate_name dir der
name_in_mode tartarus dir client_id listener der = resolve_tartarus_name dir client_id listener
name_in_mode mofos dir client_id listener der = mofos_name dir client_id

-- The outer `none` is a `ConfigError`, the inner a peer without a name.
unfoldable pub resolve_friendly_name :
    Directory → Text → Listener → Option Bytes → Option (Option Text)
unfolding name_in_mode get_resolution_mode
resolve_friendly_name dir client_id listener der = do
  mode ← get_resolution_mode listener.resolution
  some (name_in_mode mode dir client_id listener der)
