-- ===== src/Clipboard/Handlers.antt =====
-- `_handle_admin` and `_handle_guest` of clipboard-bridge.py.
use tartarus_nix.Base.{
  ℕ, Bool, true, false, ◌&&◌, ◌||◌, Option, none, some, List, [], ◌∷◌, ◌++◌, Text, Dict, codes, get,
  put, is_empty, if◌then◌else◌,
}
use tartarus_nix.Base.Integers.{pos}
use tartarus_nix.Base.Effects.{done, pure, raise, ◌>>◌}
use tartarus_nix.Json.{
  Value, null, integer, string, array, object, Values, no_values, value, Fields, no_fields, field,
  equals, truthy,
}
use tartarus_nix.Clipboard.Rules.{Policy, allow, deny, evaluate_rules}
use tartarus_nix.Clipboard.Names.{Listener, Slot, resolve_target_to_id}
use tartarus_nix.Clipboard.Hub.{
  Connection, Request, World, Serve, status_ok, ok_data, write, notify_and_broadcast,
}

-- `_unauthorized`
unfoldable pub unauthorized : Text → Fields
unauthorized message =
    field (codes "status") (string (codes "error"))
      (field (codes "message") (string message) no_fields)

abbrev pub not_authorized : Text
not_authorized = codes "request not authorized by listener/rule"

name_value : Option Text → Value
name_value none = null
name_value (some name) = string name

client_entry : Text → Slot → Fields
unfolding name_value
client_entry client slot = field (codes "id") (string client) (
    field (codes "name") (name_value slot.name)
      (field (codes "updated") (integer (pos slot.updated)) no_fields))

-- The list of the clients, which shows no data.
unfoldable pub clients_list : Dict Slot → Values
unfolding client_entry
clients_list [] = no_values
clients_list ((client, slot) ∷ slots) =
    value (object (client_entry client slot)) (clients_list slots)

slot_value : Slot → Value
unfolding name_value
slot_value slot = object (
    field (codes "data") slot.content (
      field (codes "updated") (integer (pos slot.updated))
        (field (codes "name") (name_value slot.name) no_fields)))

unfoldable pub slots_map : Dict Slot → Fields
unfolding slot_value
slots_map [] = no_fields
slots_map ((client, slot) ∷ slots) = field client (slot_value slot) (slots_map slots)

entry_map : Text → Option Slot → Fields
unfolding slot_value
entry_map client none = no_fields
entry_map client (some slot) = field client (slot_value slot) no_fields

-- `info.get("data", "")` of a slot or of none
unfoldable pub content_of : Option Slot → Value
content_of none = string []
content_of (some slot) = slot.content

-- `target or ""`. A target that is true and no text is not modelled: it is taken as an exception.
unfoldable pub target_text : Option Value → Option Text
target_text (some (string s)) = some s
target_text v = if truthy v then none else some []

abbrev pub no_admin_action : Text
no_admin_action =
    codes
      "request not authorized by listener/rule: this is not an admin action on the admin listener"

unfoldable pub is_admin_action : Request → Bool
is_admin_action r =
    equals r.action (codes "clients")
    || (equals r.action (codes "get") && (truthy r.target || r.wants_json))
    || (equals r.action (codes "set") && truthy r.target)

unfoldable pub action_text : Option Value → Text
action_text (some (string s)) = s
action_text _ = []

-- The rules' verdict on a request from a connection.
unfoldable pub verdict : Connection → Request → Text → Policy
unfolding action_text
verdict c r target = evaluate_rules c.listener.rules (record {
  listener = c.listener.name;
  machine = c.machine;
  action = action_text r.action;
  target = some target;
})

unfoldable pub is_allowed : Policy → Bool
is_allowed allow = true
is_allowed deny = false

unfoldable pub shown_map : Dict Slot → Listener → Text → Fields
unfolding entry_map slots_map
shown_map slots listener target =
    let client = resolve_target_to_id slots listener target in
    if is_empty target then slots_map slots else entry_map client (get slots client)

-- What an allowed `get` answers.
unfoldable pub got : Dict Slot → Listener → Request → Text → Value
unfolding shown_map content_of
got slots listener r target =
    if r.wants_json
    then object (shown_map slots listener target)
    else content_of (get slots (resolve_target_to_id slots listener target))

unfoldable pub admin_get : Connection → Request → Text → Serve (Option Fields)
unfolding got
admin_get c r target h = (done (some (ok_data (got h.clipboards c.listener r target))), h)

unfoldable pub admin_clients : Serve (Option Fields)
unfolding clients_list
admin_clients h = (done (some (ok_data (array (clients_list h.clipboards)))), h)

unfoldable pub admin_set : World → Connection → Request → Text → Serve (Option Fields)
admin_set w c r target h =
    (do
      notify_and_broadcast w c.listener (resolve_target_to_id h.clipboards c.listener target)
          r.content (codes "Host push") none none
      pure (some status_ok))
      h

unfoldable pub admin_allowed : World → Connection → Request → Text → Serve (Option Fields)
unfolding admin_clients admin_get admin_set
admin_allowed w c r target =
    if equals r.action (codes "clients")
    then admin_clients
    else if equals r.action (codes "get")
    then admin_get c r target
    else admin_set w c r target

unfoldable pub admin_ruled : World → Connection → Request → Option Text → Serve (Option Fields)
unfolding admin_allowed is_allowed
admin_ruled w c r none = raise
admin_ruled w c r (some target) =
    if is_allowed (verdict c r target)
    then admin_allowed w c r target
    else pure (some (unauthorized not_authorized))

unfoldable pub handle_admin : World → Connection → Request → Serve (Option Fields)
unfolding admin_ruled
handle_admin w c r =
    if is_admin_action r
    then admin_ruled w c r (target_text r.target)
    else pure (some (unauthorized no_admin_action))

unfoldable pub guest_set : World → Connection → Request → Serve (Option Fields)
guest_set w c r =
    if truthy r.target
    then pure (
        some (
          unauthorized (
            codes
              "request not authorized by listener/rule: a guest listener only writes the caller's own slot")))
    else (do
      notify_and_broadcast w c.listener c.client_id r.content (codes "Push") c.machine (some c)
      pure (some status_ok))

unfoldable pub own_content : Connection → Serve (Option Fields)
unfolding content_of
own_content c h = (done (some (ok_data (content_of (get h.clipboards c.client_id)))), h)

unfoldable pub guest_get : Connection → Request → Serve (Option Fields)
unfolding own_content
guest_get c r =
    if truthy r.target || r.wants_json
    then pure (
        some (
          unauthorized (
            codes
              "request not authorized by listener/rule: a guest listener only reads the caller's own slot")))
    else own_content c

or_machine : Option Text → Option Text → Option Text
or_machine none name = name
or_machine (some machine) name = some machine

unfoldable pub registered : ℕ → Option Text → Option Slot → Slot
unfolding or_machine
registered now machine none = record { content = string []; updated = now; name = machine }
registered now machine (some slot) = record slot {
  updated = now;
  name = or_machine machine slot.name;
}

unfoldable pub register : World → Connection → Serve (Option Fields)
unfolding registered
register w c h = (
  done (some status_ok),
  record h {
    clipboards =
        put h.clipboards c.client_id
          (registered (w.now h.trace) c.machine (get h.clipboards c.client_id));
  },
)

-- `client_subscribers.setdefault(client_id, []).append(self.wfile)`
unfoldable pub appended : Connection → Option (List Connection) → List Connection
appended c none = c ∷ []
appended c (some subs) = subs ++ c ∷ []

unfoldable pub enter : Connection → Serve (Option Fields)
unfolding appended
enter c h = (
  done none,
  record h {
    subscribers = put h.subscribers c.client_id (appended c (get h.subscribers c.client_id));
    waiting = c.handle ∷ h.waiting;
  },
)

abbrev pub subscribed : Fields
subscribed =
    field (codes "status") (string (codes "ok"))
      (field (codes "message") (string (codes "Subscribed")) no_fields)

-- Up to the loop that waits for the client to leave.
unfoldable pub subscribe : World → Connection → Serve (Option Fields)
unfolding enter
subscribe w c = do write w c subscribed; enter c

unfoldable pub handle_guest : World → Connection → Request → Serve (Option Fields)
unfolding guest_set guest_get register subscribe
handle_guest w c r =
    if equals r.action (codes "set")
    then guest_set w c r
    else if equals r.action (codes "get")
    then guest_get c r
    else if equals r.action (codes "register")
    then register w c
    else if equals r.action (codes "subscribe")
    then subscribe w c
    else pure (
        some (
          unauthorized (
            codes "request not authorized by listener/rule: unknown guest action "
            ++ w.repr r.action)))
