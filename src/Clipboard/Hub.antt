-- ===== src/Clipboard/Hub.antt =====
-- The state that the threads of the clipboard server share, and `notify_and_broadcast` and
-- `expire_clients`, which change it. A connection's file is the connection itself, told from others
-- by its handle.
use tartarus_nix.Base.{
  ℕ, ◌-◌, Bool, false, not, ◌&&◌, Option, none, some, List, [], ◌∷◌, Text, Dict, codes, get, put,
  is_some, ltb, ◌==◌, if◌then◌else◌,
}
use tartarus_nix.Base.Effects.{Eff, done, raised, pure, lift, ◌>>=◌, ◌>>◌}
use tartarus_nix.Json.{Value, string, Fields, no_fields, field}
use tartarus_nix.Clipboard.Names.{
  Listener, Slot, Directory, Mode, unresolved, get_resolution_mode, resolve_client_name,
}

-- The locals of `ClipboardHandler.handle`.
pub record Connection : Type 0 where
  pub handle : ℕ
  pub client_id : Text
  pub machine : Option Text
  pub listener : Listener

-- `request.get` of the four keys.
pub record Request : Type 0 where
  pub action : Option Value
  pub content : Value
  pub target : Option Value
  pub wants_json : Bool

pub data Event : Type 0 where
  -- a request that was read, and the slots as it found them
  received : Connection → Request → Dict Slot → Event
  -- a JSON object written to a connection
  wrote : Connection → Fields → Event
  -- the name and the text of a desktop notification
  notified : Option Text → Text → Event

pub record Hub : Type 0 where
  -- `client_clipboards`
  pub clipboards : Dict Slot
  -- `client_subscribers`
  pub subscribers : Dict (List Connection)
  -- the handles whose thread waits in the loop of a subscription, and those whose thread is done
  pub waiting : List ℕ
  pub ended : List ℕ
  -- newest first
  pub trace : List Event

-- What the program does not decide: the time, which writes raise, and the lookups of names. The
-- first two may depend on all that happened.
pub record World : Type 0 where
  pub now : List Event → ℕ
  pub broken : List Event → ℕ → Bool
  pub directory : Directory
  -- `repr` of a value of a request
  pub repr : Option Value → Text
  -- `str` of the exception that a request ends in
  pub error_text : List Event → Text

abbrev pub Serve : Type 0 → Type 0
Serve A = Eff Hub A

unfoldable pub log : Event → Hub → Hub
log e h = record h { trace = e ∷ h.trace }

-- `wfile.write` and `wfile.flush`
unfoldable pub write : World → Connection → Fields → Serve (Unit {0})
unfolding log
write w c message h =
    if w.broken h.trace c.handle then (raised, h) else (done tt, log (wrote c message) h)

-- `notify`: its `no_notify` is off
unfoldable pub notify : Option Text → Text → Serve (Unit {0})
unfolding log
notify name action h = (done tt, log (notified name action) h)

abbrev pub status_ok : Fields
status_ok = field (codes "status") (string (codes "ok")) no_fields

abbrev pub ok_data : Value → Fields
ok_data v = field (codes "status") (string (codes "ok")) (field (codes "data") v no_fields)

-- The name of a slot that is there and has one.
unfoldable pub slot_name : Option Slot → Option Text
slot_name none = none
slot_name (some slot) = slot.name

name_or : Directory → Text → Option Text → Text
unfolding resolve_client_name
name_or dir target_id none = resolve_client_name dir target_id
name_or dir target_id (some name) = name

-- The name that the slot gets.
unfoldable pub pushed_name : Directory → Dict Slot → Mode → Text → Option Text → Option Text
unfolding slot_name name_or
pushed_name dir slots unresolved target_id name = none
pushed_name dir slots mode target_id (some name) = some name
pushed_name dir slots mode target_id none =
    some (name_or dir target_id (slot_name (get slots target_id)))

unfoldable pub store_slot : Text → Slot → Serve (Unit {0})
store_slot client slot h = (done tt, record h { clipboards = put h.clipboards client slot })

-- `wfile is exclude_wfile`
unfoldable pub is_excluded : Option Connection → Connection → Bool
is_excluded none c = false
is_excluded (some writer) c = c.handle == writer.handle

-- A write that raises is passed over.
unfoldable pub try_write : World → Connection → Fields → Serve (Unit {0})
unfolding log
try_write w c message h =
    if w.broken h.trace c.handle then (done tt, h) else (done tt, log (wrote c message) h)

unfoldable pub broadcast : World → Option Connection → Value → List Connection → Serve (Unit {0})
unfolding try_write is_excluded
broadcast w exclude content [] = pure tt
broadcast w exclude content (c ∷ subs) = do
  if is_excluded exclude c then pure tt else try_write w c (ok_data content)
  broadcast w exclude content subs

unfoldable pub subscribers_of : Option (List Connection) → List Connection
subscribers_of none = []
subscribers_of (some subs) = subs

unfoldable pub broadcast_to : World → Option Connection → Value → Text → Serve (Unit {0})
unfolding broadcast subscribers_of
broadcast_to w exclude content target_id h =
    broadcast w exclude content (subscribers_of (get h.subscribers target_id)) h

unfoldable pub store_pushed : World → Mode → Text → Value → Option Text → Serve (Unit {0})
unfolding store_slot
store_pushed w mode target_id content name h =
    store_slot target_id
      (record {
        content = content;
        updated = w.now h.trace;
        name = pushed_name w.directory h.clipboards mode target_id name;
      })
      h

unfoldable pub notify_name : Text → Text → Serve (Unit {0})
unfolding notify
notify_name target_id action h = notify (slot_name (get h.clipboards target_id)) action h

-- The configuration is always given.
unfoldable pub notify_and_broadcast :
    World → Listener → Text → Value → Text → Option Text → Option Connection → Serve (Unit {0})
unfolding store_pushed notify_name broadcast_to
notify_and_broadcast w listener target_id content action name exclude = do
  mode ← lift (get_resolution_mode listener.resolution)
  store_pushed w mode target_id content name
  notify_name target_id action
  broadcast_to w exclude content target_id

abbrev pub client_expiry_seconds : ℕ
client_expiry_seconds = 300

-- `info.get("updated", 0) < time.time() - CLIENT_EXPIRY_SECONDS`, for a client without subscribers
unfoldable pub is_stale : Dict (List Connection) → ℕ → Text → Slot → Bool
is_stale subscribers now client slot =
    not (is_some (get subscribers client)) && ltb slot.updated (now - client_expiry_seconds)

unfoldable pub unexpired : Dict (List Connection) → ℕ → Dict Slot → Dict Slot
unfolding is_stale
unexpired subscribers now [] = []
unexpired subscribers now ((client, slot) ∷ slots) =
    let rest = unexpired subscribers now slots in
    if is_stale subscribers now client slot then rest else (client, slot) ∷ rest

-- A stale client has no subscribers to forget.
unfoldable pub expire_clients : World → Hub → Hub
unfolding unexpired
expire_clients w h = record h { clipboards = unexpired h.subscribers (w.now h.trace) h.clipboards }
