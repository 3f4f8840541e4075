-- ===== src/Clipboard/Loop.antt =====
-- `ClipboardHandler.handle` of clipboard-bridge.py: who is served, and the loop over the requests of
-- a connection, as steps that the threads of all connections take in turn. One request is one step.
use tartarus_nix.Base.{
  ℕ, Bool, true, false, ◌||◌, Option, none, some, List, [], ◌∷◌, Bytes, Text, Dict, codes, get, put,
  remove, is_empty, ◌==◌, if◌then◌else◌,
}
use tartarus_nix.Base.Effects.{Outcome, done, raised, pure, ◌>>=◌, ◌>>◌}
use tartarus_nix.Json.{Value, string, object, Fields, no_fields, lookup, truthy, string_or_empty}
use tartarus_nix.Clipboard.Security.{
  Knobs, Encryption, mtls, plain, table_of, resolve_listener_security,
}
use tartarus_nix.Clipboard.Names.{
  Address, Listener, Directory, get_client_id, resolve_friendly_name,
}
use tartarus_nix.Clipboard.Hub.{
  Connection, Request, Hub, World, Serve, received, log, write, expire_clients,
}
use tartarus_nix.Clipboard.Handlers.{handle_admin, handle_guest, unauthorized}

-- How `handle` begins: it serves the connection, it refuses it with a message, or it raises.
pub data Admission : Type 0 where
  serves : Connection → Admission
  refuses : Text → Admission
  fails : Admission

-- `verify_cert_der`, where there is a certificate and an OID to look for in it.
unfoldable pub peer_verified : Directory → Encryption → Fields → Option Bytes → Bool
peer_verified dir mtls block (some der) =
    let oid = string_or_empty (lookup block (codes "peer_required_oid")) in
    is_empty oid || is_empty der || dir.cert_has_oid der oid
peer_verified dir encryption block der = true

-- The certificate is read of a connection over TLS only.
unfoldable pub read_certificate : Encryption → Option Bytes → Option Bytes
read_certificate mtls der = der
read_certificate plain der = none

unfoldable pub admit_named : ℕ → Text → Listener → Option (Option Text) → Admission
admit_named handle client_id listener none = fails
admit_named handle client_id listener (some machine) =
    serves
      (record { handle = handle; client_id = client_id; machine = machine; listener = listener })

unfoldable pub mtls_block : Fields → Fields
mtls_block config = elim (table_of (lookup config (codes "mtls"))) [
  | none ↦ no_fields
  | some block ↦ block
]

unfoldable pub admit_secured :
    Directory → ℕ → Text → Listener → Option Bytes → Option Knobs → Admission
unfolding peer_verified read_certificate admit_named mtls_block
admit_secured dir handle client_id listener der none = refuses (codes "configuration error")
admit_secured dir handle client_id listener der (some knobs) =
    let encryption = knobs.transport_encryption in
    let peer_der = read_certificate encryption der in
    if peer_verified dir encryption (mtls_block listener.config) peer_der
    then admit_named handle client_id listener
        (resolve_friendly_name dir client_id listener peer_der)
    else refuses (codes "SSL verification failed")

unfoldable pub admit : Directory → ℕ → Listener → Address → Option Bytes → Admission
unfolding admit_secured
admit dir handle listener address der =
    admit_secured dir handle (get_client_id listener.transport address) listener der
      (resolve_listener_security listener.config)

or_empty_text : Option Value → Value
or_empty_text none = string []
or_empty_text (some v) = v

-- The four reads of `handle`; a request that is no object raises.
unfoldable pub read_request : Value → Option Request
unfolding or_empty_text
read_request (object d) = some (record {
  action = lookup d (codes "action");
  content = or_empty_text (lookup d (codes "data"));
  target = lookup d (codes "target");
  wants_json = truthy (lookup d (codes "json"));
})
read_request _ = none

-- A line that the client sends, as `json.loads` reads it: the message of the exception, or a value.
-- The connection is closed by its peer or by the timeout of a read.
pub data Input : Type 0 where
  garbled : Text → Input
  parsed : Value → Input
  closed : Input

unfoldable pub receive : Connection → Request → Serve (Unit {0})
unfolding log
receive c r h = (done tt, log (received c r h.clipboards) h)

unfoldable pub respond : World → Connection → Request → Serve (Option Fields)
respond w c r = if c.listener.admin then handle_admin w c r else handle_guest w c r

-- Whether the loop goes on.
unfoldable pub write_response : World → Connection → Option Fields → Serve Bool
write_response w c none = pure false
write_response w c (some response) = do write w c response; pure true

unfoldable pub serve_request : World → Connection → Request → Serve Bool
unfolding receive respond write_response
serve_request w c r = do receive c r; response ← respond w c r; write_response w c response

unfoldable pub was_written : Outcome (Unit {0}) × Hub → Outcome Bool × Hub
was_written (raised, h) = (done false, h)
was_written (done u, h) = (done true, h)

-- The reply to an exception. If it cannot be written, the loop ends.
unfoldable pub write_error : World → Connection → Text → Serve Bool
unfolding was_written
write_error w c text h = was_written (write w c (unauthorized text) h)

unfoldable pub recover : World → Connection → Outcome Bool × Hub → Outcome Bool × Hub
unfolding write_error
recover w c (done b, h) = (done b, h)
recover w c (raised, h) = write_error w c (w.error_text h.trace) h

unfoldable pub serve_value : World → Connection → Option Request → Serve Bool
unfolding recover serve_request
serve_value w c none h = recover w c (raised, h)
serve_value w c (some r) h = recover w c (serve_request w c r h)

unfoldable pub serve_line : World → Connection → Input → Serve Bool
unfolding serve_value read_request write_error
serve_line w c (garbled text) = write_error w c text
serve_line w c (parsed v) = serve_value w c (read_request v)
serve_line w c closed = pure false

unfoldable pub is_in : ℕ → List ℕ → Bool
is_in n [] = false
is_in n (m ∷ ms) = n == m || is_in n ms

unfoldable pub without : Connection → List Connection → List Connection
without c [] = []
without c (d ∷ subs) = let rest = without c subs in if d.handle == c.handle then subs else d ∷ rest

unfoldable pub left : Text → Dict (List Connection) → List Connection → Dict (List Connection)
left client_id subscribers [] = remove subscribers client_id
left client_id subscribers (c ∷ subs) = put subscribers client_id (c ∷ subs)

unfoldable pub subscribers_without :
    Connection → Dict (List Connection) → Option (List Connection) → Dict (List Connection)
unfolding without left
subscribers_without c subscribers none = remove subscribers c.client_id
subscribers_without c subscribers (some subs) = left c.client_id subscribers (without c subs)

-- The `finally` of a subscription.
unfoldable pub unsubscribe : Connection → Hub → Hub
unfolding subscribers_without
unsubscribe c h = record h {
  subscribers = subscribers_without c h.subscribers (get h.subscribers c.client_id);
  ended = c.handle ∷ h.ended;
}

unfoldable pub end_connection : Connection → Hub → Hub
end_connection c h = record h { ended = c.handle ∷ h.ended }

unfoldable pub settle : Connection → Outcome Bool × Hub → Hub
unfolding is_in end_connection
settle c (done true, h) = h
settle c (_, h) = if is_in c.handle h.waiting then h else end_connection c h

-- A subscriber's lines are read and dropped.
unfoldable pub wait_on : Connection → Input → Hub → Hub
unfolding unsubscribe
wait_on c closed h = unsubscribe c h
wait_on c _ h = h

pub data Step : Type 0 where
  input : Connection → Input → Step
  -- the timer of `cmd_serve`
  expiry : Step

unfoldable pub step : World → Step → Hub → Hub
unfolding is_in wait_on settle serve_line expire_clients
step w (input c i) h =
    if is_in c.handle h.ended
    then h
    else if is_in c.handle h.waiting
    then wait_on c i h
    else settle c (serve_line w c i h)
step w expiry h = expire_clients w h

unfoldable pub run : World → List Step → Hub → Hub
unfolding step
run w [] h = h
run w (s ∷ steps) h = run w steps (step w s h)

abbrev pub idle : Hub
idle = record { clipboards = []; subscribers = []; waiting = []; ended = []; trace = [] }
