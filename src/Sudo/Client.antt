-- ===== src/Sudo/Client.antt =====
-- `run_client` of sudo-auth-proxy.py once it is connected: the request, the one or two frames that it
-- reads, and its exit status. Every exception on the way ends in a status of one.

pub mod Exchange
use tartarus_nix.Base.{
  ℕ, Bool, true, false, not, Option, none, some, List, [], ◌∷◌, Text, codes, bytes_eq, length, leb,
  if◌then◌else◌,
}
use tartarus_nix.Base.Options.{◌>>=◌, require}
use tartarus_nix.Json.{Value, Fields, lookup, equals}
use tartarus_nix.Sudo.Protocol.{
  Libraries, Metadata, build_request, parse_pending, pending_type, max_message_bytes,
  encoded_message,
}
use tartarus_nix.Sudo.Security.{SecurityConfig, attach_client_auth, verify_response}
use tartarus_nix.Sudo.Server.{Frame, closed, malformed, unreadable, message}

-- The request that leaves the process; `none` when it is too long, has no encoding, or its method is unknown.
unfoldable pub outbound_request : Libraries → Text → Metadata → SecurityConfig → Option Fields
outbound_request lib nonce fields security = do
  request ← attach_client_auth (build_request nonce fields) security
  encoded ← encoded_message lib request
  _ ← require (leb (length encoded) max_message_bytes)
  some request

-- `read_frame`: the message, or an exception
unfoldable pub read_frame : List Frame → Option (Fields × List Frame)
read_frame (message m ∷ later) = some (m, later)
read_frame _ = none

-- What follows the first frame, which is the pending ack or the response itself.
unfoldable pub after_first : Fields → Fields → List Frame → Bool → Option Fields
after_first request first later false = some first
after_first request first later true = do
  _ ← parse_pending first (lookup request (codes "nonce"))
  (response, _) ← read_frame later
  some response

-- The response that the exchange ends with.
unfoldable pub final_response : Fields → List Frame → Option Fields
final_response request frames = do
  (first, later) ← read_frame frames
  after_first request first later (equals (lookup first (codes "type")) pending_type)

-- `sys.exit(0)` on a decision to allow, and a status of one on everything else.
unfoldable pub exit_status : Option Text → ℕ
exit_status none = 1
exit_status (some decision) = if bytes_eq decision (codes "allow") then 0 else 1

-- The decision, at the time `now` of its verification; the set of consumed nonces starts empty.
unfoldable pub client_decision : Libraries → Fields → SecurityConfig → ℕ → List Frame → Option Text
client_decision lib request security now frames = do
  response ← final_response request frames
  (decision, _) ← verify_response lib response request security now []
  some decision

unfoldable pub run_client : Libraries → Text → Metadata → SecurityConfig → ℕ → List Frame → ℕ
run_client lib nonce fields security now frames = exit_status (
    outbound_request lib nonce fields security >>= λ request.
    client_decision lib request security now frames)
