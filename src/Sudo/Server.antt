-- ===== src/Sudo/Server.antt =====
-- `Handler.handle` of sudo-auth-proxy.py, from the first frame on: what precedes it decides only
-- whether the connection is served, and gives the fields of Listener.
use tartarus_nix.Base.{
  ℕ, Bool, true, false, Option, none, some, List, [], ◌∷◌, Bytes, Text, codes, get, ltb, length,
  if◌then◌else◌,
}
use tartarus_nix.Base.Effects.{raised, Eff, done, pure, raise, lift, ◌>>=◌}
use tartarus_nix.Json.{Value, Fields, lookup, string_or_empty}
use tartarus_nix.Sudo.Protocol.{
  Libraries, parse_request, build_response, build_pending, max_message_bytes, encoded_message,
}
use tartarus_nix.Sudo.Rules.{
  Policy, allow, ask, deny, Context, evaluate_rules, identity_candidates, effective_target_user,
}
use tartarus_nix.Sudo.Security.{SecurityConfig, authenticate_request}
use tartarus_nix.Sudo.Display.{Texts, Confirmation, build_confirmation}

-- What the server did on a connection, the last first.
pub data Event : Type 0 where
  wrote : Fields → Event
  prompted : Confirmation → Bool → Event

-- What the code cannot decide by itself, by what happened before.
pub record World : Type 0 where
  pub lib : Libraries
  pub texts : Texts
  pub fingerprint : Bytes → Option Text
  -- whether the socket takes a frame
  pub takes : List Event → Fields → Bool
  -- `prompt_for_confirmation`
  pub approves : List Event → Confirmation → Bool
  pub now : List Event → ℕ
  pub timestamp : List Event → Text

pub record Listener : Type 0 where
  pub security : SecurityConfig
  pub name : Text
  pub approver : Text
  pub transport : Text
  -- the peer's name, sanitised
  pub peer : Text
  pub peer_cert_der : Option Bytes

-- The outcomes of `read_message`: an error of the frame or of the socket ends the connection.
pub data Frame : Type 0 where
  closed : Frame
  malformed : Frame
  unreadable : Frame
  message : Fields → Frame

abbrev pub Serve : Type 0 → Type 0
Serve = Eff (List Event)

-- A frame that is too long, or that the socket does not take, is not written.
unfoldable pub write_encoded : World → Fields → Option Bytes → Serve Bool
write_encoded w msg none trace = (raised, trace)
write_encoded w msg (some encoded) trace =
    if ltb max_message_bytes (length encoded)
    then (done false, trace)
    else if w.takes trace msg
    then (done true, wrote msg ∷ trace)
    else (done false, trace)

-- `write_message`: false for its `ProtocolError` or `OSError`, which the callers catch
unfoldable pub write_message : World → Fields → Serve Bool
write_message w msg trace = write_encoded w msg (encoded_message w.lib msg) trace

unfoldable pub prompt_for_confirmation : World → Confirmation → Serve Bool
prompt_for_confirmation w c trace =
    (done (w.approves trace c), prompted c (w.approves trace c) ∷ trace)

abbrev pub text_of : Fields → Text → Text
text_of request name = string_or_empty (lookup request name)

abbrev pub or_empty : Option Text → Text
or_empty none = []
or_empty (some s) = s

-- `"allow" if allowed else "deny"`
abbrev pub decision_text : Bool → Text
decision_text allowed = if allowed then codes "allow" else codes "deny"

module _ (w : World) (l : Listener) where
  abbrev pub label_of : Text → Text
  label_of requester = or_empty (get l.security.labels requester)

  -- The keyword arguments of `evaluate_rules`.
  unfoldable pub context_of : Fields → Text → Context
  context_of request requester = record {
    identities = identity_candidates requester (label_of requester) l.peer;
    target_user =
        effective_target_user (text_of request (codes "service"))
          (text_of request (codes "target_user")) (text_of request (codes "invoking_user"));
    invoking_user = text_of request (codes "invoking_user");
    service = text_of request (codes "service");
    listener = l.name;
  }

  unfoldable pub confirmation_of : Fields → Text → List Event → Confirmation
  confirmation_of request requester trace =
      build_confirmation w.texts l.peer requester (label_of requester) request l.transport
        (w.timestamp trace)

  -- The decision goes into a response, and the response to the peer.
  unfoldable pub respond : Fields → Value → Text → Serve Bool
  respond request nonce decision trace =
      (do
        response ← lift (
            build_response w.lib nonce decision request l.security.response_ttl l.approver
              (w.now trace))
        write_message w response)
        trace

  -- `policy in ("allow", "deny")`: whatever becomes of the write, the connection ends.
  unfoldable pub decide : Fields → Value → Text → Serve Bool
  decide request nonce decision = do _ ← respond request nonce decision; pure false

  unfoldable pub confirm : Fields → Value → Text → Serve Bool
  confirm request nonce requester trace =
      (do
        allowed ← prompt_for_confirmation w (confirmation_of request requester trace)
        respond request nonce (decision_text allowed))
        trace

  unfoldable pub ask_user : Fields → Value → Text → Serve Bool
  ask_user request nonce requester = do
    acknowledged ← write_message w (build_pending nonce)
    if acknowledged then confirm request nonce requester else pure false

  unfoldable pub apply_policy : Fields → Value → Text → Policy → Serve Bool
  apply_policy request nonce requester allow = decide request nonce (codes "allow")
  apply_policy request nonce requester deny = decide request nonce (codes "deny")
  apply_policy request nonce requester ask = ask_user request nonce requester

  -- `request["nonce"]` is there once the request is parsed.
  unfoldable pub answer : Fields → Option Value → Text → Serve Bool
  answer request none requester = raise
  answer request (some nonce) requester =
      apply_policy request nonce requester
        (evaluate_rules l.security.rules (context_of request requester))

  unfoldable pub serve_authenticated : Fields → Option Text → Serve Bool
  serve_authenticated request none = pure false
  serve_authenticated request (some requester) =
      answer request (lookup request (codes "nonce")) requester

  unfoldable pub serve_parsed : Option Fields → Serve Bool
  serve_parsed none = pure false
  serve_parsed (some request) =
      serve_authenticated request
        (authenticate_request w.fingerprint request l.security l.peer_cert_der)

  -- One round of the loop: whether the connection goes on.
  unfoldable pub serve_frame : Frame → Serve Bool
  serve_frame (message m) = serve_parsed (parse_request w.lib m)
  serve_frame _ = pure false

  -- The loop over the frames that the peer sends.
  unfoldable pub handle : List Frame → Serve (Unit {0})
  handle [] = pure tt
  handle (frame ∷ later) = do goes_on ← serve_frame frame; if goes_on then handle later else pure tt
