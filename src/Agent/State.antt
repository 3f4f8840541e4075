-- ===== src/Agent/State.antt =====
-- What one connection of the proxy holds, and what it does to the outside: the fields that
-- `Handler.setup` gives the handler, and the calls of upstream agents, dialogs and notifications as
-- events in order. What answers them is a parameter, `World`, and may depend on all that happened.
use tartarus_nix.Base.{ℕ, Bool, Option, none, some, List, [], ◌∷◌, Bytes, Text, Dict}
use tartarus_nix.Base.Effects.{Eff, done, raised}
use tartarus_nix.Agent.Wire.{failure}
use tartarus_nix.Agent.Rules.{KeyConfig, Rule}

-- The strings of `_determine_purpose`; `data_sign` carries the namespace that is shown.
pub data Purpose : Type 0 where
  git_signing server_auth unknown : Purpose
  data_sign : Text → Purpose

-- What a dialog asks for, with the values that its text shows.
pub data Prompt : Type 0 where
  use_key : Text → Purpose → Text → Prompt
  add_key : Text → Text → Text → Prompt
  remove_key : Text → Prompt
  remove_all : Prompt

pub data Notice : Type 0 where
  forbidden_key : Purpose → Notice
  refused : Purpose → Text → Notice
  forbidden_destination : Notice
  used : Text → Purpose → Notice
  mutation_refused mutation_done : Prompt → Notice
  filtered : ℕ → Notice

pub data Event : Type 0 where
  -- a message to the client
  sent : Bytes → Event
  -- a message to an upstream agent, and what came back
  asked : Text → Bytes → Option Bytes → Event
  prompted : Prompt → Bool → Event
  -- critical or not
  notified : Bool → Notice → Event

pub data Hash : Type 0 where
  sha1 sha256 sha384 sha512 : Hash

pub data Curve : Type 0 where
  nistp256 nistp384 nistp521 : Curve

-- What the program does not implement. The events are those before the call, newest first.
pub record World : Type 0 where
  pub request : List Event → Text → Bytes → Option Bytes
  -- `none`: the dialog could not be shown, which raises
  pub confirm : List Event → Prompt → Option Bool
  -- `_fingerprint`: base64 of SHA-256
  pub fingerprint : Bytes → Text
  -- `str.isprintable`
  pub printable : ℕ → Bool
  -- the public key, the signature and the data; `false` also for a malformed key
  pub verify_ed25519 : Bytes → Bytes → Bytes → Bool
  pub verify_rsa : ℕ → ℕ → Hash → Bytes → Bytes → Bool
  pub verify_ecdsa : Curve → Hash → Bytes → ℕ → ℕ → Bytes → Bool

pub record Config : Type 0 where
  pub keys : Dict KeyConfig
  pub rules : List Rule
  pub upstream_order : List Text

pub record Conn : Type 0 where
  pub vm_identity : Option Text
  pub listener_name : Option Text
  pub allowed_keys : Dict KeyConfig
  pub key_rule : Dict Rule
  pub key_upstream : Dict Text
  pub bound_destinations : Dict Bytes
  pub resolved_agent_sockets : List Text
  pub trace : List Event

abbrev pub Handle : Type 0 → Type 0
Handle A = Eff Conn A

-- `_send_msg`; its frame is `Framing.frame`
unfoldable pub send : Bytes → Handle (Unit {0})
send payload c = (done tt, record c { trace = sent payload ∷ c.trace })

unfoldable pub send_failure : Handle (Unit {0})
unfolding send
send_failure = send (failure ∷ [])

unfoldable pub notify : Bool → Notice → Handle (Unit {0})
notify critical notice c = (done tt, record c { trace = notified critical notice ∷ c.trace })

-- `link.request(msg)`
unfoldable pub request : World → Text → Bytes → Handle (Option Bytes)
request w path msg c =
    let answer = w.request c.trace path msg in
    (done answer, record c { trace = asked path msg answer ∷ c.trace })

unfoldable pub answered : Prompt → Option Bool → Handle Bool
answered prompt none c = (raised, c)
answered prompt (some ok) c = (done ok, record c { trace = prompted prompt ok ∷ c.trace })

-- `prompt_for_confirmation`
unfoldable pub confirm : World → Prompt → Handle Bool
unfolding answered
confirm w prompt c = answered prompt (w.confirm c.trace prompt) c
