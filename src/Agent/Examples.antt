-- ===== src/Agent/Examples.antt =====
-- A small proxy with two keys and two agents: tests of the definitions, and the theorems at it.
use tartarus_nix.Base.{
  put, ap, zero, suc, ℕ, ◌≡◌, refl, true, false, Option, none, some, List, [], ◌∷◌, ◌++◌, Bytes,
  Text, codes, leb, get, contains, arith, length, bytes_eq, if◌then◌else◌, starts_with,
}
use tartarus_nix.Fnmatch.{fnmatchcase}
use tartarus_nix.Agent.Wire.{
  pack_int, ssh_buffer, ssh_string, read_string, has_data, read_byte, failure,
}
use tartarus_nix.Agent.Wire.RoundTrip.{read_string-ssh_string, rest, advance}
use tartarus_nix.Agent.Framing.{Socket, frame, recv_msg}
use tartarus_nix.Agent.Framing.Delivery.{recv_msg-frame, recv_msg_oversized, flat}
use tartarus_nix.Agent.Rules.{
  KeyConfig, Rule, applies, match_rule, matches_key, matches_machine, matches_listener,
  default_rule,
}
use tartarus_nix.Agent.Rules.Selectors.{
  applies_unidentified, matches_key-plain, match_rule-First, First,
}
use tartarus_nix.Fnmatch.{has_wildcard}
use tartarus_nix.Agent.State.{
  World, Config, Event, sent, server_auth, request, confirm, send, notify,
}
use tartarus_nix.Agent.Purpose.{determine_purpose}
use tartarus_nix.Agent.Sign.{
  sign_via_upstream, sign_loop, settle, usable, keep_last, answer_sign, policy_for, restricted,
  authorize, sign_authorized, sign_ruled, sign_parsed, sign_fields, handle_sign_request,
}
use tartarus_nix.Agent.Sign.Routing.{Relays, sign_via_upstream-Relays}
use tartarus_nix.Agent.Loop.{dispatch, serve, setup}
use tartarus_nix.Agent.Safety.{AllJustified}
use tartarus_nix.Agent.Safety.Runs.{serve_justified}
use tartarus_nix.Agent.Replies.{replies}
use tartarus_nix.Agent.Replies.Runs.{serve_one_reply, requests, handled, Served}

-- The first agent declines every request, the second answers it.
abbrev world : World
world = record {
  request = λ t path msg.
      if bytes_eq path (codes "keychain") then some (failure ∷ []) else some (14 ∷ 1 ∷ []);
  confirm = λ t prompt. some true;
  fingerprint = λ b. codes "SHA256:x";
  printable = λ c. leb 32 c;
  verify_ed25519 = λ k s d. true;
  verify_rsa = λ e n h s d. false;
  verify_ecdsa = λ c h p r s d. false;
}

abbrev blob : Bytes
blob = 7 ∷ 7 ∷ []

abbrev work_key : KeyConfig
work_key = record {
  id = codes "work";
  key_type = codes "ssh-ed25519";
  public_blob = blob;
  fingerprint = codes "SHA256:y";
  socket = codes "keychain";
  explicit_socket = false;
}

abbrev ask_rule : Rule
ask_rule = record default_rule { key = codes "work"; machine = codes "vm-*" ∷ [] }

abbrev config : Config
config = record {
  keys = (blob, work_key) ∷ [];
  rules = ask_rule ∷ [];
  upstream_order = codes "keychain" ∷ codes "gpg" ∷ [];
}

abbrev peer : Option Text
peer = some (codes "vm-a")

-- A sign request for `blob`, over the data of an authentication in session 9.
abbrev auth_request : Bytes
auth_request =
    13 ∷ 0 ∷ 0 ∷ 0 ∷ 2 ∷ 7 ∷ 7 ∷ 0 ∷ 0 ∷ 0 ∷ 6 ∷ 0 ∷ 0 ∷ 0 ∷ 1 ∷ 9 ∷ 50 ∷ 0 ∷ 0 ∷ 0 ∷ 0 ∷ []

vm_pattern : fnmatchcase (codes "vm-a") (codes "vm-[!b-z]*") ≡ true
unfolding fnmatchcase
vm_pattern = refl

auth_purpose : determine_purpose world (0 ∷ 0 ∷ 0 ∷ 1 ∷ 9 ∷ 50 ∷ []) ≡ server_auth
unfolding determine_purpose read_string ssh_buffer starts_with has_data read_byte
auth_purpose = refl

last_sent : List Event → Option Bytes
last_sent [] = none
last_sent (sent payload ∷ l) = some payload
last_sent (_ ∷ l) = last_sent l

abbrev two_agents : List Text
two_agents = codes "keychain" ∷ codes "gpg" ∷ []

-- The declining agent is passed over, and the client gets the answer of the other.
relayed_run :
    last_sent (serve world config two_agents (auth_request ∷ []) (setup config peer none).0).1.trace
    ≡ some (14 ∷ 1 ∷ [])
unfolding last_sent serve setup dispatch handle_sign_request sign_fields sign_parsed sign_ruled
    policy_for restricted authorize confirm sign_authorized sign_via_upstream sign_loop settle
    usable request answer_sign send notify keep_last contains determine_purpose read_string
    ssh_buffer starts_with has_data read_byte match_rule matches_key matches_machine
    matches_listener fnmatchcase has_wildcard bytes_eq get put
relayed_run = refl

abbrev starred : Rule
starred = record default_rule { machine = codes "*" ∷ [] }

read_string-ssh_string_example :
    (read_string (ssh_buffer (0 ∷ 0 ∷ 0 ∷ 1 ∷ 9 ∷ 50 ∷ []))
      ≡ some (9 ∷ [], advance (advance (ssh_buffer (0 ∷ 0 ∷ 0 ∷ 1 ∷ 9 ∷ 50 ∷ [])) 4) 1))
    × (rest (advance (advance (ssh_buffer (0 ∷ 0 ∷ 0 ∷ 1 ∷ 9 ∷ 50 ∷ [])) 4) 1) ≡ 50 ∷ [])
unfolding ssh_string ssh_buffer
read_string-ssh_string_example =
    read_string-ssh_string (ssh_buffer (0 ∷ 0 ∷ 0 ∷ 1 ∷ 9 ∷ 50 ∷ [])) (9 ∷ [])
      (0 ∷ 0 ∷ 0 ∷ 1 ∷ 9 ∷ []) (50 ∷ []) refl refl

-- The frame of one byte, in three chunks.
abbrev cut : Socket
cut = (0 ∷ 0 ∷ []) ∷ (0 ∷ []) ∷ (1 ∷ 11 ∷ 0 ∷ []) ∷ []

recv_msg-frame_example : ((recv_msg cut).0 ≡ some (11 ∷ [])) × (flat (recv_msg cut).1 ≡ 0 ∷ [])
unfolding frame
recv_msg-frame_example =
    recv_msg-frame cut (11 ∷ []) (0 ∷ 0 ∷ 0 ∷ 1 ∷ 11 ∷ []) (0 ∷ []) (omega arith) refl refl

zeros : ℕ → Bytes
zeros zero = []
zeros (suc n) = 0 ∷ zeros n

length-zeros : (n : ℕ) → length (zeros n) ≡ n
unfolding zeros
length-zeros zero = refl
length-zeros (suc n) = ap suc (length-zeros n)

-- One byte over the limit, and the frame that would hold it.
abbrev long_payload : Bytes
long_payload = zeros 262145

abbrev long_frame : Bytes
long_frame = 0 ∷ 4 ∷ 0 ∷ 1 ∷ long_payload

frame_long : frame long_payload ≡ some long_frame
unfolding frame pack_int
frame_long = rw (length-zeros 262145, frame) refl

recv_msg_oversized_example :
    ((recv_msg (long_frame ∷ [])).0 ≡ none)
    × (flat (recv_msg (long_frame ∷ [])).1 ≡ long_payload ++ [])
recv_msg_oversized_example =
    recv_msg_oversized (long_frame ∷ []) long_payload long_frame []
      (rw (length-zeros 262145) (omega arith)) frame_long refl

applies_unidentified_example : applies starred (codes "k") peer none ≡ true
unfolding matches_key matches_machine matches_listener fnmatchcase has_wildcard bytes_eq
applies_unidentified_example = applies_unidentified starred (codes "k") peer none refl

matches_key-plain_example :
    (matches_key ask_rule (codes "work") ≡ bytes_eq (codes "work") (codes "work"))
    × (matches_key ask_rule (codes "*") ≡ false)
unfolding has_wildcard
matches_key-plain_example = matches_key-plain ask_rule (codes "work") refl

match_rule-First_example : First (config.rules) (λ r. applies r (codes "work") peer none) ask_rule
unfolding match_rule matches_key matches_machine matches_listener fnmatchcase has_wildcard bytes_eq
match_rule-First_example = match_rule-First config.rules (codes "work") peer none ask_rule refl

-- A signature, and the removal of every key.
abbrev two_requests : List Bytes
two_requests = auth_request ∷ (19 ∷ []) ∷ []

serve_justified_example :
    AllJustified world config peer none
      (serve world config two_agents two_requests (setup config peer none).0).1.trace
serve_justified_example = serve_justified world config peer none two_agents two_requests

serve_one_reply_example :
    Served
      (requests two_requests)
      (handled world config two_agents two_requests (setup config peer none).0)
      (replies (setup config peer none).0.trace)
      (serve world config two_agents two_requests (setup config peer none).0).0
      (replies (serve world config two_agents two_requests (setup config peer none).0).1.trace)
serve_one_reply_example =
    serve_one_reply world config two_agents two_requests (setup config peer none).0

sign_via_upstream-Relays_example :
    Relays auth_request two_agents two_agents []
      (setup config peer none).0
      (sign_via_upstream world two_agents blob work_key auth_request (setup config peer none).0)
sign_via_upstream-Relays_example =
    sign_via_upstream-Relays world two_agents blob work_key auth_request (setup config peer none).0
