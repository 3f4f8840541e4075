-- ===== src/Agent/Mutation.antt =====
-- `_public_blob_from_private`, `_authorize_mutation`, `_mutation_target`, `_forward_mutation`,
-- `_handle_add` and `_handle_remove` of ssh-agent-proxy.py.
use tartarus_nix.Base.{
  ℕ, zero, suc, Bool, false, Option, none, some, List, [], ◌∷◌, ◌++◌, Bytes, Text, codes, bytes_eq,
  starts_with, contains, get, ◌==◌, if◌then◌else◌,
}
use tartarus_nix.Base.Effects.{lift, raise, pure, ◌>>=◌, ◌>>◌}
use tartarus_nix.Utf8.{decode, encode}
use tartarus_nix.Agent.Wire
use tartarus_nix.Agent.Wire.{
  SshBuffer, ssh_buffer, read_string, read_byte, ssh_string, success, remove_all_identities,
}
use tartarus_nix.Agent.Rules.{KeyConfig, Policy}
use tartarus_nix.Agent.State.{
  World, Config, Handle, Prompt, add_key, remove_key, remove_all, mutation_refused, mutation_done,
  send, send_failure, notify, request,
}
use tartarus_nix.Agent.Purpose.{shown}
use tartarus_nix.Agent.Identities.{governing_rule, text_or}
use tartarus_nix.Agent.Sign.{authorize, refuse}

skip_strings : ℕ → SshBuffer → Option SshBuffer
skip_strings zero b = some b
skip_strings (suc n) b = Wire.◌>>=◌ (read_string b) λ r. skip_strings n r.1

-- `_ssh_string(kt) + _ssh_string(a) + …`
packed : List Bytes → Option Bytes
packed [] = some []
packed (s ∷ l) = Wire.◌>>=◌ (ssh_string s) λ head. Wire.◌>>=◌ (packed l) λ tail. some (head ++ tail)

-- The public blob of a private key message and the buffer behind the key; `none` is an exception,
-- or a type that is not supported.
public_parts : Text → SshBuffer → Option (Bytes × SshBuffer)
unfolding skip_strings packed
public_parts key_type b =
    let kt = encode key_type in
    if bytes_eq key_type (codes "ssh-ed25519")
    then Wire.◌>>=◌ (read_string b) (λ pub_key.
      Wire.◌>>=◌ (skip_strings 1 pub_key.1)
        λ b'. Wire.◌>>=◌ (packed (kt ∷ pub_key.0 ∷ [])) λ blob. some (blob, b'))
    else if bytes_eq key_type (codes "ssh-rsa")
    then Wire.◌>>=◌ (read_string b) (λ n. Wire.◌>>=◌ (read_string n.1) λ e.
      Wire.◌>>=◌ (skip_strings 4 e.1)
        λ b'. Wire.◌>>=◌ (packed (kt ∷ e.0 ∷ n.0 ∷ [])) λ blob. some (blob, b'))
    else if starts_with (codes "ecdsa-sha2-") key_type
    then Wire.◌>>=◌ (read_string b) (λ curve.
      Wire.◌>>=◌ (read_string curve.1)
        λ point. Wire.◌>>=◌ (packed (kt ∷ curve.0 ∷ point.0 ∷ [])) λ blob. some (blob, point.1))
    else none

pub record PublicKey : Type 0 where
  pub key_type : Text
  pub blob : Option Bytes
  pub comment : Text

unfoldable pub no_blob : Text → PublicKey
no_blob key_type = record { key_type = key_type; blob = none; comment = [] }

with_comment : Text → Option (Bytes × Bytes) → PublicKey
unfolding no_blob
with_comment key_type none = no_blob key_type
with_comment key_type (some (blob, comment)) = record {
  key_type = key_type;
  blob = some blob;
  comment = decode comment;
}

public_typed : Option (Bytes × SshBuffer) → PublicKey
unfolding with_comment public_parts
public_typed none = no_blob []
public_typed (some (name, b)) = with_comment (decode name) (
    Wire.◌>>=◌ (public_parts (decode name) b)
      λ parts. Wire.◌>>=◌ (read_string parts.1) λ comment. some (parts.0, comment.0))

-- `none`: the message is empty, and its first read raises.
unfoldable pub public_blob_from_private : Bytes → Option PublicKey
unfolding public_typed
public_blob_from_private msg =
    Wire.◌>>=◌ (read_byte (ssh_buffer msg)) λ r. some (public_typed (read_string r.1))

-- The first upstream of the configuration that is connected, or the first that is.
unfoldable pub mutation_target : List Text → List Text → Option Text
mutation_target [] [] = none
mutation_target [] (path ∷ agents) = some path
mutation_target (path ∷ order) agents =
    if contains path agents then some path else mutation_target order agents

unfoldable pub is_success : Bytes → Bool
is_success [] = false
is_success (t ∷ body) = t == success

unfoldable pub relay_mutation : Option Bytes → Handle Bool
relay_mutation none = do send_failure; pure false
relay_mutation (some resp) = do send resp; pure (is_success resp)

unfoldable pub forward_to : World → Bytes → Option Text → Handle Bool
unfolding relay_mutation
forward_to w raw_msg none = do send_failure; pure false
forward_to w raw_msg (some target) = do resp ← request w target raw_msg; relay_mutation resp

unfoldable pub forward_mutation : World → Config → List Text → Bytes → Handle Bool
unfolding forward_to
forward_mutation w cfg agents raw_msg =
    forward_to w raw_msg (mutation_target cfg.upstream_order agents)

-- What both handlers do once the policy and the dialog are known.
unfoldable pub mutate :
    World → Config → List Text → Bytes → Policy → Bool → Prompt → Handle (Unit {0})
mutate w cfg agents raw_msg policy notifies prompt = do
  authorized ← authorize w policy prompt
  if authorized
      then (do
        ok ← forward_mutation w cfg agents raw_msg
        if ok then (if notifies then notify false (mutation_done prompt) else pure tt) else pure tt)
      else refuse (mutation_refused prompt)

abbrev find_key : Config → Option Bytes → Option KeyConfig
find_key cfg none = none
find_key cfg (some []) = none
find_key cfg (some (x ∷ blob)) = get cfg.keys (x ∷ blob)

abbrev blob_fingerprint : World → Option Bytes → Text
blob_fingerprint w none = codes "unknown"
blob_fingerprint w (some []) = codes "unknown"
blob_fingerprint w (some (x ∷ blob)) = w.fingerprint (x ∷ blob)

-- The id that an added key is matched under, and its fingerprint.
unfoldable pub add_names : World → Config → PublicKey → Text × Text
add_names w cfg key = elim (find_key cfg key.blob) [
  | some named ↦ (named.id, named.fingerprint)
  | none ↦ (text_or key.comment (blob_fingerprint w key.blob), blob_fingerprint w key.blob)
]

unfoldable pub add_known : World → Config → List Text → Bytes → PublicKey → Handle (Unit {0})
unfolding add_names
add_known w cfg agents raw_msg key c =
    let (key_id, fingerprint) = add_names w cfg key in
    let rule = governing_rule cfg c.vm_identity c.listener_name key_id in
    mutate w cfg agents raw_msg rule.add rule.notify
      (add_key (shown w 64 key_id) (text_or key.key_type (codes "unknown")) fingerprint) c

unfoldable pub handle_add : World → Config → List Text → Bytes → Handle (Unit {0})
unfolding add_known
handle_add w cfg agents raw_msg = do
  key ← lift (public_blob_from_private raw_msg)
  add_known w cfg agents raw_msg key

-- The id that a removed key is matched under.
unfoldable pub remove_id : World → Config → Bytes → Text
remove_id w cfg key_blob = elim (get cfg.keys key_blob) [
  | none ↦ w.fingerprint key_blob
  | some named ↦ named.id
]

unfoldable pub remove_one : World → Config → List Text → Bytes → Option Bytes → Handle (Unit {0})
remove_one w cfg agents raw_msg none c = send_failure c
remove_one w cfg agents raw_msg (some key_blob) c =
    let key_id = remove_id w cfg key_blob in
    let rule = governing_rule cfg c.vm_identity c.listener_name key_id in
    mutate w cfg agents raw_msg rule.remove rule.notify (remove_key (shown w 64 key_id)) c

unfoldable pub remove_every : World → Config → List Text → Bytes → Handle (Unit {0})
remove_every w cfg agents raw_msg c =
    let rule = governing_rule cfg c.vm_identity c.listener_name (codes "*") in
    mutate w cfg agents raw_msg rule.remove rule.notify remove_all c

unfoldable pub removed_blob : Bytes → Option Bytes
removed_blob raw_msg =
    Wire.◌>>=◌ (read_byte (ssh_buffer raw_msg))
      λ t. Wire.◌>>=◌ (read_string t.1) λ blob. some blob.0

unfoldable pub handle_remove : World → Config → List Text → Bytes → Handle (Unit {0})
unfolding remove_one removed_blob
handle_remove w cfg agents [] = raise
handle_remove w cfg agents (t ∷ body) =
    if t == remove_all_identities
    then remove_every w cfg agents (t ∷ body)
    else remove_one w cfg agents (t ∷ body) (removed_blob (t ∷ body))
