-- ===== src/Agent/Identities.antt =====
-- `_maybe_autoregister` and `_handle_identities` of ssh-agent-proxy.py.
use tartarus_nix.Base.{
  ℕ, zero, suc, Bool, true, false, Option, none, some, List, [], ◌∷◌, ◌++◌, Bytes, Text, length,
  is_some, ◌==◌, ◌&&◌, ◌||◌, bytes_eq, contains, get, put, set_default, if◌then◌else◌,
}
use tartarus_nix.Base.Effects.{lift, modify, pure, ◌>>=◌, ◌>>◌}
use tartarus_nix.Utf8.{decode}
use tartarus_nix.Agent.Wire
use tartarus_nix.Agent.Wire.{
  SshBuffer, ssh_buffer, read_string, read_byte, read_int, pack_int, ssh_string, identities_answer,
}
use tartarus_nix.Agent.Rules.{KeyConfig, Rule, default_rule, match_rule}
use tartarus_nix.Agent.State.{World, Config, Conn, Handle, send, request}

-- `self._match_rule(id) or DEFAULT_RULE`
unfoldable pub governing_rule : Config → Option Text → Option Text → Text → Rule
governing_rule cfg identity listener key_id = elim (match_rule cfg.rules key_id identity listener) [
  | none ↦ default_rule
  | some rule ↦ rule
]

unfoldable pub text_or : Text → Text → Text
text_or [] other = other
text_or (x ∷ t) other = x ∷ t

-- The entry of a key that the configuration does not name; the read may raise.
unfoldable pub unnamed_key : World → Bytes → Bytes → Text → Option KeyConfig
unfolding text_or
unnamed_key w key_blob comment socket_path = Wire.◌>>=◌ (read_string (ssh_buffer key_blob)) λ r.
    some (record {
      id = text_or (decode comment) (w.fingerprint key_blob);
      key_type = decode r.0;
      public_blob = key_blob;
      fingerprint = w.fingerprint key_blob;
      socket = socket_path;
      explicit_socket = false;
    })

unfoldable pub key_entry : World → Config → Bytes → Bytes → Text → Option KeyConfig
unfolding unnamed_key
key_entry w cfg key_blob comment socket_path = elim (get cfg.keys key_blob) [
  | none ↦ unnamed_key w key_blob comment socket_path
  | some named ↦ some named
]

unfoldable pub register : Config → Bytes → KeyConfig → Conn → Conn
register cfg key_blob k_cfg c = record c {
  allowed_keys = put c.allowed_keys key_blob k_cfg;
  key_rule = put c.key_rule key_blob (governing_rule cfg c.vm_identity c.listener_name k_cfg.id);
}

unfoldable pub register_key : World → Config → Bytes → Bytes → Text → Handle Bool
unfolding key_entry
register_key w cfg key_blob comment socket_path = do
  k_cfg ← lift (key_entry w cfg key_blob comment socket_path)
  modify (register cfg key_blob k_cfg)
  pure true

-- Whether a key was admitted.
unfoldable pub maybe_autoregister : World → Config → Bytes → Bytes → Text → Handle Bool
maybe_autoregister w cfg key_blob comment socket_path c =
    if contains socket_path c.resolved_agent_sockets
    then register_key w cfg key_blob comment socket_path c
    else pure false c

unfoldable pub admit : World → Config → Bytes → Bytes → Text → Handle Bool
admit w cfg key_blob comment path c =
    if is_some (get c.allowed_keys key_blob)
    then pure true c
    else maybe_autoregister w cfg key_blob comment path c

abbrev pub Identity : Type 0
Identity = Bytes × Bytes

unfoldable pub listed : Identity → List Identity → Bool
listed i [] = false
listed i (j ∷ l) = (bytes_eq i.0 j.0 && bytes_eq i.1 j.1) || listed i l

-- `if (key_blob, comment) not in aggregated: aggregated.append(…)`
unfoldable pub append_new : Identity → List Identity → List Identity
unfolding listed
append_new i l = if listed i l then l else l ++ i ∷ []

unfoldable pub note_owner : Bytes → Text → Conn → Conn
note_owner key_blob path c = record c { key_upstream = set_default c.key_upstream key_blob path }

-- One identity of an upstream's answer.
unfoldable pub take_identity :
    World → Config → Text → Bytes → Bytes → List Identity → Handle (List Identity)
unfolding append_new note_owner
take_identity w cfg path key_blob comment found = do
  modify (note_owner key_blob path)
  admitted ← admit w cfg key_blob comment path
  pure (if admitted then append_new (key_blob, comment) found else found)

-- `for _ in range(count)`
unfoldable pub take_identities :
    World → Config → Text → ℕ → SshBuffer → List Identity → Handle (List Identity)
take_identities w cfg path zero b found = pure found
take_identities w cfg path (suc count) b found = do
  (key_blob, b1) ← lift (read_string b)
  (comment, b2) ← lift (read_string b1)
  found' ← take_identity w cfg path key_blob comment found
  take_identities w cfg path count b2 found'

-- The answer of one upstream: anything but an identities answer is passed over.
unfoldable pub take_answer :
    World → Config → Text → Option Bytes → List Identity → Handle (List Identity)
take_answer w cfg path none found = pure found
take_answer w cfg path (some []) found = pure found
take_answer w cfg path (some (t ∷ body)) found =
    if t == identities_answer
    then (do
      (_, b) ← lift (read_byte (ssh_buffer (t ∷ body)))
      (count, b') ← lift (read_int b)
      take_identities w cfg path count b' found)
    else pure found

-- `for path, link in real_agents.items()`
unfoldable pub collect : World → Config → Bytes → List Text → List Identity → Handle (List Identity)
collect w cfg raw_msg [] found = pure found
collect w cfg raw_msg (path ∷ agents) found = do
  resp ← request w path raw_msg
  found' ← take_answer w cfg path resp found
  collect w cfg raw_msg agents found'

unfoldable pub pack_entries : List Identity → Option Bytes
pack_entries [] = some []
pack_entries ((blob, comment) ∷ l) = Wire.◌>>=◌ (ssh_string blob) λ head.
    Wire.◌>>=◌ (ssh_string comment)
      λ middle. Wire.◌>>=◌ (pack_entries l) λ tail. some (head ++ (middle ++ tail))

unfoldable pub pack_identities : List Identity → Option Bytes
unfolding pack_entries
pack_identities l =
    Wire.◌>>=◌ (pack_int (length l))
      λ count. Wire.◌>>=◌ (pack_entries l) λ entries. some (identities_answer ∷ (count ++ entries))

unfoldable pub handle_identities : World → Config → List Text → Bytes → Handle (Unit {0})
handle_identities w cfg agents raw_msg = do
  found ← collect w cfg raw_msg agents []
  payload ← lift (pack_identities found)
  send payload
