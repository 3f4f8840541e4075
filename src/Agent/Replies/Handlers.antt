-- ===== src/Agent/Replies/Handlers.antt =====
-- One request, one reply: every handler sends exactly one message when it returns.
use tartarus_nix.Base.{
  ℕ, zero, suc, refl, Bool, true, false, Option, none, some, List, [], ◌∷◌, Bytes, Text, get,
  is_some, contains, arith, ◌==◌,
}
use tartarus_nix.Base.Effects.{pure}
use tartarus_nix.Agent.Wire.{
  SshBuffer, read_byte, read_int, ssh_buffer, read_string, failure, identities_answer,
  remove_all_identities,
}
use tartarus_nix.Agent.Rules.{Policy, deny, ask, allow}
use tartarus_nix.Agent.State.{
  World, Config, Prompt, Notice, send, send_failure, notify, request, confirm, answered,
}
use tartarus_nix.Agent.Identities.{
  Identity, register, register_key, note_owner, maybe_autoregister, admit, take_identity,
  take_identities, take_answer, collect, handle_identities, pack_identities,
}
use tartarus_nix.Agent.Sign.{refuse, authorize}
use tartarus_nix.Agent.Mutation.{
  relay_mutation, forward_to, forward_mutation, mutate, add_known, handle_add, remove_one,
  removed_blob, remove_every, handle_remove, PublicKey, public_blob_from_private,
}
use tartarus_nix.Agent.SessionBind.{record_bind, bind_with, extension_with, handle_extension}
use tartarus_nix.Agent.Replies.{
  replies, Replies, Replies-pure, Replies-raise, Replies-lift, Replies-if, Replies-test,
  Replies-modify, Replies-bind, Replies-then,
}

pub Replies-send : (payload : Bytes) → Replies 1 (send payload)
unfolding send replies
Replies-send payload = record { at = λ c. omega arith }

pub Replies-send_failure : Replies 1 send_failure
unfolding send_failure
Replies-send_failure = Replies-send (failure ∷ [])

pub Replies-notify : (critical : Bool) (notice : Notice) → Replies 0 (notify critical notice)
unfolding notify replies
Replies-notify critical notice = record { at = λ c. omega arith }

pub Replies-request : (w : World) (path : Text) (msg : Bytes) → Replies 0 (request w path msg)
unfolding request replies
Replies-request w path msg = record { at = λ c. omega arith }

Replies-answered : (prompt : Prompt) (o : Option Bool) → Replies 0 (answered prompt o)
unfolding answered replies
Replies-answered prompt none = record { at = λ c. omega arith }
Replies-answered prompt (some b) = record { at = λ c. omega arith }

Replies-confirm : (w : World) (prompt : Prompt) → Replies 0 (confirm w prompt)
unfolding confirm
Replies-confirm w prompt = record {
  at = λ c. (Replies-answered prompt (w.confirm c.trace prompt)).at c;
}

pub Replies-refuse : (notice : Notice) → Replies 1 (refuse notice)
unfolding refuse
Replies-refuse notice = Replies-then 0 1 _ _ (Replies-notify true notice) Replies-send_failure

pub Replies-authorize :
    (w : World) (p : Policy) (prompt : Prompt) → Replies 0 (authorize w p prompt)
unfolding authorize
Replies-authorize w deny prompt = Replies-pure false
Replies-authorize w allow prompt = Replies-pure true
Replies-authorize w ask prompt = Replies-confirm w prompt

module _ (w : World) (cfg : Config) where
  Replies-register_key :
      (blob comment : Bytes) (path : Text) → Replies 0 (register_key w cfg blob comment path)
  unfolding register_key register
  Replies-register_key blob comment path =
      Replies-bind 0 0 _ _ (Replies-lift _)
        λ k. Replies-then 0 0 _ _ (Replies-modify _ (λ c. refl)) (Replies-pure true)

  Replies-admit : (blob comment : Bytes) (path : Text) → Replies 0 (admit w cfg blob comment path)
  unfolding admit maybe_autoregister
  Replies-admit blob comment path =
      Replies-test (λ c. is_some (get c.allowed_keys blob)) (pure true)
        (maybe_autoregister w cfg blob comment path) (Replies-pure true)
        (Replies-test (λ c. contains path c.resolved_agent_sockets)
          (register_key w cfg blob comment path) (pure false)
          (Replies-register_key blob comment path) (Replies-pure false))

  Replies-take_identity :
      (path : Text) (blob comment : Bytes) (found : List Identity)
      → Replies 0 (take_identity w cfg path blob comment found)
  unfolding take_identity note_owner
  Replies-take_identity path blob comment found =
      Replies-then 0 0 _ _ (Replies-modify _ (λ c. refl))
        (Replies-bind 0 0 _ _ (Replies-admit blob comment path) λ a. Replies-pure _)

  Replies-take_identities :
      (path : Text) (count : ℕ) (b : SshBuffer) (found : List Identity)
      → Replies 0 (take_identities w cfg path count b found)
  unfolding take_identities
  Replies-take_identities path zero b found = Replies-pure found
  Replies-take_identities path (suc count) b found =
      Replies-bind 0 0 _ _ (Replies-lift (read_string b)) λ r.
        Replies-bind 0 0 _ _ (Replies-lift (read_string r.1)) λ r'.
          Replies-bind 0 0 _ _ (Replies-take_identity path r.0 r'.0 found)
            λ f. Replies-take_identities path count r'.1 f

  Replies-take_answer :
      (path : Text) (answer : Option Bytes) (found : List Identity)
      → Replies 0 (take_answer w cfg path answer found)
  unfolding take_answer
  Replies-take_answer path none found = Replies-pure found
  Replies-take_answer path (some []) found = Replies-pure found
  Replies-take_answer path (some (t ∷ body)) found =
      Replies-if (t == identities_answer) _ _
        (Replies-bind 0 0 _ _ (Replies-lift (read_byte (ssh_buffer (t ∷ body)))) λ r.
          Replies-bind 0 0 _ _ (Replies-lift (read_int r.1))
            λ r'. Replies-take_identities path r'.0 r'.1 found)
        (Replies-pure found)

  Replies-collect :
      (raw_msg : Bytes) (agents : List Text) (found : List Identity)
      → Replies 0 (collect w cfg raw_msg agents found)
  unfolding collect
  Replies-collect raw_msg [] found = Replies-pure found
  Replies-collect raw_msg (path ∷ agents) found =
      Replies-bind 0 0 _ _ (Replies-request w path raw_msg) λ resp.
        Replies-bind 0 0 _ _ (Replies-take_answer path resp found)
          λ f. Replies-collect raw_msg agents f

  pub Replies-identities :
      (agents : List Text) (raw_msg : Bytes) → Replies 1 (handle_identities w cfg agents raw_msg)
  unfolding handle_identities
  Replies-identities agents raw_msg =
      Replies-bind 0 1 _ _ (Replies-collect raw_msg agents []) λ found.
        Replies-bind 0 1 _ _ (Replies-lift (pack_identities found)) λ payload. Replies-send payload

  Replies-relay : (o : Option Bytes) → Replies 1 (relay_mutation o)
  unfolding relay_mutation
  Replies-relay none = Replies-then 1 0 _ _ Replies-send_failure (Replies-pure _)
  Replies-relay (some r) = Replies-then 1 0 _ _ (Replies-send r) (Replies-pure _)

  Replies-forward :
      (raw_msg : Bytes) (target : Option Text) → Replies 1 (forward_to w raw_msg target)
  unfolding forward_to
  Replies-forward raw_msg none = Replies-then 1 0 _ _ Replies-send_failure (Replies-pure _)
  Replies-forward raw_msg (some t) =
      Replies-bind 0 1 _ _ (Replies-request w t raw_msg) Replies-relay

  Replies-mutate :
      (agents : List Text) (raw_msg : Bytes) (p : Policy) (notifies : Bool) (prompt : Prompt)
      → Replies 1 (mutate w cfg agents raw_msg p notifies prompt)
  unfolding mutate forward_mutation
  Replies-mutate agents raw_msg p notifies prompt =
      Replies-bind 0 1 _ _ (Replies-authorize w p prompt) λ a.
        Replies-if a _ _
          (Replies-bind 1 0 _ _ (Replies-forward raw_msg _) λ ok.
            Replies-if ok _ _ (Replies-if notifies _ _ (Replies-notify false _) (Replies-pure tt))
              (Replies-pure tt))
          (Replies-refuse _)

  Replies-add_known :
      (agents : List Text) (raw_msg : Bytes) (key : PublicKey)
      → Replies 1 (add_known w cfg agents raw_msg key)
  unfolding add_known
  Replies-add_known agents raw_msg key = record {
    at = λ c. (Replies-mutate agents raw_msg _ _ _).at c;
  }

  pub Replies-add :
      (agents : List Text) (raw_msg : Bytes) → Replies 1 (handle_add w cfg agents raw_msg)
  unfolding handle_add
  Replies-add agents raw_msg =
      Replies-bind 0 1 _ _ (Replies-lift (public_blob_from_private raw_msg))
        λ key. Replies-add_known agents raw_msg key

  Replies-remove_one :
      (agents : List Text) (raw_msg : Bytes) (o : Option Bytes)
      → Replies 1 (remove_one w cfg agents raw_msg o)
  unfolding remove_one
  Replies-remove_one agents raw_msg none = record { at = λ c. Replies-send_failure.at c }
  Replies-remove_one agents raw_msg (some blob) = record {
    at = λ c. (Replies-mutate agents raw_msg _ _ _).at c;
  }

  pub Replies-remove :
      (agents : List Text) (raw_msg : Bytes) → Replies 1 (handle_remove w cfg agents raw_msg)
  unfolding handle_remove remove_every
  Replies-remove agents [] = Replies-raise 1
  Replies-remove agents (t ∷ body) =
      Replies-if (t == remove_all_identities) _ _
        (record { at = λ c. (Replies-mutate agents (t ∷ body) _ _ _).at c })
        (Replies-remove_one agents (t ∷ body) (removed_blob (t ∷ body)))

Replies-record_bind : (session_id : Bytes) (o : Option Bytes) → Replies 1 (record_bind session_id o)
unfolding record_bind send replies
Replies-record_bind session_id none = record { at = λ c. Replies-send_failure.at c }
Replies-record_bind session_id (some trust) = record { at = λ c. omega arith }

module _ (w : World) where
  Replies-bind_with : (o : Option (Bytes × Bytes × Bytes)) → Replies 1 (bind_with w o)
  unfolding bind_with
  Replies-bind_with none = Replies-send_failure
  Replies-bind_with (some (hostkey, session_id, signature)) = Replies-record_bind session_id _

  Replies-extension_with : (o : Option (Bytes × SshBuffer)) → Replies 1 (extension_with w o)
  unfolding extension_with
  Replies-extension_with none = Replies-send_failure
  Replies-extension_with (some (name, b)) =
      Replies-if _ _ _ (Replies-bind_with _) Replies-send_failure

  pub Replies-extension : (raw_msg : Bytes) → Replies 1 (handle_extension w raw_msg)
  unfolding handle_extension
  Replies-extension raw_msg =
      Replies-bind 0 1 _ _ (Replies-lift (read_byte (ssh_buffer raw_msg)))
        λ r. Replies-extension_with (read_string r.1)
