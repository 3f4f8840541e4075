-- ===== src/Agent/Safety.antt =====
-- What every run of a connection guarantees, whatever the client, the upstream agents and the user
-- do: the invariant of the handler's state, and the justification of each signature that an
-- upstream agent was asked for, and of each addition or removal of keys.
pub mod Steps
pub mod Handlers
pub mod Mutations
pub mod Signing
pub mod Runs
use tartarus_nix.Base.{
  codes, ◌==◌, ◌||◌, ℕ, ◌≡◌, ◌≢◌, ◌⊎◌, Bool, true, false, Option, none, some, List, [], ◌∷◌, Bytes,
  Text, Dict, get, contains, starts_with,
}
use tartarus_nix.Agent.Wire.{
  ssh_buffer, read_string, read_byte, sign_request, add_identity, add_id_constrained,
  remove_identity, remove_all_identities, ◌>>=◌,
}
use tartarus_nix.Agent.Rules.{KeyConfig, Rule, Policy, deny, ask, allow}
use tartarus_nix.Agent.State.{
  World, Config, Conn, Event, sent, asked, prompted, notified, Prompt, use_key, add_key, remove_key,
  remove_all, Purpose,
}
use tartarus_nix.Agent.Purpose.{determine_purpose, shown}
use tartarus_nix.Agent.SessionBind.{verify_bind_sig}
use tartarus_nix.Agent.Mutation.{
  PublicKey, public_blob_from_private, add_names, removed_blob, remove_id,
}
use tartarus_nix.Agent.Identities.{text_or, governing_rule}
use tartarus_nix.Agent.Offers.{Known}
use tartarus_nix.Agent.Sign.{sign_fields, policy_for, restricted}

-- The user has just said yes to `prompt`, and since then nothing but `msg` was sent to agents.
abbrev pub JustConfirmed : Prompt → Bytes → List Event → Type 0
JustConfirmed prompt msg (asked path m answer ∷ before) =
    (m ≡ msg) × JustConfirmed prompt msg before
JustConfirmed prompt msg (prompted p said ∷ before) = (p ≡ prompt) × (said ≡ true)
JustConfirmed prompt msg _ = ⊥

abbrev pub IsSignRequest : Bytes → Type 0
IsSignRequest [] = ⊥
IsSignRequest (t ∷ body) = t ≡ sign_request

-- A request to add a key to an agent, or to remove one or all.
abbrev pub IsAdd : Bytes → Type 0
IsAdd [] = ⊥
IsAdd (t ∷ body) = (t == add_identity || t == add_id_constrained) ≡ true

abbrev pub IsRemoveAll : Bytes → Type 0
IsRemoveAll [] = ⊥
IsRemoveAll (t ∷ body) = t ≡ remove_all_identities

abbrev pub IsRemoveOne : Bytes → Type 0
IsRemoveOne [] = ⊥
IsRemoveOne (t ∷ body) = t ≡ remove_identity

abbrev pub IsMutation : Bytes → Type 0
IsMutation msg = IsAdd msg ⊎ (IsRemoveOne msg ⊎ IsRemoveAll msg)

-- A host key's signature over the session was verified, and `trust` is what that key is trusted by.
pub record Verified (w : World) (session_id trust : Bytes) : Type 0 where
  pub hostkey : Bytes
  pub signature : Bytes
  pub valid : verify_bind_sig w hostkey session_id signature ≡ some trust

-- The destination of an authentication is one of `hosts`, by a verified session.
pub record Destination (w : World) (to_sign : Bytes) (hosts : List Bytes) : Type 0 where
  pub session_id : Bytes
  pub trust : Bytes
  pub named : (read_string (ssh_buffer to_sign) >>= λ r. some r.0) ≡ some session_id
  pub trusted : contains trust hosts ≡ true
  pub verified : Verified w session_id trust

-- Why a signature may be asked for, by what happened before.
pub record Justified (w : World) (cfg : Config) (identity listener : Option Text) (msg : Bytes)
    (before : List Event) : Type 0 where
  pub key : KeyConfig
  pub rule : Rule
  pub key_blob : Bytes
  pub to_sign : Bytes
  pub fields : sign_fields msg ≡ some (key_blob, to_sign)
  -- the entry is that of the key which is to sign
  pub known : Known w cfg key_blob key before
  pub governs : rule ≡ governing_rule cfg identity listener key.id
  pub not_denied : policy_for rule (determine_purpose w to_sign) ≢ deny
  pub consent :
      (policy_for rule (determine_purpose w to_sign) ≡ allow)
      ⊎ JustConfirmed (use_key key.id (determine_purpose w to_sign) key.fingerprint) msg before
  pub destination :
      restricted rule (determine_purpose w to_sign) ≡ true
      → Destination w to_sign rule.allowed_host_keys

-- What a mutation is about: the id whose rule governs it, the rule's policy for it, and the dialog.
abbrev pub MutationOf : World → Config → Bytes → Text → Rule → Policy → Prompt → Type 0
MutationOf w cfg msg key_id rule policy prompt =
    (IsAdd msg
      × ((key : PublicKey) × (public_blob_from_private msg ≡ some key)
          × (key_id ≡ (add_names w cfg key).0)
          × (policy ≡ rule.add)
          × (prompt
              ≡ add_key (shown w 64 key_id) (text_or key.key_type (codes "unknown"))
                  (add_names w cfg key).1)))
    ⊎ ((IsRemoveOne msg
          × ((blob : Bytes) × (removed_blob msg ≡ some blob)
              × (key_id ≡ remove_id w cfg blob)
              × (policy ≡ rule.remove)
              × (prompt ≡ remove_key (shown w 64 key_id))))
        ⊎ (IsRemoveAll msg × (key_id ≡ codes "*") × (policy ≡ rule.remove) × (prompt ≡ remove_all)))

-- Why an agent may be asked to add or to remove keys.
pub record MutationJustified (w : World) (cfg : Config) (identity listener : Option Text)
    (msg : Bytes) (before : List Event) : Type 0 where
  pub key_id : Text
  pub rule : Rule
  pub policy : Policy
  pub prompt : Prompt
  pub governs : rule ≡ governing_rule cfg identity listener key_id
  pub about : MutationOf w cfg msg key_id rule policy prompt
  pub consent : (policy ≡ allow) ⊎ JustConfirmed prompt msg before

-- What a message to an agent needs.
abbrev pub Due : World → Config → Option Text → Option Text → Bytes → List Event → Type 0
Due w cfg identity listener msg before =
    (IsSignRequest msg → Justified w cfg identity listener msg before)
    × (IsMutation msg → MutationJustified w cfg identity listener msg before)

-- A message that needs nothing.
abbrev pub IsPlain : Bytes → Type 0
IsPlain msg = (¬ IsSignRequest msg) × (¬ IsMutation msg)

module _ (w : World) (cfg : Config) (identity listener : Option Text) where
  abbrev pub AllJustified : List Event → Type 0
  AllJustified [] = Unit {0}
  AllJustified (asked path msg answer ∷ before) =
      Due w cfg identity listener msg before × AllJustified before
  AllJustified (_ ∷ before) = AllJustified before

  pub record Safe (c : Conn) : Type 0 where
    pub who : c.vm_identity ≡ identity
    pub whence : c.listener_name ≡ listener
    -- every usable key has the rule that governs it
    pub governed :
        (blob : Bytes) (k : KeyConfig)
        → get c.allowed_keys blob ≡ some k
        → get c.key_rule blob ≡ some (governing_rule cfg identity listener k.id)
    -- and every usable key is the configuration's or an agent's of the configuration
    pub upstreams : c.resolved_agent_sockets ≡ cfg.upstream_order
    pub known :
        (blob : Bytes) (k : KeyConfig)
        → get c.allowed_keys blob ≡ some k
        → Known w cfg blob k c.trace
    -- every recorded destination was proved by a signature
    pub bound :
        (session_id trust : Bytes)
        → get c.bound_destinations session_id ≡ some trust
        → Verified w session_id trust
    pub justified : AllJustified c.trace
