-- ===== src/Agent/Sign.antt =====
-- `_handle_sign_request` and `_sign_via_upstream` of ssh-agent-proxy.py.
pub mod Routing
use tartarus_nix.Base.{
  ℕ, Bool, true, false, not, ◌&&◌, ◌||◌, Option, none, some, List, [], ◌∷◌, ◌++◌, Bytes, Text,
  contains, get, ◌==◌, is_empty, if◌then◌else◌,
}
use tartarus_nix.Base.Effects.{Outcome, done, lift, raise, pure, ◌>>=◌, ◌>>◌}
use tartarus_nix.Agent.Wire
use tartarus_nix.Agent.Wire.{ssh_buffer, read_string, read_byte, failure}
use tartarus_nix.Agent.Rules.{KeyConfig, Rule, Policy, deny, ask, allow, is_deny}
use tartarus_nix.Agent.State.{
  World, Config, Conn, Handle, Purpose, server_auth, Prompt, Notice, use_key, forbidden_key,
  refused, forbidden_destination, used, send, send_failure, notify, request, confirm,
}
use tartarus_nix.Agent.Purpose.{determine_purpose}
use tartarus_nix.Agent.SessionBind.{destination_allowed}

or_else : Option Text → Text → Text
or_else none t = t
or_else (some s) t = s

not_among : List Text → List Text → List Text
not_among [] tried = []
not_among (path ∷ l) tried =
    let rest = not_among l tried in if contains path tried then rest else path ∷ rest

-- The agents that are tried, in order and with repetitions.
unfoldable pub candidates : Option Text → KeyConfig → List Text → List Text
unfolding or_else not_among
candidates owner k_cfg agents =
    let preferred = if k_cfg.explicit_socket then k_cfg.socket else or_else owner k_cfg.socket in
    let tried = preferred ∷ or_else owner preferred ∷ [] in tried ++ not_among agents tried

-- An answer and the agent that gave it.
abbrev pub Relayed : Type 0
Relayed = Option Bytes × Option Text

abbrev pub starts_failure : Bytes → Bool
starts_failure [] = false
starts_failure (t ∷ body) = t == failure

-- An answer that ends the loop: there is one, it is not empty and no failure.
unfoldable pub usable : Option Bytes → Bool
usable none = false
usable (some []) = false
usable (some (t ∷ body)) = not (t == failure)

unfoldable pub keep_last : Option Bytes → Option Bytes → Option Bytes
keep_last none last = last
keep_last (some []) last = last
keep_last (some (t ∷ body)) last = some (t ∷ body)

-- What follows the answer of `path`: the loop returns it, or goes on with `rest`.
unfoldable pub settle : Text → Option Bytes → Handle Relayed → Handle Relayed
settle path resp rest c = elim (usable resp) [ true ↦ (done (resp, some path), c) | false ↦ rest c ]

-- `for path in candidates`
unfoldable pub sign_loop :
    World → List Text → Bytes → List Text → List Text → Option Bytes → Option Text → Handle Relayed
sign_loop w agents raw_msg [] seen last last_path = pure (last, last_path)
sign_loop w agents raw_msg (path ∷ paths) seen last last_path =
    elim (contains path seen || not (contains path agents)) [
      | true ↦ sign_loop w agents raw_msg paths seen last last_path
      | false ↦ do
        resp ← request w path raw_msg
        settle path resp
            (sign_loop w agents raw_msg paths (path ∷ seen) (keep_last resp last) (some path))
    ]

unfoldable pub sign_via_upstream : World → List Text → Bytes → KeyConfig → Bytes → Handle Relayed
unfolding candidates
sign_via_upstream w agents key_blob k_cfg raw_msg c =
    sign_loop w agents raw_msg (candidates (get c.key_upstream key_blob) k_cfg agents) [] none none
      c

unfoldable pub refuse : Notice → Handle (Unit {0})
refuse notice = do notify true notice; send_failure

-- What becomes of the upstream's answer.
unfoldable pub answer_sign : Rule → KeyConfig → Purpose → Option Bytes → Handle (Unit {0})
answer_sign rule k_cfg purpose none = send_failure
answer_sign rule k_cfg purpose (some []) = raise
answer_sign rule k_cfg purpose (some (t ∷ body)) =
    if t == failure
    then send (t ∷ body)
    else (do send (t ∷ body); if rule.notify then notify false (used k_cfg.id purpose) else pure tt)

abbrev pub is_auth : Purpose → Bool
is_auth server_auth = true
is_auth _ = false

unfoldable pub policy_for : Rule → Purpose → Policy
policy_for rule purpose = if is_auth purpose then rule.auth else rule.data_signing

-- Authentication under a rule that lists host keys.
unfoldable pub restricted : Rule → Purpose → Bool
restricted rule purpose = is_auth purpose && not (is_empty rule.allowed_host_keys)

unfoldable pub authorize : World → Policy → Prompt → Handle Bool
authorize w deny prompt = pure false
authorize w allow prompt = pure true
authorize w ask prompt = confirm w prompt

unfoldable pub sign_authorized :
    World → List Text → Bytes → Bytes → Purpose → KeyConfig → Rule → Bool → Handle (Unit {0})
sign_authorized w agents raw_msg key_blob purpose k_cfg rule false = send_failure
sign_authorized w agents raw_msg key_blob purpose k_cfg rule true = do
  (resp, answered_by) ← sign_via_upstream w agents key_blob k_cfg raw_msg
  answer_sign rule k_cfg purpose resp

unfoldable pub sign_ruled :
    World → List Text → Bytes → Bytes → Bytes → Purpose → KeyConfig → Rule → Handle (Unit {0})
sign_ruled w agents raw_msg key_blob to_sign purpose k_cfg rule c =
    if is_deny (policy_for rule purpose)
    then refuse (refused purpose k_cfg.id) c
    else if restricted rule purpose
        && not (destination_allowed c.bound_destinations to_sign rule.allowed_host_keys)
    then refuse forbidden_destination c
    else (do
      authorized ←
          authorize w (policy_for rule purpose) (use_key k_cfg.id purpose k_cfg.fingerprint)
      sign_authorized w agents raw_msg key_blob purpose k_cfg rule authorized)
        c

-- `none` for the rule is the `KeyError` of `self.key_rule[key_blob]`.
unfoldable pub sign_known :
    World
    → List Text
    → Bytes
    → Bytes
    → Bytes
    → Purpose
    → Option KeyConfig
    → Option Rule
    → Handle (Unit {0})
sign_known w agents raw_msg key_blob to_sign purpose none rule = refuse (forbidden_key purpose)
sign_known w agents raw_msg key_blob to_sign purpose (some k_cfg) none = raise
sign_known w agents raw_msg key_blob to_sign purpose (some k_cfg) (some rule) =
    sign_ruled w agents raw_msg key_blob to_sign purpose k_cfg rule

unfoldable pub sign_parsed : World → List Text → Bytes → Bytes → Bytes → Handle (Unit {0})
unfolding sign_known
sign_parsed w agents raw_msg key_blob to_sign c =
    sign_known w agents raw_msg key_blob to_sign (determine_purpose w to_sign)
      (get c.allowed_keys key_blob) (get c.key_rule key_blob) c

-- The key and the data of a sign request; `none` is the exception of a read.
unfoldable pub sign_fields : Bytes → Option (Bytes × Bytes)
sign_fields raw_msg = Wire.◌>>=◌ (read_byte (ssh_buffer raw_msg)) λ t.
    Wire.◌>>=◌ (read_string t.1)
      λ key_blob. Wire.◌>>=◌ (read_string key_blob.1) λ to_sign. some (key_blob.0, to_sign.0)

unfoldable pub handle_sign_request : World → List Text → Bytes → Handle (Unit {0})
handle_sign_request w agents raw_msg = do
  (key_blob, to_sign) ← lift (sign_fields raw_msg)
  sign_parsed w agents raw_msg key_blob to_sign
