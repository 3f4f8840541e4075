-- ===== src/Agent/Loop.antt =====
-- `_handle_unknown`, the request loop of `Handler.handle`, and the rules that `Handler.setup` gives
-- to the configured keys.
use tartarus_nix.Base.{
  ℕ, Option, none, some, List, [], ◌∷◌, ◌++◌, Bytes, Text, Dict, contains, put, ◌==◌, ◌||◌,
  if◌then◌else◌,
}
use tartarus_nix.Base.Effects.{pure, ◌>>◌}
use tartarus_nix.Agent.Wire.{
  request_identities, sign_request, add_identity, add_id_constrained, remove_identity,
  remove_all_identities, extension,
}
use tartarus_nix.Agent.Rules.{KeyConfig, Rule, match_rule}
use tartarus_nix.Agent.State.{World, Config, Conn, Handle, filtered}
use tartarus_nix.Agent.Identities.{handle_identities}
use tartarus_nix.Agent.Sign.{handle_sign_request, refuse}
use tartarus_nix.Agent.Mutation.{handle_add, handle_remove}
use tartarus_nix.Agent.SessionBind.{handle_extension}

unfoldable pub handle_unknown : ℕ → Handle (Unit {0})
handle_unknown mtype = refuse (filtered mtype)

unfoldable pub dispatch : World → Config → List Text → ℕ → Bytes → Handle (Unit {0})
unfolding handle_unknown
dispatch w cfg agents mtype msg =
    if mtype == request_identities
    then handle_identities w cfg agents msg
    else if mtype == sign_request
    then handle_sign_request w agents msg
    else if mtype == add_identity || mtype == add_id_constrained
    then handle_add w cfg agents msg
    else if mtype == remove_identity || mtype == remove_all_identities
    then handle_remove w cfg agents msg
    else if mtype == extension
    then handle_extension w msg
    else handle_unknown mtype

-- The loop over the messages that the client sends: it ends with the stream, with an empty message
-- and with an exception.
unfoldable pub serve : World → Config → List Text → List Bytes → Handle (Unit {0})
serve w cfg agents [] = pure tt
serve w cfg agents ([] ∷ later) = pure tt
serve w cfg agents ((mtype ∷ body) ∷ later) = do
  dispatch w cfg agents mtype (mtype ∷ body)
  serve w cfg agents later

-- What `setup` collects from the configured keys.
pub record Pre : Type 0 where
  pub allowed : Dict KeyConfig
  pub governed : Dict Rule
  pub sockets : List Text

add_socket : Text → List Text → List Text
add_socket path sockets = if contains path sockets then sockets else sockets ++ path ∷ []

unfoldable pub with_rule : Bytes → KeyConfig → Option Rule → Pre → Pre
unfolding add_socket
with_rule blob k_cfg none pre = pre
with_rule blob k_cfg (some rule) pre = record {
  allowed = put pre.allowed blob k_cfg;
  governed = put pre.governed blob rule;
  sockets = add_socket k_cfg.socket pre.sockets;
}

-- `for blob, k_cfg in self.config.keys.items()`
unfoldable pub rule_keys : List Rule → Option Text → Option Text → Dict KeyConfig → Pre → Pre
unfolding with_rule
rule_keys rules identity listener [] pre = pre
rule_keys rules identity listener ((blob, k_cfg) ∷ keys) pre =
    rule_keys rules identity listener keys
      (with_rule blob k_cfg (match_rule rules k_cfg.id identity listener) pre)

add_sockets : List Text → List Text → List Text
unfolding add_socket
add_sockets [] sockets = sockets
add_sockets (path ∷ order) sockets = add_sockets order (add_socket path sockets)

-- The handler behind `setup`, and the sockets that it dials.
unfoldable pub setup : Config → Option Text → Option Text → Conn × List Text
unfolding rule_keys add_sockets
setup cfg identity listener =
    let pre =
      rule_keys cfg.rules identity listener cfg.keys
        (record { allowed = []; governed = []; sockets = [] }) in
    (
      record {
        vm_identity = identity;
        listener_name = listener;
        allowed_keys = pre.allowed;
        key_rule = pre.governed;
        key_upstream = [];
        bound_destinations = [];
        resolved_agent_sockets = cfg.upstream_order;
        trace = [];
      },
      add_sockets cfg.upstream_order pre.sockets,
    )
