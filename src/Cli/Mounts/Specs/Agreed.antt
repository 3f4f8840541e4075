-- ===== src/Cli/Mounts/Specs/Agreed.antt =====
-- The host's tool and the helper in the guest agree on targets.
use tartarus_nix.Mount.Paths.Normal.{Normal}
use tartarus_nix.Mount.Paths
