-- ===== src/Mount.antt =====
-- nix/packages/tartarus-mount/tartarus-mount.py
pub mod Paths
pub mod Host
pub mod Requests
pub mod Sound
mod Examples
