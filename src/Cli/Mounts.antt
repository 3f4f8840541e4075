-- ===== src/Cli/Mounts.antt =====
-- src/tartarus/mounts.py: host folders that are mounted in a running guest.
pub mod Specs
pub mod Machine
pub mod Stages
pub mod Guests
pub mod Containers
pub mod Actions
mod Examples
