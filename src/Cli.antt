-- ===== src/Cli.antt =====
-- The `tartarus` command-line tool, src/tartarus.
pub mod Mounts
pub mod Trees
