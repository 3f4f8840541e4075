-- ===== src/Cli/Trees/Examples.antt =====
-- A staging directory with a link, a file and a mounted directory that has one of its own.
use tartarus_nix.Base.{◌≡◌, refl, true, false, [], ◌∷◌, Text, ℕ, starts_with}
use tartarus_nix.Mount.Paths.{join_path}
use tartarus_nix.Cli.Trees.{
  Directory, Entries, bare, symlink, file, directory, Tree, missing, folder, cannot_remove,
  refusing_mount, safe_rmtree,
}
use tartarus_nix.Cli.Trees.Kept.{mounts_of, safe_rmtree-mounts_of}
use tartarus_nix.Cli.Trees.Cleared.{Says, is_missing, is_clear_tree, safe_rmtree-Says}

abbrev root : Text
root = 47 ∷ 114 ∷ []

abbrev below : ℕ → Text
below name = 47 ∷ 114 ∷ 47 ∷ name ∷ []

abbrev plain : Directory
plain = record { visible = true; mounted = false; readable = true; removable = true }

abbrev bound : Directory
bound = record { visible = true; mounted = true; readable = true; removable = true }

abbrev home : Entries
home = file (1 ∷ []) true bare

abbrev stage : Entries → Tree
stage inner = folder plain (symlink (2 ∷ []) true (file (3 ∷ []) true inner))

abbrev live : Tree
live = stage (directory (4 ∷ []) bound home bare)

abbrev idle : Tree
idle = stage (directory (4 ∷ []) plain home bare)

cleared : safe_rmtree root idle ≡ record { removed = true; warnings = []; left = missing }
unfolding safe_rmtree join_path starts_with
cleared = refl

kept : safe_rmtree root live ≡ record {
  removed = false;
  warnings = refusing_mount (below 4) ∷ cannot_remove root ∷ [];
  left = folder plain (directory (4 ∷ []) bound home bare);
}
unfolding safe_rmtree join_path starts_with
kept = refl

safe_rmtree-mounts_of_example : mounts_of root (safe_rmtree root live).left ≡ mounts_of root live
safe_rmtree-mounts_of_example = safe_rmtree-mounts_of root live

safe_rmtree-Says_example : Says is_missing (is_clear_tree live) (safe_rmtree root live)
safe_rmtree-Says_example = safe_rmtree-Says root live
