-- ===== src/Cli/Trees.antt =====
-- `safe_rmtree` of src/tartarus/fs.py, over a tree that nobody else changes meanwhile: what is left
-- of it, what is returned and what is warned of.
pub mod Kept
pub mod Cleared
mod Examples
use tartarus_nix.Base.{
  Bool, true, false, ◌&&◌, Option, none, some, List, [], ◌∷◌, ◌++◌, is_empty, Text, if◌then◌else◌,
}
use tartarus_nix.Mount.Paths.{join_path}

-- What the system does with a directory: `os.lstat`, `os.path.ismount`, `os.scandir` and, where it is
-- empty, `os.rmdir`.
pub record Directory : Type 0 where
  pub visible : Bool
  pub mounted : Bool
  pub readable : Bool
  pub removable : Bool

-- The entries of a directory: a link or a file that can be unlinked or not, a directory and its own.
pub data Entries : Type 0 where
  bare : Entries
  symlink : Text → Bool → Entries → Entries
  file : Text → Bool → Entries → Entries
  directory : Text → Directory → Entries → Entries → Entries

-- What is at a path.
pub data Tree : Type 0 where
  missing : Tree
  unseen : Tree
  leaf : Bool → Tree
  folder : Directory → Entries → Tree

pub data Warning : Type 0 where
  cannot_inspect : Text → Warning
  cannot_remove : Text → Warning
  refusing_mount : Text → Warning
  cannot_read : Text → Warning

pub record Outcome (A : Type 0) : Type 0 where
  pub removed : Bool
  pub warnings : List Warning
  pub left : A

unfoldable pub is_bare : Entries → Bool
is_bare bare = true
is_bare (symlink name removable rest) = false
is_bare (file name removable rest) = false
is_bare (directory name dir inner rest) = false

unfoldable pub keep : {A : Type 0} → Warning → A → Outcome A
keep warning tree = record { removed = false; warnings = warning ∷ []; left = tree }

-- `os.rmdir`, after the entries.
unfoldable pub rmdir : Bool → Text → Outcome Entries → Outcome (Option Entries)
rmdir true path inside = record {
  removed = inside.removed;
  warnings = inside.warnings;
  left = none;
}
rmdir false path inside = record {
  removed = false;
  warnings = inside.warnings ++ cannot_remove path ∷ [];
  left = some inside.left;
}

-- A directory with these entries, with what becomes of them where they are gone through: `os.lstat`,
-- `os.path.ismount`, `os.scandir`, the loop, and `os.rmdir`, which refuses where an entry is left.
unfoldable pub remove_checked :
    (visible mounted readable removable : Bool)
    → Text
    → Entries
    → Outcome Entries
    → Outcome (Option Entries)
unfolding keep rmdir is_bare
remove_checked false mounted readable removable path entries inside =
    keep (cannot_inspect path) (some entries)
remove_checked true true readable removable path entries inside =
    keep (refusing_mount path) (some entries)
remove_checked true false false removable path entries inside =
    keep (cannot_read path) (some entries)
remove_checked true false true removable path entries inside =
    rmdir (is_bare inside.left && removable) path inside

unfoldable pub remove_directory :
    Text → Directory → Entries → Outcome Entries → Outcome (Option Entries)
unfolding remove_checked
remove_directory path dir entries inside =
    remove_checked dir.visible dir.mounted dir.readable dir.removable path entries inside

-- `os.unlink` of an entry, then the others.
unfoldable pub unlink : Text → Bool → (Entries → Entries) → Outcome Entries → Outcome Entries
unlink path true keeps rest = rest
unlink path false keeps rest = record {
  removed = false;
  warnings = cannot_remove path ∷ rest.warnings;
  left = keeps rest.left;
}

unfoldable pub left_of : Text → Directory → Option Entries → Entries → Entries
left_of name dir none rest = rest
left_of name dir (some inner) rest = directory name dir inner rest

unfoldable pub after :
    Text → Directory → Outcome (Option Entries) → Outcome Entries → Outcome Entries
unfolding left_of
after name dir tree rest = record {
  removed = tree.removed && rest.removed;
  warnings = tree.warnings ++ rest.warnings;
  left = left_of name dir tree.left rest.left;
}

-- The loop over the entries of a path, with the calls it makes of itself for the directories.
unfoldable pub remove_entries : Text → Entries → Outcome Entries
unfolding remove_directory unlink after join_path
remove_entries path bare = record { removed = true; warnings = []; left = bare }
remove_entries path (symlink name removable rest) =
    unlink (join_path path name) removable (symlink name removable) (remove_entries path rest)
remove_entries path (file name removable rest) =
    unlink (join_path path name) removable (file name removable) (remove_entries path rest)
remove_entries path (directory name dir inner rest) =
    after name dir
      (remove_directory (join_path path name) dir inner
        (remove_entries (join_path path name) inner))
      (remove_entries path rest)

unfoldable pub folder_of : Directory → Option Entries → Tree
folder_of dir none = missing
folder_of dir (some entries) = folder dir entries

unfoldable pub remove_folder : Directory → Outcome (Option Entries) → Outcome Tree
unfolding folder_of
remove_folder dir tree = record {
  removed = tree.removed;
  warnings = tree.warnings;
  left = folder_of dir tree.left;
}

unfoldable pub safe_rmtree : Text → Tree → Outcome Tree
unfolding remove_entries remove_directory keep remove_folder
safe_rmtree path missing = record { removed = true; warnings = []; left = missing }
safe_rmtree path unseen = keep (cannot_inspect path) unseen
safe_rmtree path (leaf true) = record { removed = true; warnings = []; left = missing }
safe_rmtree path (leaf false) = keep (cannot_remove path) (leaf false)
safe_rmtree path (folder dir entries) =
    remove_folder dir (remove_directory path dir entries (remove_entries path entries))
