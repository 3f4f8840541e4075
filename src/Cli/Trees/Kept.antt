-- ===== src/Cli/Trees/Kept.antt =====
-- What `safe_rmtree` leaves alone.
use tartarus_nix.Base.{
  ◌≡◌, refl, sym, ◌∙◌, Bool, true, false, ◌&&◌, Option, none, some, List, [], ◌∷◌, ◌++◌, Text,
  arith,
}
use std.Path.{ap₂}
use tartarus_nix.Mount.Paths.{join_path}
use tartarus_nix.Cli.Trees.{
  Directory, Entries, bare, symlink, file, directory, Tree, missing, unseen, leaf, folder, Outcome,
  keep, is_bare, rmdir, remove_checked, remove_directory, unlink, left_of, after, remove_entries,
  folder_of, remove_folder, safe_rmtree,
}

-- A mount at a path, with what is mounted.
pub record Mounted : Type 0 where
  pub at : Text
  pub dir : Directory
  pub entries : Entries

-- A directory is one, or else has those inside of it.
abbrev mounts_at : Bool → Text → Directory → Entries → List Mounted → List Mounted
mounts_at true path dir entries inside = record { at = path; dir = dir; entries = entries } ∷ []
mounts_at false path dir entries inside = inside

-- The mounts in the entries of a path, each whole, without those within another.
unfoldable pub mounts_in : Text → Entries → List Mounted
unfolding join_path
mounts_in path bare = []
mounts_in path (symlink name removable rest) = mounts_in path rest
mounts_in path (file name removable rest) = mounts_in path rest
mounts_in path (directory name dir inner rest) =
    mounts_at dir.mounted (join_path path name) dir inner (mounts_in (join_path path name) inner)
    ++ mounts_in path rest

unfoldable pub mounts_of : Text → Tree → List Mounted
unfolding mounts_in
mounts_of path missing = []
mounts_of path unseen = []
mounts_of path (leaf removable) = []
mounts_of path (folder dir entries) =
    mounts_at dir.mounted path dir entries (mounts_in path entries)

-- The mounts of a directory, where it is still there.
abbrev mounts_left : Bool → Text → Directory → Option Entries → List Mounted
mounts_left mounted path dir none = []
mounts_left mounted path dir (some entries) =
    mounts_at mounted path dir entries (mounts_in path entries)

left_of-mounts :
    (path name : Text) (dir : Directory) (inner : Option Entries) (rest : Entries)
    → mounts_in path (left_of name dir inner rest)
      ≡ mounts_left dir.mounted (join_path path name) dir inner ++ mounts_in path rest
unfolding left_of mounts_in
left_of-mounts path name dir none rest = refl
left_of-mounts path name dir (some inner) rest = refl

folder_of-mounts :
    (path : Text) (dir : Directory) (entries : Option Entries)
    → mounts_of path (folder_of dir entries) ≡ mounts_left dir.mounted path dir entries
unfolding folder_of mounts_of
folder_of-mounts path dir none = refl
folder_of-mounts path dir (some entries) = refl

is_bare-mounts :
    (path : Text) (entries : Entries) → is_bare entries ≡ true → mounts_in path entries ≡ []
unfolding is_bare mounts_in
is_bare-mounts path bare h = refl
is_bare-mounts path (symlink name removable rest) h = absurd (cc)
is_bare-mounts path (file name removable rest) h = absurd (cc)
is_bare-mounts path (directory name dir inner rest) h = absurd (cc)

rmdir-mounts :
    (gone : Bool) (path : Text) (dir : Directory) (entries : Entries) (inside : Outcome Entries)
    → (gone ≡ true → is_bare inside.left ≡ true)
    → mounts_in path inside.left ≡ mounts_in path entries
    → mounts_left false path dir (rmdir gone path inside).left ≡ mounts_in path entries
unfolding rmdir
rmdir-mounts true path dir entries inside empty same =
    sym (is_bare-mounts path inside.left (empty refl)) ∙ same
rmdir-mounts false path dir entries inside empty same = same

remove_checked-mounts :
    (visible mounted readable removable : Bool) (path : Text) (dir : Directory) (entries : Entries)
    (inside : Outcome Entries)
    → mounts_in path inside.left ≡ mounts_in path entries
    → mounts_left mounted path dir
        (remove_checked visible mounted readable removable path entries inside).left
      ≡ mounts_at mounted path dir entries (mounts_in path entries)
unfolding remove_checked keep
remove_checked-mounts false mounted readable removable path dir entries inside same = refl
remove_checked-mounts true true readable removable path dir entries inside same = refl
remove_checked-mounts true false false removable path dir entries inside same = refl
remove_checked-mounts true false true removable path dir entries inside same =
    rmdir-mounts (is_bare inside.left && removable) path dir entries inside (λ gone. ground arith)
      same

remove_directory-mounts :
    (path : Text) (dir : Directory) (entries : Entries) (inside : Outcome Entries)
    → mounts_in path inside.left ≡ mounts_in path entries
    → mounts_left dir.mounted path dir (remove_directory path dir entries inside).left
      ≡ mounts_at dir.mounted path dir entries (mounts_in path entries)
unfolding remove_directory
remove_directory-mounts path dir entries inside same =
    remove_checked-mounts dir.visible dir.mounted dir.readable dir.removable path dir entries inside
      same

remove_entries-mounts :
    (path : Text) (entries : Entries)
    → mounts_in path (remove_entries path entries).left ≡ mounts_in path entries
unfolding remove_entries unlink after mounts_in
remove_entries-mounts path bare = refl
remove_entries-mounts path (symlink name true rest) = remove_entries-mounts path rest
remove_entries-mounts path (symlink name false rest) = remove_entries-mounts path rest
remove_entries-mounts path (file name true rest) = remove_entries-mounts path rest
remove_entries-mounts path (file name false rest) = remove_entries-mounts path rest
remove_entries-mounts path (directory name dir inner rest) =
    let deeper = remove_entries (join_path path name) inner in
    let tree = remove_directory (join_path path name) dir inner deeper in
    left_of-mounts path name dir tree.left (remove_entries path rest).left
    ∙ ap₂ ◌++◌
        (remove_directory-mounts (join_path path name) dir inner deeper
          (remove_entries-mounts (join_path path name) inner))
        (remove_entries-mounts path rest)

-- Whatever fails, each mount of the tree is left where it was, with its content whole.
pub safe_rmtree-mounts_of :
    (path : Text) (tree : Tree) → mounts_of path (safe_rmtree path tree).left ≡ mounts_of path tree
unfolding safe_rmtree keep remove_folder mounts_of
safe_rmtree-mounts_of path missing = refl
safe_rmtree-mounts_of path unseen = refl
safe_rmtree-mounts_of path (leaf true) = refl
safe_rmtree-mounts_of path (leaf false) = refl
safe_rmtree-mounts_of path (folder dir entries) =
    folder_of-mounts path dir (remove_directory path dir entries (remove_entries path entries)).left
    ∙ remove_directory-mounts path dir entries (remove_entries path entries)
        (remove_entries-mounts path entries)
