-- ===== src/Cli/Trees/Cleared.antt =====
-- When `safe_rmtree` removes a whole tree, and what it says of it.
use tartarus_nix.Base.{
  ◌≡◌, refl, sym, ◌∙◌, Bool, true, false, not, ◌&&◌, Option, none, some, List, [], ◌∷◌, ◌++◌,
  is_empty, Text, arith,
}
use std.Path.{ap₂}
use mathlib.Core.Path.{subst}
use tartarus_nix.Mount.Paths.{join_path}
use tartarus_nix.Cli.Trees.{
  Directory, Entries, bare, symlink, file, directory, Tree, missing, unseen, leaf, folder, Outcome,
  keep, is_bare, cannot_remove, rmdir, remove_checked, remove_directory, unlink, left_of, after,
  remove_entries, folder_of, remove_folder, safe_rmtree,
}

-- All of it can be inspected, read and removed, and nothing is mounted in it.
unfoldable pub is_clear_directory : Directory → Bool → Bool
is_clear_directory dir inside =
    dir.visible && not dir.mounted && dir.readable && dir.removable && inside

unfoldable pub is_clear : Entries → Bool
unfolding is_clear_directory
is_clear bare = true
is_clear (symlink name removable rest) = removable && is_clear rest
is_clear (file name removable rest) = removable && is_clear rest
is_clear (directory name dir inner rest) = is_clear_directory dir (is_clear inner) && is_clear rest

unfoldable pub is_clear_tree : Tree → Bool
unfolding is_clear is_clear_directory
is_clear_tree missing = true
is_clear_tree unseen = false
is_clear_tree (leaf removable) = removable
is_clear_tree (folder dir entries) = is_clear_directory dir (is_clear entries)

abbrev is_gone : Option Entries → Bool
is_gone none = true
is_gone (some entries) = false

abbrev pub is_missing : Tree → Bool
is_missing missing = true
is_missing unseen = false
is_missing (leaf removable) = false
is_missing (folder dir entries) = false

-- What is returned, what is warned of and what is left all say the same.
pub record Says {A : Type 0} (nothing : A → Bool) (answer : Bool) (o : Outcome A) : Type 0 where
  pub returned : o.removed ≡ answer
  pub warned : is_empty o.warnings ≡ answer
  pub left : nothing o.left ≡ answer

is_empty-append : {A : Type 0} (xs ys : List A) → is_empty (xs ++ ys) ≡ is_empty xs && is_empty ys
is_empty-append [] ys = refl
is_empty-append (x ∷ xs) ys = refl

and_false : (b : Bool) → b && false ≡ false
and_false true = refl
and_false false = refl

and_swapped : (b c r : Bool) → b ≡ c → b && r ≡ r && c
and_swapped b c true same = ground arith
and_swapped b c false same = and_false b

and_left : (b c r : Bool) → b ≡ c → b && r ≡ true → c ≡ true
and_left true c r same h = sym same
and_left false c r same h = absurd (cc)

rmdir-Says :
    (gone inside_clear : Bool) (path : Text) (inside : Outcome Entries)
    → (gone ≡ true → inside_clear ≡ true)
    → Says is_bare inside_clear inside
    → Says is_gone gone (rmdir gone path inside)
unfolding rmdir
rmdir-Says true inside_clear path inside clear says = record {
  returned = says.returned ∙ clear refl;
  warned = says.warned ∙ clear refl;
  left = refl;
}
rmdir-Says false inside_clear path inside clear says = record {
  returned = refl;
  warned =
      is_empty-append inside.warnings (cannot_remove path ∷ [])
      ∙ and_false (is_empty inside.warnings);
  left = refl;
}

remove_checked-Says :
    (visible mounted readable removable inside_clear : Bool) (path : Text) (entries : Entries)
    (inside : Outcome Entries)
    → Says is_bare inside_clear inside
    → Says is_gone
        (visible && not mounted && readable && removable && inside_clear)
        (remove_checked visible mounted readable removable path entries inside)
unfolding remove_checked keep
remove_checked-Says false mounted readable removable inside_clear path entries inside says =
    record { returned = refl; warned = refl; left = refl }
remove_checked-Says true true readable removable inside_clear path entries inside says = record {
  returned = refl;
  warned = refl;
  left = refl;
}
remove_checked-Says true false false removable inside_clear path entries inside says = record {
  returned = refl;
  warned = refl;
  left = refl;
}
remove_checked-Says true false true removable inside_clear path entries inside says =
    let clear : (is_bare inside.left && removable) ≡ (removable && inside_clear) =
      and_swapped (is_bare inside.left) inside_clear removable says.left in
    subst (λ answer. Says is_gone answer (rmdir (is_bare inside.left && removable) path inside))
      clear
      (rmdir-Says (is_bare inside.left && removable) inside_clear path inside
        (λ gone. and_left (is_bare inside.left) inside_clear removable says.left gone) says)

remove_directory-Says :
    (inside_clear : Bool) (path : Text) (dir : Directory) (entries : Entries)
    (inside : Outcome Entries)
    → Says is_bare inside_clear inside
    → Says is_gone (is_clear_directory dir inside_clear) (remove_directory path dir entries inside)
unfolding remove_directory is_clear_directory
remove_directory-Says inside_clear path dir entries inside says =
    remove_checked-Says dir.visible dir.mounted dir.readable dir.removable inside_clear path entries
      inside says

unlink-Says :
    (removable rest_clear : Bool) (path : Text) (keeps : Entries → Entries) (rest : Outcome Entries)
    → ((entries : Entries) → is_bare (keeps entries) ≡ false)
    → Says is_bare rest_clear rest
    → Says is_bare (removable && rest_clear) (unlink path removable keeps rest)
unfolding unlink
unlink-Says true rest_clear path keeps rest kept says = says
unlink-Says false rest_clear path keeps rest kept says = record {
  returned = refl;
  warned = refl;
  left = kept rest.left;
}

left_of-is_bare :
    (name : Text) (dir : Directory) (inner : Option Entries) (rest : Entries)
    → is_bare (left_of name dir inner rest) ≡ is_gone inner && is_bare rest
unfolding left_of is_bare
left_of-is_bare name dir none rest = refl
left_of-is_bare name dir (some inner) rest = refl

after-Says :
    (tree_clear rest_clear : Bool) (name : Text) (dir : Directory) (tree : Outcome (Option Entries))
    (rest : Outcome Entries)
    → Says is_gone tree_clear tree
    → Says is_bare rest_clear rest
    → Says is_bare (tree_clear && rest_clear) (after name dir tree rest)
unfolding after
after-Says tree_clear rest_clear name dir tree rest says then_says = record {
  returned = ap₂ ◌&&◌ says.returned then_says.returned;
  warned = is_empty-append tree.warnings rest.warnings ∙ ap₂ ◌&&◌ says.warned then_says.warned;
  left = left_of-is_bare name dir tree.left rest.left ∙ ap₂ ◌&&◌ says.left then_says.left;
}

remove_entries-Says :
    (path : Text) (entries : Entries)
    → Says is_bare (is_clear entries) (remove_entries path entries)
unfolding remove_entries is_clear is_bare
remove_entries-Says path bare = record { returned = refl; warned = refl; left = refl }
remove_entries-Says path (symlink name removable rest) =
    unlink-Says removable (is_clear rest) (join_path path name) (symlink name removable)
      (remove_entries path rest) (λ entries. refl) (remove_entries-Says path rest)
remove_entries-Says path (file name removable rest) =
    unlink-Says removable (is_clear rest) (join_path path name) (file name removable)
      (remove_entries path rest) (λ entries. refl) (remove_entries-Says path rest)
remove_entries-Says path (directory name dir inner rest) =
    let deeper = remove_entries (join_path path name) inner in
    after-Says (is_clear_directory dir (is_clear inner)) (is_clear rest) name dir
      (remove_directory (join_path path name) dir inner deeper) (remove_entries path rest)
      (remove_directory-Says (is_clear inner) (join_path path name) dir inner deeper
        (remove_entries-Says (join_path path name) inner))
      (remove_entries-Says path rest)

folder_of-is_missing :
    (dir : Directory) (entries : Option Entries)
    → is_missing (folder_of dir entries) ≡ is_gone entries
unfolding folder_of
folder_of-is_missing dir none = refl
folder_of-is_missing dir (some entries) = refl

-- The whole tree is removed just when all of it can be inspected, read and removed and nothing is
-- mounted in it, or it was missing. Just then is true returned, is nothing warned of and is nothing left.
pub safe_rmtree-Says :
    (path : Text) (tree : Tree) → Says is_missing (is_clear_tree tree) (safe_rmtree path tree)
unfolding safe_rmtree keep remove_folder is_clear_tree
safe_rmtree-Says path missing = record { returned = refl; warned = refl; left = refl }
safe_rmtree-Says path unseen = record { returned = refl; warned = refl; left = refl }
safe_rmtree-Says path (leaf true) = record { returned = refl; warned = refl; left = refl }
safe_rmtree-Says path (leaf false) = record { returned = refl; warned = refl; left = refl }
safe_rmtree-Says path (folder dir entries) =
    let inside = remove_entries path entries in
    let says =
      remove_directory-Says (is_clear entries) path dir entries inside
        (remove_entries-Says path entries) in
    record {
      returned = says.returned;
      warned = says.warned;
      left = folder_of-is_missing dir (remove_directory path dir entries inside).left ∙ says.left;
    }
