-- ===== src/Cli/Mounts/Stages.antt =====
-- The staging directories on the host in mounts.py: which paths may be released, and how.
use tartarus_nix.Base.{
  ℕ, Bool, true, false, Option, none, some, List, [], ◌∷◌, Text, codes, bytes_eq, is_empty, ◌==◌,
  ◌+◌, if◌then◌else◌,
}
use tartarus_nix.Base.Effects.{Outcome, done, raised, pure, ◌>>=◌, ◌>>◌}
use tartarus_nix.Json.{Value, string, Fields, lookup, truthy}
use tartarus_nix.Mount.Paths.{slash, join_path}
use tartarus_nix.Cli.Mounts.Machine.{
  Event, removed, dropped_root, Removal, gone, missing, failing, World, Machine, Act, note,
  run_sudo,
}

-- A path without its last component, and that component.
cut_last : Text → Option Text
cut_last [] = none
cut_last (c ∷ path) = elim (cut_last path) [
  | some before ↦ some (c ∷ before)
  | none ↦ if c == slash then some [] else none
]

-- `Path.parent` of a resolved path
unfoldable pub parent : Text → Text
unfolding cut_last
parent path = elim (cut_last path) [
  | none ↦ codes "."
  | some before ↦ if is_empty before then codes "/" else before
]

-- Whether both paths resolve, and the one is directly below the other.
is_child : Option Text → Option Text → Bool
unfolding parent
is_child (some stage) (some root) = bytes_eq (parent stage) root
is_child stage root = false

-- `_expected_stage`
unfoldable pub expected_stage : World → List Event → Text → Bool
unfolding is_child
expected_stage w trace stage = is_child (w.resolve trace stage) (w.resolve trace w.root)

unfoldable pub was_removed : Text → Machine → Removal → Outcome Bool × Machine
unfolding note
was_removed stage m gone = (done true, note (removed stage) m)
was_removed stage m missing = (done true, m)
was_removed stage m failing = (done false, m)

-- `os.rmdir`: whether the directory is gone afterwards
unfoldable pub remove_dir : World → Text → Act Bool
unfolding was_removed
remove_dir w stage m = was_removed stage m (w.removal m.trace stage)

-- The lazy unmount, where the first one failed.
unfoldable pub unmount_again : World → Text → ℕ → Act (Unit {0})
unmount_again w stage status =
    if status == 0
    then pure tt
    else (do _ ← run_sudo w (codes "umount" ∷ codes "-l" ∷ stage ∷ []); pure tt)

unfoldable pub unmount_stage : World → Text → Act (Unit {0})
unfolding unmount_again
unmount_stage w stage = do
  status ← run_sudo w (codes "umount" ∷ stage ∷ [])
  unmount_again w stage status

-- It is removed only if it is no mountpoint any more.
unfoldable pub remove_unmounted : World → Text → Act Bool
unfolding remove_dir
remove_unmounted w stage m =
    if w.is_mount m.trace stage then (done false, m) else remove_dir w stage m

-- `_release_stage`
unfoldable pub release_stage : World → Text → Act Bool
unfolding unmount_stage remove_unmounted
release_stage w stage m =
    if w.is_mount m.trace stage
    then (do unmount_stage w stage; remove_unmounted w stage) m
    else remove_dir w stage m

unfoldable pub path_of : Option Value → Outcome (Option Text)
path_of (some (string stage)) = done (some stage)
path_of _ = raised

-- `str(record["id"])` of an id that is there
unfoldable pub id_text : World → Option Value → Text
id_text w none = []
id_text w (some v) = w.str v

-- A stage that a record names by its path or by its id, if it names one. A path that is no text
-- raises.
unfoldable pub stage_of : World → Fields → Outcome (Option Text)
unfolding path_of id_text
stage_of w entry =
    if truthy (lookup entry (codes "stage"))
    then path_of (lookup entry (codes "stage"))
    else if truthy (lookup entry (codes "id"))
    then done (some (join_path w.root (id_text w (lookup entry (codes "id")))))
    else done none

unfoldable pub unit_of : Bool → ℕ
unit_of true = 0
unit_of false = 1

-- How many stages could not be released: none or one.
unfoldable pub release_counted : World → Text → Act ℕ
unfolding unit_of
release_counted w stage = do released ← release_stage w stage; pure (unit_of released)

unfoldable pub release_named : World → Outcome (Option Text) → Act ℕ
unfolding release_counted
release_named w raised m = (raised, m)
release_named w (done none) m = (done 0, m)
release_named w (done (some stage)) m =
    if expected_stage w m.trace stage then release_counted w stage m else (done 1, m)

unfoldable pub release_entry : World → Fields → Act ℕ
unfolding release_named stage_of
release_entry w entry = release_named w (stage_of w entry)

-- A loop that counts until it raises, and whether it ran to its end.
unfoldable pub count_on :
    {A : Type 0} → (A → Act ℕ) → List A → ℕ → Outcome ℕ × Machine → (Bool × ℕ) × Machine
count_on f xs n (raised, m) = ((false, n), m)
count_on f [] n (done k, m) = ((true, n + k), m)
count_on f (x ∷ xs) n (done k, m) = count_on f xs (n + k) (f x m)

unfoldable pub count_all : {A : Type 0} → (A → Act ℕ) → List A → ℕ → Machine → (Bool × ℕ) × Machine
unfolding count_on
count_all f xs n m = count_on f xs n (done 0, m)

unfoldable pub root_dropped : Machine → Removal → Machine
unfolding note
root_dropped m gone = note dropped_root m
root_dropped m missing = m
root_dropped m failing = m

-- The `finally`: the state file and the empty staging root go, if they can.
unfoldable pub drop_state : World → Machine → Machine
unfolding root_dropped
drop_state w m =
    root_dropped (record m { records = if w.forgets m.trace then [] else m.records })
      (w.removal m.trace w.root)

unfoldable pub release_leftovers : World → (Bool × ℕ) × Machine → ℕ × Machine
unfolding count_all
release_leftovers w ((false, n), m) = (n, m)
release_leftovers w ((true, n), m) =
    let ((ended, k), m') = count_all (release_counted w) (w.leftovers m.trace) n m in (k, m')

-- `cleanup_vm_mounts`, and how many stages are left mounted
unfoldable pub cleanup_vm_mounts : World → Machine → ℕ × Machine
unfolding release_leftovers drop_state
cleanup_vm_mounts w m =
    let (n, m') = release_leftovers w (count_all (release_entry w) m.records 0 m) in
    (n, drop_state w m')
