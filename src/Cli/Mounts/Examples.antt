-- ===== src/Cli/Mounts/Examples.antt =====
-- Tests of the model of mounts.py, and its theorems at work.
use tartarus_nix.Base.{
  ◌≡◌, refl, Bool, true, false, not, none, some, List, [], ◌∷◌, Text, codes, bytes_eq, starts_with,
  take, if◌then◌else◌,
}
use tartarus_nix.Base.Integers.{pos}
use tartarus_nix.Base.Effects.{raised}
use tartarus_nix.Json.{lookup, equals, truthy}
use tartarus_nix.Mount.Paths
use tartarus_nix.Mount.Paths.{
  normpath, reserves, split, push, collapse, join_reversed, leading, components, join_path,
}
use tartarus_nix.Cli.Mounts.Specs.{mode_rw, mode_ro}
use tartarus_nix.Cli.Mounts.Machine.{
  gone, created, World, Machine, note, was_run, run_sudo, was_asked, run_remote, write_state,
  append_record, has_target, find_in, without_target, remove_record,
}
use tartarus_nix.Cli.Mounts.Stages.{
  parent, expected_stage, was_removed, remove_dir, release_stage, id_text, path_of,
}
use tartarus_nix.Cli.Mounts.Guests.{
  check, check_running, make_root, was_made, allocate, or_release, bind_stage, remount_stage,
  protect_stage, ask_guest, stage_and_mount, mount_vm, new_record, ask_unmount, record_stage,
  release_expected, unmount_vm,
}
use tartarus_nix.Cli.Mounts.Containers.{Container, mount_container}
use tartarus_nix.Cli.Mounts.Containers.Unmade.{NeedsDirectory, mount_container_fails}
use tartarus_nix.Cli.Mounts.Actions.{
  vm, mount_kind, unmount_kind, check_free, mount_at, unmount_found, unmount_at, Command, mount,
  unmount, cleanup, perform_all,
}
use tartarus_nix.Cli.Mounts.Actions.Commands.{Consistent}
use tartarus_nix.Cli.Mounts.Actions.Runs.{perform_all-Consistent, mount_at-unmount_at}

-- Every command of a host succeeds but a bind of a descriptor; nothing is a mountpoint afterwards.
abbrev is_nsenter : List Text → Bool
is_nsenter [] = false
is_nsenter (program ∷ args) = not (bytes_eq (codes "-") (take 1 program))

abbrev world : World
world = record {
  sudo = λ trace argv. if is_nsenter argv then some 0 else some 32;
  ssh = λ trace argv. some true;
  is_mount = λ trace path. false;
  removal = λ trace path. gone;
  creation = λ trace path. created;
  resolve = λ trace path. some path;
  running = λ trace. true;
  root = codes "/state/dev/mounts";
  leftovers = λ trace. [];
  makes_root = λ trace. true;
  stores = λ trace. true;
  forgets = λ trace. true;
  token = λ trace. codes "deadbeef";
  str = λ v. [];
  darwin = false;
}

abbrev fresh : Machine
fresh = record { records = []; trace = [] }

abbrev shared : Command
shared = mount vm (λ path. some path) (codes "/src:~/src") true false

perform_all-Consistent_example :
    Consistent world
      (perform_all world (shared ∷ unmount vm (codes "~/src") ∷ shared ∷ cleanup ∷ []) fresh)
perform_all-Consistent_example =
    perform_all-Consistent world (shared ∷ unmount vm (codes "~/src") ∷ shared ∷ cleanup ∷ []) fresh
      (record { unique = tt; safe = tt })

abbrev target : Text
target = codes "/home/user/src"

-- After a read-only mount there is one record, for the target.
abbrev mounted : Machine
mounted = (mount_at world vm (codes "/src") target mode_ro fresh).1

mounted_records :
    mounted.records
    ≡ new_record
        (codes "deadbeef")
        (codes "vm")
        (codes "/src")
        target
        mode_ro
        (codes "/state/dev/mounts/deadbeef")
      ∷ []
unfolding mount_at check_free find_in mount_kind mount_vm check check_running run_remote was_asked
    note make_root allocate was_made stage_and_mount bind_stage run_sudo was_run or_release
    protect_stage remount_stage ask_guest append_record write_state join_path starts_with bytes_eq
mounted_records = refl

mount_at-unmount_at_example :
    (unmount_at world vm target (mount_at world vm (codes "/src") target mode_ro fresh).1).1.records
    ≡ []
unfolding mount_at check_free find_in mount_kind mount_vm check check_running run_remote was_asked
    note make_root allocate was_made stage_and_mount bind_stage run_sudo was_run or_release
    protect_stage remount_stage ask_guest append_record write_state join_path starts_with bytes_eq
    unmount_at unmount_found unmount_kind unmount_vm ask_unmount record_stage release_expected
    expected_stage parent release_stage remove_dir was_removed has_target lookup equals
    remove_record without_target id_text path_of truthy
mount_at-unmount_at_example =
    mount_at-unmount_at world vm vm (codes "/src") target mode_ro fresh mounted
      (unmount_at world vm target mounted).1 tt refl refl

abbrev box : Container
box = record {
  nested = none;
  machinectl = some (pos 812);
  systemctl = none;
  children = λ pid. [];
  uid_map = λ pid. some (pos 0, pos 65536);
  gid_map = λ pid. none;
  descriptor = some 5;
}

world_needs : NeedsDirectory world
unfolding bytes_eq
world_needs trace leader fd stage argv shape free = (31, refl)

mount_container_fails_example :
    (mount_container world box (codes "/src") target mode_rw false fresh).0 ≡ raised
mount_container_fails_example =
    mount_container_fails world world_needs box (codes "/src") target mode_rw false fresh refl
