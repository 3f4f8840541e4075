-- ===== src/Cli/Mounts/Containers.antt =====
-- `_mount_container` and `_unmount_container` of mounts.py, and the commands that they run in the
-- namespaces of the container.
pub mod Unmade
use tartarus_nix.Base.{
  ℕ, zero, suc, Bool, true, false, not, ◌&&◌, ◌||◌, Option, none, some, List, [], ◌∷◌, ◌++◌, Text,
  codes, starts_with, bytes_eq, is_empty, all, drop, length, decimal, shown, ◌==◌, ◌-◌,
  if◌then◌else◌,
}
use tartarus_nix.Base.Integers.{ℤ, pos, negsuc, int_eq, ltb_int}
use tartarus_nix.Base.Effects.{Eff, Outcome, done, raised, pure, raise, ◌>>=◌, ◌>>◌}
use tartarus_nix.Json.{Value, string, Fields, lookup, truthy, equals}
use tartarus_nix.Mount.Paths.{is_id_char}
use tartarus_nix.Cli.Mounts.Specs.{Mode, mode_rw, mode_ro, overlay, mode_text}
use tartarus_nix.Cli.Mounts.Machine.{World, Machine, Act, run_sudo}
use tartarus_nix.Cli.Mounts.Guests.{check, check_running, new_record}

-- What the tool learns of a container before it mounts.
pub record Container : Type 0 where
  -- the container-host VM that it runs in
  pub nested : Option Text
  -- what `machinectl` and `systemctl` print, read as integers, where they exit with zero
  pub machinectl : Option ℤ
  pub systemctl : Option ℤ
  -- the integers in the file of the children of a process
  pub children : ℤ → List ℤ
  -- the first two numbers of the uid and of the gid map of a process
  pub uid_map : ℤ → Option (ℤ × ℤ)
  pub gid_map : ℤ → Option (ℤ × ℤ)
  -- the descriptor that `os.open` of the source returns
  pub descriptor : Option ℕ

abbrev pub guest_staging : Text
guest_staging = codes "/run/tartarus-mount/staging"

abbrev pub container_overlays : Text
container_overlays = codes "/run/tartarus-mount/overlays"

-- `_first_child_pid`
unfoldable pub first_child : List ℤ → ℤ
first_child [] = pos 0
first_child (child ∷ children) = if ltb_int (pos 0) child then child else first_child children

positive : Option ℤ → Option ℤ
positive none = none
positive (some n) = if ltb_int (pos 0) n then some n else none

child_or : ℤ → ℤ → ℤ
child_or child monitor = if ltb_int (pos 0) child then child else monitor

leader_from : Container → Option ℤ → Option ℤ → Option ℤ
unfolding first_child child_or
leader_from k (some leader) monitor = some leader
leader_from k none (some monitor) = some (child_or (first_child (k.children monitor)) monitor)
leader_from k none none = none

-- `container_leader`; `none` is the `TartarusError`
unfoldable pub container_leader : Container → Option ℤ
unfolding positive leader_from
container_leader k = leader_from k (positive k.machinectl) (positive k.systemctl)

is_shifted : Option (ℤ × ℤ) → Bool
is_shifted none = false
is_shifted (some (inner, outer)) = not (int_eq inner (pos 0)) || not (int_eq outer (pos 0))

-- `needs_idmap`, without its warning
unfoldable pub needs_idmap : Container → ℤ → Bool
unfolding is_shifted
needs_idmap k leader = is_shifted (k.uid_map leader) || is_shifted (k.gid_map leader)

abbrev pub nsenter : ℤ → List Text → List Text
nsenter leader argv =
    codes "nsenter"
    ∷ codes "-t"
    ∷ shown leader
    ∷ codes "-m"
    ∷ codes "-U"
    ∷ codes "-S"
    ∷ codes "0"
    ∷ codes "-G"
    ∷ codes "0"
    ∷ codes "-r"
    ∷ (codes "/proc/" ++ shown leader ++ codes "/root")
    ∷ codes "--"
    ∷ argv

-- `_namespace_run`, without descriptors and with one, which is above 2
unfoldable pub namespace_run : World → ℤ → List Text → Act ℕ
namespace_run w leader argv = run_sudo w (nsenter leader argv)

unfoldable pub namespace_run_with : World → ℤ → ℕ → List Text → Act ℕ
namespace_run_with w leader fd argv =
    run_sudo w ((codes "--preserve-fds=" ++ decimal (fd - 2)) ∷ nsenter leader argv)

-- A stage in the container: an id below the staging directory.
unfoldable pub is_stage : Text → Bool
unfolding is_id_char
is_stage stage =
    let prefix = guest_staging ++ codes "/" in
    let identifier = drop (length prefix) stage in
    starts_with prefix stage && not (is_empty identifier) && all is_id_char identifier

unfoldable pub unmount_lazily : World → ℤ → Text → ℕ → Act (Unit {0})
unmount_lazily w leader path status =
    if status == 0
    then pure tt
    else (do _ ← namespace_run w leader (codes "umount" ∷ codes "-l" ∷ path ∷ []); pure tt)

unfoldable pub remove_stage : World → ℤ → Text → ℕ → Act (Unit {0})
remove_stage w leader stage still_mounted =
    if still_mounted == 0
    then pure tt
    else (do _ ← namespace_run w leader (codes "rmdir" ∷ stage ∷ []); pure tt)

unfoldable pub release_commands : World → ℤ → Text → Act (Unit {0})
unfolding unmount_lazily remove_stage
release_commands w leader stage = do
  status ← namespace_run w leader (codes "umount" ∷ stage ∷ [])
  unmount_lazily w leader stage status
  still_mounted ← namespace_run w leader (codes "mountpoint" ∷ codes "-q" ∷ stage ∷ [])
  remove_stage w leader stage still_mounted

-- `_container_release_stage`: an exception is passed over
unfoldable pub container_release_stage : World → ℤ → Text → Machine → Machine
unfolding release_commands is_stage
container_release_stage w leader stage m =
    if is_stage stage then (release_commands w leader stage m).1 else m

-- `_fail`, where the command did not exit with zero
unfoldable pub or_fail : World → ℤ → Text → ℕ → Act (Unit {0})
or_fail w leader stage status m =
    if status == 0 then (done tt, m) else (raised, container_release_stage w leader stage m)

unfoldable pub must_run : World → ℤ → Text → List Text → Act (Unit {0})
unfolding or_fail
must_run w leader stage argv = do
  status ← namespace_run w leader argv
  or_fail w leader stage status

abbrev pub plain_bind : ℕ → Text → List Text
plain_bind fd stage =
    codes "mount" ∷ codes "--bind" ∷ (codes "/proc/self/fd/" ++ decimal fd) ∷ stage ∷ []

abbrev pub mapped_bind : ℕ → Text → List Text
mapped_bind fd stage =
    codes "mount"
    ∷ codes "--bind"
    ∷ codes "--map-users=0:0:65536"
    ∷ codes "--map-groups=0:0:65536"
    ∷ (codes "/proc/self/fd/" ++ decimal fd)
    ∷ stage
    ∷ []

unfoldable pub bind_plain : World → ℤ → ℕ → Text → Act (Unit {0})
unfolding or_fail
bind_plain w leader fd stage = do
  status ← namespace_run_with w leader fd (plain_bind fd stage)
  or_fail w leader stage status

unfoldable pub bind_retried : World → ℤ → ℕ → Text → ℕ → Act (Unit {0})
unfolding bind_plain
bind_retried w leader fd stage status =
    if status == 0 then pure tt else bind_plain w leader fd stage

-- The bind of the source, with the ids mapped, and plainly where that fails.
unfoldable pub bind_source : World → ℤ → ℕ → Text → Bool → Act (Unit {0})
unfolding bind_plain bind_retried
bind_source w leader fd stage true = do
  status ← namespace_run_with w leader fd (mapped_bind fd stage)
  bind_retried w leader fd stage status
bind_source w leader fd stage false = bind_plain w leader fd stage

unfoldable pub protect_bind : World → ℤ → Text → Mode → Act (Unit {0})
protect_bind w leader stage mode_rw = pure tt
protect_bind w leader stage mode =
    must_run w leader stage (codes "mount" ∷ codes "-o" ∷ codes "remount,ro,bind" ∷ stage ∷ [])

unfoldable pub make_target : World → ℤ → Text → Text → ℕ → Act (Unit {0})
make_target w leader stage target exists = if exists == 0 then pure tt else (do
  must_run w leader stage (codes "mkdir" ∷ codes "-p" ∷ target ∷ [])
  must_run w leader stage (codes "chown" ∷ codes "user:users" ∷ target ∷ []))

unfoldable pub prepare_target : World → ℤ → Text → Text → Act (Unit {0})
unfolding make_target
prepare_target w leader stage target = do
  exists ← namespace_run w leader (codes "test" ∷ codes "-d" ∷ target ∷ [])
  make_target w leader stage target exists

unfoldable pub remount_target : World → ℤ → Text → ℕ → Act ℕ
remount_target w leader target mounted =
    if mounted == 0
    then namespace_run w leader (codes "mount" ∷ codes "-o" ∷ codes "remount,ro,bind" ∷ target ∷ [])
    else pure mounted

abbrev overlay_options : Text → Text → Text
overlay_options stage layer =
    codes "lowerdir="
    ++ stage
    ++ codes ",upperdir="
    ++ layer
    ++ codes "/upper,"
    ++ codes "workdir="
    ++ layer
    ++ codes "/work,userxattr"

-- The mount at the target, and the status of its last command.
unfoldable pub mount_target : World → ℤ → Text → Text → Text → Mode → Act ℕ
unfolding remount_target
mount_target w leader stage layer target mode_rw =
    namespace_run w leader (codes "mount" ∷ codes "--bind" ∷ stage ∷ target ∷ [])
mount_target w leader stage layer target mode_ro = do
  mounted ← namespace_run w leader (codes "mount" ∷ codes "--bind" ∷ stage ∷ target ∷ [])
  remount_target w leader target mounted
mount_target w leader stage layer target overlay = do
  must_run w leader stage
      (codes "mkdir" ∷ codes "-p" ∷ (layer ++ codes "/upper") ∷ (layer ++ codes "/work") ∷ [])
  must_run w leader stage (codes "chown" ∷ codes "-R" ∷ codes "user:users" ∷ layer ∷ [])
  namespace_run w leader (
      codes "mount"
      ∷ codes "-t"
      ∷ codes "overlay"
      ∷ codes "overlay"
      ∷ codes "-o"
      ∷ overlay_options stage layer
      ∷ target
      ∷ [])

unfoldable pub mount_staged : World → ℤ → ℕ → Text → Text → Text → Mode → Bool → Act (Unit {0})
unfolding bind_source protect_bind prepare_target mount_target or_fail
mount_staged w leader fd stage layer target mode idmap = do
  bind_source w leader fd stage idmap
  protect_bind w leader stage mode
  prepare_target w leader stage target
  mounted ← mount_target w leader stage layer target mode
  or_fail w leader stage mounted

unfoldable pub open_source : Option ℕ → Act ℕ
open_source none = raise
open_source (some fd) = pure fd

abbrev pub staging_dirs : List Text
staging_dirs = codes "mkdir" ∷ codes "-p" ∷ guest_staging ∷ container_overlays ∷ []

unfoldable pub mount_led :
    World → Container → Text → Text → Mode → Bool → Text → Option ℤ → Act Fields
unfolding mount_staged open_source
mount_led w k source target mode no_idmap identifier none = raise
mount_led w k source target mode no_idmap identifier (some leader) =
    let stage = guest_staging ++ codes "/" ++ identifier in
    let layer = container_overlays ++ codes "/" ++ identifier in
    (do
      prepared ← namespace_run w leader staging_dirs
      check (prepared == 0)
      fd ← open_source k.descriptor
      mount_staged w leader fd stage layer target mode (needs_idmap k leader && not no_idmap)
      pure (new_record identifier (codes "container") source target mode stage))

unfoldable pub mount_tokened : World → Container → Text → Text → Mode → Bool → Act Fields
unfolding mount_led
mount_tokened w k source target mode no_idmap m =
    mount_led w k source target mode no_idmap (w.token m.trace) (container_leader k) m

unfoldable pub is_native : Option Text → Bool
is_native none = true
is_native (some host) = false

unfoldable pub mount_container : World → Container → Text → Text → Mode → Bool → Act Fields
unfolding mount_tokened is_native
mount_container w k source target mode no_idmap = do
  check (is_native k.nested)
  check_running w
  mount_tokened w k source target mode no_idmap
