-- ===== src/Cli/Mounts/Actions.antt =====
-- `action_mount`, `action_unmount` and `collect_mounts` of mounts.py. An action whose host path and
-- guest are given works on the state file of that guest.
pub mod Kept
pub mod Mounted
pub mod Released
pub mod Contained
pub mod Recorded
pub mod Commands
pub mod Runs
use tartarus_nix.Base.{
  ℕ, Bool, true, false, not, ◌&&◌, ◌||◌, Option, none, some, List, [], ◌∷◌, ◌++◌, Text, codes,
  contains, is_some, all, is_empty, ◌==◌, if◌then◌else◌,
}
use tartarus_nix.Base.Integers.{ℤ}
use tartarus_nix.Base.Effects.{Eff, Outcome, done, raised, pure, raise, lift, ◌>>=◌, ◌>>◌}
use tartarus_nix.Json.{Value, string, Fields, lookup, assign, truthy, equals}
use tartarus_nix.Mount.Paths.{is_id_char}
use tartarus_nix.Cli.Mounts.Specs.{Mode, validate_target, parse_spec, resolve_mode}
use tartarus_nix.Cli.Mounts.Machine.{
  World, Machine, Act, append_record, find_in, remove_record, run_sudo,
}
use tartarus_nix.Cli.Mounts.Stages.{id_text, cleanup_vm_mounts}
use tartarus_nix.Cli.Mounts.Guests.{check, mount_vm, unmount_vm}
use tartarus_nix.Cli.Mounts.Containers.{
  Container, guest_staging, container_overlays, container_leader, namespace_run,
  container_release_stage, unmount_lazily, mount_container,
}

unfoldable pub rmdir_layer : World → ℤ → Text → Act (Unit {0})
rmdir_layer w leader path = do _ ← namespace_run w leader (codes "rmdir" ∷ path ∷ []); pure tt

unfoldable pub remove_layers : World → ℤ → Option Value → Act (Unit {0})
unfolding rmdir_layer is_id_char
remove_layers w leader (some (string identifier)) =
    let layer = container_overlays ++ codes "/" ++ identifier in
    if not (is_empty identifier) && all is_id_char identifier
    then (do
      rmdir_layer w leader (layer ++ codes "/upper")
      rmdir_layer w leader (layer ++ codes "/work")
      rmdir_layer w leader layer)
    else pure tt
remove_layers w leader identifier = pure tt

-- `record.get("stage") or ...`; a stage that is true and no text raises.
unfoldable pub stage_text : World → Fields → Option Text
stage_text w entry =
    if truthy (lookup entry (codes "stage"))
    then text_of (lookup entry (codes "stage"))
    else some (guest_staging ++ codes "/" ++ id_text w (lookup entry (codes "id")))
  where
    text_of : Option Value → Option Text
    text_of (some (string s)) = some s
    text_of _ = none

unfoldable pub release_recorded : World → ℤ → Text → Act (Unit {0})
release_recorded w leader stage m = (done tt, container_release_stage w leader stage m)

unfoldable pub unmount_led : World → Text → Fields → Option ℤ → Act (Unit {0})
unfolding remove_layers stage_text release_recorded
unmount_led w target entry none = raise
unmount_led w target entry (some leader) = do
  status ← namespace_run w leader (codes "umount" ∷ target ∷ [])
  unmount_lazily w leader target status
  if equals (lookup entry (codes "mode")) (codes "overlay")
      then remove_layers w leader (lookup entry (codes "id"))
      else pure tt
  stage ← lift (stage_text w entry)
  release_recorded w leader stage

unfoldable pub unmount_container : World → Container → Text → Fields → Act (Unit {0})
unfolding unmount_led
unmount_container w k target entry m =
    if w.running m.trace then unmount_led w target entry (container_leader k) m else (done tt, m)

-- The kind of a guest, with what is known of a container.
pub data Kind : Type 0 where
  vm : Kind
  container : Container → Bool → Kind

unfoldable pub mount_kind : World → Kind → Text → Text → Mode → Act Fields
mount_kind w vm source target mode = mount_vm w source target mode
mount_kind w (container k no_idmap) source target mode =
    mount_container w k source target mode no_idmap

unfoldable pub unmount_kind : World → Kind → Text → Fields → Act (Unit {0})
unmount_kind w vm target entry = unmount_vm w target entry
unmount_kind w (container k no_idmap) target entry = unmount_container w k target entry

-- `find_record` is None
unfoldable pub check_free : Text → Act (Unit {0})
check_free target m = if is_some (find_in target m.records) then (raised, m) else (done tt, m)

unfoldable pub mount_at : World → Kind → Text → Text → Mode → Act (Unit {0})
unfolding mount_kind check_free
mount_at w kind source target mode = do
  check_free target
  entry ← mount_kind w kind source target mode
  append_record w entry

unfoldable pub action_mount :
    World → Kind → (Text → Option Text) → Text → Bool → Bool → Act (Unit {0})
unfolding mount_at
action_mount w kind resolve_source spec reading on_top = do
  parts ← lift (parse_spec resolve_source spec)
  mode ← lift (resolve_mode reading on_top)
  mount_at w kind parts.0 parts.1 mode

unfoldable pub unmount_found : World → Kind → Text → Option Fields → Act (Unit {0})
unfolding unmount_kind
unmount_found w kind target none = raise
unmount_found w kind target (some entry) = do
  unmount_kind w kind target entry
  remove_record w target

unfoldable pub unmount_at : World → Kind → Text → Act (Unit {0})
unfolding unmount_found
unmount_at w kind target m = unmount_found w kind target (find_in target m.records) m

unfoldable pub action_unmount : World → Kind → Text → Act (Unit {0})
unfolding unmount_at
action_unmount w kind target = do path ← lift (validate_target target); unmount_at w kind path

-- What the tool is asked to do with one guest, one command after the other; the cleanup is that of a
-- VM that went down.
pub data Command : Type 0 where
  mount : Kind → (Text → Option Text) → Text → Bool → Bool → Command
  unmount : Kind → Text → Command
  cleanup : Command

unfoldable pub perform : World → Command → Machine → Machine
unfolding action_mount action_unmount
perform w (mount kind resolve_source spec reading on_top) m =
    (action_mount w kind resolve_source spec reading on_top m).1
perform w (unmount kind target) m = (action_unmount w kind target m).1
perform w cleanup m = (cleanup_vm_mounts w m).1

unfoldable pub perform_all : World → List Command → Machine → Machine
unfolding perform
perform_all w [] m = m
perform_all w (c ∷ commands) m = perform_all w commands (perform w c m)
