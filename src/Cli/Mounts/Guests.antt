-- ===== src/Cli/Mounts/Guests.antt =====
-- `_mount_vm` and `_unmount_vm` of mounts.py.
use tartarus_nix.Base.{
  ℕ, zero, suc, Bool, true, false, not, Option, none, some, List, [], ◌∷◌, Text, codes, ◌==◌,
  if◌then◌else◌,
}
use tartarus_nix.Base.Effects.{Outcome, done, raised, pure, raise, ◌>>=◌, ◌>>◌}
use tartarus_nix.Json.{string, Fields, no_fields, field, lookup, truthy}
use tartarus_nix.Mount.Paths.{join_path}
use tartarus_nix.Cli.Mounts.Specs.{Mode, mode_rw, mode_text}
use tartarus_nix.Cli.Mounts.Machine.{
  made, Creation, created, there, refused, World, Machine, Act, note, run_sudo, run_remote,
}
use tartarus_nix.Cli.Mounts.Stages.{release_stage, expected_stage, id_text, path_of}

abbrev pub mount_helper : Text
mount_helper = codes "/run/current-system/sw/bin/tartarus-mount"

abbrev pub preflight : List Text
preflight =
    codes "sh"
    ∷ codes "-c"
    ∷ codes
        "test -x /run/current-system/sw/bin/tartarus-mount && test -d /run/tartarus-mount/staging"
    ∷ []

-- `if not test: raise`
unfoldable pub check : Bool → Act (Unit {0})
check true = pure tt
check false = raise

unfoldable pub check_running : World → Act (Unit {0})
check_running w m = if w.running m.trace then (done tt, m) else (raised, m)

unfoldable pub make_root : World → Act (Unit {0})
make_root w m = if w.makes_root m.trace then (done tt, m) else (raised, m)

unfoldable pub was_made :
    Text → Text → Machine → Creation → Outcome Text × Machine → Outcome Text × Machine
unfolding note
was_made identifier stage m created later = (done identifier, note (made stage) m)
was_made identifier stage m there later = later
was_made identifier stage m refused later = (raised, m)

-- The tries that are left to find an id whose directory is not there.
unfoldable pub allocate : World → ℕ → Act Text
unfolding was_made
allocate w zero m = (raised, m)
allocate w (suc tries) m =
    let later = allocate w tries m in
    let identifier = w.token m.trace in
    let stage = join_path w.root identifier in
    was_made identifier stage m (w.creation m.trace stage) later

-- `_fail`, where the step did not succeed
unfoldable pub or_release : World → Text → Bool → Act (Unit {0})
or_release w stage true = pure tt
or_release w stage false = do _ ← release_stage w stage; raise

unfoldable pub bind_stage : World → Text → Text → Act (Unit {0})
unfolding or_release
bind_stage w source stage = do
  status ← run_sudo w (codes "mount" ∷ codes "--bind" ∷ source ∷ stage ∷ [])
  or_release w stage (status == 0)

abbrev pub remount : Text → List Text
remount stage = codes "mount" ∷ codes "-o" ∷ codes "remount,ro,bind" ∷ stage ∷ []

unfoldable pub remount_stage : World → Text → Act (Unit {0})
unfolding or_release
remount_stage w stage = do status ← run_sudo w (remount stage); or_release w stage (status == 0)

unfoldable pub protect_stage : World → Mode → Text → Act (Unit {0})
unfolding remount_stage
protect_stage w mode_rw stage = pure tt
protect_stage w mode stage = remount_stage w stage

abbrev pub helper_mount : Text → Text → Mode → List Text
helper_mount identifier target mode =
    mount_helper ∷ codes "mount" ∷ identifier ∷ target ∷ mode_text mode ∷ []

unfoldable pub ask_guest : World → Text → Text → Text → Mode → Act (Unit {0})
unfolding or_release
ask_guest w stage identifier target mode = do
  mounted ← run_remote w (helper_mount identifier target mode)
  or_release w stage mounted

abbrev pub new_record : Text → Text → Text → Text → Mode → Text → Fields
new_record identifier kind source target mode stage = field (codes "id") (string identifier) (
    field (codes "kind") (string kind) (
      field (codes "source") (string source) (
        field (codes "target") (string target) (
          field (codes "mode") (string (mode_text mode))
            (field (codes "stage") (string stage) no_fields)))))

unfoldable pub stage_and_mount : World → Text → Text → Mode → Text → Act Fields
unfolding bind_stage protect_stage ask_guest
stage_and_mount w source target mode identifier =
    let stage = join_path w.root identifier in
    (do
      bind_stage w source stage
      protect_stage w mode stage
      ask_guest w stage identifier target mode
      pure (new_record identifier (codes "vm") source target mode stage))

unfoldable pub mount_vm : World → Text → Text → Mode → Act Fields
unfolding stage_and_mount allocate check check_running make_root
mount_vm w source target mode = do
  check (not w.darwin)
  check_running w
  ready ← run_remote w preflight
  check ready
  make_root w
  identifier ← allocate w 10
  stage_and_mount w source target mode identifier

-- What the guest answers does not matter. Where `run_remote` raises, that is taken to be the
-- `TartarusError` that is passed over.
unfoldable pub ask_unmount : World → Text → Machine → Machine
ask_unmount w target m =
    if w.running m.trace
    then (run_remote w (mount_helper ∷ codes "umount" ∷ target ∷ []) m).1
    else m

-- The stage of a record: its path, or the one that its id names.
unfoldable pub record_stage : World → Fields → Outcome (Option Text)
unfolding id_text path_of
record_stage w entry =
    if truthy (lookup entry (codes "stage"))
    then path_of (lookup entry (codes "stage"))
    else done (some (join_path w.root (id_text w (lookup entry (codes "id")))))

unfoldable pub release_expected : World → Outcome (Option Text) → Act (Unit {0})
release_expected w raised m = (raised, m)
release_expected w (done none) m = (done tt, m)
release_expected w (done (some stage)) m =
    if expected_stage w m.trace stage
    then (do _ ← release_stage w stage; pure tt) m
    else (done tt, m)

unfoldable pub unmount_vm : World → Text → Fields → Act (Unit {0})
unfolding ask_unmount record_stage release_expected
unmount_vm w target entry m = release_expected w (record_stage w entry) (ask_unmount w target m)
