-- ===== src/Mount/Examples.antt =====
-- A guest with a staged directory: tests of the definitions, and the theorems at it.
use tartarus_nix.Base.{
  any, ◌≡◌, refl, true, false, some, [], ◌∷◌, codes, bytes_eq, contains, starts_with,
}
use tartarus_nix.Base.Effects.Keeps.{Keeps}
use tartarus_nix.Json.{Value, string, object, no_fields, field, lookup, equals}
use tartarus_nix.Mount.Paths.{
  normpath, validate_id, validate_target, validate_mode, split, push, collapse, join_reversed,
  leading, components, reserves, is_id_char, join_path,
}
use tartarus_nix.Mount.Paths.{forbidden_targets}
use tartarus_nix.Mount.Paths.Normal.{Normal, validate_target-Normal}
use tartarus_nix.Mount.Host.{World, ran, write_state, attempt, run}
use tartarus_nix.Mount.Requests.{
  find_managed, prepare_target, mount_as, mount_new, mount_found, mount_valid, mount_op, dispatch,
  dispatch_op, ok_with,
}
use tartarus_nix.Mount.Sound.{Sound}
use tartarus_nix.Mount.Sound.Steps.{dispatch-Sound}

abbrev world : World
world = record {
  is_dir = λ trace path. true;
  is_mount = λ trace path. false;
  runs = λ trace command. true;
  makes = λ trace path. true;
  chowns = λ trace path. true;
  stores = λ trace. true;
  mount_bin = codes "mount";
  umount_bin = codes "umount";
  staging_dir = codes "/run/tartarus-mount/staging";
  overlay_dir = codes "/run/tartarus-mount/overlays";
  str = λ v. [];
}

abbrev request : Value
request = object (
    field (codes "op") (string (codes "mount")) (
      field (codes "id") (string (codes "src-1")) (
        field (codes "target") (string (codes "/mnt/./a//b/../c/"))
          (field (codes "mode") (string (codes "rw")) no_fields))))

normal : normpath (codes "/mnt/./a//b/../c/") ≡ codes "/mnt/a/c"
unfolding normpath split push collapse join_reversed leading components starts_with bytes_eq
normal = refl

-- The reserved target `/proc` with two slashes at its front is none of the reserved texts.
two_slashes : validate_target (some (string (codes "//proc"))) ≡ some (codes "//proc")
unfolding validate_target reserves normpath split push collapse join_reversed leading components
    starts_with bytes_eq
two_slashes = refl

mounted :
    (dispatch world request (record { entries = []; trace = [] })).1.trace
    ≡ ran
        (codes "mount"
          ∷ codes "--bind"
          ∷ codes "/run/tartarus-mount/staging/src-1"
          ∷ codes "/mnt/a/c"
          ∷ [])
        true
      ∷ []
unfolding dispatch dispatch_op ok_with mount_op mount_valid mount_found mount_new find_managed
    prepare_target mount_as run attempt write_state validate_id validate_target validate_mode
    is_id_char reserves normpath split push collapse join_reversed leading components starts_with
    bytes_eq lookup equals contains join_path
mounted = refl

dispatch-Sound_example : Keeps (Sound world) (dispatch world request)
dispatch-Sound_example = dispatch-Sound world request

validate_target-Normal_example :
    Normal (codes "/mnt/a") × (any (reserves (codes "/mnt/a")) forbidden_targets ≡ false)
unfolding validate_target reserves normpath split push collapse join_reversed leading components
    starts_with bytes_eq
validate_target-Normal_example =
    validate_target-Normal (some (string (codes "/mnt/x/../a"))) (codes "/mnt/a") refl
