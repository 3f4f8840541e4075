-- ===== src/Cli/Mounts/Specs.antt =====
-- What a mount is asked for by: the guest path and the mode, in mounts.py of the command-line tool.
-- `none` is a `TartarusError`.
pub mod Agreed
use tartarus_nix.Base.{
  ℕ, Bool, true, false, not, ◌&&◌, ◌||◌, Option, none, some, List, [], ◌∷◌, ◌++◌, Text, codes,
  bytes_eq, starts_with, any, is_empty, drop, ◌==◌, if◌then◌else◌,
}
use tartarus_nix.Base.Options.{◌>>=◌, ◌>>◌, require}
use tartarus_nix.Mount.Paths.{slash, normpath, reserves}

abbrev pub guest_home : Text
guest_home = codes "/home/user"

abbrev pub reserved_targets : List Text
reserved_targets =
    codes "/" ∷ codes "/proc" ∷ codes "/sys" ∷ codes "/dev" ∷ codes "/run/tartarus-mount" ∷ []

unfoldable pub expand_guest_path : Text → Option Text
expand_guest_path target =
    if bytes_eq target (codes "~")
    then some guest_home
    else if starts_with (codes "~/") target
    then some (guest_home ++ drop 1 target)
    else if starts_with (codes "~") target
    then none
    else some target

-- `reserves` is the same test as that of the helper in the guest.
unfoldable pub checked_target : Text → Option Text
checked_target target = do
  require (starts_with (slash ∷ []) target)
  require (not (any (reserves (normpath target)) reserved_targets))
  some (normpath target)

unfoldable pub validate_target : Text → Option Text
unfolding expand_guest_path checked_target
validate_target target = do
  require (not (is_empty target))
  path ← expand_guest_path target
  checked_target path

-- `value.partition(":")`, of a value with a colon
unfoldable pub partition : Text → Option (Text × Text)
partition [] = none
partition (c ∷ value) = elim (c == 58) [
  | true ↦ some ([], value)
  | false ↦ elim (partition value) [
    | none ↦ none
    | some (before, behind) ↦ some (c ∷ before, behind)
  ]
]

-- `parse_spec`, up to the host path, which `resolve_source` looks up: it is expanded, made absolute
-- and resolved to an existing directory.
unfoldable pub parse_spec : (Text → Option Text) → Text → Option (Text × Text)
unfolding partition validate_target
parse_spec resolve_source spec = do
  parts ← partition spec
  require (not (is_empty parts.0))
  require (not (is_empty parts.1))
  target ← validate_target parts.1
  source ← resolve_source parts.0
  some (source, target)

pub data Mode : Type 0 where
  mode_rw mode_ro overlay : Mode

abbrev pub mode_text : Mode → Text
mode_text mode_rw = codes "rw"
mode_text mode_ro = codes "ro"
mode_text overlay = codes "overlay"

unfoldable pub resolve_mode : Bool → Bool → Option Mode
resolve_mode read_only on_top =
    if read_only && on_top
    then none
    else some (if on_top then overlay else if read_only then mode_ro else mode_rw)
