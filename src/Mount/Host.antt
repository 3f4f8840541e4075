-- ===== src/Mount/Host.antt =====
-- The guest that tartarus-mount.py works on: the state file, and what was done so far.
use tartarus_nix.Base.{Bool, List, ◌∷◌, Text, if◌then◌else◌}
use tartarus_nix.Base.Effects.{Eff, done, raised}
use tartarus_nix.Json.{Value}

pub data Event : Type 0 where
  ran : List Text → Bool → Event
  made : Text → Event
  chowned : Text → Event
  removed_tree : Text → Event

-- The file system and the commands, by what was done before.
pub record World : Type 0 where
  pub is_dir : List Event → Text → Bool
  pub is_mount : List Event → Text → Bool
  -- whether a command runs and exits with zero
  pub runs : List Event → List Text → Bool
  -- whether `os.makedirs`, and looking up the owner with `os.chown`, return
  pub makes : List Event → Text → Bool
  pub chowns : List Event → Text → Bool
  -- whether `write_state` returns
  pub stores : List Event → Bool
  pub mount_bin : Text
  pub umount_bin : Text
  pub staging_dir : Text
  pub overlay_dir : Text
  -- `str(value)`
  pub str : Value → Text

pub record Host : Type 0 where
  -- what `read_state` returns
  pub entries : List Value
  -- the last first
  pub trace : List Event

abbrev pub Op : Type 0 → Type 0
Op = Eff Host

-- `write_state`: the file is replaced whole, or stays as it was
unfoldable pub write_state : World → List Value → Op (Unit {0})
write_state w entries h =
    if w.stores h.trace then (done tt, record h { entries = entries }) else (raised, h)

-- `_run`: whether the command exits with zero
unfoldable pub attempt : World → List Text → Op Bool
attempt w command h = (
  done (w.runs h.trace command),
  record h { trace = ran command (w.runs h.trace command) ∷ h.trace },
)

-- `_run` where its `RuntimeError` is not caught
unfoldable pub run : World → List Text → Op (Unit {0})
unfolding attempt
run w command h = (if w.runs h.trace command then done tt else raised, (attempt w command h).1)

unfoldable pub make_dirs : World → Text → Op (Unit {0})
make_dirs w path h =
    if w.makes h.trace path
    then (done tt, record h { trace = made path ∷ h.trace })
    else (raised, h)

unfoldable pub chown : World → Text → Op (Unit {0})
chown w path h =
    if w.chowns h.trace path
    then (done tt, record h { trace = chowned path ∷ h.trace })
    else (raised, h)

unfoldable pub remove_tree : Text → Op (Unit {0})
remove_tree path h = (done tt, record h { trace = removed_tree path ∷ h.trace })
