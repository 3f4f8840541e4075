-- ===== src/Cli/Mounts/Machine.antt =====
-- What mounts.py of the command-line tool works on: the state file of one guest and what was run,
-- made and removed.
use tartarus_nix.Base.{ℕ, Bool, Option, none, some, List, [], ◌∷◌, ◌++◌, Text, codes, if◌then◌else◌}
use tartarus_nix.Base.Effects.{Eff, Outcome, done, raised}
use tartarus_nix.Json.{Value, Fields, lookup, equals}

pub data Event : Type 0 where
  -- a command run with sudo, and its exit status
  ran : List Text → ℕ → Event
  -- a command run in the guest, and whether it exits with zero
  remote : List Text → Bool → Event
  made removed : Text → Event
  -- the staging root was removed
  dropped_root : Event

pub data Removal : Type 0 where
  gone missing failing : Removal

pub data Creation : Type 0 where
  created there refused : Creation

-- What answers the tool, by what was done before; `none` is an exception.
pub record World : Type 0 where
  pub sudo : List Event → List Text → Option ℕ
  pub ssh : List Event → List Text → Option Bool
  -- `os.path.ismount`, `os.rmdir`, `Path.mkdir` and `Path.resolve`
  pub is_mount : List Event → Text → Bool
  pub removal : List Event → Text → Removal
  pub creation : List Event → Text → Creation
  pub resolve : List Event → Text → Option Text
  -- whether the guest runs
  pub running : List Event → Bool
  -- the state directory of the guest, `staging_root`
  pub root : Text
  -- the directories in it
  pub leftovers : List Event → List Text
  -- `root.mkdir` with parents, `write_state` and the removal of the state file return
  pub makes_root : List Event → Bool
  pub stores : List Event → Bool
  pub forgets : List Event → Bool
  -- `secrets.token_hex(4)`
  pub token : List Event → Text
  -- `str(value)`
  pub str : Value → Text
  -- whether the host is a Mac
  pub darwin : Bool

pub record Machine : Type 0 where
  -- what `read_state` returns
  pub records : List Fields
  -- the last first
  pub trace : List Event

abbrev pub Act : Type 0 → Type 0
Act = Eff Machine

unfoldable pub note : Event → Machine → Machine
note e m = record m { trace = e ∷ m.trace }

unfoldable pub was_run : List Text → Machine → Option ℕ → Outcome ℕ × Machine
unfolding note
was_run command m none = (raised, m)
was_run command m (some status) = (done status, note (ran command status) m)

-- `process.run_sudo_capture`, and its exit status
unfoldable pub run_sudo : World → List Text → Act ℕ
unfolding was_run
run_sudo w command m = was_run command m (w.sudo m.trace command)

unfoldable pub was_asked : List Text → Machine → Option Bool → Outcome Bool × Machine
unfolding note
was_asked command m none = (raised, m)
was_asked command m (some ok) = (done ok, note (remote command ok) m)

-- `ssh.run_remote`: whether the command exits with zero
unfoldable pub run_remote : World → List Text → Act Bool
unfolding was_asked
run_remote w command m = was_asked command m (w.ssh m.trace command)

-- `write_state`: the file is replaced whole, or stays as it was
unfoldable pub write_state : World → List Fields → Act (Unit {0})
write_state w records m =
    if w.stores m.trace then (done tt, record m { records = records }) else (raised, m)

unfoldable pub append_record : World → Fields → Act (Unit {0})
append_record w entry m = write_state w (m.records ++ entry ∷ []) m

-- `record.get("target") == target`
unfoldable pub has_target : Text → Fields → Bool
has_target target entry = equals (lookup entry (codes "target")) target

unfoldable pub find_in : Text → List Fields → Option Fields
unfolding has_target
find_in target [] = none
find_in target (entry ∷ records) =
    if has_target target entry then some entry else find_in target records

unfoldable pub without_target : Text → List Fields → List Fields
unfolding has_target
without_target target [] = []
without_target target (entry ∷ records) =
    let rest = without_target target records in
    if has_target target entry then rest else entry ∷ rest

unfoldable pub remove_record : World → Text → Act (Unit {0})
unfolding without_target
remove_record w target m = write_state w (without_target target m.records) m
