-- ===== src/Cli/Mounts/Actions/Kept.antt =====
-- What mounting and unmounting keep: the records, unless the action returns, and a history in which
-- no directory was removed through a mount, and no guest was asked for a read-only mount before its
-- stage was read-only.
use tartarus_nix.Base.{
  ℕ, ◌≡◌, ◌⊎◌, inl, inr, Bool, false, Option, none, some, List, [], ◌∷◌, Text, codes, ◌==◌,
  Bool-cases,
}
use tartarus_nix.Base.Effects.Keeps.{Keeps, Keeps-pure, Keeps-if, Keeps-bind, Keeps-then}
use tartarus_nix.Json.{Fields}
use tartarus_nix.Mount.Paths.{join_path}
use tartarus_nix.Cli.Mounts.Specs.{Mode, mode_rw}
use tartarus_nix.Cli.Mounts.Machine.{
  Event, ran, remote, made, removed, dropped_root, Removal, gone, missing, failing, World, Machine,
  note, was_run, run_sudo, was_asked, run_remote,
}
use tartarus_nix.Cli.Mounts.Stages.{
  was_removed, remove_dir, unmount_again, unmount_stage, remove_unmounted, release_stage,
}
use tartarus_nix.Cli.Mounts.Guests.{mount_helper, preflight, remount, helper_mount}

-- The command ran with sudo before, and exited with zero.
abbrev pub RanWell : List Text → List Event → Type 0
RanWell argv [] = ⊥
RanWell argv (ran other status ∷ before) = ((other ≡ argv) × (status ≡ 0)) ⊎ RanWell argv before
RanWell argv (remote other ok ∷ before) = RanWell argv before
RanWell argv (made p ∷ before) = RanWell argv before
RanWell argv (removed p ∷ before) = RanWell argv before
RanWell argv (dropped_root ∷ before) = RanWell argv before

abbrev pub Protected : World → Mode → Text → List Event → Type 0
Protected w mode identifier before =
    (mode ≡ mode_rw) ⊎ RanWell (remount (join_path w.root identifier)) before

-- What may be run in the guest.
abbrev pub MayAsk : World → List Text → List Event → Type 0
MayAsk w argv before =
    (argv ≡ preflight)
    ⊎ (((target : Text) × (argv ≡ mount_helper ∷ codes "umount" ∷ target ∷ []))
        ⊎ ((identifier : Text) × (target : Text) × (mode : Mode) × (argv
              ≡ helper_mount identifier target mode)
            × Protected w mode identifier before))

abbrev pub AllSafe : World → List Event → Type 0
AllSafe w [] = Unit {0}
AllSafe w (ran argv status ∷ before) = AllSafe w before
AllSafe w (remote argv ok ∷ before) = MayAsk w argv before × AllSafe w before
AllSafe w (made p ∷ before) = AllSafe w before
AllSafe w (removed p ∷ before) = (w.is_mount before p ≡ false) × AllSafe w before
AllSafe w (dropped_root ∷ before) = AllSafe w before

module _ (w : World) (Kept : List Fields → Type 0) where
  abbrev pub IsSafe : Machine → Type 0
  IsSafe m = Kept m.records × AllSafe w m.trace

  was_run-IsSafe :
      (command : List Text) (m : Machine) (o : Option ℕ) → IsSafe m → IsSafe (was_run command m o).1
  unfolding was_run note
  was_run-IsSafe command m none s = s
  was_run-IsSafe command m (some status) s = s

  pub run_sudo-IsSafe : (command : List Text) → Keeps IsSafe (run_sudo w command)
  unfolding run_sudo
  run_sudo-IsSafe command = record { at = λ m s. was_run-IsSafe command m _ s }

  was_asked-IsSafe :
      (command : List Text) (m : Machine) (o : Option Bool)
      → MayAsk w command m.trace
      → IsSafe m
      → IsSafe (was_asked command m o).1
  unfolding was_asked note
  was_asked-IsSafe command m none a s = s
  was_asked-IsSafe command m (some ok) a s = (s.0, (a, s.1))

  pub run_remote-IsSafe :
      (command : List Text) (m : Machine)
      → MayAsk w command m.trace
      → IsSafe m
      → IsSafe (run_remote w command m).1
  unfolding run_remote
  run_remote-IsSafe command m a s = was_asked-IsSafe command m (w.ssh m.trace command) a s

  was_removed-IsSafe :
      (stage : Text) (m : Machine) (r : Removal)
      → w.is_mount m.trace stage ≡ false
      → IsSafe m
      → IsSafe (was_removed stage m r).1
  unfolding was_removed note
  was_removed-IsSafe stage m gone free s = (s.0, (free, s.1))
  was_removed-IsSafe stage m missing free s = s
  was_removed-IsSafe stage m failing free s = s

  remove_dir-IsSafe :
      (stage : Text) (m : Machine)
      → w.is_mount m.trace stage ≡ false
      → IsSafe m
      → IsSafe (remove_dir w stage m).1
  unfolding remove_dir
  remove_dir-IsSafe stage m free s = was_removed-IsSafe stage m _ free s

  unmount_again-IsSafe : (stage : Text) (status : ℕ) → Keeps IsSafe (unmount_again w stage status)
  unfolding unmount_again
  unmount_again-IsSafe stage status =
      Keeps-if (status == 0) _ _ (Keeps-pure tt)
        (Keeps-bind _ _ (run_sudo-IsSafe _) (λ _. Keeps-pure tt))

  unmount_stage-IsSafe : (stage : Text) → Keeps IsSafe (unmount_stage w stage)
  unfolding unmount_stage
  unmount_stage-IsSafe stage =
      Keeps-bind _ _ (run_sudo-IsSafe _) (λ status. unmount_again-IsSafe stage status)

  remove_unmounted-IsSafe : (stage : Text) → Keeps IsSafe (remove_unmounted w stage)
  unfolding remove_unmounted
  remove_unmounted-IsSafe stage = record {
    at = λ m s. elim (Bool-cases (w.is_mount m.trace stage)) [
      | inl mounted ↦ rw mounted s
      | inr free ↦ rw free (remove_dir-IsSafe stage m free s)
    ];
  }

  -- A stage is removed only when it is no mountpoint.
  pub release_stage-IsSafe : (stage : Text) → Keeps IsSafe (release_stage w stage)
  unfolding release_stage
  release_stage-IsSafe stage = record {
    at = λ m s. elim (Bool-cases (w.is_mount m.trace stage)) [
      | inl mounted ↦
          rw mounted
            ((Keeps-then _ _ (unmount_stage-IsSafe stage) (remove_unmounted-IsSafe stage)).at m s)
      | inr free ↦ rw free (remove_dir-IsSafe stage m free s)
    ];
  }
