-- ===== src/Cli/Mounts/Actions/Runs.antt =====
-- What any sequence of commands leaves of a guest's mounts.
use tartarus_nix.Base.{◌≡◌, ◌∙◌, ap, inl, inr, Bool, Option, List, [], ◌∷◌, Text, Option-cases}
use tartarus_nix.Base.Effects.{Outcome, done}
use tartarus_nix.Json.{Fields}
use tartarus_nix.Cli.Mounts.Specs.{Mode, validate_target, parse_spec, resolve_mode}
use tartarus_nix.Cli.Mounts.Machine.{World, Machine, find_in, without_target}
use tartarus_nix.Cli.Mounts.Actions.{
  Kind, mount_at, action_mount, unmount_at, action_unmount, Command, mount, unmount, cleanup,
  perform, perform_all,
}
use tartarus_nix.Cli.Mounts.Actions.Kept.{AllSafe}
use tartarus_nix.Cli.Mounts.Actions.Released.{cleanup_vm_mounts-Sound}
use tartarus_nix.Cli.Mounts.Actions.Recorded.{Unique, without_target-snoc}
use tartarus_nix.Cli.Mounts.Actions.Commands.{
  MountOutcome, mount_at-outcome, UnmountOutcome, unmount_found-outcome, Consistent,
  mounted-Consistent, unmounted-Consistent,
}

module _ (w : World) where
  mount_at-Consistent :
      (kind : Kind) (source target : Text) (mode : Mode) (m : Machine)
      → Consistent w m
      → Consistent w (mount_at w kind source target mode m).1
  mount_at-Consistent kind source target mode m c =
      mounted-Consistent w m.records target _ c.unique
        (mount_at-outcome w kind source target mode m c.safe)

  unmount_at-Consistent :
      (kind : Kind) (target : Text) (m : Machine)
      → Consistent w m
      → Consistent w (unmount_at w kind target m).1
  unfolding unmount_at
  unmount_at-Consistent kind target m c =
      unmounted-Consistent w m.records target _ c.unique
        (unmount_found-outcome w kind target (find_in target m.records) m c.safe)

  action_mount-Consistent :
      (kind : Kind) (resolve_source : Text → Option Text) (spec : Text) (reading on_top : Bool)
      (m : Machine)
      → Consistent w m
      → Consistent w (action_mount w kind resolve_source spec reading on_top m).1
  unfolding action_mount
  action_mount-Consistent kind resolve_source spec reading on_top m c =
      elim (Option-cases (parse_spec resolve_source spec)) [
        | inl bad ↦ rw bad c
        | inr (parts, parsed) ↦ elim (Option-cases (resolve_mode reading on_top)) [
          | inl bad ↦ rw (parsed, bad) c
          | inr (mode, resolved) ↦
              rw (parsed, resolved) (mount_at-Consistent kind parts.0 parts.1 mode m c)
        ]
      ]

  action_unmount-Consistent :
      (kind : Kind) (target : Text) (m : Machine)
      → Consistent w m
      → Consistent w (action_unmount w kind target m).1
  unfolding action_unmount
  action_unmount-Consistent kind target m c = elim (Option-cases (validate_target target)) [
    | inl bad ↦ rw bad c
    | inr (path, good) ↦ rw good (unmount_at-Consistent kind path m c)
  ]

  perform-Consistent :
      (command : Command) (m : Machine) → Consistent w m → Consistent w (perform w command m)
  unfolding perform
  perform-Consistent (mount kind resolve_source spec reading on_top) m c =
      action_mount-Consistent kind resolve_source spec reading on_top m c
  perform-Consistent (unmount kind target) m c = action_unmount-Consistent kind target m c
  perform-Consistent cleanup m c =
      let (unique, safe) = cleanup_vm_mounts-Sound w Unique tt m (c.unique, c.safe) in
      record { unique = unique; safe = safe }

  -- Whatever sequence of mounts, unmounts and cleanups is asked for, and whichever of their steps
  -- fail: no two records of the guest have the same target, no staging directory of the host was
  -- removed while something was mounted on it, and a VM was asked for a read-only or an overlay mount
  -- only after the bind of its stage had been made read-only.
  pub perform_all-Consistent :
      (commands : List Command) (m : Machine)
      → Consistent w m
      → Consistent w (perform_all w commands m)
  unfolding perform_all
  perform_all-Consistent [] m c = c
  perform_all-Consistent (command ∷ commands) m c =
      perform_all-Consistent commands (perform w command m) (perform-Consistent command m c)

  outcome_of_mount :
      (before : List Fields) (target : Text) (o : Outcome (Unit {0}) × Machine) (m : Machine)
      → o ≡ (done tt, m)
      → MountOutcome w before target o
      → MountOutcome w before target (done tt, m)
  outcome_of_mount before target o m e h = rw e at h

  -- A mount that returns and the unmount of its target that returns, even as another kind of guest,
  -- leave the records as they were before.
  pub mount_at-unmount_at :
      (kind other : Kind) (source target : Text) (mode : Mode) (m m1 m2 : Machine)
      → AllSafe w m.trace
      → mount_at w kind source target mode m ≡ (done tt, m1)
      → unmount_at w other target m1 ≡ (done tt, m2)
      → m2.records ≡ m.records
  unfolding unmount_at
  mount_at-unmount_at kind other source target mode m m1 m2 safe mounted unmounted =
      let (free, (entry, only, one_more), safe1) =
        outcome_of_mount m.records target _ m1 mounted
          (mount_at-outcome w kind source target mode m safe) in
      let left : UnmountOutcome w m1.records target (done tt, m2) =
        rw unmounted at
          (unmount_found-outcome w other target (find_in target m1.records) m1 safe1) in
      left.0
      ∙ ap (without_target target) one_more
      ∙ without_target-snoc target entry m.records only.0 free
