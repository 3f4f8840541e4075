-- ===== src/Cli/Mounts/Actions/Contained.antt =====
-- The commands that mounts.py runs in a container keep the history safe, as any command of the host
-- does.
use tartarus_nix.Base.{
  ℕ, inl, inr, Bool, true, false, Option, none, some, List, Text, codes, ◌==◌, Bool-cases,
}
use tartarus_nix.Base.Integers.{ℤ}
use tartarus_nix.Base.Effects.Keeps.{
  Keeps, Keeps-pure, Keeps-raise, Keeps-lift, Keeps-if, Keeps-bind, Keeps-then, keeps_rules,
}
use tartarus_nix.Json.{
  Value, null, boolean, integer, real, string, array, object, Fields, lookup, equals,
}
use tartarus_nix.Cli.Mounts.Specs.{Mode, mode_rw, mode_ro, overlay}
use tartarus_nix.Cli.Mounts.Machine.{World, Machine}
use tartarus_nix.Cli.Mounts.Guests.{check, check_running}
use tartarus_nix.Cli.Mounts.Containers.{
  Container, container_leader, namespace_run, namespace_run_with, is_stage, unmount_lazily,
  remove_stage, release_commands, container_release_stage, or_fail, must_run, bind_plain,
  bind_retried, bind_source, protect_bind, make_target, prepare_target, remount_target,
  mount_target, mount_staged, open_source, mount_led, mount_tokened, is_native, mount_container,
}
use tartarus_nix.Cli.Mounts.Actions.{
  rmdir_layer, remove_layers, stage_text, release_recorded, unmount_led, unmount_container,
}
use tartarus_nix.Cli.Mounts.Actions.Kept.{IsSafe, run_sudo-IsSafe}

module _ (w : World) (Kept : List Fields → Type 0) (leader : ℤ) where
  abbrev pub Sound : Machine → Type 0
  Sound = IsSafe w Kept

  namespace_run-Sound : (argv : List Text) → Keeps Sound (namespace_run w leader argv)
  unfolding namespace_run
  namespace_run-Sound argv = run_sudo-IsSafe w Kept _

  namespace_run_with-Sound :
      (fd : ℕ) (argv : List Text) → Keeps Sound (namespace_run_with w leader fd argv)
  unfolding namespace_run_with
  namespace_run_with-Sound fd argv = run_sudo-IsSafe w Kept _

  unmount_lazily-Sound :
      (path : Text) (status : ℕ) → Keeps Sound (unmount_lazily w leader path status)
  unfolding unmount_lazily
  unmount_lazily-Sound path status = search (keeps_rules, namespace_run-Sound)

  remove_stage-Sound :
      (stage : Text) (status : ℕ) → Keeps Sound (remove_stage w leader stage status)
  unfolding remove_stage
  remove_stage-Sound stage status = search (keeps_rules, namespace_run-Sound)

  release_commands-Sound : (stage : Text) → Keeps Sound (release_commands w leader stage)
  unfolding release_commands
  release_commands-Sound stage =
      search (keeps_rules, namespace_run-Sound, unmount_lazily-Sound, remove_stage-Sound)

  container_release_stage-Sound :
      (stage : Text) (m : Machine) → Sound m → Sound (container_release_stage w leader stage m)
  unfolding container_release_stage
  container_release_stage-Sound stage m s = elim (Bool-cases (is_stage stage)) [
    | inl e ↦ rw e ((release_commands-Sound stage).at m s)
    | inr e ↦ rw e s
  ]

  or_fail-Sound : (stage : Text) (status : ℕ) → Keeps Sound (or_fail w leader stage status)
  unfolding or_fail
  or_fail-Sound stage status = record {
    at = λ m s. elim (Bool-cases (status == 0)) [
      | inl e ↦ rw e s
      | inr e ↦ rw e (container_release_stage-Sound stage m s)
    ];
  }

  must_run-Sound : (stage : Text) (argv : List Text) → Keeps Sound (must_run w leader stage argv)
  unfolding must_run
  must_run-Sound stage argv = search (keeps_rules, namespace_run-Sound, or_fail-Sound)

  bind_plain-Sound : (fd : ℕ) (stage : Text) → Keeps Sound (bind_plain w leader fd stage)
  unfolding bind_plain
  bind_plain-Sound fd stage = search (keeps_rules, namespace_run_with-Sound, or_fail-Sound)

  bind_retried-Sound :
      (fd : ℕ) (stage : Text) (status : ℕ) → Keeps Sound (bind_retried w leader fd stage status)
  unfolding bind_retried
  bind_retried-Sound fd stage status = search (keeps_rules, bind_plain-Sound)

  bind_source-Sound :
      (fd : ℕ) (stage : Text) (idmap : Bool) → Keeps Sound (bind_source w leader fd stage idmap)
  unfolding bind_source
  bind_source-Sound fd stage true =
      search (keeps_rules, namespace_run_with-Sound, bind_retried-Sound)
  bind_source-Sound fd stage false = bind_plain-Sound fd stage

  protect_bind-Sound : (stage : Text) (mode : Mode) → Keeps Sound (protect_bind w leader stage mode)
  unfolding protect_bind
  protect_bind-Sound stage mode_rw = Keeps-pure tt
  protect_bind-Sound stage mode_ro = must_run-Sound stage _
  protect_bind-Sound stage overlay = must_run-Sound stage _

  make_target-Sound :
      (stage target : Text) (exists : ℕ) → Keeps Sound (make_target w leader stage target exists)
  unfolding make_target
  make_target-Sound stage target exists = search (keeps_rules, must_run-Sound)

  prepare_target-Sound : (stage target : Text) → Keeps Sound (prepare_target w leader stage target)
  unfolding prepare_target
  prepare_target-Sound stage target = search (keeps_rules, namespace_run-Sound, make_target-Sound)

  remount_target-Sound :
      (target : Text) (mounted : ℕ) → Keeps Sound (remount_target w leader target mounted)
  unfolding remount_target
  remount_target-Sound target mounted = search (keeps_rules, namespace_run-Sound)

  mount_target-Sound :
      (stage layer target : Text) (mode : Mode)
      → Keeps Sound (mount_target w leader stage layer target mode)
  unfolding mount_target
  mount_target-Sound stage layer target mode_rw = namespace_run-Sound _
  mount_target-Sound stage layer target mode_ro =
      search (keeps_rules, namespace_run-Sound, remount_target-Sound)
  mount_target-Sound stage layer target overlay =
      search (keeps_rules, namespace_run-Sound, must_run-Sound)

  mount_staged-Sound :
      (fd : ℕ) (stage layer target : Text) (mode : Mode) (idmap : Bool)
      → Keeps Sound (mount_staged w leader fd stage layer target mode idmap)
  unfolding mount_staged
  mount_staged-Sound fd stage layer target mode idmap = search (
    keeps_rules, bind_source-Sound, protect_bind-Sound, prepare_target-Sound, mount_target-Sound,
    or_fail-Sound,
  )

  rmdir_layer-Sound : (path : Text) → Keeps Sound (rmdir_layer w leader path)
  unfolding rmdir_layer
  rmdir_layer-Sound path = search (keeps_rules, namespace_run-Sound)

  remove_layers-Sound : (o : Option Value) → Keeps Sound (remove_layers w leader o)
  unfolding remove_layers
  remove_layers-Sound (some (string identifier)) = search (keeps_rules, rmdir_layer-Sound)
  remove_layers-Sound none = Keeps-pure tt
  remove_layers-Sound (some null) = Keeps-pure tt
  remove_layers-Sound (some (boolean v)) = Keeps-pure tt
  remove_layers-Sound (some (integer v)) = Keeps-pure tt
  remove_layers-Sound (some (real v)) = Keeps-pure tt
  remove_layers-Sound (some (array v)) = Keeps-pure tt
  remove_layers-Sound (some (object v)) = Keeps-pure tt

  release_recorded-Sound : (stage : Text) → Keeps Sound (release_recorded w leader stage)
  unfolding release_recorded
  release_recorded-Sound stage = record { at = λ m s. container_release_stage-Sound stage m s }

module _ (w : World) (Kept : List Fields → Type 0) where
  check-Sound : (b : Bool) → Keeps (IsSafe w Kept) (check b)
  unfolding check
  check-Sound true = Keeps-pure tt
  check-Sound false = Keeps-raise

  check_running-Sound : Keeps (IsSafe w Kept) (check_running w)
  unfolding check_running
  check_running-Sound = record {
    at = λ m s. elim (Bool-cases (w.running m.trace)) [ inl e ↦ rw e s | inr e ↦ rw e s ];
  }

  open_source-Sound : (o : Option ℕ) → Keeps (IsSafe w Kept) (open_source o)
  unfolding open_source
  open_source-Sound none = Keeps-raise
  open_source-Sound (some fd) = Keeps-pure fd

  mount_led-Sound :
      (k : Container) (source target : Text) (mode : Mode) (no_idmap : Bool) (identifier : Text)
      (leader : Option ℤ)
      → Keeps (IsSafe w Kept) (mount_led w k source target mode no_idmap identifier leader)
  unfolding mount_led
  mount_led-Sound k source target mode no_idmap identifier none = Keeps-raise
  mount_led-Sound k source target mode no_idmap identifier (some leader) =
      search (keeps_rules, namespace_run-Sound, check-Sound, open_source-Sound, mount_staged-Sound)

  pub mount_container-Sound :
      (k : Container) (source target : Text) (mode : Mode) (no_idmap : Bool)
      → Keeps (IsSafe w Kept) (mount_container w k source target mode no_idmap)
  unfolding mount_container mount_tokened
  mount_container-Sound k source target mode no_idmap =
      Keeps-then _ _ (check-Sound (is_native k.nested)) (
        Keeps-then _ _ check_running-Sound (record {
          at = λ m s.
              (mount_led-Sound k source target mode no_idmap (w.token m.trace)
                  (container_leader k)).at
                m s;
        }))

  unmount_led-Sound :
      (target : Text) (entry : Fields) (leader : Option ℤ)
      → Keeps (IsSafe w Kept) (unmount_led w target entry leader)
  unfolding unmount_led
  unmount_led-Sound target entry none = Keeps-raise
  unmount_led-Sound target entry (some leader) =
      Keeps-bind _ _ (namespace_run-Sound w Kept leader _) (λ status.
        Keeps-then _ _ (unmount_lazily-Sound w Kept leader target status) (
          Keeps-then _ _
            (Keeps-if (equals (lookup entry (codes "mode")) (codes "overlay")) _ _
              (remove_layers-Sound w Kept leader (lookup entry (codes "id"))) (Keeps-pure tt))
            (Keeps-bind _ _ (Keeps-lift (stage_text w entry))
              (λ stage. release_recorded-Sound w Kept leader stage))))

  pub unmount_container-Sound :
      (k : Container) (target : Text) (entry : Fields)
      → Keeps (IsSafe w Kept) (unmount_container w k target entry)
  unfolding unmount_container
  unmount_container-Sound k target entry = record {
    at = λ m s. elim (Bool-cases (w.running m.trace)) [
      | inl up ↦ rw up ((unmount_led-Sound target entry (container_leader k)).at m s)
      | inr down ↦ rw down s
    ];
  }
