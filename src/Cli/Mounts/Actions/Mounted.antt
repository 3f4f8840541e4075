-- ===== src/Cli/Mounts/Actions/Mounted.antt =====
-- `_mount_vm`, `_unmount_vm`, `cleanup_vm_mounts` and the commands in containers keep the history
-- safe.
use tartarus_nix.Base.{
  ℕ, zero, suc, ◌≡◌, refl, inl, inr, Bool, true, false, not, Option, none, some, List, Text, ◌==◌,
  ==_iff, Bool-cases,
}
use tartarus_nix.Base.Effects.{Outcome, done, raised, pure, ◌>>=◌, ◌>>◌}
use tartarus_nix.Base.Effects.Keeps.{Keeps, Keeps-pure, Keeps-raise, Keeps-bind, Keeps-then}
use tartarus_nix.Base.Effects.Meets.{
  Meets, Meets-bind, Meets-pure, Meets-raise, Meets-Keeps, Keeps-Meets, Returns, trivially_returned,
}
use tartarus_nix.Json.{Fields}
use tartarus_nix.Mount.Paths.{join_path}
use tartarus_nix.Cli.Mounts.Specs.{Mode, mode_rw, mode_ro, overlay}
use tartarus_nix.Cli.Mounts.Machine.{
  Creation, created, there, refused, World, Machine, note, was_run, run_sudo, run_remote,
}
use tartarus_nix.Cli.Mounts.Stages.{expected_stage}
use tartarus_nix.Cli.Mounts.Guests.{
  preflight, check, check_running, make_root, was_made, allocate, or_release, bind_stage, remount,
  remount_stage, protect_stage, helper_mount, ask_guest, stage_and_mount, mount_vm, ask_unmount,
  record_stage, release_expected, unmount_vm,
}
use tartarus_nix.Cli.Mounts.Actions.Kept.{
  Protected, IsSafe, run_sudo-IsSafe, run_remote-IsSafe, release_stage-IsSafe,
}

module _ (w : World) (Kept : List Fields → Type 0) where
  abbrev Sound : Machine → Type 0
  Sound = IsSafe w Kept

  check-Sound : (b : Bool) → Keeps Sound (check b)
  unfolding check
  check-Sound true = Keeps-pure tt
  check-Sound false = Keeps-raise

  check_running-Sound : Keeps Sound (check_running w)
  unfolding check_running
  check_running-Sound = record {
    at = λ m s. elim (Bool-cases (w.running m.trace)) [ inl e ↦ rw e s | inr e ↦ rw e s ];
  }

  make_root-Sound : Keeps Sound (make_root w)
  unfolding make_root
  make_root-Sound = record {
    at = λ m s. elim (Bool-cases (w.makes_root m.trace)) [ inl e ↦ rw e s | inr e ↦ rw e s ];
  }

  was_made-Sound :
      (identifier stage : Text) (m : Machine) (c : Creation) (later : Outcome Text × Machine)
      → Sound m
      → Sound later.1
      → Sound (was_made identifier stage m c later).1
  unfolding was_made note
  was_made-Sound identifier stage m created later s l = s
  was_made-Sound identifier stage m there later s l = l
  was_made-Sound identifier stage m refused later s l = s

  allocate-Sound : (tries : ℕ) → Keeps Sound (allocate w tries)
  unfolding allocate
  allocate-Sound zero = record { at = λ m s. s }
  allocate-Sound (suc tries) = record {
    at = λ m s.
        was_made-Sound (w.token m.trace) _ m _ (allocate w tries m) s
          ((allocate-Sound tries).at m s);
  }

  or_release-Sound : (stage : Text) (ok : Bool) → Keeps Sound (or_release w stage ok)
  unfolding or_release
  or_release-Sound stage true = Keeps-pure tt
  or_release-Sound stage false =
      Keeps-bind _ _ (release_stage-IsSafe w Kept stage) (λ _. Keeps-raise)

  bind_stage-Sound : (source stage : Text) → Keeps Sound (bind_stage w source stage)
  unfolding bind_stage
  bind_stage-Sound source stage =
      Keeps-bind _ _ (run_sudo-IsSafe w Kept _) (λ status. or_release-Sound stage (status == 0))

  module _ (mode : Mode) (identifier : Text) where
    abbrev Ready : Unit {0} → Machine → Type 0
    Ready u m = Protected w mode identifier m.trace

    or_release-Ready :
        (stage : Text) (ok : Bool)
        → Meets (λ m. Sound m × (ok ≡ true → Ready tt m)) Sound Ready (or_release w stage ok)
    unfolding or_release
    or_release-Ready stage true = record { at = λ m s. (s.0, s.1 refl) }
    or_release-Ready stage false = record {
      at = λ m s.
          (Meets-bind {P = Sound} _ _ (λ _ t. t) (Meets-Keeps _ (release_stage-IsSafe w Kept stage))
              (λ released. Meets-raise (λ _ t. t.0))).at
            m s.0;
    }

    ran_remount :
        (m : Machine) (o : Option ℕ)
        → Sound m
        → Sound (was_run (remount (join_path w.root identifier)) m o).1
          × Returns
              (λ (status : ℕ) (n : Machine). (status == 0) ≡ true → Ready tt n)
              (was_run (remount (join_path w.root identifier)) m o).0
              (was_run (remount (join_path w.root identifier)) m o).1
    unfolding was_run note
    ran_remount m none s = (s, tt)
    ran_remount m (some status) s = (s, λ e. inr (inl (refl, (==_iff status 0).0 e)))

    remount_stage-Ready : Meets Sound Sound Ready (remount_stage w (join_path w.root identifier))
    unfolding remount_stage run_sudo
    remount_stage-Ready =
        Meets-bind {P = Sound} (run_sudo w (remount (join_path w.root identifier)))
          (λ status. or_release w (join_path w.root identifier) (status == 0)) (λ _ s. s)
          (record { at = λ m s. ran_remount m _ s })
          (λ status. or_release-Ready (join_path w.root identifier) (status == 0))

  protect_stage-Ready :
      (mode : Mode) (identifier : Text)
      → Meets Sound Sound
          (Ready mode identifier)
          (protect_stage w mode (join_path w.root identifier))
  unfolding protect_stage
  protect_stage-Ready mode_rw identifier = Meets-pure tt (λ m s. (s, inl refl))
  protect_stage-Ready mode_ro identifier = remount_stage-Ready mode_ro identifier
  protect_stage-Ready overlay identifier = remount_stage-Ready overlay identifier

  released_after :
      (stage : Text) (o : Outcome Bool) (n m : Machine)
      → Sound n
      → Sound (((λ _. (o, n)) >>= or_release w stage) m).1
  released_after stage (done ok) n m t = (or_release-Sound stage ok).at n t
  released_after stage raised n m t = t

  -- The guest is asked once its stage is ready.
  ask_guest-Sound :
      (stage identifier target : Text) (mode : Mode) (m : Machine)
      → Protected w mode identifier m.trace
      → Sound m
      → Sound (ask_guest w stage identifier target mode m).1
  unfolding ask_guest
  ask_guest-Sound stage identifier target mode m ready s = released_after stage _ _ m (
      run_remote-IsSafe w Kept (helper_mount identifier target mode) m
        (inr (inr (identifier, target, mode, refl, ready))) s)

  asked-Sound :
      (identifier target : Text) (mode : Mode) (stage : Text) (entry : Fields)
      → Meets
          (λ m. Sound m × Protected w mode identifier m.trace)
          Sound
          (λ _ _. Unit)
          (do ask_guest w stage identifier target mode; pure entry)
  asked-Sound identifier target mode stage entry =
      Meets-bind {M = Sound} {T = λ a s. Unit} (ask_guest w stage identifier target mode)
        (λ _. pure entry) (λ _ s. s)
        (record {
          at = λ m p.
              (ask_guest-Sound stage identifier target mode m p.1 p.0, trivially_returned _ _);
        })
        (λ _. Meets-pure entry (λ m p. (p.0, tt)))

  stage_and_mount-Sound :
      (source target : Text) (mode : Mode) (identifier : Text)
      → Keeps Sound (stage_and_mount w source target mode identifier)
  unfolding stage_and_mount
  stage_and_mount-Sound source target mode identifier =
      Keeps-then _ _ (bind_stage-Sound source (join_path w.root identifier)) (
        Keeps-Meets _ (
          Meets-bind {P = Sound} (protect_stage w mode (join_path w.root identifier)) _ (λ _ s. s)
            (protect_stage-Ready mode identifier)
            (λ u. asked-Sound identifier target mode (join_path w.root identifier) _)))

  preflight-Sound : Keeps Sound (run_remote w preflight)
  preflight-Sound = record { at = λ m s. run_remote-IsSafe w Kept preflight m (inl refl) s }

  pub mount_vm-Sound :
      (source target : Text) (mode : Mode) → Keeps Sound (mount_vm w source target mode)
  unfolding mount_vm
  mount_vm-Sound source target mode = Keeps-then _ _ (check-Sound (not w.darwin)) (
      Keeps-then _ _ check_running-Sound (
        Keeps-bind _ _ preflight-Sound (λ ready. Keeps-then _ _ (check-Sound ready) (
          Keeps-then _ _ make_root-Sound (
            Keeps-bind _ _ (allocate-Sound 10)
              (λ identifier. stage_and_mount-Sound source target mode identifier))))))

  ask_unmount-Sound : (target : Text) (m : Machine) → Sound m → Sound (ask_unmount w target m)
  unfolding ask_unmount
  ask_unmount-Sound target m s = elim (Bool-cases (w.running m.trace)) [
    | inl up ↦ rw up (run_remote-IsSafe w Kept _ m (inr (inl (target, refl))) s)
    | inr down ↦ rw down s
  ]

  release_expected-Sound : (o : Outcome (Option Text)) → Keeps Sound (release_expected w o)
  unfolding release_expected
  release_expected-Sound raised = record { at = λ m s. s }
  release_expected-Sound (done none) = record { at = λ m s. s }
  release_expected-Sound (done (some stage)) = record {
    at = λ m s. elim (Bool-cases (expected_stage w m.trace stage)) [
      | inl e ↦
          rw e ((Keeps-bind _ _ (release_stage-IsSafe w Kept stage) (λ _. Keeps-pure tt)).at m s)
      | inr e ↦ rw e s
    ];
  }

  pub unmount_vm-Sound : (target : Text) (entry : Fields) → Keeps Sound (unmount_vm w target entry)
  unfolding unmount_vm
  unmount_vm-Sound target entry = record {
    at = λ m s.
        (release_expected-Sound (record_stage w entry)).at (ask_unmount w target m)
          (ask_unmount-Sound target m s);
  }
