-- ===== src/Cli/Mounts/Actions/Commands.antt =====
-- The commands `tartarus mount` and `tartarus unmount`: what they do to the state file of a guest, in
-- every outcome, and what any sequence of them keeps.
use tartarus_nix.Base.{
  ◌≡◌, refl, sym, ap, inl, inr, Bool, Option, none, some, List, [], ◌∷◌, ◌++◌, Text, Bool-cases,
  Option-cases,
}
use mathlib.Core.Path.{subst}
use tartarus_nix.Base.Integers.{ℤ}
use tartarus_nix.Base.Effects.{Outcome, done, raised, pure, ◌>>=◌}
use tartarus_nix.Base.Effects.Keeps.{Keeps}
use tartarus_nix.Base.Effects.Yields.{Yields, IfDone, Yields-pure, Yields-raise, yields_rules}
use tartarus_nix.Json.{Fields}
use tartarus_nix.Cli.Mounts.Specs.{Mode}
use tartarus_nix.Cli.Mounts.Machine.{
  World, Machine, write_state, append_record, find_in, without_target, remove_record,
}
use tartarus_nix.Cli.Mounts.Guests.{new_record, mount_vm, stage_and_mount}
use tartarus_nix.Cli.Mounts.Containers.{
  Container, container_leader, mount_led, mount_tokened, mount_container,
}
use tartarus_nix.Cli.Mounts.Actions.{
  Kind, vm, container, mount_kind, unmount_kind, check_free, mount_at, unmount_found,
}
use tartarus_nix.Cli.Mounts.Actions.Kept.{AllSafe, IsSafe}
use tartarus_nix.Cli.Mounts.Actions.Mounted.{mount_vm-Sound, unmount_vm-Sound}
use tartarus_nix.Cli.Mounts.Actions.Contained.{mount_container-Sound, unmount_container-Sound}
use tartarus_nix.Cli.Mounts.Actions.Recorded.{
  Unique, OnlyFor, new_record-OnlyFor, Unique-snoc, without_target-Unique,
}

module _ (w : World) where
  new_record-Yields :
      (identifier kind source target : Text) (mode : Mode) (stage : Text)
      → Yields {S = Machine}
          (OnlyFor target)
          (pure (new_record identifier kind source target mode stage))
  new_record-Yields identifier kind source target mode stage =
      Yields-pure _ (new_record-OnlyFor identifier kind source target mode stage)

  stage_and_mount-OnlyFor :
      (source target : Text) (mode : Mode) (identifier : Text)
      → Yields (OnlyFor target) (stage_and_mount w source target mode identifier)
  unfolding stage_and_mount
  stage_and_mount-OnlyFor source target mode identifier = search (yields_rules, new_record-Yields)

  mount_vm-OnlyFor :
      (source target : Text) (mode : Mode) → Yields (OnlyFor target) (mount_vm w source target mode)
  unfolding mount_vm
  mount_vm-OnlyFor source target mode = search (yields_rules, stage_and_mount-OnlyFor) depth 12

  mount_led-OnlyFor :
      (k : Container) (source target : Text) (mode : Mode) (no_idmap : Bool) (identifier : Text)
      (leader : Option ℤ)
      → Yields (OnlyFor target) (mount_led w k source target mode no_idmap identifier leader)
  unfolding mount_led
  mount_led-OnlyFor k source target mode no_idmap identifier none = Yields-raise
  mount_led-OnlyFor k source target mode no_idmap identifier (some leader) =
      search (yields_rules, new_record-Yields)

  mount_tokened-OnlyFor :
      (k : Container) (source target : Text) (mode : Mode) (no_idmap : Bool)
      → Yields (OnlyFor target) (mount_tokened w k source target mode no_idmap)
  unfolding mount_tokened
  mount_tokened-OnlyFor k source target mode no_idmap = record {
    at = λ m.
        (mount_led-OnlyFor k source target mode no_idmap (w.token m.trace) (container_leader k)).at
          m;
  }

  mount_container-OnlyFor :
      (k : Container) (source target : Text) (mode : Mode) (no_idmap : Bool)
      → Yields (OnlyFor target) (mount_container w k source target mode no_idmap)
  unfolding mount_container
  mount_container-OnlyFor k source target mode no_idmap =
      search (yields_rules, mount_tokened-OnlyFor)

  mount_kind-OnlyFor :
      (kind : Kind) (source target : Text) (mode : Mode)
      → Yields (OnlyFor target) (mount_kind w kind source target mode)
  unfolding mount_kind
  mount_kind-OnlyFor vm source target mode = mount_vm-OnlyFor source target mode
  mount_kind-OnlyFor (container k no_idmap) source target mode =
      mount_container-OnlyFor k source target mode no_idmap

  module _ (Kept : List Fields → Type 0) where
    mount_kind-Sound :
        (kind : Kind) (source target : Text) (mode : Mode)
        → Keeps (IsSafe w Kept) (mount_kind w kind source target mode)
    unfolding mount_kind
    mount_kind-Sound vm source target mode = mount_vm-Sound w Kept source target mode
    mount_kind-Sound (container k no_idmap) source target mode =
        mount_container-Sound w Kept k source target mode no_idmap

    unmount_kind-Sound :
        (kind : Kind) (target : Text) (entry : Fields)
        → Keeps (IsSafe w Kept) (unmount_kind w kind target entry)
    unfolding unmount_kind
    unmount_kind-Sound vm target entry = unmount_vm-Sound w Kept target entry
    unmount_kind-Sound (container k no_idmap) target entry =
        unmount_container-Sound w Kept k target entry

  -- What `tartarus mount` leaves: where it returns, one record more, for a target that had none, and
  -- where it raises, the records as they were.
  abbrev pub MountOutcome : List Fields → Text → Outcome (Unit {0}) × Machine → Type 0
  MountOutcome before target (raised, m) = (m.records ≡ before) × AllSafe w m.trace
  MountOutcome before target (done u, m) =
      (find_in target before ≡ none)
      × ((entry : Fields) × OnlyFor target entry × (m.records ≡ before ++ entry ∷ []))
      × AllSafe w m.trace

  abbrev Untouched : List Fields → Machine → Type 0
  Untouched before = IsSafe w (λ records. records ≡ before)

  append_record-outcome :
      (before : List Fields) (target : Text) (entry : Fields) (m : Machine)
      → find_in target before ≡ none
      → OnlyFor target entry
      → Untouched before m
      → MountOutcome before target (append_record w entry m)
  unfolding append_record write_state
  append_record-outcome before target entry m free only s = elim (Bool-cases (w.stores m.trace)) [
    | inl stored ↦
        rw stored (free, (entry, only, ap (λ (l : List Fields). l ++ entry ∷ []) s.0), s.1)
    | inr failed ↦ rw failed s
  ]

  mounted-outcome :
      (before : List Fields) (target : Text) (o : Outcome Fields) (m n : Machine)
      → find_in target before ≡ none
      → IfDone (OnlyFor target) o
      → Untouched before m
      → MountOutcome before target (((λ _. (o, m)) >>= append_record w) n)
  mounted-outcome before target (done entry) m n free only s =
      append_record-outcome before target entry m free only s
  mounted-outcome before target raised m n free only s = s

  pub mount_at-outcome :
      (kind : Kind) (source target : Text) (mode : Mode) (m : Machine)
      → AllSafe w m.trace
      → MountOutcome m.records target (mount_at w kind source target mode m)
  unfolding mount_at check_free
  mount_at-outcome kind source target mode m s = elim (Option-cases (find_in target m.records)) [
    | inl free ↦ rw free (
        mounted-outcome m.records target _ _ m free
          ((mount_kind-OnlyFor kind source target mode).at m)
          ((mount_kind-Sound (λ records. records ≡ m.records) kind source target mode).at m
            (refl, s)))
    | inr (entry, taken) ↦ rw taken (refl, s)
  ]

  -- What `tartarus unmount` leaves: where it returns, the records without the target's, and where it
  -- raises, the records as they were.
  abbrev pub UnmountOutcome : List Fields → Text → Outcome (Unit {0}) × Machine → Type 0
  UnmountOutcome before target (raised, m) = (m.records ≡ before) × AllSafe w m.trace
  UnmountOutcome before target (done u, m) =
      (m.records ≡ without_target target before) × AllSafe w m.trace

  remove_record-outcome :
      (before : List Fields) (target : Text) (m : Machine)
      → Untouched before m
      → UnmountOutcome before target (remove_record w target m)
  unfolding remove_record write_state
  remove_record-outcome before target m s = elim (Bool-cases (w.stores m.trace)) [
    | inl stored ↦ rw stored (ap (without_target target) s.0, s.1)
    | inr failed ↦ rw failed s
  ]

  unmounted-outcome :
      (before : List Fields) (target : Text) (o : Outcome (Unit {0})) (m n : Machine)
      → Untouched before m
      → UnmountOutcome before target (((λ _. (o, m)) >>= λ _. remove_record w target) n)
  unmounted-outcome before target (done u) m n s = remove_record-outcome before target m s
  unmounted-outcome before target raised m n s = s

  pub unmount_found-outcome :
      (kind : Kind) (target : Text) (o : Option Fields) (m : Machine)
      → AllSafe w m.trace
      → UnmountOutcome m.records target (unmount_found w kind target o m)
  unfolding unmount_found
  unmount_found-outcome kind target none m s = (refl, s)
  unmount_found-outcome kind target (some entry) m s =
      unmounted-outcome m.records target _ _ m
        ((unmount_kind-Sound (λ records. records ≡ m.records) kind target entry).at m (refl, s))

  -- Of the records of a guest, no two have the same target, and its history is safe.
  pub record Consistent (m : Machine) : Type 0 where
    pub unique : Unique m.records
    pub safe : AllSafe w m.trace

  pub mounted-Consistent :
      (before : List Fields) (target : Text) (o : Outcome (Unit {0}) × Machine)
      → Unique before
      → MountOutcome before target o
      → Consistent o.1
  mounted-Consistent before target (raised, m) u (same, safe) = record {
    unique = subst Unique (sym same) u;
    safe = safe;
  }
  mounted-Consistent before target (done v, m) u (free, (entry, only, one_more), safe) = record {
    unique = subst Unique (sym one_more) (Unique-snoc target entry before only free u);
    safe = safe;
  }

  pub unmounted-Consistent :
      (before : List Fields) (target : Text) (o : Outcome (Unit {0}) × Machine)
      → Unique before
      → UnmountOutcome before target o
      → Consistent o.1
  unmounted-Consistent before target (raised, m) u (same, safe) = record {
    unique = subst Unique (sym same) u;
    safe = safe;
  }
  unmounted-Consistent before target (done v, m) u (fewer, safe) = record {
    unique = subst Unique (sym fewer) (without_target-Unique target before u);
    safe = safe;
  }
