-- ===== src/Cli/Mounts/Actions/Released.antt =====
-- `cleanup_vm_mounts` keeps the history safe: it removes no stage that is a mountpoint.
use tartarus_nix.Base.{
  ℕ, inl, inr, Bool, true, false, Option, none, some, List, [], ◌∷◌, Text, ◌+◌, Bool-cases,
  if◌then◌else◌,
}
use tartarus_nix.Base.Effects.{Outcome, done, raised}
use tartarus_nix.Base.Effects.Keeps.{Keeps, Keeps-pure, Keeps-bind}
use tartarus_nix.Json.{Fields}
use tartarus_nix.Cli.Mounts.Machine.{Removal, gone, missing, failing, World, Machine, Act, note}
use tartarus_nix.Cli.Mounts.Stages.{
  expected_stage, stage_of, release_counted, release_named, release_entry, count_on, count_all,
  root_dropped, drop_state, release_leftovers, cleanup_vm_mounts,
}
use tartarus_nix.Cli.Mounts.Actions.Kept.{IsSafe, release_stage-IsSafe}

module _ (w : World) (Kept : List Fields → Type 0) (empty : Kept []) where
  abbrev Sound : Machine → Type 0
  Sound = IsSafe w Kept

  release_counted-Sound : (stage : Text) → Keeps Sound (release_counted w stage)
  unfolding release_counted
  release_counted-Sound stage =
      Keeps-bind _ _ (release_stage-IsSafe w _ stage) (λ released. Keeps-pure _)

  release_named-Sound : (o : Outcome (Option Text)) → Keeps Sound (release_named w o)
  unfolding release_named
  release_named-Sound raised = record { at = λ m s. s }
  release_named-Sound (done none) = record { at = λ m s. s }
  release_named-Sound (done (some stage)) = record {
    at = λ m s. elim (Bool-cases (expected_stage w m.trace stage)) [
      | inl e ↦ rw e ((release_counted-Sound stage).at m s)
      | inr e ↦ rw e s
    ];
  }

  release_entry-Sound : (entry : Fields) → Keeps Sound (release_entry w entry)
  unfolding release_entry
  release_entry-Sound entry = release_named-Sound (stage_of w entry)

  module _ {A : Type 0} (f : A → Act ℕ) (kept : (x : A) → Keeps Sound (f x)) where
    count_on-Sound :
        (xs : List A) (n : ℕ) (r : Outcome ℕ × Machine) → Sound r.1 → Sound (count_on f xs n r).1
    unfolding count_on
    count_on-Sound xs n (raised, m) s = s
    count_on-Sound [] n (done k, m) s = s
    count_on-Sound (x ∷ xs) n (done k, m) s = count_on-Sound xs (n + k) (f x m) ((kept x).at m s)

    count_all-Sound : (xs : List A) (n : ℕ) (m : Machine) → Sound m → Sound (count_all f xs n m).1
    unfolding count_all
    count_all-Sound xs n m s = count_on-Sound xs n (done 0, m) s

  release_leftovers-Sound : (r : (Bool × ℕ) × Machine) → Sound r.1 → Sound (release_leftovers w r).1
  unfolding release_leftovers
  release_leftovers-Sound ((false, n), m) s = s
  release_leftovers-Sound ((true, n), m) s =
      count_all-Sound (release_counted w) release_counted-Sound (w.leftovers m.trace) n m s

  root_dropped-Sound : (m : Machine) (r : Removal) → Sound m → Sound (root_dropped m r)
  unfolding root_dropped note
  root_dropped-Sound m gone s = s
  root_dropped-Sound m missing s = s
  root_dropped-Sound m failing s = s

  kept_or_empty :
      (b : Bool) (records : List Fields) → Kept records → Kept (if b then [] else records)
  kept_or_empty true records k = empty
  kept_or_empty false records k = k

  drop_state-Sound : (m : Machine) → Sound m → Sound (drop_state w m)
  unfolding drop_state
  drop_state-Sound m s =
      root_dropped-Sound _ (w.removal m.trace w.root)
        (kept_or_empty (w.forgets m.trace) m.records s.0, s.1)

  pub cleanup_vm_mounts-Sound : (m : Machine) → Sound m → Sound (cleanup_vm_mounts w m).1
  unfolding cleanup_vm_mounts
  cleanup_vm_mounts-Sound m s = drop_state-Sound _ (
      release_leftovers-Sound (count_all (release_entry w) m.records 0 m)
        (count_all-Sound (release_entry w) release_entry-Sound m.records 0 m s))
