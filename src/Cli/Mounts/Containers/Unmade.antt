-- ===== src/Cli/Mounts/Containers/Unmade.antt =====
-- The staging directory of a mount in a container is not made by mounts.py.
use tartarus_nix.Base.{
  ℕ, suc, ◌≡◌, refl, ◌⊎◌, inl, inr, Bool, true, false, not, ◌&&◌, Option, none, some, List, [], ◌∷◌,
  ◌++◌, Text, codes, bytes_eq, contains, any, drop, decimal, ◌-◌, ◌==◌, Bool-cases, Option-cases,
  arith,
}
use tartarus_nix.Base.Integers.{ℤ}
use tartarus_nix.Base.Effects.{raised, pure, ◌>>=◌, ◌>>◌}
use tartarus_nix.Json.{Fields}
use tartarus_nix.Cli.Mounts.Specs.{Mode}
use tartarus_nix.Cli.Mounts.Machine.{
  Event, ran, remote, made, removed, dropped_root, World, Machine, note, was_run, run_sudo,
}
use tartarus_nix.Cli.Mounts.Guests.{check, check_running}
use tartarus_nix.Cli.Mounts.Containers.{
  Container, guest_staging, container_overlays, container_leader, nsenter, namespace_run,
  namespace_run_with, or_fail, plain_bind, mapped_bind, bind_plain, bind_retried, bind_source,
  mount_staged, open_source, staging_dirs, mount_led, mount_tokened, is_native, mount_container,
  needs_idmap,
}

abbrev is_mkdir : List Text → Bool
is_mkdir [] = false
is_mkdir (program ∷ args) = bytes_eq program (codes "mkdir")

-- Whether a command made the directory in a container: the twelve words before it enter the
-- container's namespaces.
abbrev pub makes : Text → Event → Bool
makes stage (ran argv status) = is_mkdir (drop 12 argv) && contains stage (drop 12 argv)
makes stage (remote argv ok) = false
makes stage (made p) = false
makes stage (removed p) = false
makes stage dropped_root = false

-- What mount(8) says of a bind: the mount point must be there, so that a bind fails on a directory of
-- the container that no command has made.
abbrev pub NeedsDirectory : World → Type 0
NeedsDirectory w =
    (trace : List Event) (leader : ℤ) (fd : ℕ) (stage : Text) (argv : List Text)
    → (argv ≡ plain_bind fd stage) ⊎ (argv ≡ mapped_bind fd stage)
    → any (makes stage) trace ≡ false
    → (n : ℕ) × (w.sudo trace ((codes "--preserve-fds=" ++ decimal (fd - 2)) ∷ nsenter leader argv)
        ≡ some (suc n))

nonzero : (n : ℕ) → (suc n == 0) ≡ false
nonzero n = ground arith

module _ (w : World) (needs : NeedsDirectory w) (leader : ℤ) (fd : ℕ) (stage : Text) where
  bind_plain_fails :
      (m : Machine)
      → any (makes stage) m.trace ≡ false
      → (bind_plain w leader fd stage m).0 ≡ raised
  unfolding bind_plain namespace_run_with run_sudo was_run note or_fail
  bind_plain_fails m free =
      let (n, e) = needs m.trace leader fd stage (plain_bind fd stage) (inl refl) free in
      rw (e, nonzero n)

  bind_source_fails :
      (idmap : Bool) (m : Machine)
      → any (makes stage) m.trace ≡ false
      → (bind_source w leader fd stage idmap m).0 ≡ raised
  unfolding bind_source bind_retried namespace_run_with run_sudo was_run note bytes_eq
  bind_source_fails false m free = bind_plain_fails m free
  bind_source_fails true m free =
      let (n, e) = needs m.trace leader fd stage (mapped_bind fd stage) (inr refl) free in
      rw (e, nonzero n) (bind_plain_fails _ free)

  mount_staged_fails :
      (layer target : Text) (mode : Mode) (idmap : Bool) (m : Machine)
      → any (makes stage) m.trace ≡ false
      → (mount_staged w leader fd stage layer target mode idmap m).0 ≡ raised
  unfolding mount_staged
  mount_staged_fails layer target mode idmap m free = rw (bind_source_fails idmap m free)

-- The stage of an identifier.
abbrev pub stage_named : Text → Text
stage_named identifier = guest_staging ++ codes "/" ++ identifier

module _ (w : World) (needs : NeedsDirectory w) (k : Container) (source target : Text) (mode : Mode)
    (no_idmap : Bool) where
  opened_fails :
      (leader : ℤ) (stage layer : Text) (idmap : Bool) (entry : Fields) (o : Option ℕ) (m : Machine)
      → any (makes stage) m.trace ≡ false
      → ((open_source o >>= λ fd.
            mount_staged w leader fd stage layer target mode idmap >> pure entry)
          m).0
        ≡ raised
  unfolding open_source
  opened_fails leader stage layer idmap entry none m free = refl
  opened_fails leader stage layer idmap entry (some fd) m free =
      rw (mount_staged_fails w needs leader fd stage layer target mode idmap m free)

  mount_led_fails :
      (identifier : Text) (leader : Option ℤ) (m : Machine)
      → any (makes (stage_named identifier)) m.trace ≡ false
      → (mount_led w k source target mode no_idmap identifier leader m).0 ≡ raised
  unfolding mount_led namespace_run run_sudo was_run note check bytes_eq contains
  mount_led_fails identifier none m free = refl
  mount_led_fails identifier (some leader) m free =
      elim (Option-cases (w.sudo m.trace (nsenter leader staging_dirs))) [
        | inl gone ↦ rw gone
        | inr (status, e) ↦ elim (Bool-cases (status == 0)) [
          | inr bad ↦ rw (e, bad)
          | inl ok ↦
              rw (e, ok)
                (opened_fails leader (stage_named identifier)
                  (container_overlays ++ codes "/" ++ identifier)
                  (needs_idmap k leader && not no_idmap) _ k.descriptor _ free)
        ]
      ]

  -- No mount in a container succeeds: the directory that the source is bound on is not made.
  pub mount_container_fails :
      (m : Machine)
      → any (makes (stage_named (w.token m.trace))) m.trace ≡ false
      → (mount_container w k source target mode no_idmap m).0 ≡ raised
  unfolding mount_container mount_tokened check check_running
  mount_container_fails m free = elim (Bool-cases (is_native k.nested)) [
    | inl native ↦ elim (Bool-cases (w.running m.trace)) [
      | inl up ↦ rw (native, up) (mount_led_fails (w.token m.trace) (container_leader k) m free)
      | inr down ↦ rw (native, down)
    ]
    | inr nested ↦ rw nested
  ]
