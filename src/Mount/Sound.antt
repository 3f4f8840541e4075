-- ===== src/Mount/Sound.antt =====
-- What every request to tartarus-mount.py keeps: no target is managed twice, and no command is run
-- but on a target and a staging path that were validated.
pub mod Entries
pub mod Steps
use tartarus_nix.Base.{◌≡◌, ◌⊎◌, Bool, true, false, Option, some, List, [], ◌∷◌, Text, codes, any}
use tartarus_nix.Json.{Value}
use tartarus_nix.Mount.Paths.{validate_id, validate_target, join_path}
use tartarus_nix.Mount.Host.{World, Host, Event, ran, made, chowned, removed_tree}
use tartarus_nix.Mount.Requests.{has_target, overlay_options}

-- No target is that of two entries.
abbrev pub Unique : List Value → Type 0
Unique [] = Unit {0}
Unique (entry ∷ entries) =
    ((target : Text) → has_target target entry ≡ true → any (has_target target) entries ≡ false)
    × Unique entries

-- A text that a validator returned.
abbrev pub From : (Option Value → Option Text) → Text → Type 0
From validate s = (v : Option Value) × (validate v ≡ some s)

-- The commands that may be run on a target for a staged directory.
abbrev pub MountOf : World → Text → Text → List Text → Type 0
MountOf w identifier target command =
    let source = join_path w.staging_dir identifier in
    let layer = join_path w.overlay_dir identifier in
    (command ≡ w.mount_bin ∷ codes "--bind" ∷ source ∷ target ∷ [])
    ⊎ ((command ≡ w.mount_bin ∷ codes "-o" ∷ codes "remount,ro,bind" ∷ target ∷ [])
        ⊎ (command
            ≡ w.mount_bin
              ∷ codes "-t"
              ∷ codes "overlay"
              ∷ codes "overlay"
              ∷ codes "-o"
              ∷ overlay_options source (join_path layer (codes "upper"))
                  (join_path layer (codes "work"))
              ∷ target
              ∷ []))

abbrev pub UmountOf : World → Text → List Text → Type 0
UmountOf w target command =
    (command ≡ w.umount_bin ∷ target ∷ []) ⊎ (command ≡ w.umount_bin ∷ codes "-l" ∷ target ∷ [])

abbrev pub Known : World → List Text → Type 0
Known w command =
    ((identifier : Text) × (target : Text) × From validate_id identifier
      × From validate_target target
      × MountOf w identifier target command)
    ⊎ ((target : Text) × From validate_target target × UmountOf w target command)

abbrev pub AllKnown : World → List Event → Type 0
AllKnown w [] = Unit {0}
AllKnown w (ran command ok ∷ before) = Known w command × AllKnown w before
AllKnown w (_ ∷ before) = AllKnown w before

pub record Sound (w : World) (h : Host) : Type 0 where
  pub unique : Unique h.entries
  pub known : AllKnown w h.trace
