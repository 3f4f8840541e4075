-- ===== src/Mount/Sound/Steps.antt =====
-- Each step of a request keeps the guest sound, and so does every request.
use tartarus_nix.Base.{◌≡◌, refl, inl, inr, false, Option, none, some, List, Text, any, Bool-cases}
use tartarus_nix.Base.Effects.{lift, gets, ◌>>=◌}
use tartarus_nix.Base.Effects.Keeps.{
  Keeps, Keeps-pure, Keeps-raise, Keeps-lift, Keeps-if, Keeps-bind, Keeps-then,
}
use tartarus_nix.Json.{Value, null, boolean, integer, real, string, array, object, Fields}
use tartarus_nix.Mount.Paths.{validate_id, validate_target, validate_mode, join_path}
use tartarus_nix.Mount.Host.{World, Host, write_state, attempt, run, make_dirs, chown, remove_tree}
use tartarus_nix.Mount.Requests.{
  Managed, recorded, taken, free, has_target, find_managed, prepare_target, mount_overlay, mount_as,
  mount_new, mount_found, mount_valid, mount_op, take_record, unmount, drop_layers, remove_layer,
  umount_found, umount_op, list_op, live_entries, dispatch_op, dispatch,
}
use tartarus_nix.Mount.Sound.{Unique, From, MountOf, UmountOf, Known, Sound}
use tartarus_nix.Mount.Sound.Entries.{
  find_managed-free, Unique-snoc, new_entry-only, take_record-Unique, live_entries-Unique,
}

module _ (w : World) where
  abbrev IsSound : Host → Type 0
  IsSound = Sound w

  write_state-Sound :
      (entries : List Value) → Unique entries → Keeps IsSound (write_state w entries)
  unfolding write_state
  write_state-Sound entries u = record {
    at = λ h s. elim (Bool-cases (w.stores h.trace)) [
      | inl stored ↦ rw stored (record { unique = u; known = s.known })
      | inr failed ↦ rw failed s
    ];
  }

  attempt-Sound : (command : List Text) → Known w command → Keeps IsSound (attempt w command)
  unfolding attempt
  attempt-Sound command k = record {
    at = λ h s. record { unique = s.unique; known = (k, s.known) };
  }

  run-Sound : (command : List Text) → Known w command → Keeps IsSound (run w command)
  unfolding run
  run-Sound command k = record { at = λ h s. (attempt-Sound command k).at h s }

  make_dirs-Sound : (path : Text) → Keeps IsSound (make_dirs w path)
  unfolding make_dirs
  make_dirs-Sound path = record {
    at = λ h s. elim (Bool-cases (w.makes h.trace path)) [
      | inl ok ↦ rw ok (record { unique = s.unique; known = s.known })
      | inr failed ↦ rw failed s
    ];
  }

  chown-Sound : (path : Text) → Keeps IsSound (chown w path)
  unfolding chown
  chown-Sound path = record {
    at = λ h s. elim (Bool-cases (w.chowns h.trace path)) [
      | inl ok ↦ rw ok (record { unique = s.unique; known = s.known })
      | inr failed ↦ rw failed s
    ];
  }

  remove_tree-Sound : (path : Text) → Keeps IsSound (remove_tree path)
  unfolding remove_tree
  remove_tree-Sound path = record { at = λ h s. record { unique = s.unique; known = s.known } }

  prepare_target-Sound : (target : Text) → Keeps IsSound (prepare_target w target)
  unfolding prepare_target
  prepare_target-Sound target = record {
    at = λ h s. elim (Bool-cases (w.is_dir h.trace target)) [
      | inl there ↦ rw there s
      | inr missing ↦
          rw missing
            ((Keeps-then {P = IsSound} _ _ (make_dirs-Sound target) (chown-Sound target)).at h s)
    ];
  }

  module _ (identifier target : Text) (i : From validate_id identifier)
      (t : From validate_target target) where
    Known-mount : (command : List Text) → MountOf w identifier target command → Known w command
    Known-mount command m = inl (identifier, target, i, t, m)

    mount_as-Sound :
        (mode : Text)
        → Keeps IsSound (mount_as w mode identifier (join_path w.staging_dir identifier) target)
    unfolding mount_as mount_overlay
    mount_as-Sound mode = Keeps-if _ _ _ (run-Sound _ (Known-mount _ (inl refl))) (
        Keeps-if _ _ _
          (Keeps-then _ _ (run-Sound _ (Known-mount _ (inl refl)))
            (run-Sound _ (Known-mount _ (inr (inl refl)))))
          (Keeps-then _ _ (make_dirs-Sound _) (
            Keeps-then _ _ (make_dirs-Sound _)
              (Keeps-then _ _ (chown-Sound _) (run-Sound _ (Known-mount _ (inr (inr refl))))))))

    mount_new-Sound :
        (mode : Text) (entries : List Value)
        → any (has_target target) entries ≡ false
        → Unique entries
        → Keeps IsSound
            (mount_new w identifier target mode (join_path w.staging_dir identifier) entries)
    unfolding mount_new
    mount_new-Sound mode entries apart u = Keeps-then _ _ (prepare_target-Sound target) (
        Keeps-then _ _ (mount_as-Sound mode) (
          Keeps-then _ _
            (write_state-Sound _
              (Unique-snoc target entries _ (new_entry-only identifier target mode _) apart u))
            (Keeps-pure _)))

    mount_found-Sound :
        (mode : Text) (entries : List Value) (m : Managed)
        → find_managed identifier target mode entries ≡ m
        → Unique entries
        → Keeps IsSound
            (mount_found w identifier target mode (join_path w.staging_dir identifier) entries m)
    unfolding mount_found
    mount_found-Sound mode entries (recorded entry) e u = Keeps-pure entry
    mount_found-Sound mode entries taken e u = Keeps-raise
    mount_found-Sound mode entries free e u = record {
      at = λ h s. elim (Bool-cases (w.is_mount h.trace target)) [
        | inl mounted ↦ rw mounted s
        | inr unmounted ↦ rw unmounted (
            (mount_new-Sound mode entries (find_managed-free identifier target mode entries e) u).at
              h s)
      ];
    }

    mount_valid-Sound : (mode : Text) → Keeps IsSound (mount_valid w identifier target mode)
    unfolding mount_valid
    mount_valid-Sound mode = record {
      at = λ h s. elim (Bool-cases (w.is_dir h.trace (join_path w.staging_dir identifier))) [
        | inl there ↦ rw there ((mount_found-Sound mode h.entries _ refl s.unique).at h s)
        | inr missing ↦ rw missing s
      ];
    }

  mount_checked-Sound :
      (id target mode : Option Value) (i t : Option Text)
      → validate_id id ≡ i
      → validate_target target ≡ t
      → Keeps IsSound (do
        identifier ← lift i
        target ← lift t
        mode ← lift (validate_mode mode)
        mount_valid w identifier target mode)
  mount_checked-Sound id target mode none t ei et = Keeps-raise
  mount_checked-Sound id target mode (some i) none ei et = Keeps-raise
  mount_checked-Sound id target mode (some i) (some t) ei et =
      Keeps-bind _ _ (Keeps-lift (validate_mode mode)) (mount_valid-Sound i t (id, ei) (target, et))

  mount_op-Sound : (id target mode : Option Value) → Keeps IsSound (mount_op w id target mode)
  unfolding mount_op
  mount_op-Sound id target mode = mount_checked-Sound id target mode _ _ refl refl

  Known-umount :
      (target : Text)
      → From validate_target target
      → (command : List Text) → UmountOf w target command
      → Known w command
  Known-umount target t command u = inr (target, t, u)

  unmount-Sound : (target : Text) → From validate_target target → Keeps IsSound (unmount w target)
  unfolding unmount
  unmount-Sound target t =
      Keeps-bind _ _ (attempt-Sound _ (Known-umount target t _ (inl refl))) (λ unmounted.
        Keeps-if unmounted _ _ (Keeps-pure tt) (run-Sound _ (Known-umount target t _ (inr refl))))

  remove_layer-Sound : (o : Option Text) → Keeps IsSound (remove_layer w o)
  unfolding remove_layer
  remove_layer-Sound none = Keeps-pure tt
  remove_layer-Sound (some identifier) = remove_tree-Sound _

  drop_layers-Sound : (entry : Value) → Keeps IsSound (drop_layers w entry)
  unfolding drop_layers
  drop_layers-Sound entry = Keeps-if _ _ _ (remove_layer-Sound _) (Keeps-pure tt)

  umount_found-Sound :
      (target : Text) (entries : List Value) (o : Option (Value × List Value))
      → From validate_target target
      → take_record target entries ≡ o
      → Unique entries
      → Keeps IsSound (umount_found w target o)
  unfolding umount_found
  umount_found-Sound target entries none t e u = Keeps-raise
  umount_found-Sound target entries (some (entry, remaining)) t e u =
      Keeps-then _ _ (unmount-Sound target t) (
        Keeps-then _ _ (drop_layers-Sound entry) (
          Keeps-then _ _
            (write_state-Sound remaining (take_record-Unique target entries entry remaining e u).0)
            (Keeps-pure entry)))

  umount_checked-Sound :
      (target : Option Value) (t : Option Text)
      → validate_target target ≡ t
      → Keeps IsSound (do
        target ← lift t
        entries ← gets (λ h. h.entries)
        umount_found w target (take_record target entries))
  umount_checked-Sound target none e = Keeps-raise
  umount_checked-Sound target (some t) e = record {
    at = λ h s. (umount_found-Sound t h.entries _ (target, e) refl s.unique).at h s;
  }

  umount_op-Sound : (target : Option Value) → Keeps IsSound (umount_op w target)
  unfolding umount_op
  umount_op-Sound target = umount_checked-Sound target _ refl

  list_op-Sound : Keeps IsSound (list_op w)
  unfolding list_op
  list_op-Sound = record {
    at = λ h s.
        (Keeps-then {P = IsSound} _ _
            (write_state-Sound _ (live_entries-Unique w h.trace h.entries s.unique).0)
            (Keeps-pure (live_entries w h.trace h.entries))).at
          h s;
  }

  dispatch_op-Sound : (request : Fields) → Keeps IsSound (dispatch_op w request)
  unfolding dispatch_op
  dispatch_op-Sound request =
      Keeps-if _ _ _ (Keeps-bind _ _ (mount_op-Sound _ _ _) (λ entry. Keeps-pure _)) (
        Keeps-if _ _ _ (Keeps-bind _ _ (umount_op-Sound _) (λ entry. Keeps-pure _))
          (Keeps-if _ _ _ (Keeps-bind _ _ list_op-Sound (λ live. Keeps-pure _)) Keeps-raise))

-- Every request, whether it succeeds or fails, keeps the guest sound: no target is managed by two
-- entries of the state file, and each command that was run is a mount of a staged directory with a
-- validated id on a validated target, or an unmount of a validated target.
pub dispatch-Sound : (w : World) (request : Value) → Keeps (Sound w) (dispatch w request)
unfolding dispatch
dispatch-Sound w (object request) = dispatch_op-Sound w request
dispatch-Sound w null = Keeps-raise
dispatch-Sound w (boolean b) = Keeps-raise
dispatch-Sound w (integer i) = Keeps-raise
dispatch-Sound w (real r) = Keeps-raise
dispatch-Sound w (string s) = Keeps-raise
dispatch-Sound w (array a) = Keeps-raise
