-- ===== src/Mount/Requests.antt =====
-- `mount_op`, `umount_op`, `list_op` and `dispatch` of tartarus-mount.py.
use tartarus_nix.Base.{
  Bool, true, false, ◌&&◌, Option, none, some, List, [], ◌∷◌, ◌++◌, Text, codes, bytes_eq,
  if◌then◌else◌,
}
use tartarus_nix.Base.Effects.{done, raised, pure, raise, lift, gets, ◌>>=◌, ◌>>◌}
use tartarus_nix.Json.{
  Value, boolean, string, array, Values, no_values, value, object, Fields, no_fields, field, lookup,
  equals,
}
use tartarus_nix.Mount.Paths.{validate_id, validate_target, validate_mode, join_path}
use tartarus_nix.Mount.Host.{
  World, Event, Op, write_state, attempt, run, make_dirs, chown, remove_tree,
}

-- `isinstance(entry, dict) and entry.get("target") == target`
unfoldable pub has_target : Text → Value → Bool
has_target target (object entry) = equals (lookup entry (codes "target")) target
has_target target _ = false

unfoldable pub same_record : Text → Text → Text → Value → Bool
same_record identifier target mode (object entry) =
    equals (lookup entry (codes "id")) identifier
    && equals (lookup entry (codes "target")) target
    && equals (lookup entry (codes "mode")) mode
same_record identifier target mode _ = false

-- What the loop over the entries of `mount_op` finds.
pub data Managed : Type 0 where
  recorded : Value → Managed
  taken : Managed
  free : Managed

unfoldable pub find_managed : Text → Text → Text → List Value → Managed
find_managed identifier target mode [] = free
find_managed identifier target mode (entry ∷ entries) =
    if same_record identifier target mode entry
    then recorded entry
    else if has_target target entry
    then taken
    else find_managed identifier target mode entries

unfoldable pub new_entry : Text → Text → Text → Text → Value
new_entry identifier target mode source = object (
    field (codes "id") (string identifier) (
      field (codes "target") (string target)
        (field (codes "mode") (string mode) (field (codes "stage") (string source) no_fields))))

-- `lowerdir={source},upperdir={upper},workdir={work},userxattr`
unfoldable pub overlay_options : Text → Text → Text → Text
overlay_options source upper work =
    codes "lowerdir="
    ++ source
    ++ codes ",upperdir="
    ++ upper
    ++ codes ",workdir="
    ++ work
    ++ codes ",userxattr"

module _ (w : World) where
  unfoldable pub prepare_target : Text → Op (Unit {0})
  prepare_target target h =
      if w.is_dir h.trace target then (done tt, h) else (do make_dirs w target; chown w target) h

  unfoldable pub mount_overlay : Text → Text → Text → Op (Unit {0})
  mount_overlay identifier source target = do
    let overlay = join_path w.overlay_dir identifier
    let upper = join_path overlay (codes "upper")
    let work = join_path overlay (codes "work")
    make_dirs w upper
    make_dirs w work
    chown w overlay
    run w (
        w.mount_bin
        ∷ codes "-t"
        ∷ codes "overlay"
        ∷ codes "overlay"
        ∷ codes "-o"
        ∷ overlay_options source upper work
        ∷ target
        ∷ [])

  unfoldable pub mount_as : Text → Text → Text → Text → Op (Unit {0})
  mount_as mode identifier source target =
      if bytes_eq mode (codes "rw")
      then run w (w.mount_bin ∷ codes "--bind" ∷ source ∷ target ∷ [])
      else if bytes_eq mode (codes "ro")
      then (do
        run w (w.mount_bin ∷ codes "--bind" ∷ source ∷ target ∷ [])
        run w (w.mount_bin ∷ codes "-o" ∷ codes "remount,ro,bind" ∷ target ∷ []))
      else mount_overlay identifier source target

  -- The target is neither managed nor a mountpoint.
  unfoldable pub mount_new : Text → Text → Text → Text → List Value → Op Value
  mount_new identifier target mode source entries = do
    prepare_target target
    mount_as mode identifier source target
    let entry = new_entry identifier target mode source
    write_state w (entries ++ entry ∷ [])
    pure entry

  unfoldable pub mount_found : Text → Text → Text → Text → List Value → Managed → Op Value
  mount_found identifier target mode source entries (recorded entry) = pure entry
  mount_found identifier target mode source entries taken = raise
  mount_found identifier target mode source entries free = λ h.
      if w.is_mount h.trace target
      then (raised, h)
      else mount_new identifier target mode source entries h

  unfoldable pub mount_valid : Text → Text → Text → Op Value
  mount_valid identifier target mode h =
      let source = join_path w.staging_dir identifier in
      if w.is_dir h.trace source
      then mount_found identifier target mode source h.entries
          (find_managed identifier target mode h.entries) h
      else (raised, h)

  unfoldable pub mount_op : Option Value → Option Value → Option Value → Op Value
  mount_op id target mode = do
    identifier ← lift (validate_id id)
    target ← lift (validate_target target)
    mode ← lift (validate_mode mode)
    mount_valid identifier target mode

-- `next(entry for entry in entries if ...)`, and the entries without it
unfoldable pub take_record : Text → List Value → Option (Value × List Value)
take_record target [] = none
take_record target (entry ∷ entries) =
    let rest = take_record target entries in
    if has_target target entry
    then some (entry, entries)
    else elim rest [ none ↦ none | some r ↦ some (r.0, entry ∷ r.1) ]

-- `str(record.get("id", ""))` of a record
unfoldable pub id_text : World → Option Value → Text
id_text w none = []
id_text w (some (string s)) = s
id_text w (some v) = w.str v

unfoldable pub is_overlay : Value → Bool
is_overlay (object entry) = equals (lookup entry (codes "mode")) (codes "overlay")
is_overlay _ = false

record_id : Value → Option Value
record_id (object entry) = lookup entry (codes "id")
record_id _ = none

module _ (w : World) where
  unfoldable pub unmount : Text → Op (Unit {0})
  unmount target = do
    unmounted ← attempt w (w.umount_bin ∷ target ∷ [])
    if unmounted then pure tt else run w (w.umount_bin ∷ codes "-l" ∷ target ∷ [])

  unfoldable pub remove_layer : Option Text → Op (Unit {0})
  remove_layer none = pure tt
  remove_layer (some identifier) = remove_tree (join_path w.overlay_dir identifier)

  unfoldable pub drop_layers : Value → Op (Unit {0})
  unfolding remove_layer record_id
  drop_layers entry =
      if is_overlay entry
      then remove_layer (validate_id (some (string (id_text w (record_id entry)))))
      else pure tt

  unfoldable pub umount_found : Text → Option (Value × List Value) → Op Value
  umount_found target none = raise
  umount_found target (some (entry, remaining)) = do
    unmount target
    drop_layers entry
    write_state w remaining
    pure entry

  unfoldable pub umount_op : Option Value → Op Value
  umount_op target = do
    target ← lift (validate_target target)
    entries ← gets (λ h. h.entries)
    umount_found target (take_record target entries)

  -- Whether an entry of the state is a record of a mountpoint.
  unfoldable pub is_live : List Event → Value → Bool
  is_live trace (object entry) = target_is_mount trace (lookup entry (codes "target"))
    where
      target_is_mount : List Event → Option Value → Bool
      target_is_mount trace (some (string target)) = w.is_mount trace target
      target_is_mount trace _ = false
  is_live trace _ = false

  unfoldable pub live_entries : List Event → List Value → List Value
  live_entries trace [] = []
  live_entries trace (entry ∷ entries) =
      let rest = live_entries trace entries in if is_live trace entry then entry ∷ rest else rest

  unfoldable pub list_op : Op (List Value)
  list_op h =
      (do write_state w (live_entries h.trace h.entries); pure (live_entries h.trace h.entries)) h

unfoldable pub as_array : List Value → Values
as_array [] = no_values
as_array (v ∷ vs) = value v (as_array vs)

-- A response with `ok`, and one more field.
unfoldable pub ok_with : Text → Value → Fields
ok_with name v = field (codes "ok") (boolean true) (field name v no_fields)

unfoldable pub dispatch_op : World → Fields → Op Fields
unfolding as_array ok_with
dispatch_op w request =
    let op = lookup request (codes "op") in
    if equals op (codes "mount")
    then (do
      entry ←
          mount_op w (lookup request (codes "id")) (lookup request (codes "target"))
            (lookup request (codes "mode"))
      pure (ok_with (codes "mount") entry))
    else if equals op (codes "umount")
    then (do
      entry ← umount_op w (lookup request (codes "target"))
      pure (ok_with (codes "removed") entry))
    else if equals op (codes "list")
    then (do live ← list_op w; pure (ok_with (codes "mounts") (array (as_array live))))
    else raise

unfoldable pub dispatch : World → Value → Op Fields
dispatch w (object request) = dispatch_op w request
dispatch w _ = raise
