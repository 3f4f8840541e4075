-- ===== src/Json/Lookups.antt =====
-- What a lookup finds in an object after a change.
use tartarus_nix.Base.{
  ◌≡◌, refl, false, none, some, Text, bytes_eq, bytes_eq_iff, if◌then◌else◌, arith,
}
use tartarus_nix.Json.{Value, Fields, no_fields, field, lookup, assign, drop_key}

pub lookup-assign :
    (d : Fields) (k j : Text) (v : Value)
    → lookup (assign d k v) j ≡ (if bytes_eq k j then some v else lookup d j)
unfolding lookup assign
lookup-assign no_fields k j v = refl
lookup-assign (field i u d) k j v =
    ground (arith, bytes_eq_iff k j, bytes_eq_iff i k, bytes_eq_iff i j, lookup-assign d k j v)

pub lookup-assign_other :
    (d : Fields) (k j : Text) (v : Value)
    → bytes_eq k j ≡ false
    → lookup (assign d k v) j ≡ lookup d j
lookup-assign_other d k j v other = rw (lookup-assign d k j v, other)

pub lookup-drop_key :
    (d : Fields) (k j : Text)
    → lookup (drop_key d k) j ≡ (if bytes_eq k j then none else lookup d j)
unfolding lookup drop_key
lookup-drop_key no_fields k j = ground arith
lookup-drop_key (field i u d) k j =
    ground (arith, bytes_eq_iff k j, bytes_eq_iff i k, bytes_eq_iff i j, lookup-drop_key d k j)
