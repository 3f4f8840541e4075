-- ===== src/Clipboard/Schema/Views.antt =====
-- What the handler of a listener reads is what was validated: `listener_views` keeps the security of
-- an entry.
use tartarus_nix.Base.{
  ℕ, ◌≡◌, refl, ◌∙◌, true, false, none, some, [], ◌∷◌, Text, codes, bytes_eq, contains,
  if◌then◌else◌,
}
use tartarus_nix.Json.{string, Fields, lookup, assign, truthy}
use tartarus_nix.Json.Lookups.{lookup-assign, lookup-assign_other, lookup-drop_key}
use tartarus_nix.Clipboard.Security.{listener_types, transport_of, resolve_listener_security}
use tartarus_nix.Clipboard.Schema.Documents.{
  passed_on, with_transport, first_value, own_view, view_of,
}

-- The keys of an entry that its security depends on.
abbrev pub SameSecurity : Fields → Fields → Type 0
SameSecurity d e =
    (transport_of d ≡ transport_of e)
    × (lookup d (codes "security") ≡ lookup e (codes "security"))
    × (lookup d (codes "mtls") ≡ lookup e (codes "mtls"))

pub resolve_listener_security-same :
    (d e : Fields) → SameSecurity d e → resolve_listener_security d ≡ resolve_listener_security e
unfolding resolve_listener_security
resolve_listener_security-same d e (t, s, m) = rw (t, s, m)

passed_on_other :
    (config : Fields) (key private j : Text) (view : Fields)
    → bytes_eq private j ≡ false
    → lookup (passed_on config key private view) j ≡ lookup view j
unfolding passed_on
passed_on_other config key private j view other =
    elim (lookup config key)
      as (λ o. lookup (elim o [ none ↦ view | some v ↦ assign view private v ]) j ≡ lookup view j) [
        | none ↦ refl
        | some v ↦ lookup-assign_other view private j v other
      ]

-- A key that the view adds nothing under.
abbrev Untouched : Text → Type 0
Untouched j =
    (bytes_eq (codes "_listener_index") j ≡ false)
    × (bytes_eq (codes "_listener_name") j ≡ false)
    × (bytes_eq (codes "_admin") j ≡ false)
    × (bytes_eq (codes "_debug") j ≡ false)
    × (bytes_eq (codes "_rule") j ≡ false)
    × (bytes_eq (codes "_labels") j ≡ false)
    × (bytes_eq (codes "_vm") j ≡ false)
    × (bytes_eq (codes "_tcp_vm") j ≡ false)

view_of-own_view :
    (config entry : Fields) (index : ℕ) (j : Text)
    → Untouched j
    → lookup (view_of config index entry) j ≡ lookup (own_view entry) j
unfolding view_of
view_of-own_view config entry index j (i, n, a, d, r, l, v, t) =
    passed_on_other config (codes "tcp_vm") (codes "_tcp_vm") j _ t
    ∙ passed_on_other config (codes "vm") (codes "_vm") j _ v
    ∙ passed_on_other config (codes "labels") (codes "_labels") j _ l
    ∙ passed_on_other config (codes "rule") (codes "_rule") j _ r
    ∙ passed_on_other config (codes "debug") (codes "_debug") j _ d
    ∙ lookup-assign_other _ (codes "_admin") j _ a
    ∙ lookup-assign_other _ (codes "_listener_name") j _ n
    ∙ lookup-assign_other _ (codes "_listener_index") j _ i

module _ (entry : Fields) (type_name : Text)
    (typed : lookup entry (codes "type") ≡ some (string type_name)) where
  own_view-lookup :
      (j : Text)
      → lookup (own_view entry) j ≡ (
          if bytes_eq (codes "type") j
          then none
          else if bytes_eq (codes "transport") j
          then some (string type_name)
          else lookup entry j)
  unfolding own_view first_value with_transport
  own_view-lookup j = rw (
    typed,
    lookup-drop_key (assign entry (codes "transport") (string type_name)) (codes "type") j,
    lookup-assign entry (codes "transport") j (string type_name),
  )

  known_nonempty : (s : Text) → contains s listener_types ≡ true → truthy (some (string s)) ≡ true
  unfolding contains bytes_eq truthy
  known_nonempty [] e = absurd (cc)
  known_nonempty (c ∷ s) e = refl

  -- The view of an entry whose type is known resolves to the security of the entry.
  pub view_of-SameSecurity :
      (config : Fields) (index : ℕ)
      → contains type_name listener_types ≡ true
      → SameSecurity (view_of config index entry) entry
  unfolding bytes_eq transport_of truthy
  view_of-SameSecurity config index known = (
    rw (
      view_of-own_view config entry index (codes "type")
          (refl, refl, refl, refl, refl, refl, refl, refl),
      view_of-own_view config entry index (codes "transport")
          (refl, refl, refl, refl, refl, refl, refl, refl),
      own_view-lookup (codes "type"),
      own_view-lookup (codes "transport"),
      typed,
      known_nonempty type_name known,
    ),
    view_of-own_view config entry index (codes "security")
          (refl, refl, refl, refl, refl, refl, refl, refl)
        ∙ own_view-lookup (codes "security"),
    view_of-own_view config entry index (codes "mtls")
          (refl, refl, refl, refl, refl, refl, refl, refl)
        ∙ own_view-lookup (codes "mtls"),
  )
