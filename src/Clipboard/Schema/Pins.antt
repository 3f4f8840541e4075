-- ===== src/Clipboard/Schema/Pins.antt =====
-- `load_client_acl` of clipboard-bridge.py: the identities of the server that a client pins. The
-- parameter is `base64.b64decode` with `validate=True`.
use tartarus_nix.Base.{
  ℕ, zero, suc, not, ◌&&◌, Option, none, some, List, [], ◌∷◌, ◌++◌, Bytes, Text, codes, is_empty,
  starts_with, length, drop, ◌%◌, ◌-◌, ◌==◌, if◌then◌else◌,
}
use tartarus_nix.Base.Options.{◌>>=◌, ◌>>◌, require}
use tartarus_nix.Json.{
  Value, null, string, array, object, Values, no_values, value, Fields, lookup, keys_among,
  strings_of,
}
use tartarus_nix.Clipboard.Schema.{config_acl_keys}

pub record Pins : Type 0 where
  -- a frozenset
  pub fingerprints : List Text
  pub names : List Text

-- `s.rstrip("=")`
unfoldable pub without_padding : Text → Text
without_padding [] = []
without_padding (c ∷ s) = elim (without_padding s) [
  | [] ↦ if c == 61 then [] else c ∷ []
  | d ∷ s' ↦ c ∷ d ∷ s'
]

equals_signs : ℕ → Text
equals_signs zero = []
equals_signs (suc n) = 61 ∷ equals_signs n

-- `body + "=" * (-len(body) % 4)`
unfoldable pub padded : Text → Text
unfolding equals_signs
padded body = body ++ equals_signs ((4 - length body % 4) % 4)

module _ (decode : Text → Option Bytes) where
  unfoldable pub normalize_fingerprint : Value → Option Text
  unfolding without_padding padded
  normalize_fingerprint (string fingerprint) = do
    require (starts_with (codes "SHA256:") fingerprint)
    require (not (is_empty (without_padding (drop 7 fingerprint))))
    raw ← decode (padded (without_padding (drop 7 fingerprint)))
    require (length raw == 32)
    some (codes "SHA256:" ++ without_padding (drop 7 fingerprint))
  normalize_fingerprint _ = none

  fingerprints_of : Values → Option (List Text)
  unfolding normalize_fingerprint
  fingerprints_of no_values = some []
  fingerprints_of (value entry entries) = do
    fingerprint ← normalize_fingerprint entry
    fingerprints ← fingerprints_of entries
    some (fingerprint ∷ fingerprints)

  -- `_fingerprint_set`
  unfoldable pub fingerprint_set : Option Value → Option (List Text)
  unfolding fingerprints_of
  fingerprint_set none = some []
  fingerprint_set (some null) = some []
  fingerprint_set (some (array entries)) = fingerprints_of entries
  fingerprint_set (some _) = none

  trusted_names : Option Value → Option (List Text)
  trusted_names none = some []
  trusted_names (some null) = some []
  trusted_names (some (string name)) = some (if is_empty name then [] else name ∷ [])
  trusted_names (some (array names)) = strings_of names
  trusted_names (some _) = none

  acl_of : Option Value → Option Pins
  unfolding fingerprint_set trusted_names
  acl_of none = some (record { fingerprints = []; names = [] })
  acl_of (some null) = some (record { fingerprints = []; names = [] })
  acl_of (some (object acl)) = do
    require (keys_among acl config_acl_keys)
    fingerprints ← fingerprint_set (lookup acl (codes "trusted_fingerprints"))
    names ← trusted_names (lookup acl (codes "trusted_names"))
    require (not (is_empty fingerprints && is_empty names))
    some (record { fingerprints = fingerprints; names = names })
  acl_of (some _) = none

  unfoldable pub load_client_acl : Fields → Option Pins
  unfolding acl_of
  load_client_acl config = acl_of (lookup config (codes "acl"))
