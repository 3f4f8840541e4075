-- ===== src/Sudo/Security.antt =====
-- `SecurityConfig`, `attach_client_auth`, `authenticate_request`, `_check_response_freshness` and
-- `verify_response` of sudo-auth-proxy.py.
pub mod Verdicts
use tartarus_nix.Base.{
  ℕ, Bool, true, false, not, ◌&&◌, Option, none, some, List, [], ◌∷◌, Bytes, Text, Dict, codes,
  bytes_eq, contains, if◌then◌else◌,
}
use tartarus_nix.Base.Options.{◌>>=◌, require}
use tartarus_nix.Base.Integers.{ℤ, pos, ◌+ℤ◌, ltb_int}
use tartarus_nix.Json.{
  Value, integer, string, object, Fields, no_fields, field, lookup, assign, equals, string_or_empty,
}
use tartarus_nix.Sudo.Protocol.{
  Libraries, compute_request_digest, secure_equals, validate_envelope, decision_of,
}
use tartarus_nix.Sudo.Rules.{Rule}

-- The part of the model that the two sides read after start-up.
pub record SecurityConfig : Type 0 where
  pub transport_encryption : Text
  pub client_auth : Text
  pub server_auth : Text
  pub response_ttl : ℤ
  pub clock_skew : ℤ
  pub rules : List Rule
  pub labels : Dict Text

abbrev pub none_identity : Text
none_identity = codes "none"

unfoldable pub attach_client_auth : Fields → SecurityConfig → Option Fields
attach_client_auth request security = do
  _ ← require (contains security.client_auth (codes "transport" ∷ codes "none" ∷ []))
  some (
      assign request (codes "client_auth")
        (object (field (codes "method") (string security.client_auth) no_fields)))

-- `peer_cert_der`, when it is there, is loaded and its public key fingerprinted by the parameter.
leaf_fingerprint : (Bytes → Option Text) → Option Bytes → Option Text
leaf_fingerprint fingerprint (some (b ∷ der)) = fingerprint (b ∷ der)
leaf_fingerprint fingerprint _ = some (codes "transport")

authenticate_block :
    (Bytes → Option Text) → SecurityConfig → Option Bytes → Option Value → Option Text
unfolding leaf_fingerprint
authenticate_block fingerprint security peer_cert_der (some (object block)) = do
  _ ← require (equals (lookup block (codes "method")) security.client_auth)
  if equals (lookup block (codes "method")) (codes "none")
      then some none_identity
      else if bytes_eq security.transport_encryption (codes "mtls")
      then leaf_fingerprint fingerprint peer_cert_der
      else none
authenticate_block fingerprint security peer_cert_der _ = none

unfoldable pub authenticate_request :
    (Bytes → Option Text) → Fields → SecurityConfig → Option Bytes → Option Text
unfolding authenticate_block
authenticate_request fingerprint request security peer_cert_der =
    authenticate_block fingerprint security peer_cert_der (lookup request (codes "client_auth"))

-- The window from `issued` to `expires`, widened by the clock skew at both ends.
unfoldable pub fresh : ℤ → ℤ → ℤ → ℕ → Bool
fresh issued expires clock_skew now =
    ltb_int issued expires
    && not (ltb_int (pos now +ℤ clock_skew) issued)
    && not (ltb_int (expires +ℤ clock_skew) (pos now))

unfoldable pub freshness_of : ℤ → ℕ → Option Value → Option Value → Option (Unit {0})
freshness_of clock_skew now (some (integer issued)) (some (integer expires)) =
    require (fresh issued expires clock_skew now)
freshness_of clock_skew now _ _ = none

unfoldable pub check_response_freshness : Fields → SecurityConfig → ℕ → Option (Unit {0})
unfolding freshness_of
check_response_freshness response security now =
    freshness_of security.clock_skew now (lookup response (codes "issued_at"))
      (lookup response (codes "expires_at"))

-- The decision, and the nonces consumed so far with this one among them.
unfoldable pub verify_response :
    Libraries → Fields → Fields → SecurityConfig → ℕ → List Text → Option (Text × List Text)
verify_response lib response request security now consumed_nonces = do
  _ ← validate_envelope response (codes "auth_response")
  same ← secure_equals (lookup response (codes "nonce")) (lookup request (codes "nonce"))
  _ ← require same
  digest ← compute_request_digest lib request
  bound ← secure_equals (lookup response (codes "request_digest")) (some (string digest))
  _ ← require bound
  decision ← decision_of (lookup response (codes "decision"))
  _ ← check_response_freshness response security now
  let nonce = string_or_empty (lookup response (codes "nonce"))
  _ ← require (not (contains nonce consumed_nonces))
  some (decision, nonce ∷ consumed_nonces)
