-- ===== src/Sudo/Protocol/Built.antt =====
-- What the messages that the server builds say to a reader.
use tartarus_nix.Base.{ℕ, ◌≡◌, refl, some, Text, codes, bytes_eq, arith, Option-cases, inl, inr}
use tartarus_nix.Base.Integers.{ℤ, pos, ◌+ℤ◌}
use tartarus_nix.Json.{Value, integer, string, Fields, lookup, equals}
use tartarus_nix.Sudo.Protocol.{
  Libraries, compute_request_digest, response_fields, build_response, validate_envelope,
}

-- A response that was built is one for a digest of the request.
pub build_response-inv :
    (lib : Libraries) (nonce : Value) (decision : Text) (request : Fields) (ttl : ℤ)
    (approver : Text) (now : ℕ) (msg : Fields)
    → build_response lib nonce decision request ttl approver now ≡ some msg
    → (digest : Text) × (compute_request_digest lib request ≡ some digest)
      × (msg ≡ response_fields nonce decision digest ttl approver now)
unfolding build_response
build_response-inv lib nonce decision request ttl approver now msg e =
    elim (Option-cases (compute_request_digest lib request)) [
      | inl unencodable ↦ absurd (ground (arith, unencodable))
      | inr (digest, encoded) ↦ (digest, encoded, ground (arith, encoded))
    ]

module _ (nonce : Value) (decision digest : Text) (ttl : ℤ) (approver : Text) (now : ℕ) where
  abbrev built : Fields
  built = response_fields nonce decision digest ttl approver now

  pub built_envelope : validate_envelope built (codes "auth_response") ≡ some tt
  unfolding validate_envelope response_fields lookup bytes_eq equals
  built_envelope = refl

  pub built_nonce : lookup built (codes "nonce") ≡ some nonce
  unfolding response_fields lookup bytes_eq
  built_nonce = refl

  pub built_decision : lookup built (codes "decision") ≡ some (string decision)
  unfolding response_fields lookup bytes_eq
  built_decision = refl

  pub built_digest : lookup built (codes "request_digest") ≡ some (string digest)
  unfolding response_fields lookup bytes_eq
  built_digest = refl

  pub built_issued_at : lookup built (codes "issued_at") ≡ some (integer (pos now))
  unfolding response_fields lookup bytes_eq
  built_issued_at = refl

  pub built_expires_at : lookup built (codes "expires_at") ≡ some (integer (pos now +ℤ ttl))
  unfolding response_fields lookup bytes_eq
  built_expires_at = refl
