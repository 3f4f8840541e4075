-- ===== src/Sudo/Chain/Examples.antt =====
-- A client certificate under an intermediate authority under a trusted one.
use tartarus_nix.Base.{
  ◌≡◌, refl, true, false, none, some, [], ◌∷◌, Text, bytes_eq, ℕ, Bool, List, Option,
}
use tartarus_nix.Sudo.Chain.{BasicConstraints, KeyUsage, Cert, verify_x509_chain}
use tartarus_nix.Sudo.Chain.Anchored.{Anchored, EndEntity, verify_x509_chain-Anchored}

abbrev oid : Text
oid = 1 ∷ 2 ∷ 3 ∷ []

-- A certificate by its name and its issuer's, valid from 10 to 20.
abbrev cert : ℕ → ℕ → Option BasicConstraints → Option KeyUsage → Option (List Text) → Cert
cert name by constraints usage ekus = record {
  fingerprint = name ∷ [];
  subject = name ∷ [];
  issuer = by ∷ [];
  not_valid_before = 10;
  not_valid_after = 20;
  constraints = constraints;
  usage = usage;
  ekus = ekus;
  extensions = some (record { critical = true; recognized = true } ∷ []);
}

abbrev authority : Option ℕ → Option BasicConstraints
authority limit = some (record { ca = true; path_length = limit })

abbrev root : Cert
root =
    cert 1 1 (authority none) (some (record { key_cert_sign = true; digital_signature = false }))
      none

abbrev middle : Cert
middle = cert 2 1 (authority (some 0)) none none

abbrev client : Cert
client =
    cert 3 2 none (some (record { key_cert_sign = false; digital_signature = true }))
      (some (oid ∷ []))

-- A certificate of that client's, which is no authority.
abbrev forged : Cert
forged = cert 4 3 none none (some (oid ∷ []))

abbrev signed : Cert → Cert → Bool
signed child parent = bytes_eq child.issuer parent.subject

abbrev verify : ℕ → ℕ → List Cert → Option Cert
verify now max_depth chain = verify_x509_chain signed now (root ∷ []) max_depth chain oid

accepted : verify 15 8 (client ∷ middle ∷ []) ≡ some client
unfolding verify_x509_chain bytes_eq
accepted = refl

expired : verify 21 8 (client ∷ middle ∷ []) ≡ none
unfolding verify_x509_chain bytes_eq
expired = refl

-- Two issuers are above the client.
too_deep : verify 15 1 (client ∷ middle ∷ []) ≡ none
unfolding verify_x509_chain bytes_eq
too_deep = refl

-- The client may not issue.
issued : verify 15 8 (forged ∷ client ∷ middle ∷ []) ≡ none
unfolding verify_x509_chain bytes_eq
issued = refl

no_client : verify 15 8 (middle ∷ []) ≡ none
unfolding verify_x509_chain bytes_eq
no_client = refl

verify_x509_chain-Anchored_example :
    (client ≡ client)
    × EndEntity oid client
    × Anchored signed 15 (root ∷ []) (middle ∷ root ∷ []) client 8 0
verify_x509_chain-Anchored_example =
    verify_x509_chain-Anchored signed 15 (root ∷ []) 8 client (middle ∷ []) oid client accepted
