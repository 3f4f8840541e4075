-- ===== src/Sudo/Chain.antt =====
-- `verify_x509_chain` of sudo-auth-proxy.py. A certificate is what the cryptography package reads of
-- it, and its signature check is a parameter; `none` is an `AuthError`.
pub mod Anchored
mod Examples
use tartarus_nix.Base.{
  ℕ, zero, suc, Bool, true, false, not, ◌&&◌, ◌||◌, Option, none, some, List, [], ◌∷◌, ◌++◌, Bytes,
  Text, bytes_eq, contains, any, length, leb, map, if◌then◌else◌,
}
use tartarus_nix.Base.Options.{◌>>=◌, ◌>>◌, require}

pub record BasicConstraints : Type 0 where
  pub ca : Bool
  pub path_length : Option ℕ

pub record KeyUsage : Type 0 where
  pub key_cert_sign : Bool
  pub digital_signature : Bool

-- Whether an extension is critical, and whether the package knows it.
pub record Extension : Type 0 where
  pub critical : Bool
  pub recognized : Bool

pub record Cert : Type 0 where
  pub fingerprint : Bytes
  pub subject : Bytes
  pub issuer : Bytes
  pub not_valid_before : ℕ
  pub not_valid_after : ℕ
  -- each extension where it is there
  pub constraints : Option BasicConstraints
  pub usage : Option KeyUsage
  pub ekus : Option (List Text)
  -- all of them, if they parse
  pub extensions : Option (List Extension)

ca_of : Option BasicConstraints → Bool
ca_of none = false
ca_of (some constraints) = constraints.ca

unfoldable pub cert_is_ca : Cert → Bool
unfolding ca_of
cert_is_ca cert = ca_of cert.constraints

path_of : Option BasicConstraints → Option ℕ
path_of none = none
path_of (some constraints) = constraints.path_length

unfoldable pub cert_path_length : Cert → Option ℕ
unfolding path_of
cert_path_length cert = path_of cert.constraints

sign_of : Option KeyUsage → Bool
sign_of none = true
sign_of (some usage) = usage.key_cert_sign

unfoldable pub cert_allows_cert_sign : Cert → Bool
unfolding sign_of
cert_allows_cert_sign cert = sign_of cert.usage

signature_of : Option KeyUsage → Bool
signature_of none = true
signature_of (some usage) = usage.digital_signature

unfoldable pub cert_allows_digital_signature : Cert → Bool
unfolding signature_of
cert_allows_digital_signature cert = signature_of cert.usage

-- No extension is critical and unknown; where they do not parse, that is an error.
unfoldable pub extensions_known : Option (List Extension) → Bool
extensions_known none = false
extensions_known (some extensions) =
    not (any (λ (e : Extension). e.critical && not e.recognized) extensions)

oid_in : Option (List Text) → Text → Bool
oid_in none oid = false
oid_in (some ekus) oid = contains oid ekus

unfoldable pub cert_has_oid : Cert → Text → Bool
unfolding oid_in
cert_has_oid cert oid = oid_in cert.ekus oid

unfoldable pub in_window : ℕ → Cert → Bool
in_window now cert = leb cert.not_valid_before now && leb now cert.not_valid_after

-- As many certificates as are below may be below the issuer.
unfoldable pub path_allows : Option ℕ → ℕ → Bool
path_allows none below = true
path_allows (some limit) below = leb below limit

unfoldable pub is_trusted : List Cert → Bytes → Bool
is_trusted [] fingerprint = false
is_trusted (ca ∷ cas) fingerprint =
    bytes_eq ca.fingerprint fingerprint || is_trusted cas fingerprint

module _ (signed : Cert → Cert → Bool) (now : ℕ) (cas : List Cert) where
  -- The first of the candidates of that name that signed the certificate and may be above it.
  unfoldable pub find_issuer : List Cert → Cert → ℕ → Option Cert
  unfolding path_allows cert_path_length
  find_issuer [] current below = none
  find_issuer (candidate ∷ pool) current below =
      if bytes_eq candidate.subject current.issuer
        && signed current candidate
        && path_allows (cert_path_length candidate) below
      then some candidate
      else find_issuer pool current below

  -- The rounds that are left; one below zero is the depth exceeded.
  unfoldable pub climb : List Cert → ℕ → List Bytes → Cert → Option (Unit {0})
  unfolding find_issuer in_window extensions_known is_trusted cert_is_ca cert_allows_cert_sign
      contains
  climb pool zero seen current = none
  climb pool (suc rounds) seen current = do
    require (in_window now current)
    require (extensions_known current.extensions)
    if is_trusted cas current.fingerprint then some tt else (do
      issuer ← find_issuer pool current (length seen)
      require (cert_is_ca issuer)
      require (cert_allows_cert_sign issuer)
      require (not (contains current.fingerprint seen))
      climb pool rounds (current.fingerprint ∷ seen) issuer)

  -- An empty chain raises at `chain[0]`.
  unfoldable pub verify_x509_chain : ℕ → List Cert → Text → Option Cert
  unfolding climb cert_is_ca cert_allows_digital_signature cert_has_oid
  verify_x509_chain max_depth [] required_oid = none
  verify_x509_chain max_depth (leaf ∷ chain) required_oid = do
    require (not (cert_is_ca leaf))
    require (cert_allows_digital_signature leaf)
    climb (chain ++ cas) (suc max_depth) [] leaf
    require (cert_has_oid leaf required_oid)
    some leaf
