-- ===== src/Sudo/Chain/Anchored.antt =====
-- What a certificate that `verify_x509_chain` accepts has: a path to a trusted one.
use tartarus_nix.Base.{
  ℕ, zero, suc, ◌≡◌, refl, sym, ◌⊎◌, inl, inr, Bool, true, false, not, ◌&&◌, Option, some, List, [],
  ◌∷◌, ◌++◌, Bytes, Text, bytes_eq, contains, length, Bool-cases, if◌then◌else◌, arith,
}
use mathlib.Core.Path.{subst}
use tartarus_nix.Base.Options.{◌>>=◌, ◌>>◌, require, bind_inv}
use tartarus_nix.Sudo.Chain.{
  Cert, cert_is_ca, cert_path_length, cert_allows_cert_sign, cert_allows_digital_signature,
  extensions_known, cert_has_oid, in_window, path_allows, is_trusted, find_issuer, climb,
  verify_x509_chain,
}

-- Membership.
abbrev pub In : Cert → List Cert → Type 0
In c [] = ⊥
In c (d ∷ pool) = (c ≡ d) ⊎ In c pool

-- What is checked of every certificate of a path.
pub record Current (now : ℕ) (c : Cert) : Type 0 where
  pub in_time : in_window now c ≡ true
  pub known : extensions_known c.extensions ≡ true

-- The issuer that is taken for a certificate with that many of the path below it.
pub record Found (signed : Cert → Cert → Bool) (issuer c : Cert) (below : ℕ) : Type 0 where
  pub named : bytes_eq issuer.subject c.issuer ≡ true
  pub signs : signed c issuer ≡ true
  pub path : path_allows (cert_path_length issuer) below ≡ true

-- An issuer is an authority that may sign certificates.
pub record Authority (issuer : Cert) : Type 0 where
  pub ca : cert_is_ca issuer ≡ true
  pub usage : cert_allows_cert_sign issuer ≡ true

module _ (signed : Cert → Cert → Bool) (now : ℕ) (cas pool : List Cert) where
  -- A path to a trusted certificate: certificate, the most steps, the certificates below it.
  pub data Anchored : Cert → ℕ → ℕ → Type 0 where
    anchor :
        {c : Cert} {steps below : ℕ}
        → Current now c
        → is_trusted cas c.fingerprint ≡ true
        → Anchored c steps below
    link :
        {c issuer : Cert} {steps below : ℕ}
        → Current now c
        → In issuer pool
        → Found signed issuer c below
        → Authority issuer
        → Anchored issuer steps (suc below)
        → Anchored c (suc steps) below

-- What is checked of the certificate itself.
pub record EndEntity (required_oid : Text) (leaf : Cert) : Type 0 where
  pub not_ca : cert_is_ca leaf ≡ false
  pub signs : cert_allows_digital_signature leaf ≡ true
  pub purpose : cert_has_oid leaf required_oid ≡ true

require_then :
    {A : Type 0} (test : Bool) (o : Option A) (a : A)
    → (require test >> o) ≡ some a
    → (test ≡ true) × (o ≡ some a)
require_then true o a h = (refl, h)
require_then false o a h = absurd (cc)

some-inj : {c d : Cert} → some c ≡ some d → c ≡ d
some-inj h = cc

module _ (signed : Cert → Cert → Bool) (now : ℕ) (cas : List Cert) where
  find_issuer-Found :
      (pool : List Cert) (c : Cert) (below : ℕ) (issuer : Cert)
      → find_issuer signed now cas pool c below ≡ some issuer
      → In issuer pool × Found signed issuer c below
  unfolding find_issuer
  find_issuer-Found [] c below issuer h = absurd (cc)
  find_issuer-Found (candidate ∷ pool) c below issuer h =
      elim (Bool-cases (
        bytes_eq candidate.subject c.issuer
        && signed c candidate
        && path_allows (cert_path_length candidate) below)) [
          | inl fits ↦
              let same : some candidate ≡ some issuer = rw fits at h in
              subst (λ i. In i (candidate ∷ pool) × Found signed i c below) (some-inj same)
                (
                  inl refl,
                  record { named = ground arith; signs = ground arith; path = ground arith },
                )
          | inr other ↦
              let rest = find_issuer-Found pool c below issuer (rw other at h) in
              (inr rest.0, rest.1)
        ]

  -- The rest of a chain is what makes a path of a certificate whose issuer was found.
  abbrev Onward : List Cert → ℕ → List Bytes → Cert → Type 0
  Onward pool rounds seen c =
      (issuer : Cert) (u : Unit {0})
      → In issuer pool × Found signed issuer c (length seen)
      → Authority issuer
      → climb signed now cas pool rounds (c.fingerprint ∷ seen) issuer ≡ some u
      → Anchored signed now cas pool c rounds (length seen)

  climb_past :
      (pool : List Cert) (rounds : ℕ) (seen : List Bytes) (c : Cert) (u : Unit {0})
      → Onward pool rounds seen c
      → (do
        issuer ← find_issuer signed now cas pool c (length seen)
        require (cert_is_ca issuer)
        require (cert_allows_cert_sign issuer)
        require (not (contains c.fingerprint seen))
        climb signed now cas pool rounds (c.fingerprint ∷ seen) issuer)
        ≡ some u
      → Anchored signed now cas pool c rounds (length seen)
  climb_past pool rounds seen c u onward h =
      let (issuer, found, checked) =
        bind_inv (find_issuer signed now cas pool c (length seen)) _ u h in
      let (ca, used) = require_then (cert_is_ca issuer) _ u checked in
      let (usage, new) = require_then (cert_allows_cert_sign issuer) _ u used in
      let (fresh, on) = require_then (not (contains c.fingerprint seen)) _ u new in
      onward issuer u (find_issuer-Found pool c (length seen) issuer found)
        (record { ca = ca; usage = usage }) on

  climb_from :
      (pool : List Cert) (rounds : ℕ) (seen : List Bytes) (c : Cert) (u : Unit {0}) (trusted : Bool)
      → is_trusted cas c.fingerprint ≡ trusted
      → Current now c
      → Onward pool rounds seen c
      → (if trusted then some tt else (do
        issuer ← find_issuer signed now cas pool c (length seen)
        require (cert_is_ca issuer)
        require (cert_allows_cert_sign issuer)
        require (not (contains c.fingerprint seen))
        climb signed now cas pool rounds (c.fingerprint ∷ seen) issuer))
        ≡ some u
      → Anchored signed now cas pool c rounds (length seen)
  climb_from pool rounds seen c u true trusted current onward h = anchor current trusted
  climb_from pool rounds seen c u false trusted current onward h =
      climb_past pool rounds seen c u onward h

  climb-Anchored :
      (pool : List Cert) (rounds : ℕ) (seen : List Bytes) (c : Cert) (u : Unit {0})
      → climb signed now cas pool (suc rounds) seen c ≡ some u
      → Anchored signed now cas pool c rounds (length seen)
  unfolding climb
  climb-Anchored pool zero seen c u h =
      let (in_time, timed) = require_then (in_window now c) _ u h in
      let (known, rest) = require_then (extensions_known c.extensions) _ u timed in
      climb_from pool zero seen c u (is_trusted cas c.fingerprint) refl
        (record { in_time = in_time; known = known })
        (λ issuer v found authority deeper. absurd (cc)) rest
  climb-Anchored pool (suc rounds) seen c u h =
      let (in_time, timed) = require_then (in_window now c) _ u h in
      let (known, rest) = require_then (extensions_known c.extensions) _ u timed in
      climb_from pool (suc rounds) seen c u (is_trusted cas c.fingerprint) refl
        (record { in_time = in_time; known = known })
        (λ issuer v found authority deeper.
          link (record { in_time = in_time; known = known }) found.0 found.1 authority
            (climb-Anchored pool rounds (c.fingerprint ∷ seen) issuer v deeper))
        rest

  -- Where a chain is accepted, the certificate that is returned is its first one, which is no
  -- authority, may sign messages and has the purpose; and it has a path of at most max_depth steps
  -- to a trusted certificate, on which each certificate is in its window and has no critical
  -- extension that is unknown, and each issuer is in the chain's rest or a trusted one, has the name,
  -- signed the certificate, is an authority that may sign them and allows that many below it.
  pub verify_x509_chain-Anchored :
      (max_depth : ℕ) (leaf : Cert) (chain : List Cert) (required_oid : Text) (accepted : Cert)
      → verify_x509_chain signed now cas max_depth (leaf ∷ chain) required_oid ≡ some accepted
      → (accepted ≡ leaf)
        × EndEntity required_oid leaf
        × Anchored signed now cas (chain ++ cas) leaf max_depth zero
  unfolding verify_x509_chain
  verify_x509_chain-Anchored max_depth leaf chain required_oid accepted h =
      let (end, ended) = require_then (not (cert_is_ca leaf)) _ accepted h in
      let (signs, usable) = require_then (cert_allows_digital_signature leaf) _ accepted ended in
      let (u, climbed, rest) =
        bind_inv (climb signed now cas (chain ++ cas) (suc max_depth) [] leaf) _ accepted usable in
      let (purpose, same) = require_then (cert_has_oid leaf required_oid) _ accepted rest in
      (
        sym (some-inj same),
        record { not_ca = ground arith; signs = signs; purpose = purpose },
        climb-Anchored (chain ++ cas) max_depth [] leaf u climbed,
      )
