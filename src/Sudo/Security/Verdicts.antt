-- ===== src/Sudo/Security/Verdicts.antt =====
-- Which responses the client accepts.
use tartarus_nix.Base.{
  ℕ, ◌+◌, ◌≤◌, ◌<◌, ◌≡◌, refl, sym, ap, ◌∙◌, inl, inr, Bool, true, false, not, Option, some, List,
  [], ◌∷◌, Bytes, Text, codes, bytes_eq_refl, contains, Among, contains_iff, arith, Bool-cases,
}
use mathlib.Core.Path.{subst}
use tartarus_nix.Base.Options.{bind_inv, require, require-inv}
use tartarus_nix.Base.Integers.Order.{◌≤ℤ◌, ◌<ℤ◌, ltb_int-true, ltb_int-false}
use tartarus_nix.Sudo.Protocol.Compared.{secure_equals-inv, validate_envelope-inv}
use tartarus_nix.Base.Integers.{ℤ, pos, ◌+ℤ◌, ltb_int}
use tartarus_nix.Json.{Value, string, integer, Fields, lookup, string_or_empty}
use tartarus_nix.Sudo.Protocol.{
  Libraries, compute_request_digest, secure_equals, encode_strict, validate_envelope, decision_of,
  build_response, response_fields,
}
use tartarus_nix.Sudo.Protocol.Built.{
  built_envelope, built_nonce, built_decision, built_digest, built_issued_at, built_expires_at,
}
use tartarus_nix.Sudo.Security.{
  SecurityConfig, fresh, freshness_of, check_response_freshness, verify_response,
}

-- The response is one for this request, says `decision`, is in its window and of an unused nonce.
pub record Accepted (lib : Libraries) (response request : Fields) (security : SecurityConfig)
    (now : ℕ) (consumed : List Text) (decision : Text) : Type 0 where
  pub versioned : lookup response (codes "v") ≡ some (integer (pos 1))
  pub typed : lookup response (codes "type") ≡ some (string (codes "auth_response"))
  pub nonce : Text
  pub of_request : lookup request (codes "nonce") ≡ some (string nonce)
  pub of_response : lookup response (codes "nonce") ≡ some (string nonce)
  pub digest : Text
  pub encoded : compute_request_digest lib request ≡ some digest
  pub same_digest : lookup response (codes "request_digest") ≡ some (string digest)
  pub says : lookup response (codes "decision") ≡ some (string decision)
  pub known : Among decision (codes "allow" ∷ codes "deny" ∷ [])
  pub issued : ℤ
  pub expires : ℤ
  pub issued_at : lookup response (codes "issued_at") ≡ some (integer issued)
  pub expires_at : lookup response (codes "expires_at") ≡ some (integer expires)
  pub ordered : issued <ℤ expires
  pub begun : issued ≤ℤ pos now +ℤ security.clock_skew
  pub lasting : pos now ≤ℤ expires +ℤ security.clock_skew
  pub unused : ¬ Among nonce consumed

-- And its nonce is among the consumed ones from then on.
pub record Consumes (lib : Libraries) (response request : Fields) (security : SecurityConfig)
    (now : ℕ) (consumed : List Text) (decision : Text) (used : List Text) : Type 0 where
  pub accepted : Accepted lib response request security now consumed decision
  pub consumes : used ≡ accepted.nonce ∷ consumed

string_or_empty-string : (v : Option Value) (t : Text) → v ≡ some (string t) → string_or_empty v ≡ t
unfolding string_or_empty
string_or_empty-string v t e = rw e refl

not_among :
    (tested nonce : Text) (consumed : List Text)
    → tested ≡ nonce
    → contains tested consumed ≡ false
    → ¬ Among nonce consumed
not_among tested nonce consumed same absent among =
    let present = (contains_iff nonce consumed).1 among in
    absurd (ground (arith, same, absent, present))

decision_of-inv :
    (v : Option Value) (decision : Text)
    → decision_of v ≡ some decision
    → (v ≡ some (string decision)) × Among decision (codes "allow" ∷ codes "deny" ∷ [])
unfolding decision_of
decision_of-inv (some (string s)) decision e =
    elim (Bool-cases (contains s (codes "allow" ∷ codes "deny" ∷ []))) [
      | inl c ↦
          let same : s ≡ decision = ground (arith, c) in
          (
            ap (λ t. some (string t)) same,
            subst (λ t. Among t (codes "allow" ∷ codes "deny" ∷ [])) same
                ((contains_iff s (codes "allow" ∷ codes "deny" ∷ [])).0 c),
          )
      | inr c ↦ absurd (ground (arith, c))
    ]
decision_of-inv _ decision e = absurd (cc)

some_pair-inv : {A B : Type 0} (p q : A × B) → some p ≡ some q → (p.0 ≡ q.0) × (p.1 ≡ q.1)
some_pair-inv p q e = let same : p ≡ q = cc in (ap (λ r. r.0) same, ap (λ r. r.1) same)

not-inv : (b : Bool) → not b ≡ true → b ≡ false
not-inv b e = ground arith

-- What the test of the window says of the integers.
abbrev InWindow : ℤ → ℤ → ℤ → ℕ → Type 0
InWindow issued expires skew now =
    (issued <ℤ expires) × (issued ≤ℤ pos now +ℤ skew) × (pos now ≤ℤ expires +ℤ skew)

fresh-InWindow : (i e skew : ℤ) (now : ℕ) → fresh i e skew now ≡ true → InWindow i e skew now
unfolding fresh
fresh-InWindow i e skew now h = (
  ltb_int-true i e (ground arith),
  ltb_int-false (pos now +ℤ skew) i (ground arith),
  ltb_int-false (e +ℤ skew) (pos now) (ground arith),
)

freshness_of-inv :
    (skew : ℤ) (now : ℕ) (issued expires : Option Value)
    → freshness_of skew now issued expires ≡ some tt
    → (i : ℤ) × (e : ℤ) × (issued ≡ some (integer i))
      × (expires ≡ some (integer e))
      × InWindow i e skew now
unfolding freshness_of
freshness_of-inv skew now (some (integer i)) (some (integer e)) h =
    (i, e, refl, refl, fresh-InWindow i e skew now (require-inv (fresh i e skew now) tt h))
freshness_of-inv skew now issued expires h = absurd (cc)

-- A response that the client accepts is one for its request: it bears the very nonce of the request
-- and the request's digest; its decision is to allow or to deny; it expires after it was issued, and
-- now is neither more than the clock skew before the one nor more than the skew after the other; and
-- its nonce was not consumed before and is now.
pub verify_response-Accepted :
    (lib : Libraries) (response request : Fields) (security : SecurityConfig) (now : ℕ)
    (consumed : List Text) (decision : Text) (used : List Text)
    → verify_response lib response request security now consumed ≡ some (decision, used)
    → Consumes lib response request security now consumed decision used
unfolding verify_response check_response_freshness
verify_response-Accepted lib response request security now consumed decision used h =
    let (_, typed, h1) = bind_inv (validate_envelope response (codes "auth_response")) _ _ h in
    let (same, e2, h2) =
      bind_inv (secure_equals (lookup response (codes "nonce")) (lookup request (codes "nonce"))) _
        _ h1 in
    let (_, e3, h3) = bind_inv (require same) _ _ h2 in
    let (digest, e4, h4) = bind_inv (compute_request_digest lib request) _ _ h3 in
    let (bound, e5, h5) =
      bind_inv (secure_equals (lookup response (codes "request_digest")) (some (string digest))) _ _
        h4 in
    let (_, e6, h6) = bind_inv (require bound) _ _ h5 in
    let (d, e7, h7) = bind_inv (decision_of (lookup response (codes "decision"))) _ _ h6 in
    let (_, e8, h8) =
      bind_inv
        (freshness_of security.clock_skew now (lookup response (codes "issued_at"))
          (lookup response (codes "expires_at")))
        _ _ h7 in
    let (_, e9, h9) =
      bind_inv
        (require (not (contains (string_or_empty (lookup response (codes "nonce"))) consumed))) _ _
        h8 in
    let (says, known) = decision_of-inv _ d e7 in
    let (i, x, issued_at, expires_at, in_time) = freshness_of-inv _ now _ _ e8 in
    let (to_decision, to_used) = some_pair-inv _ (decision, used) h9 in
    let (versioned, kind) = validate_envelope-inv response (codes "auth_response") typed in
    let (nonce, of_response, of_request) =
      secure_equals-inv _ _ (e2 ∙ ap some (require-inv same _ e3)) in
    let (hash, received, computed) =
      secure_equals-inv _ _ (e5 ∙ ap some (require-inv bound _ e6)) in
    let named = string_or_empty-string _ nonce of_response in
    record {
      accepted = record {
        versioned = versioned;
        typed = kind;
        nonce = nonce;
        of_request = of_request;
        of_response = of_response;
        digest = digest;
        encoded = e4;
        same_digest = received ∙ sym computed;
        says = says ∙ ap (λ t. some (string t)) to_decision;
        known = subst (λ t. Among t (codes "allow" ∷ codes "deny" ∷ [])) to_decision known;
        issued = i;
        expires = x;
        issued_at = issued_at;
        expires_at = expires_at;
        ordered = in_time.0;
        begun = in_time.1;
        lasting = in_time.2;
        unused = not_among _ nonce consumed named (not-inv _ (require-inv _ _ e9));
      };
      consumes = sym to_used ∙ ap (λ t. t ∷ consumed) named;
    }

fresh_window :
    (ttl skew issued now : ℕ)
    → 0 < ttl
    → issued ≤ now + skew
    → now ≤ issued + ttl + skew
    → fresh (pos issued) (pos issued +ℤ pos ttl) (pos skew) now ≡ true
unfolding fresh ltb_int ◌+ℤ◌
fresh_window ttl skew issued now positive early late = ground arith

secure_equals_self :
    (t : Text) (b : Bytes)
    → encode_strict t ≡ some b
    → secure_equals (some (string t)) (some (string t)) ≡ some true
unfolding secure_equals
secure_equals_self t b e = rw e (ap some (bytes_eq_refl b))

decision_of-known :
    (d : Text)
    → Among d (codes "allow" ∷ codes "deny" ∷ [])
    → decision_of (some (string d)) ≡ some d
unfolding decision_of
decision_of-known d k = rw ((contains_iff d (codes "allow" ∷ codes "deny" ∷ [])).1 k) refl

-- The response that the server builds for a request is accepted by the client that sent it, with the
-- decision that the server took, from the clock skew before it was issued until the clock skew after it
-- expires, if its lifetime is positive, its nonce was not consumed, and nonce and digest are texts
-- that UTF-8 encodes.
pub verify_response-build_response :
    (lib : Libraries) (request response : Fields) (security : SecurityConfig)
    (nonce digest decision approver : Text) (nonce_bytes digest_bytes : Bytes)
    (ttl skew issued now : ℕ) (consumed : List Text)
    → lookup request (codes "nonce") ≡ some (string nonce)
    → encode_strict nonce ≡ some nonce_bytes
    → compute_request_digest lib request ≡ some digest
    → encode_strict digest ≡ some digest_bytes
    → Among decision (codes "allow" ∷ codes "deny" ∷ [])
    → security.clock_skew ≡ pos skew
    → 0 < ttl
    → issued ≤ now + skew
    → now ≤ issued + ttl + skew
    → contains nonce consumed ≡ false
    → build_response lib (string nonce) decision request (pos ttl) approver issued ≡ some response
    → verify_response lib response request security now consumed ≡ some (decision, nonce ∷ consumed)
unfolding verify_response check_response_freshness freshness_of build_response string_or_empty
verify_response-build_response lib request response security nonce digest decision approver nb db
      ttl skew issued now consumed nonced encodes hashed encodes_digest known skewed positive early
      late unused built =
    let shape : response
        ≡ response_fields (string nonce) decision digest (pos ttl) approver issued =
      ground (arith, hashed) in
    rw
      (
        shape,
        built_envelope (string nonce) decision digest (pos ttl) approver issued,
        built_nonce (string nonce) decision digest (pos ttl) approver issued,
        built_decision (string nonce) decision digest (pos ttl) approver issued,
        built_digest (string nonce) decision digest (pos ttl) approver issued,
        built_issued_at (string nonce) decision digest (pos ttl) approver issued,
        built_expires_at (string nonce) decision digest (pos ttl) approver issued,
        nonced,
        secure_equals_self nonce nb encodes,
        hashed,
        secure_equals_self digest db encodes_digest,
        decision_of-known decision known,
        skewed,
        fresh_window ttl skew issued now positive early late,
        unused,
      )
      refl
