-- ===== src/Clipboard/Security/Strict.antt =====
-- A listener of clipboard-bridge.py is never downgraded: what `resolve_listener_security` returns.
use tartarus_nix.Base.{
  ◌≡◌, refl, ◌⊎◌, inl, inr, Bool, true, false, not, ◌||◌, Option, none, some, codes, arith,
}
use tartarus_nix.Base.Options.{require, bind_inv, require-inv}
use tartarus_nix.Json.{Value, Fields, lookup, equals, one_of, keys_among}
use tartarus_nix.Clipboard.Security.{
  Encryption, plain, mtls, Auth, by_transport, unchecked, Knobs, config_security_keys,
  listener_types, table_of, transport_of, mtls_enabled, encryption_of, auth_of, combine, is_mtls,
  resolve_listener_security,
}

abbrev pub encrypted : Knobs
encrypted = record {
  transport_encryption = mtls;
  client_auth = by_transport;
  server_auth = by_transport;
}

abbrev pub unprotected : Knobs
unprotected = record {
  transport_encryption = plain;
  client_auth = unchecked;
  server_auth = unchecked;
}

-- Everything about plaintext is said in the configuration: that no `[mtls]` block is enabled, both
-- knobs, and on TCP the encryption.
pub record PlaintextWanted (entry : Fields) : Type 0 where
  pub security : Fields
  pub block : Fields
  pub security_table : table_of (lookup entry (codes "security")) ≡ some security
  pub mtls_table : table_of (lookup entry (codes "mtls")) ≡ some block
  pub disabled : mtls_enabled block ≡ false
  pub client_auth : equals (lookup security (codes "client_auth")) (codes "none") ≡ true
  pub server_auth : equals (lookup security (codes "server_auth")) (codes "none") ≡ true
  pub on_tcp :
      equals (transport_of entry) (codes "tcp") ≡ true
      → equals (lookup security (codes "transport_encryption")) (codes "none") ≡ true

auth_of_unchecked :
    (v : Option Value) → auth_of v ≡ some (some unchecked) → equals v (codes "none") ≡ true
unfolding auth_of
auth_of_unchecked v e = ground arith

encryption_of-plain :
    (v : Option Value) → encryption_of true v ≡ some plain → equals v (codes "none") ≡ true
unfolding encryption_of
encryption_of-plain v e = ground arith

combine-inv :
    (e : Encryption) (client server : Option Auth) (k : Knobs)
    → combine e client server ≡ some k
    → ((e ≡ mtls) × (k ≡ encrypted))
      ⊎ ((e ≡ plain) × (client ≡ some unchecked) × (server ≡ some unchecked) × (k ≡ unprotected))
unfolding combine
combine-inv mtls none none k h = inl (refl, cc)
combine-inv mtls none (some by_transport) k h = inl (refl, cc)
combine-inv mtls none (some unchecked) k h = absurd (cc)
combine-inv mtls (some by_transport) none k h = inl (refl, cc)
combine-inv mtls (some by_transport) (some by_transport) k h = inl (refl, cc)
combine-inv mtls (some by_transport) (some unchecked) k h = absurd (cc)
combine-inv mtls (some unchecked) server k h = absurd (cc)
combine-inv plain (some unchecked) (some unchecked) k h = inr (refl, refl, refl, cc)
combine-inv plain (some unchecked) (some by_transport) k h = absurd (cc)
combine-inv plain (some unchecked) none k h = absurd (cc)
combine-inv plain (some by_transport) server k h = absurd (cc)
combine-inv plain none server k h = absurd (cc)

plain_wanted :
    (b : Bool) (tcp : Bool) (v : Option Value)
    → encryption_of (b || tcp) v ≡ some plain
    → (not b || is_mtls plain) ≡ true
    → (b ≡ false) × (tcp ≡ true → equals v (codes "none") ≡ true)
unfolding is_mtls
plain_wanted false tcp v e n = (refl, λ t. encryption_of-plain v (rw t at e))
plain_wanted true tcp v e n = absurd (cc)

-- What is accepted is one of two: mTLS, with both ends authenticated by it, or plaintext that the
-- configuration asks for in every respect.
pub resolve_listener_security-Strict :
    (entry : Fields) (k : Knobs)
    → resolve_listener_security entry ≡ some k
    → (k ≡ encrypted) ⊎ ((k ≡ unprotected) × PlaintextWanted entry)
unfolding resolve_listener_security
resolve_listener_security-Strict entry k h =
    let (security, e1, h1) = bind_inv (table_of (lookup entry (codes "security"))) _ _ h in
    let (_, e2, h2) = bind_inv (require (keys_among security config_security_keys)) _ _ h1 in
    let (_, e3, h3) = bind_inv (require (one_of (transport_of entry) listener_types)) _ _ h2 in
    let (block, e4, h4) = bind_inv (table_of (lookup entry (codes "mtls"))) _ _ h3 in
    let (e, e5, h5) =
      bind_inv
        (encryption_of (mtls_enabled block || equals (transport_of entry) (codes "tcp"))
          (lookup security (codes "transport_encryption")))
        _ _ h4 in
    let (_, e6, h6) = bind_inv (require (not (mtls_enabled block) || is_mtls e)) _ _ h5 in
    let (client, e7, h7) = bind_inv (auth_of (lookup security (codes "client_auth"))) _ _ h6 in
    let (server, e8, h8) = bind_inv (auth_of (lookup security (codes "server_auth"))) _ _ h7 in
    elim (combine-inv e client server k h8) [
      | inl (m, same) ↦ inl same
      | inr (p, c, s, same) ↦
          let (disabled, on_tcp) =
            plain_wanted (mtls_enabled block) (equals (transport_of entry) (codes "tcp")) _
              (rw p at e5) (rw p at (require-inv _ _ e6)) in
          inr (
            same,
            record {
              security = security;
              block = block;
              security_table = e1;
              mtls_table = e4;
              disabled = disabled;
              client_auth = auth_of_unchecked _ (rw c at e7);
              server_auth = auth_of_unchecked _ (rw s at e8);
              on_tcp = on_tcp;
            },
          )
    ]
