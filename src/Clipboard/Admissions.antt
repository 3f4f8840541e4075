-- ===== src/Clipboard/Admissions.antt =====
-- Whom a listener of clipboard-bridge.py serves, from the document that was accepted to the handler
-- of the connection.
use tartarus_nix.Base.{
  ℕ, ◌≡◌, refl, sym, ap, ◌∙◌, inl, inr, Bool, true, false, not, Option, none, some, List, ◌∷◌,
  Bytes, Text, codes, contains, bytes_eq, is_empty, Bool-cases, if◌then◌else◌, arith,
}
use tartarus_nix.Json.{
  Value, null, boolean, integer, real, string, array, object, Fields, lookup, one_of, equals,
  is_nonempty_string, string_or_empty,
}
use tartarus_nix.Clipboard.Security.{
  Knobs, mtls, listener_types, table_of, resolve_listener_security,
}
use tartarus_nix.Clipboard.Schema.{admin_oid, is_true}
use tartarus_nix.Clipboard.Schema.Listeners.{shape_valid, oids_valid, validate_listener}
use tartarus_nix.Clipboard.Schema.Accepted.{Guarded, Complete, validate_listener-Guarded}
use tartarus_nix.Clipboard.Schema.Documents.{view_of}
use tartarus_nix.Clipboard.Schema.Views.{
  SameSecurity, view_of-SameSecurity, resolve_listener_security-same,
}
use tartarus_nix.Clipboard.Names.{Address, Listener, Directory, get_client_id}
use tartarus_nix.Clipboard.Hub.{Connection}
use tartarus_nix.Clipboard.Loop.{
  serves, refuses, peer_verified, read_certificate, mtls_block, admit_secured, admit,
}

-- The certificate has the OID that the block asks of peers: the admin's exactly for admins.
pub record Certified (dir : Directory) (entry block : Fields) (der : Bytes) : Type 0 where
  pub oid : Text
  pub asked : lookup block (codes "peer_required_oid") ≡ some (string oid)
  pub has : dir.cert_has_oid der oid ≡ true
  pub role : bytes_eq oid admin_oid ≡ is_true (lookup entry (codes "admin"))

some-inj : {j k : Knobs} → some j ≡ some k → j ≡ k
some-inj h = cc

one_of-string :
    (v : Option Value) (options : List Text)
    → one_of v options ≡ true
    → (s : Text) × (v ≡ some (string s)) × (contains s options ≡ true)
unfolding one_of
one_of-string none options h = absurd (cc)
one_of-string (some (string s)) options h = (s, refl, h)
one_of-string (some null) options h = absurd (cc)
one_of-string (some (boolean v)) options h = absurd (cc)
one_of-string (some (integer v)) options h = absurd (cc)
one_of-string (some (real v)) options h = absurd (cc)
one_of-string (some (array v)) options h = absurd (cc)
one_of-string (some (object v)) options h = absurd (cc)

shape_valid-type :
    (entry : Fields)
    → shape_valid entry ≡ true
    → (s : Text) × (lookup entry (codes "type") ≡ some (string s))
      × (contains s listener_types ≡ true)
unfolding shape_valid
shape_valid-type entry h = one_of-string (lookup entry (codes "type")) listener_types (ground arith)

peer_oid_text :
    (admin : Bool) (o : Option Value)
    → is_nonempty_string o ≡ true
    → (if admin then equals o admin_oid else not (equals o admin_oid)) ≡ true
    → (oid : Text) × (o ≡ some (string oid))
      × (is_empty oid ≡ false)
      × (bytes_eq oid admin_oid ≡ admin)
unfolding is_nonempty_string equals
peer_oid_text admin (some (string oid)) n h = (oid, refl, ground arith, ground arith)
peer_oid_text admin none n h = absurd (cc)
peer_oid_text admin (some null) n h = absurd (cc)
peer_oid_text admin (some (boolean v)) n h = absurd (cc)
peer_oid_text admin (some (integer v)) n h = absurd (cc)
peer_oid_text admin (some (real v)) n h = absurd (cc)
peer_oid_text admin (some (array v)) n h = absurd (cc)
peer_oid_text admin (some (object v)) n h = absurd (cc)

oids_valid-peer :
    (admin : Bool) (block : Fields)
    → oids_valid admin (some block) ≡ true
    → (oid : Text) × (lookup block (codes "peer_required_oid") ≡ some (string oid))
      × (is_empty oid ≡ false)
      × (bytes_eq oid admin_oid ≡ admin)
unfolding oids_valid
oids_valid-peer admin block h =
    peer_oid_text admin (lookup block (codes "peer_required_oid")) (ground arith) (ground arith)

admit_secured-verified :
    (dir : Directory) (handle : ℕ) (client_id : Text) (listener : Listener) (b : ℕ) (der : Bytes)
    (knobs : Knobs) (c : Connection)
    → knobs.transport_encryption ≡ mtls
    → admit_secured dir handle client_id listener (some (b ∷ der)) (some knobs) ≡ serves c
    → peer_verified dir mtls (mtls_block listener.config) (some (b ∷ der)) ≡ true
unfolding admit_secured read_certificate
admit_secured-verified dir handle client_id listener b der knobs c m h =
    elim (Bool-cases (peer_verified dir mtls (mtls_block listener.config) (some (b ∷ der)))) [
      | inl ok ↦ ok
      | inr bad ↦
          let n : refuses (codes "SSL verification failed") ≡ serves c = rw (m, bad) at h in
          absurd (cc)
    ]

mtls_block-table :
    (config block : Fields)
    → lookup config (codes "mtls") ≡ some (object block)
    → mtls_block config ≡ block
unfolding mtls_block table_of
mtls_block-table config block e = rw (e, mtls_block)

verified-oid :
    (dir : Directory) (block : Fields) (b : ℕ) (der : Bytes) (oid : Text)
    → lookup block (codes "peer_required_oid") ≡ some (string oid)
    → is_empty oid ≡ false
    → peer_verified dir mtls block (some (b ∷ der)) ≡ true
    → dir.cert_has_oid (b ∷ der) oid ≡ true
unfolding peer_verified string_or_empty
verified-oid dir block b der oid asked nonempty h = rw (asked, nonempty) at h

module _ (dir : Directory) (config entry : Fields) (index handle : ℕ) (address : Address) (b : ℕ)
    (der : Bytes) (listener : Listener) (c : Connection) where
  Guarded-Certified :
      (g : Guarded entry)
      → g.knobs.transport_encryption ≡ mtls
      → listener.config ≡ view_of config index entry
      → admit dir handle listener address (some (b ∷ der)) ≡ serves c
      → (block : Fields) × Complete entry block × Certified dir entry block (b ∷ der)
  unfolding admit
  Guarded-Certified g m is_view h =
      let (block, complete) = g.block m in
      let (s, typed, known) = shape_valid-type entry g.shape in
      let same : SameSecurity (view_of config index entry) entry =
        view_of-SameSecurity entry s typed config index known in
      let resolved : resolve_listener_security listener.config ≡ some g.knobs =
        rw is_view (resolve_listener_security-same _ _ same ∙ g.resolved) in
      let verified =
        admit_secured-verified dir handle (get_client_id listener.transport address) listener b der
          g.knobs c m (rw resolved at h) in
      let table : mtls_block listener.config ≡ block =
        rw is_view
          (mtls_block-table (view_of config index entry) block (same.2 ∙ complete.table)) in
      let (oid, asked, nonempty, role) =
        oids_valid-peer (is_true (lookup entry (codes "admin"))) block complete.oids in
      (
        block,
        complete,
        record {
          oid = oid;
          asked = asked;
          has = verified-oid dir block b der oid asked nonempty (rw table at verified);
          role = role;
        },
      )

  -- A listener of an accepted document that resolves to mTLS serves a peer over it only if the
  -- certificate of the peer, which the TLS library has it show, carries the OID that the entry asks
  -- for, which is the OID of admins if the listener is an admin's, and else another.
  pub admit-Certified :
      (knobs : Knobs) (u : Unit {0})
      → validate_listener entry ≡ some u
      → resolve_listener_security entry ≡ some knobs
      → knobs.transport_encryption ≡ mtls
      → listener.config ≡ view_of config index entry
      → admit dir handle listener address (some (b ∷ der)) ≡ serves c
      → (block : Fields) × Complete entry block × Certified dir entry block (b ∷ der)
  admit-Certified knobs u accepted resolved m is_view h =
      let g = validate_listener-Guarded entry u accepted in
      let same : g.knobs ≡ knobs = some-inj (sym g.resolved ∙ resolved) in
      Guarded-Certified g (ap (λ (k : Knobs). k.transport_encryption) same ∙ m) is_view h
