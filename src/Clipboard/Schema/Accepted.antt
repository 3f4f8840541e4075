-- ===== src/Clipboard/Schema/Accepted.antt =====
-- What a document that clipboard-bridge.py accepts guarantees of each of its listeners.
use tartarus_nix.Base.{◌≡◌, refl, Bool, true, not, ◌||◌, Option, none, some, codes, arith}
use tartarus_nix.Base.Options.{require, bind_inv, require-inv}
use tartarus_nix.Json.{
  Value, null, boolean, integer, real, string, array, object, Fields, lookup, equals, keys_among,
}
use tartarus_nix.Clipboard.Security.{
  Encryption, plain, mtls, Knobs, is_mtls, resolve_listener_security,
}
use tartarus_nix.Clipboard.Schema.{config_mtls_keys, is_true, is_complete, load_mtls, load_block}
use tartarus_nix.Clipboard.Schema.Listeners.{
  shape_valid, oids_valid, block_valid, validate_listener,
}

-- The block of a listener over mTLS: complete, with an OID for each end, the admin's for admins only.
pub record Complete (entry block : Fields) : Type 0 where
  pub table : lookup entry (codes "mtls") ≡ some (object block)
  pub complete : is_complete block ≡ true
  pub oids : oids_valid (is_true (lookup entry (codes "admin"))) (some block) ≡ true

pub record Guarded (entry : Fields) : Type 0 where
  pub knobs : Knobs
  pub shape : shape_valid entry ≡ true
  pub resolved : resolve_listener_security entry ≡ some knobs
  pub named_by_certificate :
      equals (lookup entry (codes "resolution")) (codes "certificate") ≡ true
      → knobs.transport_encryption ≡ mtls
  pub block : knobs.transport_encryption ≡ mtls → (block : Fields) × Complete entry block

load_block-required :
    (o : Option Value) (b : Option Fields)
    → load_block true o ≡ some b
    → (block : Fields) × (o ≡ some (object block)) × (b ≡ some block) × (is_complete block ≡ true)
unfolding load_block
load_block-required none b h = absurd (cc)
load_block-required (some null) b h = absurd (cc)
load_block-required (some (object block)) b h =
    let (_, e1, h1) = bind_inv (require (keys_among block config_mtls_keys)) _ _ h in
    let (_, e2, h2) = bind_inv (require (is_complete block)) _ _ h1 in
    (block, refl, cc, require-inv _ _ e2)
load_block-required (some (boolean v)) b h = absurd (cc)
load_block-required (some (integer v)) b h = absurd (cc)
load_block-required (some (real v)) b h = absurd (cc)
load_block-required (some (string v)) b h = absurd (cc)
load_block-required (some (array v)) b h = absurd (cc)

block_valid-Complete :
    (entry : Fields) (u : Unit {0})
    → block_valid entry mtls ≡ some u
    → (block : Fields) × Complete entry block
unfolding block_valid load_mtls
block_valid-Complete entry u h =
    let (b, e1, h1) = bind_inv (load_block true (lookup entry (codes "mtls"))) _ _ h in
    let (block, table, same, complete) = load_block-required (lookup entry (codes "mtls")) b e1 in
    (block, record { table = table; complete = complete; oids = rw same at (require-inv _ _ h1) })

is_mtls-eq : (e : Encryption) → is_mtls e ≡ true → e ≡ mtls
unfolding is_mtls
is_mtls-eq mtls h = refl
is_mtls-eq plain h = absurd (cc)

certified : (b m : Bool) → b ≡ true → (not b || m) ≡ true → m ≡ true
certified b m e h = ground arith

pub validate_listener-Guarded :
    (entry : Fields) (u : Unit {0}) → validate_listener entry ≡ some u → Guarded entry
unfolding validate_listener
validate_listener-Guarded entry u h =
    let (_, e1, h1) = bind_inv (require (shape_valid entry)) _ _ h in
    let (k, e2, h2) = bind_inv (resolve_listener_security entry) _ _ h1 in
    let (_, e3, h3) =
      bind_inv
        (require (
          not (equals (lookup entry (codes "resolution")) (codes "certificate"))
          || is_mtls k.transport_encryption))
        _ _ h2 in
    record {
      knobs = k;
      shape = require-inv _ _ e1;
      resolved = e2;
      named_by_certificate =
          λ by. is_mtls-eq k.transport_encryption (certified _ _ by (require-inv _ _ e3));
      block = λ m. block_valid-Complete entry u (rw m at h3);
    }
