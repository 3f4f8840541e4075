-- ===== src/Sudo/Protocol.antt =====
-- The messages of sudo-auth-proxy.py: what a peer accepts, and what the two sides build.
pub mod Compared
pub mod Built
use tartarus_nix.Base.{
  ℕ, Bool, true, false, ◌&&◌, ◌||◌, not, Option, none, some, List, [], ◌∷◌, Bytes, Text, codes,
  bytes_eq, contains, length, leb, ltb, all, is_empty, is_some, if◌then◌else◌, ◌==◌,
}
use tartarus_nix.Base.Options.{◌>>=◌, require}
use tartarus_nix.Base.Integers.{ℤ, pos, ◌+ℤ◌}
use tartarus_nix.Json.{
  Value, null, integer, string, object, Fields, no_fields, field, lookup, assign, is_string, equals,
}
use tartarus_nix.Utf8.{encode}

-- The libraries that the protocol calls.
pub record Libraries : Type 0 where
  -- `json.dumps(obj, sort_keys=True, separators=(",", ":"), ensure_ascii=False)`
  pub canonical_json : Fields → Text
  -- the same with the keys in the order of the object
  pub compact_json : Fields → Text
  -- `hashlib.sha256(data).hexdigest()`
  pub sha256_hex : Bytes → Text
  -- `base64.b64decode(nonce, validate=True)`
  pub base64_decode : Text → Option Bytes

abbrev pub protocol_version : ℤ
protocol_version = pos 1

abbrev pub max_message_bytes : ℕ
max_message_bytes = 65536

abbrev pub pending_type : Text
pending_type = codes "auth_pending"

-- A lone surrogate, which UTF-8 has no bytes for.
unfoldable pub is_surrogate : ℕ → Bool
is_surrogate c = leb 0xd800 c && leb c 0xdfff

-- `s.encode("utf-8")`
unfoldable pub encode_strict : Text → Option Bytes
unfolding is_surrogate
encode_strict s = if all (λ c. not (is_surrogate c)) s then some (encode s) else none

unfoldable pub canonical_bytes : Libraries → Fields → Option Bytes
canonical_bytes lib obj = encode_strict (lib.canonical_json obj)

unfoldable pub compute_request_digest : Libraries → Fields → Option Text
unfolding canonical_bytes
compute_request_digest lib request = do
  canonical ← canonical_bytes lib request
  some (lib.sha256_hex canonical)

-- The line that `write_message` sends, but for its end.
unfoldable pub encoded_message : Libraries → Fields → Option Bytes
encoded_message lib msg = encode_strict (lib.compact_json msg)

-- `none` is the `UnicodeEncodeError` of a text that UTF-8 does not encode.
unfoldable pub secure_equals : Option Value → Option Value → Option Bool
unfolding encode_strict
secure_equals (some (string left)) (some (string right)) = do
  l ← encode_strict left
  r ← encode_strict right
  some (bytes_eq l r)
secure_equals _ _ = some false

unfoldable pub is_version : Option Value → Bool
is_version (some (integer (pos n))) = n == 1
is_version _ = false

unfoldable pub validate_envelope : Fields → Text → Option (Unit {0})
unfolding is_version
validate_envelope message expected_type = do
  _ ← require (is_version (lookup message (codes "v")))
  require (equals (lookup message (codes "type")) expected_type)

unfoldable pub validate_nonce : Libraries → Option Value → Option (Unit {0})
validate_nonce lib (some (string (c ∷ nonce))) = do
  raw ← lib.base64_decode (c ∷ nonce)
  require (leb 16 (length raw))
validate_nonce lib _ = none

abbrev pub request_required_fields : List Text
request_required_fields =
    codes "nonce"
    ∷ codes "service"
    ∷ codes "target_user"
    ∷ codes "invoking_user"
    ∷ codes "rhost"
    ∷ codes "tty"
    ∷ codes "cwd"
    ∷ codes "client_version"
    ∷ []

unfoldable pub parse_request : Libraries → Fields → Option Fields
parse_request lib message = do
  _ ← validate_envelope message (codes "auth_request")
  _ ← require (all (λ name. is_string (lookup message name)) request_required_fields)
  _ ← validate_nonce lib (lookup message (codes "nonce"))
  _ ← require (
      not (is_some (lookup message (codes "guest_hint")))
      || is_string (lookup message (codes "guest_hint")))
  some message

-- `decision not in ("allow", "deny")`
unfoldable pub decision_of : Option Value → Option Text
decision_of (some (string s)) =
    if contains s (codes "allow" ∷ codes "deny" ∷ []) then some s else none
decision_of _ = none

unfoldable pub parse_response : Fields → Value → Option Text
parse_response message expected_nonce = do
  _ ← validate_envelope message (codes "auth_response")
  same ← secure_equals (lookup message (codes "nonce")) (some expected_nonce)
  _ ← require same
  decision_of (lookup message (codes "decision"))

is_nonempty_string : Option Value → Bool
is_nonempty_string (some (string s)) = not (is_empty s)
is_nonempty_string _ = false

unfoldable pub parse_pending : Fields → Option Value → Option (Unit {0})
unfolding is_nonempty_string
parse_pending message expected_nonce = do
  _ ← validate_envelope message pending_type
  _ ← require (is_nonempty_string (lookup message (codes "nonce")))
  same ← secure_equals (lookup message (codes "nonce")) expected_nonce
  require same

-- The metadata that the client collects, and its nonce.
pub record Metadata : Type 0 where
  pub service : Text
  pub target_user : Text
  pub invoking_user : Text
  pub rhost : Text
  pub tty : Text
  pub cwd : Text
  pub client_version : Text
  pub guest_hint : Text

unfoldable pub build_request : Text → Metadata → Fields
build_request nonce m = field (codes "v") (integer protocol_version) (
    field (codes "type") (string (codes "auth_request")) (
      field (codes "nonce") (string nonce) (
        field (codes "service") (string m.service) (
          field (codes "target_user") (string m.target_user) (
            field (codes "invoking_user") (string m.invoking_user) (
              field (codes "rhost") (string m.rhost) (
                field (codes "tty") (string m.tty) (
                  field (codes "cwd") (string m.cwd) (
                    field (codes "client_version") (string m.client_version)
                      (field (codes "guest_hint") (string m.guest_hint) no_fields))))))))))

-- The response with every part that the server gives it: `now` is `int(time.time())`.
unfoldable pub response_fields : Value → Text → Text → ℤ → Text → ℕ → Fields
response_fields nonce decision digest response_ttl approver now =
    field (codes "v") (integer protocol_version) (
      field (codes "type") (string (codes "auth_response")) (
        field (codes "nonce") nonce (
          field (codes "decision") (string decision) (
            field (codes "request_digest") (string digest) (
              field (codes "issued_at") (integer (pos now)) (
                field (codes "expires_at") (integer (pos now +ℤ response_ttl)) (
                  if is_empty approver
                  then no_fields
                  else field (codes "approver") (string approver) no_fields)))))))

unfoldable pub build_response : Libraries → Value → Text → Fields → ℤ → Text → ℕ → Option Fields
unfolding response_fields
build_response lib nonce decision request response_ttl approver now = do
  digest ← compute_request_digest lib request
  some (response_fields nonce decision digest response_ttl approver now)

unfoldable pub build_pending : Value → Fields
build_pending nonce =
    field (codes "v") (integer protocol_version)
      (field (codes "type") (string pending_type) (field (codes "nonce") nonce no_fields))
