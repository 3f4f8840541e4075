-- ===== src/Agent/SessionBind.antt =====
-- `_split_hostkey`, `_verify_key_signature`, `_verify_bind_sig`, `_handle_session_bind` and
-- `_destination_allowed` of ssh-agent-proxy.py.
use tartarus_nix.Base.{
  Bool, false, Option, none, some, List, [], ◌∷◌, Bytes, Text, Dict, codes, length, drop, bytes_eq,
  starts_with, contains, get, put, ◌-◌, ltb, if◌then◌else◌,
}
use tartarus_nix.Base.Effects
use tartarus_nix.Base.Effects.{modify}
use tartarus_nix.Utf8.{decode}
use tartarus_nix.Agent.Wire.{
  SshBuffer, ssh_buffer, read_string, read_byte, read_int, read_mpint, success, ◌>>=◌,
}
use tartarus_nix.Agent.State.{
  World, Handle, Hash, sha1, sha256, sha384, sha512, Curve, nistp256, nistp384, nistp521, send,
  send_failure,
}

-- `s.endswith(suffix)`
ends_with : Text → Text → Bool
ends_with suffix s =
    if ltb (length s) (length suffix)
    then false
    else bytes_eq (drop (length s - length suffix) s) suffix

abbrev cert_suffix : Text
cert_suffix = codes "-cert-v01@openssh.com"

-- The reads of a certificate behind its type, in the order of the code.
split_cert : SshBuffer → Option (Bytes × Bytes)
split_cert b = do
  (nonce, b1) ← read_string b
  (inner_key, b2) ← read_string b1
  (serial, b3) ← read_mpint b2
  (cert_type, b4) ← read_int b3
  (key_id, b5) ← read_string b4
  (valid_principals, b6) ← read_string b5
  (valid_after, b7) ← read_mpint b6
  (valid_before, b8) ← read_mpint b7
  (critical_options, b9) ← read_string b8
  (extensions, b10) ← read_string b9
  (reserved, b11) ← read_string b10
  (sig_key, _) ← read_string b11
  some (inner_key, sig_key)

-- The blob that the signature is checked with, and the blob that the destination is trusted by;
-- `none` is the source's `(None, None)`.
unfoldable pub split_hostkey : Bytes → Option (Bytes × Bytes)
unfolding ends_with split_cert
split_hostkey hostkey = do
  (name, b) ← read_string (ssh_buffer hostkey)
  if ends_with cert_suffix (decode name) then split_cert b else some (hostkey, hostkey)

rsa_hash : Text → Option Hash
rsa_hash sigtype =
    if bytes_eq sigtype (codes "ssh-rsa")
    then some sha1
    else if bytes_eq sigtype (codes "rsa-sha2-256")
    then some sha256
    else if bytes_eq sigtype (codes "rsa-sha2-512")
    then some sha512
    else none

ecdsa_curve : Text → Option (Curve × Hash)
ecdsa_curve name =
    if bytes_eq name (codes "nistp256")
    then some (nistp256, sha256)
    else if bytes_eq name (codes "nistp384")
    then some (nistp384, sha384)
    else if bytes_eq name (codes "nistp521")
    then some (nistp521, sha512)
    else none

verify_ed : World → SshBuffer → SshBuffer → Bytes → Option Bool
verify_ed w kb sb session_id = do
  (pub_key, _) ← read_string kb
  (sig, _) ← read_string sb
  some (w.verify_ed25519 pub_key sig session_id)

verify_rsa : World → SshBuffer → Text → SshBuffer → Bytes → Option Bool
unfolding rsa_hash
verify_rsa w kb sigtype sb session_id = do
  (e, kb1) ← read_mpint kb
  (n, _) ← read_mpint kb1
  hash ← rsa_hash sigtype
  (sig, _) ← read_string sb
  some (w.verify_rsa e n hash sig session_id)

verify_ec : World → SshBuffer → SshBuffer → Bytes → Option Bool
unfolding ecdsa_curve
verify_ec w kb sb session_id = do
  (curve_name, kb1) ← read_string kb
  (point, _) ← read_string kb1
  (curve, hash) ← ecdsa_curve (decode curve_name)
  (sig, _) ← read_string sb
  (r, inner) ← read_mpint (ssh_buffer sig)
  (s, _) ← read_mpint inner
  some (w.verify_ecdsa curve hash point r s session_id)

verify_typed : World → Text → Text → SshBuffer → SshBuffer → Bytes → Option Bool
unfolding verify_ed verify_rsa verify_ec
verify_typed w keytype sigtype kb sb session_id =
    if bytes_eq keytype (codes "ssh-ed25519")
    then verify_ed w kb sb session_id
    else if bytes_eq keytype (codes "ssh-rsa")
    then verify_rsa w kb sigtype sb session_id
    else if starts_with (codes "ecdsa-sha2-") keytype
    then verify_ec w kb sb session_id
    else some false

abbrev or_false : Option Bool → Bool
or_false none = false
or_false (some b) = b

-- Any exception counts as a signature that does not verify.
unfoldable pub verify_key_signature : World → Bytes → Bytes → Bytes → Bool
unfolding verify_typed
verify_key_signature w pubkey_blob signature_blob session_id = or_false (do
  (keytype, kb) ← read_string (ssh_buffer pubkey_blob)
  (sigtype, sb) ← read_string (ssh_buffer signature_blob)
  verify_typed w (decode keytype) (decode sigtype) kb sb session_id)

unfoldable pub verify_bind_sig : World → Bytes → Bytes → Bytes → Option Bytes
verify_bind_sig w hostkey session_id signature = do
  (key_blob, trust_blob) ← split_hostkey hostkey
  if verify_key_signature w key_blob signature session_id then some trust_blob else none

-- The fields of a session-bind message; `none` is an exception of a read.
unfoldable pub bind_fields : SshBuffer → Option (Bytes × Bytes × Bytes)
bind_fields b = do
  (hostkey, b1) ← read_string b
  (session_id, b2) ← read_string b1
  (signature, b3) ← read_string b2
  (is_forwarding, _) ← read_byte b3
  some (hostkey, session_id, signature)

unfoldable pub record_bind : Bytes → Option Bytes → Handle (Unit {0})
record_bind session_id none c = send_failure c
record_bind session_id (some trust) c =
    send (success ∷ [])
      (record c { bound_destinations = put c.bound_destinations session_id trust })

unfoldable pub bind_with : World → Option (Bytes × Bytes × Bytes) → Handle (Unit {0})
unfolding record_bind
bind_with w none = send_failure
bind_with w (some (hostkey, session_id, signature)) =
    record_bind session_id (verify_bind_sig w hostkey session_id signature)

unfoldable pub handle_session_bind : World → SshBuffer → Handle (Unit {0})
unfolding bind_with
handle_session_bind w b = bind_with w (bind_fields b)

-- `_handle_extension`
unfoldable pub extension_with : World → Option (Bytes × SshBuffer) → Handle (Unit {0})
unfolding handle_session_bind
extension_with w none = send_failure
extension_with w (some (name, b)) =
    if bytes_eq (decode name) (codes "session-bind@openssh.com")
    then handle_session_bind w b
    else send_failure

unfoldable pub handle_extension : World → Bytes → Handle (Unit {0})
unfolding extension_with
handle_extension w raw_msg =
    Effects.◌>>=◌ (Effects.lift (read_byte (ssh_buffer raw_msg)))
      λ r. extension_with w (read_string r.1)

unfoldable pub destination_allowed : Dict Bytes → Bytes → List Bytes → Bool
destination_allowed bound to_sign allowed_hosts = or_false (do
  (session_id, _) ← read_string (ssh_buffer to_sign)
  dest ← get bound session_id
  some (contains dest allowed_hosts))
