-- ===== src/Agent/Purpose.antt =====
-- `_determine_purpose` of ssh-agent-proxy.py, and the text that dialogs may show.
use tartarus_nix.Base.{
  ℕ, Option, none, some, [], ◌∷◌, Bytes, Text, codes, take, drop, bytes_eq, starts_with, ◌==◌,
  if◌then◌else◌,
}
use tartarus_nix.Utf8.{decode}
use tartarus_nix.Agent.Wire.{ssh_buffer, read_string, read_byte, has_data, SshBuffer, ◌>>=◌}
use tartarus_nix.Agent.State.{World, Purpose, git_signing, server_auth, unknown, data_sign}

keep_printable : World → Text → Text
keep_printable w [] = []
keep_printable w (c ∷ t) = let rest = keep_printable w t in if w.printable c then c ∷ rest else rest

-- `"".join(c for c in t if c.isprintable())[:n]`
unfoldable pub shown : World → ℕ → Text → Text
unfolding keep_printable
shown w n t = take n (keep_printable w t)

abbrev pub userauth_request : ℕ
userauth_request = 50

abbrev magic : Bytes
magic = codes "SSHSIG"

signature_purpose : World → Bytes → Option Purpose
unfolding shown
signature_purpose w to_sign = do
  (namespace, _) ← read_string (ssh_buffer (drop 6 to_sign))
  let name = decode namespace
  some (if bytes_eq name (codes "git") then git_signing else data_sign (shown w 48 name))

first_byte_purpose : SshBuffer → Option Purpose
first_byte_purpose b =
    if has_data b
    then (do (t, _) ← read_byte b; some (if t == userauth_request then server_auth else unknown))
    else some unknown

auth_purpose : Bytes → Option Purpose
unfolding first_byte_purpose
auth_purpose to_sign = do (_, b) ← read_string (ssh_buffer to_sign); first_byte_purpose b

abbrev or_unknown : Option Purpose → Purpose
or_unknown none = unknown
or_unknown (some p) = p

unfoldable pub determine_purpose : World → Bytes → Purpose
unfolding signature_purpose auth_purpose
determine_purpose w to_sign =
    or_unknown
      (if starts_with magic to_sign then signature_purpose w to_sign else auth_purpose to_sign)
