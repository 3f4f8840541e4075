-- ===== src/Agent/Wire.antt =====
-- The SSH wire format: `SSHBuffer`, `_ssh_string`, `struct.pack` and `AgentMsg` of
-- nix/packages/ssh-agent-proxy/ssh-agent-proxy.py. A reader is a function of the buffer; `none`
-- stands for the exception that the read raises (`struct.error`, `IndexError`).
pub mod RoundTrip
pub use tartarus_nix.Base.Options.{◌>>=◌}
use tartarus_nix.Base.{
  ℕ, ◌+◌, ◌*◌, ◌/◌, ◌%◌, Bytes, Bool, Option, none, some, [], ◌∷◌, ◌++◌, length, take, drop, ltb,
  get_elem?, if◌then◌else◌,
}

-- `unpack(">I", b)[0]`: an error unless `b` has four bytes
unfoldable pub unpack_int : Bytes → Option ℕ
unpack_int (a ∷ b ∷ c ∷ d ∷ []) = some (16777216 * a + 65536 * b + 256 * c + d)
unpack_int _ = none

-- The big-endian bytes of a 32-bit number.
unfoldable pub int_bytes : ℕ → Bytes
int_bytes n = n / 16777216 % 256 ∷ n / 65536 % 256 ∷ n / 256 % 256 ∷ n % 256 ∷ []

-- `pack(">I", n)`: an error from 2 ^ 32 on
unfoldable pub pack_int : ℕ → Option Bytes
unfolding int_bytes
pack_int n = if ltb n 4294967296 then some (int_bytes n) else none

unfoldable pub ssh_string : Bytes → Option Bytes
unfolding pack_int
ssh_string s = do head ← pack_int (length s); some (head ++ s)

pub record SshBuffer : Type 0 where
  pub bytes : Bytes
  pub offset : ℕ

unfoldable pub ssh_buffer : Bytes → SshBuffer
ssh_buffer s = record { bytes = s; offset = 0 }

unfoldable pub read_int : SshBuffer → Option (ℕ × SshBuffer)
unfolding unpack_int
read_int b = do
  val ← unpack_int (take 4 (drop b.offset b.bytes))
  some (val, record b { offset = b.offset + 4 })

-- A slice past the end is cut short, and is no error.
unfoldable pub read_string : SshBuffer → Option (Bytes × SshBuffer)
unfolding read_int
read_string b = do
  (len, b') ← read_int b
  some (take len (drop b'.offset b'.bytes), record b' { offset = b'.offset + len })

unfoldable pub read_byte : SshBuffer → Option (ℕ × SshBuffer)
read_byte b = do val ← get_elem? b.bytes b.offset; some (val, record b { offset = b.offset + 1 })

-- `int.from_bytes(s, "big")`
from_bytes : ℕ → Bytes → ℕ
from_bytes acc [] = acc
from_bytes acc (x ∷ s) = from_bytes (acc * 256 + x) s

unfoldable pub read_mpint : SshBuffer → Option (ℕ × SshBuffer)
unfolding read_string from_bytes
read_mpint b = do (s, b') ← read_string b; some (from_bytes 0 s, b')

unfoldable pub has_data : SshBuffer → Bool
has_data b = ltb b.offset (length b.bytes)

-- `AgentMsg`, by number
abbrev pub failure : ℕ
failure = 5

abbrev pub success : ℕ
success = 6

abbrev pub request_identities : ℕ
request_identities = 11

abbrev pub identities_answer : ℕ
identities_answer = 12

abbrev pub sign_request : ℕ
sign_request = 13

abbrev pub add_identity : ℕ
add_identity = 17

abbrev pub remove_identity : ℕ
remove_identity = 18

abbrev pub remove_all_identities : ℕ
remove_all_identities = 19

abbrev pub add_id_constrained : ℕ
add_id_constrained = 25

abbrev pub extension : ℕ
extension = 27
