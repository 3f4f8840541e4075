-- ===== src/Agent/Framing.antt =====
-- `AgentIO._recv_exactly`, `_recv_msg` and `_send_msg` of ssh-agent-proxy.py. A socket is the list
-- of the chunks that the peer's bytes arrive in; the empty list is the end of the stream.
pub mod Delivery
use tartarus_nix.Base.{
  ℕ, suc, zero, ◌-◌, Bytes, Bool, true, false, Option, none, some, List, [], ◌∷◌, ◌++◌, length,
  take, drop, ltb, leb, ◌==◌, if◌then◌else◌,
}
use tartarus_nix.Agent.Wire.{unpack_int, pack_int, ◌>>=◌}

abbrev pub max_agent_msg_len : ℕ
max_agent_msg_len = 262144

abbrev pub Socket : Type 0
Socket = List Bytes

-- `sock.recv(n)`: at most `n` bytes of what has arrived, and none only at the end of the stream
unfoldable pub recv : Socket → ℕ → Bytes × Socket
recv [] n = ([], [])
recv ([] ∷ later) n = recv later n
recv ((x ∷ chunk) ∷ later) n =
    if leb (suc (length chunk)) n
    then (x ∷ chunk, later)
    else (take n (x ∷ chunk), drop n (x ∷ chunk) ∷ later)

-- The loop of `_recv_exactly`, `chunks` joined as they come. Each round receives a byte at least,
-- so a fuel of one more than `remaining` is enough.
recv_loop : ℕ → Socket → ℕ → Bytes → Option Bytes × Socket
unfolding recv
recv_loop zero sock remaining chunks = (none, sock)
recv_loop (suc fuel) sock remaining chunks = elim (remaining == 0) [
  | true ↦ (some chunks, sock)
  | false ↦
      let (chunk, sock') = recv sock remaining in
      elim chunk [
        | [] ↦ (none, sock')
        | x ∷ more ↦ recv_loop fuel sock' (remaining - length (x ∷ more)) (chunks ++ (x ∷ more))
      ]
]

unfoldable pub recv_exactly : Socket → ℕ → Option Bytes × Socket
unfolding recv_loop
recv_exactly sock n = recv_loop (suc n) sock n []

recv_body : ℕ → Socket → Option Bytes × Socket
recv_body length sock =
    if length == 0
    then (some [], sock)
    else if ltb max_agent_msg_len length
    then (none, sock)
    else recv_exactly sock length

-- `none` also stands for an exception, which the source turns into `None`.
unfoldable pub recv_msg : Socket → Option Bytes × Socket
unfolding recv_body
recv_msg sock =
    let (rawlen, sock') = recv_exactly sock 4 in
    elim (rawlen >>= unpack_int) [ none ↦ (none, sock') | some length ↦ recv_body length sock' ]

-- What `_send_msg` writes; `none` is the exception of `pack`.
unfoldable pub frame : Bytes → Option Bytes
unfolding pack_int
frame payload = do head ← pack_int (length payload); some (head ++ payload)
