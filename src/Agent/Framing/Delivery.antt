-- ===== src/Agent/Framing/Delivery.antt =====
-- Framing delivers a message however the stream is cut into chunks.
use mathlib.Core.List.{append_assoc, append-nil}
use tartarus_nix.Base.{
  ℕ, zero, suc, ◌-◌, ◌≤◌, ◌<◌, ◌≡◌, refl, sym, ap, ◌∙◌, Bytes, none, some, [], ◌∷◌, ◌++◌, length,
  take, drop, arith, length-append, inl, inr, ◌⊎◌,
}
use tartarus_nix.Agent.Wire.RoundTrip.{unpack-int_bytes}
use tartarus_nix.Agent.Wire.{int_bytes, pack_int}
use tartarus_nix.Agent.Framing.{
  Socket, recv, recv_loop, recv_exactly, recv_body, recv_msg, frame, max_agent_msg_len,
}

-- The bytes to come.
abbrev pub flat : Socket → Bytes
flat [] = []
flat (chunk ∷ later) = chunk ++ flat later

take-drop : (n : ℕ) (xs : Bytes) → xs ≡ take n xs ++ drop n xs
take-drop zero xs = refl
take-drop (suc n) [] = refl
take-drop (suc n) (x ∷ xs) = ap (λ l. x ∷ l) (take-drop n xs)

length-take_le : (n : ℕ) (xs : Bytes) → length (take n xs) ≤ n
length-take_le zero xs = omega arith
length-take_le (suc n) [] = omega arith
length-take_le (suc n) (x ∷ xs) = omega (arith, length-take_le n xs)

List-cases : (xs : Bytes) → (xs ≡ []) ⊎ ((x : ℕ) × (more : Bytes) × (xs ≡ x ∷ more))
List-cases [] = inl refl
List-cases (x ∷ more) = inr (x, more, refl)

-- A `recv` hands over the next bytes, at most `n`, and none only at the end.
record Receives (sock : Socket) (n : ℕ) : Type 0 where
  next : flat sock ≡ (recv sock n).0 ++ flat (recv sock n).1
  bounded : length (recv sock n).0 ≤ n
  at_end : (recv sock n).0 ≡ [] → flat sock ≡ []

recv-Receives : (sock : Socket) (n : ℕ) → 0 < n → Receives sock n
unfolding recv
recv-Receives [] n pos = record { next = refl; bounded = omega arith; at_end = λ e. refl }
recv-Receives ([] ∷ later) n pos =
    let h = recv-Receives later n pos in
    record { next = h.next; bounded = h.bounded; at_end = h.at_end }
recv-Receives ((x ∷ chunk) ∷ later) zero pos = absurd (omega arith)
recv-Receives ((x ∷ chunk) ∷ later) (suc n) pos = record {
  next = ground (arith, take-drop n chunk, append_assoc (take n chunk) (drop n chunk) (flat later));
  bounded = ground (arith, length-take_le n chunk);
  at_end = ground arith;
}

split_prefix :
    (c r body tail : Bytes)
    → c ++ r ≡ body ++ tail
    → length c ≤ length body
    → (body ≡ c ++ drop (length c) body) × (r ≡ drop (length c) body ++ tail)
split_prefix [] r body tail e h = (refl, e)
split_prefix (x ∷ c) r [] tail e h = absurd (omega arith)
split_prefix (x ∷ c) r (y ∷ body) tail e h = ground (arith, split_prefix c r body tail)

-- Enough has been sent: the loop returns it, and leaves what follows.
recv_loop_complete :
    (fuel : ℕ) (sock : Socket) (remaining : ℕ) (chunks body tail : Bytes)
    → remaining < fuel
    → remaining ≡ length body
    → flat sock ≡ body ++ tail
    → ((recv_loop fuel sock remaining chunks).0 ≡ some (chunks ++ body))
      × (flat (recv_loop fuel sock remaining chunks).1 ≡ tail)
unfolding recv_loop
recv_loop_complete zero sock remaining chunks body tail lt len e = absurd (omega arith)
recv_loop_complete (suc fuel) sock zero chunks [] tail lt len e =
    (ap some (sym (append-nil chunks)), e)
recv_loop_complete (suc fuel) sock zero chunks (x ∷ body) tail lt len e = absurd (omega arith)
recv_loop_complete (suc fuel) sock (suc n) chunks body tail lt len e =
    let h = recv-Receives sock (suc n) (omega arith) in
    elim (List-cases (recv sock (suc n)).0) [
      | inl p ↦ absurd (omega (arith, ap length e, ap length (h.at_end p), length-append body tail))
      | inr (x, more, p) ↦
          let cut =
            split_prefix (x ∷ more) (flat (recv sock (suc n)).1) body tail
              (sym (rw p at h.next) ∙ e) (omega (arith, h.bounded, ap length p)) in
          ground (
            arith,
            p,
            recv_loop_complete fuel (recv sock (suc n)).1 (suc n - length (x ∷ more))
                (chunks ++ (x ∷ more)) (drop (length (x ∷ more)) body) tail (omega arith)
                (omega (
                  arith,
                  ap length cut.0,
                  length-append (x ∷ more) (drop (length (x ∷ more)) body),
                ))
                cut.1,
            cut.0,
            append_assoc chunks (x ∷ more) (drop (length (x ∷ more)) body),
          )
    ]

-- The stream ends early: the loop returns `None`.
recv_loop-short :
    (fuel : ℕ) (sock : Socket) (remaining : ℕ) (chunks : Bytes)
    → length (flat sock) < remaining
    → (recv_loop fuel sock remaining chunks).0 ≡ none
unfolding recv_loop
recv_loop-short zero sock remaining chunks lt = refl
recv_loop-short (suc fuel) sock zero chunks lt = absurd (omega arith)
recv_loop-short (suc fuel) sock (suc n) chunks lt =
    let h = recv-Receives sock (suc n) (omega arith) in
    elim (List-cases (recv sock (suc n)).0) [
      | inl p ↦ ground (arith, p)
      | inr (x, more, p) ↦ ground (
        arith,
        p,
        recv_loop-short fuel (recv sock (suc n)).1 (suc n - length (x ∷ more))
            (chunks ++ (x ∷ more))
            (omega (
              arith,
              ap length h.next,
              ap length p,
              length-append (recv sock (suc n)).0 (flat (recv sock (suc n)).1),
            )),
      )
    ]

recv_exactly_complete :
    (sock : Socket) (body tail : Bytes)
    → flat sock ≡ body ++ tail
    → ((recv_exactly sock (length body)).0 ≡ some body)
      × (flat (recv_exactly sock (length body)).1 ≡ tail)
unfolding recv_exactly
recv_exactly_complete sock body tail e =
    recv_loop_complete (suc (length body)) sock (length body) [] body tail (omega arith) refl e

recv_body_complete :
    (sock : Socket) (payload tail : Bytes)
    → length payload ≤ max_agent_msg_len
    → flat sock ≡ payload ++ tail
    → ((recv_body (length payload) sock).0 ≡ some payload)
      × (flat (recv_body (length payload) sock).1 ≡ tail)
unfolding recv_body
recv_body_complete sock [] tail h e = (refl, e)
recv_body_complete sock (x ∷ payload) tail h e =
    ground (arith, recv_exactly_complete sock (x ∷ payload) tail e)

frame-inv :
    (payload sent : Bytes)
    → frame payload ≡ some sent
    → (length payload < 4294967296) × (sent ≡ int_bytes (length payload) ++ payload)
unfolding frame pack_int
frame-inv payload sent f = ground arith

recv_head :
    (sock : Socket) (n : ℕ) (tail : Bytes)
    → flat sock ≡ int_bytes n ++ tail
    → ((recv_exactly sock 4).0 ≡ some (int_bytes n)) × (flat (recv_exactly sock 4).1 ≡ tail)
unfolding int_bytes
recv_head sock n tail e = recv_exactly_complete sock (int_bytes n) tail e

-- A frame of at most `MAX_AGENT_MSG_LEN` bytes is received as it was sent, whatever the chunks, and
-- what was sent after it stays on the socket.
pub recv_msg-frame :
    (sock : Socket) (payload sent tail : Bytes)
    → length payload ≤ max_agent_msg_len
    → frame payload ≡ some sent
    → flat sock ≡ sent ++ tail
    → ((recv_msg sock).0 ≡ some payload) × (flat (recv_msg sock).1 ≡ tail)
unfolding recv_msg frame
recv_msg-frame sock payload sent tail bound f e =
    let (small, q) = frame-inv payload sent f in
    let head =
      recv_head sock (length payload) (payload ++ tail)
        (e ∙ rw q (append_assoc (int_bytes (length payload)) payload tail)) in
    ground (
      arith,
      head.0,
      unpack-int_bytes (length payload) small,
      recv_body_complete (recv_exactly sock 4).1 payload tail bound head.1,
    )

-- A longer frame is refused once its length has been read.
pub recv_msg_oversized :
    (sock : Socket) (payload sent tail : Bytes)
    → max_agent_msg_len < length payload
    → frame payload ≡ some sent
    → flat sock ≡ sent ++ tail
    → ((recv_msg sock).0 ≡ none) × (flat (recv_msg sock).1 ≡ payload ++ tail)
unfolding recv_msg frame
recv_msg_oversized sock payload sent tail bound f e =
    let (small, q) = frame-inv payload sent f in
    let head =
      recv_head sock (length payload) (payload ++ tail)
        (e ∙ rw q (append_assoc (int_bytes (length payload)) payload tail)) in
    ground (arith, head.0, head.1, unpack-int_bytes (length payload) small)
