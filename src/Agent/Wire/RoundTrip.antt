-- ===== src/Agent/Wire/RoundTrip.antt =====
-- What is written in the wire format is read back, with any bytes behind it.
use mathlib.Core.List.{append_assoc}
use tartarus_nix.Base.{
  ℕ, ◌+◌, ◌<◌, ◌≡◌, sym, ap, ◌∙◌, Bytes, some, ◌++◌, length, drop, arith, drop-drop, take-append,
  drop-append,
}
use tartarus_nix.Agent.Wire.{
  SshBuffer, unpack_int, int_bytes, ssh_string, read_int, read_string, ◌>>=◌,
}

-- What the reads to come see of a buffer.
abbrev pub rest : SshBuffer → Bytes
rest b = drop b.offset b.bytes

pub unpack-int_bytes : (n : ℕ) → n < 4294967296 → unpack_int (int_bytes n) ≡ some n
unfolding unpack_int int_bytes
unpack-int_bytes n h = ap some (omega arith)

-- The buffer behind a read of `s`.
abbrev pub advance : SshBuffer → ℕ → SshBuffer
advance b n = record b { offset = b.offset + n }

pub rest-advance :
    (b : SshBuffer) (s tail : Bytes) → rest b ≡ s ++ tail → rest (advance b (length s)) ≡ tail
rest-advance b s tail e = sym (drop-drop b.offset (length s) b.bytes) ∙ rw e (drop-append s tail)

read_int_at :
    (b : SshBuffer) (n : ℕ) (tail : Bytes)
    → n < 4294967296
    → rest b ≡ int_bytes n ++ tail
    → read_int b ≡ some (n, advance b 4)
unfolding read_int int_bytes
read_int_at b n tail h e =
    rw e (ap (λ o. o >>= λ val. some (val, advance b 4)) (unpack-int_bytes n h))

rest-advance_int :
    (b : SshBuffer) (n : ℕ) (tail : Bytes)
    → rest b ≡ int_bytes n ++ tail
    → rest (advance b 4) ≡ tail
unfolding int_bytes
rest-advance_int b n tail = rest-advance b (int_bytes n) tail

read_string_at :
    (b : SshBuffer) (s tail : Bytes)
    → length s < 4294967296
    → rest b ≡ int_bytes (length s) ++ (s ++ tail)
    → (read_string b ≡ some (s, advance (advance b 4) (length s)))
      × (rest (advance (advance b 4) (length s)) ≡ tail)
unfolding read_string
read_string_at b s tail h e =
    let e' = rest-advance_int b (length s) (s ++ tail) e in
    (
      rw (read_int_at b (length s) (s ++ tail) h e)
          (rw e' (ap (λ t. some (t, advance (advance b 4) (length s))) (take-append s tail))),
      rest-advance (advance b 4) s tail e',
    )

ssh_string-inv :
    (s packed : Bytes)
    → ssh_string s ≡ some packed
    → (length s < 4294967296) × (packed ≡ int_bytes (length s) ++ s)
unfolding ssh_string
ssh_string-inv s packed p = ground arith

-- `buf.read_string()` returns the string that `_ssh_string` wrote, whatever follows it.
pub read_string-ssh_string :
    (b : SshBuffer) (s packed tail : Bytes)
    → ssh_string s ≡ some packed
    → rest b ≡ packed ++ tail
    → (read_string b ≡ some (s, advance (advance b 4) (length s)))
      × (rest (advance (advance b 4) (length s)) ≡ tail)
read_string-ssh_string b s packed tail p e =
    let (h, q) = ssh_string-inv s packed p in
    read_string_at b s tail h (e ∙ rw q (append_assoc (int_bytes (length s)) s tail))
