-- ===== src/Agent/Offers.antt =====
-- Which entry of a key a connection may use: one of the configuration, or one that an agent of the
-- configuration has listed, by its own answer. The reading of an answer is that of
-- `_handle_identities`, the entry that of `_maybe_autoregister`, of ssh-agent-proxy.py.
use tartarus_nix.Base.{
  ℕ, suc, ◌≡◌, ◌⊎◌, inl, inr, true, none, some, List, [], ◌∷◌, Bytes, Text, Dict, get, contains,
  bytes_eq, bytes_eq_iff, Bool-cases,
}
use tartarus_nix.Utf8.{decode}
use tartarus_nix.Agent.Wire.{
  SshBuffer, ssh_buffer, read_string, read_byte, read_int, identities_answer,
}
use tartarus_nix.Agent.Rules.{KeyConfig}
use tartarus_nix.Agent.State.{World, Config, Event, sent, asked, prompted, notified}
use tartarus_nix.Agent.Identities.{text_or}

-- The key and its comment are among so many that stand in the buffer one after another.
pub data Lists : ℕ → SshBuffer → Bytes → Bytes → Type 0 where
  first :
      {count : ℕ} {b b1 b2 : SshBuffer} {blob comment : Bytes}
      → read_string b ≡ some (blob, b1)
      → read_string b1 ≡ some (comment, b2)
      → Lists (suc count) b blob comment
  later :
      {count : ℕ} {b b1 b2 : SshBuffer} {other note blob comment : Bytes}
      → read_string b ≡ some (other, b1)
      → read_string b1 ≡ some (note, b2)
      → Lists count b2 blob comment
      → Lists (suc count) b blob comment

abbrev pub IsIdentities : Bytes → Type 0
IsIdentities [] = ⊥
IsIdentities (t ∷ body) = t ≡ identities_answer

-- An answer that lists the key under that comment.
pub record Offer (answer blob comment : Bytes) : Type 0 where
  pub typed : IsIdentities answer
  pub count : ℕ
  pub header : ℕ × SshBuffer
  pub body : SshBuffer
  pub opens : read_byte (ssh_buffer answer) ≡ some header
  pub counts : read_int header.1 ≡ some (count, body)
  pub lists : Lists count body blob comment

-- The agent has given the answer.
abbrev pub Heard : Text → Bytes → List Event → Type 0
Heard path answer [] = ⊥
Heard path answer (asked p msg given ∷ before) =
    ((p ≡ path) × (given ≡ some answer)) ⊎ Heard path answer before
Heard path answer (_ ∷ before) = Heard path answer before

-- An entry of the configuration's keys.
abbrev pub Entry : Bytes → KeyConfig → Dict KeyConfig → Type 0
Entry blob key [] = ⊥
Entry blob key ((b, k) ∷ keys) = ((b ≡ blob) × (k ≡ key)) ⊎ Entry blob key keys

-- The entry of a key that the configuration does not name, as an agent has offered it. The agent is
-- one that the configuration names for all keys.
pub record Discovered (w : World) (cfg : Config) (blob : Bytes) (key : KeyConfig)
    (before : List Event) : Type 0 where
  pub unnamed : get cfg.keys blob ≡ none
  pub path : Text
  pub upstream : contains path cfg.upstream_order ≡ true
  pub answer : Bytes
  pub heard : Heard path answer before
  pub comment : Bytes
  pub offer : Offer answer blob comment
  pub same_blob : key.public_blob ≡ blob
  pub id : key.id ≡ text_or (decode comment) (w.fingerprint blob)
  pub fingerprint : key.fingerprint ≡ w.fingerprint blob

abbrev pub Known : World → Config → Bytes → KeyConfig → List Event → Type 0
Known w cfg blob key before = Entry blob key cfg.keys ⊎ Discovered w cfg blob key before

Heard-later :
    (path : Text) (answer : Bytes) (e : Event) (t : List Event)
    → Heard path answer t
    → Heard path answer (e ∷ t)
Heard-later path answer (sent m) t h = h
Heard-later path answer (asked p m given) t h = inr h
Heard-later path answer (prompted p said) t h = h
Heard-later path answer (notified c n) t h = h

-- What is known stays so, whatever happens next.
pub Known-later :
    (w : World) (cfg : Config) (blob : Bytes) (key : KeyConfig) (e : Event) (t : List Event)
    → Known w cfg blob key t
    → Known w cfg blob key (e ∷ t)
Known-later w cfg blob key e t (inl entry) = inl entry
Known-later w cfg blob key e t (inr d) = inr (record {
  unnamed = d.unnamed;
  path = d.path;
  upstream = d.upstream;
  answer = d.answer;
  heard = Heard-later d.path d.answer e t d.heard;
  comment = d.comment;
  offer = d.offer;
  same_blob = d.same_blob;
  id = d.id;
  fingerprint = d.fingerprint;
})

pub get-Entry :
    (keys : Dict KeyConfig) (blob : Bytes) (k : KeyConfig)
    → get keys blob ≡ some k
    → Entry blob k keys
unfolding get
get-Entry [] blob k e = absurd (cc)
get-Entry ((b, j) ∷ keys) blob k e = elim (Bool-cases (bytes_eq b blob)) [
  | inl same ↦ let found : some j ≡ some k = rw same at e in inl ((bytes_eq_iff b blob).0 same, cc)
  | inr other ↦ inr (get-Entry keys blob k (rw other at e))
]

pub key-inj : {k j : KeyConfig} → some k ≡ some j → k ≡ j
key-inj h = cc
