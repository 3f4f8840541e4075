-- ===== src/Sudo/Protocol/Compared.antt =====
-- What the comparisons of sudo-auth-proxy.py find equal is equal.
use tartarus_nix.Base.{
  ==_iff, ◌≡◌, refl, sym, ap, ◌∙◌, true, Option, some, Bytes, Text, codes, bytes_eq, bytes_eq_iff,
  arith,
}
use tartarus_nix.Base.Options.{bind_inv, require, require-inv}
use tartarus_nix.Base.Integers.{pos}
use tartarus_nix.Utf8.{encode}
use tartarus_nix.Utf8.Injective.{encode-inj}
use tartarus_nix.Json.{Value, string, integer, Fields, lookup, equals}
use tartarus_nix.Sudo.Protocol.{encode_strict, secure_equals, is_version, validate_envelope}

-- Texts that the constant-time comparison takes for equal are.
encode_strict-encode : (s : Text) (b : Bytes) → encode_strict s ≡ some b → encode s ≡ b
unfolding encode_strict
encode_strict-encode s b h = ground arith

encode_strict-inj :
    (s t : Text) (b c : Bytes) → encode_strict s ≡ some b → encode_strict t ≡ some c → b ≡ c → s ≡ t
encode_strict-inj s t b c es et same =
    encode-inj s t (encode_strict-encode s b es ∙ same ∙ sym (encode_strict-encode t c et))

secure_equals-strings :
    (s t : Text) → secure_equals (some (string s)) (some (string t)) ≡ some true → s ≡ t
unfolding secure_equals
secure_equals-strings s t h =
    let (b, es, h1) = bind_inv (encode_strict s) _ true h in
    let (c, et, h2) = bind_inv (encode_strict t) _ true h1 in
    let same : bytes_eq b c ≡ true = cc in
    encode_strict-inj s t b c es et ((bytes_eq_iff b c).0 same)

pub secure_equals-inv :
    (left right : Option Value)
    → secure_equals left right ≡ some true
    → (t : Text) × (left ≡ some (string t)) × (right ≡ some (string t))
unfolding secure_equals
secure_equals-inv (some (string s)) (some (string t)) h =
    (s, refl, ap (λ x. some (string x)) (sym (secure_equals-strings s t h)))
secure_equals-inv left right h = absurd (cc)

is_version-inv : (v : Option Value) → is_version v ≡ true → v ≡ some (integer (pos 1))
unfolding is_version
is_version-inv (some (integer (pos n))) h = ap (λ k. some (integer (pos k))) ((==_iff n 1).0 h)
is_version-inv v h = absurd (cc)

equals-inv : (v : Option Value) (t : Text) → equals v t ≡ true → v ≡ some (string t)
unfolding equals
equals-inv (some (string s)) t h = ap (λ k. some (string k)) ((bytes_eq_iff s t).0 h)
equals-inv v t h = absurd (cc)

pub validate_envelope-inv :
    (message : Fields) (expected : Text)
    → validate_envelope message expected ≡ some tt
    → (lookup message (codes "v") ≡ some (integer (pos 1)))
      × (lookup message (codes "type") ≡ some (string expected))
unfolding validate_envelope
validate_envelope-inv message expected h =
    let (_, versioned, typed) =
      bind_inv (require (is_version (lookup message (codes "v")))) _ tt h in
    (
      is_version-inv _ (require-inv _ _ versioned),
      equals-inv (lookup message (codes "type")) expected (require-inv _ _ typed),
    )
