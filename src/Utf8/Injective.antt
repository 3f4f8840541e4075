-- ===== src/Utf8/Injective.antt =====
-- `str.encode()` tells texts apart.
use tartarus_nix.Base.{ℕ, ◌≡◌, refl, sym, [], ◌∷◌, ◌++◌, Bytes, Text, arith}
use tartarus_nix.Utf8.{encode_char, encode}

char-inj : (c d : ℕ) (s t : Bytes) → encode_char c ++ s ≡ encode_char d ++ t → (c ≡ d) × (s ≡ t)
unfolding encode_char
char-inj c d s t e = (ground arith, ground arith)

char-nonempty : (c : ℕ) (s : Bytes) → [] ≡ encode_char c ++ s → ⊥
unfolding encode_char
char-nonempty c s e = ground arith

pub encode-inj : (s t : Text) → encode s ≡ encode t → s ≡ t
unfolding encode
encode-inj [] [] e = refl
encode-inj [] (d ∷ t) e = absurd (char-nonempty d (encode t) e)
encode-inj (c ∷ s) [] e = absurd (char-nonempty c (encode s) (sym e))
encode-inj (c ∷ s) (d ∷ t) e =
    let (same, rest) = char-inj c d (encode s) (encode t) e in let tails = encode-inj s t rest in cc
