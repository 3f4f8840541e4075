-- ===== src/Fnmatch/Laws.antt =====
-- The relation that a compiled pattern decides, and the patterns that the rules single out.
use tartarus_nix.Base.{
  ℕ, zero, suc, ◌≡◌, refl, true, false, [], ◌∷◌, Text, codes, length, arith, bytes_eq, ◌≤◌,
}
use tartarus_nix.Fnmatch.{star, compile, accepts, fnmatchcase, has_wildcard}

star_all : (s : Text) → accepts (star ∷ []) s ≡ true
unfolding accepts
star_all [] = refl
star_all (c ∷ s) = ground (arith, star_all s)

-- The pattern `*` fits every name.
pub fnmatchcase-star : (s : Text) → fnmatchcase s (codes "*") ≡ true
unfolding fnmatchcase
fnmatchcase-star s = star_all s

accepts-plain :
    (fuel : ℕ) (name p : Text)
    → length p ≤ fuel
    → has_wildcard p ≡ false
    → accepts (compile fuel p) name ≡ bytes_eq name p
unfolding accepts compile has_wildcard bytes_eq
accepts-plain zero [] [] h w = refl
accepts-plain zero (c ∷ s) [] h w = refl
accepts-plain zero s (x ∷ p) h w = absurd (omega arith)
accepts-plain (suc fuel) [] [] h w = refl
accepts-plain (suc fuel) (c ∷ s) [] h w = refl
accepts-plain (suc fuel) [] (x ∷ p) h w = ground arith
accepts-plain (suc fuel) (c ∷ s) (x ∷ p) h w = ground (arith, accepts-plain fuel s p (omega arith))

-- A pattern with none of `*?[]` fits the name that it spells, and no other.
pub fnmatchcase-plain :
    (name p : Text) → has_wildcard p ≡ false → fnmatchcase name p ≡ bytes_eq name p
unfolding fnmatchcase
fnmatchcase-plain name p w = accepts-plain (length p) name p (omega arith) w
