-- ===== src/Fnmatch/Relation.antt =====
-- What a compiled pattern means: a relation on the tokens and the name, which `accepts` decides.
use tartarus_nix.Base.{ℕ, ◌≡◌, refl, ◌↔◌, true, List, [], ◌∷◌, Text, arith, inl, inr, or-eq-true}
use tartarus_nix.Fnmatch.{Token, star, one, lit, class, fits, accepts}

pub data Fits : List Token → Text → Type 0 where
  nothing : Fits [] []
  -- a `*` takes no more characters, or one more
  skip : {p : List Token} {s : Text} → Fits p s → Fits (star ∷ p) s
  eat : {p : List Token} {c : ℕ} {s : Text} → Fits (star ∷ p) s → Fits (star ∷ p) (c ∷ s)
  take :
      {t : Token} {p : List Token} {c : ℕ} {s : Text}
      → fits t c ≡ true
      → Fits p s
      → Fits (t ∷ p) (c ∷ s)

accepts-sound : (p : List Token) (s : Text) → accepts p s ≡ true → Fits p s
unfolding accepts
accepts-sound [] [] h = nothing
accepts-sound [] (c ∷ s) h = absurd (cc)
accepts-sound (star ∷ p) [] h = skip (accepts-sound p [] h)
accepts-sound (star ∷ p) (c ∷ s) h = elim (or-eq-true h) [
  | inl e ↦ skip (accepts-sound p (c ∷ s) e)
  | inr e ↦ eat (accepts-sound (star ∷ p) s e)
]
accepts-sound (t ∷ p) [] h = absurd (cc)
accepts-sound (t ∷ p) (c ∷ s) h = take (ground arith) (accepts-sound p s (ground arith))

star-skip : (p : List Token) (s : Text) → accepts p s ≡ true → accepts (star ∷ p) s ≡ true
unfolding accepts
star-skip p [] h = h
star-skip p (c ∷ s) h = ground arith

accepts_take :
    (t : Token) (p : List Token) (c : ℕ) (s : Text)
    → fits t c ≡ true
    → accepts p s ≡ true
    → accepts (t ∷ p) (c ∷ s) ≡ true
unfolding accepts
accepts_take star p c s h e = ground (arith, star-skip p s e)
accepts_take one p c s h e = ground arith
accepts_take (lit x) p c s h e = ground arith
accepts_take (class n rs) p c s h e = rw (h, e)

accepts_eat :
    (p : List Token) (c : ℕ) (s : Text)
    → accepts (star ∷ p) s ≡ true
    → accepts (star ∷ p) (c ∷ s) ≡ true
unfolding accepts
accepts_eat p c s e = ground arith

accepts_complete : {p : List Token} {s : Text} → Fits p s → accepts p s ≡ true
accepts_complete nothing = unfold accepts in refl
accepts_complete (skip {p = p} {s = s} f) = star-skip p s (accepts_complete f)
accepts_complete (eat {p = p} {c = c} {s = s} f) = accepts_eat p c s (accepts_complete f)
accepts_complete (take {t = t} {p = p} {c = c} {s = s} h f) =
    accepts_take t p c s h (accepts_complete f)

-- The matcher decides the relation: it neither accepts too much nor too little.
pub accepts_iff : (p : List Token) (s : Text) → (accepts p s ≡ true) ↔ Fits p s
accepts_iff p s = (accepts-sound p s, accepts_complete)
