-- ===== src/Base/Dicts/Every.antt =====
-- What holds of every entry of a dict, and the operations that keep it.
use mathlib.Core.Path.{◌≡◌, sym, subst}
use mathlib.Core.Logic.{inl, inr}
use mathlib.Core.List.{[], ◌∷◌}
use mathlib.Core.Option.{some}
use tartarus_nix.Base.Tests.{Bool-cases}
use tartarus_nix.Base.ByteStrings.{Bytes, bytes_eq, bytes_eq_iff}
use tartarus_nix.Base.Dicts.{Dict, get, put, remove}

abbrev pub Every {ℓ} : {V : Type ℓ} → (Bytes → V → Type 0) → Dict V → Type 0
Every P [] = Unit {0}
Every P ((k, v) ∷ d) = P k v × Every P d

module _ {ℓ} {V : Type ℓ} (P : Bytes → V → Type 0) where
  pub Every-get : (d : Dict V) (k : Bytes) (v : V) → Every P d → get d k ≡ some v → P k v
  unfolding get
  Every-get [] k v h e = absurd (cc)
  Every-get ((j, u) ∷ d) k v h e = elim (Bool-cases (bytes_eq j k)) [
    | inl same ↦
        let found : some u ≡ some v = rw same at e in
        subst (λ i. P i v) ((bytes_eq_iff j k).0 same) (subst (P j) (cc) h.0)
    | inr other ↦ Every-get d k v h.1 (rw other at e)
  ]

  pub Every-put : (d : Dict V) (k : Bytes) (v : V) → P k v → Every P d → Every P (put d k v)
  unfolding put
  Every-put [] k v p h = (p, tt)
  Every-put ((j, u) ∷ d) k v p h = elim (Bool-cases (bytes_eq j k)) [
    | inl same ↦ rw same (subst (λ i. P i v) (sym ((bytes_eq_iff j k).0 same)) p, h.1)
    | inr other ↦ rw other (h.0, Every-put d k v p h.1)
  ]

  pub Every-remove : (d : Dict V) (k : Bytes) → Every P d → Every P (remove d k)
  unfolding remove
  Every-remove [] k h = tt
  Every-remove ((j, u) ∷ d) k h = elim (Bool-cases (bytes_eq j k)) [
    | inl same ↦ rw same h.1
    | inr other ↦ rw other (h.0, Every-remove d k h.1)
  ]

module _ {ℓ} {V : Type ℓ} (P Q : Bytes → V → Type 0)
    (weaken : (k : Bytes) (v : V) → P k v → Q k v) where
  pub Every-map : (d : Dict V) → Every P d → Every Q d
  Every-map [] h = tt
  Every-map ((k, v) ∷ d) h = (weaken k v h.0, Every-map d h.1)
