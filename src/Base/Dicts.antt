-- ===== src/Base/Dicts.antt =====
-- Python's `dict` with byte strings or texts as keys, in insertion order.
pub mod Every
use mathlib.Core.Path.{◌≡◌, refl}
use mathlib.Core.List.{List, [], ◌∷◌}
use mathlib.Core.Option.{Option, none, some}
use native.Mathlib.Omega.{arith}
use tartarus_nix.Base.Tests.{if◌then◌else◌, is_some}
use tartarus_nix.Base.ByteStrings.{Bytes, bytes_eq, bytes_eq_iff, bytes_eq_refl}

abbrev pub Dict {ℓ} : Type ℓ → Type ℓ
Dict V = List (Bytes × V)

module _ {ℓ} {V : Type ℓ} where
  -- d.get(k)
  unfoldable pub get : Dict V → Bytes → Option V
  unfolding bytes_eq
  get [] k = none
  get ((j, v) ∷ d) k = if bytes_eq j k then some v else get d k

  -- d[k] = v: a key that is there keeps its place
  unfoldable pub put : Dict V → Bytes → V → Dict V
  unfolding bytes_eq
  put [] k v = (k, v) ∷ []
  put ((j, w) ∷ d) k v = if bytes_eq j k then (j, v) ∷ d else (j, w) ∷ put d k v

  -- d.setdefault(k, v)
  unfoldable pub set_default : Dict V → Bytes → V → Dict V
  unfolding get put
  set_default d k v = if is_some (get d k) then d else put d k v

  pub get-put :
      (d : Dict V) (k j : Bytes) (v : V)
      → get (put d k v) j ≡ (if bytes_eq k j then some v else get d j)
  unfolding get put
  get-put [] k j v = refl
  get-put ((i, w) ∷ d) k j v =
      ground (arith, bytes_eq_iff k j, bytes_eq_iff i k, bytes_eq_iff i j, get-put d k j v)

  pub get-put_self : (d : Dict V) (k : Bytes) (v : V) → get (put d k v) k ≡ some v
  get-put_self d k v = simp (get-put, bytes_eq_refl)

  -- d.pop(k, None)
  unfoldable pub remove : Dict V → Bytes → Dict V
  unfolding bytes_eq
  remove [] k = []
  remove ((j, v) ∷ d) k = if bytes_eq j k then d else (j, v) ∷ remove d k
