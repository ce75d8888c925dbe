-- ===== src/Base/Dict.antt =====
-- Go maps with string keys, as association lists. A range over a map may meet the keys in any
-- order; the order of the list stands for the one that the runtime picks.
use mathlib.Core.Path.{◌≡◌, refl}
use mathlib.Core.Option.{Option, none, some}
use mathlib.Core.List.{List, [], ◌∷◌}
use native.Mathlib.Omega.{arith}
use gardener_extension_shoot.Base.Logic.{if◌then◌else◌}
use gardener_extension_shoot.Base.Text.{Str, ◌==◌}

abbrev pub Dict {ℓ} : Type ℓ → Type ℓ
Dict V = List (Str × V)

module _ {ℓ} {V : Type ℓ} where
  unfoldable pub lookup : Str → Dict V → Option V
  lookup k [] = none
  lookup k ((j, v) ∷ d) = if k == j then some v else lookup k d

  -- `d[k] = v`
  unfoldable pub insert : Str → V → Dict V → Dict V
  insert k v [] = (k, v) ∷ []
  insert k v ((j, w) ∷ d) = if k == j then (k, v) ∷ d else (j, w) ∷ insert k v d

  -- `maps.Copy(dst, src)`
  unfoldable pub copy : Dict V → Dict V → Dict V
  unfolding insert
  copy dst [] = dst
  copy dst ((k, v) ∷ src) = copy (insert k v dst) src

  pub lookup-insert :
      (j k : Str) (v : V) (d : Dict V)
      → lookup j (insert k v d) ≡ (if j == k then some v else lookup j d)
  unfolding lookup insert
  lookup-insert j k v [] = refl
  lookup-insert j k v ((i, w) ∷ d) = ground (arith, lookup-insert j k v d)

  pub lookup-insert_self : (k : Str) (v : V) (d : Dict V) → lookup k (insert k v d) ≡ some v
  lookup-insert_self k v d = ground (arith, lookup-insert k k v d)
