-- ===== src/Assets/New/Resources.antt =====
-- The resources of a pack, of pkg/assets/assets.go.
use gardener_extension_shoot.Base.{◌≡◌, refl, ◌⊎◌, none, some, List, [], ◌∷◌, Str, arith}
use gardener_extension_shoot.Base.Dict.{Dict, lookup}
use gardener_extension_shoot.Assets.{Fs, Resource}
use gardener_extension_shoot.Assets.New.{sum_of, make_resources}

module _ (fs : Fs) (sums : Dict Str) where
  -- The sum that is listed for the path, or none.
  abbrev pub IsSumOf : Str → Str → Type 0
  IsSumOf path sum = (lookup path sums ≡ some sum) ⊎ ((lookup path sums ≡ none) × (sum ≡ []))

  sum_of-IsSumOf : (path : Str) → IsSumOf path (sum_of sums path)
  sum_of-IsSumOf path = ground arith

  -- One resource for each path, in their order.
  pub data AreResourcesOf : List Str → List Resource → Type 0 where
    no_resources : AreResourcesOf [] []
    resource :
        {path : Str} {r : Resource} {paths : List Str} {rs : List Resource}
        → r.path ≡ path
        → IsSumOf path r.sha256
        → r.file_system ≡ fs
        → AreResourcesOf paths rs
        → AreResourcesOf (path ∷ paths) (r ∷ rs)

  pub make_resources-AreResourcesOf :
      (paths : List Str) → AreResourcesOf paths (make_resources fs sums paths)
  unfolding make_resources
  make_resources-AreResourcesOf [] = no_resources
  make_resources-AreResourcesOf (path ∷ paths) =
      resource refl (sum_of-IsSumOf path) refl (make_resources-AreResourcesOf paths)
