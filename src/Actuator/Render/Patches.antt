-- ===== src/Actuator/Render/Patches.antt =====
-- The kustomization that a pack's file system gets: its resources, and the patches from the secrets.
use gardener_extension_shoot.Base.{◌≡◌, Option, some, List, [], ◌∷◌, ◌++◌, ok, Str, Any}
use gardener_extension_shoot.Base.Dict.{Dict}
use gardener_extension_shoot.Go.Path.{base}
use gardener_extension_shoot.Config.{PatchSpec}
use gardener_extension_shoot.Assets
use gardener_extension_shoot.Assets.{Resource}
use gardener_extension_shoot.Platform.{Platform, Patch, Secret}
use gardener_extension_shoot.Actuator.Render.{secret_kind, core_version, patch_file}
use gardener_extension_shoot.Platform.{referenced_resources_prefix}

module _ (P : Platform) (ns : Str) (s : P.Seed) where
  -- The secret that the shoot refers to by that name.
  pub record IsSecretOf (shoot : Option P.Shoot) (name : Str) (secret : Secret) : Type 0 where
    pub owner : P.Shoot
    pub is_owner : shoot ≡ some owner
    pub referred :
        Any
          (λ r. (r.name ≡ name) × (r.kind ≡ secret_kind) × (r.api_version ≡ core_version))
          (P.resources owner)
    pub got : P.get_secret ns (referenced_resources_prefix ++ name) s ≡ ok secret

  -- The patches of one secret: one for each of its keys, with the target of the configuration.
  abbrev pub patches_of : PatchSpec P.Selector → Str → Dict Str → List (Patch P.Selector)
  patches_of spec secret [] = []
  patches_of spec secret ((key, _) ∷ entries) =
      record { path = patch_file secret key; target = spec.target } ∷ patches_of spec secret entries

  -- The patches are those of the secrets that the configuration names, in its order.
  pub data ArePatches (shoot : Option P.Shoot)
      : List (PatchSpec P.Selector) → List (Patch P.Selector) → Type 0 where
    done : ArePatches shoot [] []
    more :
        {spec : PatchSpec P.Selector} {specs : List (PatchSpec P.Selector)}
        {patches : List (Patch P.Selector)} (secret : Secret)
        → IsSecretOf shoot spec.resource_ref secret
        → ArePatches shoot specs patches
        → ArePatches shoot (spec ∷ specs) (patches_of spec secret.name secret.content ++ patches)

  -- The names that the kustomization lists: the last parts of the resources' paths.
  abbrev pub resource_names : List Resource → List Str
  resource_names [] = []
  resource_names (r ∷ rs) = base r.path ∷ resource_names rs
