-- ===== src/Actuator/Steady.antt =====
-- What the rendering of a pack reads of the cluster, and that a pass leaves it alone.
use gardener_extension_shoot.Base.{
  false, ◌≡◌, refl, inl, inr, Option, some, List, [], ◌∷◌, ◌++◌, Result, ok, err, arith, Str,
  Option-cases, Result-cases,
}
use gardener_extension_shoot.Config.{PatchSpec, Pack}
use gardener_extension_shoot.Assets
use gardener_extension_shoot.Assets.{Collection, get_pack}
use gardener_extension_shoot.Platform.{Platform, Steady, Patch, referenced_resources_prefix}
use gardener_extension_shoot.Actuator.Errors.{Error}
use gardener_extension_shoot.Actuator.Render.{
  secret_from_resource_ref, write_patches, add_patches, kustomize_filesystem, render_pack,
}
use gardener_extension_shoot.Actuator.{
  mr_name, managed_resource_origin, create, reconcile_pack, reconcile_packs, delete_packs,
  reconcile_config, disabled_names,
}

module _ (P : Platform) (ns : Str) where
  -- The secrets that a shoot can refer to are the same in the two states.
  abbrev pub IsSame : P.Seed → P.Seed → Type 0
  IsSame s t =
      (ref : Str)
      → P.get_secret ns (referenced_resources_prefix ++ ref) t
        ≡ P.get_secret ns (referenced_resources_prefix ++ ref) s

  module _ (shoot : Option P.Shoot) (s t : P.Seed) (same : IsSame s t) where
    secret_from_resource_ref-same :
        (name : Str)
        → secret_from_resource_ref P ns name shoot t ≡ secret_from_resource_ref P ns name shoot s
    unfolding secret_from_resource_ref
    secret_from_resource_ref-same name = elim (Option-cases shoot) [
      | inl nil ↦ ground arith
      | inr (sh, given) ↦ ground (arith, same name)
    ]

    add_patches-same :
        (base_dir : Str) (specs : List (PatchSpec P.Selector)) (patches : List (Patch P.Selector))
        (fs : P.Tree)
        → add_patches P ns base_dir shoot t specs patches fs
          ≡ add_patches P ns base_dir shoot s specs patches fs
    unfolding add_patches
    add_patches-same base_dir [] patches fs = refl
    add_patches-same base_dir (spec ∷ specs) patches fs =
        let one = secret_from_resource_ref-same spec.resource_ref in
        elim (Result-cases (secret_from_resource_ref P ns spec.resource_ref shoot s)) [
          | inl (secret, got) ↦
              elim (Result-cases
                (write_patches P base_dir spec secret.name secret.content patches fs)) [
                  | inl (written, put) ↦
                      ground (arith, one, add_patches-same base_dir specs written.0 written.1)
                  | inr (e, unwritten) ↦ ground (arith, one)
                ]
          | inr (e, lost) ↦ ground (arith, one)
        ]

    kustomize_filesystem-same :
        (spec : Pack P.Selector) (asset : Assets.Pack)
        → kustomize_filesystem P ns shoot spec asset t
          ≡ kustomize_filesystem P ns shoot spec asset s
    unfolding kustomize_filesystem
    kustomize_filesystem-same spec asset = simp (add_patches-same asset.base_dir spec.patches) refl

    -- A pack is rendered to the same objects in the two states.
    pub render_pack-same :
        (spec : Pack P.Selector) (asset : Assets.Pack)
        → render_pack P ns shoot spec asset t ≡ render_pack P ns shoot spec asset s
    unfolding render_pack
    render_pack-same spec asset = rw (kustomize_filesystem-same spec asset) refl

module _ (P : Platform) (H : Steady P) (ns ns' : Str) where
  pub create-IsSame :
      (name : Str) (m : Result Error P.Bundle) (s : P.Seed)
      → IsSame P ns' s (create P ns name m s).1
  unfolding create
  create-IsSame name (err e) s ref = refl
  create-IsSame name (ok bundle) s ref =
      H.secret_create ns (mr_name name) managed_resource_origin false bundle s ns' ref

  pub delete_packs-IsSame :
      (names : List Str) (s : P.Seed) → IsSame P ns' s (delete_packs P ns names s).1
  unfolding delete_packs
  delete_packs-IsSame [] s ref = refl
  delete_packs-IsSame (name ∷ names) s ref = ground (
    arith,
    H.secret_delete ns (mr_name name) s ns' ref,
    delete_packs-IsSame names (P.delete_for_shoot ns (mr_name name) s).1 ref,
  )

  module _ (c : Collection) (shoot : Option P.Shoot) where
    reconcile_pack-IsSame :
        (spec : Pack P.Selector) (asset : Assets.Pack) (s : P.Seed)
        → IsSame P ns' s (reconcile_pack P ns (some shoot) spec (some asset) s).1
    unfolding reconcile_pack
    reconcile_pack-IsSame spec asset s =
        create-IsSame asset.name (render_pack P ns shoot spec asset s) s

    pub reconcile_packs-IsSame :
        (specs : List (Pack P.Selector)) (s : P.Seed)
        → IsSame P ns' s (reconcile_packs P c ns shoot specs s).1
    unfolding reconcile_packs
    reconcile_packs-IsSame [] s ref = refl
    reconcile_packs-IsSame (spec ∷ specs) s ref =
        elim (Result-cases (get_pack c spec.name spec.version)) [
          | inl (asset, found) ↦ ground (
            arith,
            reconcile_pack-IsSame spec asset s ref,
            reconcile_packs-IsSame specs (reconcile_pack P ns (some shoot) spec (some asset) s).1
                ref,
          )
          | inr (e, lost) ↦ ground arith
        ]

    pub reconcile_config-IsSame :
        (specs : List (Pack P.Selector)) (s : P.Seed)
        → IsSame P ns' s (reconcile_config P c ns shoot specs s).1
    unfolding reconcile_config
    reconcile_config-IsSame specs s ref = ground (
      arith,
      reconcile_packs-IsSame specs s ref,
      delete_packs-IsSame (disabled_names specs c.packs) (reconcile_packs P c ns shoot specs s).1
          ref,
    )

module _ (P : Platform) (H : Steady P) (ns : Str) where
  -- The clusters stay as they are, too.
  pub delete_packs-cluster :
      (names : List Str) (s : P.Seed) (ns' : Str)
      → P.get_cluster ns' (delete_packs P ns names s).1 ≡ P.get_cluster ns' s
  unfolding delete_packs
  delete_packs-cluster [] s ns' = refl
  delete_packs-cluster (name ∷ names) s ns' = ground (
    arith,
    H.cluster_delete ns (mr_name name) s ns',
    delete_packs-cluster names (P.delete_for_shoot ns (mr_name name) s).1 ns',
  )

  create-cluster :
      (name : Str) (m : Result Error P.Bundle) (s : P.Seed) (ns' : Str)
      → P.get_cluster ns' (create P ns name m s).1 ≡ P.get_cluster ns' s
  unfolding create
  create-cluster name (err e) s ns' = refl
  create-cluster name (ok bundle) s ns' =
      H.cluster_create ns (mr_name name) managed_resource_origin false bundle s ns'

  module _ (c : Collection) (shoot : Option P.Shoot) where
    reconcile_packs-cluster :
        (specs : List (Pack P.Selector)) (s : P.Seed) (ns' : Str)
        → P.get_cluster ns' (reconcile_packs P c ns shoot specs s).1 ≡ P.get_cluster ns' s
    unfolding reconcile_packs reconcile_pack
    reconcile_packs-cluster [] s ns' = refl
    reconcile_packs-cluster (spec ∷ specs) s ns' =
        elim (Result-cases (get_pack c spec.name spec.version)) [
          | inl (asset, found) ↦
              let m = render_pack P ns shoot spec asset s in
              ground (
                arith,
                create-cluster asset.name m s ns',
                reconcile_packs-cluster specs (create P ns asset.name m s).1 ns',
              )
          | inr (e, lost) ↦ ground arith
        ]

    pub reconcile_config-cluster :
        (specs : List (Pack P.Selector)) (s : P.Seed) (ns' : Str)
        → P.get_cluster ns' (reconcile_config P c ns shoot specs s).1 ≡ P.get_cluster ns' s
    unfolding reconcile_config
    reconcile_config-cluster specs s ns' = ground (
      arith,
      reconcile_packs-cluster specs s ns',
      delete_packs-cluster (disabled_names specs c.packs) (reconcile_packs P c ns shoot specs s).1
          ns',
    )
