-- ===== src/Actuator/Overlap/Alone.antt =====
-- On the overlapped platform with nothing left of what others do, the actuator does what it does on the
-- platform itself.
use gardener_extension_shoot.Base.{
  ◌≡◌, refl, ℕ, suc, inl, inr, Bool-cases, Option, none, some, List, [], ◌∷◌, ◌++◌, Result, ok, err,
  arith, Str, codes, ◌==◌, Result-cases, Option-cases,
}
use gardener_extension_shoot.Base.Dict.{Dict}
use gardener_extension_shoot.Go.Path.{join}
use gardener_extension_shoot.Go.Strings.{itoa}
use gardener_extension_shoot.Config.{PatchSpec, Pack}
use gardener_extension_shoot.Assets
use gardener_extension_shoot.Assets.{Collection, Resource, get_pack, pack_exists, read}
use gardener_extension_shoot.Assets.Lookup.{get_pack-exists}
use gardener_extension_shoot.Platform.{Platform, Managed, Patch}
use gardener_extension_shoot.Actuator.Errors.{Error}
use gardener_extension_shoot.Actuator.Render.{
  secret_from_resource_ref, write_resources, write_patches, add_patches, kustomize_filesystem,
  label_object, register_objects, render_pack,
}
use gardener_extension_shoot.Actuator.{
  Extension, ignore_not_found, create, reconcile_pack, reconcile_packs, delete_packs,
  disabled_names, reconcile_config, parse_config, reconcile_cluster, reconcile, delete, names_of,
  mr_name,
}
use gardener_extension_shoot.Actuator.Overlap.{Interference, overlapped}

module _ (P : Platform) (M : Managed P) (ns : Str) where
  -- A state with nothing left of what others do.
  abbrev pub alone : P.Seed → P.Seed × List (Interference P M ns)
  alone s = (s, [])

  write_resources-alone :
      (rs : List Resource) (names : List Str) (fs : P.Tree)
      → write_resources (overlapped P M ns) rs names fs ≡ write_resources P rs names fs
  unfolding write_resources
  write_resources-alone [] names fs = refl
  write_resources-alone (r ∷ rs) names fs = simp (write_resources-alone rs) refl

  write_patches-alone :
      (base_dir : Str) (spec : PatchSpec P.Selector) (secret : Str) (entries : Dict Str)
      (patches : List (Patch P.Selector)) (fs : P.Tree)
      → write_patches (overlapped P M ns) base_dir spec secret entries patches fs
        ≡ write_patches P base_dir spec secret entries patches fs
  unfolding write_patches
  write_patches-alone base_dir spec secret [] patches fs = refl
  write_patches-alone base_dir spec secret ((key, content) ∷ entries) patches fs =
      simp (write_patches-alone base_dir spec secret entries) refl

  secret_from_resource_ref-alone :
      (ns' name : Str) (shoot : Option P.Shoot) (s : P.Seed)
      → secret_from_resource_ref (overlapped P M ns) ns' name shoot (alone s)
        ≡ secret_from_resource_ref P ns' name shoot s
  unfolding secret_from_resource_ref
  secret_from_resource_ref-alone ns' name none s = refl
  secret_from_resource_ref-alone ns' name (some shoot) s = refl

  add_patches-alone :
      (ns' base_dir : Str) (shoot : Option P.Shoot) (s : P.Seed)
      (specs : List (PatchSpec P.Selector)) (patches : List (Patch P.Selector)) (fs : P.Tree)
      → add_patches (overlapped P M ns) ns' base_dir shoot (alone s) specs patches fs
        ≡ add_patches P ns' base_dir shoot s specs patches fs
  unfolding add_patches
  add_patches-alone ns' base_dir shoot s [] patches fs = refl
  add_patches-alone ns' base_dir shoot s (spec ∷ specs) patches fs =
      simp
        (
          secret_from_resource_ref-alone,
          write_patches-alone,
          add_patches-alone ns' base_dir shoot s specs,
        )
        refl

  label_object-alone :
      (asset : Assets.Pack) (r : P.Object)
      → label_object (overlapped P M ns) asset r ≡ label_object P asset r
  unfolding label_object
  label_object-alone asset r = refl

  register_objects-alone :
      (asset : Assets.Pack) (idx : ℕ) (rs : List P.Object) (entries : List (Str × Str))
      → register_objects (overlapped P M ns) asset idx rs entries
        ≡ register_objects P asset idx rs entries
  unfolding register_objects
  register_objects-alone asset idx [] entries = refl
  register_objects-alone asset idx (r ∷ rs) entries =
      elim (Bool-cases (P.get_kind r == codes "Namespace")) [
        | inl is_ns ↦ ground (arith, register_objects-alone asset (suc idx) rs entries)
        | inr other ↦ elim (Result-cases (label_object P asset r)) [
          | inl (text, labelled) ↦ ground (
            arith,
            label_object-alone asset r,
            register_objects-alone asset (suc idx) rs
                (entries ++ ((join asset.base_dir (itoa idx), text) ∷ [])),
          )
          | inr (e, unlabelled) ↦ ground (arith, label_object-alone asset r)
        ]
      ]

  render_pack-alone :
      (ns' : Str) (shoot : Option P.Shoot) (spec : Pack P.Selector) (asset : Assets.Pack)
      (s : P.Seed)
      → render_pack (overlapped P M ns) ns' shoot spec asset (alone s)
        ≡ render_pack P ns' shoot spec asset s
  unfolding render_pack kustomize_filesystem
  render_pack-alone ns' shoot spec asset s =
      simp (write_resources-alone, add_patches-alone, register_objects-alone) refl

  abbrev pub lift :
      {E : Type 0} → Option E × P.Seed → Option E × (P.Seed × List (Interference P M ns))
  lift r = (r.0, alone r.1)

  create-alone :
      (ns' name : Str) (m : Result Error P.Bundle) (s : P.Seed)
      → create (overlapped P M ns) ns' name m (alone s) ≡ lift (create P ns' name m s)
  unfolding create
  create-alone ns' name (err e) s = refl
  create-alone ns' name (ok bundle) s = refl

  delete_packs-alone :
      (ns' : Str) (names : List Str) (s : P.Seed)
      → delete_packs (overlapped P M ns) ns' names (alone s) ≡ lift (delete_packs P ns' names s)
  unfolding delete_packs
  delete_packs-alone ns' [] s = refl
  delete_packs-alone ns' (name ∷ names) s =
      let t = (P.delete_for_shoot ns' (mr_name name) s).1 in
      let rest = delete_packs-alone ns' names t in
      elim (Option-cases (ignore_not_found (P.delete_for_shoot ns' (mr_name name) s).0)) [
        | inl gone ↦ ground (arith, rest)
        | inr (e, failed) ↦ ground arith
      ]

  module _ (c : Collection) (ns' : Str) (shoot : Option P.Shoot) where
    reconcile_packs-alone :
        (specs : List (Pack P.Selector)) (s : P.Seed)
        → reconcile_packs (overlapped P M ns) c ns' shoot specs (alone s)
          ≡ lift (reconcile_packs P c ns' shoot specs s)
    unfolding reconcile_packs reconcile_pack
    reconcile_packs-alone [] s = refl
    reconcile_packs-alone (spec ∷ specs) s =
        elim (Bool-cases (pack_exists c spec.name spec.version)) [
          | inl exists ↦
              let (asset, found, _, _) = get_pack-exists spec.name spec.version c exists in
              let m = render_pack P ns' shoot spec asset s in
              let same = render_pack-alone ns' shoot spec asset s in
              let one = create-alone ns' asset.name m s in
              let rest = reconcile_packs-alone specs (create P ns' asset.name m s).1 in
              elim (Option-cases (create P ns' asset.name m s).0) [
                | inl good ↦ ground (arith, same, one, rest)
                | inr (e, bad) ↦ ground (arith, same, one)
              ]
          | inr lost ↦ ground arith
        ]

    reconcile_config-alone :
        (specs : List (Pack P.Selector)) (s : P.Seed)
        → reconcile_config (overlapped P M ns) c ns' shoot specs (alone s)
          ≡ lift (reconcile_config P c ns' shoot specs s)
    unfolding reconcile_config
    reconcile_config-alone specs s =
        let one = reconcile_packs-alone specs s in
        let t = (reconcile_packs P c ns' shoot specs s).1 in
        let rest = delete_packs-alone ns' (disabled_names specs c.packs) t in
        elim (Option-cases (reconcile_packs P c ns' shoot specs s).0) [
          | inl good ↦ ground (arith, one, rest)
          | inr (e, bad) ↦ ground (arith, one)
        ]

  module _ (c : Collection) (ex : Extension) where
    reconcile_cluster-alone :
        (shoot : Option P.Shoot) (s : P.Seed)
        → reconcile_cluster (overlapped P M ns) c ex shoot (alone s)
          ≡ lift (reconcile_cluster P c ex shoot s)
    unfolding reconcile_cluster parse_config
    reconcile_cluster-alone shoot s = elim (Bool-cases (P.hibernation_is_enabled shoot)) [
      | inl asleep ↦ ground arith
      | inr awake ↦ elim (Result-cases (parse_config P ex.provider_config)) [
        | inl (cfg, parsed) ↦
            ground (arith, reconcile_config-alone c ex.namespace shoot cfg.spec.packs s)
        | inr (e, unparsed) ↦ ground arith
      ]
    ]

    pub reconcile-alone :
        (s : P.Seed) → reconcile (overlapped P M ns) c ex (alone s) ≡ lift (reconcile P c ex s)
    unfolding reconcile
    reconcile-alone s = elim (Result-cases (P.get_cluster ex.namespace s)) [
      | inl (shoot, found) ↦ ground (arith, reconcile_cluster-alone shoot s)
      | inr (e, lost) ↦ ground arith
    ]

    pub delete-alone :
        (s : P.Seed) → delete (overlapped P M ns) c ex (alone s) ≡ lift (delete P c ex s)
    unfolding delete
    delete-alone s = delete_packs-alone ex.namespace (names_of c.packs) s
