-- ===== src/Admission/Agreement.antt =====
-- What the validator admits, the actuator does not refuse.
use gardener_extension_shoot.Base.{
  ◌≡◌, refl, false, none, some, List, [], ◌∷◌, Result, ok, err, arith, Str, All,
}
use gardener_extension_shoot.Config.{Pack}
use gardener_extension_shoot.Config.Validation.Laws.{validate-iff-IsValid}
use gardener_extension_shoot.Assets
use gardener_extension_shoot.Assets.{Collection, Resource, pack_exists, get_pack, read}
use gardener_extension_shoot.Assets.Lookup.{get_pack-exists, pack_exists_iff}
use gardener_extension_shoot.Platform.{Platform}
use gardener_extension_shoot.Actuator.{
  Extension, create, reconcile_pack, reconcile_packs, delete_packs, disabled_names,
  reconcile_config, parse_config, reconcile_cluster, reconcile, mr_name,
}
use gardener_extension_shoot.Actuator.Errors.{Error}
use gardener_extension_shoot.Admission.{
  Shoot, ShootExtension, Object, shoot_object, is_disabled, get_extension, validate_object,
}
use gardener_extension_shoot.Admission.Laws.{
  HasSecrets, IsAvailable, IsAdmitted, validate_object-IsAdmitted,
}
use gardener_extension_shoot.Admission.Refusal.{refused, refused_result, render_pack-refused}

module _ (P : Platform) (c : Collection) (ns : Str) (shoot : P.Shoot) where
  create-refused :
      (name : Str) (m : Result Error P.Bundle) (s : P.Seed)
      → refused_result m ≡ false
      → refused (create P ns name m s).0 ≡ false
  unfolding create
  create-refused name (err e) s h = h
  create-refused name (ok bundle) s h = ground arith

  delete_packs-refused :
      (names : List Str) (s : P.Seed) → refused (delete_packs P ns names s).0 ≡ false
  unfolding delete_packs
  delete_packs-refused [] s = refl
  delete_packs-refused (name ∷ names) s =
      ground (arith, delete_packs-refused names (P.delete_for_shoot ns (mr_name name) s).1)

  reconcile_pack-refused :
      (spec : Pack P.Selector) (asset : Assets.Pack) (s : P.Seed)
      → HasSecrets (P.resources shoot) spec.patches
      → refused (reconcile_pack P ns (some (some shoot)) spec (some asset) s).0 ≡ false
  unfolding reconcile_pack
  reconcile_pack-refused spec asset s h =
      create-refused asset.name _ s (render_pack-refused P ns shoot spec asset s h)

  reconcile_packs-refused :
      (specs : List (Pack P.Selector)) (s : P.Seed)
      → All (IsAvailable c (P.resources shoot)) specs
      → refused (reconcile_packs P c ns (some shoot) specs s).0 ≡ false
  unfolding reconcile_packs
  reconcile_packs-refused [] s h = refl
  reconcile_packs-refused (spec ∷ specs) s ((there, secrets), h) =
      let exists = (pack_exists_iff spec.name spec.version c).1 there in
      let (asset, found, _, _) = get_pack-exists spec.name spec.version c exists in
      let run = reconcile_pack P ns (some (some shoot)) spec (some asset) s in
      ground
        (arith, reconcile_pack-refused spec asset s secrets, reconcile_packs-refused specs run.1 h)

  reconcile_config-refused :
      (specs : List (Pack P.Selector)) (s : P.Seed)
      → All (IsAvailable c (P.resources shoot)) specs
      → refused (reconcile_config P c ns (some shoot) specs s).0 ≡ false
  unfolding reconcile_config
  reconcile_config-refused specs s h = ground (
    arith,
    reconcile_packs-refused specs s h,
    delete_packs-refused (disabled_names specs c.packs)
        (reconcile_packs P c ns (some shoot) specs s).1,
  )

module _ (P : Platform) (c : Collection) (extension_type : Str) where
  reconcile-admitted :
      (ex : Extension) (cluster_shoot : P.Shoot) (s : P.Seed)
      → P.get_cluster ex.namespace s ≡ ok (some cluster_shoot)
      → IsAdmitted extension_type P.decode c (P.resources cluster_shoot) ex.provider_config
      → refused (reconcile P c ex s).0 ≡ false
  unfolding reconcile reconcile_cluster parse_config
  reconcile-admitted ex cluster_shoot s found (raw, cfg, given, decoded, admissible) =
      let valid = (validate-iff-IsValid cfg).1 admissible.valid in
      ground (
        arith,
        reconcile_config-refused P c ex.namespace cluster_shoot cfg.spec.packs s
            admissible.available,
      )

  -- Let the validator admit a shoot that is not being deleted, and let its first extension of the type
  -- not be disabled. A pass of the actuator over the same provider config, with a cluster whose shoot
  -- refers to the same resources, then has no error that blames the configuration: it is not missing,
  -- unreadable or invalid, it names no pack that there is not, and no secret that the shoot does not
  -- refer to.
  pub reconcile-refused :
      (shoot : Shoot) (old_obj : Object) (ext : ShootExtension) (ex : Extension)
      (cluster_shoot : P.Shoot) (s : P.Seed)
      → shoot.deletion_timestamp ≡ none
      → get_extension extension_type (some shoot) ≡ ok ext
      → is_disabled ext.disabled ≡ false
      → validate_object extension_type P.decode c (shoot_object shoot) old_obj ≡ none
      → ex.provider_config ≡ ext.provider_config
      → P.get_cluster ex.namespace s ≡ ok (some cluster_shoot)
      → P.resources cluster_shoot ≡ shoot.resources
      → refused (reconcile P c ex s).0 ≡ false
  reconcile-refused shoot old_obj ext ex cluster_shoot s alive is_ext on admitted same found refs =
      let ok_config : IsAdmitted extension_type P.decode c shoot.resources ext.provider_config =
        validate_object-IsAdmitted extension_type P.decode c shoot old_obj ext alive is_ext on
          admitted in
      reconcile-admitted ex cluster_shoot s found (rw (refs, same) ok_config)
