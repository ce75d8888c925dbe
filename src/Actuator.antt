-- ===== src/Actuator.antt =====
-- pkg/actuator/pack/actuator.go: the calls of the extension controller. A pass over the packs of a
-- shoot writes a managed resource for each pack that the shoot asks for, and deletes those of the
-- other packs of the collection.
pub mod Errors
pub mod Render
pub mod Names
pub mod Inversion
pub mod Frame
pub mod Outcome
pub mod Managed
pub mod Early
pub mod Steady
pub mod Shuffle
pub mod Converge
pub mod Own
pub mod Local
pub mod Schedule
pub mod Overlap
pub mod New
pub mod Tests
use gardener_extension_shoot.Base.{
  Bool, true, false, Option, none, some, List, [], ◌∷◌, ◌++◌, Result, ok, err, if◌then◌else◌, not,
  ◌&&◌, Str, codes, ◌==◌, contains_func,
}
use gardener_extension_shoot.Config.{Pack, PackConfig, pack_string}
use gardener_extension_shoot.Config.Validation.{validate}
use gardener_extension_shoot.Assets.{Collection, pack_exists, get_pack}
use gardener_extension_shoot.Assets
use gardener_extension_shoot.Platform.{Platform, DeleteError, not_found, failed}
use Errors.{
  Error, cluster_failed, no_provider_config, invalid_provider_config, invalid_config, no_such_pack,
  unable_to_get_pack, unable_to_reconcile, delete_failed, create_failed, invalid_object,
}
use Render.{render_pack}

-- The fields that the code reads of an `Extension`.
pub record Extension : Type 0 where
  pub namespace : Str
  pub provider_config : Option Str

abbrev pub managed_resource_origin : Str
managed_resource_origin = codes "gardener-extension-shoot-pack"

unfoldable pub managed_resource_prefix : Str
managed_resource_prefix = codes "extension-shoot-pack"

-- `fmt.Sprintf("%s-%s", ManagedResourcePrefix, name)`
unfoldable pub mr_name : Str → Str
mr_name name = managed_resource_prefix ++ codes "-" ++ name

-- `client.IgnoreNotFound`
abbrev pub ignore_not_found : Option DeleteError → Option Str
ignore_not_found none = none
ignore_not_found (some not_found) = none
ignore_not_found (some (failed e)) = some e

-- The test of `slices.ContainsFunc` over the packs that are enabled.
abbrev pub is_enabled : {S : Type 0} → List (Pack S) → Assets.Pack → Bool
is_enabled enabled pack =
    contains_func (λ item. item.name == pack.name && item.version == pack.version) enabled

-- The loop that collects the packs of the collection that are not enabled, by their names.
unfoldable pub disabled_names : {S : Type 0} → List (Pack S) → List Assets.Pack → List Str
disabled_names enabled [] = []
disabled_names enabled (pack ∷ packs) =
    let rest = disabled_names enabled packs in
    if is_enabled enabled pack then rest else pack.name ∷ rest

-- The names of the packs that `Delete` goes through.
abbrev pub names_of : List Assets.Pack → List Str
names_of [] = []
names_of (pack ∷ packs) = pack.name ∷ names_of packs

module _ (P : Platform) where
  -- The end of `reconcilePack`.
  unfoldable pub create : Str → Str → Result (Error) P.Bundle → P.Seed → Option Error × P.Seed
  create ns name (err e) s = (some e, s)
  create ns name (ok bundle) s =
      let (e, s') = P.create_for_shoot ns (mr_name name) managed_resource_origin false bundle s in
      (elim e [ none ↦ none | some text ↦ some (create_failed text) ], s')

  -- `reconcilePack`, with the objects rendered from the state in which it is called. The cluster,
  -- of which only the shoot is read, and the pack asset may be nil.
  unfoldable pub reconcile_pack :
      Str
      → Option (Option P.Shoot)
      → Pack P.Selector
      → Option Assets.Pack
      → P.Seed
      → Option Error × P.Seed
  reconcile_pack ns none spec asset s = (some (invalid_object (codes "cluster is nil")), s)
  reconcile_pack ns (some shoot) spec none s =
      (some (invalid_object (codes "pack asset is nil")), s)
  reconcile_pack ns (some shoot) spec (some asset) s =
      create ns asset.name (render_pack P ns shoot spec asset s) s

  -- The loop over the packs of the configuration.
  unfoldable pub reconcile_packs :
      Collection → Str → Option P.Shoot → List (Pack P.Selector) → P.Seed → Option Error × P.Seed
  reconcile_packs c ns shoot [] s = (none, s)
  reconcile_packs c ns shoot (spec ∷ specs) s = elim (pack_exists c spec.name spec.version) [
    | false ↦ (some (no_such_pack (pack_string spec)), s)
    | true ↦ elim (get_pack c spec.name spec.version) [
      | err _ ↦ (some (unable_to_get_pack (pack_string spec)), s)
      | ok asset ↦
          let (e, s') = reconcile_pack ns (some shoot) spec (some asset) s in
          elim e [
            | some e ↦ (some (unable_to_reconcile (pack_string spec) e), s')
            | none ↦ reconcile_packs c ns shoot specs s'
          ]
    ]
  ]

  -- A loop of `DeleteForShoot` over names of packs: that of `Reconcile`, and that of `Delete`.
  unfoldable pub delete_packs : Str → List Str → P.Seed → Option Error × P.Seed
  delete_packs ns [] s = (none, s)
  delete_packs ns (name ∷ names) s =
      let (e, s') = P.delete_for_shoot ns (mr_name name) s in
      elim (ignore_not_found e) [
        | some e ↦ (some (delete_failed e), s')
        | none ↦ delete_packs ns names s'
      ]

  -- `Reconcile` from the two lists of packs on.
  unfoldable pub reconcile_config :
      Collection → Str → Option P.Shoot → List (Pack P.Selector) → P.Seed → Option Error × P.Seed
  reconcile_config c ns shoot specs s =
      let (e, s') = reconcile_packs c ns shoot specs s in
      elim e [ some e ↦ (some e, s') | none ↦ delete_packs ns (disabled_names specs c.packs) s' ]

  -- The provider config, decoded and validated.
  unfoldable pub parse_config : Option Str → Result Error (PackConfig P.Selector)
  parse_config none = err no_provider_config
  parse_config (some raw) = elim (P.decode raw) [
    | err e ↦ err (invalid_provider_config e)
    | ok cfg ↦ elim (validate cfg) [ some errs ↦ err (invalid_config errs) | none ↦ ok cfg ]
  ]

  -- `Reconcile` of a cluster that was found.
  unfoldable pub reconcile_cluster :
      Collection → Extension → Option P.Shoot → P.Seed → Option Error × P.Seed
  reconcile_cluster c ex shoot s =
      if P.hibernation_is_enabled shoot then (none, s) else elim (parse_config ex.provider_config) [
        | err e ↦ (some e, s)
        | ok cfg ↦ reconcile_config c ex.namespace shoot cfg.spec.packs s
      ]

  -- `Actuator.Reconcile`
  unfoldable pub reconcile : Collection → Extension → P.Seed → Option Error × P.Seed
  reconcile c ex s = elim (P.get_cluster ex.namespace s) [
    | err e ↦ (some (cluster_failed e), s)
    | ok shoot ↦ reconcile_cluster c ex shoot s
  ]

  -- `Actuator.Delete`
  unfoldable pub delete : Collection → Extension → P.Seed → Option Error × P.Seed
  delete c ex s = delete_packs ex.namespace (names_of c.packs) s

  -- `Actuator.ForceDelete`
  unfoldable pub force_delete : Collection → Extension → P.Seed → Option Error × P.Seed
  force_delete = delete

  -- `Actuator.Restore`
  unfoldable pub restore : Collection → Extension → P.Seed → Option Error × P.Seed
  restore = reconcile

  -- `Actuator.Migrate`
  unfoldable pub migrate : Collection → Extension → P.Seed → Option Error × P.Seed
  migrate = reconcile
