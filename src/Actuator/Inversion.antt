-- ===== src/Actuator/Inversion.antt =====
-- What a step of the actuator's loops has done, by how it ended.
use gardener_extension_shoot.Base.{
  ◌≡◌, ◌⊎◌, inl, inr, false, Bool-cases, Option, none, some, List, ◌∷◌, ok, arith, Str,
  Result-cases,
}
use gardener_extension_shoot.Config.{Pack}
use gardener_extension_shoot.Assets
use gardener_extension_shoot.Assets.{Collection, pack_exists, get_pack}
use gardener_extension_shoot.Assets.Lookup.{get_pack-exists}
use gardener_extension_shoot.Platform.{Platform, DeleteError, not_found}
use gardener_extension_shoot.Actuator.Render.{render_pack}
use gardener_extension_shoot.Actuator.{
  mr_name, managed_resource_origin, create, reconcile_pack, reconcile_packs, delete_packs,
}

module _ (P : Platform) (c : Collection) (ns : Str) (shoot : Option P.Shoot) where
  -- The state after the managed resource of a pack was written.
  abbrev pub written : Str → P.Bundle → P.Seed → Option Str × P.Seed
  written name bundle s =
      P.create_for_shoot ns (mr_name name) managed_resource_origin false bundle s

  -- A first step of the loop over the packs that went through.
  pub record Step (spec : Pack P.Selector) (specs : List (Pack P.Selector)) (s : P.Seed)
      : Type 0 where
    pub asset : Assets.Pack
    pub same_name : spec.name ≡ asset.name
    pub found : get_pack c spec.name spec.version ≡ ok asset
    pub bundle : P.Bundle
    pub rendered : render_pack P ns shoot spec asset s ≡ ok bundle
    pub created : (written spec.name bundle s).0 ≡ none
    pub goes_on :
        reconcile_packs P c ns shoot (spec ∷ specs) s
        ≡ reconcile_packs P c ns shoot specs (written spec.name bundle s).1

  pub reconcile_packs-Step :
      (spec : Pack P.Selector) (specs : List (Pack P.Selector)) (s : P.Seed)
      → (reconcile_packs P c ns shoot (spec ∷ specs) s).0 ≡ none
      → Step spec specs s
  unfolding reconcile_packs reconcile_pack create
  reconcile_packs-Step spec specs s h = elim (Bool-cases (pack_exists c spec.name spec.version)) [
    | inl exists ↦
        let (asset, found, same_name, _) = get_pack-exists spec.name spec.version c exists in
        elim (Result-cases (render_pack P ns shoot spec asset s)) [
          | inl (bundle, rendered) ↦ record {
            asset = asset;
            same_name = same_name;
            found = found;
            bundle = bundle;
            rendered = rendered;
            created = ground arith;
            goes_on = ground arith;
          }
          | inr (e, unrendered) ↦ absurd (ground arith)
        ]
    | inr lost ↦ absurd (ground arith)
  ]

module _ (P : Platform) (ns : Str) where
  -- The state after the deletion of the managed resource of a pack.
  abbrev pub deleted : Str → P.Seed → Option DeleteError × P.Seed
  deleted name s = P.delete_for_shoot ns (mr_name name) s

  -- A first step of the loop of deletions that went through.
  pub record DeleteStep (name : Str) (names : List Str) (s : P.Seed) : Type 0 where
    pub gone : ((deleted name s).0 ≡ none) ⊎ ((deleted name s).0 ≡ some not_found)
    pub goes_on : delete_packs P ns (name ∷ names) s ≡ delete_packs P ns names (deleted name s).1

  pub delete_packs-Step :
      (name : Str) (names : List Str) (s : P.Seed)
      → (delete_packs P ns (name ∷ names) s).0 ≡ none
      → DeleteStep name names s
  unfolding delete_packs
  delete_packs-Step name names s h = record { gone = ground arith; goes_on = ground arith }
