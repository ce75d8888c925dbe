-- ===== src/Actuator/Frame.antt =====
-- What the actuator leaves alone, also where it fails.
use gardener_extension_shoot.Base.{
  ◌≡◌, refl, ◌≢◌, ◌⊎◌, inl, inr, Bool, true, false, Bool-cases, Option, none, some, List, [], ◌∷◌,
  Result, ok, err, arith, Str, All, Any-All, Any-elim, Result-cases,
}
use mathlib.Core.Bool.{cond}
use gardener_extension_shoot.Config.{Pack}
use gardener_extension_shoot.Assets
use gardener_extension_shoot.Assets.{Collection, pack_exists, get_pack}
use gardener_extension_shoot.Assets.Lookup.{get_pack-exists, pack_exists_iff}
use gardener_extension_shoot.Platform.{Platform, Managed}
use gardener_extension_shoot.Actuator.Errors.{Error}
use gardener_extension_shoot.Actuator.Inversion.{deleted}
use gardener_extension_shoot.Actuator.{
  Extension, mr_name, managed_resource_origin, create, reconcile_pack, reconcile_packs,
  delete_packs, disabled_names, is_enabled, reconcile_config, parse_config, reconcile_cluster,
  reconcile, names_of, delete,
}

module _ (P : Platform) (M : Managed P) (ns ns' name' : Str) where
  -- The managed resource of the pack is another one.
  abbrev pub IsApart : Str → Type 0
  IsApart n = (ns' ≢ ns) ⊎ (name' ≢ mr_name n)

  pub delete_packs-frame :
      (names : List Str) (s : P.Seed)
      → All IsApart names
      → M.managed ns' name' (delete_packs P ns names s).1 ≡ M.managed ns' name' s
  unfolding delete_packs
  delete_packs-frame [] s h = refl
  delete_packs-frame (name ∷ names) s (first, h) = ground (
    arith,
    M.delete_other ns (mr_name name) s ns' name' first,
    delete_packs-frame names (deleted P ns name s).1 h,
  )

  create-frame :
      (name : Str) (m : Result Error P.Bundle) (s : P.Seed)
      → IsApart name
      → M.managed ns' name' (create P ns name m s).1 ≡ M.managed ns' name' s
  unfolding create
  create-frame name (err e) s h = refl
  create-frame name (ok bundle) s h =
      M.create_other ns (mr_name name) managed_resource_origin false bundle s ns' name' h

  module _ (c : Collection) (shoot : Option P.Shoot) where
    reconcile_pack-frame :
        (spec : Pack P.Selector) (asset : Assets.Pack) (s : P.Seed)
        → IsApart asset.name
        → M.managed ns' name' (reconcile_pack P ns (some shoot) spec (some asset) s).1
          ≡ M.managed ns' name' s
    unfolding reconcile_pack
    reconcile_pack-frame spec asset s h = create-frame asset.name _ s h

    pub reconcile_packs-frame :
        (specs : List (Pack P.Selector)) (s : P.Seed)
        → All (λ spec. IsApart spec.name) specs
        → M.managed ns' name' (reconcile_packs P c ns shoot specs s).1 ≡ M.managed ns' name' s
    unfolding reconcile_packs
    reconcile_packs-frame [] s h = refl
    reconcile_packs-frame (spec ∷ specs) s (first, h) =
        elim (Bool-cases (pack_exists c spec.name spec.version)) [
          | inl exists ↦
              let (asset, found, same_name, _) = get_pack-exists spec.name spec.version c exists in
              let one = reconcile_pack-frame spec asset s (rw (← same_name) first) in
              let s' = (reconcile_pack P ns (some shoot) spec (some asset) s).1 in
              ground (arith, one, reconcile_packs-frame specs s' h)
          | inr lost ↦ ground arith
        ]

    All-IsApart-names :
        (packs : List Assets.Pack)
        → All (λ pack. IsApart pack.name) packs
        → All IsApart (names_of packs)
    All-IsApart-names [] h = tt
    All-IsApart-names (pack ∷ packs) (first, h) = (first, All-IsApart-names packs h)

    All-cond :
        (b : Bool) (xs ys : List Str) → All IsApart xs → All IsApart ys → All IsApart (cond b xs ys)
    All-cond true xs ys hx hy = hx
    All-cond false xs ys hx hy = hy

    All-IsApart-disabled :
        (specs : List (Pack P.Selector)) (packs : List Assets.Pack)
        → All (λ pack. IsApart pack.name) packs
        → All IsApart (disabled_names specs packs)
    unfolding disabled_names
    All-IsApart-disabled specs [] h = tt
    All-IsApart-disabled specs (pack ∷ packs) (first, h) =
        let rest = All-IsApart-disabled specs packs h in
        All-cond (is_enabled specs pack) _ _ rest (first, rest)

    -- A pack that is written is one of the collection.
    reconcile_packs-frame_collection :
        (specs : List (Pack P.Selector)) (s : P.Seed)
        → All (λ pack. IsApart pack.name) c.packs
        → M.managed ns' name' (reconcile_packs P c ns shoot specs s).1 ≡ M.managed ns' name' s
    unfolding reconcile_packs
    reconcile_packs-frame_collection [] s h = refl
    reconcile_packs-frame_collection (spec ∷ specs) s h =
        elim (Bool-cases (pack_exists c spec.name spec.version)) [
          | inl exists ↦
              let (asset, found, same_name, _) = get_pack-exists spec.name spec.version c exists in
              let provided = (pack_exists_iff spec.name spec.version c).0 exists in
              let apart : IsApart asset.name =
                Any-elim _ c.packs (λ pack (same, a). rw (← same_name, same.0) a)
                  (Any-All _ _ c.packs provided h) in
              let one = reconcile_pack-frame spec asset s apart in
              let s' = (reconcile_pack P ns (some shoot) spec (some asset) s).1 in
              ground (arith, one, reconcile_packs-frame_collection specs s' h)
          | inr lost ↦ ground arith
        ]

    reconcile_config-frame :
        (specs : List (Pack P.Selector)) (s : P.Seed)
        → All (λ pack. IsApart pack.name) c.packs
        → M.managed ns' name' (reconcile_config P c ns shoot specs s).1 ≡ M.managed ns' name' s
    unfolding reconcile_config
    reconcile_config-frame specs s h = ground (
      arith,
      reconcile_packs-frame_collection specs s h,
      delete_packs-frame (disabled_names specs c.packs) (reconcile_packs P c ns shoot specs s).1
          (All-IsApart-disabled specs c.packs h),
    )

module _ (P : Platform) (M : Managed P) (c : Collection) (ex : Extension) (ns' name' : Str) where
  -- A pass leaves a managed resource alone that is in another namespace, or that is of no pack of
  -- the collection: whatever the configuration says, and also where the pass fails.
  pub reconcile-frame :
      (s : P.Seed)
      → All (λ pack. IsApart P M ex.namespace ns' name' pack.name) c.packs
      → M.managed ns' name' (reconcile P c ex s).1 ≡ M.managed ns' name' s
  unfolding reconcile reconcile_cluster
  reconcile-frame s h = elim (Result-cases (P.get_cluster ex.namespace s)) [
    | inl (shoot, found) ↦ elim (Result-cases (parse_config P ex.provider_config)) [
      | inl (cfg, parsed) ↦
          ground
            (arith, reconcile_config-frame P M ex.namespace ns' name' c shoot cfg.spec.packs s h)
      | inr (e, unparsed) ↦ ground arith
    ]
    | inr (e, lost) ↦ ground arith
  ]

  -- A deletion of the extension leaves a managed resource alone that is in another namespace, or that is
  -- of no pack of the collection, also where it fails.
  pub delete-frame :
      (s : P.Seed)
      → All (λ pack. IsApart P M ex.namespace ns' name' pack.name) c.packs
      → M.managed ns' name' (delete P c ex s).1 ≡ M.managed ns' name' s
  unfolding delete
  delete-frame s h =
      delete_packs-frame P M ex.namespace ns' name' (names_of c.packs) s
        (All-IsApart-names P M ex.namespace ns' name' c none c.packs h)
