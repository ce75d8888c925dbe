-- ===== src/Actuator/Shuffle/Passes.antt =====
-- Passes that are repeated while the keys of the secrets come in any order.
use gardener_extension_shoot.Base.{
  ◌≡◌, refl, sym, ap, ◌∙◌, inl, inr, Option, none, some, List, [], ◌∷◌, Result, ok, err, arith, Str,
  Result-cases,
}
use gardener_extension_shoot.Base.Dict.{Dict}
use gardener_extension_shoot.Config.{Pack}
use gardener_extension_shoot.Assets
use gardener_extension_shoot.Assets.{Collection, get_pack}
use gardener_extension_shoot.Platform.{Platform, Managed, Steady}
use gardener_extension_shoot.Actuator.Steady.{IsSame, create-IsSame, reconcile_config-IsSame}
use gardener_extension_shoot.Actuator.Early.{reconcile-change}
use gardener_extension_shoot.Actuator.Converge.{reconcile-again}
use gardener_extension_shoot.Actuator.Errors.{Error}
use gardener_extension_shoot.Actuator.Render.{render_pack}
use gardener_extension_shoot.Actuator.Shuffle.{
  AreReordered, HasOneKey, shuffled, render_pack-shuffled,
}
use gardener_extension_shoot.Actuator.{
  Extension, create, reconcile_pack, reconcile_packs, delete_packs, disabled_names,
  reconcile_config, parse_config, reconcile_cluster, reconcile,
}

HasOneKey-IsSame :
    (P : Platform) (ns : Str) {s t : P.Seed} → IsSame P ns s t → HasOneKey P ns s → HasOneKey P ns t
HasOneKey-IsSame P ns same one_key ref secret got = one_key ref secret (sym (same ref) ∙ got)

module _ (P : Platform) (H : Steady P) (order : Str → Str → P.Seed → Dict Str → Dict Str)
    (orders : (ns name : Str) (s : P.Seed) (d : Dict Str) → AreReordered (order ns name s d) d)
    (c : Collection) where
  abbrev Q : Platform
  Q = shuffled P order

  delete_packs-shuffled :
      (ns : Str) (names : List Str) (s : P.Seed)
      → delete_packs Q ns names s ≡ delete_packs P ns names s
  unfolding delete_packs
  delete_packs-shuffled ns [] s = refl
  delete_packs-shuffled ns (name ∷ names) s = ground (arith, delete_packs-shuffled ns names)

  create-shuffled :
      (ns name : Str) (m : Result Error P.Bundle) (s : P.Seed)
      → create Q ns name m s ≡ create P ns name m s
  unfolding create
  create-shuffled ns name (err e) s = refl
  create-shuffled ns name (ok bundle) s = refl

  module _ (ns : Str) (shoot : Option P.Shoot) where
    reconcile_pack-shuffled :
        (spec : Pack P.Selector) (asset : Assets.Pack) (s : P.Seed)
        → HasOneKey P ns s
        → reconcile_pack Q ns (some shoot) spec (some asset) s
          ≡ reconcile_pack P ns (some shoot) spec (some asset) s
    unfolding reconcile_pack
    reconcile_pack-shuffled spec asset s one_key =
        rw (render_pack-shuffled P order orders ns shoot s one_key spec asset)
          (create-shuffled ns asset.name (render_pack P ns shoot spec asset s) s)

    reconcile_pack-IsSame :
        (spec : Pack P.Selector) (asset : Assets.Pack) (s : P.Seed)
        → IsSame P ns s (reconcile_pack P ns (some shoot) spec (some asset) s).1
    unfolding reconcile_pack
    reconcile_pack-IsSame spec asset s =
        create-IsSame P H ns ns asset.name (render_pack P ns shoot spec asset s) s

    reconcile_packs-shuffled :
        (specs : List (Pack P.Selector)) (s : P.Seed)
        → HasOneKey P ns s
        → reconcile_packs Q c ns shoot specs s ≡ reconcile_packs P c ns shoot specs s
    unfolding reconcile_packs
    reconcile_packs-shuffled [] s one_key = refl
    reconcile_packs-shuffled (spec ∷ specs) s one_key =
        elim (Result-cases (get_pack c spec.name spec.version)) [
          | inl (asset, found) ↦
              let t = (reconcile_pack P ns (some shoot) spec (some asset) s).1 in
              let same : IsSame P ns s t = reconcile_pack-IsSame spec asset s in
              ground (
                arith,
                reconcile_pack-shuffled spec asset s one_key,
                reconcile_packs-shuffled specs t (HasOneKey-IsSame P ns same one_key),
              )
          | inr (e, lost) ↦ ground arith
        ]

    reconcile_config-shuffled :
        (specs : List (Pack P.Selector)) (s : P.Seed)
        → HasOneKey P ns s
        → reconcile_config Q c ns shoot specs s ≡ reconcile_config P c ns shoot specs s
    unfolding reconcile_config
    reconcile_config-shuffled specs s one_key = ground (
      arith,
      reconcile_packs-shuffled specs s one_key,
      delete_packs-shuffled ns (disabled_names specs c.packs)
          (reconcile_packs P c ns shoot specs s).1,
    )

  parse_config-shuffled : (config : Option Str) → parse_config Q config ≡ parse_config P config
  unfolding parse_config
  parse_config-shuffled none = refl
  parse_config-shuffled (some raw) = refl

  reconcile-shuffled :
      (ex : Extension) (s : P.Seed)
      → HasOneKey P ex.namespace s
      → reconcile Q c ex s ≡ reconcile P c ex s
  unfolding reconcile reconcile_cluster
  reconcile-shuffled ex s one_key = elim (Result-cases (P.get_cluster ex.namespace s)) [
    | inl (shoot, found) ↦ elim (Result-cases (parse_config P ex.provider_config)) [
      | inl (cfg, parsed) ↦ ground (
        arith,
        parse_config-shuffled ex.provider_config,
        reconcile_config-shuffled ex.namespace shoot cfg.spec.packs s one_key,
      )
      | inr (e, unparsed) ↦ ground (arith, parse_config-shuffled ex.provider_config)
    ]
    | inr (e, lost) ↦ ground arith
  ]

  reconcile-IsSame : (ex : Extension) (s : P.Seed) → IsSame P ex.namespace s (reconcile P c ex s).1
  reconcile-IsSame ex s ref = elim (reconcile-change P c ex s) [
    | inl same ↦ rw same refl
    | inr (shoot, _, cfg, _, _, _, _, _, goes_on) ↦
        rw goes_on
          (reconcile_config-IsSame P H ex.namespace ex.namespace c shoot cfg.spec.packs s ref)
  ]

  -- Let a pass go through, and let a second pass go through from the state that it leaves, for which
  -- the keys of each secret may come in another order. The second then leaves every managed
  -- resource of every namespace as the first left it, provided that the secrets that the shoot can
  -- refer to have at most one key each, and that managed resources are written and deleted without
  -- touching clusters and those secrets.
  pub reconcile-twice :
      (M : Managed P) (ex : Extension) (s : P.Seed)
      → HasOneKey P ex.namespace s
      → (reconcile P c ex s).0 ≡ none
      → (reconcile Q c ex (reconcile P c ex s).1).0 ≡ none
      → (ns' name' : Str)
      → M.managed ns' name' (reconcile Q c ex (reconcile P c ex s).1).1
        ≡ M.managed ns' name' (reconcile P c ex s).1
  reconcile-twice M ex s one_key first second ns' name' =
      let t = (reconcile P c ex s).1 in
      let as_before : reconcile Q c ex t ≡ reconcile P c ex t =
        reconcile-shuffled ex t (HasOneKey-IsSame P ex.namespace (reconcile-IsSame ex s) one_key) in
      ap (λ r. M.managed ns' name' r.1) as_before
      ∙ reconcile-again P M H c ex s first (sym (ap (λ r. r.0) as_before) ∙ second) ns' name'
