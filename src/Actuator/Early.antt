-- ===== src/Actuator/Early.antt =====
-- The passes of the actuator that end early, and what the errors of a pass say of the cluster.
use gardener_extension_shoot.Base.{
  ◌≡◌, refl, ◌≢◌, inl, inr, ◌⊎◌, false, Option, none, some, List, [], ◌∷◌, ok, arith, Str, All,
  All-map, Result-cases,
}
use gardener_extension_shoot.Config.{Pack, PackConfig}
use gardener_extension_shoot.Config.Validation.{validate}
use gardener_extension_shoot.Config.Validation.Laws.{IsValid, validate-iff-IsValid}
use gardener_extension_shoot.Assets.{Collection, get_pack}
use gardener_extension_shoot.Platform.{Platform, Managed}
use gardener_extension_shoot.Actuator.Errors.{
  Error, cluster_failed, no_provider_config, invalid_provider_config, invalid_config, delete_failed,
}
use gardener_extension_shoot.Actuator.Names.{mr_name-ne}
use gardener_extension_shoot.Actuator.Frame.{reconcile_packs-frame}
use gardener_extension_shoot.Actuator.{
  Extension, mr_name, reconcile_pack, reconcile_packs, delete_packs, disabled_names,
  reconcile_config, parse_config, reconcile_cluster, reconcile,
}

-- How far a pass came, by the error that it returns.
pub data Stage : Type 0 where
  reading : Stage
  in_packs : Stage
  in_deletions : Stage
  finished : Stage

abbrev pub stage_of : Error → Stage
stage_of (cluster_failed e) = reading
stage_of no_provider_config = reading
stage_of (invalid_provider_config e) = reading
stage_of (invalid_config errs) = reading
stage_of (delete_failed e) = in_deletions
stage_of _ = in_packs

abbrev pub stage : Option Error → Stage
stage none = finished
stage (some e) = stage_of e

module _ (P : Platform) (c : Collection) (ns : Str) (shoot : Option P.Shoot) where
  delete_packs-stage :
      (names : List Str) (s : P.Seed)
      → (stage (delete_packs P ns names s).0 ≡ finished)
        ⊎ (stage (delete_packs P ns names s).0 ≡ in_deletions)
  unfolding delete_packs
  delete_packs-stage [] s = inl refl
  delete_packs-stage (name ∷ names) s =
      ground (arith, delete_packs-stage names (P.delete_for_shoot ns (mr_name name) s).1)

  reconcile_packs-stage :
      (specs : List (Pack P.Selector)) (s : P.Seed)
      → (stage (reconcile_packs P c ns shoot specs s).0 ≡ finished)
        ⊎ (stage (reconcile_packs P c ns shoot specs s).0 ≡ in_packs)
  unfolding reconcile_packs
  reconcile_packs-stage [] s = inl refl
  reconcile_packs-stage (spec ∷ specs) s = elim (Result-cases (get_pack c spec.name spec.version)) [
    | inl (asset, found) ↦ ground (
      arith,
      reconcile_packs-stage specs (reconcile_pack P ns (some shoot) spec (some asset) s).1,
    )
    | inr lost ↦ ground arith
  ]

  reconcile_config-stage :
      (specs : List (Pack P.Selector)) (s : P.Seed)
      → stage (reconcile_config P c ns shoot specs s).0 ≢ reading
  unfolding reconcile_config
  reconcile_config-stage specs s = ground (
    arith,
    reconcile_packs-stage specs s,
    delete_packs-stage (disabled_names specs c.packs) (reconcile_packs P c ns shoot specs s).1,
  )

module _ (P : Platform) (c : Collection) (ex : Extension) (s : P.Seed) where
  -- A pass whose error is of the cluster or of its provider config leaves all of the state as it
  -- was.
  pub reconcile-reading : stage (reconcile P c ex s).0 ≡ reading → (reconcile P c ex s).1 ≡ s
  unfolding reconcile reconcile_cluster
  reconcile-reading h = elim (Result-cases (P.get_cluster ex.namespace s)) [
    | inl (shoot, found) ↦ elim (Result-cases (parse_config P ex.provider_config)) [
      | inl (cfg, valid) ↦
          ground (arith, reconcile_config-stage P c ex.namespace shoot cfg.spec.packs s)
      | inr invalid ↦ ground arith
    ]
    | inr lost ↦ ground arith
  ]

  pub reconcile-change :
      ((reconcile P c ex s).1 ≡ s)
      ⊎ ((shoot : Option P.Shoot) × (raw : Str) × (cfg : PackConfig P.Selector) × (P.get_cluster
              ex.namespace s
            ≡ ok shoot)
          × (P.hibernation_is_enabled shoot ≡ false)
          × (ex.provider_config ≡ some raw)
          × (P.decode raw ≡ ok cfg)
          × (validate cfg ≡ none)
          × (reconcile P c ex s ≡ reconcile_config P c ex.namespace shoot cfg.spec.packs s))
  unfolding reconcile reconcile_cluster parse_config
  reconcile-change = ground arith

  -- A pass that changes the state has found the cluster, which is not hibernated, and a provider
  -- config that decodes to a valid configuration, and what it does is what the two loops do on the
  -- packs of that configuration.
  pub reconcile-IsValid :
      (reconcile P c ex s).1 ≢ s
      → (shoot : Option P.Shoot) × (raw : Str) × (cfg : PackConfig P.Selector) × (P.get_cluster
            ex.namespace s
          ≡ ok shoot)
        × (P.hibernation_is_enabled shoot ≡ false)
        × (ex.provider_config ≡ some raw)
        × (P.decode raw ≡ ok cfg)
        × IsValid cfg
        × (reconcile P c ex s ≡ reconcile_config P c ex.namespace shoot cfg.spec.packs s)
  reconcile-IsValid changed = elim reconcile-change [
    | inl same ↦ absurd (changed same)
    | inr (shoot, raw, cfg, found, awake, given, decoded, valid, goes_on) ↦
        (shoot, raw, cfg, found, awake, given, decoded, (validate-iff-IsValid cfg).0 valid, goes_on)
  ]

module _ (P : Platform) (M : Managed P) (c : Collection) (ex : Extension) where
  reconcile_config-deletes_nothing :
      (shoot : Option P.Shoot) (specs : List (Pack P.Selector)) (name : Str) (s : P.Seed)
      → All (λ spec. name ≢ spec.name) specs
      → stage (reconcile_config P c ex.namespace shoot specs s).0 ≡ in_packs
      → M.managed ex.namespace (mr_name name) (reconcile_config P c ex.namespace shoot specs s).1
        ≡ M.managed ex.namespace (mr_name name) s
  unfolding reconcile_config
  reconcile_config-deletes_nothing shoot specs name s apart h =
      let ns = ex.namespace in
      let s1 = (reconcile_packs P c ns shoot specs s).1 in
      let kept =
        reconcile_packs-frame P M ns ns (mr_name name) c shoot specs s
          (All-map _ _ specs (λ spec ne. inr (mr_name-ne name spec.name ne)) apart) in
      ground (arith, kept, delete_packs-stage P c ns shoot (disabled_names specs c.packs) s1)

  -- A pass that fails at a pack of the configuration has deleted nothing: the managed resource of a
  -- pack that the configuration does not name is as it was.
  pub reconcile-deletes_nothing :
      {raw : Str} {cfg : PackConfig P.Selector} (name : Str) (s : P.Seed)
      → ex.provider_config ≡ some raw
      → P.decode raw ≡ ok cfg
      → All (λ spec. name ≢ spec.name) cfg.spec.packs
      → stage (reconcile P c ex s).0 ≡ in_packs
      → M.managed ex.namespace (mr_name name) (reconcile P c ex s).1
        ≡ M.managed ex.namespace (mr_name name) s
  unfolding reconcile reconcile_cluster parse_config
  reconcile-deletes_nothing {raw} {cfg} name s given decoded apart h =
      elim (Result-cases (P.get_cluster ex.namespace s)) [
        | inl (shoot, found) ↦
            ground (arith, reconcile_config-deletes_nothing shoot cfg.spec.packs name s apart)
        | inr lost ↦ ground arith
      ]
