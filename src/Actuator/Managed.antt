-- ===== src/Actuator/Managed.antt =====
-- The contract of a pass that goes through: the packs that the shoot asks for are deployed, and those
-- that it does not ask for are gone.
use mathlib.Core.Path.{subst}
use gardener_extension_shoot.Base.{
  ◌≡◌, ◌∙◌, sym, ◌≢◌, inl, inr, true, false, Option, none, some, List, [], ◌∷◌, ok, arith, Str,
  ◌==◌, ◌&&◌, All, All-map, Any, Any-All, Any-elim, All-zip, ◌↔◌, Bool-cases, contains_func,
}
use gardener_extension_shoot.Config.{Pack, PackConfig}
use gardener_extension_shoot.Config.Validation.{validate}
use gardener_extension_shoot.Config.Validation.Laws.{NodupNames, validate-iff-IsValid}
use gardener_extension_shoot.Assets
use gardener_extension_shoot.Assets.{Collection}
use gardener_extension_shoot.Platform.{Platform, Managed}
use gardener_extension_shoot.Actuator.Names.{mr_name-ne}
use gardener_extension_shoot.Actuator.Frame.{IsApart, delete_packs-frame}
use gardener_extension_shoot.Actuator.Outcome.{
  IsDeployed, delete_packs-AreGone, reconcile_packs-AreDeployed,
}
use gardener_extension_shoot.Actuator.{
  mr_name, reconcile_packs, delete_packs, disabled_names, is_enabled, reconcile_config, Extension,
  reconcile, parse_config, reconcile_cluster,
}

module _ {S : Type 0} (specs : List (Pack S)) where
  -- The configuration asks for the pack of the collection, in its version.
  abbrev pub IsConfigured : Assets.Pack → Type 0
  IsConfigured pack = Any (λ spec. (spec.name ≡ pack.name) × (spec.version ≡ pack.version)) specs

  is_enabled-Any :
      (pack : Assets.Pack) (items : List (Pack S))
      → (contains_func (λ item. item.name == pack.name && item.version == pack.version) items
          ≡ true)
        ↔ Any (λ spec. (spec.name ≡ pack.name) × (spec.version ≡ pack.version)) items
  is_enabled-Any pack [] = (λ h. cc, λ h. absurd h)
  is_enabled-Any pack (item ∷ items) = ground (arith, is_enabled-Any pack items)

  is_enabled_iff : (pack : Assets.Pack) → (is_enabled specs pack ≡ true) ↔ IsConfigured pack
  is_enabled_iff pack = is_enabled-Any pack specs

  disabled_names-asked :
      (pack : Assets.Pack) (packs : List Assets.Pack)
      → is_enabled specs pack ≡ true
      → disabled_names specs (pack ∷ packs) ≡ disabled_names specs packs
  unfolding disabled_names
  disabled_names-asked pack packs h = ground arith

  disabled_names-unasked :
      (pack : Assets.Pack) (packs : List Assets.Pack)
      → is_enabled specs pack ≡ false
      → disabled_names specs (pack ∷ packs) ≡ pack.name ∷ disabled_names specs packs
  unfolding disabled_names
  disabled_names-unasked pack packs h = ground arith

  unasked-IsConfigured : (pack : Assets.Pack) → is_enabled specs pack ≡ false → ¬ IsConfigured pack
  unasked-IsConfigured pack h asked = cc ((is_enabled_iff pack).1 asked)

  -- The names of the packs to delete avoid a name all whose packs are asked for.
  disabled_names-avoid :
      (name : Str) (packs : List Assets.Pack)
      → All (λ pack. pack.name ≡ name → IsConfigured pack) packs
      → All (λ n. name ≢ n) (disabled_names specs packs)
  unfolding disabled_names
  disabled_names-avoid name [] h = tt
  disabled_names-avoid name (pack ∷ packs) (first, h) =
      let rest = disabled_names-avoid name packs h in
      elim (Bool-cases (is_enabled specs pack)) [
        | inl asked ↦ subst (All (λ n. name ≢ n)) (sym (disabled_names-asked pack packs asked)) rest
        | inr unasked ↦
            subst (All (λ n. name ≢ n)) (sym (disabled_names-unasked pack packs unasked))
              (λ e. unasked-IsConfigured pack unasked (first (sym e)), rest)
      ]

  -- They hold each pack that is not asked for.
  disabled_names-cover :
      (T : Str → Type 0) (packs : List Assets.Pack)
      → All T (disabled_names specs packs)
      → All (λ pack. ¬ IsConfigured pack → T pack.name) packs
  disabled_names-cover T [] h = tt
  disabled_names-cover T (pack ∷ packs) h = elim (Bool-cases (is_enabled specs pack)) [
    | inl asked ↦ (
      λ not_asked. absurd (not_asked ((is_enabled_iff pack).0 asked)),
      disabled_names-cover T packs (subst (All T) (disabled_names-asked pack packs asked) h),
    )
    | inr unasked ↦
        let h' = subst (All T) (disabled_names-unasked pack packs unasked) h in
        (λ _. h'.0, disabled_names-cover T packs h'.1)
  ]

module _ {S : Type 0} where
  -- Another version of the pack is not asked for, since no name is configured twice.
  other_version :
      (pack : Assets.Pack) (specs : List (Pack S))
      → NodupNames specs
      → All
          (λ spec. pack.name ≡ spec.name → pack.version ≢ spec.version → ¬ IsConfigured specs pack)
          specs
  other_version pack [] nodup = tt
  other_version pack (spec ∷ specs) (differ, nodup) = (
    λ same other. elim [
      | inl (_, v) ↦ other (sym v)
      | inr later ↦
          Any-elim _ specs (λ q (here, ne). ne (sym same ∙ sym here.0))
            (Any-All _ _ specs later differ)
    ],
    All-map _ _ specs
        (λ q (ne, keep) same other. elim [
          | inl (n, _) ↦ ne (n ∙ same)
          | inr later ↦ keep same other later
        ])
        (All-zip _ _ specs differ (other_version pack specs nodup)),
  )

module _ (P : Platform) (M : Managed P) (c : Collection) where
  -- What a pass has to achieve for a list of packs: a pack is deployed if all its versions that the
  -- collection has are asked for, and a pack of the collection that is not asked for is gone.
  pub record IsReconciled (ns : Str) (shoot : Option P.Shoot) (specs : List (Pack P.Selector))
      (t : P.Seed) : Type 0 where
    pub deployed :
        All
          (λ spec.
            All (λ pack. pack.name ≡ spec.name → IsConfigured specs pack) c.packs
            → IsDeployed P M ns c shoot t spec)
          specs
    pub gone :
        All (λ pack. ¬ IsConfigured specs pack → M.managed ns (mr_name pack.name) t ≡ none) c.packs

  pub reconcile_config-eq-ok :
      (ns : Str) (shoot : Option P.Shoot) (specs : List (Pack P.Selector)) (s : P.Seed)
      → (reconcile_config P c ns shoot specs s).0 ≡ none
      → let t = (reconcile_packs P c ns shoot specs s).1 in
        ((reconcile_packs P c ns shoot specs s).0 ≡ none)
        × (reconcile_config P c ns shoot specs s
            ≡ delete_packs P ns (disabled_names specs c.packs) t)
  unfolding reconcile_config
  reconcile_config-eq-ok ns shoot specs s h = ground arith

  reconcile_config-IsReconciled :
      (ns : Str) (shoot : Option P.Shoot) (specs : List (Pack P.Selector)) (s : P.Seed)
      → NodupNames specs
      → (reconcile_config P c ns shoot specs s).0 ≡ none
      → IsReconciled ns shoot specs (reconcile_config P c ns shoot specs s).1
  reconcile_config-IsReconciled ns shoot specs s nodup h =
      let (packs_ok, goes_on) = reconcile_config-eq-ok ns shoot specs s h in
      let names = disabled_names specs c.packs in
      let t = (reconcile_packs P c ns shoot specs s).1 in
      let deletes_ok : (delete_packs P ns names t).0 ≡ none = rw goes_on at h in
      let gone = delete_packs-AreGone P M ns names t deletes_ok in
      let still : (spec : Pack P.Selector)
          → IsDeployed P M ns c shoot t spec
          → All (λ pack. pack.name ≡ spec.name → IsConfigured specs pack) c.packs
          → IsDeployed P M ns c shoot (delete_packs P ns names t).1 spec =
        λ spec d sole.
          let apart : All (IsApart P M ns ns (mr_name spec.name)) names =
            All-map _ _ names (λ n ne. inr (mr_name-ne spec.name n ne))
              (disabled_names-avoid specs spec.name c.packs sole) in
          record {
            asset = d.asset;
            found = d.found;
            before = d.before;
            bundle = d.bundle;
            rendered = d.rendered;
            present = delete_packs-frame P M ns ns (mr_name spec.name) names t apart ∙ d.present;
          } in
      let kept = reconcile_packs-AreDeployed P M ns c shoot specs s nodup packs_ok in
      subst (λ r. IsReconciled ns shoot specs r.1) (sym goes_on)
        (record {
          deployed = All-map _ _ specs still kept;
          gone = disabled_names-cover specs _ c.packs gone;
        })

  -- A pass over an awake cluster that goes through read a valid configuration, and went on with it.
  reconcile-eq-ok :
      (ex : Extension) {shoot : Option P.Shoot} (s : P.Seed)
      → P.get_cluster ex.namespace s ≡ ok shoot
      → P.hibernation_is_enabled shoot ≡ false
      → (reconcile P c ex s).0 ≡ none
      → (raw : Str) × (cfg : PackConfig P.Selector) × (ex.provider_config ≡ some raw)
        × (P.decode raw ≡ ok cfg)
        × (validate cfg ≡ none)
        × (reconcile P c ex s ≡ reconcile_config P c ex.namespace shoot cfg.spec.packs s)
  unfolding reconcile reconcile_cluster parse_config
  reconcile-eq-ok ex s found awake h = ground arith

  -- A pass over a cluster that is not hibernated, if it goes through, has read a configuration, and
  -- afterwards each pack that it names is deployed, with what the pack was rendered to, provided
  -- that it names all versions of the pack that the collection has; and the managed resource of
  -- each pack of the collection that it does not name in that version is gone.
  pub reconcile-IsReconciled :
      (ex : Extension) {shoot : Option P.Shoot} (s : P.Seed)
      → P.get_cluster ex.namespace s ≡ ok shoot
      → P.hibernation_is_enabled shoot ≡ false
      → (reconcile P c ex s).0 ≡ none
      → (raw : Str) × (cfg : PackConfig P.Selector) × (ex.provider_config ≡ some raw)
        × (P.decode raw ≡ ok cfg)
        × IsReconciled ex.namespace shoot cfg.spec.packs (reconcile P c ex s).1
  reconcile-IsReconciled ex {shoot} s found awake h =
      let (raw, cfg, given, decoded, valid, goes_on) =
        reconcile-eq-ok ex {shoot = shoot} s found awake h in
      let specs = cfg.spec.packs in
      let nodup = ((validate-iff-IsValid cfg).0 valid).nodup in
      let done = reconcile_config-IsReconciled ex.namespace shoot specs s nodup (rw goes_on at h) in
      (
        raw,
        cfg,
        given,
        decoded,
        subst (λ r. IsReconciled ex.namespace shoot specs r.1) (sym goes_on) done,
      )

  -- After a pass over a cluster that is not hibernated and that goes through, a configured pack of
  -- which the collection has another version has no managed resource: the deletions share its name.
  pub reconcile-other_version :
      (ex : Extension) {shoot : Option P.Shoot} (s : P.Seed)
      → P.get_cluster ex.namespace s ≡ ok shoot
      → P.hibernation_is_enabled shoot ≡ false
      → (reconcile P c ex s).0 ≡ none
      → (raw : Str) × (cfg : PackConfig P.Selector) × (ex.provider_config ≡ some raw)
        × (P.decode raw ≡ ok cfg)
        × All
            (λ pack.
              All
                (λ spec.
                  pack.name ≡ spec.name
                  → pack.version ≢ spec.version
                  → M.managed ex.namespace (mr_name spec.name) (reconcile P c ex s).1 ≡ none)
                cfg.spec.packs)
            c.packs
  reconcile-other_version ex {shoot} s found awake h =
      let (raw, cfg, given, decoded, valid, goes_on) =
        reconcile-eq-ok ex {shoot = shoot} s found awake h in
      let specs = cfg.spec.packs in
      let nodup = ((validate-iff-IsValid cfg).0 valid).nodup in
      let done = reconcile_config-IsReconciled ex.namespace shoot specs s nodup (rw goes_on at h) in
      let state = subst (λ r. IsReconciled ex.namespace shoot specs r.1) (sym goes_on) done in
      (
        raw,
        cfg,
        given,
        decoded,
        All-map _ _ c.packs
            (λ pack gone.
              All-map _ _ specs (λ spec unasked same other. rw (← same) (gone (unasked same other)))
                (other_version pack specs nodup))
            state.gone,
      )
