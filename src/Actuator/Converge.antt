-- ===== src/Actuator/Converge.antt =====
-- Passes that are repeated, with one order of the keys of each secret: the second of two passes that go
-- through finds what it would write.
use mathlib.Core.Path.{subst}
use gardener_extension_shoot.Base.{
  ◌≡◌, ◌∙◌, sym, ap, ◌≢◌, ◌⊎◌, inl, inr, false, Option, none, some, List, [], ◌∷◌, ok, err, arith,
  Str, str_dec, All, All-map, All-zip, Any, Any-All, Any-elim, Result-cases,
}
use gardener_extension_shoot.Config.{Pack, PackConfig}
use gardener_extension_shoot.Config.Validation.{validate}
use gardener_extension_shoot.Config.Validation.Laws.{NodupNames, validate-iff-IsValid}
use gardener_extension_shoot.Assets
use gardener_extension_shoot.Assets.{Collection, get_pack}
use gardener_extension_shoot.Platform.{Platform, Managed, Steady}
use gardener_extension_shoot.Actuator.Names.{mr_name-ne}
use gardener_extension_shoot.Actuator.Render.{render_pack}
use gardener_extension_shoot.Actuator.Inversion.{written, reconcile_packs-Step}
use gardener_extension_shoot.Actuator.Frame.{IsApart, delete_packs-frame, reconcile_packs-frame}
use gardener_extension_shoot.Actuator.Outcome.{delete_packs-AreGone}
use gardener_extension_shoot.Actuator.Early.{reconcile-change}
use gardener_extension_shoot.Actuator.Managed.{reconcile_config-eq-ok}
use gardener_extension_shoot.Actuator.Steady.{
  IsSame, render_pack-same, reconcile_config-IsSame, reconcile_config-cluster,
}
use gardener_extension_shoot.Actuator.{
  mr_name, managed_resource_origin, reconcile_packs, delete_packs, disabled_names, reconcile_config,
  Extension, reconcile, parse_config, reconcile_cluster,
}

-- A name is among those of a list, or it is another one than each.
Any-or-All :
    {A : Type 0} (f : A → Str) (name : Str) (xs : List A)
    → Any (λ x. name ≡ f x) xs ⊎ All (λ x. name ≢ f x) xs
Any-or-All f name [] = inr tt
Any-or-All f name (x ∷ xs) = elim (str_dec name (f x)) [
  | yes e ↦ inl (inl e)
  | no ne ↦ elim (Any-or-All f name xs) [
    | inl later ↦ inl (inr later)
    | inr apart ↦ inr (ne, apart)
  ]
]

All-All : {A : Type 0} (xs : List A) → All (λ x. Unit {0}) xs
All-All [] = tt
All-All (x ∷ xs) = (tt, All-All xs)

module _ (P : Platform) (M : Managed P) (c : Collection) (ns : Str) (shoot : Option P.Shoot) where
  -- What the managed resource of a pack should hold, by the state from which it is rendered.
  unfoldable bundle_of : Pack P.Selector → P.Seed → Option P.Bundle
  bundle_of spec s = elim (get_pack c spec.name spec.version) [
    | err e ↦ none
    | ok asset ↦ elim (render_pack P ns shoot spec asset s) [
      | err e ↦ none
      | ok bundle ↦ some bundle
    ]
  ]

  bundle_of-rendered :
      (spec : Pack P.Selector) (asset : Assets.Pack) (bundle : P.Bundle) (s : P.Seed)
      → get_pack c spec.name spec.version ≡ ok asset
      → render_pack P ns shoot spec asset s ≡ ok bundle
      → bundle_of spec s ≡ some bundle
  unfolding bundle_of
  bundle_of-rendered spec asset bundle s found rendered = ground arith

  bundle_of-same :
      (spec : Pack P.Selector) (s t : P.Seed)
      → IsSame P ns s t
      → bundle_of spec t ≡ bundle_of spec s
  unfolding bundle_of
  bundle_of-same spec s t same = elim (Result-cases (get_pack c spec.name spec.version)) [
    | inl (asset, found) ↦ ground (arith, render_pack-same P ns shoot s t same spec asset)
    | inr (e, lost) ↦ ground arith
  ]

  -- The managed resources of the packs hold what the packs are rendered to from the state.
  abbrev AreCurrent : P.Seed → P.Seed → List (Pack P.Selector) → Type 0
  AreCurrent s t specs = All (λ spec. M.managed ns (mr_name spec.name) t ≡ bundle_of spec s) specs

  module _ (H : Steady P) where
    reconcile_packs-AreCurrent :
        (specs : List (Pack P.Selector)) (s : P.Seed)
        → NodupNames specs
        → (reconcile_packs P c ns shoot specs s).0 ≡ none
        → AreCurrent s (reconcile_packs P c ns shoot specs s).1 specs
    reconcile_packs-AreCurrent [] s nodup h = tt
    reconcile_packs-AreCurrent (spec ∷ specs) s (differ, nodup) h =
        let step = reconcile_packs-Step P c ns shoot spec specs s h in
        let s1 = (written P c ns shoot spec.name step.bundle s).1 in
        let h' : (reconcile_packs P c ns shoot specs s1).0 ≡ none = rw step.goes_on at h in
        let same : IsSame P ns s s1 =
          H.secret_create ns (mr_name spec.name) managed_resource_origin false step.bundle s ns in
        let apart : All (λ q. IsApart P M ns ns (mr_name spec.name) q.name) specs =
          All-map _ _ specs (λ q ne. inr (mr_name-ne spec.name q.name ne)) differ in
        let here =
          M.create_self ns (mr_name spec.name) managed_resource_origin false step.bundle s
            step.created in
        subst (λ r. AreCurrent s r.1 (spec ∷ specs)) (sym step.goes_on)
          (
            reconcile_packs-frame P M ns ns (mr_name spec.name) c shoot specs s1 apart
                ∙ (here
                    ∙ sym (
                        bundle_of-rendered spec step.asset step.bundle s step.found step.rendered)),
            All-map _ _ specs (λ q e. e ∙ bundle_of-same q s s1 same)
                (reconcile_packs-AreCurrent specs s1 nodup h'),
          )

    -- A pass that goes through, with a name of a managed resource, by the lists that hold the name.
    module _ (specs : List (Pack P.Selector)) (s : P.Seed) (nodup : NodupNames specs)
        (passed : (reconcile_config P c ns shoot specs s).0 ≡ none) where
      abbrev after : P.Seed
      after = (reconcile_config P c ns shoot specs s).1

      abbrev names : List Str
      names = disabled_names specs c.packs

      abbrev between : P.Seed
      between = (reconcile_packs P c ns shoot specs s).1

      after-eq : after ≡ (delete_packs P ns names between).1
      after-eq = ap (λ r. r.1) (reconcile_config-eq-ok P M c ns shoot specs s passed).1

      after-gone :
          (name' : Str) → Any (λ n. name' ≡ mr_name n) names → M.managed ns name' after ≡ none
      after-gone name' h =
          let goes_on = (reconcile_config-eq-ok P M c ns shoot specs s passed).1 in
          let gone = delete_packs-AreGone P M ns names between (rw goes_on at passed) in
          Any-elim _ names (λ n (e, none_left). rw (e, after-eq) none_left)
            (Any-All _ _ names h gone)

      after-current :
          (name' : Str)
          → All (λ n. name' ≢ mr_name n) names
          → All
              (λ spec. name' ≡ mr_name spec.name → M.managed ns name' after ≡ bundle_of spec s)
              specs
      after-current name' apart =
          let packs_ok = (reconcile_config-eq-ok P M c ns shoot specs s passed).0 in
          let kept =
            delete_packs-frame P M ns ns name' names between
              (All-map _ _ names (λ n ne. inr ne) apart) in
          All-map _ _ specs
            (λ spec current e.
              ap (M.managed ns name') after-eq
              ∙ (kept ∙ (ap (λ n. M.managed ns n between) e ∙ current)))
            (reconcile_packs-AreCurrent specs s nodup packs_ok)

      after-frame :
          (ns' name' : Str)
          → All (IsApart P M ns ns' name') names
          → All (λ spec. IsApart P M ns ns' name' spec.name) specs
          → M.managed ns' name' after ≡ M.managed ns' name' s
      after-frame ns' name' names_apart specs_apart =
          ap (M.managed ns' name') after-eq
          ∙ (delete_packs-frame P M ns ns' name' names between names_apart
              ∙ reconcile_packs-frame P M ns ns' name' c shoot specs s specs_apart)

    reconcile_config-twice :
        (specs : List (Pack P.Selector)) (s : P.Seed) (nodup : NodupNames specs)
        (first : (reconcile_config P c ns shoot specs s).0 ≡ none)
        → let t = (reconcile_config P c ns shoot specs s).1 in
          (reconcile_config P c ns shoot specs t).0 ≡ none
          → (ns' name' : Str)
          → M.managed ns' name' (reconcile_config P c ns shoot specs t).1 ≡ M.managed ns' name' t
    reconcile_config-twice specs s nodup first second ns' name' =
        let t = (reconcile_config P c ns shoot specs s).1 in
        let names = disabled_names specs c.packs in
        let same = reconcile_config-IsSame P H ns ns c shoot specs s in
        elim (str_dec ns' ns) [
          | no ne ↦
              after-frame specs t nodup second ns' name'
                (All-map (λ n. Unit {0}) _ names (λ n _. inl ne) (All-All names))
                (All-map (λ q. Unit {0}) _ specs (λ q _. inl ne) (All-All specs))
          | yes e ↦ elim (Any-or-All mr_name name' names) [
            | inl deleted ↦ rw e (
                after-gone specs t nodup second name' deleted
                ∙ sym (after-gone specs s nodup first name' deleted))
            | inr apart ↦ elim (Any-or-All (λ q. mr_name q.name) name' specs) [
              | inl asked ↦ rw e (
                  Any-elim _ specs
                    (λ q (h, (current, before)).
                      current h ∙ (bundle_of-same q s t same ∙ sym (before h)))
                    (Any-All _ _ specs asked (
                      All-zip _ _ specs (after-current specs t nodup second name' apart)
                        (after-current specs s nodup first name' apart))))
              | inr other ↦
                  after-frame specs t nodup second ns' name'
                    (All-map _ _ names (λ n ne. inr ne) apart)
                    (All-map _ _ specs (λ q ne. inr ne) other)
            ]
          ]
        ]

-- A pass that gets past its guards does what its loops do.
reconcile-eq-config :
    (P : Platform) (c : Collection) (ex : Extension) (s : P.Seed) (shoot : Option P.Shoot)
    (raw : Str) (cfg : PackConfig P.Selector)
    → P.get_cluster ex.namespace s ≡ ok shoot
    → P.hibernation_is_enabled shoot ≡ false
    → ex.provider_config ≡ some raw
    → P.decode raw ≡ ok cfg
    → validate cfg ≡ none
    → reconcile P c ex s ≡ reconcile_config P c ex.namespace shoot cfg.spec.packs s
unfolding reconcile reconcile_cluster parse_config
reconcile-eq-config P c ex s shoot raw cfg found awake given decoded valid = ground arith

module _ (P : Platform) (M : Managed P) (H : Steady P) (c : Collection) (ex : Extension) where
  pub reconcile-again :
      (s : P.Seed)
      → (reconcile P c ex s).0 ≡ none
      → (reconcile P c ex (reconcile P c ex s).1).0 ≡ none
      → (ns' name' : Str)
      → M.managed ns' name' (reconcile P c ex (reconcile P c ex s).1).1
        ≡ M.managed ns' name' (reconcile P c ex s).1
  reconcile-again s first second ns' name' = elim (reconcile-change P c ex s) [
    | inl same ↦ ap (λ t. M.managed ns' name' (reconcile P c ex t).1) same
    | inr (shoot, raw, cfg, found, awake, given, decoded, valid, goes1) ↦
        let ns = ex.namespace in
        let specs = cfg.spec.packs in
        let t = (reconcile_config P c ns shoot specs s).1 in
        let nodup = ((validate-iff-IsValid cfg).0 valid).nodup in
        let goes2 =
          reconcile-eq-config P c ex t shoot raw cfg
            (reconcile_config-cluster P H ns c shoot specs s ns ∙ found) awake given decoded
            valid in
        let second' : (reconcile P c ex t).0 ≡ none = rw goes1 at second in
        rw (goes1, goes2)
          (reconcile_config-twice P M c ns shoot H specs s nodup (rw goes1 at first)
            (rw goes2 at second') ns' name')
  ]
