-- ===== src/Actuator/Outcome.antt =====
-- The managed resources that a pass leaves, where it goes through.
use mathlib.Core.Path.{subst}
use gardener_extension_shoot.Base.{
  ◌≡◌, ◌∙◌, sym, ◌⊎◌, inl, inr, false, Option, none, some, List, [], ◌∷◌, ok, Str, str_dec, All,
  All-map,
}
use gardener_extension_shoot.Config.{Pack}
use gardener_extension_shoot.Config.Validation.Laws.{NodupNames}
use gardener_extension_shoot.Assets
use gardener_extension_shoot.Assets.{Collection, get_pack}
use gardener_extension_shoot.Platform.{Platform, Managed, not_found}
use gardener_extension_shoot.Actuator.Render.{render_pack}
use gardener_extension_shoot.Actuator.Names.{mr_name-ne}
use gardener_extension_shoot.Actuator.Inversion.{
  deleted, written, reconcile_packs-Step, delete_packs-Step,
}
use gardener_extension_shoot.Actuator.Frame.{IsApart, delete_packs-frame, reconcile_packs-frame}
use gardener_extension_shoot.Actuator.{
  mr_name, managed_resource_origin, reconcile_packs, delete_packs,
}

module _ (P : Platform) (M : Managed P) (ns : Str) where
  deleted-gone :
      (name : Str) (s : P.Seed)
      → ((deleted P ns name s).0 ≡ none) ⊎ ((deleted P ns name s).0 ≡ some not_found)
      → M.managed ns (mr_name name) (deleted P ns name s).1 ≡ none
  deleted-gone name s (inl h) = M.delete_self ns (mr_name name) s h
  deleted-gone name s (inr h) = M.delete_not_found ns (mr_name name) s h

  -- What is gone stays gone while the loop of deletions goes through.
  delete_packs-keeps_gone :
      (name : Str) (names : List Str) (s : P.Seed)
      → M.managed ns (mr_name name) s ≡ none
      → (delete_packs P ns names s).0 ≡ none
      → M.managed ns (mr_name name) (delete_packs P ns names s).1 ≡ none
  delete_packs-keeps_gone name [] s gone h =
      delete_packs-frame P M ns ns (mr_name name) [] s tt ∙ gone
  delete_packs-keeps_gone name (n ∷ names) s gone h =
      let step = delete_packs-Step P ns n names s h in
      let after : M.managed ns (mr_name name) (deleted P ns n s).1 ≡ none = elim (str_dec name n) [
        | yes e ↦ rw e (deleted-gone n s step.gone)
        | no ne ↦
            M.delete_other ns (mr_name n) s ns (mr_name name) (inr (mr_name-ne name n ne)) ∙ gone
      ] in
      rw step.goes_on
        (delete_packs-keeps_gone name names (deleted P ns n s).1 after (rw step.goes_on at h))

  -- None of the packs has a managed resource.
  abbrev pub AreGone : List Str → P.Seed → Type 0
  AreGone names t = All (λ n. M.managed ns (mr_name n) t ≡ none) names

  pub delete_packs-AreGone :
      (names : List Str) (s : P.Seed)
      → (delete_packs P ns names s).0 ≡ none
      → AreGone names (delete_packs P ns names s).1
  delete_packs-AreGone [] s h = tt
  delete_packs-AreGone (n ∷ names) s h =
      let step = delete_packs-Step P ns n names s h in
      let s1 = (deleted P ns n s).1 in
      let h' : (delete_packs P ns names s1).0 ≡ none = rw step.goes_on at h in
      subst (λ r. AreGone (n ∷ names) r.1) (sym step.goes_on)
        (
          delete_packs-keeps_gone n names s1 (deleted-gone n s step.gone) h',
          delete_packs-AreGone names s1 h',
        )

  module _ (c : Collection) (shoot : Option P.Shoot) where
    -- The managed resource of the pack holds what the pack was rendered to, in some state.
    pub record IsDeployed (t : P.Seed) (spec : Pack P.Selector) : Type 0 where
      pub asset : Assets.Pack
      pub found : get_pack c spec.name spec.version ≡ ok asset
      pub before : P.Seed
      pub bundle : P.Bundle
      pub rendered : render_pack P ns shoot spec asset before ≡ ok bundle
      pub present : M.managed ns (mr_name spec.name) t ≡ some bundle

    abbrev pub AreDeployed : List (Pack P.Selector) → P.Seed → Type 0
    AreDeployed specs t = All (IsDeployed t) specs

    pub reconcile_packs-AreDeployed :
        (specs : List (Pack P.Selector)) (s : P.Seed)
        → NodupNames specs
        → (reconcile_packs P c ns shoot specs s).0 ≡ none
        → AreDeployed specs (reconcile_packs P c ns shoot specs s).1
    reconcile_packs-AreDeployed [] s nodup h = tt
    reconcile_packs-AreDeployed (spec ∷ specs) s (differ, nodup) h =
        let step = reconcile_packs-Step P c ns shoot spec specs s h in
        let s1 = (written P c ns shoot spec.name step.bundle s).1 in
        let h' : (reconcile_packs P c ns shoot specs s1).0 ≡ none = rw step.goes_on at h in
        let apart : All (λ q. IsApart P M ns ns (mr_name spec.name) q.name) specs =
          All-map _ _ specs (λ q ne. inr (mr_name-ne spec.name q.name ne)) differ in
        let here =
          M.create_self ns (mr_name spec.name) managed_resource_origin false step.bundle s
            step.created in
        subst (λ r. AreDeployed (spec ∷ specs) r.1) (sym step.goes_on)
          (
            record {
              asset = step.asset;
              found = step.found;
              before = s;
              bundle = step.bundle;
              rendered = step.rendered;
              present =
                  reconcile_packs-frame P M ns ns (mr_name spec.name) c shoot specs s1 apart ∙ here;
            },
            reconcile_packs-AreDeployed specs s1 nodup h',
          )
