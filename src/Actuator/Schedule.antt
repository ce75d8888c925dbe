-- ===== src/Actuator/Schedule.antt =====
-- A sequence of calls of the actuator, as the workers of the controller make them, one after another, for
-- the extensions of many shoots.
use gardener_extension_shoot.Base.{
  ◌≡◌, ◌≢◌, refl, sym, ap, ◌∙◌, inl, inr, str_ne, Bool-cases, Option, List, [], ◌∷◌, arith, Str,
  ◌==◌, if◌then◌else◌, Result-cases, All-All,
}
use mathlib.Core.Path.{subst}
use gardener_extension_shoot.Assets.{Collection}
use gardener_extension_shoot.Platform.{Platform, Managed, Steady, Local, Looks, View}
use gardener_extension_shoot.Actuator.Errors.{Error}
use gardener_extension_shoot.Actuator.Frame.{reconcile-frame, delete-frame}
use gardener_extension_shoot.Actuator.Own.{Agrees, Own, own, Looks-trans, Looks-sym}
use gardener_extension_shoot.Actuator.Local.{reconcile-Agrees, delete-Agrees}
use gardener_extension_shoot.Actuator.Steady.{
  reconcile_config-IsSame, delete_packs-IsSame, reconcile_config-cluster, delete_packs-cluster,
}
use gardener_extension_shoot.Actuator.{
  Extension, reconcile, reconcile_cluster, parse_config, delete, force_delete, restore, migrate,
  names_of,
}

-- The five methods of the actuator.
pub data Method : Type 0 where
  reconciling : Method
  deleting : Method
  force_deleting : Method
  restoring : Method
  migrating : Method

pub record Call : Type 0 where
  pub method : Method
  pub ex : Extension

-- The calls for the extensions of a namespace, in their order.
abbrev pub calls_of : Str → List Call → List Call
calls_of ns [] = []
calls_of ns (call ∷ calls) =
    let rest = calls_of ns calls in if call.ex.namespace == ns then call ∷ rest else rest

-- What the calls for the extensions of a namespace returned, in their order.
abbrev pub outcomes_of : Str → List (Str × Option Error) → List (Option Error)
outcomes_of ns [] = []
outcomes_of ns ((ns', e) ∷ outcomes) =
    let rest = outcomes_of ns outcomes in if ns' == ns then e ∷ rest else rest

module _ (P : Platform) (c : Collection) where
  unfoldable pub perform : Method → Extension → P.Seed → Option Error × P.Seed
  perform reconciling = reconcile P c
  perform deleting = delete P c
  perform force_deleting = force_delete P c
  perform restoring = restore P c
  perform migrating = migrate P c

  -- The namespace and the result of each call, and the state that the last of them leaves.
  unfoldable pub run : List Call → P.Seed → List (Str × Option Error) × P.Seed
  run [] s = ([], s)
  run (call ∷ calls) s =
      let (e, s') = perform call.method call.ex s in
      let (outcomes, s'') = run calls s' in ((call.ex.namespace, e) ∷ outcomes, s'')

module _ (P : Platform) (M : Managed P) (H : Steady P) (c : Collection) (ns : Str) where
  reconcile-away :
      (ex : Extension) (s : P.Seed)
      → ns ≢ ex.namespace
      → Looks P M.managed ns s (reconcile P c ex s).1
  unfolding reconcile reconcile_cluster
  reconcile-away ex s away = record {
    cluster = elim (Result-cases (P.get_cluster ex.namespace s)) [
      | inl (shoot, found) ↦ elim (Result-cases (parse_config P ex.provider_config)) [
        | inl (cfg, parsed) ↦
            ground (arith, reconcile_config-cluster P H ex.namespace c shoot cfg.spec.packs s ns)
        | inr (e, unparsed) ↦ ground arith
      ]
      | inr (e, lost) ↦ ground arith
    ];
    secrets = λ ref. elim (Result-cases (P.get_cluster ex.namespace s)) [
      | inl (shoot, found) ↦ elim (Result-cases (parse_config P ex.provider_config)) [
        | inl (cfg, parsed) ↦
            ground (arith, reconcile_config-IsSame P H ex.namespace ns c shoot cfg.spec.packs s ref)
        | inr (e, unparsed) ↦ ground arith
      ]
      | inr (e, lost) ↦ ground arith
    ];
    resources = λ name. reconcile-frame P M c ex ns name s (All-All _ c.packs λ pack. inl away);
  }

  delete-away :
      (ex : Extension) (s : P.Seed) → ns ≢ ex.namespace → Looks P M.managed ns s (delete P c ex s).1
  unfolding delete
  delete-away ex s away = record {
    cluster = delete_packs-cluster P H ex.namespace (names_of c.packs) s ns;
    secrets = delete_packs-IsSame P H ex.namespace ns (names_of c.packs) s;
    resources = λ name. delete-frame P M c ex ns name s (All-All _ c.packs λ pack. inl away);
  }

  -- A call for another namespace leaves the namespace alone.
  pub perform-away :
      (m : Method) (ex : Extension) (s : P.Seed)
      → ns ≢ ex.namespace
      → Looks P M.managed ns s (perform P c m ex s).1
  unfolding perform force_delete restore migrate
  perform-away reconciling = reconcile-away
  perform-away deleting = delete-away
  perform-away force_deleting = delete-away
  perform-away restoring = reconcile-away
  perform-away migrating = reconcile-away

module _ (P : Platform) (view : View P) (c : Collection) (ex : Extension)
    (O : Own P view ex.namespace) where
  pub perform-Agrees :
      (m : Method) (s t : P.Seed)
      → Looks P view ex.namespace s t
      → Agrees P view ex.namespace (perform P c m ex s) (perform P c m ex t)
  unfolding perform force_delete restore migrate
  perform-Agrees reconciling = reconcile-Agrees P view c ex O
  perform-Agrees deleting = delete-Agrees P view c ex O
  perform-Agrees force_deleting = delete-Agrees P view c ex O
  perform-Agrees restoring = reconcile-Agrees P view c ex O
  perform-Agrees migrating = reconcile-Agrees P view c ex O

module _ (P : Platform) (M : Managed P) (H : Steady P) (L : Local M) (c : Collection) where
  module _ (ns : Str) where
    perform-Agrees_in :
        (call : Call) (s t : P.Seed)
        → call.ex.namespace ≡ ns
        → Looks P M.managed ns s t
        → Agrees P M.managed ns
            (perform P c call.method call.ex s)
            (perform P c call.method call.ex t)
    perform-Agrees_in call s t e =
        subst
          (λ ns.
            Looks P M.managed ns s t
            → Agrees P M.managed ns (perform P c call.method call.ex s)
                (perform P c call.method call.ex t))
          e (perform-Agrees P M.managed c call.ex (own P M H L call.ex.namespace) call.method s t)

    -- A run does for a namespace what the calls for its extensions do on their own.
    run-calls_of :
        (calls : List Call) (s t : P.Seed)
        → Looks P M.managed ns s t
        → (outcomes_of ns (run P c calls t).0 ≡ outcomes_of ns (run P c (calls_of ns calls) s).0)
          × Looks P M.managed ns (run P c (calls_of ns calls) s).1 (run P c calls t).1
    unfolding run
    run-calls_of [] s t h = (refl, h)
    run-calls_of (call ∷ calls) s t h = elim (Bool-cases (call.ex.namespace == ns)) [
      | inl here ↦
          let one = perform-Agrees_in call s t (ground arith) h in
          let (outcomes, left) =
            run-calls_of calls (perform P c call.method call.ex s).1
              (perform P c call.method call.ex t).1 one.left in
          rw here (ground (arith, one.returned, here), left)
      | inr away ↦
          let one =
            perform-away P M H c ns call.method call.ex t
              (λ e. str_ne call.ex.namespace ns away (sym e)) in
          rw away (
            run-calls_of calls s (perform P c call.method call.ex t).1
              (Looks-trans P M.managed ns s t _ h one))
    ]

    -- Two runs from one state that make the same calls for the extensions of a namespace, in the same
    -- order, agree on it, whatever they do for others and in between: the calls for its extensions return
    -- the same, and its managed resources, its secrets and its cluster end up the same. It is about whole
    -- calls of the five methods, where what a managed resource's creation or deletion does in a namespace
    -- is up to that namespace.
    pub run-interleaving :
        (xs ys : List Call) (s : P.Seed)
        → calls_of ns xs ≡ calls_of ns ys
        → (outcomes_of ns (run P c ys s).0 ≡ outcomes_of ns (run P c xs s).0)
          × Looks P M.managed ns (run P c xs s).1 (run P c ys s).1
    run-interleaving xs ys s e =
        let same : Looks P M.managed ns s s = record {
          cluster = refl;
          secrets = λ ref. refl;
          resources = λ name. refl;
        } in
        let (outcomes, left) = run-calls_of xs s s same in
        let (outcomes', left') = run-calls_of ys s s same in
        let left'' : Looks P M.managed ns (run P c (calls_of ns xs) s).1 (run P c ys s).1 =
          subst (λ calls. Looks P M.managed ns (run P c calls s).1 (run P c ys s).1) (sym e)
            left' in
        (
          outcomes' ∙ (ap (λ calls. outcomes_of ns (run P c calls s).0) (sym e) ∙ sym outcomes),
          Looks-trans P M.managed ns _ _ _ (Looks-sym P M.managed ns _ _ left) left'',
        )
