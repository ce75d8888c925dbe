-- ===== src/Actuator/Local.antt =====
-- What the actuator does in a namespace is up to what the namespace looks like.
use gardener_extension_shoot.Base.{
  refl, ap, ◌∙◌, inl, inr, false, Option, none, some, List, [], ◌∷◌, Result, ok, err, arith, Str,
  Bool-cases, Result-cases, Option-cases,
}
use gardener_extension_shoot.Config.{Pack, pack_string}
use gardener_extension_shoot.Assets.{Collection, pack_exists}
use gardener_extension_shoot.Assets.Lookup.{get_pack-exists}
use gardener_extension_shoot.Platform.{Platform, Looks, View}
use gardener_extension_shoot.Actuator.Errors.{
  Error, delete_failed, cluster_failed, no_such_pack, unable_to_reconcile,
}
use gardener_extension_shoot.Actuator.Render.{render_pack}
use gardener_extension_shoot.Actuator.Steady.{render_pack-same}
use gardener_extension_shoot.Actuator.{
  Extension, mr_name, managed_resource_origin, ignore_not_found, create, reconcile_pack,
  reconcile_packs, delete_packs, disabled_names, reconcile_config, parse_config, reconcile_cluster,
  reconcile, names_of, delete,
}
use gardener_extension_shoot.Actuator.Own.{Agrees, Agrees-eq, Own}

module _ (P : Platform) (view : View P) (ns : Str) (O : Own P view ns) where
  create-Agrees :
      (name : Str) (m : Result Error P.Bundle) (s t : P.Seed)
      → Looks P view ns s t
      → Agrees P view ns (create P ns name m s) (create P ns name m t)
  unfolding create
  create-Agrees name (err e) s t h = record { returned = refl; left = h }
  create-Agrees name (ok bundle) s t h =
      let one = O.create_agrees (mr_name name) managed_resource_origin false bundle s t h in
      record { returned = ground (arith, one.returned); left = one.left }

  delete_packs-Agrees :
      (names : List Str) (s t : P.Seed)
      → Looks P view ns s t
      → Agrees P view ns (delete_packs P ns names s) (delete_packs P ns names t)
  unfolding delete_packs
  delete_packs-Agrees [] s t h = record { returned = refl; left = h }
  delete_packs-Agrees (name ∷ names) s t h =
      let one = O.delete_agrees (mr_name name) s t h in
      let rest =
        delete_packs-Agrees names (P.delete_for_shoot ns (mr_name name) s).1
          (P.delete_for_shoot ns (mr_name name) t).1 one.left in
      elim (Option-cases (ignore_not_found (P.delete_for_shoot ns (mr_name name) s).0)) [
        | inl gone ↦
            let gone' = ap ignore_not_found one.returned ∙ gone in
            Agrees-eq (ground arith) (ground arith) rest
        | inr (e, lost) ↦
            let lost' = ap ignore_not_found one.returned ∙ lost in
            Agrees-eq {a' = (some (delete_failed e), (P.delete_for_shoot ns (mr_name name) s).1)}
              {b' = (some (delete_failed e), (P.delete_for_shoot ns (mr_name name) t).1)}
              (ground arith) (ground arith) record { returned = refl; left = one.left }
      ]

  module _ (c : Collection) (shoot : Option P.Shoot) where
    reconcile_packs-Agrees :
        (specs : List (Pack P.Selector)) (s t : P.Seed)
        → Looks P view ns s t
        → Agrees P view ns
            (reconcile_packs P c ns shoot specs s)
            (reconcile_packs P c ns shoot specs t)
    unfolding reconcile_packs reconcile_pack
    reconcile_packs-Agrees [] s t h = record { returned = refl; left = h }
    reconcile_packs-Agrees (spec ∷ specs) s t h =
        elim (Bool-cases (pack_exists c spec.name spec.version)) [
          | inl exists ↦
              let (asset, found, _, _) = get_pack-exists spec.name spec.version c exists in
              let same = render_pack-same P ns shoot s t h.secrets spec asset in
              let m = render_pack P ns shoot spec asset s in
              let one = create-Agrees asset.name m s t h in
              let rest =
                reconcile_packs-Agrees specs (create P ns asset.name m s).1
                  (create P ns asset.name m t).1 one.left in
              elim (Option-cases (create P ns asset.name m s).0) [
                | inl good ↦
                    let good' = one.returned ∙ good in
                    Agrees-eq (ground arith) (ground (arith, same)) rest
                | inr (e, bad) ↦
                    let bad' = one.returned ∙ bad in
                    Agrees-eq
                      {a' = (
                        some (unable_to_reconcile (pack_string spec) e),
                        (create P ns asset.name m s).1,
                      )}
                      {b' = (
                        some (unable_to_reconcile (pack_string spec) e),
                        (create P ns asset.name m t).1,
                      )}
                      (ground arith) (ground (arith, same))
                      record { returned = refl; left = one.left }
              ]
          | inr lost ↦
              Agrees-eq {a' = (some (no_such_pack (pack_string spec)), s)}
                {b' = (some (no_such_pack (pack_string spec)), t)} (ground arith) (ground arith)
                record { returned = refl; left = h }
        ]

    reconcile_config-Agrees :
        (specs : List (Pack P.Selector)) (s t : P.Seed)
        → Looks P view ns s t
        → Agrees P view ns
            (reconcile_config P c ns shoot specs s)
            (reconcile_config P c ns shoot specs t)
    unfolding reconcile_config
    reconcile_config-Agrees specs s t h =
        let one = reconcile_packs-Agrees specs s t h in
        let rest =
          delete_packs-Agrees (disabled_names specs c.packs)
            (reconcile_packs P c ns shoot specs s).1 (reconcile_packs P c ns shoot specs t).1
            one.left in
        elim (Option-cases (reconcile_packs P c ns shoot specs s).0) [
          | inl good ↦
              let good' = one.returned ∙ good in Agrees-eq (ground arith) (ground arith) rest
          | inr (e, bad) ↦
              let bad' = one.returned ∙ bad in
              Agrees-eq {a' = (some e, (reconcile_packs P c ns shoot specs s).1)}
                {b' = (some e, (reconcile_packs P c ns shoot specs t).1)} (ground arith)
                (ground arith) record { returned = refl; left = one.left }
        ]

module _ (P : Platform) (view : View P) (c : Collection) (ex : Extension)
    (O : Own P view ex.namespace) where
  reconcile_cluster-Agrees :
      (shoot : Option P.Shoot) (s t : P.Seed)
      → Looks P view ex.namespace s t
      → Agrees P view ex.namespace
          (reconcile_cluster P c ex shoot s)
          (reconcile_cluster P c ex shoot t)
  unfolding reconcile_cluster
  reconcile_cluster-Agrees shoot s t h = elim (Bool-cases (P.hibernation_is_enabled shoot)) [
    | inl asleep ↦
        Agrees-eq {a' = (none, s)} {b' = (none, t)} (ground arith) (ground arith)
          record { returned = refl; left = h }
    | inr awake ↦ elim (Result-cases (parse_config P ex.provider_config)) [
      | inl (cfg, parsed) ↦
          Agrees-eq (ground arith) (ground arith)
            (reconcile_config-Agrees P view ex.namespace O c shoot cfg.spec.packs s t h)
      | inr (e, unparsed) ↦
          Agrees-eq {a' = (some e, s)} {b' = (some e, t)} (ground arith) (ground arith)
            record { returned = refl; left = h }
    ]
  ]

  -- What a pass over a shoot returns, and what it leaves in the namespace of the shoot, is up to what the
  -- namespace looks like.
  pub reconcile-Agrees :
      (s t : P.Seed)
      → Looks P view ex.namespace s t
      → Agrees P view ex.namespace (reconcile P c ex s) (reconcile P c ex t)
  unfolding reconcile
  reconcile-Agrees s t h = elim (Result-cases (P.get_cluster ex.namespace s)) [
    | inl (shoot, found) ↦
        let found' = h.cluster ∙ found in
        Agrees-eq (ground arith) (ground arith) (reconcile_cluster-Agrees shoot s t h)
    | inr (e, lost) ↦
        let lost' = h.cluster ∙ lost in
        Agrees-eq {a' = (some (cluster_failed e), s)} {b' = (some (cluster_failed e), t)}
          (ground arith) (ground arith) record { returned = refl; left = h }
  ]

  -- The same of a deletion of the extension.
  pub delete-Agrees :
      (s t : P.Seed)
      → Looks P view ex.namespace s t
      → Agrees P view ex.namespace (delete P c ex s) (delete P c ex t)
  unfolding delete
  delete-Agrees s t h = delete_packs-Agrees P view ex.namespace O (names_of c.packs) s t h
