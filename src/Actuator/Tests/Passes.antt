-- ===== src/Actuator/Tests/Passes.antt =====
-- The theorems on passes of the actuator, at concrete runs.
use gardener_extension_shoot.Base.{
  ◌≡◌, refl, ap, ◌≢◌, inl, false, List, [], ◌∷◌, Option, none, some, ok, Str, codes, str_dec,
  str_ne, All,
}
use gardener_extension_shoot.Config.{PackConfig}
use gardener_extension_shoot.Config.Validation.Laws.{IsValid}
use gardener_extension_shoot.Platform.Memory.{
  TestSeed, memory_managed, memory-Steady, memory-Local, TestShoot,
}
use gardener_extension_shoot.Platform.{Managed, Looks}
use gardener_extension_shoot.Actuator.{mr_name, reconcile, reconcile_config}
use gardener_extension_shoot.Actuator.Frame.{reconcile-frame}
use gardener_extension_shoot.Actuator.Managed.{
  IsReconciled, reconcile-IsReconciled, reconcile-other_version,
}
use gardener_extension_shoot.Actuator.Early.{
  reconcile-reading, reconcile-IsValid, reconcile-deletes_nothing,
}
use gardener_extension_shoot.Actuator.Schedule.{
  Call, reconciling, deleting, calls_of, outcomes_of, perform, perform-away, run, run-interleaving,
}
use gardener_extension_shoot.Actuator.Overlap.{Interference, overlapped}
use gardener_extension_shoot.Actuator.Overlap.Laws.{perform-overlapped, another_call}
use gardener_extension_shoot.Actuator.Tests.{
  P, ex, seed, shoot, config, two_packs, two_versions, other_pack, no_config, run_two, run_versions,
  run_other, run_no_config, run_writes, pg_resource,
}

abbrev M : Managed P
M = memory_managed config

reconcile-IsReconciled_example :
    (raw : Str) × (cfg : PackConfig Str) × (ex.provider_config ≡ some raw)
    × (P.decode raw ≡ ok cfg)
    × IsReconciled P M two_packs ex.namespace
        (some shoot)
        cfg.spec.packs
        (reconcile P two_packs ex seed).1
reconcile-IsReconciled_example =
    reconcile-IsReconciled P M two_packs ex {shoot = some shoot} seed refl refl run_two

reconcile-other_version_example :
    (raw : Str) × (cfg : PackConfig Str) × (ex.provider_config ≡ some raw)
    × (P.decode raw ≡ ok cfg)
    × All
        (λ pack.
          All
            (λ spec.
              pack.name ≡ spec.name
              → pack.version ≢ spec.version
              → M.managed ex.namespace (mr_name spec.name) (reconcile P two_versions ex seed).1
                ≡ none)
            cfg.spec.packs)
        two_versions.packs
reconcile-other_version_example =
    reconcile-other_version P M two_versions ex {shoot = some shoot} seed refl refl run_versions

apart : codes "b" ≢ codes "shoot--a"
unfolding str_dec
apart = str_ne (codes "b") (codes "shoot--a") refl

reconcile-frame_example :
    M.managed (codes "b") (codes "x") (reconcile P two_packs ex seed).1
    ≡ M.managed (codes "b") (codes "x") seed
reconcile-frame_example =
    reconcile-frame P M two_packs ex (codes "b") (codes "x") seed (inl apart, (inl apart, tt))

reconcile-reading_example : (reconcile P two_packs no_config seed).1 ≡ seed
reconcile-reading_example = reconcile-reading P two_packs no_config seed run_no_config

changed : (reconcile P two_packs ex seed).1 ≢ seed
changed e = run_writes (ap pg_resource e)

reconcile-IsValid_example :
    (s : Option TestShoot) × (raw : Str) × (cfg : PackConfig Str) × (P.get_cluster ex.namespace seed
      ≡ ok s)
    × (P.hibernation_is_enabled s ≡ false)
    × (ex.provider_config ≡ some raw)
    × (P.decode raw ≡ ok cfg)
    × IsValid cfg
    × (reconcile P two_packs ex seed
        ≡ reconcile_config P two_packs ex.namespace s cfg.spec.packs seed)
reconcile-IsValid_example = reconcile-IsValid P two_packs ex seed changed

vk_ne : codes "vk" ≢ codes "pg"
unfolding str_dec
vk_ne = str_ne (codes "vk") (codes "pg") refl

reconcile-deletes_nothing_example :
    M.managed ex.namespace (mr_name (codes "vk")) (reconcile P other_pack ex seed).1
    ≡ M.managed ex.namespace (mr_name (codes "vk")) seed
reconcile-deletes_nothing_example =
    reconcile-deletes_nothing P M other_pack ex {raw = codes "raw"} {cfg = config} (codes "vk") seed
      refl refl (vk_ne, tt) run_other

elsewhere : Call
elsewhere = record {
  method = deleting;
  ex = record { namespace = codes "shoot--b"; provider_config = none };
}

here : Call
here = record { method = reconciling; ex = ex }

same_calls :
    calls_of ex.namespace (here ∷ []) ≡ calls_of ex.namespace (elsewhere ∷ here ∷ elsewhere ∷ [])
unfolding str_dec here elsewhere
same_calls = refl

run-interleaving_example :
    (outcomes_of ex.namespace (run P two_packs (elsewhere ∷ here ∷ elsewhere ∷ []) seed).0
      ≡ outcomes_of ex.namespace (run P two_packs (here ∷ []) seed).0)
    × Looks P M.managed ex.namespace
        (run P two_packs (here ∷ []) seed).1
        (run P two_packs (elsewhere ∷ here ∷ elsewhere ∷ []) seed).1
run-interleaving_example =
    run-interleaving P M (memory-Steady config) (memory-Local config) two_packs ex.namespace
      (here ∷ []) (elsewhere ∷ here ∷ elsewhere ∷ []) seed same_calls

elsewhere_apart : ex.namespace ≢ elsewhere.ex.namespace
unfolding str_dec elsewhere
elsewhere_apart = str_ne ex.namespace elsewhere.ex.namespace refl

abbrev others : List (Interference P M ex.namespace)
others =
    another_call P M (memory-Steady config) two_packs deleting ex elsewhere.ex elsewhere_apart ∷ []

-- The state that the other call leaves.
abbrev later : TestSeed
later = (perform P two_packs deleting elsewhere.ex seed).1

perform-overlapped_example :
    ((perform (overlapped P M ex.namespace) two_packs reconciling ex (later, others)).0
      ≡ (perform P two_packs reconciling ex seed).0)
    × Looks P M.managed ex.namespace
        (perform P two_packs reconciling ex seed).1
        (perform (overlapped P M ex.namespace) two_packs reconciling ex (later, others)).1.0
perform-overlapped_example =
    perform-overlapped P M two_packs ex (memory-Steady config) (memory-Local config) reconciling
      seed later others
      (perform-away P M (memory-Steady config) two_packs ex.namespace deleting elsewhere.ex seed
        elsewhere_apart)
