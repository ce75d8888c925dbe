-- ===== src/Actuator/Overlap/Laws.antt =====
-- What comes of a call of the actuator while others change the cluster.
use mathlib.Core.Path.{subst}
use gardener_extension_shoot.Base.{◌≡◌, ◌≢◌, List}
use gardener_extension_shoot.Assets.{Collection}
use gardener_extension_shoot.Platform.{Platform, Managed, Steady, Local, Looks}
use gardener_extension_shoot.Actuator.Own.{Agrees}
use gardener_extension_shoot.Actuator.Schedule.{
  Method, reconciling, deleting, force_deleting, restoring, migrating, perform, perform-Agrees,
  perform-away,
}
use gardener_extension_shoot.Actuator.Overlap.{
  Interference, overlapped, overlapped_view, overlapped-Own, up,
}
use gardener_extension_shoot.Actuator.Overlap.Alone.{alone, lift, reconcile-alone, delete-alone}
use gardener_extension_shoot.Actuator.{Extension, force_delete, restore, migrate}

module _ (P : Platform) (M : Managed P) (c : Collection) (ex : Extension) where
  perform-alone :
      (m : Method) (s : P.Seed)
      → perform (overlapped P M ex.namespace) c m ex (alone P M ex.namespace s)
        ≡ lift P M ex.namespace (perform P c m ex s)
  unfolding perform force_delete restore migrate
  perform-alone reconciling = reconcile-alone P M ex.namespace c ex
  perform-alone deleting = delete-alone P M ex.namespace c ex
  perform-alone force_deleting = delete-alone P M ex.namespace c ex
  perform-alone restoring = reconcile-alone P M ex.namespace c ex
  perform-alone migrating = reconcile-alone P M ex.namespace c ex

  -- A call of one of the five methods returns what it would return with nobody else at work, and leaves
  -- its namespace looking as it would then (its cluster, its secrets and its managed resources): from
  -- any state in which the namespace looks as it does in the given one, and whatever others do after
  -- each of the call's own calls for managed resources, as long as what they do leaves the namespace
  -- looking as it did; where managed resources leave clusters and secrets alone, and what a call for
  -- one does in a namespace is up to that namespace.
  pub perform-overlapped :
      (H : Steady P) (L : Local M) (m : Method) (s t : P.Seed)
      (others : List (Interference P M ex.namespace))
      → Looks P M.managed ex.namespace s t
      → ((perform (overlapped P M ex.namespace) c m ex (t, others)).0 ≡ (perform P c m ex s).0)
        × Looks P M.managed ex.namespace
            (perform P c m ex s).1
            (perform (overlapped P M ex.namespace) c m ex (t, others)).1.0
  perform-overlapped H L m s t others same =
      let O = overlapped P M ex.namespace in
      let view = overlapped_view P M ex.namespace in
      let one =
        subst (λ r. Agrees O view ex.namespace r (perform O c m ex (t, others))) (perform-alone m s)
          (perform-Agrees O view c ex (overlapped-Own P M ex.namespace H L) m
            (alone P M ex.namespace s) (t, others)
            (up P M ex.namespace (alone P M ex.namespace s) (t, others) same)) in
      (
        one.returned,
        record {
          cluster = one.left.cluster;
          secrets = one.left.secrets;
          resources = one.left.resources;
        },
      )

-- What others do may be a call for the extension of another namespace.
pub another_call :
    (P : Platform) (M : Managed P) (H : Steady P) (c : Collection) (m : Method)
    (ex other : Extension)
    → ex.namespace ≢ other.namespace
    → Interference P M ex.namespace
another_call P M H c m ex other apart = record {
  act = λ s. (perform P c m other s).1;
  harmless = λ s. perform-away P M H c ex.namespace m other s apart;
}
