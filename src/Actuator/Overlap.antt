-- ===== src/Actuator/Overlap.antt =====
-- Calls of the actuator that overlap with what others do: between two calls for managed resources, the
-- other workers of the controller, and everyone else, may change the cluster.
pub mod Alone
pub mod Laws
use gardener_extension_shoot.Base.{◌≡◌, ◌≢◌, refl, Bool, Option, List, [], ◌∷◌, Str}
use gardener_extension_shoot.Assets.{Collection}
use gardener_extension_shoot.Platform.{Platform, Managed, Steady, Local, Looks, View}
use gardener_extension_shoot.Actuator.Errors.{Error}
use gardener_extension_shoot.Actuator.Own.{Agrees, Own, own, Looks-trans, Looks-sym}
use gardener_extension_shoot.Actuator.Schedule.{Method, perform, perform-Agrees, perform-away}
use gardener_extension_shoot.Actuator.{Extension}

module _ (P : Platform) (M : Managed P) (ns : Str) where
  -- What others do to the cluster, where it leaves the namespace as it looks.
  pub record Interference : Type 0 where
    pub act : P.Seed → P.Seed
    pub harmless : (s : P.Seed) → Looks P M.managed ns s (act s)

  -- The next of what others do, if anything is left of it.
  abbrev pub interfere : P.Seed → List Interference → P.Seed × List Interference
  interfere s [] = (s, [])
  interfere s (next ∷ others) = (next.act s, others)

  -- The platform on which, after each call for a managed resource, others do the next of the list.
  abbrev pub overlapped : Platform
  overlapped = record P {
    Seed = P.Seed × List Interference;
    get_cluster = λ ns s. P.get_cluster ns s.0;
    get_secret = λ ns name s. P.get_secret ns name s.0;
    create_for_shoot = λ ns name origin keep b s.
        let (e, t) = P.create_for_shoot ns name origin keep b s.0 in (e, interfere t s.1);
    delete_for_shoot =
        λ ns name s. let (e, t) = P.delete_for_shoot ns name s.0 in (e, interfere t s.1);
  }

  abbrev pub overlapped_view : View overlapped
  overlapped_view ns name s = M.managed ns name s.0

  interfere-Looks :
      (s : P.Seed) (others : List Interference) → Looks P M.managed ns s (interfere s others).0
  interfere-Looks s [] = record { cluster = refl; secrets = λ ref. refl; resources = λ name. refl }
  interfere-Looks s (next ∷ others) = next.harmless s

  down :
      (s t : P.Seed × List Interference)
      → Looks overlapped overlapped_view ns s t
      → Looks P M.managed ns s.0 t.0
  down s t h = record { cluster = h.cluster; secrets = h.secrets; resources = h.resources }

  pub up :
      (s t : P.Seed × List Interference)
      → Looks P M.managed ns s.0 t.0
      → Looks overlapped overlapped_view ns s t
  up s t h = record { cluster = h.cluster; secrets = h.secrets; resources = h.resources }

  -- Two states that look the same do so after what others do next to each.
  interfered :
      (s t : P.Seed) (others others' : List Interference)
      → Looks P M.managed ns s t
      → Looks overlapped overlapped_view ns (interfere s others) (interfere t others')
  interfered s t others others' h = up (interfere s others) (interfere t others') (
      Looks-trans P M.managed ns _ s _ (Looks-sym P M.managed ns s _ (interfere-Looks s others))
        (Looks-trans P M.managed ns s t _ h (interfere-Looks t others')))

  module _ (H : Steady P) (L : Local M) where
    pub overlapped-Own : Own overlapped overlapped_view ns
    overlapped-Own = record {
      create_agrees = λ name origin keep b s t h.
          let one = (own P M H L ns).create_agrees name origin keep b s.0 t.0 (down s t h) in
          record { returned = one.returned; left = interfered _ _ s.1 t.1 one.left };
      delete_agrees = λ name s t h.
          let one = (own P M H L ns).delete_agrees name s.0 t.0 (down s t h) in
          record { returned = one.returned; left = interfered _ _ s.1 t.1 one.left };
    }
