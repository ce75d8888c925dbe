-- ===== src/Platform.antt =====
-- What the extension uses of Gardener, of the Kubernetes client and of kustomize: none of this code
-- is in the repository, so it is a record that the definitions take, with the documented behaviour
-- of the managed resources as laws.
pub mod Memory
use gardener_extension_shoot.Base.{
  ◌≡◌, ◌≢◌, ◌⊎◌, Bool, Option, none, some, List, ◌++◌, Result, Str, codes,
}
use gardener_extension_shoot.Base.Dict.{Dict}
use gardener_extension_shoot.Config.{PackConfig}

-- The fields that the code reads of a `NamedResourceReference`.
pub record NamedReference : Type 0 where
  pub name : Str
  pub kind : Str
  pub api_version : Str

-- The fields that the code reads of a `corev1.Secret`.
pub record Secret : Type 0 where
  pub name : Str
  pub content : Dict Str

-- An entry of the patches of a kustomization.
pub record Patch (Selector : Type 0) : Type 0 where
  pub path : Str
  pub target : Option Selector

-- The fields that the code sets of a `types.Kustomization`.
pub record Kustomization (Selector : Type 0) : Type 0 where
  pub namespace : Str
  pub resources : List Str
  pub build_metadata : List Str
  pub patches : List (Patch Selector)

-- The error of a deletion, as far as `client.IgnoreNotFound` tells errors apart.
pub data DeleteError : Type 0 where
  not_found : DeleteError
  failed : Str → DeleteError

-- `v1beta1constants.ReferencedResourcesPrefix`
unfoldable pub referenced_resources_prefix : Str
referenced_resources_prefix = codes "ref-"

pub record Platform : Type 1 where
  pub Selector : Type 0
  -- The shoot, and the objects of the cluster that the client talks to.
  pub Shoot : Type 0
  pub Seed : Type 0
  pub get_cluster : Str → Seed → Result Str (Option Shoot)
  pub hibernation_is_enabled : Option Shoot → Bool
  pub resources : Shoot → List NamedReference
  pub get_secret : Str → Str → Seed → Result Str Secret
  pub decode : Str → Result Str (PackConfig Selector)
  -- `managedresources.CreateForShoot` by namespace, name, origin, the flag that keeps the objects,
  -- and the data; `managedresources.DeleteForShoot` by namespace and name.
  pub Bundle : Type 0
  pub create_for_shoot : Str → Str → Str → Bool → Bundle → Seed → Option Str × Seed
  pub delete_for_shoot : Str → Str → Seed → Option DeleteError × Seed
  -- The registry's `SerializedObjects`, from the names and texts that were added to it.
  pub serialized_objects : List (Str × Str) → Result Str Bundle
  -- kustomize's file system in memory, its run, and the resources that come of it.
  pub Tree : Type 0
  pub make_fs_in_memory : Tree
  pub mkdir_all : Str → Tree → Result Str Tree
  pub write_file : Str → Str → Tree → Result Str Tree
  -- `FixKustomization` and then `yaml.Marshal`.
  pub marshal : Kustomization Selector → Result Str Str
  pub kustomization_file_name : Str
  pub origin_annotations : Str
  pub Object : Type 0
  pub run : Tree → Str → Result Str (List Object)
  pub get_kind : Object → Str
  pub get_labels : Object → Dict Str
  pub set_labels : Dict Str → Object → Result Str Object
  pub as_yaml : Object → Result Str Str

-- The managed resources of a cluster, by namespace and name, and what the two calls do to them.
pub record Managed (P : Platform) : Type 0 where
  pub managed : Str → Str → P.Seed → Option P.Bundle
  pub create_self :
      (ns name origin : Str) (keep : Bool) (b : P.Bundle) (s : P.Seed)
      → (P.create_for_shoot ns name origin keep b s).0 ≡ none
      → managed ns name (P.create_for_shoot ns name origin keep b s).1 ≡ some b
  pub create_other :
      (ns name origin : Str) (keep : Bool) (b : P.Bundle) (s : P.Seed) (ns' name' : Str)
      → (ns' ≢ ns) ⊎ (name' ≢ name)
      → managed ns' name' (P.create_for_shoot ns name origin keep b s).1 ≡ managed ns' name' s
  pub delete_self :
      (ns name : Str) (s : P.Seed)
      → (P.delete_for_shoot ns name s).0 ≡ none
      → managed ns name (P.delete_for_shoot ns name s).1 ≡ none
  pub delete_not_found :
      (ns name : Str) (s : P.Seed)
      → (P.delete_for_shoot ns name s).0 ≡ some not_found
      → managed ns name (P.delete_for_shoot ns name s).1 ≡ none
  pub delete_other :
      (ns name : Str) (s : P.Seed) (ns' name' : Str)
      → (ns' ≢ ns) ⊎ (name' ≢ name)
      → managed ns' name' (P.delete_for_shoot ns name s).1 ≡ managed ns' name' s

-- What the managed resources leave alone: the clusters, and the secrets that a shoot refers to.
pub record Steady (P : Platform) : Type 0 where
  pub cluster_create :
      (ns name origin : Str) (keep : Bool) (b : P.Bundle) (s : P.Seed) (ns' : Str)
      → P.get_cluster ns' (P.create_for_shoot ns name origin keep b s).1 ≡ P.get_cluster ns' s
  pub cluster_delete :
      (ns name : Str) (s : P.Seed) (ns' : Str)
      → P.get_cluster ns' (P.delete_for_shoot ns name s).1 ≡ P.get_cluster ns' s
  pub secret_create :
      (ns name origin : Str) (keep : Bool) (b : P.Bundle) (s : P.Seed) (ns' ref : Str)
      → P.get_secret ns'
          (referenced_resources_prefix ++ ref)
          (P.create_for_shoot ns name origin keep b s).1
        ≡ P.get_secret ns' (referenced_resources_prefix ++ ref) s
  pub secret_delete :
      (ns name : Str) (s : P.Seed) (ns' ref : Str)
      → P.get_secret ns' (referenced_resources_prefix ++ ref) (P.delete_for_shoot ns name s).1
        ≡ P.get_secret ns' (referenced_resources_prefix ++ ref) s

-- The managed resources of a state, by namespace and name.
abbrev pub View : Platform → Type 0
View P = Str → Str → P.Seed → Option P.Bundle

-- Two states look the same in a namespace: its cluster, its secrets and its managed resources.
pub record Looks (P : Platform) (view : View P) (ns : Str) (s t : P.Seed) : Type 0 where
  pub cluster : P.get_cluster ns t ≡ P.get_cluster ns s
  pub secrets :
      (ref : Str)
      → P.get_secret ns (referenced_resources_prefix ++ ref) t
        ≡ P.get_secret ns (referenced_resources_prefix ++ ref) s
  pub resources : (name : Str) → view ns name t ≡ view ns name s

-- What a call for a managed resource returns, and what it makes of the managed resource, also where it
-- fails, is up to the namespace alone.
pub record Local {P : Platform} (M : Managed P) : Type 0 where
  pub create_returns :
      (ns name origin : Str) (keep : Bool) (b : P.Bundle) (s t : P.Seed)
      → Looks P M.managed ns s t
      → (P.create_for_shoot ns name origin keep b t).0
        ≡ (P.create_for_shoot ns name origin keep b s).0
  pub create_leaves :
      (ns name origin : Str) (keep : Bool) (b : P.Bundle) (s t : P.Seed)
      → Looks P M.managed ns s t
      → M.managed ns name (P.create_for_shoot ns name origin keep b t).1
        ≡ M.managed ns name (P.create_for_shoot ns name origin keep b s).1
  pub delete_returns :
      (ns name : Str) (s t : P.Seed)
      → Looks P M.managed ns s t
      → (P.delete_for_shoot ns name t).0 ≡ (P.delete_for_shoot ns name s).0
  pub delete_leaves :
      (ns name : Str) (s t : P.Seed)
      → Looks P M.managed ns s t
      → M.managed ns name (P.delete_for_shoot ns name t).1
        ≡ M.managed ns name (P.delete_for_shoot ns name s).1
