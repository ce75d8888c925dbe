-- ===== src/Config.antt =====
-- The API types of pkg/apis/config/types.go. `Selector` is kustomize's selector of resources, which
-- the code only hands on. The type's metadata is the decoder's, and no code here reads it.
pub mod Validation
pub mod Memory
pub mod Layout
pub mod DeepCopy
pub mod V1alpha1
pub mod Scheme
use gardener_extension_shoot.Base.{Option, List, [], ◌∷◌, ◌++◌, Str, codes}

pub record PatchSpec (Selector : Type 0) : Type 0 where
  pub resource_ref : Str
  pub target : Option Selector

pub record Pack (Selector : Type 0) : Type 0 where
  pub name : Str
  pub version : Str
  pub patches : List (PatchSpec Selector)

pub record PackConfigSpec (Selector : Type 0) : Type 0 where
  pub packs : List (Pack Selector)

pub record PackConfig (Selector : Type 0) : Type 0 where
  pub spec : PackConfigSpec Selector

-- `Pack.String`
unfoldable pub pack_string : {Selector : Type 0} → Pack Selector → Str
pack_string p = p.name ++ codes "@" ++ p.version
