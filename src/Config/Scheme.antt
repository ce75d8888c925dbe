-- ===== src/Config/Scheme.antt =====
-- pkg/apis/config/register.go, pkg/apis/config/v1alpha1/generated.register.go, the registrations of
-- generated.conversion.go, and pkg/apis/config/install/install.go. The scheme is apimachinery's.
pub mod Laws
mod Tests
use gardener_extension_shoot.Base.{
  Bool, ◌&&◌, ℕ, List, [], ◌∷◌, ◌++◌, Result, ok, err, ◌>>=◌, Str, codes, eqb,
}
use gardener_extension_shoot.Config.Memory.{Slice, PatchCell, PackCell, ConfigCell}
use gardener_extension_shoot.Config.V1alpha1.{
  convert_patch_to_config, convert_patch_from_config, convert_pack_to_config,
  convert_pack_from_config, convert_spec_to_config, convert_spec_from_config, convert_to_config,
  convert_from_config,
}

pub data Struct : Type 0 where
  pack_struct config_struct spec_struct patch_struct : Struct

-- A Go type of the package v1alpha1, or of the package config.
pub data TypeName : Type 0 where
  external : Struct → TypeName
  internal : Struct → TypeName

pub record GroupVersion : Type 0 where
  pub group : Str
  pub version : Str

-- A conversion function, by what it converts.
pub data Conversion (Meta : Type 0) : Type 0 where
  patches : (PatchCell → PatchCell → Result Str PatchCell) → Conversion Meta
  packs : (PackCell → PackCell → Result Str PackCell) → Conversion Meta
  specs : (Slice → Slice → Result Str Slice) → Conversion Meta
  configs : (ConfigCell Meta → ConfigCell Meta → Result Str (ConfigCell Meta)) → Conversion Meta

-- What the code uses of apimachinery, with the methods of a scheme and of a scheme builder.
pub record Machinery : Type 1 where
  pub Meta : Type 0
  pub Scheme : Type 0
  pub version_internal : Str
  pub add_known_types : GroupVersion → List TypeName → Scheme → Scheme
  pub add_to_group_version : GroupVersion → Scheme → Scheme
  pub add_conversion : TypeName → TypeName → Conversion Meta → Scheme → Result Str Scheme
  pub set_version_priority : GroupVersion → Scheme → Result Str Scheme
  pub add_to_scheme : List (Scheme → Result Str Scheme) → Scheme → Result Str Scheme

abbrev pub group_name : Str
group_name = codes "pack.extensions.gardener.cloud"

-- `GroupVersion` of v1alpha1
abbrev pub external_version : GroupVersion
external_version = record { group = group_name; version = codes "v1alpha1" }

module _ (L : Machinery) where
  -- `SchemeGroupVersion` of config
  abbrev pub internal_version : GroupVersion
  internal_version = record { group = group_name; version = L.version_internal }

  -- `addKnownTypes` of config
  unfoldable pub add_known_types : L.Scheme → Result Str L.Scheme
  add_known_types s = ok (
      L.add_known_types internal_version []
        (L.add_known_types internal_version (internal config_struct ∷ []) s))

  -- `addKnownTypes` of v1alpha1
  unfoldable pub add_external_types : L.Scheme → Result Str L.Scheme
  add_external_types s = ok (
      L.add_to_group_version external_version
        (L.add_known_types external_version (external config_struct ∷ []) s))

  -- The calls of `RegisterConversions`, each of which returns its error.
  unfoldable pub add_conversions :
      List (TypeName × TypeName × Conversion L.Meta) → L.Scheme → Result Str L.Scheme
  add_conversions [] s = ok s
  add_conversions ((from, to, conversion) ∷ conversions) s =
      L.add_conversion from to conversion s >>= add_conversions conversions

  -- The pairs of types that `RegisterConversions` registers, in its order.
  abbrev pub conversions : List (TypeName × TypeName × Conversion L.Meta)
  conversions =
      (external pack_struct, internal pack_struct, packs convert_pack_to_config)
      ∷ (internal pack_struct, external pack_struct, packs convert_pack_from_config)
      ∷ (external config_struct, internal config_struct, configs convert_to_config)
      ∷ (internal config_struct, external config_struct, configs convert_from_config)
      ∷ (external spec_struct, internal spec_struct, specs convert_spec_to_config)
      ∷ (internal spec_struct, external spec_struct, specs convert_spec_from_config)
      ∷ (external patch_struct, internal patch_struct, patches convert_patch_to_config)
      ∷ (internal patch_struct, external patch_struct, patches convert_patch_from_config)
      ∷ []

  -- `RegisterConversions`
  unfoldable pub register_conversions : L.Scheme → Result Str L.Scheme
  register_conversions = add_conversions conversions

  -- `localSchemeBuilder`, after the two calls of `init`, in the order of their files.
  abbrev pub local_scheme_builder : List (L.Scheme → Result Str L.Scheme)
  local_scheme_builder = ([] ++ (register_conversions ∷ [])) ++ (add_external_types ∷ [])

  -- `Install`; an error is what `utilruntime.Must` panics with.
  unfoldable pub install : L.Scheme → Result Str L.Scheme
  install s = do
    s1 ← L.add_to_scheme (add_known_types ∷ []) s
    s2 ← L.add_to_scheme local_scheme_builder s1
    L.set_version_priority external_version s2
