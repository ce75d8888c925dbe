-- ===== src/Config/V1alpha1.antt =====
-- pkg/apis/config/v1alpha1: the types of the external version, their conversion, which casts pointers, and
-- their deep copy, which is that of the internal version word for word.
pub mod Layout
pub mod Laws
mod Tests
use gardener_extension_shoot.Base.{ℕ, Option, List, Result, ok, err, ◌>>=◌, Str}
use gardener_extension_shoot.Config.Memory.{Slice, PatchCell, PackCell, ConfigCell, M}
use gardener_extension_shoot.Config.DeepCopy

pub record PatchSpec (Selector : Type 0) : Type 0 where
  pub resource_ref : Str
  pub target : Option Selector

pub record Pack (Selector : Type 0) : Type 0 where
  pub name : Str
  pub version : Str
  pub patches : List (PatchSpec Selector)

pub record PackConfigSpec (Selector : Type 0) : Type 0 where
  pub packs : List (Pack Selector)

pub record PackConfig (Selector : Type 0) : Type 0 where
  pub spec : PackConfigSpec Selector

-- A conversion, of what `in` and `out` point to, to what it leaves where `out` points. A cast of a
-- pointer or of a slice leaves its words as they are.
module _ {E : Type 0} where
  -- `autoConvert_v1alpha1_PatchSpec_To_config_PatchSpec`
  unfoldable pub convert_patch_to_config : PatchCell → PatchCell → Result E PatchCell
  convert_patch_to_config c out = ok (record out { word0 = c.word0; word1 = c.word1 })

  -- `autoConvert_config_PatchSpec_To_v1alpha1_PatchSpec`
  unfoldable pub convert_patch_from_config : PatchCell → PatchCell → Result E PatchCell
  convert_patch_from_config c out = ok (record out { word0 = c.word0; word1 = c.word1 })

  -- `autoConvert_v1alpha1_Pack_To_config_Pack`
  unfoldable pub convert_pack_to_config : PackCell → PackCell → Result E PackCell
  convert_pack_to_config c out =
      ok (record out { word0 = c.word0; word1 = c.word1; word2 = c.word2 })

  -- `autoConvert_config_Pack_To_v1alpha1_Pack`
  unfoldable pub convert_pack_from_config : PackCell → PackCell → Result E PackCell
  convert_pack_from_config c out =
      ok (record out { word0 = c.word0; word1 = c.word1; word2 = c.word2 })

  -- `autoConvert_v1alpha1_PackConfigSpec_To_config_PackConfigSpec`
  unfoldable pub convert_spec_to_config : Slice → Slice → Result E Slice
  convert_spec_to_config packs out = ok packs

  -- `autoConvert_config_PackConfigSpec_To_v1alpha1_PackConfigSpec`
  unfoldable pub convert_spec_from_config : Slice → Slice → Result E Slice
  convert_spec_from_config packs out = ok packs

  -- `autoConvert_v1alpha1_PackConfig_To_config_PackConfig`, which leaves the metadata.
  unfoldable pub convert_to_config :
      {Meta : Type 0} → ConfigCell Meta → ConfigCell Meta → Result E (ConfigCell Meta)
  convert_to_config c out = do
    spec ← convert_spec_to_config c.word1 out.word1
    ok (record out { word1 = spec })

  -- `autoConvert_config_PackConfig_To_v1alpha1_PackConfig`
  unfoldable pub convert_from_config :
      {Meta : Type 0} → ConfigCell Meta → ConfigCell Meta → Result E (ConfigCell Meta)
  convert_from_config c out = do
    spec ← convert_spec_from_config c.word1 out.word1
    ok (record out { word1 = spec })

module _ {S : Type 0} where
  unfoldable pub deep_copy_patch : PatchCell → M S PatchCell
  deep_copy_patch = DeepCopy.deep_copy_patch

  unfoldable pub deep_copy_pack : PackCell → M S PackCell
  deep_copy_pack = DeepCopy.deep_copy_pack

  unfoldable pub deep_copy_spec : Slice → M S Slice
  deep_copy_spec = DeepCopy.deep_copy_spec

  unfoldable pub deep_copy_config : {Meta : Type 0} → ConfigCell Meta → M S (ConfigCell Meta)
  deep_copy_config = DeepCopy.deep_copy_config

  abbrev pub patch_deep_copy : Option PatchCell → M S (Option PatchCell)
  patch_deep_copy = DeepCopy.patch_deep_copy

  abbrev pub pack_deep_copy : Option PackCell → M S (Option PackCell)
  pack_deep_copy = DeepCopy.pack_deep_copy

  abbrev pub spec_deep_copy : Option Slice → M S (Option Slice)
  spec_deep_copy = DeepCopy.spec_deep_copy

  abbrev pub config_deep_copy :
      {Meta : Type 0} → Option (ConfigCell Meta) → M S (Option (ConfigCell Meta))
  config_deep_copy = DeepCopy.config_deep_copy

  unfoldable pub deep_copy_object :
      {Meta : Type 0} → Option (ConfigCell Meta) → M S (Option (ConfigCell Meta))
  deep_copy_object = DeepCopy.deep_copy_object
