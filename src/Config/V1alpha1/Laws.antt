-- ===== src/Config/V1alpha1/Laws.antt =====
-- What the conversions of the configuration, and the deep copy of the external version, read as.
use gardener_extension_shoot.Base.{◌≡◌, refl, some, ok}
use gardener_extension_shoot.Config as Internal
use gardener_extension_shoot.Config.Memory.{Memory, ConfigCell, Sizes, sizes}
use gardener_extension_shoot.Config.Layout as InternalLayout
use gardener_extension_shoot.Config.Layout.{SameIn}
use gardener_extension_shoot.Config.DeepCopy.Regions.{nowhere}
use gardener_extension_shoot.Config.DeepCopy.Laws.{deep_copy_object-Reads}
use gardener_extension_shoot.Config.V1alpha1.{
  PackConfig, convert_to_config, convert_from_config, convert_spec_to_config,
  convert_spec_from_config, deep_copy_object,
}
use gardener_extension_shoot.Config.V1alpha1.Layout.{ReadsSpec, internal_spec, spec_iff}

module _ {E Meta S : Type 0} where
  -- The conversion of a configuration to the internal version goes through, keeps the metadata of the
  -- configuration that it writes to, and makes of it one that reads, in any memory and in the same
  -- cells as the given one, as the same packs in the same order; and the conversion of that back, to
  -- any configuration of the external version, keeps the metadata of that one as well, and makes of
  -- it one that reads as the packs of the given configuration, in the cells of the given one.
  pub convert_to_config-Reads :
      (c out back : ConfigCell Meta) (v : PackConfig S) (h : Memory S) (lo hi : Sizes)
      → ReadsSpec h lo hi c.word1 v.spec
      → (c' : ConfigCell Meta) × (convert_to_config {E = E} c out ≡ ok c')
        × (c'.word0 ≡ out.word0)
        × InternalLayout.ReadsSpec h lo hi c'.word1 (internal_spec v.spec)
        × ((d : ConfigCell Meta) × (convert_from_config {E = E} c' back ≡ ok d)
            × (d.word0 ≡ back.word0)
            × (d.word1 ≡ c.word1)
            × ReadsSpec h lo hi d.word1 v.spec)
  unfolding convert_to_config convert_from_config convert_spec_to_config convert_spec_from_config
  convert_to_config-Reads c out back v h lo hi r =
      (_, refl, refl, (spec_iff h lo hi c.word1 v.spec).0 r, (_, refl, refl, refl, r))

module _ {Meta S : Type 0} where
  -- DeepCopyObject of a configuration of the external version is one in new cells alone that has the same
  -- metadata and reads as the same packs.
  pub v1alpha1-deep_copy_object-Reads :
      (c : ConfigCell Meta) (v : PackConfig S) (h : Memory S)
      → ReadsSpec h nowhere (sizes h) c.word1 v.spec
      → (c' : ConfigCell Meta) × (t : Memory S) × (deep_copy_object (some c) h ≡ some (some c', t))
        × (c'.word0 ≡ c.word0)
        × ReadsSpec t (sizes h) (sizes t) c'.word1 v.spec
        × ReadsSpec t nowhere (sizes h) c.word1 v.spec
  unfolding deep_copy_object
  v1alpha1-deep_copy_object-Reads c v h r =
      let v' : Internal.PackConfig S = record { spec = internal_spec v.spec } in
      let (c', t, run, meta, copy, original, same) =
        deep_copy_object-Reads c v' h ((spec_iff h nowhere (sizes h) c.word1 v.spec).0 r) in
      (
        c',
        t,
        run,
        meta,
        (spec_iff t (sizes h) (sizes t) c'.word1 v.spec).1 copy,
        (spec_iff t nowhere (sizes h) c.word1 v.spec).1 original,
      )
