-- ===== src/Config/DeepCopy/Laws.antt =====
-- What a deep copy of a configuration is.
use gardener_extension_shoot.Base.{◌≡◌, refl, some, arith}
use gardener_extension_shoot.Config.{PackConfig}
use gardener_extension_shoot.Config.Memory.{Memory, ConfigCell, sizes}
use gardener_extension_shoot.Config.Layout.{ReadsSpec, SameIn, ReadsSpec-same}
use gardener_extension_shoot.Config.DeepCopy.{deep_copy, deep_copy_config, deep_copy_object}
use gardener_extension_shoot.Config.DeepCopy.Regions.{nowhere}
use gardener_extension_shoot.Config.DeepCopy.Spec.{deep_copy_spec-Reads}

module _ {S Meta : Type 0} where
  -- DeepCopyObject of a configuration that lies in memory with its packs and patches meets no dangling
  -- pointer, and returns a configuration with the same metadata that reads as the same packs; all the
  -- cells of the copy are new, and none of those that were there before, in which the original still
  -- reads as it did, has changed.
  pub deep_copy_object-Reads :
      (c : ConfigCell Meta) (v : PackConfig S) (h : Memory S)
      → ReadsSpec h nowhere (sizes h) c.word1 v.spec
      → (c' : ConfigCell Meta) × (t : Memory S) × (deep_copy_object (some c) h ≡ some (some c', t))
        × (c'.word0 ≡ c.word0)
        × ReadsSpec t (sizes h) (sizes t) c'.word1 v.spec
        × ReadsSpec t nowhere (sizes h) c.word1 v.spec
        × SameIn nowhere (sizes h) h t
  unfolding deep_copy_object deep_copy deep_copy_config
  deep_copy_object-Reads c v h r =
      let (s, t, run, copied) = deep_copy_spec-Reads c.word1 h v.spec r in
      (
        record { word0 = c.word0; word1 = s },
        t,
        ground (arith, run),
        refl,
        copied.reads,
        ReadsSpec-same h t nowhere (sizes h) nowhere (sizes h) copied.same (omega arith) c.word1
            v.spec r,
        copied.same,
      )
