-- ===== src/Config/V1alpha1/Tests.antt =====
-- A configuration in memory, of one pack with one patch.
use gardener_extension_shoot.Base.{
  ◌≡◌, refl, ℕ, zero, suc, Option, none, some, [], ◌∷◌, ok, Str, codes, arith,
}
use gardener_extension_shoot.Config as Internal
use gardener_extension_shoot.Config.Memory.{ConfigCell, Memory, sizes}
use gardener_extension_shoot.Config.Layout as InternalLayout
use gardener_extension_shoot.Config.Layout.{SameIn}
use gardener_extension_shoot.Config.DeepCopy
use gardener_extension_shoot.Config.DeepCopy.Regions.{nowhere}
use gardener_extension_shoot.Config.DeepCopy.Laws.{deep_copy_object-Reads}
use gardener_extension_shoot.Config.V1alpha1.{PackConfig, convert_to_config, convert_from_config}
use gardener_extension_shoot.Config.V1alpha1.Layout.{ReadsSpec, internal_spec, spec_iff}
use gardener_extension_shoot.Config.V1alpha1.Laws.{convert_to_config-Reads}

abbrev only : {A : Type 0} → A → ℕ → Option A
only v zero = some v
only v (suc a) = none

abbrev memory : Memory Str
memory = record {
  selectors = record { next = 1; cell = only (codes "kind: Service") };
  patches = record { next = 1; cell = only (record { word0 = codes "fix"; word1 = some 0 }) };
  packs = record {
    next = 1;
    cell = only (record { word0 = codes "pg"; word1 = codes "17"; word2 = some (0, 1) });
  };
}

abbrev config : PackConfig Str
config = record {
  spec = record {
    packs =
        record {
          name = codes "pg";
          version = codes "17";
          patches =
              record { resource_ref = codes "fix"; target = some (codes "kind: Service") } ∷ [];
        }
        ∷ [];
  };
}

abbrev internal_config : Internal.PackConfig Str
internal_config = record { spec = internal_spec config.spec }

abbrev in_memory : ConfigCell ℕ
in_memory = record { word0 = 7; word1 = some (0, 1) }

abbrev out : ConfigCell ℕ
out = record { word0 = 9; word1 = none }

abbrev back : ConfigCell ℕ
back = record { word0 = 11; word1 = none }

reads : ReadsSpec memory nowhere (sizes memory) in_memory.word1 config.spec
reads = (
  refl,
  (
    _,
    (omega arith, omega arith, refl),
    record {
      name = refl;
      version = refl;
      patches = (
        refl,
        (
          _,
          (omega arith, omega arith, refl),
          record { resource_ref = refl; target = (omega arith, omega arith, refl) },
          tt,
        ),
      );
    },
    tt,
  ),
)

internal_reads :
    InternalLayout.ReadsSpec memory nowhere (sizes memory) in_memory.word1 internal_config.spec
internal_reads = (spec_iff memory nowhere (sizes memory) in_memory.word1 config.spec).0 reads

deep_copy_object-Reads_example :
    (c : ConfigCell ℕ) × (t : Memory Str) × (DeepCopy.deep_copy_object (some in_memory) memory
      ≡ some (some c, t))
    × (c.word0 ≡ in_memory.word0)
    × InternalLayout.ReadsSpec t (sizes memory) (sizes t) c.word1 internal_config.spec
    × InternalLayout.ReadsSpec t nowhere (sizes memory) in_memory.word1 internal_config.spec
    × SameIn nowhere (sizes memory) memory t
deep_copy_object-Reads_example =
    deep_copy_object-Reads in_memory internal_config memory internal_reads

convert_to_config-Reads_example :
    (c : ConfigCell ℕ) × (convert_to_config {E = Str} in_memory out ≡ ok c)
    × (c.word0 ≡ out.word0)
    × InternalLayout.ReadsSpec memory nowhere (sizes memory) c.word1 internal_config.spec
    × ((d : ConfigCell ℕ) × (convert_from_config {E = Str} c back ≡ ok d)
        × (d.word0 ≡ back.word0)
        × (d.word1 ≡ in_memory.word1)
        × ReadsSpec memory nowhere (sizes memory) d.word1 config.spec)
convert_to_config-Reads_example =
    convert_to_config-Reads in_memory out back config memory nowhere (sizes memory) reads
