-- ===== src/Config/DeepCopy/Spec.antt =====
-- What a deep copy of the spec of a configuration reads as, where it lies, and what it leaves alone.
use gardener_extension_shoot.Base.{◌≡◌, refl, none, some, [], arith}
use gardener_extension_shoot.Config.{PackConfigSpec}
use gardener_extension_shoot.Config.Memory.{Slice, PackCell, Memory, sizes, allocate}
use gardener_extension_shoot.Config.Layout.{ReadsSpec, SameIn, ReadsPacks-same}
use gardener_extension_shoot.Config.DeepCopy.{deep_copy_spec}
use gardener_extension_shoot.Config.DeepCopy.Regions.{
  nowhere, allocate-kept, allocate-next, SameIn-refl, SameIn-trans, SameIn-narrow,
}
use gardener_extension_shoot.Config.DeepCopy.Packs.{upto_pack, deep_copy_packs-Reads}

module _ {S : Type 0} where
  -- What `PackConfigSpec.DeepCopyInto` has done.
  pub record SpecCopied (h t : Memory S) (s : Slice) (v : PackConfigSpec S) : Type 0 where
    pub reads : ReadsSpec t (sizes h) (sizes t) s v
    pub same : SameIn nowhere (sizes h) h t

  pub deep_copy_spec-Reads :
      (s : Slice) (h : Memory S) (v : PackConfigSpec S)
      → ReadsSpec h nowhere (sizes h) s v
      → (s' : Slice) × (t : Memory S) × (deep_copy_spec s h ≡ some (s', t)) × SpecCopied h t s' v
  unfolding deep_copy_spec
  deep_copy_spec-Reads none h v r = (none, h, refl, record { reads = r; same = SameIn-refl _ _ h })
  deep_copy_spec-Reads (some (p, n)) h v (len, elements) =
      let blank : PackCell = record { word0 = []; word1 = []; word2 = none } in
      let q = h.packs.next in
      let u : Memory S = record h { packs = allocate n blank h.packs } in
      let next = allocate-next blank h.packs n in
      let made : SameIn nowhere (sizes h) h u = record {
        selectors = λ a from to. refl;
        patches = λ a from to. refl;
        packs = λ a from to. allocate-kept blank h.packs n a to;
      } in
      let moved =
        ReadsPacks-same h u nowhere (sizes h) nowhere (upto_pack u q) made (omega arith) p v.packs
          elements in
      let (t, run, copied) = deep_copy_packs-Reads v.packs p q u moved (omega arith) in
      (
        some (q, n),
        t,
        ground (arith, run, len),
        record {
          reads = (
            len,
            ReadsPacks-same t t (upto_pack u q) (sizes t) (sizes h) (sizes t) (SameIn-refl _ _ t)
                (omega arith) q v.packs copied.reads,
          );
          same = SameIn-trans nowhere (sizes h) h u t made (
              SameIn-narrow nowhere (upto_pack u q) nowhere (sizes h) u t (omega arith)
                copied.same);
        },
      )
