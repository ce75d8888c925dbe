-- ===== src/Config/DeepCopy/Patches.antt =====
-- What a deep copy of the patches of a pack reads as, where it lies, and what it leaves alone.
use gardener_extension_shoot.Base.{
  ◌≡◌, refl, ap, ◌∙◌, ℕ, ◌+◌, ◌≤◌, ◌<◌, suc, Option, none, some, List, [], ◌∷◌, arith, Str, length,
}
use gardener_extension_shoot.Config.{PatchSpec}
use gardener_extension_shoot.Config.Memory.{PatchCell, Memory, Sizes, sizes, allocate, write, ◌>>=◌}
use gardener_extension_shoot.Config.Layout.{
  ReadsTarget, ReadsPatch, ReadsPatches, SameIn, ReadsTarget-same, ReadsPatch-same,
  ReadsPatches-same,
}
use gardener_extension_shoot.Config.DeepCopy.{deep_copy_patch, deep_copy_patches, store_patch}
use gardener_extension_shoot.Config.DeepCopy.Regions.{
  nowhere, allocate-kept, allocate-new, allocate-next, write_self, write-other, write-next,
  SameIn-refl, SameIn-trans, SameIn-narrow,
}

module _ {S : Type 0} where
  -- The pointer of a patch, copied.
  deep_copy_patch-Reads :
      (ref : Str) (a : Option ℕ) (h : Memory S) (v : Option S)
      → ReadsTarget h nowhere (sizes h) a v
      → (a' : Option ℕ) × (h' : Memory S) × (deep_copy_patch (record { word0 = ref; word1 = a }) h
          ≡ some (record { word0 = ref; word1 = a' }, h'))
        × ReadsTarget h' (sizes h) (sizes h') a' v
        × SameIn nowhere (sizes h) h h'
        × (h.selectors.next ≤ h'.selectors.next)
        × (h'.patches ≡ h.patches)
        × (h'.packs ≡ h.packs)
  unfolding deep_copy_patch
  deep_copy_patch-Reads ref none h none r =
      (none, h, refl, tt, SameIn-refl _ _ h, omega arith, refl, refl)
  deep_copy_patch-Reads ref none h (some v) r = absurd r
  deep_copy_patch-Reads ref (some a) h none r = absurd r
  deep_copy_patch-Reads ref (some a) h (some v) (from, to, at) =
      let fresh = h.selectors.next in
      let t : Memory S = record h { selectors = allocate 1 v h.selectors } in
      let next = allocate-next v h.selectors 1 in
      (
        some fresh,
        t,
        ground (arith, at),
        (omega arith, omega arith, allocate-new v h.selectors 1 fresh (omega arith) (omega arith)),
        record {
          selectors = λ b from to. allocate-kept v h.selectors 1 b to;
          patches = λ b from to. refl;
          packs = λ b from to. refl;
        },
        omega arith,
        refl,
        refl,
      )

  -- The memory up to an address of the patches.
  abbrev pub upto_patch : Memory S → ℕ → Sizes
  upto_patch h q = record (sizes h) { patches = q }

  -- What the loop over patches has done from an address on.
  pub record PatchesCopied (h t : Memory S) (q : ℕ) (vs : List (PatchSpec S)) : Type 0 where
    pub reads : ReadsPatches t (upto_patch h q) (sizes t) q vs
    pub same : SameIn nowhere (upto_patch h q) h t
    pub grows : h.selectors.next ≤ t.selectors.next
    pub next : t.patches.next ≡ h.patches.next
    pub packs : t.packs ≡ h.packs

  -- What a round of the loop has done: a cell with the copy of a patch.
  record PatchCopied (h t : Memory S) (q : ℕ) (v : PatchSpec S) : Type 0 where
    cell : PatchCell
    at : t.patches.cell q ≡ some cell
    reads : ReadsPatch t (sizes h) (sizes t) cell v
    same : SameIn nowhere (upto_patch h q) h t
    grows : h.selectors.next ≤ t.selectors.next
    next : t.patches.next ≡ h.patches.next
    packs : t.packs ≡ h.packs

  -- A round of the loop, and the rounds that follow.
  PatchesCopied-cons :
      (h u t : Memory S) (q : ℕ) (v : PatchSpec S) (vs : List (PatchSpec S))
      → q < h.patches.next
      → PatchCopied h u q v
      → PatchesCopied u t (suc q) vs
      → PatchesCopied h t q (v ∷ vs)
  PatchesCopied-cons h u t q v vs room one all =
      let grown1 = one.grows in
      let next1 = one.next in
      let grown2 = all.grows in
      let next2 = all.next in
      let next1' : u.packs.next ≡ h.packs.next = ap (λ r. r.next) one.packs in
      let next2' : t.packs.next ≡ u.packs.next = ap (λ r. r.next) all.packs in
      record {
        reads = (
          one.cell,
          (omega arith, omega arith, all.same.patches q (omega arith) (omega arith) ∙ one.at),
          ReadsPatch-same u t (sizes h) (sizes u) (upto_patch h q) (sizes t)
              (record {
                selectors = λ a from to. all.same.selectors a (omega arith) to;
                patches = λ a from to. absurd (omega arith);
                packs = λ a from to. absurd (omega arith);
              })
              (omega arith) one.cell v one.reads,
          ReadsPatches-same t t (upto_patch u (suc q)) (sizes t) (upto_patch h q) (sizes t)
              (SameIn-refl _ _ t) (omega arith) (suc q) vs all.reads,
        );
        same = SameIn-trans nowhere (upto_patch h q) h u t one.same (
            SameIn-narrow nowhere (upto_patch u (suc q)) nowhere (upto_patch h q) u t (omega arith)
              all.same);
        grows = omega arith;
        next = next2 ∙ next1;
        packs = all.packs ∙ one.packs;
      }

  deep_copy_patch-Copied :
      (c : PatchCell) (q : ℕ) (h : Memory S) (v : PatchSpec S)
      → ReadsPatch h nowhere (upto_patch h q) c v
      → q ≤ h.patches.next
      → (t : Memory S) × ((deep_copy_patch c >>= store_patch q) h ≡ some (tt, t))
        × PatchCopied h t q v
  unfolding store_patch
  deep_copy_patch-Copied c q h v r room =
      let wide =
        ReadsTarget-same h h nowhere (upto_patch h q) nowhere (sizes h) (SameIn-refl _ _ h)
          (omega arith) c.word1 v.target r.target in
      let (a, u, run, target, same, grows, patches, packs) =
        deep_copy_patch-Reads c.word0 c.word1 h v.target wide in
      let c' : PatchCell = record { word0 = c.word0; word1 = a } in
      let t : Memory S = record u { patches = write q c' u.patches } in
      (
        t,
        ground (arith, run),
        record {
          cell = c';
          at = write_self c' u.patches q;
          reads = record { resource_ref = r.resource_ref; target = target };
          same =
              SameIn-trans nowhere (upto_patch h q) h u t
                (SameIn-narrow nowhere (sizes h) nowhere (upto_patch h q) h u (omega arith) same)
                (record {
                  selectors = λ b from to. refl;
                  patches = λ b from to. write-other c' u.patches q b to;
                  packs = λ b from to. refl;
                });
          grows = grows;
          next = write-next c' u.patches q ∙ ap (λ r. r.next) patches;
          packs = packs;
        },
      )

  pub deep_copy_patches-Reads :
      (vs : List (PatchSpec S)) (p q : ℕ) (h : Memory S)
      → ReadsPatches h nowhere (upto_patch h q) p vs
      → q + length vs ≤ h.patches.next
      → (t : Memory S) × (deep_copy_patches (length vs) p q h ≡ some (tt, t))
        × PatchesCopied h t q vs
  unfolding deep_copy_patches
  deep_copy_patches-Reads [] p q h r room = (
    h,
    refl,
    record { reads = tt; same = SameIn-refl _ _ h; grows = omega arith; next = refl; packs = refl },
  )
  deep_copy_patches-Reads (v ∷ vs) p q h (c, (from, to, at), first, rest) room =
      let (u, run1, one) = deep_copy_patch-Copied c q h v first (omega arith) in
      let grown1 = one.grows in
      let next1 = one.next in
      let next1' : u.packs.next ≡ h.packs.next = ap (λ r. r.next) one.packs in
      let rest' =
        ReadsPatches-same h u nowhere (upto_patch h q) nowhere (upto_patch u (suc q)) one.same
          (omega arith) (suc p) vs rest in
      let (t, run, all) = deep_copy_patches-Reads vs (suc p) (suc q) u rest' (omega arith) in
      (t, ground (arith, at, run1, run), PatchesCopied-cons h u t q v vs (omega arith) one all)
