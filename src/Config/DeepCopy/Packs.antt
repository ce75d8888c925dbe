-- ===== src/Config/DeepCopy/Packs.antt =====
-- What a deep copy of the packs of a configuration reads as, where it lies, and what it leaves alone.
use gardener_extension_shoot.Base.{
  ◌≡◌, refl, ap, ◌∙◌, ℕ, ◌+◌, ◌≤◌, ◌<◌, suc, none, some, List, [], ◌∷◌, arith, Str, length,
}
use gardener_extension_shoot.Config.{PatchSpec, Pack}
use gardener_extension_shoot.Config.Memory.{
  Slice, PatchCell, PackCell, Memory, Sizes, sizes, allocate, write, ◌>>=◌,
}
use gardener_extension_shoot.Config.Layout.{
  ReadsPatchSlice, ReadsPack, ReadsPacks, SameIn, ReadsPatches-same, ReadsPack-same,
  ReadsPacks-same,
}
use gardener_extension_shoot.Config.DeepCopy.{deep_copy_pack, deep_copy_packs, store_pack}
use gardener_extension_shoot.Config.DeepCopy.Regions.{
  nowhere, allocate-kept, allocate-next, write_self, write-other, write-next, SameIn-refl,
  SameIn-trans, SameIn-narrow,
}
use gardener_extension_shoot.Config.DeepCopy.Patches.{upto_patch, deep_copy_patches-Reads}

module _ {S : Type 0} where
  -- What `Pack.DeepCopyInto` has done.
  record PackCopied (h t : Memory S) (c : PackCell) (v : Pack S) : Type 0 where
    reads : ReadsPack t (sizes h) (sizes t) c v
    same : SameIn nowhere (sizes h) h t
    grows : (h.selectors.next ≤ t.selectors.next) × (h.patches.next ≤ t.patches.next)
    packs : t.packs ≡ h.packs

  -- A slice that is nil is in no cells.
  ReadsPatchSlice-nil :
      (h : Memory S) (lo hi : Sizes) (vs : List (PatchSpec S))
      → ReadsPatchSlice h nowhere hi none vs
      → ReadsPatchSlice h lo hi none vs
  ReadsPatchSlice-nil h lo hi [] r = tt
  ReadsPatchSlice-nil h lo hi (v ∷ vs) r = absurd r

  deep_copy_pack-Reads :
      (name version : Str) (s : Slice) (h : Memory S) (v : Pack S)
      → ReadsPack h nowhere (sizes h) (record { word0 = name; word1 = version; word2 = s }) v
      → (c : PackCell) × (t : Memory S) × (deep_copy_pack
            (record { word0 = name; word1 = version; word2 = s })
            h
          ≡ some (c, t))
        × PackCopied h t c v
  unfolding deep_copy_pack
  deep_copy_pack-Reads name version none h v r = (
    _,
    h,
    refl,
    record {
      reads = record {
        name = r.name;
        version = r.version;
        patches = ReadsPatchSlice-nil h (sizes h) (sizes h) v.patches r.patches;
      };
      same = SameIn-refl _ _ h;
      grows = omega arith;
      packs = refl;
    },
  )
  deep_copy_pack-Reads name version (some (p, n)) h v r =
      let (len, elements) = r.patches in
      let blank : PatchCell = record { word0 = []; word1 = none } in
      let q = h.patches.next in
      let u : Memory S = record h { patches = allocate n blank h.patches } in
      let next = allocate-next blank h.patches n in
      let made : SameIn nowhere (sizes h) h u = record {
        selectors = λ a from to. refl;
        patches = λ a from to. allocate-kept blank h.patches n a to;
        packs = λ a from to. refl;
      } in
      let moved =
        ReadsPatches-same h u nowhere (sizes h) nowhere (upto_patch u q) made (omega arith) p
          v.patches elements in
      let (t, run, copied) = deep_copy_patches-Reads v.patches p q u moved (omega arith) in
      let grown = copied.grows in
      let next' = copied.next in
      (
        record { word0 = name; word1 = version; word2 = some (q, n) },
        t,
        ground (arith, run, len),
        record {
          reads = record {
            name = r.name;
            version = r.version;
            patches = (
              len,
              ReadsPatches-same t t (upto_patch u q) (sizes t) (sizes h) (sizes t)
                  (SameIn-refl _ _ t) (omega arith) q v.patches copied.reads,
            );
          };
          same = SameIn-trans nowhere (sizes h) h u t made (
              SameIn-narrow nowhere (upto_patch u q) nowhere (sizes h) u t (omega arith)
                copied.same);
          grows = omega arith;
          packs = copied.packs;
        },
      )

  -- The memory up to an address of the packs.
  abbrev pub upto_pack : Memory S → ℕ → Sizes
  upto_pack h q = record (sizes h) { packs = q }

  -- What the loop over packs has done from an address on.
  pub record PacksCopied (h t : Memory S) (q : ℕ) (vs : List (Pack S)) : Type 0 where
    pub reads : ReadsPacks t (upto_pack h q) (sizes t) q vs
    pub same : SameIn nowhere (upto_pack h q) h t
    pub grows : (h.selectors.next ≤ t.selectors.next) × (h.patches.next ≤ t.patches.next)
    pub next : t.packs.next ≡ h.packs.next

  -- What a round of it has done: a cell with the copy of a pack.
  record PackStored (h t : Memory S) (q : ℕ) (v : Pack S) : Type 0 where
    cell : PackCell
    at : t.packs.cell q ≡ some cell
    reads : ReadsPack t (sizes h) (sizes t) cell v
    same : SameIn nowhere (upto_pack h q) h t
    grows : (h.selectors.next ≤ t.selectors.next) × (h.patches.next ≤ t.patches.next)
    next : t.packs.next ≡ h.packs.next

  PacksCopied-cons :
      (h u t : Memory S) (q : ℕ) (v : Pack S) (vs : List (Pack S))
      → q < h.packs.next
      → PackStored h u q v
      → PacksCopied u t (suc q) vs
      → PacksCopied h t q (v ∷ vs)
  PacksCopied-cons h u t q v vs room one all =
      let (s1, p1) = one.grows in
      let (s2, p2) = all.grows in
      let next1 = one.next in
      let next2 = all.next in
      record {
        reads = (
          one.cell,
          (omega arith, omega arith, all.same.packs q (omega arith) (omega arith) ∙ one.at),
          ReadsPack-same u t (sizes h) (sizes u) (upto_pack h q) (sizes t)
              (record {
                selectors = λ a from to. all.same.selectors a (omega arith) to;
                patches = λ a from to. all.same.patches a (omega arith) to;
                packs = λ a from to. absurd (omega arith);
              })
              (omega arith) one.cell v one.reads,
          ReadsPacks-same t t (upto_pack u (suc q)) (sizes t) (upto_pack h q) (sizes t)
              (SameIn-refl _ _ t) (omega arith) (suc q) vs all.reads,
        );
        same = SameIn-trans nowhere (upto_pack h q) h u t one.same (
            SameIn-narrow nowhere (upto_pack u (suc q)) nowhere (upto_pack h q) u t (omega arith)
              all.same);
        grows = (omega arith, omega arith);
        next = next2 ∙ next1;
      }

  deep_copy_pack-Stored :
      (c : PackCell) (q : ℕ) (h : Memory S) (v : Pack S)
      → ReadsPack h nowhere (upto_pack h q) c v
      → q ≤ h.packs.next
      → (t : Memory S) × ((deep_copy_pack c >>= store_pack q) h ≡ some (tt, t)) × PackStored h t q v
  unfolding store_pack
  deep_copy_pack-Stored c q h v r room =
      let wide =
        ReadsPack-same h h nowhere (upto_pack h q) nowhere (sizes h) (SameIn-refl _ _ h)
          (omega arith) c v r in
      let (c', u, run, copied) = deep_copy_pack-Reads c.word0 c.word1 c.word2 h v wide in
      let t : Memory S = record u { packs = write q c' u.packs } in
      let next : u.packs.next ≡ h.packs.next = ap (λ r. r.next) copied.packs in
      let next' = write-next c' u.packs q in
      let stored : SameIn (sizes h) (sizes u) u t = record {
        selectors = λ a from to. refl;
        patches = λ a from to. refl;
        packs = λ a from to. absurd (omega arith);
      } in
      (
        t,
        ground (arith, run),
        record {
          cell = c';
          at = write_self c' u.packs q;
          reads =
              ReadsPack-same u t (sizes h) (sizes u) (sizes h) (sizes t) stored (omega arith) c' v
                copied.reads;
          same =
              SameIn-trans nowhere (upto_pack h q) h u t
                (SameIn-narrow nowhere (sizes h) nowhere (upto_pack h q) h u (omega arith)
                  copied.same)
                (record {
                  selectors = λ b from to. refl;
                  patches = λ b from to. refl;
                  packs = λ b from to. write-other c' u.packs q b to;
                });
          grows = copied.grows;
          next = next' ∙ next;
        },
      )

  pub deep_copy_packs-Reads :
      (vs : List (Pack S)) (p q : ℕ) (h : Memory S)
      → ReadsPacks h nowhere (upto_pack h q) p vs
      → q + length vs ≤ h.packs.next
      → (t : Memory S) × (deep_copy_packs (length vs) p q h ≡ some (tt, t)) × PacksCopied h t q vs
  unfolding deep_copy_packs
  deep_copy_packs-Reads [] p q h r room =
      (h, refl, record { reads = tt; same = SameIn-refl _ _ h; grows = omega arith; next = refl })
  deep_copy_packs-Reads (v ∷ vs) p q h (c, (from, to, at), first, rest) room =
      let (u, run1, one) = deep_copy_pack-Stored c q h v first (omega arith) in
      let (s1, p1) = one.grows in
      let next1 = one.next in
      let rest' =
        ReadsPacks-same h u nowhere (upto_pack h q) nowhere (upto_pack u (suc q)) one.same
          (omega arith) (suc p) vs rest in
      let (t, run, all) = deep_copy_packs-Reads vs (suc p) (suc q) u rest' (omega arith) in
      (t, ground (arith, at, run1, run), PacksCopied-cons h u t q v vs (omega arith) one all)
