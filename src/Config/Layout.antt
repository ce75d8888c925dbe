-- ===== src/Config/Layout.antt =====
-- What the structs of pkg/apis/config in memory read as, and in which cells.
use gardener_extension_shoot.Base.{
  ◌≡◌, ◌∙◌, ℕ, ◌≤◌, ◌<◌, suc, Option, none, some, List, [], ◌∷◌, arith, length,
}
use gardener_extension_shoot.Config.{PatchSpec, Pack, PackConfigSpec}
use gardener_extension_shoot.Config.Memory.{Slice, PatchCell, PackCell, Region, Memory, Sizes}

-- The cell at an address in the range holds the value.
abbrev pub Has : {A : Type 0} → Region A → ℕ → ℕ → ℕ → A → Type 0
Has r lo hi a v = (lo ≤ a) × (a < hi) × (r.cell a ≡ some v)

module _ {S : Type 0} (h : Memory S) (lo hi : Sizes) where
  -- The pointer to a selector, of cells from `lo` on and below `hi`.
  abbrev pub ReadsTarget : Option ℕ → Option S → Type 0
  ReadsTarget none none = Unit
  ReadsTarget none (some v) = ⊥
  ReadsTarget (some a) none = ⊥
  ReadsTarget (some a) (some v) = Has h.selectors lo.selectors hi.selectors a v

  pub record ReadsPatch (c : PatchCell) (v : PatchSpec S) : Type 0 where
    pub resource_ref : c.word0 ≡ v.resource_ref
    pub target : ReadsTarget c.word1 v.target

  -- The elements from an address on.
  abbrev pub ReadsPatches : ℕ → List (PatchSpec S) → Type 0
  ReadsPatches p [] = Unit
  ReadsPatches p (v ∷ vs) =
      (c : PatchCell) × Has h.patches lo.patches hi.patches p c
      × ReadsPatch c v
      × ReadsPatches (suc p) vs

  abbrev pub ReadsPatchSlice : Slice → List (PatchSpec S) → Type 0
  ReadsPatchSlice none [] = Unit
  ReadsPatchSlice none (v ∷ vs) = ⊥
  ReadsPatchSlice (some (p, n)) vs = (n ≡ length vs) × ReadsPatches p vs

  pub record ReadsPack (c : PackCell) (v : Pack S) : Type 0 where
    pub name : c.word0 ≡ v.name
    pub version : c.word1 ≡ v.version
    pub patches : ReadsPatchSlice c.word2 v.patches

  abbrev pub ReadsPacks : ℕ → List (Pack S) → Type 0
  ReadsPacks p [] = Unit
  ReadsPacks p (v ∷ vs) =
      (c : PackCell) × Has h.packs lo.packs hi.packs p c × ReadsPack c v × ReadsPacks (suc p) vs

  -- The slice of a `PackConfigSpec`.
  abbrev pub ReadsSpec : Slice → PackConfigSpec S → Type 0
  ReadsSpec none spec = spec.packs ≡ []
  ReadsSpec (some (p, n)) spec = (n ≡ length spec.packs) × ReadsPacks p spec.packs

-- Two memories are the same in a range of cells.
pub record SameIn {S : Type 0} (lo hi : Sizes) (h t : Memory S) : Type 0 where
  pub selectors :
      (a : ℕ) → lo.selectors ≤ a → a < hi.selectors → t.selectors.cell a ≡ h.selectors.cell a
  pub patches : (a : ℕ) → lo.patches ≤ a → a < hi.patches → t.patches.cell a ≡ h.patches.cell a
  pub packs : (a : ℕ) → lo.packs ≤ a → a < hi.packs → t.packs.cell a ≡ h.packs.cell a

-- A range lies within another.
pub record Within (lo hi lo' hi' : Sizes) : Type 0 where
  pub selectors : (lo'.selectors ≤ lo.selectors) × (hi.selectors ≤ hi'.selectors)
  pub patches : (lo'.patches ≤ lo.patches) × (hi.patches ≤ hi'.patches)
  pub packs : (lo'.packs ≤ lo.packs) × (hi.packs ≤ hi'.packs)

-- What is read of cells in a range is read in a memory that is the same there, and of a wider range.
module _ {S : Type 0} (h t : Memory S) (lo hi lo' hi' : Sizes) (same : SameIn lo hi h t)
    (within : Within lo hi lo' hi') where
  pub ReadsTarget-same :
      (a : Option ℕ) (v : Option S) → ReadsTarget h lo hi a v → ReadsTarget t lo' hi' a v
  ReadsTarget-same none none r = tt
  ReadsTarget-same none (some v) r = absurd r
  ReadsTarget-same (some a) none r = absurd r
  ReadsTarget-same (some a) (some v) (from, to, at) =
      let kept = same.selectors a from to in (omega arith, omega arith, kept ∙ at)

  pub ReadsPatch-same :
      (c : PatchCell) (v : PatchSpec S) → ReadsPatch h lo hi c v → ReadsPatch t lo' hi' c v
  ReadsPatch-same c v r = record {
    resource_ref = r.resource_ref;
    target = ReadsTarget-same c.word1 v.target r.target;
  }

  pub ReadsPatches-same :
      (p : ℕ) (vs : List (PatchSpec S)) → ReadsPatches h lo hi p vs → ReadsPatches t lo' hi' p vs
  ReadsPatches-same p [] r = tt
  ReadsPatches-same p (v ∷ vs) (c, (from, to, at), first, rest) =
      let kept = same.patches p from to in
      (
        c,
        (omega arith, omega arith, kept ∙ at),
        ReadsPatch-same c v first,
        ReadsPatches-same (suc p) vs rest,
      )

  pub ReadsPatchSlice-same :
      (s : Slice) (vs : List (PatchSpec S))
      → ReadsPatchSlice h lo hi s vs
      → ReadsPatchSlice t lo' hi' s vs
  ReadsPatchSlice-same none [] r = tt
  ReadsPatchSlice-same none (v ∷ vs) r = absurd r
  ReadsPatchSlice-same (some (p, n)) vs (len, r) = (len, ReadsPatches-same p vs r)

  pub ReadsPack-same : (c : PackCell) (v : Pack S) → ReadsPack h lo hi c v → ReadsPack t lo' hi' c v
  ReadsPack-same c v r = record {
    name = r.name;
    version = r.version;
    patches = ReadsPatchSlice-same c.word2 v.patches r.patches;
  }

  pub ReadsPacks-same :
      (p : ℕ) (vs : List (Pack S)) → ReadsPacks h lo hi p vs → ReadsPacks t lo' hi' p vs
  ReadsPacks-same p [] r = tt
  ReadsPacks-same p (v ∷ vs) (c, (from, to, at), first, rest) =
      let kept = same.packs p from to in
      (
        c,
        (omega arith, omega arith, kept ∙ at),
        ReadsPack-same c v first,
        ReadsPacks-same (suc p) vs rest,
      )

  pub ReadsSpec-same :
      (s : Slice) (spec : PackConfigSpec S) → ReadsSpec h lo hi s spec → ReadsSpec t lo' hi' s spec
  ReadsSpec-same none spec r = r
  ReadsSpec-same (some (p, n)) spec (len, r) = (len, ReadsPacks-same p spec.packs r)
