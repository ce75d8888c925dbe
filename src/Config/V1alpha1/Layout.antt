-- ===== src/Config/V1alpha1/Layout.antt =====
-- What the structs of pkg/apis/config/v1alpha1 in memory read as, by the order of their fields, and what
-- they are as structs of the internal version.
use gardener_extension_shoot.Base.{
  ◌≡◌, ◌↔◌, refl, ap, ◌∙◌, sym, ℕ, suc, none, some, List, [], ◌∷◌, length, map,
}
use gardener_extension_shoot.Config as Internal
use gardener_extension_shoot.Config.Memory.{Slice, PatchCell, PackCell, Memory, Sizes}
use gardener_extension_shoot.Config.Layout.{Has, ReadsTarget}
use gardener_extension_shoot.Config.Layout as InternalLayout
use gardener_extension_shoot.Config.V1alpha1.{PatchSpec, Pack, PackConfigSpec}

length-map : {A B : Type 0} (f : A → B) (xs : List A) → length (map f xs) ≡ length xs
length-map f [] = refl
length-map f (x ∷ xs) = ap suc (length-map f xs)

map-eq-nil : {A B : Type 0} (f : A → B) (xs : List A) → map f xs ≡ [] → xs ≡ []
map-eq-nil f [] e = refl
map-eq-nil f (x ∷ xs) e = cc

module _ {S : Type 0} where
  -- The same fields, of the other version.
  abbrev pub internal_patch : PatchSpec S → Internal.PatchSpec S
  internal_patch v = record { resource_ref = v.resource_ref; target = v.target }

  abbrev pub internal_pack : Pack S → Internal.Pack S
  internal_pack v = record {
    name = v.name;
    version = v.version;
    patches = map internal_patch v.patches;
  }

  abbrev pub internal_spec : PackConfigSpec S → Internal.PackConfigSpec S
  internal_spec v = record { packs = map internal_pack v.packs }

  module _ (h : Memory S) (lo hi : Sizes) where
    pub record ReadsPatch (c : PatchCell) (v : PatchSpec S) : Type 0 where
      pub resource_ref : c.word0 ≡ v.resource_ref
      pub target : ReadsTarget h lo hi c.word1 v.target

    abbrev pub ReadsPatches : ℕ → List (PatchSpec S) → Type 0
    ReadsPatches p [] = Unit
    ReadsPatches p (v ∷ vs) =
        (c : PatchCell) × Has h.patches lo.patches hi.patches p c
        × ReadsPatch c v
        × ReadsPatches (suc p) vs

    abbrev pub ReadsPatchSlice : Slice → List (PatchSpec S) → Type 0
    ReadsPatchSlice none [] = Unit
    ReadsPatchSlice none (v ∷ vs) = ⊥
    ReadsPatchSlice (some (p, n)) vs = (n ≡ length vs) × ReadsPatches p vs

    pub record ReadsPack (c : PackCell) (v : Pack S) : Type 0 where
      pub name : c.word0 ≡ v.name
      pub version : c.word1 ≡ v.version
      pub patches : ReadsPatchSlice c.word2 v.patches

    abbrev pub ReadsPacks : ℕ → List (Pack S) → Type 0
    ReadsPacks p [] = Unit
    ReadsPacks p (v ∷ vs) =
        (c : PackCell) × Has h.packs lo.packs hi.packs p c × ReadsPack c v × ReadsPacks (suc p) vs

    abbrev pub ReadsSpec : Slice → PackConfigSpec S → Type 0
    ReadsSpec none spec = spec.packs ≡ []
    ReadsSpec (some (p, n)) spec = (n ≡ length spec.packs) × ReadsPacks p spec.packs

    patches_iff :
        (p : ℕ) (vs : List (PatchSpec S))
        → ReadsPatches p vs ↔ InternalLayout.ReadsPatches h lo hi p (map internal_patch vs)
    patches_iff p [] = (λ r. r, λ r. r)
    patches_iff p (v ∷ vs) =
        let rest = patches_iff (suc p) vs in
        (
          λ (c, at, r, rs).
              (c, at, record { resource_ref = r.resource_ref; target = r.target }, rest.0 rs),
          λ (c, at, r, rs).
              (c, at, record { resource_ref = r.resource_ref; target = r.target }, rest.1 rs),
        )

    slice_iff :
        (s : Slice) (vs : List (PatchSpec S))
        → ReadsPatchSlice s vs ↔ InternalLayout.ReadsPatchSlice h lo hi s (map internal_patch vs)
    slice_iff none [] = (λ r. r, λ r. r)
    slice_iff none (v ∷ vs) = (λ r. r, λ r. r)
    slice_iff (some (p, n)) vs =
        let len = length-map internal_patch vs in
        let elements = patches_iff p vs in
        (λ (e, r). (e ∙ sym len, elements.0 r), λ (e, r). (e ∙ len, elements.1 r))

    pack_iff :
        (c : PackCell) (v : Pack S)
        → ReadsPack c v ↔ InternalLayout.ReadsPack h lo hi c (internal_pack v)
    pack_iff c v =
        let patches = slice_iff c.word2 v.patches in
        (
          λ r. record { name = r.name; version = r.version; patches = patches.0 r.patches },
          λ r. record { name = r.name; version = r.version; patches = patches.1 r.patches },
        )

    packs_iff :
        (p : ℕ) (vs : List (Pack S))
        → ReadsPacks p vs ↔ InternalLayout.ReadsPacks h lo hi p (map internal_pack vs)
    packs_iff p [] = (λ r. r, λ r. r)
    packs_iff p (v ∷ vs) =
        let rest = packs_iff (suc p) vs in
        (
          λ (c, at, r, rs). (c, at, (pack_iff c v).0 r, rest.0 rs),
          λ (c, at, r, rs). (c, at, (pack_iff c v).1 r, rest.1 rs),
        )

    -- A configuration reads as a value of this version exactly when it reads, in the same cells, as the
    -- value of the internal version with the same fields.
    pub spec_iff :
        (s : Slice) (v : PackConfigSpec S)
        → ReadsSpec s v ↔ InternalLayout.ReadsSpec h lo hi s (internal_spec v)
    spec_iff none v = (λ e. ap (map internal_pack) e, λ e. map-eq-nil internal_pack v.packs e)
    spec_iff (some (p, n)) v =
        let len = length-map internal_pack v.packs in
        let elements = packs_iff p v.packs in
        (λ (e, r). (e ∙ sym len, elements.0 r), λ (e, r). (e ∙ len, elements.1 r))
