-- ===== src/Config/DeepCopy.antt =====
-- pkg/apis/config/generated.deepcopy.go. `DeepCopyInto` is a function from what `in` points to to what
-- it leaves where `out` points, which is new memory wherever the code calls it.
pub mod Regions
pub mod Patches
pub mod Packs
pub mod Spec
pub mod Laws
use gardener_extension_shoot.Base.{ℕ, zero, suc, Option, none, some, [], Str}
use gardener_extension_shoot.Config.Memory.{
  Slice, PatchCell, PackCell, Memory, allocate, write, M, ◌>>=◌, ◌>>◌, ret, ConfigCell,
}

module _ {S : Type 0} where
  load_selector : ℕ → M S S
  load_selector a h = elim (h.selectors.cell a) [ none ↦ none | some v ↦ some (v, h) ]

  -- `new(types.Selector)`, and the assignment to it.
  new_selector : S → M S ℕ
  new_selector v h = some (h.selectors.next, record h { selectors = allocate 1 v h.selectors })

  load_patch : ℕ → M S PatchCell
  load_patch a h = elim (h.patches.cell a) [ none ↦ none | some c ↦ some (c, h) ]

  store_patch : ℕ → PatchCell → M S (Unit {0})
  store_patch a c h = some (tt, record h { patches = write a c h.patches })

  make_patches : ℕ → M S ℕ
  make_patches n h = some (
    h.patches.next,
    record h { patches = allocate n (record { word0 = []; word1 = none }) h.patches },
  )

  load_pack : ℕ → M S PackCell
  load_pack a h = elim (h.packs.cell a) [ none ↦ none | some c ↦ some (c, h) ]

  store_pack : ℕ → PackCell → M S (Unit {0})
  store_pack a c h = some (tt, record h { packs = write a c h.packs })

  make_packs : ℕ → M S ℕ
  make_packs n h = some (
    h.packs.next,
    record h { packs = allocate n (record { word0 = []; word1 = []; word2 = none }) h.packs },
  )

  -- `PatchSpec.DeepCopyInto`
  unfoldable pub deep_copy_patch : PatchCell → M S PatchCell
  unfolding load_selector new_selector
  deep_copy_patch c = elim c.word1 [
    | none ↦ ret c
    | some a ↦ do v ← load_selector a; b ← new_selector v; ret (record c { word1 = some b })
  ]

  -- The loop over the patches of a pack.
  unfoldable pub deep_copy_patches : ℕ → ℕ → ℕ → M S (Unit {0})
  unfolding load_patch store_patch
  deep_copy_patches zero p q = ret tt
  deep_copy_patches (suc n) p q = do
    c ← load_patch p
    c' ← deep_copy_patch c
    store_patch q c'
    deep_copy_patches n (suc p) (suc q)

  -- `Pack.DeepCopyInto`
  unfoldable pub deep_copy_pack : PackCell → M S PackCell
  unfolding make_patches
  deep_copy_pack c = elim c.word2 [
    | none ↦ ret c
    | some (p, n) ↦ do
      q ← make_patches n
      deep_copy_patches n p q
      ret (record c { word2 = some (q, n) })
  ]

  -- The loop over the packs of a configuration.
  unfoldable pub deep_copy_packs : ℕ → ℕ → ℕ → M S (Unit {0})
  unfolding load_pack store_pack
  deep_copy_packs zero p q = ret tt
  deep_copy_packs (suc n) p q = do
    c ← load_pack p
    c' ← deep_copy_pack c
    store_pack q c'
    deep_copy_packs n (suc p) (suc q)

  -- `PackConfigSpec.DeepCopyInto`
  unfoldable pub deep_copy_spec : Slice → M S Slice
  unfolding make_packs
  deep_copy_spec none = ret none
  deep_copy_spec (some (p, n)) = do q ← make_packs n; deep_copy_packs n p q; ret (some (q, n))

  -- `PackConfig.DeepCopyInto`
  unfoldable pub deep_copy_config : {Meta : Type 0} → ConfigCell Meta → M S (ConfigCell Meta)
  deep_copy_config c = do spec ← deep_copy_spec c.word1; ret (record c { word1 = spec })

  -- The body of each method `DeepCopy`, of a pointer that may be nil, over its `DeepCopyInto`.
  unfoldable pub deep_copy : {T : Type 0} → (T → M S T) → Option T → M S (Option T)
  deep_copy into none = ret none
  deep_copy into (some c) = do c' ← into c; ret (some c')

  -- `PatchSpec.DeepCopy`
  abbrev pub patch_deep_copy : Option PatchCell → M S (Option PatchCell)
  patch_deep_copy = deep_copy deep_copy_patch

  -- `Pack.DeepCopy`
  abbrev pub pack_deep_copy : Option PackCell → M S (Option PackCell)
  pack_deep_copy = deep_copy deep_copy_pack

  -- `PackConfigSpec.DeepCopy`
  abbrev pub spec_deep_copy : Option Slice → M S (Option Slice)
  spec_deep_copy = deep_copy deep_copy_spec

  -- `PackConfig.DeepCopy`
  abbrev pub config_deep_copy :
      {Meta : Type 0} → Option (ConfigCell Meta) → M S (Option (ConfigCell Meta))
  config_deep_copy = deep_copy deep_copy_config

  -- `PackConfig.DeepCopyObject`
  unfoldable pub deep_copy_object :
      {Meta : Type 0} → Option (ConfigCell Meta) → M S (Option (ConfigCell Meta))
  deep_copy_object p = do c ← config_deep_copy p; elim c [ some c ↦ ret (some c) | none ↦ ret none ]
