-- ===== src/Config/Validation.antt =====
-- `Validate` of pkg/apis/config/validation/validation.go.
pub mod Laws
pub mod Faults
mod Tests
use gardener_extension_shoot.Base.{
  ℕ, suc, Bool, true, false, Option, none, some, List, [], ◌∷◌, ◌++◌, if◌then◌else◌, Str, ◌==◌,
  index_func,
}
use gardener_extension_shoot.Config.{PatchSpec, Pack, PackConfig}

-- The calls of `field.Required` and `field.Invalid`, with the indices in their field paths.
pub data FieldError : Type 0 where
  no_packs : FieldError
  empty_name empty_version : ℕ → FieldError
  already_defined : ℕ → ℕ → FieldError
  empty_resource_ref : ℕ → ℕ → FieldError

-- `seenPack`
pub record SeenPack : Type 0 where
  pub name : Str
  pub version : Str
  pub idx : ℕ

-- `if b { allErrs = append(allErrs, e) }`
abbrev pub append_if : Bool → FieldError → List FieldError → List FieldError
append_if b e errs = if b then errs ++ (e ∷ []) else errs

-- `slices.IndexFunc(seenPacks, …)`, by the name alone.
abbrev pub seen_at : Str → List SeenPack → Option ℕ
seen_at name = index_func (λ item. item.name == name)

abbrev pub append_seen : ℕ → Option ℕ → List FieldError → List FieldError
append_seen idx none errs = errs
append_seen idx (some seen_idx) errs = errs ++ (already_defined idx seen_idx ∷ [])

-- `ToAggregate`
abbrev pub to_aggregate : List FieldError → Option (List FieldError)
to_aggregate [] = none
to_aggregate (e ∷ errs) = some (e ∷ errs)

module _ {S : Type 0} where
  -- The loop over the patches of one pack.
  unfoldable pub check_patches : ℕ → ℕ → List (PatchSpec S) → List FieldError → List FieldError
  check_patches idx patch_idx [] errs = errs
  check_patches idx patch_idx (patch ∷ patches) errs =
      check_patches idx (suc patch_idx) patches
        (append_if (patch.resource_ref == []) (empty_resource_ref idx patch_idx) errs)

  -- The tests of one pack that stand before the loop over its patches.
  unfoldable pub check_pack : ℕ → Pack S → List SeenPack → List FieldError → List FieldError
  check_pack idx pack seen errs = append_seen idx (seen_at pack.name seen) (
      append_if (pack.version == []) (empty_version idx)
        (append_if (pack.name == []) (empty_name idx) errs))

  -- The loop over the packs.
  unfoldable pub check_packs : ℕ → List (Pack S) → List SeenPack → List FieldError → List FieldError
  check_packs idx [] seen errs = errs
  check_packs idx (pack ∷ packs) seen errs =
      check_packs (suc idx) packs
        (seen ++ (record { name = pack.name; version = pack.version; idx = idx } ∷ []))
        (check_patches idx 0 pack.patches (check_pack idx pack seen errs))

  -- The test before the loop.
  abbrev pub check_some : List (Pack S) → List FieldError
  check_some [] = no_packs ∷ []
  check_some (_ ∷ _) = []

  -- `Validate`, whose nil is `none`.
  unfoldable pub validate : PackConfig S → Option (List FieldError)
  validate cfg = to_aggregate (check_packs 0 cfg.spec.packs [] (check_some cfg.spec.packs))
