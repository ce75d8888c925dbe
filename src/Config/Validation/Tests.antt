-- ===== src/Config/Validation/Tests.antt =====
-- Configurations that are accepted, and that are not.
use gardener_extension_shoot.Base.{◌≡◌, refl, ◌↔◌, All, none, some, [], ◌∷◌, Str, codes, str_dec}
use gardener_extension_shoot.Config.{Pack, PackConfig}
use gardener_extension_shoot.Config.Validation.{
  already_defined, empty_version, validate, check_packs, check_pack, check_patches,
}
use gardener_extension_shoot.Config.Validation.Faults.{IsJust, validate-IsJust}
use gardener_extension_shoot.Config.Validation.Laws.{IsValid, validate-iff-IsValid}

abbrev pack : Str → Str → Pack Str
pack name version = record { name = name; version = version; patches = [] }

abbrev one_pack : PackConfig Str
one_pack = record { spec = record { packs = pack (codes "pg") (codes "17") ∷ [] } }

-- The same name twice, the second time with no version.
abbrev twice : PackConfig Str
twice = record {
  spec = record { packs = pack (codes "pg") (codes "17") ∷ pack (codes "pg") [] ∷ [] };
}

run_twice : validate twice ≡ some (empty_version 1 ∷ already_defined 1 0 ∷ [])
unfolding validate check_packs check_pack check_patches str_dec
run_twice = refl

validate-iff-IsValid_example : (validate one_pack ≡ none) ↔ IsValid one_pack
validate-iff-IsValid_example = validate-iff-IsValid one_pack

validate-IsJust_example : All (IsJust twice.spec.packs) (empty_version 1 ∷ already_defined 1 0 ∷ [])
validate-IsJust_example = validate-IsJust twice run_twice
