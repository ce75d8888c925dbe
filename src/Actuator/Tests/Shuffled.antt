-- ===== src/Actuator/Tests/Shuffled.antt =====
-- Two passes of the actuator, for the second of which the first two keys of each secret are swapped.
use gardener_extension_shoot.Base.{
  ◌≡◌, refl, inl, inr, Bool-cases, none, List, [], ◌∷◌, ◌++◌, arith, Str, codes, ◌==◌, str_dec,
}
use gardener_extension_shoot.Base.Dict.{Dict, lookup, insert, copy}
use gardener_extension_shoot.Go.Strings.{itoa, digits_onto}
use gardener_extension_shoot.Go.Path.{
  base, join, clean, split_slash, segments, join_slash, is_rooted, go_up, clean_onto, rev_onto,
  last_segment,
}
use gardener_extension_shoot.Config.Validation.{validate, check_packs, check_pack, check_patches}
use gardener_extension_shoot.Assets.{read, pack_exists, get_pack}
use gardener_extension_shoot.Platform.{referenced_resources_prefix, Managed}
use gardener_extension_shoot.Platform.Memory.{TestSeed, memory_managed, memory-Steady}
use gardener_extension_shoot.Actuator.{
  managed_resource_prefix, mr_name, create, reconcile_pack, reconcile_packs, delete_packs,
  disabled_names, reconcile_config, parse_config, reconcile_cluster, reconcile,
}
use gardener_extension_shoot.Actuator.Render.{
  patch_file, secret_from_resource_ref, write_resources, write_patches, add_patches,
  kustomize_filesystem, label_object, register_objects, render_pack,
}
use gardener_extension_shoot.Actuator.Shuffle.{
  AreReordered, no_more, keep, swap, shuffled, HasOneKey,
}
use gardener_extension_shoot.Actuator.Shuffle.Passes.{reconcile-twice}
use gardener_extension_shoot.Actuator.Tests.{P, ex, seed, config, two_packs, run_two}

abbrev M : Managed P
M = memory_managed config

abbrev swapped : {A : Type 0} → List A → List A
swapped [] = []
swapped (x ∷ []) = x ∷ []
swapped (x ∷ y ∷ xs) = y ∷ x ∷ xs

swapped-AreReordered : {A : Type 0} (xs : List A) → AreReordered (swapped xs) xs
swapped-AreReordered [] = no_more
swapped-AreReordered (x ∷ []) = keep no_more
swapped-AreReordered (x ∷ y ∷ xs) = swap

abbrev order : Str → Str → TestSeed → Dict Str → Dict Str
order ns name s d = swapped d

seed-HasOneKey : HasOneKey P ex.namespace seed
unfolding lookup
seed-HasOneKey ref secret got =
    elim (Bool-cases ((referenced_resources_prefix ++ ref) == codes "ref-fix")) [
      | inl found ↦ ground arith
      | inr lost ↦ ground arith
    ]

run_two_again :
    (reconcile (shuffled P order) two_packs ex (reconcile P two_packs ex seed).1).0 ≡ none
unfolding reconcile reconcile_cluster parse_config validate check_packs check_pack check_patches
    reconcile_config reconcile_packs reconcile_pack create render_pack kustomize_filesystem
    secret_from_resource_ref write_resources write_patches add_patches label_object register_objects
    pack_exists get_pack read disabled_names delete_packs mr_name managed_resource_prefix
    referenced_resources_prefix patch_file lookup insert copy str_dec itoa digits_onto base join
    clean split_slash segments join_slash is_rooted go_up clean_onto rev_onto last_segment
run_two_again = refl

reconcile-twice_example :
    M.managed ex.namespace
      (codes "extension-shoot-pack-pg")
      (reconcile (shuffled P order) two_packs ex (reconcile P two_packs ex seed).1).1
    ≡ M.managed ex.namespace (codes "extension-shoot-pack-pg") (reconcile P two_packs ex seed).1
reconcile-twice_example =
    reconcile-twice P (memory-Steady config) order (λ ns name s. swapped-AreReordered) two_packs M
      ex seed seed-HasOneKey run_two run_two_again ex.namespace (codes "extension-shoot-pack-pg")
