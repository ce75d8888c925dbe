-- ===== src/Actuator/Tests.antt =====
-- Runs of the actuator on a platform in memory.
mod Passes
mod Shuffled
mod Rendering
use gardener_extension_shoot.Base.{
  ◌≡◌, refl, ◌≢◌, ◌⊎◌, inl, inr, ℕ, Bool, true, false, Option, none, some, List, [], ◌∷◌, Result,
  ok, err, Str, codes, str_dec, ◌==◌, ◌++◌, if◌then◌else◌, All, Any,
}
use gardener_extension_shoot.Base.Dict.{Dict, lookup, insert, copy}
use gardener_extension_shoot.Go.Strings.{itoa, digits_onto}
use gardener_extension_shoot.Go.Path.{
  base, join, clean, split_slash, segments, join_slash, is_rooted, go_up, clean_onto, rev_onto,
  last_segment,
}
use gardener_extension_shoot.Config.{PatchSpec, Pack, PackConfig, pack_string}
use gardener_extension_shoot.Config.Validation.{validate, check_packs, check_pack, check_patches}
use gardener_extension_shoot.Assets
use gardener_extension_shoot.Assets.{Fs, Resource, Collection, read, pack_exists, get_pack}
use gardener_extension_shoot.Platform.{Platform, NamedReference, Secret}
use gardener_extension_shoot.Platform.Memory.{TestShoot, TestSeed, memory, memory_managed}
use gardener_extension_shoot.Actuator.{
  Extension, managed_resource_prefix, mr_name, create, reconcile_pack, reconcile_packs,
  delete_packs, disabled_names, reconcile_config, parse_config, reconcile_cluster, reconcile,
  delete, force_delete,
}
use gardener_extension_shoot.Actuator.Render.{
  pack_name_label, pack_version_label, patch_file, secret_from_resource_ref, write_resources,
  write_patches, add_patches, kustomize_filesystem, label_object, register_objects, render_pack,
}
use gardener_extension_shoot.Platform.{referenced_resources_prefix}
use gardener_extension_shoot.Actuator.Early.{stage, in_packs, reading}

abbrev pub test_fs : Fs
test_fs = record {
  glob = λ pattern. err (codes "unused");
  open_file = λ path. err (codes "unused");
  read_file = λ path. ok (codes "Service");
}

abbrev pub test_pack : Str → Str → Str → Assets.Pack
test_pack name version dir = record {
  name = name;
  version = version;
  description = codes "a test";
  resources = record { path = dir ++ codes "/a.yaml"; sha256 = []; file_system = test_fs } ∷ [];
  base_dir = dir;
  file_system = test_fs;
}

abbrev pub pg17 : Assets.Pack
pg17 = test_pack (codes "pg") (codes "17") (codes "p/pg/17")

abbrev pub pg18 : Assets.Pack
pg18 = test_pack (codes "pg") (codes "18") (codes "p/pg/18")

abbrev pub vk1 : Assets.Pack
vk1 = test_pack (codes "vk") (codes "1") (codes "p/vk/1")

abbrev pub collection_of : List Assets.Pack → Collection
collection_of packs = record { packs = packs; file_system = test_fs; skip_verify = true }

-- One pack, with a patch from a secret.
abbrev pub spec_pg : Pack Str
spec_pg = record {
  name = codes "pg";
  version = codes "17";
  patches = record { resource_ref = codes "fix"; target = none } ∷ [];
}

abbrev pub config : PackConfig Str
config = record { spec = record { packs = spec_pg ∷ [] } }

abbrev pub shoot : TestShoot
shoot = record {
  hibernated = false;
  resources = record { name = codes "fix"; kind = codes "Secret"; api_version = codes "v1" } ∷ [];
}

-- A cluster in which the other pack is deployed.
abbrev pub seed : TestSeed
seed = record {
  cluster = ok (some shoot);
  secrets =
      (
        codes "ref-fix",
        record { name = codes "ref-fix"; content = (codes "k", codes "Patch") ∷ [] },
      )
      ∷ [];
  managed = λ ns name. if name == codes "extension-shoot-pack-vk" then some [] else none;
}

abbrev pub ex : Extension
ex = record { namespace = codes "shoot--a"; provider_config = some (codes "raw") }

abbrev pub P : Platform
P = memory config

abbrev pub two_packs : Collection
two_packs = collection_of (pg17 ∷ vk1 ∷ [])

pub run_two : (reconcile P two_packs ex seed).0 ≡ none
unfolding reconcile reconcile_cluster parse_config validate check_packs check_pack check_patches
    reconcile_config reconcile_packs reconcile_pack create render_pack kustomize_filesystem
    secret_from_resource_ref write_resources write_patches add_patches label_object register_objects
    pack_exists get_pack read disabled_names delete_packs mr_name managed_resource_prefix
    referenced_resources_prefix patch_file lookup insert copy str_dec itoa digits_onto base join
    clean split_slash segments join_slash is_rooted go_up clean_onto rev_onto last_segment
run_two = refl

-- Both versions of a pack in the collection.
abbrev pub two_versions : Collection
two_versions = collection_of (pg17 ∷ pg18 ∷ [])

pub run_versions : (reconcile P two_versions ex seed).0 ≡ none
unfolding reconcile reconcile_cluster parse_config validate check_packs check_pack check_patches
    reconcile_config reconcile_packs reconcile_pack create render_pack kustomize_filesystem
    secret_from_resource_ref write_resources write_patches add_patches label_object register_objects
    pack_exists get_pack read disabled_names delete_packs mr_name managed_resource_prefix
    referenced_resources_prefix patch_file lookup insert copy str_dec itoa digits_onto base join
    clean split_slash segments join_slash is_rooted go_up clean_onto rev_onto last_segment
run_versions = refl

-- A collection without the pack that is asked for.
abbrev pub other_pack : Collection
other_pack = collection_of (vk1 ∷ [])

pub run_other : stage (reconcile P other_pack ex seed).0 ≡ in_packs
unfolding reconcile reconcile_cluster parse_config validate check_packs check_pack check_patches
    reconcile_config reconcile_packs reconcile_pack create render_pack kustomize_filesystem
    secret_from_resource_ref write_resources write_patches add_patches label_object register_objects
    pack_exists get_pack read disabled_names delete_packs mr_name managed_resource_prefix
    referenced_resources_prefix patch_file lookup insert copy str_dec itoa digits_onto base join
    clean split_slash segments join_slash is_rooted go_up clean_onto rev_onto last_segment
run_other = refl

-- An extension with no provider config.
abbrev pub no_config : Extension
no_config = record { namespace = codes "shoot--a"; provider_config = none }

pub run_no_config : stage (reconcile P two_packs no_config seed).0 ≡ reading
unfolding reconcile reconcile_cluster parse_config validate check_packs check_pack check_patches
    reconcile_config reconcile_packs reconcile_pack create render_pack kustomize_filesystem
    secret_from_resource_ref write_resources write_patches add_patches label_object register_objects
    pack_exists get_pack read disabled_names delete_packs mr_name managed_resource_prefix
    referenced_resources_prefix patch_file lookup insert copy str_dec itoa digits_onto base join
    clean split_slash segments join_slash is_rooted go_up clean_onto rev_onto last_segment
run_no_config = refl

pub run_delete : (delete P two_packs ex seed).0 ≡ none
unfolding delete delete_packs mr_name managed_resource_prefix str_dec
run_delete = refl

-- The managed resource of the pack that is asked for, before and after the pass.
abbrev pub pg_resource : TestSeed → Option (List (Str × Str))
pg_resource s = s.managed (codes "shoot--a") (codes "extension-shoot-pack-pg")

pub run_writes : pg_resource (reconcile P two_packs ex seed).1 ≢ pg_resource seed
unfolding reconcile reconcile_cluster parse_config validate check_packs check_pack check_patches
    reconcile_config reconcile_packs reconcile_pack create render_pack kustomize_filesystem
    secret_from_resource_ref write_resources write_patches add_patches label_object register_objects
    pack_exists get_pack read disabled_names delete_packs mr_name managed_resource_prefix
    referenced_resources_prefix patch_file lookup insert copy str_dec itoa digits_onto base join
    clean split_slash segments join_slash is_rooted go_up clean_onto rev_onto last_segment
run_writes h = cc
