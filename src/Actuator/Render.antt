-- ===== src/Actuator/Render.antt =====
-- The objects of a pack: the kustomization that `kustomizeFilesystemForPack` writes, with the
-- patches from the referenced secrets, and the labelled resources that `reconcilePack` registers.
pub mod Laws
pub mod Patches
pub mod Collision
pub mod Distinct
use gardener_extension_shoot.Base.{
  ℕ, suc, Bool, true, false, ◌&&◌, Option, none, some, List, [], ◌∷◌, ◌++◌, Result, ok, err, ◌>>=◌,
  wrap, if◌then◌else◌, Str, codes, ◌==◌, index_func,
}
use gardener_extension_shoot.Base.Dict.{Dict, copy}
use gardener_extension_shoot.Go.Strings.{itoa}
use gardener_extension_shoot.Go.Path.{base, join}
use gardener_extension_shoot.Config.{PatchSpec, Pack, pack_string}
use gardener_extension_shoot.Assets
use gardener_extension_shoot.Assets.{Resource, read}
use gardener_extension_shoot.Platform.{
  Platform, referenced_resources_prefix, NamedReference, Secret, Patch, Kustomization,
}
use gardener_extension_shoot.Actuator.Errors.{
  Error, invalid_object, mkdir_failed, resource_unreadable, unwritable, patch_failed, no_reference,
  secret_failed, marshal_failed, run_failed, registry_failed, labels_failed, yaml_failed,
}

unfoldable pub pack_name_label : Str
pack_name_label = codes "pack.extensions.gardener.cloud/name"

unfoldable pub pack_version_label : Str
pack_version_label = codes "pack.extensions.gardener.cloud/version"

abbrev pub secret_kind : Str
secret_kind = codes "Secret"

abbrev pub core_version : Str
core_version = codes "v1"

-- `metav1.NamespaceSystem`
abbrev pub namespace_system : Str
namespace_system = codes "kube-system"

-- The test of `slices.IndexFunc`: the reference has that name and is to a secret.
abbrev pub is_secret_ref : Str → NamedReference → Bool
is_secret_ref name item =
    item.name == name && item.kind == secret_kind && item.api_version == core_version

-- `fmt.Sprintf("patch-%s-%s", secret.Name, key)`
unfoldable pub patch_file : Str → Str → Str
patch_file secret key = codes "patch-" ++ (secret ++ (codes "-" ++ key))

module _ (P : Platform) where
  -- `secretFromResourceRef`
  unfoldable pub secret_from_resource_ref :
      Str → Str → Option P.Shoot → P.Seed → Result Error Secret
  secret_from_resource_ref ns name none s = err (invalid_object (codes "shoot is nil"))
  secret_from_resource_ref ns name (some shoot) s =
      let secret_name = referenced_resources_prefix ++ name in
      elim (index_func (is_secret_ref name) (P.resources shoot)) [
        | none ↦ err (no_reference name)
        | some _ ↦ wrap (secret_failed ns secret_name name) (P.get_secret ns secret_name s)
      ]

  -- The loop over the resources of the pack, with the names collected so far.
  unfoldable pub write_resources :
      List Resource → List Str → P.Tree → Result Error (List Str × P.Tree)
  write_resources [] names fs = ok (names, fs)
  write_resources (r ∷ rs) names fs = do
    content ← wrap (λ _. resource_unreadable r.path) (read r)
    fs' ← wrap (λ _. unwritable r.path) (P.write_file r.path content fs)
    write_resources rs (names ++ (base r.path ∷ [])) fs'

  -- The loop over the keys of a secret.
  unfoldable pub write_patches :
      Str
      → PatchSpec P.Selector
      → Str
      → Dict Str
      → List (Patch P.Selector)
      → P.Tree
      → Result Error (List (Patch P.Selector) × P.Tree)
  write_patches base_dir spec secret [] patches fs = ok (patches, fs)
  write_patches base_dir spec secret ((key, content) ∷ entries) patches fs = do
    fs' ← wrap unwritable (P.write_file (join base_dir (patch_file secret key)) content fs)
    write_patches base_dir spec secret entries
        (patches ++ (record { path = patch_file secret key; target = spec.target } ∷ [])) fs'

  -- The loop over the patches of the configuration.
  unfoldable pub add_patches :
      Str
      → Str
      → Option P.Shoot
      → P.Seed
      → List (PatchSpec P.Selector)
      → List (Patch P.Selector)
      → P.Tree
      → Result Error (List (Patch P.Selector) × P.Tree)
  add_patches ns base_dir shoot s [] patches fs = ok (patches, fs)
  add_patches ns base_dir shoot s (spec ∷ specs) patches fs = do
    secret ←
        wrap (patch_failed spec.resource_ref)
          (secret_from_resource_ref ns spec.resource_ref shoot s)
    written ← write_patches base_dir spec secret.name secret.content patches fs
    add_patches ns base_dir shoot s specs written.0 written.1

  abbrev pub kustomization_of : List Str → List (Patch P.Selector) → Kustomization P.Selector
  kustomization_of names patches = record {
    namespace = namespace_system;
    resources = names;
    build_metadata = P.origin_annotations ∷ [];
    patches = patches;
  }

  -- `kustomizeFilesystemForPack`
  unfoldable pub kustomize_filesystem :
      Str → Option P.Shoot → Pack P.Selector → Assets.Pack → P.Seed → Result Error P.Tree
  kustomize_filesystem ns shoot spec asset s = do
    fs ← wrap mkdir_failed (P.mkdir_all asset.base_dir P.make_fs_in_memory)
    written ← write_resources asset.resources [] fs
    patched ← add_patches ns asset.base_dir shoot s spec.patches [] written.1
    text ← wrap marshal_failed (P.marshal (kustomization_of written.0 patched.0))
    wrap unwritable (P.write_file (join asset.base_dir P.kustomization_file_name) text patched.1)

  abbrev pub extra_labels : Assets.Pack → Dict Str
  extra_labels asset = (pack_name_label, asset.name) ∷ (pack_version_label, asset.version) ∷ []

  -- An object with the labels of the pack, as YAML.
  unfoldable pub label_object : Assets.Pack → P.Object → Result Error Str
  label_object asset r = do
    labelled ← wrap labels_failed (P.set_labels (copy (P.get_labels r) (extra_labels asset)) r)
    wrap yaml_failed (P.as_yaml labelled)

  -- The loop over the resources that kustomize returned, from an index on; namespaces are skipped.
  unfoldable pub register_objects :
      Assets.Pack → ℕ → List P.Object → List (Str × Str) → Result Error (List (Str × Str))
  register_objects asset idx [] entries = ok entries
  register_objects asset idx (r ∷ rs) entries = elim (P.get_kind r == codes "Namespace") [
    | true ↦ register_objects asset (suc idx) rs entries
    | false ↦ label_object asset r >>= λ text.
        register_objects asset (suc idx) rs
          (entries ++ ((join asset.base_dir (itoa idx), text) ∷ []))
  ]

  -- `reconcilePack` up to the data of the managed resource.
  unfoldable pub render_pack :
      Str → Option P.Shoot → Pack P.Selector → Assets.Pack → P.Seed → Result Error P.Bundle
  render_pack ns shoot spec asset s = do
    fs ← kustomize_filesystem ns shoot spec asset s
    objects ← wrap run_failed (P.run fs asset.base_dir)
    entries ← register_objects asset 0 objects []
    wrap registry_failed (P.serialized_objects entries)
