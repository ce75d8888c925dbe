-- ===== src/Admission/Refusal.antt =====
-- The errors of the actuator that blame the configuration, and the rendering of a pack, which has no
-- such error where the shoot refers to the secrets of the patches.
use gardener_extension_shoot.Base.{
  ◌≡◌, refl, inl, inr, Bool, true, false, Option, none, some, List, [], ◌∷◌, Result, ok, err, ◌++◌,
  suc, arith, Str, Result-cases, ℕ,
}
use gardener_extension_shoot.Base.Dict.{Dict}
use gardener_extension_shoot.Go.Path.{base, join}
use gardener_extension_shoot.Go.Strings.{itoa}
use gardener_extension_shoot.Config.{PatchSpec, Pack}
use gardener_extension_shoot.Assets
use gardener_extension_shoot.Assets.{Collection, Resource, pack_exists, get_pack, read}
use gardener_extension_shoot.Platform.{Platform, Patch}
use gardener_extension_shoot.Actuator.Errors.{
  Error, no_provider_config, invalid_provider_config, invalid_config, no_such_pack,
  unable_to_get_pack, unable_to_reconcile, patch_failed, no_reference,
}
use gardener_extension_shoot.Actuator.Render.{
  patch_file, secret_from_resource_ref, write_resources, write_patches, add_patches,
  kustomize_filesystem, label_object, register_objects, render_pack,
}
use gardener_extension_shoot.Admission.Laws.{HasSecret, HasSecrets, index_func-HasSecret}

-- The error blames the configuration: it is missing, unreadable or invalid, or names a pack or a
-- secret that there is not.
abbrev pub is_refusal : Error → Bool
is_refusal no_provider_config = true
is_refusal (invalid_provider_config e) = true
is_refusal (invalid_config errs) = true
is_refusal (no_such_pack pack) = true
is_refusal (unable_to_get_pack pack) = true
is_refusal (no_reference name) = true
is_refusal (unable_to_reconcile pack e) = is_refusal e
is_refusal (patch_failed name e) = is_refusal e
is_refusal _ = false

abbrev pub refused : Option Error → Bool
refused none = false
refused (some e) = is_refusal e

abbrev pub refused_result : {A : Type 0} → Result Error A → Bool
refused_result (ok a) = false
refused_result (err e) = is_refusal e

module _ (P : Platform) (ns : Str) (shoot : P.Shoot) where
  secret_from_resource_ref-refused :
      (name : Str) (s : P.Seed)
      → HasSecret (P.resources shoot) name
      → refused_result (secret_from_resource_ref P ns name (some shoot) s) ≡ false
  unfolding secret_from_resource_ref
  secret_from_resource_ref-refused name s h =
      ground (arith, index_func-HasSecret name (P.resources shoot))

  write_resources-refused :
      (rs : List Resource) (names : List Str) (fs : P.Tree)
      → refused_result (write_resources P rs names fs) ≡ false
  unfolding write_resources
  write_resources-refused [] names fs = refl
  write_resources-refused (r ∷ rs) names fs = elim (Result-cases (read r)) [
    | inl (content, was_read) ↦ elim (Result-cases (P.write_file r.path content fs)) [
      | inl (fs', was_written) ↦
          ground (arith, write_resources-refused rs (names ++ (base r.path ∷ [])) fs')
      | inr unwritten ↦ ground arith
    ]
    | inr unread ↦ ground arith
  ]

  write_patches-refused :
      (base_dir : Str) (spec : PatchSpec P.Selector) (secret : Str) (entries : Dict Str)
      (patches : List (Patch P.Selector)) (fs : P.Tree)
      → refused_result (write_patches P base_dir spec secret entries patches fs) ≡ false
  unfolding write_patches
  write_patches-refused base_dir spec secret [] patches fs = refl
  write_patches-refused base_dir spec secret ((key, content) ∷ entries) patches fs =
      elim (Result-cases (P.write_file (join base_dir (patch_file secret key)) content fs)) [
        | inl (fs', was_written) ↦ ground (
          arith,
          write_patches-refused base_dir spec secret entries
              (patches ++ (record { path = patch_file secret key; target = spec.target } ∷ [])) fs',
        )
        | inr unwritten ↦ ground arith
      ]

  add_patches-refused :
      (base_dir : Str) (s : P.Seed) (specs : List (PatchSpec P.Selector))
      (patches : List (Patch P.Selector)) (fs : P.Tree)
      → HasSecrets (P.resources shoot) specs
      → refused_result (add_patches P ns base_dir (some shoot) s specs patches fs) ≡ false
  unfolding add_patches
  add_patches-refused base_dir s [] patches fs h = refl
  add_patches-refused base_dir s (spec ∷ specs) patches fs (first, h) =
      let here = secret_from_resource_ref-refused spec.resource_ref s first in
      elim (Result-cases (secret_from_resource_ref P ns spec.resource_ref (some shoot) s)) [
        | inl (secret, found) ↦
            let writing =
              write_patches-refused base_dir spec secret.name secret.content patches fs in
            elim (Result-cases
              (write_patches P base_dir spec secret.name secret.content patches fs)) [
                | inl (written, e) ↦
                    ground (arith, add_patches-refused base_dir s specs written.0 written.1 h)
                | inr unwritten ↦ ground (arith, writing)
              ]
        | inr lost ↦ ground (arith, here)
      ]

  kustomize_filesystem-refused :
      (spec : Pack P.Selector) (asset : Assets.Pack) (s : P.Seed)
      → HasSecrets (P.resources shoot) spec.patches
      → refused_result (kustomize_filesystem P ns (some shoot) spec asset s) ≡ false
  unfolding kustomize_filesystem
  kustomize_filesystem-refused spec asset s h =
      elim (Result-cases (P.mkdir_all asset.base_dir P.make_fs_in_memory)) [
        | inl (fs, made) ↦
            let writing = write_resources-refused asset.resources [] fs in
            elim (Result-cases (write_resources P asset.resources [] fs)) [
              | inl (written, e) ↦
                  ground (arith, add_patches-refused asset.base_dir s spec.patches [] written.1 h)
              | inr unwritten ↦ ground (arith, writing)
            ]
        | inr unmade ↦ ground arith
      ]

  label_object-refused :
      (asset : Assets.Pack) (r : P.Object) → refused_result (label_object P asset r) ≡ false
  unfolding label_object
  label_object-refused asset r = ground arith

  register_objects-refused :
      (asset : Assets.Pack) (idx : ℕ) (rs : List P.Object) (entries : List (Str × Str))
      → refused_result (register_objects P asset idx rs entries) ≡ false
  unfolding register_objects
  register_objects-refused asset idx [] entries = refl
  register_objects-refused asset idx (r ∷ rs) entries =
      let labelling = label_object-refused asset r in
      elim (Result-cases (label_object P asset r)) [
        | inl (text, e) ↦ ground (
          arith,
          register_objects-refused asset (suc idx) rs entries,
          register_objects-refused asset (suc idx) rs
              (entries ++ ((join asset.base_dir (itoa idx), text) ∷ [])),
        )
        | inr unlabelled ↦
            ground (arith, labelling, register_objects-refused asset (suc idx) rs entries)
      ]

  pub render_pack-refused :
      (spec : Pack P.Selector) (asset : Assets.Pack) (s : P.Seed)
      → HasSecrets (P.resources shoot) spec.patches
      → refused_result (render_pack P ns (some shoot) spec asset s) ≡ false
  unfolding render_pack
  render_pack-refused spec asset s h =
      let making = kustomize_filesystem-refused spec asset s h in
      elim (Result-cases (kustomize_filesystem P ns (some shoot) spec asset s)) [
        | inl (fs, made) ↦ elim (Result-cases (P.run fs asset.base_dir)) [
          | inl (objects, ran) ↦ ground (arith, register_objects-refused asset 0 objects [])
          | inr unran ↦ ground arith
        ]
        | inr unmade ↦ ground (arith, making)
      ]
