-- ===== src/Actuator/Shuffle.antt =====
-- The rendering of a pack where the keys of a secret come in another order: Go leaves open in which order
-- kustomizeFilesystemForPack goes through the map of a secret.
pub mod Passes
use mathlib.Core.Path.{subst}
use gardener_extension_shoot.Base.{
  ◌≡◌, refl, sym, ap, ◌∙◌, inl, inr, ℕ, suc, Option, none, some, List, [], ◌∷◌, ◌++◌, Result, ok,
  err, arith, Str, Option-cases, Result-cases,
}
use gardener_extension_shoot.Base.Dict.{Dict}
use gardener_extension_shoot.Go.Path.{base, join}
use gardener_extension_shoot.Go.Strings.{itoa}
use gardener_extension_shoot.Config.{PatchSpec, Pack}
use gardener_extension_shoot.Assets
use gardener_extension_shoot.Assets.{Resource, read}
use gardener_extension_shoot.Platform.{Platform, Patch, Secret, referenced_resources_prefix}
use gardener_extension_shoot.Actuator.Render.{
  patch_file, secret_from_resource_ref, write_resources, write_patches, add_patches,
  kustomize_filesystem, label_object, register_objects, render_pack,
}

abbrev pub AtMostOne : {A : Type 0} → List A → Type 0
AtMostOne [] = Unit {0}
AtMostOne (x ∷ []) = Unit {0}
AtMostOne (x ∷ y ∷ xs) = ⊥

-- The elements of a list in another order.
pub data AreReordered {A : Type 0} : List A → List A → Type 0 where
  no_more : AreReordered [] []
  keep : {x : A} {xs ys : List A} → AreReordered xs ys → AreReordered (x ∷ xs) (x ∷ ys)
  swap : {x y : A} {xs : List A} → AreReordered (x ∷ y ∷ xs) (y ∷ x ∷ xs)
  both : {xs ys zs : List A} → AreReordered xs ys → AreReordered ys zs → AreReordered xs zs

AreReordered-AtMostOne : {A : Type 0} {xs ys : List A} → AreReordered xs ys → AtMostOne ys → xs ≡ ys
AreReordered-AtMostOne no_more h = refl
AreReordered-AtMostOne (keep {x} {ys = []} d) h = ap (λ l. x ∷ l) (AreReordered-AtMostOne d tt)
AreReordered-AtMostOne (keep {ys = y ∷ ys} d) h = absurd h
AreReordered-AtMostOne swap h = absurd h
AreReordered-AtMostOne (both d e) h =
    let later = AreReordered-AtMostOne e h in
    AreReordered-AtMostOne d (subst AtMostOne (sym later) h) ∙ later

-- The secret with its keys in another order.
abbrev pub with_order : (Dict Str → Dict Str) → Result Str Secret → Result Str Secret
with_order order (err e) = err e
with_order order (ok secret) = ok (record secret { content = order secret.content })

-- The platform with the order of the keys that is given for each secret and state.
abbrev pub shuffled : (P : Platform) → (Str → Str → P.Seed → Dict Str → Dict Str) → Platform
shuffled P order = record P {
  get_secret = λ ns name s. with_order (order ns name s) (P.get_secret ns name s);
}

module _ (P : Platform) (ns : Str) where
  -- The secrets that the shoot can refer to have at most one key each.
  abbrev pub HasOneKey : P.Seed → Type 0
  HasOneKey s =
      (ref : Str) (secret : Secret)
      → P.get_secret ns (referenced_resources_prefix ++ ref) s ≡ ok secret
      → AtMostOne secret.content

module _ (P : Platform) (order : Str → Str → P.Seed → Dict Str → Dict Str)
    (orders : (ns name : Str) (s : P.Seed) (d : Dict Str)
      → AreReordered (order ns name s d) d) where
  abbrev Q : Platform
  Q = shuffled P order

  write_patches-shuffled :
      (base_dir : Str) (spec : PatchSpec P.Selector) (secret : Str) (entries : Dict Str)
      (patches : List (Patch P.Selector)) (fs : P.Tree)
      → write_patches Q base_dir spec secret entries patches fs
        ≡ write_patches P base_dir spec secret entries patches fs
  unfolding write_patches
  write_patches-shuffled base_dir spec secret [] patches fs = refl
  write_patches-shuffled base_dir spec secret ((key, content) ∷ entries) patches fs =
      simp (write_patches-shuffled base_dir spec secret entries) refl

  write_resources-shuffled :
      (rs : List Resource) (names : List Str) (fs : P.Tree)
      → write_resources Q rs names fs ≡ write_resources P rs names fs
  unfolding write_resources
  write_resources-shuffled [] names fs = refl
  write_resources-shuffled (r ∷ rs) names fs = simp (write_resources-shuffled rs) refl

  register_objects-shuffled :
      (asset : Assets.Pack) (idx : ℕ) (rs : List P.Object) (entries : List (Str × Str))
      → register_objects Q asset idx rs entries ≡ register_objects P asset idx rs entries
  unfolding register_objects label_object
  register_objects-shuffled asset idx [] entries = refl
  register_objects-shuffled asset idx (r ∷ rs) entries =
      elim (Result-cases (label_object P asset r)) [
        | inl (text, labelled) ↦ ground (
          arith,
          register_objects-shuffled asset (suc idx) rs entries,
          register_objects-shuffled asset (suc idx) rs
              (entries ++ ((join asset.base_dir (itoa idx), text) ∷ [])),
        )
        | inr unlabelled ↦ ground (arith, register_objects-shuffled asset (suc idx) rs entries)
      ]

  module _ (ns : Str) (shoot : Option P.Shoot) (s : P.Seed) (one_key : HasOneKey P ns s) where
    get_secret-shuffled :
        (ref : Str)
        → Q.get_secret ns (referenced_resources_prefix ++ ref) s
          ≡ P.get_secret ns (referenced_resources_prefix ++ ref) s
    get_secret-shuffled ref =
        let name = referenced_resources_prefix ++ ref in
        elim (Result-cases (P.get_secret ns name s)) [
          | inl (secret, got) ↦ rw got (
              ap (λ d. ok (record secret { content = d }))
                (AreReordered-AtMostOne (orders ns name s secret.content) (one_key ref secret got)))
          | inr (e, lost) ↦ rw lost refl
        ]

    secret_from_resource_ref-shuffled :
        (name : Str)
        → secret_from_resource_ref Q ns name shoot s ≡ secret_from_resource_ref P ns name shoot s
    unfolding secret_from_resource_ref
    secret_from_resource_ref-shuffled name = elim (Option-cases shoot) [
      | inl nil ↦ ground arith
      | inr (sh, given) ↦ ground (arith, get_secret-shuffled name)
    ]

    add_patches-shuffled :
        (base_dir : Str) (specs : List (PatchSpec P.Selector)) (patches : List (Patch P.Selector))
        (fs : P.Tree)
        → add_patches Q ns base_dir shoot s specs patches fs
          ≡ add_patches P ns base_dir shoot s specs patches fs
    unfolding add_patches
    add_patches-shuffled base_dir [] patches fs = refl
    add_patches-shuffled base_dir (spec ∷ specs) patches fs =
        simp
          (
            secret_from_resource_ref-shuffled spec.resource_ref,
            write_patches-shuffled,
            add_patches-shuffled base_dir specs,
          )
          refl

    kustomize_filesystem-shuffled :
        (spec : Pack P.Selector) (asset : Assets.Pack)
        → kustomize_filesystem Q ns shoot spec asset s
          ≡ kustomize_filesystem P ns shoot spec asset s
    unfolding kustomize_filesystem
    kustomize_filesystem-shuffled spec asset =
        simp (write_resources-shuffled, add_patches-shuffled asset.base_dir spec.patches) refl

    pub render_pack-shuffled :
        (spec : Pack P.Selector) (asset : Assets.Pack)
        → render_pack Q ns shoot spec asset s ≡ render_pack P ns shoot spec asset s
    unfolding render_pack
    render_pack-shuffled spec asset =
        simp (kustomize_filesystem-shuffled, register_objects-shuffled asset 0) refl
