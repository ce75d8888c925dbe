-- ===== src/Actuator/Render/Collision.antt =====
-- Patches from two secrets that get one file.
use mathlib.Core.Path.{subst}
use gardener_extension_shoot.Base.{
  ◌≡◌, ◌∙◌, sym, ap, inl, inr, Option, some, List, [], ◌∷◌, ◌++◌, ok, arith, Str, codes,
  append_assoc, Result-cases, >>=-eq-ok, ok-injective,
}
use gardener_extension_shoot.Go.Path.{join}
use gardener_extension_shoot.Config.{PatchSpec}
use gardener_extension_shoot.Platform.{Platform, Patch, Secret}
use gardener_extension_shoot.Actuator.Render.{
  secret_from_resource_ref, patch_file, write_patches, add_patches,
}

-- Two secrets and keys whose names are joined by a dash elsewhere.
patch_file-collision :
    (a b c : Str) → patch_file a (b ++ (codes "-" ++ c)) ≡ patch_file (a ++ (codes "-" ++ b)) c
unfolding patch_file
patch_file-collision a b c =
    ap (λ t. codes "patch-" ++ t) (sym (append_assoc a (codes "-" ++ b) (codes "-" ++ c)))

module _ (P : Platform) (content_of : Str → P.Tree → Option Str)
    (content_of-write_file : (path content : Str) (fs fs' : P.Tree)
      → P.write_file path content fs ≡ ok fs'
      → content_of path fs' ≡ some content) where
  write_patches-one :
      (base_dir : Str) (spec : PatchSpec P.Selector) (secret key content : Str)
      (patches : List (Patch P.Selector)) (fs : P.Tree) {written : List (Patch P.Selector) × P.Tree}
      → write_patches P base_dir spec secret ((key, content) ∷ []) patches fs ≡ ok written
      → (patches ++ (record { path = patch_file secret key; target = spec.target } ∷ [])
          ≡ written.0)
        × (content_of (join base_dir (patch_file secret key)) written.1 ≡ some content)
  unfolding write_patches
  write_patches-one base_dir spec secret key content patches fs h =
      let path = join base_dir (patch_file secret key) in
      elim (Result-cases (P.write_file path content fs)) [
        | inl (fs', put) ↦ ground (arith, content_of-write_file path content fs fs' put)
        | inr unwritten ↦ ground arith
      ]

  add_patches-nil :
      (ns base_dir : Str) (shoot : Option P.Shoot) (s : P.Seed) (patches : List (Patch P.Selector))
      (fs : P.Tree) {patched : List (Patch P.Selector) × P.Tree}
      → add_patches P ns base_dir shoot s [] patches fs ≡ ok patched
      → (patches, fs) ≡ patched
  unfolding add_patches
  add_patches-nil ns base_dir shoot s patches fs h = ok-injective h

  add_patches-cons :
      (ns base_dir : Str) (shoot : Option P.Shoot) (s : P.Seed) (p : PatchSpec P.Selector)
      (specs : List (PatchSpec P.Selector)) (patches : List (Patch P.Selector)) (fs : P.Tree)
      {secret : Secret} {patched : List (Patch P.Selector) × P.Tree}
      → secret_from_resource_ref P ns p.resource_ref shoot s ≡ ok secret
      → add_patches P ns base_dir shoot s (p ∷ specs) patches fs ≡ ok patched
      → (written : List (Patch P.Selector) × P.Tree) × (write_patches P base_dir p secret.name
            secret.content patches fs
          ≡ ok written)
        × (add_patches P ns base_dir shoot s specs written.0 written.1 ≡ ok patched)
  unfolding add_patches
  add_patches-cons ns base_dir shoot s p specs patches fs {secret} got h =
      >>=-eq-ok (write_patches P base_dir p secret.name secret.content patches fs) _ (rw got at h)

  -- Let two patches of a configuration name secrets with one key each, whose names and keys are
  -- joined by a dash elsewhere. The patches that are added then have one and the same path, though
  -- each its own target, and the file of that path holds the second patch alone, provided that a
  -- file which is written holds what was written last.
  pub add_patches-collision :
      (ns base_dir : Str) (shoot : Option P.Shoot) (s : P.Seed) (p q : PatchSpec P.Selector)
      (a b c x y : Str) (fs : P.Tree) {patched : List (Patch P.Selector) × P.Tree}
      → secret_from_resource_ref P ns p.resource_ref shoot s
        ≡ ok (record { name = a ++ (codes "-" ++ b); content = (c, x) ∷ [] })
      → secret_from_resource_ref P ns q.resource_ref shoot s
        ≡ ok (record { name = a; content = (b ++ (codes "-" ++ c), y) ∷ [] })
      → add_patches P ns base_dir shoot s (p ∷ q ∷ []) [] fs ≡ ok patched
      → let path = patch_file (a ++ (codes "-" ++ b)) c in
        (patched.0
          ≡ record { path = path; target = p.target }
            ∷ record { path = path; target = q.target }
            ∷ [])
        × (content_of (join base_dir path) patched.1 ≡ some y)
  add_patches-collision ns base_dir shoot s p q a b c x y fs {patched} one two h =
      let (first, put, h1) = add_patches-cons ns base_dir shoot s p (q ∷ []) [] fs one h in
      let (second, put', h2) = add_patches-cons ns base_dir shoot s q [] first.0 first.1 two h1 in
      let (listed, _) = write_patches-one base_dir p (a ++ (codes "-" ++ b)) c x [] fs put in
      let (listed', held) =
        write_patches-one base_dir q a (b ++ (codes "-" ++ c)) y first.0 first.1 put' in
      let last : second ≡ patched = add_patches-nil ns base_dir shoot s second.0 second.1 h2 in
      let path = patch_file (a ++ (codes "-" ++ b)) c in
      let one_path = patch_file-collision a b c in
      subst
        (λ r.
          (r.0
            ≡ record { path = path; target = p.target }
              ∷ record { path = path; target = q.target }
              ∷ [])
          × (content_of (join base_dir path) r.1 ≡ some y))
        last
        (
          sym listed'
              ∙ (ap
                    (λ ps.
                      ps
                      ++ (record { path = patch_file a (b ++ (codes "-" ++ c)); target = q.target }
                          ∷ []))
                    (sym listed)
                  ∙ ap
                      (λ n.
                        record { path = path; target = p.target }
                        ∷ record { path = n; target = q.target }
                        ∷ [])
                      one_path),
          subst (λ n. content_of (join base_dir n) second.1 ≡ some y) one_path held,
        )
