-- ===== src/Actuator/Render/Laws.antt =====
-- What the managed resource of a pack holds: the objects that kustomize returned, but for namespaces,
-- each with the labels of the pack.
use mathlib.Core.Path.{subst}
use gardener_extension_shoot.Base.{
  append-nil, append_assoc, length, ◌≡◌, refl, sym, ap, ◌∙◌, ◌≢◌, inl, inr, ℕ, suc, Option, some,
  List, [], ◌∷◌, ◌++◌, ok, wrap, wrap-eq-ok, arith, Str, codes, >>=-eq-ok, ok-injective,
  Result-cases, str_dec,
}
use gardener_extension_shoot.Base.Dict.{
  Dict, lookup, insert, copy, lookup-insert, lookup-insert_self,
}
use gardener_extension_shoot.Go.Strings.{itoa}
use gardener_extension_shoot.Go.Path.{join}
use gardener_extension_shoot.Config.{Pack}
use gardener_extension_shoot.Assets
use gardener_extension_shoot.Platform.{Platform}
use gardener_extension_shoot.Actuator.Errors.{labels_failed, run_failed}
use gardener_extension_shoot.Actuator.Render.{
  pack_name_label, pack_version_label, kustomize_filesystem, extra_labels, label_object,
  register_objects, render_pack,
}

lengths-ne : ◌≢◌ {A = ℕ} 35 38
lengths-ne e = omega arith

labels-ne : pack_name_label ≢ pack_version_label
unfolding pack_name_label pack_version_label
labels-ne h = lengths-ne (ap length h)

-- The labels of a pack, on top of others: those two are set, and all others are as they were.
pub record IsOnTop (asset : Assets.Pack) (before after : Dict Str) : Type 0 where
  pub name : lookup pack_name_label after ≡ some asset.name
  pub version : lookup pack_version_label after ≡ some asset.version
  pub others :
      (label : Str)
      → label ≢ pack_name_label
      → label ≢ pack_version_label
      → lookup label after ≡ lookup label before

module _ (P : Platform) where
  copy-extra_labels :
      (asset : Assets.Pack) (before : Dict Str)
      → copy before (extra_labels P asset)
        ≡ insert pack_version_label asset.version (insert pack_name_label asset.name before)
  unfolding copy
  copy-extra_labels asset before = refl

  copy-IsOnTop :
      (asset : Assets.Pack) (before : Dict Str)
      → IsOnTop asset before (copy before (extra_labels P asset))
  copy-IsOnTop asset before =
      let named = insert pack_name_label asset.name before in
      subst (IsOnTop asset before) (sym (copy-extra_labels asset before)) (record {
        name =
            let e = lookup-insert pack_name_label pack_version_label asset.version named in
            ground (arith, labels-ne, e, lookup-insert_self pack_name_label asset.name before);
        version = lookup-insert_self pack_version_label asset.version named;
        others = λ label n v.
            let e = lookup-insert label pack_version_label asset.version named in
            let e' = lookup-insert label pack_name_label asset.name before in
            ground (arith, n, v, e, e');
      })

module _ (P : Platform) (asset : Assets.Pack) where
  -- The text is the object's, with the labels of the pack.
  pub record IsLabelled (r : P.Object) (text : Str) : Type 0 where
    pub labels : Dict Str
    pub labelled : P.Object
    pub on_top : IsOnTop asset (P.get_labels r) labels
    pub was_set : P.set_labels labels r ≡ ok labelled
    pub as_text : P.as_yaml labelled ≡ ok text

  label_object-IsLabelled :
      (r : P.Object) {text : Str} → label_object P asset r ≡ ok text → IsLabelled r text
  unfolding label_object
  label_object-IsLabelled r h =
      let labels = copy (P.get_labels r) (extra_labels P asset) in
      let (labelled, set, rest) = >>=-eq-ok (wrap labels_failed (P.set_labels labels r)) _ h in
      record {
        labels = labels;
        labelled = labelled;
        on_top = copy-IsOnTop P asset (P.get_labels r);
        was_set = wrap-eq-ok _ (P.set_labels labels r) set;
        as_text = wrap-eq-ok _ (P.as_yaml labelled) rest;
      }

  -- The entries are those of the objects from an index on, in their order: none for a namespace, and
  -- the labelled object, by its index, for every other one.
  pub data AreRegistered : ℕ → List P.Object → List (Str × Str) → Type 0 where
    done : {idx : ℕ} → AreRegistered idx [] []
    skip :
        {idx : ℕ} {r : P.Object} {rs : List P.Object} {entries : List (Str × Str)}
        → P.get_kind r ≡ codes "Namespace"
        → AreRegistered (suc idx) rs entries
        → AreRegistered idx (r ∷ rs) entries
    take :
        {idx : ℕ} {r : P.Object} {rs : List P.Object} {text : Str} {entries : List (Str × Str)}
        → P.get_kind r ≢ codes "Namespace"
        → IsLabelled r text
        → AreRegistered (suc idx) rs entries
        → AreRegistered idx (r ∷ rs) ((join asset.base_dir (itoa idx), text) ∷ entries)

  register_objects-namespace :
      (idx : ℕ) (r : P.Object) (rs : List P.Object) (acc : List (Str × Str))
      → P.get_kind r ≡ codes "Namespace"
      → register_objects P asset idx (r ∷ rs) acc ≡ register_objects P asset (suc idx) rs acc
  unfolding register_objects
  register_objects-namespace idx r rs acc h = ground arith

  register_objects-eq-ok :
      (idx : ℕ) (r : P.Object) (rs : List P.Object) (acc : List (Str × Str))
      {entries : List (Str × Str)}
      → P.get_kind r ≢ codes "Namespace"
      → register_objects P asset idx (r ∷ rs) acc ≡ ok entries
      → (text : Str) × (label_object P asset r ≡ ok text)
        × (register_objects P asset
              (suc idx)
              rs
              (acc ++ ((join asset.base_dir (itoa idx), text) ∷ []))
            ≡ ok entries)
  unfolding register_objects
  register_objects-eq-ok idx r rs acc ne h = elim (Result-cases (label_object P asset r)) [
    | inl (text, labelled) ↦ (text, labelled, ground arith)
    | inr (e, unlabelled) ↦ absurd (ground arith)
  ]

  register_objects-nil :
      (idx : ℕ) (acc : List (Str × Str)) {entries : List (Str × Str)}
      → register_objects P asset idx [] acc ≡ ok entries
      → acc ≡ entries
  unfolding register_objects
  register_objects-nil idx acc h = ok-injective h

  -- What is registered comes behind what was there.
  abbrev Extends : ℕ → List P.Object → List (Str × Str) → List (Str × Str) → Type 0
  Extends idx rs acc entries =
      (new : List (Str × Str)) × AreRegistered idx rs new × (acc ++ new ≡ entries)

  register_objects-AreRegistered :
      (idx : ℕ) (rs : List P.Object) (acc : List (Str × Str)) {entries : List (Str × Str)}
      → register_objects P asset idx rs acc ≡ ok entries
      → Extends idx rs acc entries
  register_objects-AreRegistered idx [] acc h =
      ([], done, append-nil acc ∙ register_objects-nil idx acc h)
  register_objects-AreRegistered idx (r ∷ rs) acc h =
      elim (str_dec (P.get_kind r) (codes "Namespace")) [
        | yes e ↦
            let h' = sym (register_objects-namespace idx r rs acc e) ∙ h in
            let (new, registered, same) = register_objects-AreRegistered (suc idx) rs acc h' in
            (new, skip e registered, same)
        | no ne ↦
            let (text, labelled, h') = register_objects-eq-ok idx r rs acc ne h in
            let entry : Str × Str = (join asset.base_dir (itoa idx), text) in
            let (new, registered, same) =
              register_objects-AreRegistered (suc idx) rs (acc ++ (entry ∷ [])) h' in
            (
              entry ∷ new,
              take ne (label_object-IsLabelled r labelled) registered,
              sym (append_assoc acc (entry ∷ []) new) ∙ same,
            )
      ]

  -- A pack that is rendered holds, in their order, the objects that kustomize makes of the pack's file
  -- system, but for the namespaces: each under the pack's directory and its index, with the pack's
  -- name and version as labels, and its other labels as they were.
  pub render_pack-AreRegistered :
      (ns : Str) (shoot : Option P.Shoot) (spec : Pack P.Selector) (s : P.Seed) {bundle : P.Bundle}
      → render_pack P ns shoot spec asset s ≡ ok bundle
      → (fs : P.Tree) × (objects : List P.Object) × (entries : List (Str × Str))
        × (kustomize_filesystem P ns shoot spec asset s ≡ ok fs)
        × (P.run fs asset.base_dir ≡ ok objects)
        × AreRegistered 0 objects entries
        × (P.serialized_objects entries ≡ ok bundle)
  unfolding render_pack
  render_pack-AreRegistered ns shoot spec s h =
      let (fs, made, h1) = >>=-eq-ok (kustomize_filesystem P ns shoot spec asset s) _ h in
      let (objects, ran, h2) = >>=-eq-ok (wrap run_failed (P.run fs asset.base_dir)) _ h1 in
      let (entries, listed, h3) = >>=-eq-ok (register_objects P asset 0 objects []) _ h2 in
      let (new, registered, same) = register_objects-AreRegistered 0 objects [] listed in
      (
        fs,
        objects,
        entries,
        made,
        wrap-eq-ok _ (P.run fs asset.base_dir) ran,
        subst (AreRegistered 0 objects) same registered,
        wrap-eq-ok _ (P.serialized_objects entries) h3,
      )
