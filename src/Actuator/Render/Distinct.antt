-- ===== src/Actuator/Render/Distinct.antt =====
-- The entries that a pack registers do not overwrite each other.
use gardener_extension_shoot.Base.{
  ℕ, suc, ◌≤◌, ◌≡◌, refl, sym, ap, ◌∙◌, ◌≢◌, Option, List, [], ◌∷◌, ok, arith, Str, All, All-map,
}
use gardener_extension_shoot.Go.Strings.{itoa}
use gardener_extension_shoot.Go.Strings.Digits.{itoa_injective, itoa-IsPlain}
use gardener_extension_shoot.Go.Path.{join, join_slash}
use gardener_extension_shoot.Go.Path.Laws.{IsPlain}
use gardener_extension_shoot.Go.Path.Join.{join_injective}
use gardener_extension_shoot.Config.{Pack}
use gardener_extension_shoot.Assets
use gardener_extension_shoot.Platform.{Platform}
use gardener_extension_shoot.Actuator.Render.{render_pack}
use gardener_extension_shoot.Actuator.Render.Laws.{
  AreRegistered, done, skip, take, render_pack-AreRegistered,
}

-- No two entries have one name.
abbrev pub NodupKeys : List (Str × Str) → Type 0
NodupKeys [] = Unit
NodupKeys (e ∷ entries) = All (λ f. e.0 ≢ f.0) entries × NodupKeys entries

module _ (P : Platform) (asset : Assets.Pack) where
  -- The entry is named by an index that is at least the given one.
  abbrev IsFrom : ℕ → Str × Str → Type 0
  IsFrom idx e = (k : ℕ) × (idx ≤ k) × (e.0 ≡ join asset.base_dir (itoa k))

  AreRegistered-IsFrom :
      (idx : ℕ) {rs : List P.Object} {entries : List (Str × Str)}
      → AreRegistered P asset idx rs entries
      → (low : ℕ) → low ≤ idx
      → All (IsFrom low) entries
  AreRegistered-IsFrom idx done low le = tt
  AreRegistered-IsFrom idx (skip kind later) low le =
      AreRegistered-IsFrom (suc idx) later low (omega arith)
  AreRegistered-IsFrom idx (take kind labelled later) low le =
      ((idx, le, refl), AreRegistered-IsFrom (suc idx) later low (omega arith))

  module _ (s : Str) (ss : List Str) (ps : IsPlain s) (h : All IsPlain ss)
      (at : asset.base_dir ≡ join_slash (s ∷ ss)) where
    name_injective : (i k : ℕ) → join asset.base_dir (itoa i) ≡ join asset.base_dir (itoa k) → i ≡ k
    name_injective i k e = itoa_injective i k (
        join_injective s ss ps h (itoa i) (itoa k) (itoa-IsPlain i) (itoa-IsPlain k)
          (sym (ap (λ d. join d (itoa i)) at) ∙ e ∙ ap (λ d. join d (itoa k)) at))

    AreRegistered-NodupKeys :
        (idx : ℕ) {rs : List P.Object} {entries : List (Str × Str)}
        → AreRegistered P asset idx rs entries
        → NodupKeys entries
    AreRegistered-NodupKeys idx done = tt
    AreRegistered-NodupKeys idx (skip kind later) = AreRegistered-NodupKeys (suc idx) later
    AreRegistered-NodupKeys idx (take {entries = entries} kind labelled later) = (
      All-map _ _ entries
          (λ f (k, le, named) e.
            let same : idx ≡ k = name_injective idx k (e ∙ named) in omega (arith, same, le))
          (AreRegistered-IsFrom (suc idx) later (suc idx) (omega arith)),
      AreRegistered-NodupKeys (suc idx) later,
    )

    -- A pack in a directory of plain names, as the packs that are read from a file system are, registers
    -- its objects under names that all differ, so that none overwrites another in the managed resource.
    pub render_pack-NodupKeys :
        (ns : Str) (shoot : Option P.Shoot) (spec : Pack P.Selector) (seed : P.Seed)
        {bundle : P.Bundle}
        → render_pack P ns shoot spec asset seed ≡ ok bundle
        → (entries : List (Str × Str)) × NodupKeys entries
          × (P.serialized_objects entries ≡ ok bundle)
    render_pack-NodupKeys ns shoot spec seed h =
        let (fs, objects, entries, made, ran, registered, serialized) =
          render_pack-AreRegistered P asset ns shoot spec seed h in
        (entries, AreRegistered-NodupKeys 0 registered, serialized)
