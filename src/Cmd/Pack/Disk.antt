-- ===== src/Cmd/Pack/Disk.antt =====
-- The files of a disk, and what the loop over the resources of a dump does to them.
use mathlib.Core.Path.{subst}
use gardener_extension_shoot.Base.{
  ◌≡◌, ◌∙◌, refl, sym, ◌≢◌, inl, inr, Option, none, some, List, [], ◌∷◌, ◌++◌, append-nil,
  append_assoc, ok, arith, Str, All, Result-cases, ok-injective,
}
use gardener_extension_shoot.Go.Path.{base, join}
use gardener_extension_shoot.Assets.{Resource, read}
use gardener_extension_shoot.Cmd.Pack.{Host, dump_resources}

-- The files of the disk, by their cleaned paths, and what the two calls do to them.
pub record Disk (H : Host) : Type 0 where
  pub content : Str → H.State → Option Str
  pub write_self :
      (path text : Str) (s : H.State)
      → (H.write_file path text s).0 ≡ none
      → content path (H.write_file path text s).1 ≡ some text
  pub write_other :
      (path text : Str) (s : H.State) (p : Str)
      → p ≢ path
      → content p (H.write_file path text s).1 ≡ content p s
  pub mkdir_keeps :
      (dir : Str) (s : H.State) (p : Str) → content p (H.mkdir_all dir s).1 ≡ content p s

-- The names that the kustomization of a dump lists.
abbrev pub resource_names : List Resource → List Str
resource_names [] = []
resource_names (r ∷ rs) = base r.path ∷ resource_names rs

module _ (H : Host) (D : Disk H) (path : Str) where
  -- The resources are dumped to different files.
  abbrev pub AreApart : List Resource → Type 0
  AreApart [] = Unit
  AreApart (r ∷ rs) = All (λ q. join path r.path ≢ join path q.path) rs × AreApart rs

  pub dump_resources-frame :
      (p : Str) (rs : List Resource) (names : List Str) (s : H.State)
      → All (λ r. p ≢ join path r.path) rs
      → D.content p (dump_resources H path rs names s).1 ≡ D.content p s
  unfolding dump_resources
  dump_resources-frame p [] names s h = refl
  dump_resources-frame p (r ∷ rs) names s (first, h) = elim (Result-cases (read r)) [
    | inl (text, was_read) ↦
        let s' = (H.write_file (join path r.path) text s).1 in
        ground (
          arith,
          D.write_other (join path r.path) text s p first,
          dump_resources-frame p rs (names ++ (base r.path ∷ [])) s' h,
        )
    | inr (e, unread) ↦ ground arith
  ]

  -- The file of the resource holds what is read of it.
  abbrev pub IsWritten : H.State → Resource → Type 0
  IsWritten t r = (text : Str) × (read r ≡ ok text) × (D.content (join path r.path) t ≡ some text)

  dump_resources-step :
      (r : Resource) (rs : List Resource) (names : List Str) (s : H.State) {out : List Str}
      → (dump_resources H path (r ∷ rs) names s).0 ≡ ok out
      → (text : Str) × (read r ≡ ok text)
        × ((H.write_file (join path r.path) text s).0 ≡ none)
        × (dump_resources H path (r ∷ rs) names s
            ≡ dump_resources H path rs
                (names ++ (base r.path ∷ []))
                (H.write_file (join path r.path) text s).1)
  unfolding dump_resources
  dump_resources-step r rs names s h = ground arith

  dump_resources-nil :
      (names : List Str) (s : H.State) {out : List Str}
      → (dump_resources H path [] names s).0 ≡ ok out
      → names ≡ out
  unfolding dump_resources
  dump_resources-nil names s h = ok-injective h

  pub dump_resources-AreWritten :
      (rs : List Resource) (names : List Str) (s : H.State) {out : List Str}
      → AreApart rs
      → (dump_resources H path rs names s).0 ≡ ok out
      → All (IsWritten (dump_resources H path rs names s).1) rs × (names ++ resource_names rs ≡ out)
  dump_resources-AreWritten [] names s apart h =
      (tt, append-nil names ∙ dump_resources-nil names s h)
  dump_resources-AreWritten (r ∷ rs) names s {out} (differ, apart) h =
      let (text, was_read, wrote, goes_on) = dump_resources-step r rs names s h in
      let s' = (H.write_file (join path r.path) text s).1 in
      let names' = names ++ (base r.path ∷ []) in
      let h' : (dump_resources H path rs names' s').0 ≡ ok out = rw goes_on at h in
      let (later, listed) = dump_resources-AreWritten rs names' s' apart h' in
      let here =
        dump_resources-frame (join path r.path) rs names' s' differ
        ∙ D.write_self (join path r.path) text s wrote in
      (
        subst (λ x. All (IsWritten x.1) (r ∷ rs)) (sym goes_on) ((text, was_read, here), later),
        sym (append_assoc names (base r.path ∷ []) (resource_names rs)) ∙ listed,
      )
