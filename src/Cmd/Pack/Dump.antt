-- ===== src/Cmd/Pack/Dump.antt =====
-- What a dump leaves on the disk.
use mathlib.Core.Path.{subst}
use gardener_extension_shoot.Base.{
  ◌≡◌, ◌∙◌, sym, ap, ◌≢◌, ◌⊎◌, inl, inr, ℕ, true, false, none, some, List, [], ◌∷◌, Result, ok,
  arith, Str, str_dec, All, All-map, Any, Result-cases, >>=-eq-ok, wrap-eq-ok, ok-injective,
  All-zip,
}
use gardener_extension_shoot.Go.Strings.{equal_fold, hex}
use gardener_extension_shoot.Go.Path.{join, join_all}
use gardener_extension_shoot.Assets.{Fs, Resource, Collection, read, get_pack}
use gardener_extension_shoot.Assets
use gardener_extension_shoot.Assets.Lookup.{get_pack-All}
use gardener_extension_shoot.Assets.New.{new_collection, with_skip_verify}
use gardener_extension_shoot.Assets.New.Whole.{default_collection-IsComplete}
use gardener_extension_shoot.Assets.Verify.{IsComplete}
use gardener_extension_shoot.Cmd.Pack.{
  Host, Flags, Error, no_collection, no_pack, load, find_pack, dump_resources, dump_kustomization,
  dump_pack, run_pack_dump,
}
use gardener_extension_shoot.Cmd.Pack.Disk.{
  Disk, AreApart, IsWritten, resource_names, dump_resources-frame, dump_resources-AreWritten,
}

-- A file is one that the loop writes, or it is another one than each of those.
either_target :
    (path p : Str) (rs : List Resource)
    → Any (λ r. p ≡ join path r.path) rs ⊎ All (λ r. p ≢ join path r.path) rs
either_target path p [] = inr tt
either_target path p (r ∷ rs) = elim (str_dec p (join path r.path)) [
  | yes e ↦ inl (inl e)
  | no ne ↦ elim (either_target path p rs) [
    | inl later ↦ inl (inr later)
    | inr apart ↦ inr (ne, apart)
  ]
]

module _ (H : Host) (D : Disk H) (digest : Str → List ℕ) (flags : Flags) (pack : Assets.Pack) where
  -- Where the kustomization of the pack is dumped to.
  abbrev pub kustomization_path : Str
  kustomization_path = join_all (flags.path ∷ pack.base_dir ∷ H.kustomization_file_name ∷ [])

  -- What a dump promises of the disk after it, from the disk before it.
  pub record IsDumped (s t : H.State) : Type 0 where
    pub resources :
        All
          (λ r.
            (text : Str) × (read r ≡ ok text)
            × (equal_fold r.sha256 (hex (digest text)) ≡ true)
            × (D.content (join flags.path r.path) t ≡ some text))
          pack.resources
    pub kustomization :
        (flags.with_kustomization ≡ false)
        ⊎ ((text : Str) × (H.marshal (record {
          resources = resource_names pack.resources;
          build_metadata = H.origin_annotations ∷ [];
        })
              ≡ ok text)
            × (D.content kustomization_path t ≡ some text))
    pub others :
        (p : Str)
        → (Any (λ r. p ≡ join flags.path r.path) pack.resources ⊎ (p ≡ kustomization_path))
          ⊎ (D.content p t ≡ D.content p s)

  -- The state after the directory was made, and after the resources were written.
  abbrev made : H.State → H.State
  made s = (H.mkdir_all (join flags.path pack.base_dir) s).1

  abbrev wrote : H.State → Result Error (List Str) × H.State
  wrote s = dump_resources H flags.path pack.resources [] (made s)

  abbrev names : List Str
  names = resource_names pack.resources

  dump_pack-eq-none :
      (s : H.State)
      → (dump_pack H flags pack s).0 ≡ none
      → (out : List Str) × ((wrote s).0 ≡ ok out)
        × ((flags.with_kustomization ≡ false) × ((dump_pack H flags pack s).1 ≡ (wrote s).1)
            ⊎ ((text : Str) × (H.marshal
                    (record { resources = out; build_metadata = H.origin_annotations ∷ [] })
                  ≡ ok text)
                × ((H.write_file kustomization_path text (wrote s).1).0 ≡ none)
                × ((dump_pack H flags pack s).1
                    ≡ (H.write_file kustomization_path text (wrote s).1).1)))
  unfolding dump_pack dump_kustomization
  dump_pack-eq-none s h = elim (Result-cases (wrote s).0) [
    | inl (out, passed) ↦ (out, passed, ground (arith, passed))
    | inr (e, failed) ↦ absurd (ground (arith, failed))
  ]

  module _ (apart : AreApart H D flags.path pack.resources)
      (own : All (λ r. join flags.path r.path ≢ kustomization_path) pack.resources) (s : H.State)
      (passed : (dump_pack H flags pack s).0 ≡ none) where
    abbrev after : H.State
    after = (dump_pack H flags pack s).1

    wrote-AreWritten : All (IsWritten H D flags.path (wrote s).1) pack.resources
    wrote-AreWritten =
        let (out, done, _) = dump_pack-eq-none s passed in
        (dump_resources-AreWritten H D flags.path pack.resources [] (made s) apart done).0

    -- The kustomization is written last, to a file of its own.
    after-frame : (p : Str) → p ≢ kustomization_path → D.content p after ≡ D.content p (wrote s).1
    after-frame p ne =
        let (out, done, how) = dump_pack-eq-none s passed in
        elim how [
          | inl (off, same) ↦ ap (D.content p) same
          | inr (text, marshalled, put, same) ↦
              ap (D.content p) same ∙ D.write_other kustomization_path text (wrote s).1 p ne
        ]

    after-kustomization :
        (flags.with_kustomization ≡ false)
        ⊎ ((text : Str) × (H.marshal
                (record { resources = names; build_metadata = H.origin_annotations ∷ [] })
              ≡ ok text)
            × (D.content kustomization_path after ≡ some text))
    after-kustomization =
        let (out, done, how) = dump_pack-eq-none s passed in
        let listed =
          (dump_resources-AreWritten H D flags.path pack.resources [] (made s) apart done).1 in
        elim how [
          | inl (off, same) ↦ inl off
          | inr (text, marshalled, put, same) ↦ inr (
            text,
            rw listed marshalled,
            ap (D.content kustomization_path) same
                ∙ D.write_self kustomization_path text (wrote s).1 put,
          )
        ]

    after-others :
        (p : Str)
        → (Any (λ r. p ≡ join flags.path r.path) pack.resources ⊎ (p ≡ kustomization_path))
          ⊎ (D.content p after ≡ D.content p s)
    after-others p = elim (either_target flags.path p pack.resources) [
      | inl target ↦ inl (inl target)
      | inr apart_p ↦ elim (str_dec p kustomization_path) [
        | yes e ↦ inl (inr e)
        | no ne ↦ inr (
            after-frame p ne
            ∙ (dump_resources-frame H D flags.path p pack.resources [] (made s) apart_p
                ∙ D.mkdir_keeps (join flags.path pack.base_dir) s p))
      ]
    ]

    dump_pack-IsDumped : IsComplete digest pack → IsDumped s after
    dump_pack-IsDumped complete = record {
      resources =
          All-map _ _ pack.resources
            (λ r ((ne, sound), (text, was_read, here)).
              let e : sound.content ≡ text = ok-injective (sym sound.readable ∙ was_read) in
              (
                text,
                was_read,
                subst (λ x. equal_fold r.sha256 (hex (digest x)) ≡ true) e sound.matches,
                after-frame (join flags.path r.path) ne ∙ here,
              ))
            (All-zip _ _ pack.resources (All-zip _ _ pack.resources own complete.sound)
              wrote-AreWritten);
      kustomization = after-kustomization;
      others = after-others;
    }

module _ (digest : Str → List ℕ) (fs : Fs) where
  -- A pack of a collection that was verified is complete.
  find_pack-IsComplete :
      (flags : Flags) {pack : Assets.Pack}
      → flags.skip_verify ≡ false
      → find_pack digest fs flags ≡ ok pack
      → IsComplete digest pack
  find_pack-IsComplete flags verified loaded =
      let (c, got, h) = >>=-eq-ok (load digest fs flags) _ loaded in
      let read_in =
        wrap-eq-ok no_collection
          (new_collection digest (some fs) (with_skip_verify flags.skip_verify ∷ [])) got in
      get_pack-All c flags.name flags.version (IsComplete digest)
        (default_collection-IsComplete digest fs (
          subst (λ b. new_collection digest (some fs) (with_skip_verify b ∷ []) ≡ ok c) verified
            read_in))
        (wrap-eq-ok no_pack (get_pack c flags.name flags.version) h)

module _ (H : Host) (digest : Str → List ℕ) (fs : Fs) where
  run_pack_dump-loaded :
      (flags : Flags) (pack : Assets.Pack) (s : H.State)
      → find_pack digest fs flags ≡ ok pack
      → run_pack_dump H digest fs flags s ≡ dump_pack H flags pack s
  unfolding run_pack_dump
  run_pack_dump-loaded flags pack s loaded = ground (arith, loaded)

module _ (H : Host) (D : Disk H) (digest : Str → List ℕ) (fs : Fs) where
  -- A dump with verification that goes through leaves in the file of each resource of the pack what
  -- is read of the resource, which has the sum that the pack lists, and, where it is asked for, a
  -- kustomization that lists the names of the resources; every other file is as it was. The
  -- resources and the kustomization have to be dumped to different files.
  pub run_pack_dump-IsDumped :
      (flags : Flags) {pack : Assets.Pack} (s : H.State)
      → flags.skip_verify ≡ false
      → find_pack digest fs flags ≡ ok pack
      → AreApart H D flags.path pack.resources
      → All (λ r. join flags.path r.path ≢ kustomization_path H D digest flags pack) pack.resources
      → (run_pack_dump H digest fs flags s).0 ≡ none
      → IsDumped H D digest flags pack s (run_pack_dump H digest fs flags s).1
  run_pack_dump-IsDumped flags {pack} s verified loaded apart own passed =
      let e = run_pack_dump-loaded H digest fs flags pack s loaded in
      subst (λ r. IsDumped H D digest flags pack s r.1) (sym e)
        (dump_pack-IsDumped H D digest flags pack apart own s (rw e at passed)
          (find_pack-IsComplete digest fs flags verified loaded))
