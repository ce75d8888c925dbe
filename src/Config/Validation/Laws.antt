-- ===== src/Config/Validation/Laws.antt =====
-- What `validate` accepts, and what its errors say.
use gardener_extension_shoot.Base.{
  ℕ, suc, ◌≡◌, refl, ◌≢◌, ◌↔◌, Bool, true, false, Option, none, some, List, [], ◌∷◌, ◌++◌, arith,
  Str, ◌==◌, All,
}
use gardener_extension_shoot.Config.{PatchSpec, Pack, PackConfig}
use gardener_extension_shoot.Config.Validation.{
  FieldError, SeenPack, append_if, seen_at, append_seen, to_aggregate, check_some, check_patches,
  check_pack, check_packs, validate, no_packs, empty_name, empty_version, empty_resource_ref,
}

append-ne-nil : (errs : List FieldError) (e : FieldError) → errs ++ (e ∷ []) ≢ []
append-ne-nil [] e h = cc
append-ne-nil (d ∷ errs) e h = cc

append_if-eq-nil :
    (b : Bool) (e : FieldError) (errs : List FieldError)
    → (append_if b e errs ≡ []) ↔ ((b ≡ false) × (errs ≡ []))
append_if-eq-nil true e errs = (λ h. absurd (append-ne-nil errs _ h), λ h. cc (h.0))
append_if-eq-nil false e errs = (λ h. (refl, h), λ h. h.1)

append_seen-eq-nil :
    (idx : ℕ) (o : Option ℕ) (errs : List FieldError)
    → (append_seen idx o errs ≡ []) ↔ ((o ≡ none) × (errs ≡ []))
append_seen-eq-nil idx none errs = (λ h. (refl, h), λ h. h.1)
append_seen-eq-nil idx (some i) errs = (λ h. absurd (append-ne-nil errs _ h), λ h. cc (h.0))

seen_at-append :
    (name : Str) (seen : List SeenPack) (s : SeenPack)
    → (seen_at name (seen ++ (s ∷ [])) ≡ none) ↔ ((seen_at name seen ≡ none) × (s.name ≢ name))
seen_at-append name [] s = ground arith
seen_at-append name (t ∷ seen) s = ground (arith, seen_at-append name seen s)

to_aggregate-eq-none : (errs : List FieldError) → (to_aggregate errs ≡ none) ↔ (errs ≡ [])
to_aggregate-eq-none [] = (λ h. refl, λ h. refl)
to_aggregate-eq-none (e ∷ errs) = (λ h. cc, λ h. cc)

module _ {S : Type 0} where
  abbrev pub PatchIsSet : PatchSpec S → Type 0
  PatchIsSet patch = patch.resource_ref ≢ []

  -- The pack has a name and a version, and each of its patches a resource.
  pub record PackIsSet (pack : Pack S) : Type 0 where
    pub name : pack.name ≢ []
    pub version : pack.version ≢ []
    pub patches : All PatchIsSet pack.patches

  -- No two packs have one name.
  abbrev pub NodupNames : List (Pack S) → Type 0
  NodupNames [] = Unit
  NodupNames (p ∷ packs) = All (λ q. p.name ≢ q.name) packs × NodupNames packs

  pub record IsValid (cfg : PackConfig S) : Type 0 where
    pub some_pack : cfg.spec.packs ≢ []
    pub packs_set : All PackIsSet cfg.spec.packs
    pub nodup : NodupNames cfg.spec.packs

  check_patches-eq-nil :
      (idx i : ℕ) (patches : List (PatchSpec S)) (errs : List FieldError)
      → (check_patches idx i patches errs ≡ []) ↔ (All PatchIsSet patches × (errs ≡ []))
  unfolding check_patches
  check_patches-eq-nil idx i [] errs = (λ h. (tt, h), λ h. h.1)
  check_patches-eq-nil idx i (patch ∷ patches) errs =
      let e = empty_resource_ref idx i in
      ground (
        arith,
        check_patches-eq-nil idx (suc i) patches (append_if (patch.resource_ref == []) e errs),
        append_if-eq-nil (patch.resource_ref == []) e errs,
      )

  check_pack-eq-nil :
      (idx : ℕ) (pack : Pack S) (seen : List SeenPack) (errs : List FieldError)
      → (check_pack idx pack seen errs ≡ [])
        ↔ ((seen_at pack.name seen ≡ none) × (pack.version ≢ []) × (pack.name ≢ []) × (errs ≡ []))
  unfolding check_pack
  check_pack-eq-nil idx pack seen errs =
      let named = append_if (pack.name == []) (empty_name idx) errs in
      let versioned = append_if (pack.version == []) (empty_version idx) named in
      ground (
        arith,
        append_seen-eq-nil idx (seen_at pack.name seen) versioned,
        append_if-eq-nil (pack.version == []) (empty_version idx) named,
        append_if-eq-nil (pack.name == []) (empty_name idx) errs,
      )

  abbrev Unseen : List SeenPack → List (Pack S) → Type 0
  Unseen seen = All (λ p. seen_at p.name seen ≡ none)

  Unseen-append :
      (seen : List SeenPack) (s : SeenPack) (packs : List (Pack S))
      → Unseen (seen ++ (s ∷ [])) packs ↔ (Unseen seen packs × All (λ p. s.name ≢ p.name) packs)
  Unseen-append seen s [] = (λ h. (tt, tt), λ h. tt)
  Unseen-append seen s (p ∷ packs) =
      let at_p = seen_at-append p.name seen s in
      let later = Unseen-append seen s packs in
      (
        λ h. let (a, b) = at_p.0 h.0 in let (c, d) = later.0 h.1 in ((a, c), (b, d)),
        λ h. (at_p.1 (h.0.0, h.1.0), later.1 (h.0.1, h.1.1)),
      )

  Unseen-nil : (packs : List (Pack S)) → Unseen [] packs
  Unseen-nil [] = tt
  Unseen-nil (p ∷ packs) = (refl, Unseen-nil packs)

  check_packs_sound :
      (idx : ℕ) (packs : List (Pack S)) (seen : List SeenPack) (errs : List FieldError)
      → check_packs idx packs seen errs ≡ []
      → (errs ≡ []) × All PackIsSet packs × NodupNames packs × Unseen seen packs
  unfolding check_packs
  check_packs_sound idx [] seen errs h = (h, tt, tt, tt)
  check_packs_sound idx (pack ∷ packs) seen errs h =
      let s : SeenPack = record { name = pack.name; version = pack.version; idx = idx } in
      let (clean, set, nodup, unseen) = check_packs_sound (suc idx) packs (seen ++ (s ∷ [])) _ h in
      let (refs, before) = (check_patches-eq-nil idx 0 pack.patches _).0 clean in
      let (new, version, name, none_yet) = (check_pack-eq-nil idx pack seen errs).0 before in
      let (old, differ) = (Unseen-append seen s packs).0 unseen in
      (
        none_yet,
        (record { name = name; version = version; patches = refs }, set),
        (differ, nodup),
        (new, old),
      )

  check_packs_complete :
      (idx : ℕ) (packs : List (Pack S)) (seen : List SeenPack)
      → All PackIsSet packs
      → NodupNames packs
      → Unseen seen packs
      → check_packs idx packs seen [] ≡ []
  unfolding check_packs
  check_packs_complete idx [] seen set nodup unseen = refl
  check_packs_complete idx (pack ∷ packs) seen (is_set, set) (differ, nodup) (new, old) =
      let s : SeenPack = record { name = pack.name; version = pack.version; idx = idx } in
      let before =
        (check_pack-eq-nil idx pack seen []).1 (new, is_set.version, is_set.name, refl) in
      let clean = (check_patches-eq-nil idx 0 pack.patches _).1 (is_set.patches, before) in
      rw clean (
        check_packs_complete (suc idx) packs (seen ++ (s ∷ [])) set nodup
          ((Unseen-append seen s packs).1 (old, differ)))

  check_some-ne-nil :
      (packs : List (Pack S)) → check_packs 0 packs [] (check_some packs) ≡ [] → packs ≢ []
  check_some-ne-nil [] h = absurd (cc ((check_packs_sound 0 [] [] (no_packs ∷ []) h).0))
  check_some-ne-nil (p ∷ packs) h = cc

  check_some-eq-nil : (packs : List (Pack S)) → packs ≢ [] → check_some packs ≡ []
  check_some-eq-nil [] h = absurd (h refl)
  check_some-eq-nil (p ∷ packs) h = refl

  -- `Validate` returns nil exactly for the configurations that have a pack, whose packs all have a
  -- name and a version and patches that all name a resource, and in which no name stands twice.
  pub validate-iff-IsValid : (cfg : PackConfig S) → (validate cfg ≡ none) ↔ IsValid cfg
  unfolding validate
  validate-iff-IsValid cfg =
      let packs = cfg.spec.packs in
      let accepted = to_aggregate-eq-none (check_packs 0 packs [] (check_some packs)) in
      (
        λ h.
            let (_, set, nodup, _) = check_packs_sound 0 packs [] _ (accepted.0 h) in
            record {
              some_pack = check_some-ne-nil packs (accepted.0 h);
              packs_set = set;
              nodup = nodup;
            },
        λ v. accepted.1 (
            rw (check_some-eq-nil packs v.some_pack)
              (check_packs_complete 0 packs [] v.packs_set v.nodup (Unseen-nil packs))),
      )
