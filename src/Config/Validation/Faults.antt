-- ===== src/Config/Validation/Faults.antt =====
-- What the errors of `validate` point to.
use mathlib.Core.Path.{subst}
use gardener_extension_shoot.Base.{
  ℕ, zero, suc, ◌<◌, ◌≡◌, refl, ap, ◌∙◌, Bool, true, false, Option, none, some, List, [], ◌∷◌, ◌++◌,
  append_assoc, arith, Str, ◌==◌, length, get_elem?, All,
}
use gardener_extension_shoot.Config.{PatchSpec, Pack, PackConfig}
use gardener_extension_shoot.Config.Validation.{
  FieldError, SeenPack, append_if, seen_at, append_seen, to_aggregate, check_some, check_patches,
  check_pack, check_packs, validate, no_packs, empty_name, empty_version, already_defined,
  empty_resource_ref,
}

module _ {S : Type 0} (packs : List (Pack S)) where
  -- The pack at that index.
  abbrev pub IsPackAt : ℕ → Pack S → Type 0
  IsPackAt i p = get_elem? packs i ≡ some p

  -- The error names a fault of the configuration.
  abbrev pub IsFault : FieldError → Type 0
  IsFault no_packs = packs ≡ []
  IsFault (empty_name i) = (p : Pack S) × IsPackAt i p × (p.name ≡ [])
  IsFault (empty_version i) = (p : Pack S) × IsPackAt i p × (p.version ≡ [])
  IsFault (already_defined i j) =
      (p : Pack S) × (q : Pack S) × IsPackAt i p × IsPackAt j q × (q.name ≡ p.name) × (j < i)
  IsFault (empty_resource_ref i k) =
      (p : Pack S) × (patch : PatchSpec S) × IsPackAt i p
      × (get_elem? p.patches k ≡ some patch)
      × (patch.resource_ref ≡ [])

  -- Where in a list of packs, or of patches, the error points to.
  abbrev pub IsInRange : FieldError → Type 0
  IsInRange no_packs = Unit
  IsInRange (empty_name i) = i < length packs
  IsInRange (empty_version i) = i < length packs
  IsInRange (already_defined i j) = (i < length packs) × (j < i)
  IsInRange (empty_resource_ref i k) = i < length packs

module _ {A : Type 0} where
  get_elem?_lt : (xs : List A) (i : ℕ) {a : A} → get_elem? xs i ≡ some a → i < length xs
  get_elem?_lt [] i h = cc
  get_elem?_lt (x ∷ xs) zero h = omega arith
  get_elem?_lt (x ∷ xs) (suc i) h = let rest = get_elem?_lt xs i h in omega (arith, rest)

  get_elem?-length :
      (xs : List A) (x : A) (ys : List A) → get_elem? (xs ++ (x ∷ ys)) (length xs) ≡ some x
  get_elem?-length [] x ys = refl
  get_elem?-length (z ∷ xs) x ys = get_elem?-length xs x ys

  get_elem?-append :
      (xs ys : List A) (i : ℕ) {a : A} → get_elem? xs i ≡ some a → get_elem? (xs ++ ys) i ≡ some a
  get_elem?-append [] ys i h = cc
  get_elem?-append (x ∷ xs) ys zero h = h
  get_elem?-append (x ∷ xs) ys (suc i) h = get_elem?-append xs ys i h

  length-append_one : (xs : List A) (x : A) → length (xs ++ (x ∷ [])) ≡ suc (length xs)
  length-append_one [] x = refl
  length-append_one (y ∷ xs) x = ap suc (length-append_one xs x)

All-append_one :
    {A : Type 0} (P : A → Type 0) (xs : List A) (x : A) → All P xs → P x → All P (xs ++ (x ∷ []))
All-append_one P [] x h k = (k, tt)
All-append_one P (y ∷ xs) x (here, h) k = (here, All-append_one P xs x h k)

All-append_if :
    (P : FieldError → Type 0) (b : Bool) (e : FieldError) (errs : List FieldError)
    → All P errs
    → (b ≡ true → P e)
    → All P (append_if b e errs)
All-append_if P true e errs h k = All-append_one P errs e h (k refl)
All-append_if P false e errs h k = h

to_aggregate-eq-some :
    (errs : List FieldError) {errs' : List FieldError}
    → to_aggregate errs ≡ some errs'
    → errs ≡ errs'
to_aggregate-eq-some [] h = cc
to_aggregate-eq-some (e ∷ errs) h = cc

module _ {S : Type 0} where
  -- What was seen are the packs before, by their names.
  AreSeen : List SeenPack → List (Pack S) → Type 0
  AreSeen [] [] = Unit
  AreSeen (s ∷ seen) (p ∷ before) = (s.name ≡ p.name) × AreSeen seen before
  AreSeen _ _ = ⊥

  AreSeen-append :
      (seen : List SeenPack) (before : List (Pack S)) (s : SeenPack) (p : Pack S)
      → AreSeen seen before
      → s.name ≡ p.name
      → AreSeen (seen ++ (s ∷ [])) (before ++ (p ∷ []))
  unfolding AreSeen
  AreSeen-append [] [] s p h e = (e, tt)
  AreSeen-append (t ∷ seen) (q ∷ before) s p (here, h) e =
      (here, AreSeen-append seen before s p h e)
  AreSeen-append [] (q ∷ before) s p h e = absurd h
  AreSeen-append (t ∷ seen) [] s p h e = absurd h

  seen_at-AreSeen :
      (name : Str) (seen : List SeenPack) (before : List (Pack S)) (j : ℕ)
      → AreSeen seen before
      → seen_at name seen ≡ some j
      → (q : Pack S) × (get_elem? before j ≡ some q) × (q.name ≡ name)
  unfolding AreSeen
  seen_at-AreSeen name [] before j h at = cc
  seen_at-AreSeen name (t ∷ seen) [] j h at = absurd h
  seen_at-AreSeen name (t ∷ seen) (q ∷ before) zero (here, h) at = (q, refl, ground arith)
  seen_at-AreSeen name (t ∷ seen) (q ∷ before) (suc j) (here, h) at =
      seen_at-AreSeen name seen before j h (ground arith)

  module _ (P : FieldError → Type 0) where
    check_patches_faults :
        (idx : ℕ) (before patches : List (PatchSpec S)) (errs : List FieldError)
        → ((k : ℕ) (patch : PatchSpec S)
            → get_elem? (before ++ patches) k ≡ some patch
            → patch.resource_ref ≡ []
            → P (empty_resource_ref idx k))
        → All P errs
        → All P (check_patches idx (length before) patches errs)
    unfolding check_patches
    check_patches_faults idx before [] errs h errs_ok = errs_ok
    check_patches_faults idx before (patch ∷ patches) errs h errs_ok =
        let e = empty_resource_ref idx (length before) in
        let errs' = append_if (patch.resource_ref == []) e errs in
        let errs'_ok : All P errs' =
          All-append_if P (patch.resource_ref == []) e errs errs_ok λ empty.
            h (length before) patch (get_elem?-length before patch patches) (ground arith) in
        let rest =
          check_patches_faults idx (before ++ (patch ∷ [])) patches errs'
            (λ k q found. h k q (rw (append_assoc before (patch ∷ []) patches) at found))
            errs'_ok in
        subst (λ n. All P (check_patches idx n patches errs')) (length-append_one before patch) rest

  module _ (packs : List (Pack S)) where
    -- An error points to a fault, and into the configuration.
    abbrev pub IsJust : FieldError → Type 0
    IsJust e = IsFault packs e × IsInRange packs e

    All-append_seen :
        (idx : ℕ) (o : Option ℕ) (errs : List FieldError)
        → All IsJust errs
        → ((j : ℕ) → o ≡ some j → IsJust (already_defined idx j))
        → All IsJust (append_seen idx o errs)
    All-append_seen idx none errs h k = h
    All-append_seen idx (some j) errs h k = All-append_one IsJust errs _ h (k j refl)

    check_pack_faults :
        (before : List (Pack S)) (pack : Pack S) (seen : List SeenPack) (errs : List FieldError)
        → IsPackAt packs (length before) pack
        → ((j : ℕ) (q : Pack S) → get_elem? before j ≡ some q → IsPackAt packs j q)
        → AreSeen seen before
        → All IsJust errs
        → All IsJust (check_pack (length before) pack seen errs)
    unfolding check_pack
    check_pack_faults before pack seen errs here earlier are_seen errs_ok =
        let i = length before in
        let in_range = get_elem?_lt packs i here in
        let named = append_if (pack.name == []) (empty_name i) errs in
        let named_ok : All IsJust named =
          All-append_if IsJust (pack.name == []) (empty_name i) errs errs_ok
            (λ empty. ((pack, here, ground arith), in_range)) in
        let versioned_ok =
          All-append_if IsJust (pack.version == []) (empty_version i) named named_ok
            (λ empty. ((pack, here, ground arith), in_range)) in
        All-append_seen i (seen_at pack.name seen) _ versioned_ok λ j found.
          let (q, there, same) = seen_at-AreSeen pack.name seen before j are_seen found in
          let lt = get_elem?_lt before j there in
          ((pack, q, here, earlier j q there, same, lt), (in_range, lt))

    check_packs_faults :
        (before later : List (Pack S)) (seen : List SeenPack) (errs : List FieldError)
        → before ++ later ≡ packs
        → AreSeen seen before
        → All IsJust errs
        → All IsJust (check_packs (length before) later seen errs)
    unfolding check_packs
    check_packs_faults before [] seen errs whole are_seen errs_ok = errs_ok
    check_packs_faults before (pack ∷ later) seen errs whole are_seen errs_ok =
        let i = length before in
        let here : IsPackAt packs i pack =
          subst (λ ps. get_elem? ps i ≡ some pack) whole (get_elem?-length before pack later) in
        let earlier : (j : ℕ) (q : Pack S) → get_elem? before j ≡ some q → IsPackAt packs j q =
          λ j q there.
            subst (λ ps. get_elem? ps j ≡ some q) whole
              (get_elem?-append before (pack ∷ later) j there) in
        let s : SeenPack = record { name = pack.name; version = pack.version; idx = i } in
        let errs1 = check_pack i pack seen errs in
        let errs1_ok = check_pack_faults before pack seen errs here earlier are_seen errs_ok in
        let errs2 = check_patches i 0 pack.patches errs1 in
        let errs2_ok : All IsJust errs2 =
          check_patches_faults IsJust i [] pack.patches errs1
            (λ k patch found empty. ((pack, patch, here, found, empty), get_elem?_lt packs i here))
            errs1_ok in
        let rest =
          check_packs_faults (before ++ (pack ∷ [])) later (seen ++ (s ∷ [])) errs2
            (append_assoc before (pack ∷ []) later ∙ whole)
            (AreSeen-append seen before s pack are_seen refl) errs2_ok in
        subst (λ n. All IsJust (check_packs n later (seen ++ (s ∷ [])) errs2))
          (length-append_one before pack) rest

  check_some_faults : (packs : List (Pack S)) → All (IsJust packs) (check_some packs)
  check_some_faults [] = ((refl, tt), tt)
  check_some_faults (p ∷ packs) = tt

  -- Each error that `Validate` returns points to a fault of the configuration, and its indices into the
  -- configuration: an empty name, version or resource reference stands where the error says, and where a
  -- pack is said to be defined already, the pack of the other index, which is smaller, has its name.
  pub validate-IsJust :
      (cfg : PackConfig S) {errs : List FieldError}
      → validate cfg ≡ some errs
      → All (IsJust cfg.spec.packs) errs
  unfolding validate AreSeen
  validate-IsJust cfg h =
      let packs = cfg.spec.packs in
      subst (All (IsJust packs))
        (to_aggregate-eq-some (check_packs 0 packs [] (check_some packs)) h)
        (check_packs_faults packs [] packs [] (check_some packs) refl tt (check_some_faults packs))
