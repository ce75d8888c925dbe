-- ===== src/Assets/New/Whole.antt =====
-- `New` as a whole: which packs it returns, and that they are verified.
use mathlib.Core.Path.{subst}
use gardener_extension_shoot.Base.{
  ◌≡◌, ap, sym, ◌∙◌, ◌⊎◌, Bool, true, false, Option, none, some, List, [], ◌∷◌, ok, ok-injective,
  >>=-eq-ok, arith, ℕ, Str, codes, All,
}
use gardener_extension_shoot.Go.Path.Laws.{IsPlain}
use gardener_extension_shoot.Assets.{Fs, Pack, Collection, verify}
use gardener_extension_shoot.Assets.Verify.{IsComplete, verify_iff}
use gardener_extension_shoot.Assets.New.{
  load_pack, load_packs, apply_options, check, with_pack, with_skip_verify, new_collection,
}
use gardener_extension_shoot.Assets.New.Laws.{
  pack_path, pack_paths, ArePlain, AreFrom, done, skip, take, load_pack-IsPackOf,
  load_pack-IsSkipped,
}

load_packs-nil : (fs : Fs) {packs : List Pack} → load_packs fs [] ≡ ok packs → [] ≡ packs
unfolding load_packs
load_packs-nil fs h = ok-injective h

load_packs-eq-ok :
    (fs : Fs) (pack_dir : Str) (pack_dirs : List Str) {packs : List Pack}
    → load_packs fs (pack_dir ∷ pack_dirs) ≡ ok packs
    → (found : Option Pack) × (rest : List Pack) × (load_pack fs pack_dir ≡ ok found)
      × (load_packs fs pack_dirs ≡ ok rest)
      × (with_pack found rest ≡ packs)
unfolding load_packs
load_packs-eq-ok fs pack_dir pack_dirs h =
    let (found, here, h') = >>=-eq-ok (load_pack fs pack_dir) _ h in
    let (rest, later, e) = >>=-eq-ok (load_packs fs pack_dirs) _ h' in
    (found, rest, here, later, ok-injective e)

AreFrom-with_pack :
    (fs : Fs) (name version : Str) (found : Option Pack) {entries : List (Str × Str)}
    {packs : List Pack}
    → IsPlain name
    → IsPlain version
    → load_pack fs (pack_path name version) ≡ ok found
    → AreFrom fs entries packs
    → AreFrom fs ((name, version) ∷ entries) (with_pack found packs)
AreFrom-with_pack fs name version none pn pv h from =
    skip (load_pack-IsSkipped fs name version h) from
AreFrom-with_pack fs name version (some p) pn pv h from =
    take (load_pack-IsPackOf fs name version pn pv h) from

load_packs-AreFrom :
    (fs : Fs) (entries : List (Str × Str)) {packs : List Pack}
    → ArePlain entries
    → load_packs fs (pack_paths entries) ≡ ok packs
    → AreFrom fs entries packs
load_packs-AreFrom fs [] plain h = subst (AreFrom fs []) (load_packs-nil fs h) done
load_packs-AreFrom fs ((name, version) ∷ entries) ((pn, pv), plain) h =
    let (found, rest, here, later, e) =
      load_packs-eq-ok fs (pack_path name version) (pack_paths entries) h in
    subst (AreFrom fs ((name, version) ∷ entries)) e (
      AreFrom-with_pack fs name version found pn pv here
        (load_packs-AreFrom fs entries plain later))

-- A step of the run of `New` on a file system.
new_collection-eq-ok :
    (digest : Str → List ℕ) (fs : Fs) (opts : List (Collection → Collection)) {c : Collection}
    → new_collection digest (some fs) opts ≡ ok c
    → (dirs : List Str) × (packs : List Pack) × (fs.glob (codes "packs/*/*") ≡ ok dirs)
      × (load_packs fs dirs ≡ ok packs)
      × (check digest
            (apply_options opts (record { packs = packs; file_system = fs; skip_verify = false }))
          ≡ ok c)
unfolding new_collection
new_collection-eq-ok digest fs opts h = ground arith

check-eq-ok :
    (digest : Str → List ℕ) (c : Collection) {c' : Collection}
    → check digest c ≡ ok c'
    → (c ≡ c') × ((c.skip_verify ≡ true) ⊎ (verify digest c ≡ none))
unfolding check
check-eq-ok digest c h = ground arith

module _ (digest : Str → List ℕ) (fs : Fs) where
  -- Unless its options skip the verification, a collection that `New` returns holds complete packs
  -- alone: each has a name, a version, a description and resources that match their sums.
  pub new_collection-IsComplete :
      (opts : List (Collection → Collection)) {c : Collection}
      → new_collection digest (some fs) opts ≡ ok c
      → c.skip_verify ≡ false
      → All (IsComplete digest) c.packs
  new_collection-IsComplete opts {c} h verified =
      let (dirs, packs, listed, loaded, checked) = new_collection-eq-ok digest fs opts h in
      let c0 =
        apply_options opts (record { packs = packs; file_system = fs; skip_verify = false }) in
      let (same, passed) = check-eq-ok digest c0 checked in
      (verify_iff digest c).0 (ground (arith, same))

  -- Let the file system list the entries `packs/<name>/<version>` under `packs/*/*`. The packs that
  -- `New` then returns are, in the order of these, one of each entry that is no skipped one: that
  -- entry is a directory, and the pack has its name and version, its description without the space
  -- around it, and a resource of each YAML file that is listed in it, with the sum that SUMS has for
  -- that path, or none. A skipped entry is not a directory or has no YAML files.
  pub new_collection-AreFrom :
      (skip_it : Bool) (entries : List (Str × Str)) {c : Collection}
      → fs.glob (codes "packs/*/*") ≡ ok (pack_paths entries)
      → ArePlain entries
      → new_collection digest (some fs) (with_skip_verify skip_it ∷ []) ≡ ok c
      → AreFrom fs entries c.packs × (c.skip_verify ≡ skip_it)
  unfolding apply_options with_skip_verify
  new_collection-AreFrom skip_it entries {c} listed plain h =
      let (dirs, packs, listed', loaded, checked) = new_collection-eq-ok digest fs _ h in
      let (same, _) = check-eq-ok digest _ checked in
      let from =
        load_packs-AreFrom fs entries plain (rw (ok-injective (sym listed ∙ listed')) loaded) in
      (subst (λ d. AreFrom fs entries d.packs) same from, sym (ap (λ d. d.skip_verify) same))

  new_collection-skip_verify :
      {c : Collection}
      → new_collection digest (some fs) (with_skip_verify false ∷ []) ≡ ok c
      → c.skip_verify ≡ false
  unfolding apply_options with_skip_verify
  new_collection-skip_verify h =
      let (dirs, packs, _, _, checked) = new_collection-eq-ok digest fs _ h in
      let (same, _) = check-eq-ok digest _ checked in sym (ap (λ d. d.skip_verify) same)

  -- The collection that is read where none is given: it is verified.
  pub default_collection-IsComplete :
      {c : Collection}
      → new_collection digest (some fs) (with_skip_verify false ∷ []) ≡ ok c
      → All (IsComplete digest) c.packs
  default_collection-IsComplete h =
      new_collection-IsComplete (with_skip_verify false ∷ []) h (new_collection-skip_verify h)
