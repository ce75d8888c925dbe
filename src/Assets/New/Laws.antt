-- ===== src/Assets/New/Laws.antt =====
-- What `New` reads, and what its collection holds.
use mathlib.Core.Path.{subst}
use mathlib.Core.Option.{some-injective}
use gardener_extension_shoot.Base.{
  ◌≡◌, refl, ap, sym, ◌∙◌, ◌≢◌, ◌⊎◌, true, false, Option, none, some, List, [], ◌∷◌, ◌++◌, ok,
  arith, Str, codes, All, inl, inr,
}
use gardener_extension_shoot.Base.Dict.{Dict}
use gardener_extension_shoot.Go.Strings.{trim_space}
use gardener_extension_shoot.Go.Path.{base, dir, join, join_slash}
use gardener_extension_shoot.Go.Path.Laws.{
  IsPlain, base-path, dir-path, base-path_of_two, join-join_slash,
}
use gardener_extension_shoot.Assets.{Fs, Resource, Pack}
use gardener_extension_shoot.Assets.Sums.{sums_from_reader}
use gardener_extension_shoot.Assets.New.Resources.{AreResourcesOf, make_resources-AreResourcesOf}
use gardener_extension_shoot.Assets.New.{
  meta_file_desc, meta_file_sums, make_resources, make_pack, read_pack, load_pack,
}

-- The directory of a pack.
abbrev pub pack_path : Str → Str → Str
pack_path name version = join_slash (codes "packs" ∷ name ∷ version ∷ [])

module _ (fs : Fs) (name version : Str) where
  -- The pack is what the directory of the name and version holds: the path is that of a directory,
  -- and the pack has its description without the space around it, and a resource for each YAML
  -- file, with the sum that is listed for its path.
  pub record IsPackOf (p : Pack) : Type 0 where
    pub is_directory : fs.open_file (pack_path name version) ≡ ok (ok true)
    pub name_read : p.name ≡ name
    pub version_read : p.version ≡ version
    pub base_dir_read : p.base_dir ≡ pack_path name version
    pub file_system_kept : p.file_system ≡ fs
    pub desc : Str
    pub desc_read :
        fs.read_file (join_slash (codes "packs" ∷ name ∷ version ∷ codes "DESC" ∷ [])) ≡ ok desc
    pub description_read : p.description ≡ trim_space desc
    pub sums_content : Str
    pub sums_read :
        fs.read_file (join_slash (codes "packs" ∷ name ∷ version ∷ codes "SUMS" ∷ []))
        ≡ ok sums_content
    pub sums : Dict Str
    pub sums_parsed : sums_from_reader (record { content = sums_content; failure = none }) ≡ ok sums
    pub paths : List Str
    pub paths_listed : fs.glob (pack_path name version ++ codes "/*.yaml") ≡ ok paths
    pub resources_made : AreResourcesOf fs sums paths p.resources
    pub some_resource : p.resources ≢ []

make_pack-eq-some :
    (fs : Fs) (pack_dir desc : Str) (rs : List Resource) {p : Pack}
    → make_pack fs pack_dir desc rs ≡ some p
    → (p.name ≡ base (dir pack_dir))
      × (p.version ≡ base pack_dir)
      × (p.description ≡ trim_space desc)
      × (p.base_dir ≡ pack_dir)
      × (p.file_system ≡ fs)
      × (p.resources ≡ rs)
      × (rs ≢ [])
make_pack-eq-some fs pack_dir desc [] h = absurd (cc)
make_pack-eq-some fs pack_dir desc (r ∷ rs) {p} h =
    let e : some p ≡ make_pack fs pack_dir desc (r ∷ rs) = sym h in
    (
      some_field (λ q. q.name) e,
      some_field (λ q. q.version) e,
      some_field (λ q. q.description) e,
      some_field (λ q. q.base_dir) e,
      some_field (λ q. q.file_system) e,
      some_field (λ q. q.resources) e,
      λ k. cc,
    )
  where
    some_field : {B : Type 0} {q : Pack} (f : Pack → B) → some p ≡ some q → f p ≡ f q
    some_field f k = ap f (some-injective _ _ k)

read_pack-eq-ok :
    (fs : Fs) (pack_dir : Str) {found : Option Pack}
    → read_pack fs pack_dir ≡ ok found
    → (desc : Str) × (content : Str) × (sums : Dict Str) × (paths : List Str) × (fs.read_file
          (join pack_dir meta_file_desc)
        ≡ ok desc)
      × (fs.read_file (join pack_dir meta_file_sums) ≡ ok content)
      × (sums_from_reader (record { content = content; failure = none }) ≡ ok sums)
      × (fs.glob (pack_dir ++ codes "/*.yaml") ≡ ok paths)
      × (make_pack fs pack_dir desc (make_resources fs sums paths) ≡ found)
unfolding read_pack
read_pack-eq-ok fs pack_dir h = ground arith

load_pack-eq-some :
    (fs : Fs) (pack_dir : Str) {p : Pack}
    → load_pack fs pack_dir ≡ ok (some p)
    → (fs.open_file pack_dir ≡ ok (ok true)) × (read_pack fs pack_dir ≡ ok (some p))
unfolding load_pack
load_pack-eq-some fs pack_dir h = ground arith

packs-IsPlain : IsPlain (codes "packs")
packs-IsPlain = ground arith

desc-IsPlain : IsPlain meta_file_desc
desc-IsPlain = ground arith

sums-IsPlain : IsPlain meta_file_sums
sums-IsPlain = ground arith

module _ (fs : Fs) (name version : Str) (pn : IsPlain name) (pv : IsPlain version) where
  abbrev pack_dir : Str
  pack_dir = pack_path name version

  base-dir : base (dir pack_dir) ≡ name
  base-dir =
      ap base (dir-path (codes "packs") name version packs-IsPlain pn pv)
      ∙ base-path_of_two (codes "packs") name packs-IsPlain pn

  meta_path :
      (file : Str)
      → IsPlain file
      → join pack_dir file ≡ join_slash (codes "packs" ∷ name ∷ version ∷ file ∷ [])
  meta_path file pf =
      join-join_slash (codes "packs") (name ∷ version ∷ []) file packs-IsPlain (pn, (pv, tt)) pf

  -- A pack that is loaded from the directory `packs/<name>/<version>` is what that directory holds.
  pub load_pack-IsPackOf :
      {p : Pack} → load_pack fs pack_dir ≡ ok (some p) → IsPackOf fs name version p
  load_pack-IsPackOf {p} h =
      let (is_dir, was_read) = load_pack-eq-some fs pack_dir h in
      let (desc, content, sums, paths, desc_ok, sums_ok, parsed, listed, made) =
        read_pack-eq-ok fs pack_dir was_read in
      let (n, v, d, b, f, r, ne) = make_pack-eq-some fs pack_dir desc _ made in
      record {
        is_directory = is_dir;
        name_read = n ∙ base-dir;
        version_read = v ∙ base-path (codes "packs") name version packs-IsPlain pn pv;
        base_dir_read = b;
        file_system_kept = f;
        desc = desc;
        desc_read = rw (← meta_path meta_file_desc desc-IsPlain) desc_ok;
        description_read = d;
        sums_content = content;
        sums_read = rw (← meta_path meta_file_sums sums-IsPlain) sums_ok;
        sums = sums;
        sums_parsed = parsed;
        paths = paths;
        paths_listed = listed;
        resources_made =
            subst (AreResourcesOf fs sums paths) (sym r)
              (make_resources-AreResourcesOf fs sums paths);
        some_resource = λ e. ne (sym r ∙ e);
      }

-- The names of entries of the directory tree that the pattern `packs/*/*` lists.
abbrev pub pack_paths : List (Str × Str) → List Str
pack_paths [] = []
pack_paths ((name, version) ∷ entries) = pack_path name version ∷ pack_paths entries

abbrev pub ArePlain : List (Str × Str) → Type 0
ArePlain = All (λ (name, version). IsPlain name × IsPlain version)

-- The entry is no directory, or has no YAML files.
abbrev pub IsSkipped : Fs → Str → Str → Type 0
IsSkipped fs name version =
    (fs.open_file (pack_path name version) ≡ ok (ok false))
    ⊎ (fs.glob (pack_path name version ++ codes "/*.yaml") ≡ ok [])

make_pack-eq-none :
    (fs : Fs) (pack_dir desc : Str) (sums : Dict Str) (paths : List Str)
    → make_pack fs pack_dir desc (make_resources fs sums paths) ≡ none
    → paths ≡ []
unfolding make_resources
make_pack-eq-none fs pack_dir desc sums [] h = refl
make_pack-eq-none fs pack_dir desc sums (path ∷ paths) h = cc

load_pack-eq-none :
    (fs : Fs) (pack_dir : Str)
    → load_pack fs pack_dir ≡ ok none
    → (fs.open_file pack_dir ≡ ok (ok false)) ⊎ (read_pack fs pack_dir ≡ ok none)
unfolding load_pack
load_pack-eq-none fs pack_dir h = ground arith

pub load_pack-IsSkipped :
    (fs : Fs) (name version : Str)
    → load_pack fs (pack_path name version) ≡ ok none
    → IsSkipped fs name version
load_pack-IsSkipped fs name version h = elim (load_pack-eq-none fs _ h) [
  | inl no_dir ↦ inl no_dir
  | inr empty ↦
      let (desc, _, sums, paths, _, _, _, listed, made) =
        read_pack-eq-ok fs (pack_path name version) empty in
      inr (listed ∙ ap ok (make_pack-eq-none fs _ desc sums paths made))
]

-- The packs are those of the entries that are not skipped, in the order of the entries.
pub data AreFrom (fs : Fs) : List (Str × Str) → List Pack → Type 0 where
  done : AreFrom fs [] []
  skip :
      {name version : Str} {entries : List (Str × Str)} {packs : List Pack}
      → IsSkipped fs name version
      → AreFrom fs entries packs
      → AreFrom fs ((name, version) ∷ entries) packs
  take :
      {name version : Str} {p : Pack} {entries : List (Str × Str)} {packs : List Pack}
      → IsPackOf fs name version p
      → AreFrom fs entries packs
      → AreFrom fs ((name, version) ∷ entries) (p ∷ packs)
