-- ===== src/Assets/New.antt =====
-- `New` and its options, of pkg/assets/assets.go.
pub mod Resources
pub mod Laws
pub mod Whole
use gardener_extension_shoot.Base.{
  Bool, true, false, Option, none, some, List, [], ◌∷◌, ◌++◌, Result, ok, err, ◌>>=◌, wrap, fail_if,
  if◌then◌else◌, Str, codes, ℕ,
}
use gardener_extension_shoot.Base.Dict.{Dict, lookup}
use gardener_extension_shoot.Go.Strings.{trim_space}
use gardener_extension_shoot.Go.Path.{base, dir, join}
use gardener_extension_shoot.Assets.{Fs, Resource, Pack, Collection, VerifyError, verify}
use gardener_extension_shoot.Assets.Sums.{SumsError, sums_from_reader}

pub data NewError : Type 0 where
  invalid_filesystem : NewError
  bad_glob : Str → NewError
  pack_dir_unreadable stat_failed : Str → Str → NewError
  description_unreadable sums_unreadable no_resource_list : Str → Str → Str → NewError
  bad_sums : Str → Str → SumsError → NewError
  unverified : List (List VerifyError) → NewError

abbrev pub meta_file_desc : Str
meta_file_desc = codes "DESC"

abbrev pub meta_file_sums : Str
meta_file_sums = codes "SUMS"

-- `sums[path]`, which is empty where the map has no such key.
abbrev pub sum_of : Dict Str → Str → Str
sum_of sums path = elim (lookup path sums) [ none ↦ [] | some sum ↦ sum ]

-- The loop over the resource paths.
unfoldable pub make_resources : Fs → Dict Str → List Str → List Resource
make_resources fs sums [] = []
make_resources fs sums (path ∷ paths) =
    record { path = path; sha256 = sum_of sums path; file_system = fs }
    ∷ make_resources fs sums paths

-- A pack directory with no resources is skipped.
abbrev pub make_pack : Fs → Str → Str → List Resource → Option Pack
make_pack fs pack_dir desc [] = none
make_pack fs pack_dir desc (r ∷ rs) = some (record {
  name = base (dir pack_dir);
  version = base pack_dir;
  description = trim_space desc;
  resources = r ∷ rs;
  base_dir = pack_dir;
  file_system = fs;
})

-- The body of the loop from the reading of the description on.
unfoldable pub read_pack : Fs → Str → Result NewError (Option Pack)
read_pack fs pack_dir =
    let name = base (dir pack_dir) in
    let version = base pack_dir in
    do
      desc ←
          wrap (description_unreadable name version) (fs.read_file (join pack_dir meta_file_desc))
      sums_data ← wrap (sums_unreadable name version) (fs.read_file (join pack_dir meta_file_sums))
      sums ←
          wrap (bad_sums name version)
            (sums_from_reader (record { content = sums_data; failure = none }))
      paths ← wrap (no_resource_list name version) (fs.glob (pack_dir ++ codes "/*.yaml"))
      ok (make_pack fs pack_dir desc (make_resources fs sums paths))

-- The body of the loop over the directories, with `none` for `continue`.
unfoldable pub load_pack : Fs → Str → Result NewError (Option Pack)
load_pack fs pack_dir = do
  stat ← wrap (pack_dir_unreadable pack_dir) (fs.open_file pack_dir)
  is_dir ← wrap (stat_failed pack_dir) stat
  if is_dir then read_pack fs pack_dir else ok none

abbrev pub with_pack : Option Pack → List Pack → List Pack
with_pack none packs = packs
with_pack (some p) packs = p ∷ packs

-- The loop over the directories.
unfoldable pub load_packs : Fs → List Str → Result NewError (List Pack)
load_packs fs [] = ok []
load_packs fs (pack_dir ∷ pack_dirs) = do
  found ← load_pack fs pack_dir
  packs ← load_packs fs pack_dirs
  ok (with_pack found packs)

-- `WithSkipVerify`
unfoldable pub with_skip_verify : Bool → Collection → Collection
with_skip_verify val c = record c { skip_verify = val }

unfoldable pub apply_options : List (Collection → Collection) → Collection → Collection
apply_options [] c = c
apply_options (opt ∷ opts) c = apply_options opts (opt c)

module _ (digest : Str → List ℕ) where
  -- The verification at the end of `New`, unless it is skipped.
  unfoldable pub check : Collection → Result NewError Collection
  check c =
      if c.skip_verify
      then ok c
      else elim (verify digest c) [ none ↦ ok c | some errs ↦ err (unverified errs) ]

  -- `New`, whose file system may be nil.
  unfoldable pub new_collection :
      Option Fs → List (Collection → Collection) → Result NewError Collection
  new_collection none opts = err invalid_filesystem
  new_collection (some fs) opts = do
    dirs ← wrap bad_glob (fs.glob (codes "packs/*/*"))
    packs ← load_packs fs dirs
    check (apply_options opts (record { packs = packs; file_system = fs; skip_verify = false }))
