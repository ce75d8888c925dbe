-- ===== src/Assets.antt =====
-- pkg/assets/assets.go: packs, their verification, and the collection that is read from a file
-- system.
pub mod Sums
pub mod Verify
pub mod New
pub mod Lookup
pub mod Tests
use gardener_extension_shoot.Base.{
  Bool, true, false, ◌&&◌, Option, none, some, List, [], ◌∷◌, ◌++◌, Result, ok, err, if◌then◌else◌,
  find, contains_func, Str, codes, ◌==◌, ℕ,
}
use gardener_extension_shoot.Go.Strings.{equal_fold, hex}
use gardener_extension_shoot.Go.Path.{join}

-- `fs.FS` with the functions of `io/fs` that the code calls on it. The error is its text. `open_file`
-- gives the open file's `Stat`, which tells whether it is a directory.
pub record Fs : Type 0 where
  pub glob : Str → Result Str (List Str)
  pub open_file : Str → Result Str (Result Str Bool)
  pub read_file : Str → Result Str Str

pub record Resource : Type 0 where
  pub path : Str
  pub sha256 : Str
  pub file_system : Fs

pub record Pack : Type 0 where
  pub name : Str
  pub version : Str
  pub description : Str
  pub resources : List Resource
  pub base_dir : Str
  pub file_system : Fs

pub record Collection : Type 0 where
  pub packs : List Pack
  pub file_system : Fs
  pub skip_verify : Bool

pub data VerifyError : Type 0 where
  missing_pack_name : VerifyError
  missing_version : Str → VerifyError
  missing_description no_resources : Str → Str → VerifyError
  missing_checksum unreadable : Str → VerifyError
  checksum_mismatch : Str → Str → Str → VerifyError

-- `Resource.Read`
unfoldable pub read : Resource → Result Str Str
read r = r.file_system.read_file r.path

-- `Pack.ReadFile`
unfoldable pub read_file : Pack → Str → Result Str Str
read_file p path = p.file_system.read_file (join p.base_dir path)

-- `Pack.String`
unfoldable pub pack_string : Pack → Str
pack_string p = p.name ++ codes "@" ++ p.version

-- `utilerrors.NewAggregate`
abbrev pub new_aggregate : {E : Type 0} → List E → Option (List E)
new_aggregate [] = none
new_aggregate (e ∷ errs) = some (e ∷ errs)

-- `if b { allErrs = append(allErrs, e) }`
abbrev pub append_if : {E : Type 0} → Bool → E → List E → List E
append_if b e errs = if b then errs ++ (e ∷ []) else errs

-- `if err := …; err != nil { allErrs = append(allErrs, err) }`
abbrev pub append_error : {E : Type 0} → Option E → List E → List E
append_error none errs = errs
append_error (some e) errs = errs ++ (e ∷ [])

-- `len(p.Resources) == 0`
abbrev pub has_none : List Resource → Bool
has_none [] = true
has_none (_ ∷ _) = false

-- SHA-256, from a text to the bytes of its digest.
module _ (digest : Str → List ℕ) where
  abbrev compare_sum : Resource → Str → Option VerifyError
  compare_sum r data_read =
      let sum = hex (digest data_read) in
      if equal_fold r.sha256 sum then none else some (checksum_mismatch r.path r.sha256 sum)

  -- `Resource.Verify`
  unfoldable pub verify_resource : Resource → Option VerifyError
  verify_resource r =
      if r.sha256 == []
      then some (missing_checksum r.path)
      else elim (read r) [ ok content ↦ compare_sum r content | err e ↦ some (unreadable e) ]

  -- The loop over the resources of a pack.
  unfoldable pub verify_resources : List Resource → List VerifyError → List VerifyError
  verify_resources [] errs = errs
  verify_resources (r ∷ rs) errs = verify_resources rs (append_error (verify_resource r) errs)

  -- `Pack.Verify`
  unfoldable pub verify_pack : Pack → Option (List VerifyError)
  verify_pack p = new_aggregate (
      verify_resources p.resources (
        append_if (has_none p.resources) (no_resources p.name p.version) (
          append_if (p.description == []) (missing_description p.name p.version) (
            append_if (p.version == []) (missing_version p.name)
              (append_if (p.name == []) missing_pack_name [])))))

  -- The loop over the packs of a collection.
  unfoldable pub verify_packs : List Pack → List (List VerifyError) → List (List VerifyError)
  verify_packs [] errs = errs
  verify_packs (p ∷ ps) errs = verify_packs ps (append_error (verify_pack p) errs)

  -- `Collection.Verify`
  unfoldable pub verify : Collection → Option (List (List VerifyError))
  verify c = new_aggregate (verify_packs c.packs [])

-- The test of the loops in `PackExists` and `GetPack`.
abbrev pub is_pack : Str → Str → Pack → Bool
is_pack name version p = name == p.name && version == p.version

-- `Collection.PackExists`
unfoldable pub pack_exists : Collection → Str → Str → Bool
pack_exists c name version = contains_func (is_pack name version) c.packs

pub data NotFound : Type 0 where
  not_found : Str → Str → NotFound

-- `Collection.GetPack`
unfoldable pub get_pack : Collection → Str → Str → Result NotFound Pack
get_pack c name version = elim (find (is_pack name version) c.packs) [
  | some p ↦ ok p
  | none ↦ err (not_found name version)
]
