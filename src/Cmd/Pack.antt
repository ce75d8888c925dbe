-- ===== src/Cmd/Pack.antt =====
-- cmd/extension/pack: the commands that list, print and dump the packs. The disk and the standard
-- output, the tables and the printers of JSON and YAML are those of other packages, so they are the
-- record `Host`.
pub mod Disk
pub mod Dump
pub mod Formats
pub mod Init
pub mod Table
mod Tests
use gardener_extension_shoot.Base.{
  ℕ, Bool, true, false, Option, none, some, List, [], ◌∷◌, ◌++◌, Result, ok, err, ◌>>=◌, wrap,
  length, if◌then◌else◌, not, contains_func, Str, codes, ◌==◌,
}
use gardener_extension_shoot.Go.Strings.{itoa}
use gardener_extension_shoot.Go.Path.{base, join, join_all}
use gardener_extension_shoot.Assets.{
  Fs, Resource, Collection, NotFound, read, read_file, get_pack, pack_string,
}
use gardener_extension_shoot.Assets
use gardener_extension_shoot.Assets.New.{NewError, new_collection, with_skip_verify, meta_file_sums}

-- The fields that the code sets of the `types.Kustomization` of a dump.
pub record Kustomization : Type 0 where
  pub resources : List Str
  pub build_metadata : List Str

pub record Host : Type 1 where
  -- The disk and what was written to the standard output.
  pub State : Type 0
  pub mkdir_all : Str → State → Option Str × State
  pub write_file : Str → Str → State → Option Str × State
  pub print : Str → State → State
  -- A writer on the standard output, whose error the caller sees.
  pub write_output : Str → State → Option Str × State
  pub Table : Type 0
  pub new_table_writer : List Str → Table
  pub append : List Str → Table → Result Str Table
  pub render : Table → State → Option Str × State
  -- `json.MarshalIndent` of a collection, and of a pack.
  pub marshal_collection : Collection → Result Str Str
  pub marshal_pack : Assets.Pack → Result Str Str
  -- `FixKustomization` and then `yaml.Marshal`.
  pub marshal : Kustomization → Result Str Str
  pub kustomization_file_name : Str
  pub origin_annotations : Str

-- The values of the flags that the commands read.
pub record Flags : Type 0 where
  pub skip_verify : Bool
  pub format : Str
  pub name : Str
  pub version : Str
  pub path : Str
  pub with_kustomization : Bool

pub data Error : Type 0 where
  no_collection : NewError → Error
  no_pack : NotFound → Error
  unknown_output_format : Str → Error
  unreadable host_failed : Str → Error

abbrev pub output_format_table : Str
output_format_table = codes "table"

abbrev pub output_format_json : Str
output_format_json = codes "json"

-- The validator of `outputFormatFlag`.
unfoldable pub validate_format : Str → Option Error
validate_format format =
    if not (contains_func (λ f. format == f) (output_format_table ∷ output_format_json ∷ []))
    then some (unknown_output_format format)
    else none

-- What a call of the host returns, as the end of a command.
abbrev pub ended : {S : Type 0} → Option Str × S → Option Error × S
ended (none, s) = (none, s)
ended (some e, s) = (some (host_failed e), s)

module _ (digest : Str → List ℕ) (fs : Fs) where
  -- The collection that each command reads first, from the embedded file system.
  abbrev pub load : Flags → Result Error Collection
  load flags =
      wrap no_collection (new_collection digest (some fs) (with_skip_verify flags.skip_verify ∷ []))

  -- The pack that the flags name.
  abbrev pub find_pack : Flags → Result Error Assets.Pack
  find_pack flags = load flags >>= λ c. wrap no_pack (get_pack c flags.name flags.version)

module _ (H : Host) where
  -- A command that prints what a call returned, with the error of that call.
  abbrev pub print_line : Result Error Str → H.State → Option Error × H.State
  print_line (err e) s = (some e, s)
  print_line (ok text) s = (none, H.print (text ++ (b'\n' ∷ [])) s)

  -- The loop over the packs of `runPackList`.
  unfoldable pub append_packs : List Assets.Pack → H.Table → Result Error H.Table
  append_packs [] table = ok table
  append_packs (pack ∷ packs) table =
      let row = pack.name ∷ pack.version ∷ pack.description ∷ itoa (length pack.resources) ∷ [] in
      wrap host_failed (H.append row table) >>= append_packs packs

  -- The loop over the resources of `runPackListFiles`.
  unfoldable pub append_files : Assets.Pack → List Resource → H.Table → Result Error H.Table
  append_files pack [] table = ok table
  append_files pack (r ∷ rs) table =
      wrap host_failed (H.append (pack_string pack ∷ r.path ∷ r.sha256 ∷ []) table)
      >>= append_files pack rs

  abbrev pub render_table : Result Error H.Table → H.State → Option Error × H.State
  render_table (err e) s = (some e, s)
  render_table (ok table) s = ended (H.render table s)

  -- `runPackList` from the format on.
  unfoldable pub list_packs : Str → Collection → H.State → Option Error × H.State
  list_packs format c s =
      if format == output_format_table
      then (let headers =
            codes "NAME" ∷ codes "VERSION" ∷ codes "DESCRIPTION" ∷ codes "RESOURCES" ∷ [] in
          render_table (append_packs c.packs (H.new_table_writer headers)) s)
      else if format == output_format_json
      then print_line (wrap host_failed (H.marshal_collection c)) s
      else (some (unknown_output_format format), s)

  -- `runPackListFiles` from the format on.
  unfoldable pub list_files : Str → Assets.Pack → H.State → Option Error × H.State
  list_files format pack s =
      if format == output_format_table
      then (let headers = codes "PACK" ∷ codes "PATH" ∷ codes "SHA256" ∷ [] in
          render_table (append_files pack pack.resources (H.new_table_writer headers)) s)
      else if format == output_format_json
      then print_line (wrap host_failed (H.marshal_pack pack)) s
      else (some (unknown_output_format format), s)

  -- The loop over the resources of `runPackDump`, with the names collected so far.
  unfoldable pub dump_resources :
      Str → List Resource → List Str → H.State → Result Error (List Str) × H.State
  dump_resources path [] names s = (ok names, s)
  dump_resources path (r ∷ rs) names s = elim (read r) [
    | err e ↦ (err (unreadable e), s)
    | ok content ↦
        let (failure, s') = H.write_file (join path r.path) content s in
        elim failure [
          | some e ↦ (err (host_failed e), s')
          | none ↦ dump_resources path rs (names ++ (base r.path ∷ [])) s'
        ]
  ]

  -- The end of `runPackDump`: the kustomization, if it is asked for.
  unfoldable pub dump_kustomization :
      Flags → Str → Result Error (List Str) × H.State → Option Error × H.State
  dump_kustomization flags base_dir (err e, s) = (some e, s)
  dump_kustomization flags base_dir (ok names, s) =
      if flags.with_kustomization
      then elim (H.marshal
          (record { resources = names; build_metadata = H.origin_annotations ∷ [] })) [
            | err e ↦ (some (host_failed e), s)
            | ok text ↦ ended (
                H.write_file (join_all (flags.path ∷ base_dir ∷ H.kustomization_file_name ∷ []))
                  text s)
          ]
      else (none, s)

  -- `runPackDump` from the pack on.
  unfoldable pub dump_pack : Flags → Assets.Pack → H.State → Option Error × H.State
  dump_pack flags pack s =
      let (failure, s') = H.mkdir_all (join flags.path pack.base_dir) s in
      elim failure [
        | some e ↦ (some (host_failed e), s')
        | none ↦
            dump_kustomization flags pack.base_dir (dump_resources flags.path pack.resources [] s')
      ]

  module _ (digest : Str → List ℕ) (fs : Fs) where
    -- `runPackList`
    unfoldable pub run_pack_list : Flags → H.State → Option Error × H.State
    run_pack_list flags s = elim (load digest fs flags) [
      | err e ↦ (some e, s)
      | ok c ↦ list_packs flags.format c s
    ]

    -- `runPackListFiles`
    unfoldable pub run_pack_list_files : Flags → H.State → Option Error × H.State
    run_pack_list_files flags s = elim (find_pack digest fs flags) [
      | err e ↦ (some e, s)
      | ok pack ↦ list_files flags.format pack s
    ]

    -- `runPackSums`
    unfoldable pub run_pack_sums : Flags → H.State → Option Error × H.State
    run_pack_sums flags s =
        print_line
          (find_pack digest fs flags >>= λ pack. wrap unreadable (read_file pack meta_file_sums)) s

    -- `runPackDump`
    unfoldable pub run_pack_dump : Flags → H.State → Option Error × H.State
    run_pack_dump flags s = elim (find_pack digest fs flags) [
      | err e ↦ (some e, s)
      | ok pack ↦ dump_pack flags pack s
    ]
