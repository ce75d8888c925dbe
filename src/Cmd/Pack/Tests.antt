-- ===== src/Cmd/Pack/Tests.antt =====
-- Runs of the pack commands on a disk in memory.
use gardener_extension_shoot.Base.{
  ◌≡◌, ◌≢◌, ◌↔◌, refl, true, false, Option, none, some, List, [], ◌∷◌, ◌++◌, ok, Str, codes,
  str_dec, ◌==◌, if◌then◌else◌, str_ne, arith, IsOk,
}
use gardener_extension_shoot.Base.Dict.{lookup, insert}
use gardener_extension_shoot.Go.Strings
use gardener_extension_shoot.Go.Path
use gardener_extension_shoot.Assets.{
  read, verify, verify_packs, verify_pack, verify_resources, verify_resource, get_pack,
}
use gardener_extension_shoot.Assets.Sums.{sums_from_reader, add_lines, add_line, read_strings}
use gardener_extension_shoot.Assets.New.{
  new_collection, load_packs, load_pack, read_pack, make_resources, with_skip_verify, apply_options,
  check,
}
use gardener_extension_shoot.Assets.Tests.{fs, digest}
use gardener_extension_shoot.Assets.Tests.{pg}
use gardener_extension_shoot.Go.Strings.{itoa, digits_onto}
use gardener_extension_shoot.Cmd.Pack.{
  Host, Flags, load, find_pack, unknown_output_format, validate_format, dump_resources,
  dump_kustomization, dump_pack, run_pack_list, run_pack_list_files, run_pack_dump,
}
use gardener_extension_shoot.Cmd.Pack.Disk.{Disk}
use gardener_extension_shoot.Cmd.Pack.Dump.{kustomization_path, IsDumped, run_pack_dump-IsDumped}
use gardener_extension_shoot.Cmd.Pack.Formats.{is_unknown_format, run_pack_list-unknown_iff}

-- The files of the disk by their paths, and what was printed.
pub record TestState : Type 0 where
  pub content : Str → Option Str
  pub printed : Str

abbrev put : Str → Str → TestState → TestState
put path text s = record s { content = λ p. if p == path then some text else s.content p }

abbrev host : Host
host = record {
  State = TestState;
  mkdir_all = λ dir s. (none, s);
  write_file = λ path text s. (none, put path text s);
  print = λ text s. record s { printed = s.printed ++ text };
  write_output = λ text s. (none, record s { printed = s.printed ++ text });
  Table = List (List Str);
  new_table_writer = λ headers. headers ∷ [];
  append = λ row table. ok (table ++ (row ∷ []));
  render = λ table s. (none, s);
  marshal_collection = λ c. ok (codes "packs");
  marshal_pack = λ p. ok (codes "pack");
  marshal = λ k. ok (codes "resources");
  kustomization_file_name = codes "kustomization.yaml";
  origin_annotations = codes "originAnnotations";
}

put-same : (path text : Str) (s : TestState) → (put path text s).content path ≡ some text
put-same path text s = ground arith

put-other :
    (path text : Str) (s : TestState) (p : Str)
    → p ≢ path
    → (put path text s).content p ≡ s.content p
put-other path text s p ne = ground arith

abbrev disk : Disk host
disk = record {
  content = λ p s. s.content p;
  write_self = λ path text s h. put-same path text s;
  write_other = λ path text s p. put-other path text s p;
  mkdir_keeps = λ dir s p. refl;
}

abbrev empty : TestState
empty = record { content = λ p. none; printed = [] }

abbrev flags : Flags
flags = record {
  skip_verify = false;
  format = codes "yaml";
  name = codes "pg";
  version = codes "17";
  path = codes "out";
  with_kustomization = true;
}

run_load : find_pack digest fs flags ≡ ok pg
unfolding get_pack new_collection load_packs load_pack read_pack make_resources with_skip_verify
    apply_options check verify verify_packs verify_pack verify_resources verify_resource read
    sums_from_reader add_lines add_line read_strings lookup insert str_dec Strings.is_space
    Strings.split_fields Strings.fields Strings.trim_left Strings.trim_right Strings.trim_newlines
    Strings.trim_space Strings.to_lower Strings.equal_fold Strings.hex_digit Strings.hex Path.base
    Path.dir Path.join Path.clean Path.split_slash Path.segments Path.join_slash Path.is_rooted
    Path.go_up Path.clean_onto Path.rev_onto Path.last_segment Path.but_last
run_load = refl

run_dump : (run_pack_dump host digest fs flags empty).0 ≡ none
unfolding run_pack_dump dump_pack dump_kustomization dump_resources get_pack Path.join_all
    new_collection load_packs load_pack read_pack make_resources with_skip_verify apply_options
    check verify verify_packs verify_pack verify_resources verify_resource read sums_from_reader
    add_lines add_line read_strings lookup insert str_dec Strings.is_space Strings.split_fields
    Strings.fields Strings.trim_left Strings.trim_right Strings.trim_newlines Strings.trim_space
    Strings.to_lower Strings.equal_fold Strings.hex_digit Strings.hex Path.base Path.dir Path.join
    Path.clean Path.split_slash Path.segments Path.join_slash Path.is_rooted Path.go_up
    Path.clean_onto Path.rev_onto Path.last_segment Path.but_last
run_dump = refl

to_other_file :
    Path.join (codes "out") (codes "packs/pg/17/a.yaml")
    ≢ kustomization_path host disk digest flags pg
unfolding str_dec Path.join Path.join_all Path.clean Path.split_slash Path.segments Path.join_slash
    Path.is_rooted Path.go_up Path.clean_onto Path.rev_onto
to_other_file =
    str_ne (codes "out/packs/pg/17/a.yaml") (codes "out/packs/pg/17/kustomization.yaml") refl

run_pack_dump-IsDumped_example :
    IsDumped host disk digest flags pg empty (run_pack_dump host digest fs flags empty).1
run_pack_dump-IsDumped_example =
    run_pack_dump-IsDumped host disk digest fs flags {pack = pg} empty refl run_load (tt, tt)
      (to_other_file, tt) run_dump

run_pack_list-unknown_iff_example :
    ((is_unknown_format (run_pack_list host digest fs flags empty).0 ≡ true) ↔ (
      IsOk (load digest fs flags)
      × (validate_format flags.format ≡ some (unknown_output_format flags.format))))
    × ((is_unknown_format (run_pack_list_files host digest fs flags empty).0 ≡ true) ↔ (
        IsOk (find_pack digest fs flags)
        × (validate_format flags.format ≡ some (unknown_output_format flags.format))))
run_pack_list-unknown_iff_example = run_pack_list-unknown_iff host digest fs flags empty
