-- ===== src/Assets/Tests.antt =====
-- A file system with one pack, and the theorems on packs at it.
use gardener_extension_shoot.Base.{
  ◌≡◌, refl, ◌↔◌, ℕ, true, false, Option, none, some, List, [], ◌∷◌, ◌++◌, Result, ok, err, IsOk,
  arith, if◌then◌else◌, Str, codes, ◌==◌, str_dec, All,
}
use gardener_extension_shoot.Base.Dict.{Dict, lookup, insert, copy}
use gardener_extension_shoot.Go.Strings
use gardener_extension_shoot.Go.Path
use gardener_extension_shoot.Go.Path.Laws.{IsPlain}
use gardener_extension_shoot.Go.Strings.Laws.{IsWord, newline}
use gardener_extension_shoot.Assets.{
  Fs, Pack, Collection, read, verify, verify_packs, verify_pack, verify_resources, verify_resource,
  pack_exists, get_pack,
}
use gardener_extension_shoot.Assets.Verify.{IsComplete, verify_iff}
use gardener_extension_shoot.Assets.Lookup.{get_pack-exists}
use gardener_extension_shoot.Assets.Sums.{sums_from_reader, add_lines, add_line, read_strings}
use gardener_extension_shoot.Assets.Sums.Laws.{
  print_sums, IsBlankOrPair, sums_from_reader-print_sums, sums_from_reader-IsOk_iff,
  sums_from_reader-unterminated,
}
use gardener_extension_shoot.Assets.New.{
  new_collection, load_packs, load_pack, read_pack, make_resources, with_skip_verify, apply_options,
  check,
}
use gardener_extension_shoot.Assets.New.Laws.{AreFrom, pack_paths}
use gardener_extension_shoot.Assets.New.Whole.{new_collection-IsComplete, new_collection-AreFrom}

abbrev pub digest : Str → List ℕ
digest s = s

abbrev found : Option Str → Result Str Str
found none = err (codes "no such file")
found (some content) = ok content

-- The sum of the one resource is the hexadecimal form of its text.
abbrev files : Dict Str
files =
    (codes "packs/pg/17/DESC", codes " a test ")
    ∷ (codes "packs/pg/17/SUMS", codes "41  packs/pg/17/a.yaml" ++ (b'\n' ∷ []))
    ∷ (codes "packs/pg/17/a.yaml", codes "A")
    ∷ []

abbrev pub fs : Fs
fs = record {
  glob = λ pattern.
      if pattern == codes "packs/*/*"
      then ok (codes "packs/pg/17" ∷ [])
      else ok (codes "packs/pg/17/a.yaml" ∷ []);
  open_file = λ path. ok (ok true);
  read_file = λ path. found (lookup path files);
}

abbrev pub pg : Pack
pg = record {
  name = codes "pg";
  version = codes "17";
  description = codes "a test";
  resources =
      record { path = codes "packs/pg/17/a.yaml"; sha256 = codes "41"; file_system = fs } ∷ [];
  base_dir = codes "packs/pg/17";
  file_system = fs;
}

abbrev pub collection : Collection
collection = record { packs = pg ∷ []; file_system = fs; skip_verify = false }

pub run_new : new_collection digest (some fs) (with_skip_verify false ∷ []) ≡ ok collection
unfolding new_collection load_packs load_pack read_pack make_resources with_skip_verify
    apply_options check verify verify_packs verify_pack verify_resources verify_resource read
    sums_from_reader add_lines add_line read_strings lookup insert str_dec Strings.is_space
    Strings.split_fields Strings.fields Strings.trim_left Strings.trim_right Strings.trim_newlines
    Strings.trim_space Strings.to_lower Strings.equal_fold Strings.hex_digit Strings.hex Path.base
    Path.dir Path.join Path.clean Path.split_slash Path.segments Path.join_slash Path.is_rooted
    Path.go_up Path.clean_onto Path.rev_onto Path.last_segment Path.but_last
run_new = refl

pub run_skip : collection.skip_verify ≡ false
run_skip = refl

new_collection-IsComplete_example : All (IsComplete digest) collection.packs
new_collection-IsComplete_example =
    new_collection-IsComplete digest fs (with_skip_verify false ∷ []) run_new run_skip

abbrev entries : List (Str × Str)
entries = (codes "pg", codes "17") ∷ []

run_paths : fs.glob (codes "packs/*/*") ≡ ok (pack_paths entries)
unfolding Path.join_slash str_dec
run_paths = refl

name-IsPlain : IsPlain (codes "pg")
name-IsPlain = ground arith

version-IsPlain : IsPlain (codes "17")
version-IsPlain = ground arith

new_collection-AreFrom_example :
    AreFrom fs entries collection.packs × (collection.skip_verify ≡ false)
new_collection-AreFrom_example =
    new_collection-AreFrom digest fs false entries run_paths ((name-IsPlain, version-IsPlain), tt)
      run_new

verify_iff_example : (verify digest collection ≡ none) ↔ All (IsComplete digest) collection.packs
verify_iff_example = verify_iff digest collection

run_exists : pack_exists collection (codes "pg") (codes "17") ≡ true
unfolding pack_exists str_dec
run_exists = refl

get_pack-exists_example :
    (p : Pack) × (get_pack collection (codes "pg") (codes "17") ≡ ok p)
    × (codes "pg" ≡ p.name)
    × (codes "17" ≡ p.version)
get_pack-exists_example = get_pack-exists (codes "pg") (codes "17") collection run_exists

abbrev sum_entries : List (Str × Str)
sum_entries = (codes "a", codes "41") ∷ []

path-IsWord : IsWord (codes "a")
unfolding Strings.is_space
path-IsWord = record { no_space = (refl, tt); not_empty = λ h. cc }

sum-IsWord : IsWord (codes "41")
unfolding Strings.is_space
sum-IsWord = record { no_space = (refl, (refl, tt)); not_empty = λ h. cc }

sums_from_reader-print_sums_example :
    sums_from_reader (record { content = print_sums sum_entries; failure = none })
    ≡ ok (copy [] sum_entries)
sums_from_reader-print_sums_example =
    sums_from_reader-print_sums sum_entries ((path-IsWord, sum-IsWord), tt)

sums_from_reader-IsOk_iff_example :
    IsOk (sums_from_reader (record { content = codes "one word"; failure = none }))
    ↔ All IsBlankOrPair (read_strings (codes "one word"))
sums_from_reader-IsOk_iff_example = sums_from_reader-IsOk_iff (codes "one word")

tail_open : All (λ c. newline c ≡ false) (codes "42  b")
tail_open = (refl, (refl, (refl, (refl, (refl, tt)))))

sums_from_reader-unterminated_example :
    sums_from_reader (record { content = print_sums sum_entries ++ codes "42  b"; failure = none })
    ≡ ok (copy [] sum_entries)
sums_from_reader-unterminated_example =
    sums_from_reader-unterminated sum_entries (codes "42  b") ((path-IsWord, sum-IsWord), tt)
      tail_open
