-- ===== src/Cmd/Pack/Formats.antt =====
-- The output formats that the commands take.
use gardener_extension_shoot.Base.{
  ◌≡◌, ◌↔◌, refl, sym, ap, ◌∙◌, inl, inr, ℕ, Bool, true, false, Option, some, List, [], ◌∷◌, Result,
  ok, err, arith, wrap, Str, codes, ◌==◌, length, Bool-cases, Result-cases, IsOk,
}
use gardener_extension_shoot.Go.Strings.{itoa}
use gardener_extension_shoot.Assets.{Fs, Resource, Collection, pack_string}
use gardener_extension_shoot.Assets
use gardener_extension_shoot.Cmd.Pack.{
  Host, Flags, Error, unknown_output_format, host_failed, output_format_table, output_format_json,
  validate_format, render_table, print_line, append_packs, append_files, list_packs, list_files,
  load, find_pack, run_pack_list, run_pack_list_files,
}

-- The error is that of a format that is not known.
abbrev pub is_unknown_format : Option Error → Bool
is_unknown_format (some (unknown_output_format _)) = true
is_unknown_format _ = false

abbrev errs_unknown : {A : Type 0} → Result Error A → Bool
errs_unknown (err (unknown_output_format _)) = true
errs_unknown _ = false

module _ (H : Host) where
  append_packs-known :
      (packs : List Assets.Pack) (table : H.Table)
      → errs_unknown (append_packs H packs table) ≡ false
  unfolding append_packs
  append_packs-known [] table = refl
  append_packs-known (pack ∷ packs) table =
      let row = pack.name ∷ pack.version ∷ pack.description ∷ itoa (length pack.resources) ∷ [] in
      elim (Result-cases (H.append row table)) [
        | inl (table', appended) ↦ ground (arith, append_packs-known packs table')
        | inr (e, failed) ↦ ground arith
      ]

  append_files-known :
      (pack : Assets.Pack) (rs : List Resource) (table : H.Table)
      → errs_unknown (append_files H pack rs table) ≡ false
  unfolding append_files
  append_files-known pack [] table = refl
  append_files-known pack (r ∷ rs) table =
      elim (Result-cases (H.append (pack_string pack ∷ r.path ∷ r.sha256 ∷ []) table)) [
        | inl (table', appended) ↦ ground (arith, append_files-known pack rs table')
        | inr (e, failed) ↦ ground arith
      ]

  render_table-known :
      (table : Result Error H.Table) (s : H.State)
      → errs_unknown table ≡ false
      → is_unknown_format (render_table H table s).0 ≡ false
  render_table-known (ok table) s h = ground arith
  render_table-known (err e) s h = ground arith

  print_line-known :
      (text : Result Str Str) (s : H.State)
      → is_unknown_format (print_line H (wrap host_failed text) s).0 ≡ false
  print_line-known (ok text) s = refl
  print_line-known (err e) s = refl

  list_packs-unknown :
      (format : Str) (c : Collection) (s : H.State)
      → is_unknown_format (list_packs H format c s).0 ≡ is_unknown_format (validate_format format)
  unfolding list_packs validate_format
  list_packs-unknown format c s =
      let headers = codes "NAME" ∷ codes "VERSION" ∷ codes "DESCRIPTION" ∷ codes "RESOURCES" ∷ [] in
      let known = append_packs-known c.packs (H.new_table_writer headers) in
      elim (Bool-cases (format == output_format_table)) [
        | inl e ↦
            rw e (render_table-known (append_packs H c.packs (H.new_table_writer headers)) s known)
        | inr n ↦ elim (Bool-cases (format == output_format_json)) [
          | inl e ↦ rw (n, e) (print_line-known (H.marshal_collection c) s)
          | inr m ↦ rw (n, m) refl
        ]
      ]

  list_files-unknown :
      (format : Str) (pack : Assets.Pack) (s : H.State)
      → is_unknown_format (list_files H format pack s).0
        ≡ is_unknown_format (validate_format format)
  unfolding list_files validate_format
  list_files-unknown format pack s =
      let headers = codes "PACK" ∷ codes "PATH" ∷ codes "SHA256" ∷ [] in
      let table = append_files H pack pack.resources (H.new_table_writer headers) in
      let known = append_files-known pack pack.resources (H.new_table_writer headers) in
      elim (Bool-cases (format == output_format_table)) [
        | inl e ↦ rw e (render_table-known table s known)
        | inr n ↦ elim (Bool-cases (format == output_format_json)) [
          | inl e ↦ rw (n, e) (print_line-known (H.marshal_pack pack) s)
          | inr m ↦ rw (n, m) refl
        ]
      ]

validate_format-unknown :
    (format : Str)
    → is_unknown_format (validate_format format) ≡ true
    → validate_format format ≡ some (unknown_output_format format)
unfolding validate_format
validate_format-unknown format h = ground arith

-- A command that goes on with what it has loaded.
after_load-unknown_iff :
    {A S : Type 0} (m : Result Error A) (go : A → Option Error × S) (format : Str) (s : S)
    → errs_unknown m ≡ false
    → ((a : A) → is_unknown_format (go a).0 ≡ is_unknown_format (validate_format format))
    → let r : Option Error × S = elim m [ err e ↦ (some e, s) | ok a ↦ go a ] in
      (is_unknown_format r.0 ≡ true)
      ↔ (IsOk m × (validate_format format ≡ some (unknown_output_format format)))
after_load-unknown_iff (ok a) go format s known same = (
  λ h. (tt, validate_format-unknown format (sym (same a) ∙ h)),
  λ (_, e). same a ∙ ap is_unknown_format e,
)
after_load-unknown_iff (err e) go format s known same = (λ h. cc, λ (h, _). absurd h)

module _ (H : Host) (digest : Str → List ℕ) (fs : Fs) (flags : Flags) where
  load-known : errs_unknown (load digest fs flags) ≡ false
  load-known = ground arith

  find_pack-known : errs_unknown (find_pack digest fs flags) ≡ false
  find_pack-known = ground arith

  -- The command that lists the packs fails for an output format that is not known exactly if it has
  -- read the collection and the validator of the flag refuses the format, and the command that
  -- lists the files of a pack exactly if it has read the pack and the validator refuses the format.
  pub run_pack_list-unknown_iff :
      (s : H.State)
      → ((is_unknown_format (run_pack_list H digest fs flags s).0 ≡ true) ↔ (
          IsOk (load digest fs flags)
          × (validate_format flags.format ≡ some (unknown_output_format flags.format))))
        × ((is_unknown_format (run_pack_list_files H digest fs flags s).0 ≡ true) ↔ (
            IsOk (find_pack digest fs flags)
            × (validate_format flags.format ≡ some (unknown_output_format flags.format))))
  unfolding run_pack_list run_pack_list_files
  run_pack_list-unknown_iff s = (
    after_load-unknown_iff (load digest fs flags) (λ c. list_packs H flags.format c s) flags.format
        s load-known (λ c. list_packs-unknown H flags.format c s),
    after_load-unknown_iff (find_pack digest fs flags) (λ pack. list_files H flags.format pack s)
        flags.format s find_pack-known (λ pack. list_files-unknown H flags.format pack s),
  )
