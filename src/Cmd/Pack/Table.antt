-- ===== src/Cmd/Pack/Table.antt =====
-- The command pack with its subcommands and their flags, as `New` of cmd/extension/pack/pack.go declares
-- them.
use gardener_extension_shoot.Base.{
  ◌≡◌, refl, Bool, true, false, List, [], ◌∷◌, ◌||◌, contains_func, if◌then◌else◌, Str, codes, ◌==◌,
  str_dec,
}

pub record FlagDecl : Type 0 where
  pub name : Str
  pub aliases : List Str
  pub required : Bool

pub record CommandDecl : Type 0 where
  pub name : Str
  pub aliases : List Str
  pub flags : List FlagDecl

-- `outputFormatFlag`
abbrev pub output_format_flag : FlagDecl
output_format_flag = record { name = codes "format"; aliases = codes "f" ∷ []; required = false }

-- `skipVerifyFlag`
abbrev pub skip_verify_flag : FlagDecl
skip_verify_flag = record {
  name = codes "skip-verify";
  aliases = codes "insecure-skip-verify" ∷ codes "k" ∷ [];
  required = false;
}

-- The flag for the name of the pack, which four subcommands declare.
abbrev pub name_flag : FlagDecl
name_flag = record { name = codes "name"; aliases = codes "n" ∷ []; required = true }

-- The flag for its version.
abbrev pub version_flag : FlagDecl
version_flag = record { name = codes "version"; aliases = codes "v" ∷ []; required = true }

abbrev pub list_command : CommandDecl
list_command = record {
  name = codes "list";
  aliases = codes "ls" ∷ [];
  flags = output_format_flag ∷ skip_verify_flag ∷ [];
}

abbrev pub files_command : CommandDecl
files_command = record {
  name = codes "files";
  aliases = codes "f" ∷ [];
  flags = output_format_flag ∷ skip_verify_flag ∷ name_flag ∷ version_flag ∷ [];
}

abbrev pub sums_command : CommandDecl
sums_command = record {
  name = codes "sums";
  aliases = codes "s" ∷ [];
  flags = skip_verify_flag ∷ name_flag ∷ version_flag ∷ [];
}

abbrev pub dump_command : CommandDecl
dump_command = record {
  name = codes "dump";
  aliases = codes "d" ∷ [];
  flags =
      skip_verify_flag
      ∷ name_flag
      ∷ version_flag
      ∷ record { name = codes "path"; aliases = codes "p" ∷ []; required = true }
      ∷ record { name = codes "with-kustomization"; aliases = codes "k" ∷ []; required = false }
      ∷ [];
}

abbrev pub init_command : CommandDecl
init_command = record {
  name = codes "init";
  aliases = codes "i" ∷ [];
  flags =
      name_flag
      ∷ version_flag
      ∷ record { name = codes "description"; aliases = codes "d" ∷ []; required = true }
      ∷ record { name = codes "maintainer"; aliases = codes "m" ∷ []; required = false }
      ∷ [];
}

-- `New`
unfoldable pub pack_commands : List CommandDecl
pack_commands = list_command ∷ files_command ∷ sums_command ∷ dump_command ∷ init_command ∷ []

-- The names of the flags that go by a name or an alias.
unfoldable pub takers : Str → List FlagDecl → List Str
takers alias [] = []
takers alias (flag ∷ flags) =
    let rest = takers alias flags in
    if flag.name == alias || contains_func (λ a. a == alias) flag.aliases
    then flag.name ∷ rest
    else rest

-- Two flags of the subcommand dump go by the alias k: the one that skips the verification and the one
-- that asks for a kustomization.
takers-dump_k :
    takers (codes "k") dump_command.flags ≡ codes "skip-verify" ∷ codes "with-kustomization" ∷ []
unfolding takers str_dec
takers-dump_k = refl
