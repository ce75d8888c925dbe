-- ===== src/Cmd/Pack/Init.antt =====
-- `runPackInit` of cmd/extension/pack/pack.go: the template of a new pack spec.
use gardener_extension_shoot.Base.{Option, List, [], ◌∷◌, ◌++◌, Str, codes}
use gardener_extension_shoot.Cmd.Pack.{Host, Error, ended}

-- The data of the template.
pub record SpecData : Type 0 where
  pub name : Str
  pub version : Str
  pub description : Str
  pub maintainer : Str

pub data Field : Type 0 where
  maintainer name version description : Field

-- A piece of a template: a text, or the field that stands there.
pub data Piece : Type 0 where
  text : Str → Piece
  field : Field → Piece

abbrev pub value_of : SpecData → Field → Str
value_of d maintainer = d.maintainer
value_of d name = d.name
value_of d version = d.version
value_of d description = d.description

-- The lines of `tmplRaw`, which a newline ends.
abbrev pub spec_template : List (List Piece)
spec_template =
    (text (codes "# -*- mode: shell-script; sh-basic-offset: 2; -*-") ∷ [])
    ∷ []
    ∷ (text (codes "# Maintainer: ") ∷ field maintainer ∷ [])
    ∷ []
    ∷ (text (codes "NAME=") ∷ field name ∷ [])
    ∷ (text (codes "VERSION=") ∷ field version ∷ [])
    ∷ (text (codes "DESCRIPTION=") ∷ text (b'"' ∷ []) ∷ field description ∷ text (b'"' ∷ []) ∷ [])
    ∷ []
    ∷ (text (codes "package() {") ∷ [])
    ∷ (text (codes "  # Use Helm") ∷ [])
    ∷ (text (codes "  ${HELM} repo add ...") ∷ [])
    ∷ (text (codes "  ${HELM} template <repo>/<name> > ${PACK_DIR}/bundle.yaml") ∷ [])
    ∷ []
    ∷ (text (codes "  # Or kustomize") ∷ [])
    ∷ (text (codes "  # ${KUSTOMIZE} build ...") ∷ [])
    ∷ []
    ∷ (text (codes "  # ... or simply install your resources from the pack source dir") ∷ [])
    ∷ (text (codes "  # install -m0644 ${SRC_DIR}/configmap.yaml ${PACK_DIR}/") ∷ [])
    ∷ (text (codes "  # install -m0644 ${SRC_DIR}/pvc.yaml ${PACK_DIR}/") ∷ [])
    ∷ (text (codes "  # install -m0644 ${SRC_DIR}/role.yaml ${PACK_DIR}/") ∷ [])
    ∷ (text (codes "}") ∷ [])
    ∷ []
    ∷ (text (codes "# Uncomment the following function, if your pack provides tests.") ∷ [])
    ∷ (text (codes "# package_test() {") ∷ [])
    ∷ (text (codes "#   echo ")
        ∷ text (b'"' ∷ [])
        ∷ text (codes "Testing pack ...")
        ∷ text (b'"' ∷ [])
        ∷ [])
    ∷ (text (codes "# }") ∷ [])
    ∷ []

unfoldable pub execute_line : SpecData → List Piece → Str
execute_line d [] = b'\n' ∷ []
execute_line d (text s ∷ pieces) = s ++ execute_line d pieces
execute_line d (field f ∷ pieces) = value_of d f ++ execute_line d pieces

-- `Execute`
unfoldable pub execute : SpecData → List (List Piece) → Str
execute d [] = []
execute d (line ∷ lines) = execute_line d line ++ execute d lines

-- `runPackInit`
unfoldable pub run_pack_init : (H : Host) → SpecData → H.State → Option Error × H.State
run_pack_init H d s = ended (H.write_output (execute d spec_template) s)
