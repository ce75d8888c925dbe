-- ===== src/Admission.antt =====
-- pkg/admission/validator/shoot.go: the validator of shoots.
pub mod Extensions
pub mod Laws
pub mod Refusal
pub mod Agreement
pub mod New
pub mod Webhook
pub mod Tests
use gardener_extension_shoot.Base.{
  Bool, true, false, Option, none, some, List, [], ◌∷◌, Result, ok, err, ◌>>=◌, wrap, fail_if,
  if◌then◌else◌, Str, codes, ◌==◌, ℕ, find, try_options, index_func, get_elem?,
}
use gardener_extension_shoot.Config.{PatchSpec, Pack, PackConfig, pack_string}
use gardener_extension_shoot.Config.Validation.{FieldError, validate}
use gardener_extension_shoot.Assets.{Fs, Collection, pack_exists}
use gardener_extension_shoot.Assets.New.{NewError, new_collection, with_skip_verify}
use gardener_extension_shoot.Platform.{NamedReference}
use gardener_extension_shoot.Actuator.Render.{is_secret_ref}

-- The fields that the code reads of a `gardencore.Extension`.
pub record ShootExtension : Type 0 where
  pub type_name : Str
  pub disabled : Option Bool
  pub provider_config : Option Str

-- The fields that the code reads of a `gardencore.Shoot`.
pub record Shoot : Type 0 where
  pub deletion_timestamp : Option ℕ
  pub extensions : List ShootExtension
  pub resources : List NamedReference

-- A `client.Object`: a shoot, or another type by its name.
pub data Object : Type 0 where
  shoot_object : Shoot → Object
  other_object : Str → Object

pub data Error : Type 0 where
  invalid_object_type : Str → Error
  invalid_shoot : Error
  extension_not_found no_provider_config : Str → Error
  invalid_provider_config : Str → Str → Error
  invalid_config : Str → List FieldError → Error
  no_such_pack : Str → Error
  no_secret : Str → Str → Error
  -- `newShootValidator`
  invalid_decoder : Str → Error
  no_collection : NewError → Error

-- `IgnoreExtensionNotFound`
abbrev pub ignore_extension_not_found : Option Error → Option Error
ignore_extension_not_found (some (extension_not_found t)) = none
ignore_extension_not_found e = e

-- `packactuator.ExtensionType`
abbrev pub shoot_pack_type : Str
shoot_pack_type = codes "shoot-pack"

module _ (S : Type 0) where
  -- What `runtime.DecodeInto` makes of the text of a provider config.
  abbrev pub Decoder : Type 0
  Decoder = Str → Result Str (PackConfig S)

  -- `shootValidator`, whose decoder and collection may be nil.
  pub record ShootValidator : Type 0 where
    pub decoder : Option Decoder
    pub extension_type : Str
    pub collection : Option Collection

-- The collection of the validator, or else that of the embedded file system.
abbrev pub default_collection :
    (Str → List ℕ) → Option Fs → Option Collection → Result Error Collection
default_collection digest embedded (some c) = ok c
default_collection digest embedded none =
    wrap no_collection (new_collection digest embedded (with_skip_verify false ∷ []))

module _ {S : Type 0} where
  -- `WithPackCollection`
  unfoldable pub with_pack_collection :
      Option Collection → ShootValidator S → Result Error (ShootValidator S)
  with_pack_collection c v = ok (record v { collection = c })

  -- `newShootValidator`; `assets.FS` is the embedded file system.
  unfoldable pub new_shoot_validator :
      (Str → List ℕ)
      → Option Fs
      → Option (Decoder S)
      → List (ShootValidator S → Result Error (ShootValidator S))
      → Result Error (ShootValidator S)
  new_shoot_validator digest embedded none opts = err (invalid_decoder shoot_pack_type)
  new_shoot_validator digest embedded (some decode) opts = do
    v ←
        try_options opts
          (record { decoder = some decode; extension_type = shoot_pack_type; collection = none })
    c ← default_collection digest embedded v.collection
    ok (record v { collection = some c })

-- `ext.Disabled != nil && *ext.Disabled`
abbrev pub is_disabled : Option Bool → Bool
is_disabled none = false
is_disabled (some b) = b

-- `getExtension`, of a shoot that may be nil: the element at the index that `slices.IndexFunc` finds.
unfoldable pub get_extension : Str → Option Shoot → Result Error ShootExtension
get_extension extension_type none = err invalid_shoot
get_extension extension_type (some shoot) =
    elim (find (λ ext. ext.type_name == extension_type) shoot.extensions) [
      | none ↦ err (extension_not_found extension_type)
      | some ext ↦ ok ext
    ]

module _ {S : Type 0} where
  -- The loop over the patches of a pack.
  unfoldable pub validate_patches : Str → List NamedReference → List (PatchSpec S) → Option Error
  validate_patches name refs [] = none
  validate_patches name refs (patch ∷ patches) =
      elim (index_func (is_secret_ref patch.resource_ref) refs) [
        | none ↦ some (no_secret name patch.resource_ref)
        | some _ ↦ validate_patches name refs patches
      ]

  -- The loop over the packs.
  unfoldable pub validate_packs : Collection → List NamedReference → List (Pack S) → Option Error
  validate_packs c refs [] = none
  validate_packs c refs (pack ∷ packs) = elim (pack_exists c pack.name pack.version) [
    | false ↦ some (no_such_pack (pack_string pack))
    | true ↦ elim (validate_patches (pack_string pack) refs pack.patches) [
      | some e ↦ some e
      | none ↦ validate_packs c refs packs
    ]
  ]

  -- `validateExtension` from the provider config on.
  unfoldable pub validate_provider_config :
      Str → Decoder S → Collection → List NamedReference → Option Str → Option Error
  validate_provider_config extension_type decode c refs none =
      some (no_provider_config extension_type)
  validate_provider_config extension_type decode c refs (some raw) = elim (decode raw) [
    | err e ↦ some (invalid_provider_config extension_type e)
    | ok cfg ↦ elim (validate cfg) [
      | some errs ↦ some (invalid_config extension_type errs)
      | none ↦ validate_packs c refs cfg.spec.packs
    ]
  ]

  -- `validateExtension`
  unfoldable pub validate_extension : Str → Decoder S → Collection → Shoot → Option Error
  validate_extension extension_type decode c shoot =
      elim (get_extension extension_type (some shoot)) [
        | err e ↦ ignore_extension_not_found (some e)
        | ok ext ↦
            if is_disabled ext.disabled
            then none
            else validate_provider_config extension_type decode c shoot.resources
                ext.provider_config
      ]

  -- `Validate`, of a validator with its decoder and its collection. The old object is not read.
  unfoldable pub validate_object : Str → Decoder S → Collection → Object → Object → Option Error
  validate_object extension_type decode c (other_object t) old_obj = some (invalid_object_type t)
  validate_object extension_type decode c (shoot_object shoot) old_obj =
      elim shoot.deletion_timestamp [
        | some _ ↦ none
        | none ↦ validate_extension extension_type decode c shoot
      ]
