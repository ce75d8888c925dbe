-- ===== src/Admission/Tests.antt =====
-- Shoots that the validator admits, and the theorems on it at one of them.
use gardener_extension_shoot.Base.{
  ◌≡◌, refl, ◌↔◌, ℕ, false, none, some, List, [], ◌∷◌, ok, err, Str, codes, str_dec,
}
use gardener_extension_shoot.Config.Validation.{validate, check_packs, check_pack, check_patches}
use gardener_extension_shoot.Assets.{Fs, Collection, pack_exists}
use gardener_extension_shoot.Actuator.{reconcile}
use gardener_extension_shoot.Actuator.Tests.{P, ex, seed, shoot, two_packs}
use gardener_extension_shoot.Admission.{
  Shoot, ShootExtension, Object, shoot_object, other_object, ShootValidator, get_extension,
  validate_patches, validate_packs, validate_provider_config, validate_extension, validate_object,
  shoot_pack_type,
}
use gardener_extension_shoot.Admission.Laws.{IsWelcome, validate_object_iff}
use gardener_extension_shoot.Admission.Refusal.{refused}
use gardener_extension_shoot.Admission.Agreement.{reconcile-refused}

abbrev pub extension : ShootExtension
extension = record {
  type_name = codes "shoot-pack";
  disabled = none;
  provider_config = some (codes "raw");
}

abbrev pub new_shoot : Shoot
new_shoot = record {
  deletion_timestamp = none;
  extensions = extension ∷ [];
  resources = shoot.resources;
}

abbrev pub old_obj : Object
old_obj = other_object (codes "nil")

validate_object_iff_example :
    (validate_object shoot_pack_type P.decode two_packs (shoot_object new_shoot) old_obj ≡ none)
    ↔ IsWelcome shoot_pack_type P.decode two_packs (shoot_object new_shoot)
validate_object_iff_example =
    validate_object_iff shoot_pack_type P.decode two_packs (shoot_object new_shoot) old_obj

pub run_extension : get_extension shoot_pack_type (some new_shoot) ≡ ok extension
unfolding get_extension str_dec
run_extension = refl

run_validate :
    validate_object shoot_pack_type P.decode two_packs (shoot_object new_shoot) old_obj ≡ none
unfolding validate_object validate_extension get_extension validate_provider_config validate
    check_packs check_pack check_patches validate_packs validate_patches pack_exists str_dec
run_validate = refl

reconcile-refused_example : refused (reconcile P two_packs ex seed).0 ≡ false
reconcile-refused_example =
    reconcile-refused P two_packs shoot_pack_type new_shoot old_obj extension ex shoot seed refl
      run_extension refl run_validate refl refl refl

-- An embedded file system with no packs.
abbrev no_packs : Fs
no_packs = record {
  glob = λ pattern. ok [];
  open_file = λ path. err (codes "no such file");
  read_file = λ path. err (codes "no such file");
}

abbrev digest : Str → List ℕ
digest s = s

abbrev empty_collection : Collection
empty_collection = record { packs = []; file_system = no_packs; skip_verify = false }

abbrev validator : ShootValidator Str
validator = record {
  decoder = some P.decode;
  extension_type = shoot_pack_type;
  collection = some empty_collection;
}
