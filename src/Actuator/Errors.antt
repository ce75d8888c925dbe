-- ===== src/Actuator/Errors.antt =====
-- The errors of the actuator: those that its code makes, around the texts of those that it is given.
use gardener_extension_shoot.Base.{List, Str}
use gardener_extension_shoot.Config.Validation.{FieldError}

pub data Error : Type 0 where
  cluster_failed : Str → Error
  no_provider_config : Error
  invalid_provider_config : Str → Error
  invalid_config : List FieldError → Error
  no_such_pack unable_to_get_pack : Str → Error
  unable_to_reconcile : Str → Error → Error
  delete_failed create_failed : Str → Error
  -- `reconcilePack` and below
  invalid_object mkdir_failed : Str → Error
  resource_unreadable unwritable : Str → Error
  patch_failed : Str → Error → Error
  no_reference : Str → Error
  secret_failed : Str → Str → Str → Str → Error
  marshal_failed run_failed registry_failed : Str → Error
  labels_failed yaml_failed : Str → Error
