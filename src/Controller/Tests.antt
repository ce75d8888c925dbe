-- ===== src/Controller/Tests.antt =====
-- Controllers over numbers for what is handed on.
use gardener_extension_shoot.Base.{
  ◌≡◌, refl, ◌≢◌, ◌↔◌, ℕ, some, List, [], ◌∷◌, ok, codes, str_dec, try_options,
}
use gardener_extension_shoot.Controller.{
  Runtime, Controller, Setting, initial, check_controller, new_controller, setup_with_manager,
  with_actuator, with_name, with_extension_type, with_extension_class,
}
use gardener_extension_shoot.Controller.Laws.{
  IsConfigured, IsDefaulted, new_controller_iff, new_controller-suffix,
}

abbrev R : Runtime
R = record {
  Actuator = ℕ;
  Predicate = ℕ;
  WatchBuilder = ℕ;
  ExtensionClass = ℕ;
  Duration = ℕ;
  Others = ℕ;
  default_reconciliation_timeout = 180;
  no_others = 0;
  no_watches = 0;
  no_duration = 0;
  default_predicates = λ ignore. 7 ∷ [];
}

abbrev settings : List (Setting R)
settings =
    with_actuator R (some 1)
    ∷ with_name R (codes "pack")
    ∷ with_extension_type R (codes "shoot-pack")
    ∷ with_extension_class R 2
    ∷ []

abbrev controller : Controller R
unfolding initial
controller = record (initial R) {
  actuator = some 1;
  name = codes "pack";
  finalizer_suffix = codes "pack";
  extension_type = codes "shoot-pack";
  extension_classes = 2 ∷ [];
}

run_new : new_controller R settings ≡ ok controller
unfolding controller new_controller check_controller initial with_actuator with_name
    with_extension_type with_extension_class str_dec
run_new = refl

new_controller_iff_example : (new_controller R settings ≡ ok controller) ↔ (
    (c0 : Controller R) × (try_options settings (initial R) ≡ ok c0)
    × IsConfigured R c0
    × IsDefaulted R c0 controller)
new_controller_iff_example = new_controller_iff R settings controller

new_controller-suffix_example : (setup_with_manager R controller).1.finalizer_suffix ≢ []
new_controller-suffix_example = new_controller-suffix R settings run_new
