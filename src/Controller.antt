-- ===== src/Controller.antt =====
-- pkg/controller/controller.go: the wrapper of Gardener's extension controller. What it only hands
-- on, and the defaults that are not its own, are parameters: the record `Runtime`.
pub mod Laws
mod Tests
use gardener_extension_shoot.Base.{
  ℕ, Bool, true, false, Option, none, some, List, [], ◌∷◌, ◌++◌, Result, ok, err, ◌>>=◌,
  if◌then◌else◌, Str, codes, ◌==◌, try_options,
}
use gardener_extension_shoot.Base.Int.{ℤ, pos}

-- The types of the values that the code hands on; `Others` are the further fields of
-- `crctrl.Options`, and `no_others`, `no_watches` and `no_duration` Go's zero values.
pub record Runtime : Type 1 where
  pub Actuator : Type 0
  pub Predicate : Type 0
  pub WatchBuilder : Type 0
  pub ExtensionClass : Type 0
  pub Duration : Type 0
  pub Others : Type 0
  pub default_reconciliation_timeout : Duration
  pub no_others : Others
  pub no_watches : WatchBuilder
  pub no_duration : Duration
  -- `extension.DefaultPredicates`, of the manager that is given.
  pub default_predicates : Bool → List Predicate

pub data Error : Type 0 where
  missing_actuator : Error
  missing_controller_name : Error
  missing_extension_type : Error
  missing_extension_class : Error
  option_failed : Str → Error

module _ (R : Runtime) where
  -- The fields of `crctrl.Options` that the code sets, and the others.
  pub record ControllerOptions : Type 0 where
    pub max_concurrent_reconciles : ℤ
    pub reconciliation_timeout : R.Duration
    pub recover_panic : Option Bool
    pub others : R.Others

  pub record Controller : Type 0 where
    pub actuator : Option R.Actuator
    pub name : Str
    pub finalizer_suffix : Str
    pub controller_options : ControllerOptions
    pub predicates : List R.Predicate
    pub resync : R.Duration
    pub extension_type : Str
    pub watch_builder : R.WatchBuilder
    pub ignore_operation_annotation : Bool
    pub extension_classes : List R.ExtensionClass

  abbrev pub Setting : Type 0
  Setting = Controller → Result Error Controller

  -- The controller that `New` starts from.
  unfoldable pub initial : Controller
  initial = record {
    actuator = none;
    name = [];
    finalizer_suffix = [];
    controller_options = record {
      max_concurrent_reconciles = pos 5;
      reconciliation_timeout = R.default_reconciliation_timeout;
      recover_panic = some true;
      others = R.no_others;
    };
    predicates = [];
    resync = R.no_duration;
    extension_type = [];
    watch_builder = R.no_watches;
    ignore_operation_annotation = false;
    extension_classes = [];
  }

  abbrev pub default_suffix : Controller → Controller
  default_suffix c = if c.finalizer_suffix == [] then record c { finalizer_suffix = c.name } else c

  -- The checks of `New`, and its default for the suffix of the finalizer.
  unfoldable pub check_controller : Controller → Result Error Controller
  check_controller c = elim c.actuator [
    | none ↦ err missing_actuator
    | some _ ↦
        if c.name == []
        then err missing_controller_name
        else if c.extension_type == []
        then err missing_extension_type
        else elim c.extension_classes [
          | [] ↦ err missing_extension_class
          | _ ∷ _ ↦ ok (default_suffix c)
        ]
  ]

  -- `New`
  unfoldable pub new_controller : List Setting → Result Error Controller
  new_controller opts = do c ← try_options opts initial; check_controller c

  -- `WithActuator` and the other options
  unfoldable pub with_actuator : Option R.Actuator → Setting
  with_actuator act c = ok (record c { actuator = act })

  unfoldable pub with_name : Str → Setting
  with_name name c = ok (record c { name = name })

  unfoldable pub with_finalizer_suffix : Str → Setting
  with_finalizer_suffix suffix c = ok (record c { finalizer_suffix = suffix })

  unfoldable pub with_controller_options : ControllerOptions → Setting
  with_controller_options opts c = ok (record c { controller_options = opts })

  unfoldable pub with_max_concurrent_reconciles : ℤ → Setting
  with_max_concurrent_reconciles val m = ok (record m {
    controller_options = record m.controller_options { max_concurrent_reconciles = val };
  })

  unfoldable pub with_reconciliation_timeout : R.Duration → Setting
  with_reconciliation_timeout val m = ok (record m {
    controller_options = record m.controller_options { reconciliation_timeout = val };
  })

  unfoldable pub with_predicate : R.Predicate → Setting
  with_predicate pred c = ok (record c { predicates = c.predicates ++ (pred ∷ []) })

  unfoldable pub with_extension_type : Str → Setting
  with_extension_type extension_type c = ok (record c { extension_type = extension_type })

  unfoldable pub with_watch_builder : R.WatchBuilder → Setting
  with_watch_builder builder c = ok (record c { watch_builder = builder })

  unfoldable pub with_ignore_operation_annotation : Bool → Setting
  with_ignore_operation_annotation ignore c = ok (record c { ignore_operation_annotation = ignore })

  unfoldable pub with_extension_class : R.ExtensionClass → Setting
  with_extension_class item c =
      ok (record c { extension_classes = c.extension_classes ++ (item ∷ []) })

  unfoldable pub with_resync_interval : R.Duration → Setting
  with_resync_interval duration c = ok (record c { resync = duration })

  -- `extension.AddArgs`
  pub record AddArgs : Type 0 where
    pub actuator : Option R.Actuator
    pub name : Str
    pub finalizer_suffix : Str
    pub controller_options : ControllerOptions
    pub predicates : List R.Predicate
    pub resync : R.Duration
    pub extension_type : Str
    pub watch_builder : R.WatchBuilder
    pub ignore_operation_annotation : Bool
    pub extension_classes : List R.ExtensionClass

  abbrev pub or_default : List R.Predicate → List R.Predicate → List R.Predicate
  or_default defaults [] = defaults
  or_default defaults (pred ∷ preds) = pred ∷ preds

  -- The arguments of `extension.Add`.
  abbrev pub add_args : Controller → List R.Predicate → AddArgs
  add_args c predicates = record {
    actuator = c.actuator;
    name = c.name;
    finalizer_suffix = c.finalizer_suffix;
    controller_options = c.controller_options;
    predicates = predicates;
    resync = c.resync;
    extension_type = c.extension_type;
    watch_builder = c.watch_builder;
    ignore_operation_annotation = c.ignore_operation_annotation;
    extension_classes = c.extension_classes;
  }

  -- `SetupWithManager`: the controller that it leaves, and the arguments for `extension.Add`.
  unfoldable pub setup_with_manager : Controller → Controller × AddArgs
  setup_with_manager c =
      let predicates =
        or_default (R.default_predicates c.ignore_operation_annotation) c.predicates in
      (record c { predicates = predicates }, add_args c predicates)
