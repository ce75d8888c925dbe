-- ===== src/Cmd/Controller.antt =====
-- cmd/extension/controller/controller.go: the command that runs the controller manager. The calls of
-- other packages are the record `Env`; the log is left out.
pub mod Laws
pub mod Launch
pub mod Tests
use gardener_extension_shoot.Base.{
  ℕ, Bool, true, false, Option, none, some, List, [], ◌∷◌, Result, ok, err, ◌>>=◌, wrap, fail_if,
  contains_func, not, if◌then◌else◌, Str, codes, ◌==◌,
}
use gardener_extension_shoot.Base.Int.{ℤ}
use gardener_extension_shoot.Base.Dict.{Dict, insert}
use gardener_extension_shoot.Assets.{Fs, Collection}
use gardener_extension_shoot.Assets.New.{NewError, new_collection, with_skip_verify}
use gardener_extension_shoot.Mgr.{Types, Kit, new_mgr}
use gardener_extension_shoot.Mgr
use gardener_extension_shoot.Mgr.Options.{
  with_context, with_add_to_scheme, with_install_scheme, with_metrics_address,
  with_health_probe_address, with_leader_election, with_leader_election_id,
  with_leader_election_namespace, with_max_concurrent_reconciles, with_reconciliation_timeout,
  with_healthz_check, with_readyz_check, with_pprof_address, with_connection_configuration,
}
use gardener_extension_shoot.Heartbeat.{
  new_heartbeat, with_extension_name, with_lease_namespace, with_renew_interval,
}
use gardener_extension_shoot.Heartbeat
use gardener_extension_shoot.Controller.{Runtime, new_controller}
use gardener_extension_shoot.Controller
use gardener_extension_shoot.Actuator.New.{
  Actuator, actuator_name, actuator_extension_type, actuator_finalizer_suffix, new_actuator,
  with_decoder, with_gardener_version, with_gardenlet_features, with_pack_collection,
}
use gardener_extension_shoot.Actuator.New

-- `strconv.ParseBool`
unfoldable pub parse_bool : Str → Option Bool
parse_bool s =
    let is_one = contains_func (λ t. s == t) in
    if is_one (codes "1" ∷ codes "t" ∷ codes "T" ∷ codes "true" ∷ codes "TRUE" ∷ codes "True" ∷ [])
    then some true
    else if is_one
        (codes "0" ∷ codes "f" ∷ codes "F" ∷ codes "false" ∷ codes "FALSE" ∷ codes "False" ∷ [])
    then some false
    else none

-- The action of the flag for the feature gates: the gates that it leaves, and whether it failed at
-- the value of a gate.
unfoldable pub add_feature_gates : Dict Str → Dict Bool → Option Str × Dict Bool
add_feature_gates [] gates = (none, gates)
add_feature_gates ((feat, val) ∷ items) gates = elim (parse_bool val) [
  | none ↦ (some val, gates)
  | some enabled ↦ add_feature_gates items (insert feat enabled gates)
]

pub record Env : Type 1 where
  pub T : Types
  pub kit : Kit T
  pub client_go_scheme : T.Scheme → Result Str T.Scheme
  pub extensions_scheme : T.Scheme → Result Str T.Scheme
  pub resources_scheme : T.Scheme → Result Str T.Scheme
  pub config_install : T.Scheme → T.Scheme
  pub Qps : Type 0
  pub Burst : Type 0
  pub default_qps : Qps
  pub default_burst : Burst
  pub client_connection : Qps → Burst → T.ConnectionConfig
  pub ping : T.Checker
  -- `NewCacheSyncHealthz` of the cache of the manager.
  pub cache_sync : T.Manager → T.Checker
  -- The controller of the heartbeat.
  pub Clock : Type 0
  pub real_clock : Clock
  pub thirty_seconds : T.Duration
  pub seconds : T.Duration → ℤ
  pub add_heartbeat : Heartbeat.AddArgs T.Duration Clock → T.Manager → Result Str T.Manager
  -- The actuator.
  pub Client : Type 0
  pub Factory : Type 0
  pub Decoder : Type 0
  pub factory : Factory
  pub get_client : T.Manager → Option Client
  pub manager_decoder : T.Manager → Decoder
  pub client_decoder : Client → Decoder
  -- The extension controller.
  pub Predicate : Type 0
  pub WatchBuilder : Type 0
  pub ExtensionClass : Type 0
  pub extension_class_shoot : ExtensionClass
  pub Others : Type 0
  pub no_others : Others
  pub no_watches : WatchBuilder
  pub no_duration : T.Duration
  pub default_predicates : Bool → List Predicate
  pub all_log_levels : List Str
  pub all_log_formats : List Str
  pub info_level : Str
  pub format_text : Str
  -- `Manager.Start`, with the error that it returns in the end.
  pub start : T.Manager → Option Str

-- The extension controllers whose actuators are those of `packactuator`.
abbrev pub runtime : Env → Runtime
runtime E = record {
  Actuator = Actuator E.Client E.Factory E.Decoder;
  Predicate = E.Predicate;
  WatchBuilder = E.WatchBuilder;
  ExtensionClass = E.ExtensionClass;
  Duration = E.T.Duration;
  Others = E.Others;
  default_reconciliation_timeout = E.kit.default_reconciliation_timeout;
  no_others = E.no_others;
  no_watches = E.no_watches;
  no_duration = E.no_duration;
  default_predicates = E.default_predicates;
}

pub data Error : Type 0 where
  manager_failed : Mgr.Error → Error
  heartbeat_failed : Heartbeat.Error → Error
  heartbeat_setup_failed ready_check_failed setup_failed start_failed : Str → Error
  collection_failed : NewError → Error
  actuator_failed : New.Error → Error
  controller_failed : Controller.Error → Error

module _ (E : Env) where
  -- The flags that the command reads.
  pub record Flags : Type 0 where
    pub extension_name : Str
    pub metrics_bind_addr : Str
    pub health_probe_bind_addr : Str
    pub heartbeat_renew_interval : E.T.Duration
    pub heartbeat_namespace : Str
    pub leader_election : Bool
    pub leader_election_id : Str
    pub leader_election_namespace : Str
    pub ignore_operation_annotation : Bool
    pub max_concurrent_reconciles : ℤ
    pub reconciliation_timeout : E.T.Duration
    pub resync_interval : E.T.Duration
    pub pprof_bind_addr : Str
    pub client_conn_qps : E.Qps
    pub client_conn_burst : E.Burst
    pub gardener_version : Str
    pub gardenlet_feature_gates : Dict Bool

  -- The options that `getManager` gives to `mgr.New`.
  abbrev pub manager_settings :
      E.T.Context → Flags → List (Mgr.Mgr E.T → Result Mgr.Error (Mgr.Mgr E.T))
  manager_settings ctx f =
      with_context ctx
      ∷ with_add_to_scheme E.client_go_scheme
      ∷ with_add_to_scheme E.extensions_scheme
      ∷ with_add_to_scheme E.resources_scheme
      ∷ with_install_scheme E.config_install
      ∷ with_metrics_address f.metrics_bind_addr
      ∷ with_health_probe_address f.health_probe_bind_addr
      ∷ with_leader_election f.leader_election
      ∷ with_leader_election_id f.leader_election_id
      ∷ with_leader_election_namespace f.leader_election_namespace
      ∷ with_max_concurrent_reconciles f.max_concurrent_reconciles
      ∷ with_reconciliation_timeout f.reconciliation_timeout
      ∷ with_healthz_check (codes "healthz") E.ping
      ∷ with_readyz_check (codes "readyz") E.ping
      ∷ with_pprof_address f.pprof_bind_addr
      ∷ with_connection_configuration
          (some (E.client_connection f.client_conn_qps f.client_conn_burst))
      ∷ []

  -- The heartbeat that `getManager` makes.
  abbrev pub heartbeat_of :
      Flags → Result Heartbeat.Error (Heartbeat.Heartbeat E.T.Duration E.Clock)
  heartbeat_of f = new_heartbeat E.thirty_seconds E.real_clock (
      with_extension_name f.extension_name
      ∷ with_lease_namespace f.heartbeat_namespace
      ∷ with_renew_interval f.heartbeat_renew_interval
      ∷ [])

  -- `getManager`
  unfoldable pub get_manager : E.T.Context → Flags → Result Error E.T.Manager
  get_manager ctx f = do
    m ← wrap manager_failed (new_mgr E.kit (manager_settings ctx f))
    hb ← wrap heartbeat_failed (heartbeat_of f)
    m1 ← wrap heartbeat_setup_failed (E.add_heartbeat (Heartbeat.setup_with_manager E.seconds hb) m)
    wrap ready_check_failed (E.kit.add_readyz_check (codes "informer-sync") (E.cache_sync m1) m1)

  abbrev pub ActuatorOf : Type 0
  ActuatorOf = Actuator E.Client E.Factory E.Decoder

  module _ (digest : Str → List ℕ) (fs : Fs) where
    -- The actuator that `runManager` makes.
    abbrev pub actuator_of : Flags → E.T.Manager → Collection → Result New.Error ActuatorOf
    actuator_of f m c = new_actuator digest (some fs) E.client_decoder E.factory (E.get_client m) (
        with_decoder (some (E.manager_decoder m))
        ∷ with_gardener_version f.gardener_version
        ∷ with_gardenlet_features f.gardenlet_feature_gates
        ∷ with_pack_collection (some c)
        ∷ [])

    -- The controller that `runManager` makes.
    abbrev pub controller_of :
        Flags → ActuatorOf → Result Controller.Error (Controller.Controller (runtime E))
    controller_of f act = new_controller (runtime E) (
        Controller.with_actuator (runtime E) (some act)
        ∷ Controller.with_name (runtime E) actuator_name
        ∷ Controller.with_extension_type (runtime E) actuator_extension_type
        ∷ Controller.with_finalizer_suffix (runtime E) actuator_finalizer_suffix
        ∷ Controller.with_extension_class (runtime E) E.extension_class_shoot
        ∷ Controller.with_ignore_operation_annotation (runtime E) f.ignore_operation_annotation
        ∷ Controller.with_resync_interval (runtime E) f.resync_interval
        ∷ Controller.with_max_concurrent_reconciles (runtime E) f.max_concurrent_reconciles
        ∷ Controller.with_reconciliation_timeout (runtime E) f.reconciliation_timeout
        ∷ [])

    -- `extension.Add`, as the setup of the controller calls it.
    module _
        (add_extension : Controller.AddArgs (runtime E)
          → E.T.Manager
          → Result Str E.T.Manager) where
      -- `runManager` up to the start of the manager.
      unfoldable pub prepare : E.T.Context → Flags → Result Error E.T.Manager
      prepare ctx f = do
        m ← get_manager ctx f
        collection ←
            wrap collection_failed (new_collection digest (some fs) (with_skip_verify false ∷ []))
        act ← wrap actuator_failed (actuator_of f m collection)
        c ← wrap controller_failed (controller_of f act)
        wrap setup_failed (add_extension (Controller.setup_with_manager (runtime E) c).1 m)

      -- `runManager`
      unfoldable pub run_manager : E.T.Context → Flags → Option Error
      run_manager ctx f = elim (prepare ctx f) [
        | err e ↦ some e
        | ok m ↦ elim (E.start m) [ none ↦ none | some e ↦ some (start_failed e) ]
      ]
