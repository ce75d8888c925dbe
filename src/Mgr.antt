-- ===== src/Mgr.antt =====
-- pkg/mgr/mgr.go: the wrapper of controller-runtime's manager. The types that the code only hands on are
-- the record `Types`, and the functions of other packages that it calls the record `Kit`.
pub mod Options
pub mod Laws
pub mod Tests
use gardener_extension_shoot.Base.{
  ℕ, Bool, true, false, Option, none, some, List, [], ◌∷◌, ◌++◌, Result, ok, err, ◌>>=◌, wrap, Str,
  codes, try_options,
}
use gardener_extension_shoot.Base.Int.{ℤ, pos}
use gardener_extension_shoot.Base.Dict.{Dict}

pub record Types : Type 1 where
  pub Scheme : Type 0
  pub RestConfig : Type 0
  pub Handler : Type 0
  pub Checker : Type 0
  pub Runnable : Type 0
  pub WebhookServer : Type 0
  pub Context : Type 0
  pub Logger : Type 0
  pub ClientOptions : Type 0
  pub CacheOptions : Type 0
  pub ConnectionConfig : Type 0
  pub Duration : Type 0
  -- The fields of the metrics options and of the controller options that the code does not set.
  pub MetricsOthers : Type 0
  pub ControllerOthers : Type 0
  pub Manager : Type 0

module _ (T : Types) where
  pub record MetricsOptions : Type 0 where
    pub bind_address : Str
    pub others : T.MetricsOthers

  pub record ControllerConfig : Type 0 where
    pub max_concurrent_reconciles : ℤ
    pub reconciliation_timeout : T.Duration
    pub recover_panic : Option Bool
    pub others : T.ControllerOthers

  -- `mgr`, with the context that `baseCtxFunc` returns.
  pub record Mgr : Type 0 where
    pub scheme : T.Scheme
    pub add_to_schemes : List (T.Scheme → Result Str T.Scheme)
    pub install_schemes : List (T.Scheme → T.Scheme)
    pub rest_config : Option T.RestConfig
    pub metrics_server_opts : MetricsOptions
    pub health_probe_addr : Str
    pub pprof_addr : Str
    pub leader_election_enabled : Bool
    pub leader_election_id : Str
    pub leader_election_namespace : Str
    pub leader_election_config : Option T.RestConfig
    pub webhook_server : Option T.WebhookServer
    pub base_ctx_func : T.Context
    pub controller_opts : ControllerConfig
    pub logger : T.Logger
    pub runnables : List T.Runnable
    pub extra_metrics_handlers : Dict T.Handler
    pub healthz_checks : Dict T.Checker
    pub readyz_checks : Dict T.Checker
    pub client_opts : T.ClientOptions
    pub cache_opts : T.CacheOptions
    pub client_conn_config : Option T.ConnectionConfig

  -- `manager.Options`
  pub record ManagerOptions : Type 0 where
    pub scheme : T.Scheme
    pub metrics : MetricsOptions
    pub health_probe_bind_address : Str
    pub leader_election : Bool
    pub leader_election_id : Str
    pub leader_election_namespace : Str
    pub leader_election_resource_lock : Str
    pub leader_election_config : Option T.RestConfig
    pub base_context : T.Context
    pub controller : ControllerConfig
    pub webhook_server : Option T.WebhookServer
    pub logger : T.Logger
    pub pprof_bind_address : Str
    pub client : T.ClientOptions
    pub cache : T.CacheOptions

  -- The functions that the code calls. Those that change a manager or a configuration return it.
  pub record Kit : Type 0 where
    pub new_scheme : T.Scheme
    pub background : T.Context
    pub default_reconciliation_timeout : T.Duration
    pub no_metrics_others : T.MetricsOthers
    pub no_controller_others : T.ControllerOthers
    pub no_logger : T.Logger
    pub no_client_options : T.ClientOptions
    pub no_cache_options : T.CacheOptions
    pub get_config : Result Str T.RestConfig
    pub apply_connection : Option T.ConnectionConfig → T.RestConfig → T.RestConfig
    pub leases_resource_lock : Str
    pub new_manager : T.RestConfig → ManagerOptions → Result Str T.Manager
    pub add_healthz_check : Str → T.Checker → T.Manager → Result Str T.Manager
    pub add_readyz_check : Str → T.Checker → T.Manager → Result Str T.Manager
    pub add_handler : Str → T.Handler → T.Manager → Result Str T.Manager
    pub add : T.Runnable → T.Manager → Result Str T.Manager

pub data Error : Type 0 where
  option_failed scheme_failed rest_config_failed manager_failed : Str → Error
  healthz_failed readyz_failed handler_failed runnable_failed : Str → Error

-- A loop of calls that each take what the last one returned, up to the first error.
unfoldable pub run_all : {A S : Type 0} → (A → S → Result Str S) → List A → S → Result Str S
run_all call [] s = ok s
run_all call (a ∷ rest) s = call a s >>= λ s'. run_all call rest s'

-- The loop over `installSchemes`.
unfoldable pub install_all : {S : Type 0} → List (S → S) → S → S
install_all [] s = s
install_all (f ∷ fs) s = install_all fs (f s)

-- A loop over a map calls with the key and the value of an entry.
abbrev pub entry_call : {V S : Type 0} → (Str → V → S → Result Str S) → Str × V → S → Result Str S
entry_call call entry s = call entry.0 entry.1 s

module _ {T : Types} (K : Kit T) where
  -- The manager that `New` starts from.
  unfoldable pub initial : Mgr T
  initial = record {
    scheme = K.new_scheme;
    add_to_schemes = [];
    install_schemes = [];
    rest_config = none;
    metrics_server_opts = record { bind_address = []; others = K.no_metrics_others };
    health_probe_addr = [];
    pprof_addr = [];
    leader_election_enabled = false;
    leader_election_id = [];
    leader_election_namespace = [];
    leader_election_config = none;
    webhook_server = none;
    base_ctx_func = K.background;
    controller_opts = record {
      max_concurrent_reconciles = pos 5;
      reconciliation_timeout = K.default_reconciliation_timeout;
      recover_panic = some true;
      others = K.no_controller_others;
    };
    logger = K.no_logger;
    runnables = [];
    extra_metrics_handlers = [];
    healthz_checks = [];
    readyz_checks = [];
    client_opts = K.no_client_options;
    cache_opts = K.no_cache_options;
    client_conn_config = none;
  }

  -- The configuration that is set, or else that of the environment.
  abbrev pub rest_config_of : Option T.RestConfig → Result Error T.RestConfig
  rest_config_of (some c) = ok c
  rest_config_of none = wrap rest_config_failed K.get_config

  -- The options that the manager is created with.
  abbrev pub manager_options : Mgr T → T.Scheme → ManagerOptions T
  manager_options m scheme = record {
    scheme = scheme;
    metrics = m.metrics_server_opts;
    health_probe_bind_address = m.health_probe_addr;
    leader_election = m.leader_election_enabled;
    leader_election_id = m.leader_election_id;
    leader_election_namespace = m.leader_election_namespace;
    leader_election_resource_lock = K.leases_resource_lock;
    leader_election_config = m.leader_election_config;
    base_context = m.base_ctx_func;
    controller = m.controller_opts;
    webhook_server = m.webhook_server;
    logger = m.logger;
    pprof_bind_address = m.pprof_addr;
    client = m.client_opts;
    cache = m.cache_opts;
  }

  -- `New` from the schemes to the creation of the manager.
  unfoldable pub create_manager : Mgr T → Result Error T.Manager
  create_manager m = do
    scheme ← wrap scheme_failed (run_all (λ f s. f s) m.add_to_schemes m.scheme)
    rest ← rest_config_of m.rest_config
    wrap manager_failed (
        K.new_manager (K.apply_connection m.client_conn_config rest)
          (manager_options m (install_all m.install_schemes scheme)))

  -- The end of `New`: the checks, the handlers and the runnables.
  unfoldable pub configure : Mgr T → T.Manager → Result Error T.Manager
  configure m r = do
    r1 ← wrap healthz_failed (run_all (entry_call K.add_healthz_check) m.healthz_checks r)
    r2 ← wrap readyz_failed (run_all (entry_call K.add_readyz_check) m.readyz_checks r1)
    r3 ← wrap handler_failed (run_all (entry_call K.add_handler) m.extra_metrics_handlers r2)
    wrap runnable_failed (run_all K.add m.runnables r3)

  -- `New`
  unfoldable pub new_mgr : List (Mgr T → Result Error (Mgr T)) → Result Error T.Manager
  new_mgr opts = do m ← try_options opts initial; r ← create_manager m; configure m r
