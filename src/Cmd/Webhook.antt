-- ===== src/Cmd/Webhook.antt =====
-- cmd/extension/webhook/webhook.go: the command that runs the webhook server. The calls of other
-- packages are the record `Env`; the log is left out.
pub mod Laws
pub mod Launch
pub mod Tests
use gardener_extension_shoot.Base.{
  ℕ, Bool, true, false, Option, none, some, List, [], ◌∷◌, ◌++◌, Result, ok, err, ◌>>=◌, wrap,
  contains_func, not, if◌then◌else◌, Str, codes, ◌==◌,
}
use gardener_extension_shoot.Base.Int.{ℤ, is_at_most_zero}
use gardener_extension_shoot.Assets.{Fs}
use gardener_extension_shoot.Mgr.{Types, Kit, new_mgr}
use gardener_extension_shoot.Mgr
use gardener_extension_shoot.Mgr.Options.{
  with_context, with_config, with_add_to_scheme, with_install_scheme, with_metrics_address,
  with_health_probe_address, with_leader_election, with_leader_election_id,
  with_leader_election_namespace, with_leader_election_config, with_max_concurrent_reconciles,
  with_reconciliation_timeout, with_healthz_check, with_readyz_check, with_pprof_address,
  with_connection_configuration, with_webhook_server, with_runnable,
}
use gardener_extension_shoot.Cmd.Flags.{one_of}
use gardener_extension_shoot.Admission.{Decoder}
use gardener_extension_shoot.Admission.Webhook.{
  WebhookArgs, Library, WebhookError, new_shoot_validator_webhook,
}

pub data FlagError : Type 0 where
  invalid_log_level invalid_log_format invalid_mode bad_url negative_port missing_flag : FlagError

-- The validator of `webhook-config-service-port`.
unfoldable pub validate_port : ℤ → Option FlagError
validate_port val = if is_at_most_zero val then some negative_port else none

-- `webhook.Options`
pub record ServerOptions : Type 0 where
  pub host : Str
  pub port : ℤ
  pub cert_dir : Str
  pub cert_name : Str
  pub key_name : Str

-- The fields that the code sets of the `ServerOptions` and the `GeneralOptions` of Gardener's webhook
-- package, and the name of the extension.
pub record WebhookOptions : Type 0 where
  pub extension_name : Str
  pub mode : Str
  pub url : Str
  pub service_port : ℤ
  pub namespace : Str
  pub owner_namespace : Str
  pub gardener_version : Str
  pub self_hosted_shoot_cluster : Bool

pub record Env : Type 1 where
  pub T : Types
  pub kit : Kit T
  pub client_go_scheme : T.Scheme → Result Str T.Scheme
  pub garden_install : T.Scheme → T.Scheme
  pub config_install : T.Scheme → T.Scheme
  pub Qps : Type 0
  pub Burst : Type 0
  pub default_qps : Qps
  pub default_burst : Burst
  pub client_connection : Qps → Burst → T.ConnectionConfig
  pub ping : T.Checker
  pub cache_sync : T.Manager → T.Checker
  -- `glogger.MustNewZapLogger`
  pub new_logger : Str → Str → T.Logger
  pub new_server : ServerOptions → T.WebhookServer
  pub started_checker : T.WebhookServer → T.Checker
  -- A cluster, whose cache has the namespace that is given.
  pub Cluster : Type 0
  pub new_cluster : T.RestConfig → T.Logger → Str → Result Str Cluster
  pub cluster_cache_sync : Cluster → T.Checker
  pub as_runnable : Cluster → T.Runnable
  -- `clientcmd.BuildConfigFromFlags`
  pub build_config : Str → Str → Result Str T.RestConfig
  -- Gardener's webhook packages. `complete` is `Complete` and then `Completed`, and `add_to_manager`
  -- takes the webhooks that the factory of the switch returns.
  pub Selector : Type 0
  pub Webhook : Type 0
  pub Target : Type 0
  pub target_seed : Target
  pub label_extension_type_prefix : Str
  pub decoder : T.Manager → Decoder Selector
  pub new_webhook : T.Manager → WebhookArgs Selector Target → Result Str Webhook
  pub Completed : Type 0
  pub complete : WebhookOptions → Result Str Completed
  pub add_to_manager : Completed → List Webhook → T.Manager → Cluster → Result Str T.Manager
  pub all_log_levels : List Str
  pub all_log_formats : List Str
  pub info_level : Str
  pub format_text : Str
  pub mode_service : Str
  pub mode_url : Str
  pub mode_url_with_service_name : Str
  pub parse_url : Str → Option Str
  -- `Manager.Start`, with the error that it returns in the end.
  pub start : T.Manager → Option Str

abbrev pub library : Env → Library
library E = record {
  Selector = E.Selector;
  Manager = E.T.Manager;
  Webhook = E.Webhook;
  Target = E.Target;
  target_seed = E.target_seed;
  label_extension_type_prefix = E.label_extension_type_prefix;
  decoder = E.decoder;
  new_webhook = E.new_webhook;
}

pub data Error : Type 0 where
  source_config_failed source_cluster_failed target_config_failed : Str → Error
  manager_failed : Mgr.Error → Error
  ready_check_failed : Str → Error
  webhook_failed : WebhookError → Error
  options_failed setup_failed start_failed : Str → Error

module _ (E : Env) where
  -- The flags that the command reads.
  pub record Flags : Type 0 where
    pub extension_name : Str
    pub metrics_bind_addr : Str
    pub health_probe_bind_addr : Str
    pub leader_election : Bool
    pub leader_election_id : Str
    pub leader_election_namespace : Str
    pub garden_kubeconfig : Str
    pub zap_log_level : Str
    pub zap_log_format : Str
    pub pprof_bind_addr : Str
    pub client_conn_qps : E.Qps
    pub client_conn_burst : E.Burst
    pub webhook_server_host : Str
    pub webhook_server_port : ℤ
    pub webhook_server_cert_dir : Str
    pub webhook_server_cert_name : Str
    pub webhook_server_key_name : Str
    pub webhook_config_namespace : Str
    pub webhook_config_mode : Str
    pub webhook_config_url : Str
    pub webhook_config_service_port : ℤ
    pub webhook_config_owner_namespace : Str
    pub gardener_version : Str
    pub self_hosted_shoot_cluster : Bool
    pub max_concurrent_reconciles : ℤ
    pub reconciliation_timeout : E.T.Duration

  -- The validators of the flags.
  unfoldable pub validate_log_level : Str → Option FlagError
  validate_log_level = one_of invalid_log_level E.all_log_levels

  unfoldable pub validate_log_format : Str → Option FlagError
  validate_log_format = one_of invalid_log_format E.all_log_formats

  unfoldable pub validate_mode : Str → Option FlagError
  validate_mode =
      one_of invalid_mode (E.mode_service ∷ E.mode_url ∷ E.mode_url_with_service_name ∷ [])

  unfoldable pub validate_url : Str → Option FlagError
  validate_url val = elim (E.parse_url val) [ none ↦ none | some _ ↦ some bad_url ]

  -- `getLogger`
  abbrev pub get_logger : Flags → E.T.Logger
  get_logger f = E.new_logger f.zap_log_level f.zap_log_format

  abbrev pub webhook_server : Flags → E.T.WebhookServer
  webhook_server f = E.new_server (record {
    host = f.webhook_server_host;
    port = f.webhook_server_port;
    cert_dir = f.webhook_server_cert_dir;
    cert_name = f.webhook_server_cert_name;
    key_name = f.webhook_server_key_name;
  })

  -- The options that `getManager` gives to `mgr.New`, with the configurations of the two clusters.
  abbrev pub manager_settings :
      E.T.Context
      → Flags
      → E.T.RestConfig
      → E.Cluster
      → E.T.RestConfig
      → List (Mgr.Mgr E.T → Result Mgr.Error (Mgr.Mgr E.T))
  manager_settings ctx f source cluster target =
      with_context ctx
      ∷ with_config (some target)
      ∷ with_add_to_scheme E.client_go_scheme
      ∷ with_install_scheme E.garden_install
      ∷ with_install_scheme E.config_install
      ∷ with_metrics_address f.metrics_bind_addr
      ∷ with_health_probe_address f.health_probe_bind_addr
      ∷ with_leader_election f.leader_election
      ∷ with_leader_election_id f.leader_election_id
      ∷ with_leader_election_namespace f.leader_election_namespace
      ∷ with_leader_election_config (some source)
      ∷ with_max_concurrent_reconciles f.max_concurrent_reconciles
      ∷ with_reconciliation_timeout f.reconciliation_timeout
      ∷ with_healthz_check (codes "healthz") E.ping
      ∷ with_readyz_check (codes "readyz") E.ping
      ∷ with_pprof_address f.pprof_bind_addr
      ∷ with_connection_configuration
          (some (E.client_connection f.client_conn_qps f.client_conn_burst))
      ∷ with_webhook_server (some (webhook_server f))
      ∷ with_readyz_check (codes "webhook-server") (E.started_checker (webhook_server f))
      ∷ with_readyz_check (codes "source-informer-sync") (E.cluster_cache_sync cluster)
      ∷ with_runnable (E.as_runnable cluster)
      ∷ []

  -- `getManager`: the manager, and the source cluster that it keeps in the flags.
  unfoldable pub get_manager : E.T.Context → Flags → Result Error (E.T.Manager × E.Cluster)
  get_manager ctx f = do
    source ← wrap source_config_failed E.kit.get_config
    cluster ←
        wrap source_cluster_failed (E.new_cluster source (get_logger f) f.webhook_config_namespace)
    target ← wrap target_config_failed (E.build_config [] f.garden_kubeconfig)
    m ← wrap manager_failed (new_mgr E.kit (manager_settings ctx f source cluster target))
    m' ← wrap ready_check_failed (E.kit.add_readyz_check (codes "informer-sync") (E.cache_sync m) m)
    ok (m', cluster)

  -- `getExtensionWebhookOpts`
  abbrev pub webhook_options : Flags → WebhookOptions
  webhook_options f = record {
    extension_name = f.extension_name;
    mode = f.webhook_config_mode;
    url = f.webhook_config_url;
    service_port = f.webhook_config_service_port;
    namespace = f.webhook_config_namespace;
    owner_namespace = f.webhook_config_owner_namespace;
    gardener_version = f.gardener_version;
    self_hosted_shoot_cluster = f.self_hosted_shoot_cluster;
  }

  -- The loop over `webhookFuncs`.
  unfoldable pub make_webhooks :
      List (E.T.Manager → Result WebhookError E.Webhook)
      → E.T.Manager
      → List E.Webhook
      → Result Error (List E.Webhook)
  make_webhooks [] m webhooks = ok webhooks
  make_webhooks (func ∷ funcs) m webhooks =
      wrap webhook_failed (func m) >>= λ wh. make_webhooks funcs m (webhooks ++ (wh ∷ []))

  module _ (digest : Str → List ℕ) (fs : Fs) where
    -- `runWebhookServer` up to the start of the manager.
    unfoldable pub prepare : E.T.Context → Flags → Result Error E.T.Manager
    prepare ctx f = do
      made ← get_manager ctx f
      webhooks ←
          make_webhooks ((λ m. new_shoot_validator_webhook (library E) digest (some fs) m []) ∷ [])
            made.0 []
      completed ← wrap options_failed (E.complete (webhook_options f))
      wrap setup_failed (E.add_to_manager completed webhooks made.0 made.1)

    -- `runWebhookServer`
    unfoldable pub run_webhook_server : E.T.Context → Flags → Option Error
    run_webhook_server ctx f = elim (prepare ctx f) [
      | err e ↦ some e
      | ok m ↦ elim (E.start m) [ none ↦ none | some e ↦ some (start_failed e) ]
    ]
