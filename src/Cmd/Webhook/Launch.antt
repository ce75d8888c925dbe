-- ===== src/Cmd/Webhook/Launch.antt =====
-- The flags of the webhook command, as `New` of cmd/extension/webhook/webhook.go declares them, and the
-- command from the flags that are given on.
use gardener_extension_shoot.Base.{
  ◌≡◌, ◌⊎◌, ℕ, Bool, false, Option, none, some, List, [], ◌∷◌, Result, ok, err, ◌>>=◌, wrap, Str,
  codes, Any,
}
use gardener_extension_shoot.Base.Int.{ℤ, pos}
use gardener_extension_shoot.Assets.{Fs}
use gardener_extension_shoot.Cmd.Flags.{or_else, flag_value}
use gardener_extension_shoot.Cmd.Webhook.{
  Env, Flags, FlagError, missing_flag, validate_port, validate_log_level, validate_log_format,
  validate_mode, validate_url, Error, prepare,
}

pub data LaunchError : Type 0 where
  flag_refused : FlagError → LaunchError
  command_failed : Error → LaunchError

-- The value of a flag that is required.
abbrev pub required : {A : Type 0} → Option A → Result FlagError A
required none = err missing_flag
required (some val) = ok val

module _ (E : Env) where
  -- The values that the command line and the environment give.
  pub record Given : Type 0 where
    pub extension_name : Option Str
    pub metrics_bind_addr : Option Str
    pub health_probe_bind_addr : Option Str
    pub leader_election : Option Bool
    pub leader_election_id : Option Str
    pub leader_election_namespace : Option Str
    pub garden_kubeconfig : Option Str
    pub zap_log_level : Option Str
    pub zap_log_format : Option Str
    pub pprof_bind_addr : Option Str
    pub client_conn_qps : Option E.Qps
    pub client_conn_burst : Option E.Burst
    pub webhook_server_host : Option Str
    pub webhook_server_port : Option ℤ
    pub webhook_server_cert_dir : Option Str
    pub webhook_server_cert_name : Option Str
    pub webhook_server_key_name : Option Str
    pub webhook_config_namespace : Option Str
    pub webhook_config_mode : Option Str
    pub webhook_config_url : Option Str
    pub webhook_config_service_port : Option ℤ
    pub webhook_config_owner_namespace : Option Str
    pub gardener_version : Option Str
    pub self_hosted_shoot_cluster : Option Bool
    pub max_concurrent_reconciles : Option ℤ
    pub reconciliation_timeout : Option E.T.Duration

  -- What the flags hold, with the values of those that have a validator: the others are given, or have
  -- their defaults.
  abbrev pub flags_of : Given → Str → Str → Str → Str → Str → ℤ → Flags E
  flags_of g garden level format mode url port = record {
    extension_name = or_else (codes "gardener-extension-shoot-pack-admission") g.extension_name;
    metrics_bind_addr = or_else (codes ":8080") g.metrics_bind_addr;
    health_probe_bind_addr = or_else (codes ":8081") g.health_probe_bind_addr;
    leader_election = or_else false g.leader_election;
    leader_election_id =
        or_else (codes "gardener-extension-shoot-pack-admission") g.leader_election_id;
    leader_election_namespace =
        or_else (codes "gardener-extension-shoot-pack") g.leader_election_namespace;
    garden_kubeconfig = garden;
    zap_log_level = level;
    zap_log_format = format;
    pprof_bind_addr = or_else [] g.pprof_bind_addr;
    client_conn_qps = or_else E.default_qps g.client_conn_qps;
    client_conn_burst = or_else E.default_burst g.client_conn_burst;
    webhook_server_host = or_else [] g.webhook_server_host;
    webhook_server_port = or_else (pos 9443) g.webhook_server_port;
    webhook_server_cert_dir = or_else [] g.webhook_server_cert_dir;
    webhook_server_cert_name = or_else (codes "tls.crt") g.webhook_server_cert_name;
    webhook_server_key_name = or_else (codes "tls.key") g.webhook_server_key_name;
    webhook_config_namespace = or_else (codes "garden") g.webhook_config_namespace;
    webhook_config_mode = mode;
    webhook_config_url = url;
    webhook_config_service_port = port;
    webhook_config_owner_namespace = or_else [] g.webhook_config_owner_namespace;
    gardener_version = or_else [] g.gardener_version;
    self_hosted_shoot_cluster = or_else false g.self_hosted_shoot_cluster;
    max_concurrent_reconciles = or_else (pos 5) g.max_concurrent_reconciles;
    reconciliation_timeout = or_else E.kit.default_reconciliation_timeout g.reconciliation_timeout;
  }

  -- The flags that the command reads.
  unfoldable pub parse_flags : Given → Result FlagError (Flags E)
  parse_flags g = do
    garden ← required g.garden_kubeconfig
    level ← flag_value (validate_log_level E) E.info_level g.zap_log_level
    format ← flag_value (validate_log_format E) E.format_text g.zap_log_format
    mode ← flag_value (validate_mode E) E.mode_service g.webhook_config_mode
    url ← flag_value (validate_url E) [] g.webhook_config_url
    port ← flag_value validate_port (pos 0) g.webhook_config_service_port
    ok (flags_of g garden level format mode url port)

  -- The values of the flags are ones that the command works with: the log level and the format are
  -- defaults or supported, the mode is one of three, and the port of the service is 0 or positive.
  pub record IsAccepted (f : Flags E) : Type 0 where
    pub level : (E.info_level ≡ f.zap_log_level) ⊎ Any (λ l. f.zap_log_level ≡ l) E.all_log_levels
    pub format :
        (E.format_text ≡ f.zap_log_format) ⊎ Any (λ l. f.zap_log_format ≡ l) E.all_log_formats
    pub mode :
        Any
          (λ m. f.webhook_config_mode ≡ m)
          (E.mode_service ∷ E.mode_url ∷ E.mode_url_with_service_name ∷ [])
    pub port : (n : ℕ) × (f.webhook_config_service_port ≡ pos n)

  module _ (digest : Str → List ℕ) (fs : Fs) where
    -- The command, up to the start of the manager.
    unfoldable pub launch : E.T.Context → Given → Result LaunchError E.T.Manager
    launch ctx g = do
      f ← wrap flag_refused (parse_flags g)
      wrap command_failed (prepare E digest fs ctx f)
