-- ===== src/Cmd/Webhook/Tests.antt =====
-- A run of the webhook command over numbers for what is handed on.
use gardener_extension_shoot.Base.{some, ◌≡◌, refl, ℕ, none, [], ◌∷◌, ◌++◌, ok, err, codes, str_dec}
use gardener_extension_shoot.Base.Int.{pos}
use gardener_extension_shoot.Base.Dict.{lookup, insert}
use gardener_extension_shoot.Go.Strings
use gardener_extension_shoot.Go.Path
use gardener_extension_shoot.Assets.{
  read, verify, verify_packs, verify_pack, verify_resources, verify_resource,
}
use gardener_extension_shoot.Assets.Sums.{sums_from_reader, add_lines, add_line, read_strings}
use gardener_extension_shoot.Assets.New.{
  new_collection, load_packs, load_pack, read_pack, make_resources, with_skip_verify, apply_options,
  check,
}
use gardener_extension_shoot.Assets.Tests.{fs, digest}
use gardener_extension_shoot.Mgr.{run_all, install_all, initial, create_manager, configure, new_mgr}
use gardener_extension_shoot.Mgr.Options.{
  with_context, with_config, with_add_to_scheme, with_install_scheme, with_metrics_address,
  with_health_probe_address, with_leader_election, with_leader_election_id,
  with_leader_election_namespace, with_leader_election_config, with_max_concurrent_reconciles,
  with_reconciliation_timeout, with_healthz_check, with_readyz_check, with_pprof_address,
  with_connection_configuration, with_webhook_server, with_runnable,
}
use gardener_extension_shoot.Mgr.Tests.{T, K}
use gardener_extension_shoot.Admission.{new_shoot_validator}
use gardener_extension_shoot.Admission.Webhook.{new_shoot_validator_webhook}
use gardener_extension_shoot.Cmd.Webhook.{
  Env, get_manager, make_webhooks, prepare, validate_log_level, validate_log_format, validate_mode,
  validate_url, validate_port,
}
use gardener_extension_shoot.Cmd.Webhook.Launch.{Given, parse_flags, launch}

-- The webhook of a manager is its length, and what is added to a manager for it is the webhook.
abbrev pub env : Env
env = record {
  T = T;
  kit = record K { get_config = ok 1 };
  client_go_scheme = λ s. ok s;
  garden_install = λ s. s;
  config_install = λ s. s;
  Qps = ℕ;
  Burst = ℕ;
  default_qps = 0;
  default_burst = 0;
  client_connection = λ qps burst. qps;
  ping = 2;
  cache_sync = λ m. 3;
  new_logger = λ level format. 0;
  new_server = λ opts. 4;
  started_checker = λ server. 5;
  Cluster = ℕ;
  new_cluster = λ c logger ns. ok 6;
  cluster_cache_sync = λ c. 7;
  as_runnable = λ c. c;
  build_config = λ master path. ok 10;
  Selector = ℕ;
  Webhook = ℕ;
  Target = ℕ;
  target_seed = 0;
  label_extension_type_prefix = codes "extensions.extensions.gardener.cloud/";
  decoder = λ m raw. err (codes "no config");
  new_webhook = λ m args. ok 8;
  Completed = ℕ;
  complete = λ opts. ok 9;
  add_to_manager = λ completed webhooks m c. ok (m ++ webhooks);
  all_log_levels = codes "info" ∷ [];
  all_log_formats = codes "text" ∷ [];
  info_level = codes "info";
  format_text = codes "text";
  mode_service = codes "service";
  mode_url = codes "url";
  mode_url_with_service_name = codes "url-service";
  parse_url = λ url. none;
  start = λ m. none;
}

-- What is given of the flags: the others have their defaults.
abbrev pub given : Given env
given = record {
  extension_name = none;
  metrics_bind_addr = none;
  health_probe_bind_addr = none;
  leader_election = none;
  leader_election_id = none;
  leader_election_namespace = none;
  garden_kubeconfig = some (codes "kubeconfig");
  zap_log_level = none;
  zap_log_format = some (codes "text");
  pprof_bind_addr = none;
  client_conn_qps = none;
  client_conn_burst = none;
  webhook_server_host = none;
  webhook_server_port = none;
  webhook_server_cert_dir = none;
  webhook_server_cert_name = none;
  webhook_server_key_name = none;
  webhook_config_namespace = none;
  webhook_config_mode = some (codes "url");
  webhook_config_url = none;
  webhook_config_service_port = some (pos 443);
  webhook_config_owner_namespace = none;
  gardener_version = none;
  self_hosted_shoot_cluster = none;
  max_concurrent_reconciles = none;
  reconciliation_timeout = none;
}

pub run_launch : launch env digest fs 0 given ≡ ok (10 ∷ 2 ∷ 2 ∷ 5 ∷ 7 ∷ 6 ∷ 3 ∷ 8 ∷ [])
unfolding launch parse_flags validate_log_level validate_log_format validate_mode validate_url
    validate_port prepare get_manager make_webhooks new_shoot_validator_webhook new_shoot_validator
    new_mgr create_manager configure run_all install_all initial with_context with_config
    with_add_to_scheme with_install_scheme with_metrics_address with_health_probe_address
    with_leader_election with_leader_election_id with_leader_election_namespace
    with_leader_election_config with_max_concurrent_reconciles with_reconciliation_timeout
    with_healthz_check with_readyz_check with_pprof_address with_connection_configuration
    with_webhook_server with_runnable new_collection load_packs load_pack read_pack make_resources
    with_skip_verify apply_options check verify verify_packs verify_pack verify_resources
    verify_resource read sums_from_reader add_lines add_line read_strings lookup insert str_dec
    Strings.is_space Strings.split_fields Strings.fields Strings.trim_left Strings.trim_right
    Strings.trim_newlines Strings.trim_space Strings.to_lower Strings.equal_fold Strings.hex_digit
    Strings.hex Path.base Path.dir Path.join Path.clean Path.split_slash Path.segments
    Path.join_slash Path.is_rooted Path.go_up Path.clean_onto Path.rev_onto Path.last_segment
    Path.but_last
run_launch = refl
