-- ===== src/Cmd/Controller/Tests.antt =====
-- A run of the controller command over numbers for what is handed on.
use gardener_extension_shoot.Base.{
  ◌≡◌, refl, ℕ, none, some, List, [], ◌∷◌, ◌++◌, Result, ok, Str, codes, str_dec,
}
use gardener_extension_shoot.Base.Int.{pos}
use gardener_extension_shoot.Base.Dict.{lookup, insert}
use gardener_extension_shoot.Go.Strings
use gardener_extension_shoot.Go.Path
use gardener_extension_shoot.Assets.{
  read, verify, verify_packs, verify_pack, verify_resources, verify_resource,
}
use gardener_extension_shoot.Assets.Sums.{sums_from_reader, add_lines, add_line, read_strings}
use gardener_extension_shoot.Assets.New.{
  new_collection, load_packs, load_pack, read_pack, make_resources, with_skip_verify, apply_options,
  check,
}
use gardener_extension_shoot.Assets.Tests.{fs, digest}
use gardener_extension_shoot.Mgr.{run_all, install_all, initial, create_manager, configure, new_mgr}
use gardener_extension_shoot.Mgr.Options.{
  with_context, with_add_to_scheme, with_install_scheme, with_metrics_address,
  with_health_probe_address, with_leader_election, with_leader_election_id,
  with_leader_election_namespace, with_max_concurrent_reconciles, with_reconciliation_timeout,
  with_healthz_check, with_readyz_check, with_pprof_address, with_connection_configuration,
}
use gardener_extension_shoot.Mgr.Tests.{T, K}
use gardener_extension_shoot.Heartbeat
use gardener_extension_shoot.Heartbeat.{
  new_heartbeat, check_heartbeat, with_extension_name, with_lease_namespace, with_renew_interval,
}
use gardener_extension_shoot.Controller
use gardener_extension_shoot.Controller.{new_controller, check_controller}
use gardener_extension_shoot.Actuator.New.{
  new_actuator, with_defaults, with_decoder, with_gardener_version, with_gardenlet_features,
  with_pack_collection,
}
use gardener_extension_shoot.Cmd.Controller.{
  Env, Flags, runtime, get_manager, prepare, parse_bool, add_feature_gates,
}
use gardener_extension_shoot.Cmd.Controller.Launch.{
  Given, validate_log_level, validate_log_format, feature_gates, parse_flags, launch, IsAccepted,
  launch-IsPrepared,
}
use gardener_extension_shoot.Cmd.Controller.Laws.{IsPrepared}

-- What the heartbeat and the extension controller add to a manager is their number, 8 and 9.
abbrev pub env : Env
env = record {
  T = T;
  kit = record K { get_config = ok 1 };
  client_go_scheme = λ s. ok s;
  extensions_scheme = λ s. ok s;
  resources_scheme = λ s. ok s;
  config_install = λ s. s;
  Qps = ℕ;
  Burst = ℕ;
  default_qps = 0;
  default_burst = 0;
  client_connection = λ qps burst. qps;
  ping = 2;
  cache_sync = λ m. 3;
  Clock = ℕ;
  real_clock = 0;
  thirty_seconds = 30;
  seconds = λ d. pos d;
  add_heartbeat = λ args m. ok (m ++ (8 ∷ []));
  Client = ℕ;
  Factory = ℕ;
  Decoder = ℕ;
  factory = 0;
  get_client = λ m. some 4;
  manager_decoder = λ m. 5;
  client_decoder = λ c. 6;
  Predicate = ℕ;
  WatchBuilder = ℕ;
  ExtensionClass = ℕ;
  extension_class_shoot = 7;
  Others = ℕ;
  no_others = 0;
  no_watches = 0;
  no_duration = 0;
  default_predicates = λ ignore. [];
  all_log_levels = codes "info" ∷ [];
  all_log_formats = codes "text" ∷ [];
  info_level = codes "info";
  format_text = codes "text";
  start = λ m. none;
}

abbrev pub add_extension : Controller.AddArgs (runtime env) → List ℕ → Result Str (List ℕ)
add_extension args m = ok (m ++ (9 ∷ []))

-- What is given of the flags: the others have their defaults.
abbrev pub given : Given env
given = record {
  log_level = none;
  log_format = some (codes "text");
  extension_name = some (codes "pack");
  metrics_bind_addr = none;
  health_probe_bind_addr = none;
  heartbeat_renew_interval = none;
  heartbeat_namespace = some (codes "garden");
  leader_election = none;
  leader_election_id = none;
  leader_election_namespace = none;
  ignore_operation_annotation = none;
  max_concurrent_reconciles = none;
  reconciliation_timeout = none;
  resync_interval = none;
  pprof_bind_addr = none;
  client_conn_qps = none;
  client_conn_burst = none;
  gardener_version = some (codes "v1");
  gardenlet_feature_gates = some ((codes "Gate", codes "true") ∷ []);
}

pub run_launch : launch env digest fs add_extension 0 given ≡ ok (1 ∷ 2 ∷ 2 ∷ 8 ∷ 3 ∷ 9 ∷ [])
unfolding launch parse_flags validate_log_level validate_log_format feature_gates add_feature_gates
    parse_bool prepare get_manager new_mgr create_manager configure run_all install_all initial
    with_context with_add_to_scheme with_install_scheme with_metrics_address
    with_health_probe_address with_leader_election with_leader_election_id
    with_leader_election_namespace with_max_concurrent_reconciles with_reconciliation_timeout
    with_healthz_check with_readyz_check with_pprof_address with_connection_configuration
    new_heartbeat check_heartbeat with_extension_name with_lease_namespace with_renew_interval
    Heartbeat.setup_with_manager new_actuator with_defaults with_decoder with_gardener_version
    with_gardenlet_features with_pack_collection new_controller check_controller Controller.initial
    Controller.with_actuator Controller.with_name Controller.with_extension_type
    Controller.with_finalizer_suffix Controller.with_extension_class
    Controller.with_ignore_operation_annotation Controller.with_resync_interval
    Controller.with_max_concurrent_reconciles Controller.with_reconciliation_timeout
    Controller.setup_with_manager new_collection load_packs load_pack read_pack make_resources
    with_skip_verify apply_options check verify verify_packs verify_pack verify_resources
    verify_resource read sums_from_reader add_lines add_line read_strings lookup insert str_dec
    Strings.is_space Strings.split_fields Strings.fields Strings.trim_left Strings.trim_right
    Strings.trim_newlines Strings.trim_space Strings.to_lower Strings.equal_fold Strings.hex_digit
    Strings.hex Path.base Path.dir Path.join Path.clean Path.split_slash Path.segments
    Path.join_slash Path.is_rooted Path.go_up Path.clean_onto Path.rev_onto Path.last_segment
    Path.but_last
run_launch = refl

launch-IsPrepared_example :
    (level : Str) × (format : Str) × (f : Flags env) × (parse_flags env given
      ≡ ok (level, format, f))
    × IsAccepted env given level format f
    × IsPrepared env f digest fs add_extension 0 (1 ∷ 2 ∷ 2 ∷ 8 ∷ 3 ∷ 9 ∷ [])
launch-IsPrepared_example = launch-IsPrepared env digest fs add_extension 0 given run_launch
