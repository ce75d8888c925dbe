-- ===== src/Mgr/Options.antt =====
-- The options of pkg/mgr/mgr.go.
use gardener_extension_shoot.Base.{Bool, Option, [], ◌∷◌, ◌++◌, Result, ok, Str}
use gardener_extension_shoot.Base.Int.{ℤ}
use gardener_extension_shoot.Base.Dict.{insert}
use gardener_extension_shoot.Mgr.{Types, Mgr, MetricsOptions, ControllerConfig, Error}

module _ {T : Types} where
  unfoldable pub with_config : Option T.RestConfig → Mgr T → Result Error (Mgr T)
  with_config c m = ok (record m { rest_config = c })

  unfoldable pub with_scheme : T.Scheme → Mgr T → Result Error (Mgr T)
  with_scheme s m = ok (record m { scheme = s })

  unfoldable pub with_add_to_scheme :
      (T.Scheme → Result Str T.Scheme) → Mgr T → Result Error (Mgr T)
  with_add_to_scheme f m = ok (record m { add_to_schemes = m.add_to_schemes ++ (f ∷ []) })

  unfoldable pub with_install_scheme : (T.Scheme → T.Scheme) → Mgr T → Result Error (Mgr T)
  with_install_scheme f m = ok (record m { install_schemes = m.install_schemes ++ (f ∷ []) })

  unfoldable pub with_metrics_options : MetricsOptions T → Mgr T → Result Error (Mgr T)
  with_metrics_options opts m = ok (record m { metrics_server_opts = opts })

  unfoldable pub with_metrics_address : Str → Mgr T → Result Error (Mgr T)
  with_metrics_address addr m =
      ok (record m { metrics_server_opts = record m.metrics_server_opts { bind_address = addr } })

  unfoldable pub with_extra_metrics_handler : Str → T.Handler → Mgr T → Result Error (Mgr T)
  with_extra_metrics_handler path handler m =
      ok (record m { extra_metrics_handlers = insert path handler m.extra_metrics_handlers })

  unfoldable pub with_leader_election : Bool → Mgr T → Result Error (Mgr T)
  with_leader_election enable m = ok (record m { leader_election_enabled = enable })

  unfoldable pub with_leader_election_id : Str → Mgr T → Result Error (Mgr T)
  with_leader_election_id id m = ok (record m { leader_election_id = id })

  unfoldable pub with_leader_election_namespace : Str → Mgr T → Result Error (Mgr T)
  with_leader_election_namespace ns m = ok (record m { leader_election_namespace = ns })

  unfoldable pub with_leader_election_config : Option T.RestConfig → Mgr T → Result Error (Mgr T)
  with_leader_election_config cfg m = ok (record m { leader_election_config = cfg })

  unfoldable pub with_context : T.Context → Mgr T → Result Error (Mgr T)
  with_context ctx m = ok (record m { base_ctx_func = ctx })

  unfoldable pub with_controller_options : ControllerConfig T → Mgr T → Result Error (Mgr T)
  with_controller_options opts m = ok (record m { controller_opts = opts })

  unfoldable pub with_max_concurrent_reconciles : ℤ → Mgr T → Result Error (Mgr T)
  with_max_concurrent_reconciles val m =
      ok (record m {
        controller_opts = record m.controller_opts { max_concurrent_reconciles = val };
      })

  unfoldable pub with_reconciliation_timeout : T.Duration → Mgr T → Result Error (Mgr T)
  with_reconciliation_timeout val m =
      ok (record m { controller_opts = record m.controller_opts { reconciliation_timeout = val } })

  unfoldable pub with_healthz_check : Str → T.Checker → Mgr T → Result Error (Mgr T)
  with_healthz_check name checker m =
      ok (record m { healthz_checks = insert name checker m.healthz_checks })

  unfoldable pub with_readyz_check : Str → T.Checker → Mgr T → Result Error (Mgr T)
  with_readyz_check name checker m =
      ok (record m { readyz_checks = insert name checker m.readyz_checks })

  unfoldable pub with_health_probe_address : Str → Mgr T → Result Error (Mgr T)
  with_health_probe_address addr m = ok (record m { health_probe_addr = addr })

  unfoldable pub with_webhook_server : Option T.WebhookServer → Mgr T → Result Error (Mgr T)
  with_webhook_server server m = ok (record m { webhook_server = server })

  unfoldable pub with_logger : T.Logger → Mgr T → Result Error (Mgr T)
  with_logger logger m = ok (record m { logger = logger })

  unfoldable pub with_pprof_address : Str → Mgr T → Result Error (Mgr T)
  with_pprof_address addr m = ok (record m { pprof_addr = addr })

  unfoldable pub with_runnable : T.Runnable → Mgr T → Result Error (Mgr T)
  with_runnable r m = ok (record m { runnables = m.runnables ++ (r ∷ []) })

  unfoldable pub with_client_options : T.ClientOptions → Mgr T → Result Error (Mgr T)
  with_client_options opts m = ok (record m { client_opts = opts })

  unfoldable pub with_cache_options : T.CacheOptions → Mgr T → Result Error (Mgr T)
  with_cache_options opts m = ok (record m { cache_opts = opts })

  unfoldable pub with_connection_configuration :
      Option T.ConnectionConfig → Mgr T → Result Error (Mgr T)
  with_connection_configuration cfg m = ok (record m { client_conn_config = cfg })
