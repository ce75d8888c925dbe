-- ===== src/Cmd/Webhook/Laws.antt =====
-- What the manager of the webhook server that the command starts has been through.
use mathlib.Core.Path.{subst}
use gardener_extension_shoot.Base.{
  ◌≡◌, refl, sym, ◌∙◌, ℕ, true, false, some, List, [], ◌∷◌, ◌++◌, ok, wrap, Str, codes, str_dec,
  All, >>=-eq-ok, wrap-eq-ok, ok-injective, try_options,
}
use gardener_extension_shoot.Base.Dict.{insert}
use gardener_extension_shoot.Assets.{Fs, Collection}
use gardener_extension_shoot.Assets.New.{new_collection, with_skip_verify}
use gardener_extension_shoot.Assets.New.Whole.{default_collection-IsComplete}
use gardener_extension_shoot.Assets.Verify.{IsComplete}
use gardener_extension_shoot.Mgr
use gardener_extension_shoot.Mgr.{new_mgr, initial}
use gardener_extension_shoot.Mgr.Laws.{IsSetUp, new_mgr-IsSetUp}
use gardener_extension_shoot.Mgr.Options.{
  with_context, with_config, with_add_to_scheme, with_install_scheme, with_metrics_address,
  with_health_probe_address, with_leader_election, with_leader_election_id,
  with_leader_election_namespace, with_leader_election_config, with_max_concurrent_reconciles,
  with_reconciliation_timeout, with_healthz_check, with_readyz_check, with_pprof_address,
  with_connection_configuration, with_webhook_server, with_runnable,
}
use gardener_extension_shoot.Admission.{Decoder, ShootValidator, no_collection, new_shoot_validator}
use gardener_extension_shoot.Admission.Webhook.{
  WebhookArgs, no_validator, webhook_args, new_shoot_validator_webhook,
}
use gardener_extension_shoot.Cmd.Webhook.{
  Env, library, Flags, source_config_failed, source_cluster_failed, target_config_failed,
  manager_failed, ready_check_failed, webhook_failed, options_failed, get_logger, webhook_server,
  manager_settings, get_manager, webhook_options, make_webhooks, prepare,
}

module _ {S : Type 0} (digest : Str → List ℕ) (fs : Fs) where
  -- The validator that is made with no options.
  abbrev pub validator_with : Decoder S → Collection → ShootValidator S
  validator_with decode c = record {
    decoder = some decode;
    extension_type = codes "shoot-pack";
    collection = some c;
  }

  new_shoot_validator-no_options :
      (decode : Decoder S) {v : ShootValidator S}
      → new_shoot_validator digest (some fs) (some decode) [] ≡ ok v
      → (c : Collection) × (new_collection digest (some fs) (with_skip_verify false ∷ []) ≡ ok c)
        × (validator_with decode c ≡ v)
  unfolding new_shoot_validator
  new_shoot_validator-no_options decode h =
      let reading = new_collection digest (some fs) (with_skip_verify false ∷ []) in
      let (c, read_in, same) = >>=-eq-ok (wrap no_collection reading) _ h in
      (c, wrap-eq-ok _ reading read_in, ok-injective same)

module _ (E : Env) (f : Flags E) where
  -- The manager that the flags ask for, with the configurations of the two clusters.
  abbrev pub manager_of : E.T.Context → E.T.RestConfig → E.Cluster → E.T.RestConfig → Mgr.Mgr E.T
  manager_of ctx source cluster target = record (initial E.kit) {
    base_ctx_func = ctx;
    rest_config = some target;
    add_to_schemes = E.client_go_scheme ∷ [];
    install_schemes = E.garden_install ∷ E.config_install ∷ [];
    metrics_server_opts = record {
      bind_address = f.metrics_bind_addr;
      others = E.kit.no_metrics_others;
    };
    health_probe_addr = f.health_probe_bind_addr;
    leader_election_enabled = f.leader_election;
    leader_election_id = f.leader_election_id;
    leader_election_namespace = f.leader_election_namespace;
    leader_election_config = some source;
    controller_opts = record {
      max_concurrent_reconciles = f.max_concurrent_reconciles;
      reconciliation_timeout = f.reconciliation_timeout;
      recover_panic = some true;
      others = E.kit.no_controller_others;
    };
    healthz_checks = (codes "healthz", E.ping) ∷ [];
    readyz_checks =
        (codes "readyz", E.ping)
        ∷ (codes "webhook-server", E.started_checker (webhook_server E f))
        ∷ (codes "source-informer-sync", E.cluster_cache_sync cluster)
        ∷ [];
    pprof_addr = f.pprof_bind_addr;
    client_conn_config = some (E.client_connection f.client_conn_qps f.client_conn_burst);
    webhook_server = some (webhook_server E f);
    runnables = E.as_runnable cluster ∷ [];
  }

  manager_settings-ok :
      (ctx : E.T.Context) (source : E.T.RestConfig) (cluster : E.Cluster) (target : E.T.RestConfig)
      → try_options (manager_settings E ctx f source cluster target) (initial E.kit)
        ≡ ok (manager_of ctx source cluster target)
  unfolding initial insert str_dec with_context with_config with_add_to_scheme with_install_scheme
      with_metrics_address with_health_probe_address with_leader_election with_leader_election_id
      with_leader_election_namespace with_leader_election_config with_max_concurrent_reconciles
      with_reconciliation_timeout with_healthz_check with_readyz_check with_pprof_address
      with_connection_configuration with_webhook_server with_runnable
  manager_settings-ok ctx source cluster target = refl

  module _ (digest : Str → List ℕ) (fs : Fs) where
    -- What the webhook of the validator is made with.
    abbrev pub shoot_args : E.T.Manager → Collection → WebhookArgs E.Selector E.Target
    shoot_args m c = record {
      provider = codes "shoot-pack";
      name = codes "validator.shoot-pack";
      path = codes "/webhooks/validate/shoot-pack";
      validator = validator_with digest fs (E.decoder m) c;
      target = E.target_seed;
      match_labels = (E.label_extension_type_prefix ++ codes "shoot-pack", codes "true") ∷ [];
    }

    make_webhooks-eq-ok :
        (m : E.T.Manager) {whs : List E.Webhook}
        → make_webhooks E
            ((λ m'. new_shoot_validator_webhook (library E) digest (some fs) m' []) ∷ [])
            m
            []
          ≡ ok whs
        → (c : Collection) × (wh : E.Webhook) × (new_collection digest
              (some fs)
              (with_skip_verify false ∷ [])
            ≡ ok c)
          × (E.new_webhook m (shoot_args m c) ≡ ok wh)
          × (wh ∷ [] ≡ whs)
    unfolding make_webhooks new_shoot_validator_webhook
    make_webhooks-eq-ok m h =
        let validating = new_shoot_validator digest (some fs) (some (E.decoder m)) [] in
        let making = new_shoot_validator_webhook (library E) digest (some fs) m [] in
        let (wh, made, same) = >>=-eq-ok (wrap webhook_failed making) _ h in
        let (v, validated, h1) =
          >>=-eq-ok (wrap no_validator validating) _ (wrap-eq-ok _ making made) in
        let (c, loaded, same_v) =
          new_shoot_validator-no_options digest fs (E.decoder m)
            (wrap-eq-ok _ validating validated) in
        let created = wrap-eq-ok _ (E.new_webhook m (webhook_args (library E) v)) h1 in
        (
          c,
          wh,
          loaded,
          subst (λ w. E.new_webhook m (webhook_args (library E) w) ≡ ok wh) (sym same_v) created,
          ok-injective same,
        )

    -- What has been done to a manager before it is started: `m0` is the manager that `mgr.New` made, and
    -- `m1` is what the check of its caches made of it.
    pub record IsServing (ctx : E.T.Context) (m : E.T.Manager) : Type 0 where
      pub source : E.T.RestConfig
      pub target : E.T.RestConfig
      pub cluster : E.Cluster
      pub m0 : E.T.Manager
      pub m1 : E.T.Manager
      pub source_read : E.kit.get_config ≡ ok source
      pub source_made :
          E.new_cluster source (get_logger E f) f.webhook_config_namespace ≡ ok cluster
      pub target_read : E.build_config [] f.garden_kubeconfig ≡ ok target
      pub created : IsSetUp E.kit (manager_of ctx source cluster target) m0
      pub checked : E.kit.add_readyz_check (codes "informer-sync") (E.cache_sync m0) m0 ≡ ok m1
      pub collection : Collection
      pub loaded : new_collection digest (some fs) (with_skip_verify false ∷ []) ≡ ok collection
      pub complete : All (IsComplete digest) collection.packs
      pub webhook : E.Webhook
      pub made : E.new_webhook m1 (shoot_args m1 collection) ≡ ok webhook
      pub completed : E.Completed
      pub options : E.complete (webhook_options E f) ≡ ok completed
      pub added : E.add_to_manager completed (webhook ∷ []) m1 cluster ≡ ok m

    -- A manager that the command starts was made by `mgr.New` as the flags ask for, for the garden
    -- cluster, with the source cluster as a runnable, with a ready check of it, and, if the flags ask
    -- for leader election, with the lease there; its ready
    -- check waits for its caches; and it serves one webhook, on the path for shoot-pack, whose
    -- validator works with the decoder of the manager and with the embedded packs, all of them
    -- complete.
    pub prepare-IsServing :
        (ctx : E.T.Context) {m : E.T.Manager} → prepare E digest fs ctx f ≡ ok m → IsServing ctx m
    unfolding prepare get_manager
    prepare-IsServing ctx {m} h =
        let (both, got, h1) = >>=-eq-ok (get_manager E ctx f) _ h in
        let (source, read_source, g1) =
          >>=-eq-ok (wrap source_config_failed E.kit.get_config) _ got in
        let clustering = E.new_cluster source (get_logger E f) f.webhook_config_namespace in
        let (cluster, made_source, g2) = >>=-eq-ok (wrap source_cluster_failed clustering) _ g1 in
        let building = E.build_config [] f.garden_kubeconfig in
        let (target, read_target, g3) = >>=-eq-ok (wrap target_config_failed building) _ g2 in
        let settings = manager_settings E ctx f source cluster target in
        let (m0, made0, g4) = >>=-eq-ok (wrap manager_failed (new_mgr E.kit settings)) _ g3 in
        let checking = E.kit.add_readyz_check (codes "informer-sync") (E.cache_sync m0) m0 in
        let (m1, checked, g5) = >>=-eq-ok (wrap ready_check_failed checking) _ g4 in
        let same = ok-injective g5 in
        let (whs, webhooks, h2) =
          >>=-eq-ok
            (make_webhooks E
              ((λ m'. new_shoot_validator_webhook (library E) digest (some fs) m' []) ∷ []) both.0
              [])
            _ h1 in
        let completing = E.complete (webhook_options E f) in
        let (completed, options, h3) = >>=-eq-ok (wrap options_failed completing) _ h2 in
        let adding = E.add_to_manager completed whs both.0 both.1 in
        let (mgr, applied, created) =
          new_mgr-IsSetUp E.kit settings (wrap-eq-ok _ (new_mgr E.kit settings) made0) in
        let (c, wh, loaded, made, one) = make_webhooks-eq-ok m1 {whs = whs} (
          subst
            (λ b.
              make_webhooks E
                ((λ m'. new_shoot_validator_webhook (library E) digest (some fs) m' []) ∷ []) b.0 []
              ≡ ok whs)
            (sym same) webhooks) in
        record {
          source = source;
          target = target;
          cluster = cluster;
          m0 = m0;
          m1 = m1;
          source_read = wrap-eq-ok _ E.kit.get_config read_source;
          source_made = wrap-eq-ok _ clustering made_source;
          target_read = wrap-eq-ok _ building read_target;
          created =
              subst (λ x. IsSetUp E.kit x m0)
                (ok-injective (sym applied ∙ manager_settings-ok ctx source cluster target))
                created;
          checked = wrap-eq-ok _ checking checked;
          collection = c;
          loaded = loaded;
          complete = default_collection-IsComplete digest fs loaded;
          webhook = wh;
          made = made;
          completed = completed;
          options = wrap-eq-ok _ completing options;
          added =
              subst (λ b. E.add_to_manager completed (wh ∷ []) b.0 b.1 ≡ ok m) (sym same)
                (rw one (wrap-eq-ok _ adding h3));
        }
