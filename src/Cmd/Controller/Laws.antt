-- ===== src/Cmd/Controller/Laws.antt =====
-- What the controller manager that the command starts has been through.
use mathlib.Core.Path.{subst}
use gardener_extension_shoot.Base.{
  ◌≡◌, ◌≢◌, refl, sym, ◌∙◌, ℕ, true, false, some, List, [], ◌∷◌, Result, ok, arith, wrap, Str,
  codes, str_dec, All, >>=-eq-ok, wrap-eq-ok, ok-injective, try_options,
}
use gardener_extension_shoot.Base.Dict.{insert}
use gardener_extension_shoot.Assets.{Fs, Collection}
use gardener_extension_shoot.Assets.New.{new_collection, with_skip_verify}
use gardener_extension_shoot.Assets.New.Whole.{default_collection-IsComplete}
use gardener_extension_shoot.Assets.Verify.{IsComplete}
use gardener_extension_shoot.Mgr
use gardener_extension_shoot.Mgr.{new_mgr, initial}
use gardener_extension_shoot.Mgr.Laws.{IsSetUp, new_mgr-IsSetUp}
use gardener_extension_shoot.Mgr.Options.{
  with_context, with_add_to_scheme, with_install_scheme, with_metrics_address,
  with_health_probe_address, with_leader_election, with_leader_election_id,
  with_leader_election_namespace, with_max_concurrent_reconciles, with_reconciliation_timeout,
  with_healthz_check, with_readyz_check, with_pprof_address, with_connection_configuration,
}
use gardener_extension_shoot.Heartbeat
use gardener_extension_shoot.Heartbeat.{
  new_heartbeat, check_heartbeat, with_extension_name, with_lease_namespace, with_renew_interval,
}
use gardener_extension_shoot.Controller
use gardener_extension_shoot.Controller.{new_controller, check_controller}
use gardener_extension_shoot.Actuator.New.{
  new_actuator, with_defaults, with_decoder, with_gardener_version, with_gardenlet_features,
  with_pack_collection,
}
use gardener_extension_shoot.Cmd.Controller.{
  Env, runtime, Flags, heartbeat_failed, heartbeat_setup_failed, manager_failed, collection_failed,
  actuator_failed, controller_failed, manager_settings, heartbeat_of, get_manager, ActuatorOf,
  actuator_of, controller_of, prepare,
}

module _ (E : Env) (f : Flags E) where
  -- The manager that the flags ask for.
  abbrev pub manager_of : E.T.Context → Mgr.Mgr E.T
  manager_of ctx = record (initial E.kit) {
    base_ctx_func = ctx;
    add_to_schemes = E.client_go_scheme ∷ E.extensions_scheme ∷ E.resources_scheme ∷ [];
    install_schemes = E.config_install ∷ [];
    metrics_server_opts = record {
      bind_address = f.metrics_bind_addr;
      others = E.kit.no_metrics_others;
    };
    health_probe_addr = f.health_probe_bind_addr;
    leader_election_enabled = f.leader_election;
    leader_election_id = f.leader_election_id;
    leader_election_namespace = f.leader_election_namespace;
    controller_opts = record {
      max_concurrent_reconciles = f.max_concurrent_reconciles;
      reconciliation_timeout = f.reconciliation_timeout;
      recover_panic = some true;
      others = E.kit.no_controller_others;
    };
    healthz_checks = (codes "healthz", E.ping) ∷ [];
    readyz_checks = (codes "readyz", E.ping) ∷ [];
    pprof_addr = f.pprof_bind_addr;
    client_conn_config = some (E.client_connection f.client_conn_qps f.client_conn_burst);
  }

  manager_settings-ok :
      (ctx : E.T.Context)
      → try_options (manager_settings E ctx f) (initial E.kit) ≡ ok (manager_of ctx)
  unfolding initial insert with_context with_add_to_scheme with_install_scheme with_metrics_address
      with_health_probe_address with_leader_election with_leader_election_id
      with_leader_election_namespace with_max_concurrent_reconciles with_reconciliation_timeout
      with_healthz_check with_readyz_check with_pprof_address with_connection_configuration
  manager_settings-ok ctx = refl

  -- The heartbeat that the flags ask for.
  abbrev pub heartbeat_args : Heartbeat.AddArgs E.T.Duration E.Clock
  heartbeat_args = record {
    extension_name = f.extension_name;
    namespace = f.heartbeat_namespace;
    renew_interval_seconds = E.seconds f.heartbeat_renew_interval;
    clock = E.real_clock;
  }

  heartbeat_of-eq-ok :
      {hb : Heartbeat.Heartbeat E.T.Duration E.Clock}
      → heartbeat_of E f ≡ ok hb
      → (f.extension_name ≢ [])
        × (f.heartbeat_namespace ≢ [])
        × (heartbeat_args ≡ Heartbeat.setup_with_manager E.seconds hb)
  unfolding new_heartbeat check_heartbeat with_extension_name with_lease_namespace
      with_renew_interval Heartbeat.setup_with_manager
  heartbeat_of-eq-ok h = ground arith

  -- The actuator that the flags ask for.
  abbrev pub actuator_with : E.Client → E.T.Manager → Collection → ActuatorOf E
  actuator_with client m c = record {
    client = client;
    decoder = some (E.manager_decoder m);
    resource_factory = E.factory;
    collection = some c;
    gardener_version = f.gardener_version;
    gardenlet_feature_gates = f.gardenlet_feature_gates;
  }

  -- What the controller of that actuator is added to the manager with.
  abbrev pub controller_args : ActuatorOf E → Controller.AddArgs (runtime E)
  controller_args act = record {
    actuator = some act;
    name = codes "shoot-pack";
    finalizer_suffix = codes "gardener-extension-shoot-pack";
    controller_options = record {
      max_concurrent_reconciles = f.max_concurrent_reconciles;
      reconciliation_timeout = f.reconciliation_timeout;
      recover_panic = some true;
      others = E.no_others;
    };
    predicates = E.default_predicates f.ignore_operation_annotation;
    resync = f.resync_interval;
    extension_type = codes "shoot-pack";
    watch_builder = E.no_watches;
    ignore_operation_annotation = f.ignore_operation_annotation;
    extension_classes = E.extension_class_shoot ∷ [];
  }

  module _ (digest : Str → List ℕ) (fs : Fs) where
    actuator_of-eq-ok :
        (m : E.T.Manager) (c : Collection) {act : ActuatorOf E}
        → actuator_of E digest fs f m c ≡ ok act
        → (client : E.Client) × (E.get_client m ≡ some client) × (actuator_with client m c ≡ act)
    unfolding new_actuator with_defaults with_decoder with_gardener_version with_gardenlet_features
        with_pack_collection
    actuator_of-eq-ok m c h = ground arith

    -- The controller is made whatever the flags are.
    controller_of-ok :
        (act : ActuatorOf E)
        → (c : Controller.Controller (runtime E)) × (controller_of E digest fs f act ≡ ok c)
          × (controller_args act ≡ (Controller.setup_with_manager (runtime E) c).1)
    unfolding new_controller check_controller Controller.initial Controller.with_actuator
        Controller.with_name Controller.with_extension_type Controller.with_finalizer_suffix
        Controller.with_extension_class Controller.with_ignore_operation_annotation
        Controller.with_resync_interval Controller.with_max_concurrent_reconciles
        Controller.with_reconciliation_timeout Controller.setup_with_manager str_dec
    controller_of-ok act = (_, refl, refl)

    module _
        (add_extension : Controller.AddArgs (runtime E)
          → E.T.Manager
          → Result Str E.T.Manager) where
      -- What has been done to a manager before it is started: `m0` is the manager that `mgr.New` made,
      -- and `m1` and `m2` are what the heartbeat and the check of the caches made of it.
      pub record IsPrepared (ctx : E.T.Context) (m : E.T.Manager) : Type 0 where
        pub m0 : E.T.Manager
        pub m1 : E.T.Manager
        pub m2 : E.T.Manager
        pub created : IsSetUp E.kit (manager_of ctx) m0
        pub named : f.extension_name ≢ []
        pub placed : f.heartbeat_namespace ≢ []
        pub beating : E.add_heartbeat heartbeat_args m0 ≡ ok m1
        pub checked : E.kit.add_readyz_check (codes "informer-sync") (E.cache_sync m1) m1 ≡ ok m2
        pub collection : Collection
        pub loaded : new_collection digest (some fs) (with_skip_verify false ∷ []) ≡ ok collection
        pub complete : All (IsComplete digest) collection.packs
        pub client : E.Client
        pub connected : E.get_client m2 ≡ some client
        pub added : add_extension (controller_args (actuator_with client m2 collection)) m2 ≡ ok m

      -- A manager that the command starts was made by `mgr.New` as the flags ask for; its heartbeat
      -- renews a lease with a name and a namespace that are not empty; its ready check waits for its
      -- caches; and it has one controller, named shoot-pack, with the settings of the flags, whose
      -- actuator works with the client of the manager and with the embedded packs, all of them
      -- complete.
      pub prepare-IsPrepared :
          (ctx : E.T.Context) {m : E.T.Manager}
          → prepare E digest fs add_extension ctx f ≡ ok m
          → IsPrepared ctx m
      unfolding prepare get_manager
      prepare-IsPrepared ctx h =
          let (m2, got, h1) = >>=-eq-ok (get_manager E ctx f) _ h in
          let (m0, made, g1) =
            >>=-eq-ok (wrap manager_failed (new_mgr E.kit (manager_settings E ctx f))) _ got in
          let (hb, beats, g2) = >>=-eq-ok (wrap heartbeat_failed (heartbeat_of E f)) _ g1 in
          let adding = E.add_heartbeat (Heartbeat.setup_with_manager E.seconds hb) m0 in
          let (m1, beating, g3) = >>=-eq-ok (wrap heartbeat_setup_failed adding) _ g2 in
          let (named, placed, same_args) =
            heartbeat_of-eq-ok (wrap-eq-ok _ (heartbeat_of E f) beats) in
          let reading = new_collection digest (some fs) (with_skip_verify false ∷ []) in
          let (c, loaded, h2) = >>=-eq-ok (wrap collection_failed reading) _ h1 in
          let acting = actuator_of E digest fs f m2 c in
          let (act, acts, h3) = >>=-eq-ok (wrap actuator_failed acting) _ h2 in
          let (client, connected, same_act) = actuator_of-eq-ok m2 c (wrap-eq-ok _ acting acts) in
          let (con, makes, same_con) = controller_of-ok act in
          let (con', makes', h4) =
            >>=-eq-ok (wrap controller_failed (controller_of E digest fs f act)) _ h3 in
          let same' =
            ok-injective (sym makes ∙ wrap-eq-ok _ (controller_of E digest fs f act) makes') in
          let (mgr, applied, created) =
            new_mgr-IsSetUp E.kit (manager_settings E ctx f)
              (wrap-eq-ok _ (new_mgr E.kit (manager_settings E ctx f)) made) in
          record {
            m0 = m0;
            m1 = m1;
            m2 = m2;
            created =
                subst (λ x. IsSetUp E.kit x m0)
                  (ok-injective (sym applied ∙ manager_settings-ok ctx)) created;
            named = named;
            placed = placed;
            beating = rw same_args (wrap-eq-ok _ adding beating);
            checked =
                wrap-eq-ok _ (E.kit.add_readyz_check (codes "informer-sync") (E.cache_sync m1) m1)
                  g3;
            collection = c;
            loaded = wrap-eq-ok _ reading loaded;
            complete = default_collection-IsComplete digest fs (wrap-eq-ok _ reading loaded);
            client = client;
            connected = connected;
            added =
                rw (same_act, same_con, same')
                  (wrap-eq-ok _
                    (add_extension (Controller.setup_with_manager (runtime E) con').1 m2) h4);
          }
