-- ===== src/Mgr/Laws.antt =====
-- What the manager that `New` returns has been through.
use mathlib.Core.Path.{subst}
use gardener_extension_shoot.Base.{
  ok-injective, ◌≡◌, refl, ap, ◌⊎◌, inl, inr, Option, none, some, List, [], ◌∷◌, Result, ok, wrap,
  wrap-eq-ok, >>=-eq-ok, Str, try_options,
}
use gardener_extension_shoot.Mgr.{
  Types, Mgr, Kit, ManagerOptions, Error, scheme_failed, healthz_failed, readyz_failed,
  handler_failed, run_all, install_all, entry_call, initial, rest_config_of, manager_options,
  create_manager, configure, new_mgr,
}

-- Each item has been handed to the call, in the order of the list, and each call has succeeded.
pub data AreAdded {A S : Type 0} (call : A → S → Result Str S) : List A → S → S → Type 0 where
  done : {s : S} → AreAdded call [] s s
  next :
      {a : A} {rest : List A} {s s' t : S}
      → call a s ≡ ok s'
      → AreAdded call rest s' t
      → AreAdded call (a ∷ rest) s t

run_all-AreAdded :
    {A S : Type 0} (call : A → S → Result Str S) (items : List A) (s : S) {t : S}
    → run_all call items s ≡ ok t
    → AreAdded call items s t
unfolding run_all
run_all-AreAdded call [] s h = subst (AreAdded call [] s) (ok-injective h) done
run_all-AreAdded call (a ∷ rest) s h =
    let (s', first, h') = >>=-eq-ok (call a s) (λ s'. run_all call rest s') h in
    next first (run_all-AreAdded call rest s' h')

-- Each of the functions has been applied to what the one before it made, in the order of the list.
pub data AreInstalled {S : Type 0} : List (S → S) → S → S → Type 0 where
  installed : {s : S} → AreInstalled [] s s
  install :
      {f : S → S} {rest : List (S → S)} {s t : S}
      → AreInstalled rest (f s) t
      → AreInstalled (f ∷ rest) s t

install_all-AreInstalled :
    {S : Type 0} (fs : List (S → S)) (s : S) → AreInstalled fs s (install_all fs s)
unfolding install_all
install_all-AreInstalled [] s = installed
install_all-AreInstalled (f ∷ fs) s = install (install_all-AreInstalled fs (f s))

module _ {T : Types} (K : Kit T) where
  -- The options of a manager are the settings of `mgr` and the scheme, with leases for the lock.
  pub record AreOptionsOf (m : Mgr T) (s : T.Scheme) (opts : ManagerOptions T) : Type 0 where
    pub scheme : opts.scheme ≡ s
    pub metrics : opts.metrics ≡ m.metrics_server_opts
    pub health_probe_bind_address : opts.health_probe_bind_address ≡ m.health_probe_addr
    pub leader_election : opts.leader_election ≡ m.leader_election_enabled
    pub leader_election_id : opts.leader_election_id ≡ m.leader_election_id
    pub leader_election_namespace : opts.leader_election_namespace ≡ m.leader_election_namespace
    pub leader_election_resource_lock : opts.leader_election_resource_lock ≡ K.leases_resource_lock
    pub leader_election_config : opts.leader_election_config ≡ m.leader_election_config
    pub base_context : opts.base_context ≡ m.base_ctx_func
    pub controller : opts.controller ≡ m.controller_opts
    pub webhook_server : opts.webhook_server ≡ m.webhook_server
    pub logger : opts.logger ≡ m.logger
    pub pprof_bind_address : opts.pprof_bind_address ≡ m.pprof_addr
    pub client : opts.client ≡ m.client_opts
    pub cache : opts.cache ≡ m.cache_opts

  manager_options-AreOptionsOf :
      (m : Mgr T) (s : T.Scheme) → AreOptionsOf m s (manager_options K m s)
  manager_options-AreOptionsOf m s = record {
    scheme = refl;
    metrics = refl;
    health_probe_bind_address = refl;
    leader_election = refl;
    leader_election_id = refl;
    leader_election_namespace = refl;
    leader_election_resource_lock = refl;
    leader_election_config = refl;
    base_context = refl;
    controller = refl;
    webhook_server = refl;
    logger = refl;
    pprof_bind_address = refl;
    client = refl;
    cache = refl;
  }

  -- The configuration that is given, or else that of the environment.
  abbrev pub IsRestConfig : Option T.RestConfig → T.RestConfig → Type 0
  IsRestConfig given rest = (given ≡ some rest) ⊎ ((given ≡ none) × (K.get_config ≡ ok rest))

  rest_config_of-IsRestConfig :
      (given : Option T.RestConfig) {rest : T.RestConfig}
      → rest_config_of K given ≡ ok rest
      → IsRestConfig given rest
  rest_config_of-IsRestConfig none h = inr (refl, wrap-eq-ok _ K.get_config h)
  rest_config_of-IsRestConfig (some c) h = inl (ap (λ d. some d) (ok-injective h))

  -- The manager was created from the options, and then all that they ask for was added to it.
  pub record IsSetUp (m : Mgr T) (r : T.Manager) : Type 0 where
    pub scheme : T.Scheme
    pub schemes_added : AreAdded (λ f s. f s) m.add_to_schemes m.scheme scheme
    pub rest : T.RestConfig
    pub rest_chosen : IsRestConfig m.rest_config rest
    pub installed_scheme : T.Scheme
    pub schemes_installed : AreInstalled m.install_schemes scheme installed_scheme
    pub options : ManagerOptions T
    pub options_set : AreOptionsOf m installed_scheme options
    pub r0 : T.Manager
    pub r1 : T.Manager
    pub r2 : T.Manager
    pub r3 : T.Manager
    pub created : K.new_manager (K.apply_connection m.client_conn_config rest) options ≡ ok r0
    pub healthz : AreAdded (entry_call K.add_healthz_check) m.healthz_checks r0 r1
    pub readyz : AreAdded (entry_call K.add_readyz_check) m.readyz_checks r1 r2
    pub handlers : AreAdded (entry_call K.add_handler) m.extra_metrics_handlers r2 r3
    pub runnables : AreAdded K.add m.runnables r3 r

  create_manager-eq-ok :
      (m : Mgr T) {r : T.Manager}
      → create_manager K m ≡ ok r
      → (scheme : T.Scheme) × (rest : T.RestConfig) × AreAdded
          (λ f s. f s)
          m.add_to_schemes
          m.scheme
          scheme
        × (rest_config_of K m.rest_config ≡ ok rest)
        × (K.new_manager
              (K.apply_connection m.client_conn_config rest)
              (manager_options K m (install_all m.install_schemes scheme))
            ≡ ok r)
  unfolding create_manager
  create_manager-eq-ok m h =
      let adding = run_all (λ f s. f s) m.add_to_schemes m.scheme in
      let (scheme, added, h1) = >>=-eq-ok (wrap scheme_failed adding) _ h in
      let (rest, chosen, h2) = >>=-eq-ok (rest_config_of K m.rest_config) _ h1 in
      (
        scheme,
        rest,
        run_all-AreAdded _ m.add_to_schemes m.scheme (wrap-eq-ok _ adding added),
        chosen,
        wrap-eq-ok _ (K.new_manager _ _) h2,
      )

  configure-eq-ok :
      (m : Mgr T) (r0 : T.Manager) {r : T.Manager}
      → configure K m r0 ≡ ok r
      → (r1 r2 r3 : T.Manager) × AreAdded (entry_call K.add_healthz_check) m.healthz_checks r0 r1
        × AreAdded (entry_call K.add_readyz_check) m.readyz_checks r1 r2
        × AreAdded (entry_call K.add_handler) m.extra_metrics_handlers r2 r3
        × AreAdded K.add m.runnables r3 r
  unfolding configure
  configure-eq-ok m r0 h =
      let healthz = run_all (entry_call K.add_healthz_check) m.healthz_checks r0 in
      let (r1, a1, h1) = >>=-eq-ok (wrap healthz_failed healthz) _ h in
      let readyz = run_all (entry_call K.add_readyz_check) m.readyz_checks r1 in
      let (r2, a2, h2) = >>=-eq-ok (wrap readyz_failed readyz) _ h1 in
      let handlers = run_all (entry_call K.add_handler) m.extra_metrics_handlers r2 in
      let (r3, a3, h3) = >>=-eq-ok (wrap handler_failed handlers) _ h2 in
      (
        r1,
        r2,
        r3,
        run_all-AreAdded _ m.healthz_checks r0 (wrap-eq-ok _ healthz a1),
        run_all-AreAdded _ m.readyz_checks r1 (wrap-eq-ok _ readyz a2),
        run_all-AreAdded _ m.extra_metrics_handlers r2 (wrap-eq-ok _ handlers a3),
        run_all-AreAdded _ m.runnables r3 (wrap-eq-ok _ (run_all K.add m.runnables r3) h3),
      )

  -- A manager that `New` returns is created from what its options leave: each of its options is the
  -- setting of that name, its lock is that of leases, its scheme has been through the functions that
  -- register schemes and then through those that install them, and the connection settings are
  -- applied to the configuration that is set or else is that of the environment. Then the health checks, the ready checks, the handlers and the runnables have all
  -- been added to it, in that order.
  pub new_mgr-IsSetUp :
      (opts : List (Mgr T → Result Error (Mgr T))) {r : T.Manager}
      → new_mgr K opts ≡ ok r
      → (m : Mgr T) × (try_options opts (initial K) ≡ ok m) × IsSetUp m r
  unfolding new_mgr
  new_mgr-IsSetUp opts h =
      let (m, applied, h1) = >>=-eq-ok (try_options opts (initial K)) _ h in
      let (r0, created, h2) = >>=-eq-ok (create_manager K m) (configure K m) h1 in
      let (scheme, rest, added, chosen, made) = create_manager-eq-ok m created in
      let (r1, r2, r3, a1, a2, a3, a4) = configure-eq-ok m r0 h2 in
      (
        m,
        applied,
        record {
          scheme = scheme;
          schemes_added = added;
          rest = rest;
          rest_chosen = rest_config_of-IsRestConfig m.rest_config chosen;
          installed_scheme = install_all m.install_schemes scheme;
          schemes_installed = install_all-AreInstalled m.install_schemes scheme;
          options = manager_options K m (install_all m.install_schemes scheme);
          options_set = manager_options-AreOptionsOf m (install_all m.install_schemes scheme);
          r0 = r0;
          r1 = r1;
          r2 = r2;
          r3 = r3;
          created = made;
          healthz = a1;
          readyz = a2;
          handlers = a3;
          runnables = a4;
        },
      )
