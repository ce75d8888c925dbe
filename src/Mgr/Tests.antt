-- ===== src/Mgr/Tests.antt =====
-- A manager over numbers for what is handed on, which keeps what is added to it.
use gardener_extension_shoot.Base.{
  ◌≡◌, refl, ℕ, some, List, [], ◌∷◌, ◌++◌, Result, ok, err, codes, try_options,
}
use gardener_extension_shoot.Base.Dict.{insert}
use gardener_extension_shoot.Mgr.{
  Types, Mgr, Kit, Error, run_all, install_all, initial, create_manager, configure, new_mgr,
}
use gardener_extension_shoot.Mgr.Options.{
  with_config, with_readyz_check, with_healthz_check, with_runnable,
}
use gardener_extension_shoot.Mgr.Laws.{IsSetUp, new_mgr-IsSetUp}

abbrev pub T : Types
T = record {
  Scheme = ℕ;
  RestConfig = ℕ;
  Handler = ℕ;
  Checker = ℕ;
  Runnable = ℕ;
  WebhookServer = ℕ;
  Context = ℕ;
  Logger = ℕ;
  ClientOptions = ℕ;
  CacheOptions = ℕ;
  ConnectionConfig = ℕ;
  Duration = ℕ;
  MetricsOthers = ℕ;
  ControllerOthers = ℕ;
  Manager = List ℕ;
}

abbrev pub K : Kit T
K = record {
  new_scheme = 0;
  background = 0;
  default_reconciliation_timeout = 180;
  no_metrics_others = 0;
  no_controller_others = 0;
  no_logger = 0;
  no_client_options = 0;
  no_cache_options = 0;
  get_config = err (codes "no config");
  apply_connection = λ settings c. c;
  leases_resource_lock = codes "leases";
  new_manager = λ c opts. ok (c ∷ []);
  add_healthz_check = λ name checker r. ok (r ++ (checker ∷ []));
  add_readyz_check = λ name checker r. ok (r ++ (checker ∷ []));
  add_handler = λ path handler r. ok (r ++ (handler ∷ []));
  add = λ runnable r. ok (r ++ (runnable ∷ []));
}

abbrev settings : List (Mgr T → Result Error (Mgr T))
settings =
    with_runnable 4
    ∷ with_readyz_check (codes "r") 3
    ∷ with_healthz_check (codes "h") 2
    ∷ with_config (some 1)
    ∷ []

run_new : new_mgr K settings ≡ ok (1 ∷ 2 ∷ 3 ∷ 4 ∷ [])
unfolding new_mgr create_manager configure run_all install_all initial with_runnable
    with_readyz_check with_healthz_check with_config insert
run_new = refl

new_mgr-IsSetUp_example :
    (m : Mgr T) × (try_options settings (initial K) ≡ ok m) × IsSetUp K m (1 ∷ 2 ∷ 3 ∷ 4 ∷ [])
new_mgr-IsSetUp_example = new_mgr-IsSetUp K settings run_new
