-- ===== src/Cmd/Controller/Launch.antt =====
-- The flags of the controller command, as `New` of cmd/extension/controller/controller.go declares them,
-- and the command from the flags that are given on.
use mathlib.Core.Path.{subst}
use gardener_extension_shoot.Base.{
  ◌≡◌, ◌⊎◌, refl, sym, inl, inr, ℕ, Bool, false, Option, none, some, List, [], ◌∷◌, Result, ok, err,
  ◌>>=◌, wrap, Str, codes, All, Any, arith, >>=-eq-ok, wrap-eq-ok, ok-injective, Option-cases,
}
use gardener_extension_shoot.Base.Int.{ℤ, pos}
use gardener_extension_shoot.Base.Dict.{Dict, insert}
use gardener_extension_shoot.Assets.{Fs}
use gardener_extension_shoot.Cmd.Flags.{or_else, flag_value, flag_value-one_of, one_of}
use gardener_extension_shoot.Controller
use gardener_extension_shoot.Cmd.Controller.{
  Env, Flags, Error, runtime, parse_bool, add_feature_gates, prepare,
}
use gardener_extension_shoot.Cmd.Controller.Laws.{IsPrepared, prepare-IsPrepared}

pub data FlagError : Type 0 where
  invalid_log_level invalid_log_format : FlagError
  invalid_feature_gate : Str → FlagError

pub data LaunchError : Type 0 where
  flag_refused : FlagError → LaunchError
  command_failed : Error → LaunchError

-- The action of the flag for the feature gates, on a command with no gates.
unfoldable pub feature_gates : Option (Dict Str) → Result FlagError (Dict Bool)
feature_gates none = ok []
feature_gates (some items) =
    let (failure, gates) = add_feature_gates items [] in
    elim failure [ some val ↦ err (invalid_feature_gate val) | none ↦ ok gates ]

module _ (E : Env) where
  -- The values that the command line and the environment give.
  pub record Given : Type 0 where
    pub log_level : Option Str
    pub log_format : Option Str
    pub extension_name : Option Str
    pub metrics_bind_addr : Option Str
    pub health_probe_bind_addr : Option Str
    pub heartbeat_renew_interval : Option E.T.Duration
    pub heartbeat_namespace : Option Str
    pub leader_election : Option Bool
    pub leader_election_id : Option Str
    pub leader_election_namespace : Option Str
    pub ignore_operation_annotation : Option Bool
    pub max_concurrent_reconciles : Option ℤ
    pub reconciliation_timeout : Option E.T.Duration
    pub resync_interval : Option E.T.Duration
    pub pprof_bind_addr : Option Str
    pub client_conn_qps : Option E.Qps
    pub client_conn_burst : Option E.Burst
    pub gardener_version : Option Str
    pub gardenlet_feature_gates : Option (Dict Str)

  -- The validators of the flags.
  unfoldable pub validate_log_level : Str → Option FlagError
  validate_log_level = one_of invalid_log_level E.all_log_levels

  unfoldable pub validate_log_format : Str → Option FlagError
  validate_log_format = one_of invalid_log_format E.all_log_formats

  -- What the flags hold, with the feature gates that were read: the others are given, or have their
  -- defaults.
  abbrev pub flags_of : Given → Dict Bool → Flags E
  flags_of g gates = record {
    extension_name = or_else (codes "gardener-extension-shoot-pack") g.extension_name;
    metrics_bind_addr = or_else (codes ":8080") g.metrics_bind_addr;
    health_probe_bind_addr = or_else (codes ":8081") g.health_probe_bind_addr;
    heartbeat_renew_interval = or_else E.thirty_seconds g.heartbeat_renew_interval;
    heartbeat_namespace = or_else (codes "gardener-extension-shoot-pack") g.heartbeat_namespace;
    leader_election = or_else false g.leader_election;
    leader_election_id =
        or_else (codes "gardener-extension-shoot-pack-leader-election") g.leader_election_id;
    leader_election_namespace =
        or_else (codes "gardener-extension-shoot-pack") g.leader_election_namespace;
    ignore_operation_annotation = or_else false g.ignore_operation_annotation;
    max_concurrent_reconciles = or_else (pos 5) g.max_concurrent_reconciles;
    reconciliation_timeout = or_else E.kit.default_reconciliation_timeout g.reconciliation_timeout;
    resync_interval = or_else E.thirty_seconds g.resync_interval;
    pprof_bind_addr = or_else [] g.pprof_bind_addr;
    client_conn_qps = or_else E.default_qps g.client_conn_qps;
    client_conn_burst = or_else E.default_burst g.client_conn_burst;
    gardener_version = or_else [] g.gardener_version;
    gardenlet_feature_gates = gates;
  }

  -- The log level, the log format, and the flags that the command reads.
  unfoldable pub parse_flags : Given → Result FlagError (Str × Str × Flags E)
  parse_flags g = do
    level ← flag_value validate_log_level E.info_level g.log_level
    format ← flag_value validate_log_format E.format_text g.log_format
    gates ← feature_gates g.gardenlet_feature_gates
    ok (level, format, flags_of g gates)

  module _ (digest : Str → List ℕ) (fs : Fs)
      (add_extension : Controller.AddArgs (runtime E) → E.T.Manager → Result Str E.T.Manager) where
    -- The command, up to the start of the manager.
    unfoldable pub launch : E.T.Context → Given → Result LaunchError E.T.Manager
    launch ctx g = do
      parsed ← wrap flag_refused (parse_flags g)
      wrap command_failed (prepare E digest fs add_extension ctx parsed.2)

-- Each feature gate that is given has a value that is read as a truth value.
abbrev pub AreReadable : Dict Str → Type 0
AreReadable items = All (λ item. (enabled : Bool) × (parse_bool item.1 ≡ some enabled)) items

add_feature_gates-AreReadable :
    (items : Dict Str) (gates : Dict Bool)
    → (add_feature_gates items gates).0 ≡ none
    → AreReadable items
unfolding add_feature_gates
add_feature_gates-AreReadable [] gates h = tt
add_feature_gates-AreReadable ((feat, val) ∷ items) gates h = elim (Option-cases (parse_bool val)) [
  | inl unread ↦ absurd (ground (arith, unread))
  | inr (enabled, was_read) ↦ (
    (enabled, was_read),
    add_feature_gates-AreReadable items (insert feat enabled gates) (ground (arith, was_read)),
  )
]

feature_gates-none : {gates : Dict Bool} → feature_gates none ≡ ok gates → [] ≡ gates
unfolding feature_gates
feature_gates-none h = ok-injective h

feature_gates-eq-ok :
    (items : Dict Str) {gates : Dict Bool}
    → feature_gates (some items) ≡ ok gates
    → (add_feature_gates items []).0 ≡ none
unfolding feature_gates
feature_gates-eq-ok items h = ground arith

module _ (E : Env) where
  -- The log level and the format are defaults or supported, and the feature gates can be read.
  pub record IsAccepted (g : Given E) (level format : Str) (f : Flags E) : Type 0 where
    pub level_known : (E.info_level ≡ level) ⊎ Any (λ l. level ≡ l) E.all_log_levels
    pub format_known : (E.format_text ≡ format) ⊎ Any (λ l. format ≡ l) E.all_log_formats
    pub gates_read :
        (g.gardenlet_feature_gates ≡ none) × (f.gardenlet_feature_gates ≡ [])
        ⊎ ((items : Dict Str) × (g.gardenlet_feature_gates ≡ some items) × AreReadable items)

  feature_gates-read :
      (given : Option (Dict Str)) {gates : Dict Bool}
      → feature_gates given ≡ ok gates
      → (given ≡ none) × (gates ≡ [])
        ⊎ ((items : Dict Str) × (given ≡ some items) × AreReadable items)
  feature_gates-read none h = inl (refl, sym (feature_gates-none h))
  feature_gates-read (some items) h =
      inr (items, refl, add_feature_gates-AreReadable items [] (feature_gates-eq-ok items h))

  parse_flags-IsAccepted :
      (g : Given E) {r : Str × Str × Flags E} → parse_flags E g ≡ ok r → IsAccepted g r.0 r.1 r.2
  unfolding parse_flags validate_log_level validate_log_format
  parse_flags-IsAccepted g h =
      let (level, level_ok, h1) =
        >>=-eq-ok (flag_value (validate_log_level E) E.info_level g.log_level) _ h in
      let (format, format_ok, h2) =
        >>=-eq-ok (flag_value (validate_log_format E) E.format_text g.log_format) _ h1 in
      let (gates, gates_ok, h3) = >>=-eq-ok (feature_gates g.gardenlet_feature_gates) _ h2 in
      subst (λ r. IsAccepted g r.0 r.1 r.2) (ok-injective h3)
        (record {
          level_known =
              flag_value-one_of invalid_log_level E.all_log_levels E.info_level g.log_level
                level_ok;
          format_known =
              flag_value-one_of invalid_log_format E.all_log_formats E.format_text g.log_format
                format_ok;
          gates_read = feature_gates-read g.gardenlet_feature_gates gates_ok;
        })

  module _ (digest : Str → List ℕ) (fs : Fs)
      (add_extension : Controller.AddArgs (runtime E) → E.T.Manager → Result Str E.T.Manager) where
    -- A manager that the command starts was made, with a log level, a log format and feature gates
    -- that are defaults or were accepted, by `mgr.New` as the flags ask for; its heartbeat renews a
    -- lease with a name and a namespace that are not empty; its ready check waits for its caches; and
    -- it has one controller, named shoot-pack, with the settings of the flags, whose actuator works
    -- with the client of the manager and with the embedded packs, all of them complete.
    pub launch-IsPrepared :
        (ctx : E.T.Context) (g : Given E) {m : E.T.Manager}
        → launch E digest fs add_extension ctx g ≡ ok m
        → (level : Str) × (format : Str) × (f : Flags E) × (parse_flags E g ≡ ok (level, format, f))
          × IsAccepted g level format f
          × IsPrepared E f digest fs add_extension ctx m
    unfolding launch
    launch-IsPrepared ctx g h =
        let (r, parsed, h1) = >>=-eq-ok (wrap flag_refused (parse_flags E g)) _ h in
        let got = wrap-eq-ok _ (parse_flags E g) parsed in
        let prepared = wrap-eq-ok _ (prepare E digest fs add_extension ctx r.2) h1 in
        (
          r.0,
          r.1,
          r.2,
          got,
          parse_flags-IsAccepted g got,
          prepare-IsPrepared E r.2 digest fs add_extension ctx prepared,
        )
