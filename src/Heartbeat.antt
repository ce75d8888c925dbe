-- ===== src/Heartbeat.antt =====
-- pkg/heartbeat/heartbeat.go: the wrapper of the controller that renews a lease. The times and the
-- clock are those of Go and of Kubernetes, so they are parameters.
pub mod Laws
mod Tests
use gardener_extension_shoot.Base.{
  ℕ, Bool, true, false, List, [], ◌∷◌, Result, ok, err, ◌>>=◌, if◌then◌else◌, Str, codes, ◌==◌,
  try_options,
}
use gardener_extension_shoot.Base.Int.{ℤ}

pub data Error : Type 0 where
  missing_extension_name : Error
  missing_lease_namespace : Error
  option_failed : Str → Error

module _ (Duration Clock : Type 0) where
  pub record Heartbeat : Type 0 where
    pub extension_name : Str
    pub namespace : Str
    pub renew_interval : Duration
    pub clock : Clock

  -- `heartbeatcontroller.AddArgs`
  pub record AddArgs : Type 0 where
    pub extension_name : Str
    pub namespace : Str
    pub renew_interval_seconds : ℤ
    pub clock : Clock

module _ {Duration Clock : Type 0} where
  -- `WithExtensionName`
  unfoldable pub with_extension_name :
      Str → Heartbeat Duration Clock → Result Error (Heartbeat Duration Clock)
  with_extension_name name h = ok (record h { extension_name = name })

  -- `WithLeaseNamespace`
  unfoldable pub with_lease_namespace :
      Str → Heartbeat Duration Clock → Result Error (Heartbeat Duration Clock)
  with_lease_namespace namespace h = ok (record h { namespace = namespace })

  -- `WithRenewInterval`
  unfoldable pub with_renew_interval :
      Duration → Heartbeat Duration Clock → Result Error (Heartbeat Duration Clock)
  with_renew_interval interval h = ok (record h { renew_interval = interval })

  -- `WithClock`
  unfoldable pub with_clock :
      Clock → Heartbeat Duration Clock → Result Error (Heartbeat Duration Clock)
  with_clock clk h = ok (record h { clock = clk })

  -- The tests at the end of `New`.
  unfoldable pub check_heartbeat :
      Heartbeat Duration Clock → Result Error (Heartbeat Duration Clock)
  check_heartbeat h =
      if h.extension_name == []
      then err missing_extension_name
      else if h.namespace == []
      then err missing_lease_namespace
      else ok h

  -- `New`, with the interval of 30 seconds and the real clock.
  unfoldable pub new_heartbeat :
      Duration
      → Clock
      → List (Heartbeat Duration Clock → Result Error (Heartbeat Duration Clock))
      → Result Error (Heartbeat Duration Clock)
  new_heartbeat thirty_seconds real_clock opts = do
    h ← try_options opts (record {
      extension_name = [];
      namespace = [];
      renew_interval = thirty_seconds;
      clock = real_clock;
    })
    check_heartbeat h

  -- The arguments that `SetupWithManager` adds the controller with; `seconds` is
  -- `int32(d.Seconds())`.
  unfoldable pub setup_with_manager :
      (Duration → ℤ) → Heartbeat Duration Clock → AddArgs Duration Clock
  setup_with_manager seconds h = record {
    extension_name = h.extension_name;
    namespace = h.namespace;
    renew_interval_seconds = seconds h.renew_interval;
    clock = h.clock;
  }
