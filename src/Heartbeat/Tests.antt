-- ===== src/Heartbeat/Tests.antt =====
-- Heartbeats over numbers for durations and clocks.
use gardener_extension_shoot.Base.{
  ◌≡◌, refl, ◌≢◌, ◌↔◌, ℕ, List, [], ◌∷◌, Result, ok, err, codes, str_dec, try_options,
}
use gardener_extension_shoot.Heartbeat.{
  Error, missing_lease_namespace, Heartbeat, new_heartbeat, check_heartbeat, with_extension_name,
  with_lease_namespace,
}
use gardener_extension_shoot.Heartbeat.Laws.{new_heartbeat_iff}

abbrev beat : Heartbeat ℕ ℕ
beat = record {
  extension_name = codes "ext";
  namespace = codes "garden";
  renew_interval = 30;
  clock = 0;
}

abbrev settings : List (Heartbeat ℕ ℕ → Result Error (Heartbeat ℕ ℕ))
settings = with_extension_name (codes "ext") ∷ with_lease_namespace (codes "garden") ∷ []

run_beat : new_heartbeat 30 0 settings ≡ ok beat
unfolding new_heartbeat check_heartbeat with_extension_name with_lease_namespace str_dec
run_beat = refl

run_nowhere :
    new_heartbeat {Duration = ℕ} {Clock = ℕ} 30 0 (with_extension_name (codes "ext") ∷ [])
    ≡ err missing_lease_namespace
unfolding new_heartbeat check_heartbeat with_extension_name str_dec
run_nowhere = refl

new_heartbeat_iff_example : (new_heartbeat 30 0 settings ≡ ok beat) ↔ (
    (try_options settings
        (record { extension_name = []; namespace = []; renew_interval = 30; clock = 0 })
      ≡ ok beat)
    × (beat.extension_name ≢ [])
    × (beat.namespace ≢ []))
new_heartbeat_iff_example = new_heartbeat_iff 30 0 settings beat
