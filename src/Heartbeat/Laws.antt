-- ===== src/Heartbeat/Laws.antt =====
-- Which heartbeats `New` returns.
use gardener_extension_shoot.Base.{
  ◌≡◌, refl, ap, ◌∙◌, ◌≢◌, ◌↔◌, List, [], Result, ok, arith, >>=-eq-ok, try_options,
}
use gardener_extension_shoot.Heartbeat.{Error, Heartbeat, check_heartbeat, new_heartbeat}

module _ {Duration Clock : Type 0} (interval : Duration) (clock : Clock) where
  -- What the options start from.
  abbrev pub blank : Heartbeat Duration Clock
  blank = record { extension_name = []; namespace = []; renew_interval = interval; clock = clock }

  check_heartbeat_iff :
      (h0 h : Heartbeat Duration Clock)
      → (check_heartbeat h0 ≡ ok h) ↔ ((h0 ≡ h) × (h0.extension_name ≢ []) × (h0.namespace ≢ []))
  unfolding check_heartbeat
  check_heartbeat_iff h0 h = ground arith

  new_heartbeat-eq-ok :
      (opts : List (Heartbeat Duration Clock → Result Error (Heartbeat Duration Clock)))
      {h : Heartbeat Duration Clock}
      → new_heartbeat interval clock opts ≡ ok h
      → (h0 : Heartbeat Duration Clock) × (try_options opts blank ≡ ok h0)
        × (check_heartbeat h0 ≡ ok h)
  unfolding new_heartbeat
  new_heartbeat-eq-ok opts e = >>=-eq-ok (try_options opts blank) check_heartbeat e

  ok-new_heartbeat :
      (opts : List (Heartbeat Duration Clock → Result Error (Heartbeat Duration Clock)))
      {h0 h : Heartbeat Duration Clock}
      → try_options opts blank ≡ ok h0
      → check_heartbeat h0 ≡ ok h
      → new_heartbeat interval clock opts ≡ ok h
  unfolding new_heartbeat
  ok-new_heartbeat opts e k = ground arith

  -- Whatever its options do, `New` returns a heartbeat exactly if they succeed and leave it, with an
  -- extension name and a namespace that are not empty. They start from one with neither, and with
  -- the interval and the clock that are given.
  pub new_heartbeat_iff :
      (opts : List (Heartbeat Duration Clock → Result Error (Heartbeat Duration Clock)))
      (h : Heartbeat Duration Clock)
      → (new_heartbeat interval clock opts ≡ ok h) ↔ (
          (try_options opts (record {
            extension_name = [];
            namespace = [];
            renew_interval = interval;
            clock = clock;
          })
            ≡ ok h)
          × (h.extension_name ≢ [])
          × (h.namespace ≢ []))
  new_heartbeat_iff opts h = (
    λ e.
        let (h0, applied, checked) = new_heartbeat-eq-ok opts e in
        let (same, named, placed) = (check_heartbeat_iff h0 h).0 checked in
        (applied ∙ ap (λ k. ok k) same, rw (← same) named, rw (← same) placed),
    λ (applied, named, placed).
        ok-new_heartbeat opts applied ((check_heartbeat_iff h h).1 (refl, named, placed)),
  )
