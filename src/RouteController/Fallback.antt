-- ===== src/RouteController/Fallback.antt =====
-- A fallback of src/net/routeController.ts lasts for its two minutes.
use nkc.Base.{ℕ, ◌+◌, ◌≤◌, ◌<◌, ◌≡◌, refl, true, List, [], ◌∷◌, ltb, arith}
use nkc.RouteController.{
  Controller, Event, NetConfig, self_onion, onion_router, hold_ms, report_ack, report_send_fail,
  track_rtt, track_send_event, report_route_build_fail, report_relay_pool_size, should_fallback,
  decide_self_onion, decide_transport, handle, run, acks, send_fails, build_fails, pool_has,
  decides,
}

should_fallback-until :
    (config : NetConfig) (now : ℕ) (c : Controller)
    → (should_fallback config now c).1.fallback_until ≡ c.fallback_until
unfolding should_fallback
should_fallback-until config now c = ground arith

decide_self_onion-le :
    (config : NetConfig) (now : ℕ) (c : Controller)
    → c.fallback_until ≤ (decide_self_onion config now c).1.fallback_until
unfolding decide_self_onion
decide_self_onion-le config now c = ground (arith, should_fallback-until config now c)

decide_transport-le :
    (config : NetConfig) (now : ℕ) (c : Controller)
    → c.fallback_until ≤ (decide_transport config now c).1.fallback_until
unfolding decide_transport
decide_transport-le config now c = ground (arith, decide_self_onion-le config now c)

handle-le : (x : Event) (c : Controller) → c.fallback_until ≤ (handle x c).fallback_until
unfolding handle report_ack report_send_fail track_rtt track_send_event report_route_build_fail
    report_relay_pool_size
handle-le (acks rtt) c = omega arith
handle-le send_fails c = omega arith
handle-le build_fails c = omega arith
handle-le (pool_has n) c = omega arith
handle-le (decides config now) c = decide_transport-le config now c

run-le : (xs : List Event) (c : Controller) → c.fallback_until ≤ (run xs c).fallback_until
unfolding run
run-le [] c = omega arith
run-le (x ∷ xs) c = omega (arith, handle-le x c, run-le xs (handle x c))

falls_back-until :
    (config : NetConfig) (now : ℕ) (c : Controller)
    → config.mode ≡ self_onion
    → config.self_onion_enabled ≡ true
    → c.fallback_until ≤ now
    → (decide_transport config now c).0 ≡ onion_router
    → (decide_transport config now c).1.fallback_until ≡ now + hold_ms
unfolding decide_transport decide_self_onion
falls_back-until config now c mode enabled over falls = ground arith

-- A decision while a fallback lasts.
held :
    (config : NetConfig) (later : ℕ) (c : Controller)
    → config.mode ≡ self_onion
    → config.self_onion_enabled ≡ true
    → later < c.fallback_until
    → decide_transport config later c ≡ (onion_router, c)
unfolding decide_transport decide_self_onion
held config later c mode enabled lasts = rw (mode, decide_transport) (simp (enabled, until) refl)
  where
    until : ltb later c.fallback_until ≡ true
    until = ground arith

-- When a decision for the self-built onion, made after any earlier fallback is over, falls back to
-- the onion router, then every decision within the next two minutes falls back as well, whatever
-- has been reported and decided in between.
pub decide_transport-holds :
    (config : NetConfig) (now later : ℕ) (xs : List Event) (c : Controller)
    → config.mode ≡ self_onion
    → config.self_onion_enabled ≡ true
    → c.fallback_until ≤ now
    → (decide_transport config now c).0 ≡ onion_router
    → later < now + hold_ms
    → let after = run xs (decide_transport config now c).1 in
      decide_transport config later after ≡ (onion_router, after)
decide_transport-holds config now later xs c mode enabled over falls soon =
    held config later (run xs (decide_transport config now c).1) mode enabled (
      omega (
        arith,
        run-le xs (decide_transport config now c).1,
        falls_back-until config now c mode enabled over falls,
      ))
