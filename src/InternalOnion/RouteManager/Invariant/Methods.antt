-- ===== src/InternalOnion/RouteManager/Invariant/Methods.antt =====
-- The public methods of the route manager keep its invariant.
use nkc.Base.{
  ℕ, ◌-◌, ◌≡◌, arith, refl, ◌∙◌, Bool, true, false, Option, none, some, List, [], String, ◌==◌,
  ◌&&◌, if◌then◌else◌,
}
use nkc.InternalOnion.{HopPong, HopStatus}
use nkc.InternalOnion.RouteManager.{
  Config, Env, Manager, PendingPing, clamp_desired_hops, with_hops, update_hop, handle_ping_pong,
  find_ping, delete_ping, is_circuit,
}
use nkc.InternalOnion.RouteManager.Steps.{build_route, start, rebuild, rebuild_route, is_ready}
use nkc.InternalOnion.RouteManager.Invariant.Lists.{length-update_hop}
use nkc.InternalOnion.RouteManager.Invariant.Builds.{
  Sound, rerouted-Sound, clamp_bounds, build_route_internal-Sound,
}

module _ (c : Config) where
  pub without_ping :
      (m : Manager) (ps : List PendingPing) → Sound c m → Sound c (record m { pending_pings = ps })
  without_ping m ps v = record {
    counted = v.counted;
    sized = v.sized;
    agreed = v.agreed;
    at_least_one = v.at_least_one;
    at_most_six = v.at_most_six;
    in_range = v.in_range;
    quiet = v.quiet;
    fits = record { entries = v.fits.entries; queue = v.fits.queue };
  }

  pub handle_ping_pong-Sound :
      (e : Env) (msg : HopPong) (m : Manager) → Sound c m → Sound c (handle_ping_pong e msg m)
  unfolding handle_ping_pong with_hops
  handle_ping_pong-Sound e msg m v =
      by_tests (is_circuit m.circuit msg.circuit_id) (find_ping msg.hop_index m.pending_pings)
    where
      by_tests :
          (current : Bool) (o : Option PendingPing)
          → Sound c (
              if current
              then elim o [
                | none ↦ m
                | some p ↦ record m {
                  pending_pings = delete_ping msg.hop_index m.pending_pings;
                  route =
                      with_hops e.now
                        (update_hop msg.hop_index
                          (λ h. record h {
                            status = HopStatus.ok;
                            last_seen_ts = some msg.ts;
                            rtt_ms = some (e.now - p.sent_ts);
                          })
                          m.route.hops)
                        m.route;
                }
              ]
              else m)
      by_tests false o = v
      by_tests true none = v
      by_tests true (some p) =
          let w =
            rerouted-Sound c m
              (with_hops e.now
                (update_hop msg.hop_index
                  (λ h. record h {
                    status = HopStatus.ok;
                    last_seen_ts = some msg.ts;
                    rtt_ms = some (e.now - p.sent_ts);
                  })
                  m.route.hops)
                m.route)
              refl (length-update_hop msg.hop_index _ m.route.hops ∙ v.sized) refl v in
          without_ping _ (delete_ping msg.hop_index m.pending_pings) w

  pub build_route-Sound :
      (e : Env) (n : ℕ) (m : Manager) → m.jobs ≡ [] → Sound c m → Sound c (build_route c e n m)
  unfolding build_route
  build_route-Sound e n m none_left v =
      build_route_internal-Sound c e _ false "BUILD_FAILED" m none_left v.in_range v.quiet

  pub start-Sound :
      (e : Env) (n : ℕ) (m : Manager) → m.jobs ≡ [] → Sound c m → Sound c (start c e n m)
  unfolding start build_route
  start-Sound e n m none_left v =
      by_test ((clamp_desired_hops n == m.desired_hops) && is_ready m.route.status) refl
    where
      by_test :
          (kept : Bool)
          → ((clamp_desired_hops n == m.desired_hops) && is_ready m.route.status) ≡ kept
          → let started = record m { desired_hops = clamp_desired_hops n; running = true } in
            Sound c (
              if kept
              then record started { keepalive_timer = true }
              else build_route c e (clamp_desired_hops n) started)
      by_test true test = record {
        counted = v.counted;
        sized = v.sized;
        agreed = ground (arith, v.agreed);
        at_least_one = (clamp_bounds c n).0;
        at_most_six = (clamp_bounds c n).1;
        in_range = v.in_range;
        quiet = λ h. cc;
        fits = record { entries = v.fits.entries; queue = v.fits.queue };
      }
      by_test false test =
          build_route_internal-Sound c e _ false "BUILD_FAILED" _ none_left v.in_range (λ h. cc)

  pub rebuild-Sound :
      (e : Env) (reason : String) (m : Manager)
      → m.jobs ≡ []
      → m.running ≡ true
      → Sound c m
      → Sound c (rebuild c e reason (record m { rebuild_timer = none }))
  unfolding rebuild
  rebuild-Sound e reason m none_left on v =
      build_route_internal-Sound c e _ true reason _ none_left v.in_range (λ h. refl)

  pub rebuild_route-Sound :
      (e : Env) (reason : String) (m : Manager)
      → m.jobs ≡ []
      → Sound c m
      → Sound c (rebuild_route c e reason m)
  unfolding rebuild_route
  rebuild_route-Sound e reason m none_left v = by_running m.running refl
    where
      by_running :
          (on : Bool)
          → m.running ≡ on
          → Sound c (if on then rebuild c e reason (record m { rebuild_timer = none }) else m)
      by_running true on = rebuild-Sound e reason m none_left on v
      by_running false off = v
