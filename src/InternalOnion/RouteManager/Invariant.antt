-- ===== src/InternalOnion/RouteManager/Invariant.antt =====
-- An invariant of the route manager over every turn of the event loop.
pub mod Lists
mod Frames
pub mod Builds
mod Methods
mod Queue
use nkc.Base.{
  ℕ, zero, suc, ◌≤◌, ◌-◌, ◌≡◌, refl, sym, ◌∙◌, subst, inl, inr, Bool, true, false, not, Option,
  none, some, List, [], ◌∷◌, String, str_eq, ltb, ◌==◌, ◌&&◌, if◌then◌else◌, length, arith,
  Bool-cases, Option-cases,
}
use nkc.InternalOnion.{ControlMessage, HopState, RouteState, RouteStatus, idle}
use nkc.InternalOnion.RouteManager.{
  Config, Env, Manager, PendingPing, RebuildTimer, with_hops, create_hops, handle_ping_pong,
  handle_hello_ack, ack_timeout, find_ping, delete_ping,
}
use nkc.InternalOnion.RouteManager.Steps.{
  degraded_route, start, stop, rebuild, rebuild_route, rebuild_fires, send_ping, lose_hop,
  ping_hops, keepalive_tick, new_manager, Event, starts, builds, stops, rebuilds, acks,
  ack_times_out, pongs, keepalive_ticks, rebuild_is_due, handle, turn, run, run_jobs, can_ping,
  next_misses, is_ready, work,
}
use Lists.{length-update_hop, length-create_hops, established-create_hops}
use Frames.{Fits, handle_hello_ack-Same, handle_hello_ack-Fits, ack_timeout-Same, ack_timeout-Fits}
use Builds.{Sound, Same-Sound, schedule_rebuild-Sound, rerouted-Sound, settle-Sound, stop-Sound}
use Methods.{
  without_ping, handle_ping_pong-Sound, build_route-Sound, start-Sound, rebuild-Sound,
  rebuild_route-Sound,
}
use Queue.{run_jobs_empties}

module _ (c : Config) where
  rebuild_fires-Sound :
      (e : Env) (m : Manager) → m.jobs ≡ [] → Sound c m → Sound c (rebuild_fires c e m)
  unfolding rebuild_fires
  rebuild_fires-Sound e m none_left v = by_timer m.rebuild_timer m.running refl
    where
      by_timer :
          (timer : Option RebuildTimer) (on : Bool)
          → m.running ≡ on
          → Sound c (elim timer [
            | none ↦ m
            | some t ↦
                let fired = record m { rebuild_timer = none } in
                if on then rebuild c e t.reason fired else fired
          ])
      by_timer none on eq = v
      by_timer (some t) true eq = rebuild-Sound c e t.reason m none_left eq v
      by_timer (some t) false eq = record {
        counted = v.counted;
        sized = v.sized;
        agreed = v.agreed;
        at_least_one = v.at_least_one;
        at_most_six = v.at_most_six;
        in_range = v.in_range;
        quiet = λ h. refl;
        fits = record { entries = v.fits.entries; queue = v.fits.queue };
      }

  logged_Sound :
      (m : Manager) (log : List ControlMessage) → Sound c m → Sound c (record m { emitted = log })
  logged_Sound m log v = record {
    counted = v.counted;
    sized = v.sized;
    agreed = v.agreed;
    at_least_one = v.at_least_one;
    at_most_six = v.at_most_six;
    in_range = v.in_range;
    quiet = v.quiet;
    fits = record { entries = v.fits.entries; queue = v.fits.queue };
  }

  send_ping-Sound :
      (e : Env) (circuit : String) (h : HopState) (m : Manager)
      → Sound c m
      → Sound c (send_ping c e circuit h m)
  unfolding send_ping
  send_ping-Sound e circuit h m v = elim (Bool-cases c.emits) [
    | inl emits ↦ simp emits (logged_Sound _ _ (without_ping c m _ v))
    | inr alone ↦ simp alone (handle_ping_pong-Sound c e _ _ (without_ping c m _ v))
  ]

  lose_hop-Sound : (e : Env) (h : HopState) (m : Manager) → Sound c m → Sound c (lose_hop c e h m)
  unfolding lose_hop degraded_route with_hops
  lose_hop-Sound e h m v =
      let w =
        rerouted-Sound c m (degraded_route e h.hop_index "KEEPALIVE_MISSED" m.route) refl
          (length-update_hop h.hop_index _ m.route.hops ∙ v.sized) refl v in
      schedule_rebuild-Sound c "KEEPALIVE_MISSED" _ (record {
        counted = w.counted;
        sized = w.sized;
        agreed = w.agreed;
        at_least_one = w.at_least_one;
        at_most_six = w.at_most_six;
        in_range = w.in_range;
        quiet = w.quiet;
        fits = record { entries = w.fits.entries; queue = w.fits.queue };
      })

  ping_hops-Sound :
      (e : Env) (circuit : String) (hs : List HopState) (m : Manager)
      → Sound c m
      → Sound c (ping_hops c e circuit hs m)
  unfolding ping_hops
  ping_hops-Sound e circuit [] m v = v
  ping_hops-Sound e circuit (h ∷ hs) m v =
      by_tests (ping_hops-Sound e circuit hs) (can_ping h)
        (ltb c.keepalive_miss_limit (next_misses (find_ping h.hop_index m.pending_pings)))
    where
      by_tests :
          ((n : Manager) → Sound c n → Sound c (ping_hops c e circuit hs n))
          → (can missed : Bool)
          → Sound c (elim can [
            | false ↦ ping_hops c e circuit hs m
            | true ↦ elim missed [
              | true ↦ lose_hop c e h m
              | false ↦ ping_hops c e circuit hs (send_ping c e circuit h m)
            ]
          ])
      by_tests later false missed = later m v
      by_tests later true true = lose_hop-Sound e h m v
      by_tests later true false = later _ (send_ping-Sound e circuit h m v)

  keepalive_tick-Sound : (e : Env) (m : Manager) → Sound c m → Sound c (keepalive_tick c e m)
  unfolding keepalive_tick
  keepalive_tick-Sound e m v = by_circuit m.circuit
    where
      by_circuit :
          (circuit : Option String)
          → Sound c (elim circuit [
            | none ↦ m
            | some id ↦
                if (m.keepalive_timer && m.running)
                  && (is_ready m.route.status && not (str_eq id ""))
                then ping_hops c e id m.route.hops m
                else m
          ])
      by_circuit none = v
      by_circuit (some id) =
          elim (Bool-cases
            ((m.keepalive_timer && m.running) && (is_ready m.route.status && not (str_eq id "")))) [
              | inl on ↦ simp on (ping_hops-Sound e id m.route.hops m v)
              | inr off ↦ simp off v
            ]

  handle-Sound :
      (e : Env) (event : Event) (m : Manager)
      → m.jobs ≡ []
      → Sound c m
      → Sound c (handle c e event m)
  unfolding handle
  handle-Sound e (starts n) m idle_queue v = start-Sound c e n m idle_queue v
  handle-Sound e (builds n) m idle_queue v = build_route-Sound c e n m idle_queue v
  handle-Sound e (stops status) m idle_queue v = stop-Sound c e status m idle_queue v
  handle-Sound e (rebuilds reason) m idle_queue v = rebuild_route-Sound c e reason m idle_queue v
  handle-Sound e (acks msg) m idle_queue v =
      Same-Sound c m _ (handle_hello_ack-Same msg m) (handle_hello_ack-Fits msg _ m v.fits) v
  handle-Sound e (ack_times_out i) m idle_queue v =
      Same-Sound c m _ (ack_timeout-Same i m) (ack_timeout-Fits i _ m v.fits) v
  handle-Sound e (pongs msg) m idle_queue v = handle_ping_pong-Sound c e msg m v
  handle-Sound e keepalive_ticks m idle_queue v = keepalive_tick-Sound e m v
  handle-Sound e rebuild_is_due m idle_queue v = rebuild_fires-Sound e m idle_queue v

  -- A turn of the event loop keeps the invariant, and leaves no promise unsettled.
  pub turn-Sound :
      (e : Env) (event : Event) (m : Manager)
      → m.jobs ≡ []
      → Sound c m
      → Sound c (turn c (e, event) m) × ((turn c (e, event) m).jobs ≡ [])
  unfolding turn run_jobs
  turn-Sound e event m idle_queue v =
      let w = handle-Sound e event m idle_queue v in
      (settle-Sound c e _ _ w, rj_empties e (handle c e event m))
    where
      rj_empties : (e : Env) (n : Manager) → (run_jobs c e n).jobs ≡ []
      rj_empties e n = run_jobs_empties c e n

  new_manager-Sound : (e : Env) → Sound c (new_manager e) × ((new_manager e).jobs ≡ [])
  unfolding new_manager
  new_manager-Sound e = (
    record {
      counted = sym (established-create_hops 3 []);
      sized = length-create_hops 3 [];
      agreed = refl;
      at_least_one = omega arith;
      at_most_six = omega arith;
      in_range = omega arith;
      quiet = λ h. refl;
      fits = record { entries = tt; queue = tt };
    },
    refl,
  )

  run-Sound :
      (events : List (Env × Event)) (m : Manager)
      → m.jobs ≡ []
      → Sound c m
      → Sound c (run c events m) × ((run c events m).jobs ≡ [])
  unfolding run
  run-Sound [] m idle_queue v = (v, idle_queue)
  run-Sound ((e, event) ∷ events) m idle_queue v =
      let next = turn-Sound e event m idle_queue v in
      run-Sound events (turn c (e, event) m) next.1 next.0

  -- After any history of events of a new manager: the count of established hops is right, the route
  -- has one hop for each that is wanted, as many as the manager wants, between one and six, the
  -- index into the delays is in range, a stopped manager has no rebuild ahead, no build of another number of hops can go on,
  -- and no promise is settled and not yet dealt with.
  pub run-new_manager-Sound :
      (e : Env) (events : List (Env × Event))
      → Sound c (run c events (new_manager e)) × ((run c events (new_manager e)).jobs ≡ [])
  run-new_manager-Sound e events =
      let first = new_manager-Sound e in run-Sound events (new_manager e) first.1 first.0
