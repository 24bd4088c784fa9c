-- ===== src/InternalOnion/RouteManager/Steps.antt =====
-- Timers and the public methods of src/net/internalOnion/routeManager.ts, and the event loop.
mod Builds
use nkc.Base.{
  ℕ, zero, suc, ◌+◌, Bool, true, false, ◌&&◌, not, Option, none, some, List, [], ◌∷◌, map, String,
  str_eq, ltb, ◌==◌, if◌then◌else◌, length, take, keep,
}
use nkc.Base.Text.{trim}
use nkc.InternalOnion.{
  RouteStatus, building, ready, degraded, rebuilding, idle, pending, ok, dead, HopState, RouteState,
  HopAck, HopPong, hello, ping,
}
use nkc.InternalOnion.RouteManager.{
  Build, PendingPing, resolved, rejected, Job, Config, Env, Manager, clamp_desired_hops,
  dedupe_peer_ids, create_hops, compute_established_hops, update_hop, is_ok, delete_ack, find_ping,
  delete_ping, clear_pending_acks, schedule_rebuild, with_hops, handle_hello_ack, handle_ping_pong,
  ack_timeout,
}
unfoldable pub use Builds.*

abbrev pub is_ready : RouteStatus → Bool
is_ready ready = true
is_ready _ = false

unfoldable pub start : Config → Env → ℕ → Manager → Manager
start c e desired m =
    let next = clamp_desired_hops desired in
    let started = record m { desired_hops = next; running = true } in
    if (next == m.desired_hops) && is_ready m.route.status
    then record started { keepalive_timer = true }
    else build_route c e next started

unfoldable pub stop : Env → RouteStatus → Manager → Manager
stop e next_status m = record (clear_pending_acks "ROUTE_STOPPED" m) {
  running = false;
  circuit = none;
  backoff_index = 0;
  keepalive_timer = false;
  rebuild_timer = none;
  pending_pings = [];
  route = record {
    desired_hops = m.desired_hops;
    established_hops = 0;
    status = next_status;
    circuit_id = none;
    hops = create_hops m.desired_hops [];
    last_error = none;
    updated_at_ts = e.now;
  };
}

-- The route while it is built anew, and the build.
unfoldable pub rebuild : Config → Env → String → Manager → Manager
rebuild c e reason m = build_route_internal c e m.desired_hops true reason (record m {
  route = record m.route { status = rebuilding; updated_at_ts = e.now; last_error = some reason };
})

unfoldable pub rebuild_route : Config → Env → String → Manager → Manager
unfolding rebuild
rebuild_route c e reason m =
    if m.running then rebuild c e reason (record m { rebuild_timer = none }) else m

-- The rebuild timer runs out. The source keeps the handle of the timer, which has no effect any
-- more.
unfoldable pub rebuild_fires : Config → Env → Manager → Manager
unfolding rebuild
rebuild_fires c e m = elim m.rebuild_timer [
  | none ↦ m
  | some timer ↦
      let fired = record m { rebuild_timer = none } in
      if m.running then rebuild c e timer.reason fired else fired
]

-- The misses of a hop with the ping that is sent next.
abbrev pub next_misses : Option PendingPing → ℕ
next_misses none = 0
next_misses (some p) = p.misses + 1

abbrev pub can_ping : HopState → Bool
can_ping h = elim h.peer_id [ none ↦ false | some p ↦ is_ok h.status && not (str_eq p "") ]

unfoldable pub send_ping : Config → Env → String → HopState → Manager → Manager
send_ping c e circuit h m =
    let sent = record m {
      pending_pings =
          record {
            hop_index = h.hop_index;
            sent_ts = e.now;
            misses = next_misses (find_ping h.hop_index m.pending_pings);
          }
          ∷ delete_ping h.hop_index m.pending_pings;
    } in
    if c.emits
    then record sent {
      emitted =
          ping (record { circuit_id = circuit; hop_index = h.hop_index; ts = e.now }) ∷ m.emitted;
    }
    else handle_ping_pong e (record { circuit_id = circuit; hop_index = h.hop_index; ts = e.now })
        sent

-- A hop that has missed too many pings.
unfoldable pub lose_hop : Config → Env → HopState → Manager → Manager
lose_hop c e h m = schedule_rebuild c "KEEPALIVE_MISSED" (record m {
  pending_pings = delete_ping h.hop_index m.pending_pings;
  keepalive_timer = false;
  route = degraded_route e h.hop_index "KEEPALIVE_MISSED" m.route;
})

-- The loop over the hops, as they were when it began.
unfoldable pub ping_hops : Config → Env → String → List HopState → Manager → Manager
ping_hops c e circuit [] m = m
ping_hops c e circuit (h ∷ hs) m = elim (can_ping h) [
  | false ↦ ping_hops c e circuit hs m
  | true ↦ elim (ltb c.keepalive_miss_limit (next_misses (find_ping h.hop_index m.pending_pings))) [
    | true ↦ lose_hop c e h m
    | false ↦ ping_hops c e circuit hs (send_ping c e circuit h m)
  ]
]

unfoldable pub keepalive_tick : Config → Env → Manager → Manager
keepalive_tick c e m = elim m.circuit [
  | none ↦ m
  | some circuit ↦
      if (m.keepalive_timer && m.running) && (is_ready m.route.status && not (str_eq circuit ""))
      then ping_hops c e circuit m.route.hops m
      else m
]

-- The constructor.
unfoldable pub new_manager : Env → Manager
new_manager e = record {
  running = false;
  desired_hops = 3;
  route = record {
    desired_hops = 3;
    established_hops = 0;
    status = idle;
    circuit_id = none;
    hops = create_hops 3 [];
    last_error = none;
    updated_at_ts = e.now;
  };
  circuit = none;
  keepalive_timer = false;
  rebuild_timer = none;
  backoff_index = 0;
  pending_acks = [];
  pending_pings = [];
  jobs = [];
  emitted = [];
}

pub data Event : Type 0 where
  starts builds : ℕ → Event
  stops : RouteStatus → Event
  rebuilds : String → Event
  acks : HopAck → Event
  ack_times_out : ℕ → Event
  pongs : HopPong → Event
  keepalive_ticks rebuild_is_due : Event

unfoldable pub handle : Config → Env → Event → Manager → Manager
handle c e (starts n) m = start c e n m
handle c e (builds n) m = build_route c e n m
handle c e (stops status) m = stop e status m
handle c e (rebuilds reason) m = rebuild_route c e reason m
handle c e (acks msg) m = handle_hello_ack msg m
handle c e (ack_times_out i) m = ack_timeout i m
handle c e (pongs msg) m = handle_ping_pong e msg m
handle c e keepalive_ticks m = keepalive_tick c e m
handle c e rebuild_is_due m = rebuild_fires c e m

-- One turn of the event loop: a handler, then the promises that it settled.
unfoldable pub turn : Config → Env × Event → Manager → Manager
turn c (e, event) m = run_jobs c e (handle c e event m)

unfoldable pub run : Config → List (Env × Event) → Manager → Manager
run c [] m = m
run c (x ∷ xs) m = run c xs (turn c x m)
