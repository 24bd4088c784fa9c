-- ===== src/InternalOnion/RouteManager/Steps/Builds.antt =====
-- The builds of src/net/internalOnion/routeManager.ts, and the queue of their settled promises.
use nkc.Base.{
  ℕ, zero, suc, ◌+◌, Bool, true, false, not, none, some, List, [], ◌∷◌, map, String, str_eq,
  if◌then◌else◌, length, take, keep,
}
use nkc.Base.Text.{trim}
use nkc.InternalOnion.{
  building, ready, degraded, rebuilding, idle, pending, ok, dead, HopState, RouteState, HopAck,
  hello,
}
use nkc.InternalOnion.RouteManager.{
  Build, resolved, rejected, Job, Config, Env, Manager, clamp_desired_hops, dedupe_peer_ids,
  create_hops, compute_established_hops, update_hop, delete_ack, clear_pending_acks,
  schedule_rebuild, with_hops, handle_hello_ack,
}

-- `sendHelloAndAwaitAck`: the entry of the hop is set, and the hello goes out, or the manager
-- answers itself.
unfoldable pub send_hello : Config → Env → Build → String → Manager → Manager
send_hello c e b peer m =
    let local = trim e.local_peer in
    let waiting = record m {
      pending_acks =
          record { hop_index = b.hop_index; peer_id = peer; build = b }
          ∷ delete_ack b.hop_index m.pending_acks;
    } in
    if c.emits
    then record waiting {
      emitted =
          hello (record {
            circuit_id = b.circuit_id;
            hop_index = b.hop_index;
            ts = e.now;
            sender_peer_id = if str_eq local "" then "local" else local;
          })
          ∷ m.emitted;
    }
    else handle_hello_ack
        (record {
          circuit_id = b.circuit_id;
          hop_index = b.hop_index;
          ts = e.now;
          relay_peer_id = peer;
          accepted = true;
        })
        waiting

-- A dead hop of an older build is pending again.
abbrev pub revived : HopState → HopState
revived h = elim h.status [ dead ↦ record h { status = pending } | _ ↦ h ]

-- The end of a build, when every selected peer has answered.
unfoldable pub finish_build : Env → Build → Manager → Manager
finish_build e b m =
    let hops = map revived m.route.hops in
    record m {
      backoff_index = 0;
      route = record {
        desired_hops = b.desired_hops;
        established_hops = compute_established_hops hops;
        status = ready;
        circuit_id = some b.circuit_id;
        hops = hops;
        last_error = none;
        updated_at_ts = e.now;
      };
      keepalive_timer = true;
    }

-- The next round of the loop over the selected peers.
unfoldable pub next_hop : Config → Env → Build → List String → Manager → Manager
next_hop c e b [] m = finish_build e b m
next_hop c e b (peer ∷ later) m =
    send_hello c e (record b { hop_index = b.hop_index + 1; later_peers = later }) peer m

unfoldable pub acked_route : Env → Build → HopAck → RouteState → RouteState
acked_route e b a r =
    record (with_hops e.now
      (update_hop b.hop_index
        (λ h. record h { peer_id = some a.relay_peer_id; status = ok; last_seen_ts = some a.ts })
        r.hops)
      r) { last_error = none }

-- A hop is dead, the route degraded.
unfoldable pub degraded_route : Env → ℕ → String → RouteState → RouteState
degraded_route e index reason r =
    record (with_hops e.now (update_hop index (λ h. record h { status = dead }) r.hops) r) {
      status = degraded;
      last_error = some reason;
    }

-- What a build does when its promise is settled: the rest of the `try` block, or the `catch` block.
unfoldable pub resume : Config → Env → Job → Manager → Manager
resume c e job m = elim job.outcome [
  | resolved a ↦
      next_hop c e job.build job.build.later_peers
        (record m { route = acked_route e job.build a m.route })
  | rejected code ↦
      schedule_rebuild c job.build.failure_reason
        (record m { route = degraded_route e job.build.hop_index job.build.failure_reason m.route })
]

-- The queue of settled promises runs until it is empty. The fuel counts the rounds that the builds
-- on the queue can still make.
unfoldable pub work : List Job → ℕ
work [] = 0
work (j ∷ js) = suc (length j.build.later_peers) + work js

unfoldable pub settle : Config → Env → ℕ → Manager → Manager
settle c e zero m = m
settle c e (suc fuel) m = elim m.jobs [
  | [] ↦ m
  | job ∷ rest ↦ settle c e fuel (resume c e job (record m { jobs = rest }))
]

unfoldable pub run_jobs : Config → Env → Manager → Manager
run_jobs c e m = settle c e (work m.jobs) m

unfoldable pub select_peers : Env → ℕ → List String
select_peers e desired =
    let local = trim e.local_peer in
    take desired (keep (λ p. not (str_eq p local)) (dedupe_peer_ids e.relay_peers))

unfoldable pub begin_build :
    Config → Env → (desired : ℕ) → (again : Bool) → String → List String → Manager → Manager
begin_build c e desired again reason [] m = schedule_rebuild c "NO_RELAY_PEERS" (record m {
  circuit = none;
  route = record {
    desired_hops = desired;
    established_hops = 0;
    status = idle;
    circuit_id = none;
    hops = create_hops desired [];
    last_error = some "NO_RELAY_PEERS";
    updated_at_ts = e.now;
  };
})
begin_build c e desired again reason (peer ∷ later) m =
    send_hello c e
      (record {
        circuit_id = e.random_id;
        desired_hops = desired;
        hop_index = 1;
        later_peers = later;
        failure_reason = reason;
      })
      peer
      (record m {
        circuit = some e.random_id;
        route = record {
          desired_hops = desired;
          established_hops = 0;
          status = if again then rebuilding else building;
          circuit_id = some e.random_id;
          hops = create_hops desired (peer ∷ later);
          last_error = none;
          updated_at_ts = e.now;
        };
      })

unfoldable pub build_route_internal :
    Config → Env → (desired : ℕ) → (again : Bool) → String → Manager → Manager
build_route_internal c e desired again reason m =
    let hops = clamp_desired_hops desired in
    begin_build c e hops again reason (select_peers e hops)
      (record (clear_pending_acks "BUILD_REPLACED" m) {
        desired_hops = hops;
        keepalive_timer = false;
        pending_pings = [];
      })

unfoldable pub build_route : Config → Env → ℕ → Manager → Manager
build_route c e desired m =
    build_route_internal c e (clamp_desired_hops desired) false "BUILD_FAILED" m
