-- ===== src/Tests/RouteManager.antt =====
-- A manager with two relays, before and after they have answered.
use nkc.Base.{◌≡◌, refl, true, some, [], ◌∷◌, String}
use nkc.Base.Text.{trim}
use nkc.InternalOnion.{HopAck, idle}
use nkc.InternalOnion.RouteManager.{
  Config, Env, Manager, clamp_desired_hops, dedupe_peer_ids, PendingAck, Build,
  default_rebuild_backoff_ms,
}
use nkc.InternalOnion.RouteManager.Steps.{
  new_manager, turn, run, starts, builds, stops, select_peers,
}
use nkc.InternalOnion.RouteManager.Completion.{Complete, answers, build_route-completes}
use nkc.InternalOnion.RouteManager.Teardown.{status_after, stop-status}
use nkc.InternalOnion.RouteManager.Invariant.{run-new_manager-Sound}
use nkc.InternalOnion.RouteManager.Invariant.Builds.{Sound}

abbrev config : Config
config = record {
  emits = true;
  keepalive_miss_limit = 2;
  rebuild_backoff_ms = default_rebuild_backoff_ms;
}

abbrev env : Env
env = record {
  now = 1000;
  relay_peers = "p" ∷ "me" ∷ "q" ∷ [];
  local_peer = "me";
  random_id = "c1";
}

abbrev fresh : Manager
fresh = new_manager env

build_route-completes_example :
    Complete (run config ((env, builds 2) ∷ answers env "c1" 1 ("p" ∷ "q" ∷ [])) fresh) "c1" 2
unfolding new_manager select_peers clamp_desired_hops dedupe_peer_ids trim
build_route-completes_example =
    build_route-completes config refl env env 2 fresh "p" ("q" ∷ []) refl refl refl refl

run-new_manager-Sound_example :
    Sound config (run config ((env, starts 2) ∷ (env, stops idle) ∷ []) fresh)
    × ((run config ((env, starts 2) ∷ (env, stops idle) ∷ []) fresh).jobs ≡ [])
run-new_manager-Sound_example =
    run-new_manager-Sound config env ((env, starts 2) ∷ (env, stops idle) ∷ [])

-- A running manager that waits for the first relay.
abbrev waiting_build : Build
waiting_build = record {
  circuit_id = "c1";
  desired_hops = 3;
  hop_index = 1;
  later_peers = "q" ∷ [];
  failure_reason = "BUILD_FAILED";
}

abbrev waiting_ack : PendingAck
waiting_ack = record { hop_index = 1; peer_id = "p"; build = waiting_build }

abbrev waiting : Manager
waiting = record fresh { running = true; circuit = some "c1"; pending_acks = waiting_ack ∷ [] }

abbrev ack_from : String → String → HopAck
ack_from circuit peer = record {
  circuit_id = circuit;
  hop_index = 1;
  ts = 5;
  relay_peer_id = peer;
  accepted = true;
}

stop-status_example :
    (turn config (env, stops idle) waiting).route.status ≡ status_after waiting.pending_acks idle
unfolding new_manager
stop-status_example = stop-status config env idle waiting refl
