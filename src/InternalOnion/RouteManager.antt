-- ===== src/InternalOnion/RouteManager.antt =====
-- The route manager: src/net/internalOnion/routeManager.ts. A handler takes the manager and what the
-- environment gives at that moment, and returns the manager. A build that awaits an acknowledgement
-- is a value, kept with the pending entry; settling the promise puts it on the queue `jobs`, and
-- `settle` runs the queue as the event loop does before the next event. A timer is its presence.
pub mod Steps
pub mod Invariant
pub mod Acks
pub mod Completion
pub mod Teardown
use nkc.Base.{
  ℕ, zero, suc, ◌+◌, ◌-◌, Bool, true, false, ◌&&◌, ◌||◌, not, Option, none, some, List, [], ◌∷◌,
  ◌++◌, map, String, str_eq, ltb, leb, ◌==◌, if◌then◌else◌, or_default, is_some, length, take, keep,
  get_elem?, contains, min, max,
}
use nkc.Base.Text.{trim}
use nkc.InternalOnion.{
  RouteStatus, building, ready, degraded, rebuilding, expired, idle, HopStatus, pending, ok, dead,
  HopState, RouteState, HopHello, HopAck, HopPing, HopPong, ControlMessage, hello, ping,
}

-- What a build in `buildRouteInternal` goes on with: the hop that it waits for, and the peers of the
-- hops after it.
pub record Build : Type 0 where
  pub circuit_id : String
  pub desired_hops : ℕ
  pub hop_index : ℕ
  pub later_peers : List String
  pub failure_reason : String

pub record PendingAck : Type 0 where
  pub hop_index : ℕ
  pub peer_id : String
  pub build : Build

pub record PendingPing : Type 0 where
  pub hop_index : ℕ
  pub sent_ts : ℕ
  pub misses : ℕ

-- How the promise of an acknowledgement was settled.
pub data Outcome : Type 0 where
  resolved : HopAck → Outcome
  rejected : String → Outcome

pub record Job : Type 0 where
  pub build : Build
  pub outcome : Outcome

pub record RebuildTimer : Type 0 where
  pub reason : String
  pub delay_ms : ℕ

-- The options that stay fixed. `emits` says whether there is a control plane to send to; without
-- one the manager answers itself. The list of delays is never empty.
pub record Config : Type 0 where
  pub emits : Bool
  pub keepalive_miss_limit : ℕ
  pub rebuild_backoff_ms : List ℕ

-- What the callbacks return at the time of a call.
pub record Env : Type 0 where
  pub now : ℕ
  pub relay_peers : List String
  pub local_peer : String
  pub random_id : String

pub record Manager : Type 0 where
  pub running : Bool
  pub desired_hops : ℕ
  pub route : RouteState
  pub circuit : Option String
  pub keepalive_timer : Bool
  pub rebuild_timer : Option RebuildTimer
  pub backoff_index : ℕ
  pub pending_acks : List PendingAck
  pub pending_pings : List PendingPing
  pub jobs : List Job
  -- What has been emitted, newest first.
  pub emitted : List ControlMessage

abbrev pub default_rebuild_backoff_ms : List ℕ
default_rebuild_backoff_ms = 60000 ∷ 300000 ∷ 1800000 ∷ 21600000 ∷ []

unfoldable pub clamp_desired_hops : ℕ → ℕ
clamp_desired_hops n = max 1 (min 6 n)

dedupe_from : List String → List String → List String
dedupe_from seen [] = []
dedupe_from seen (raw ∷ rest) =
    let peer = trim raw in
    let skipped = dedupe_from seen rest in
    let kept = peer ∷ dedupe_from (peer ∷ seen) rest in
    if str_eq peer "" || contains seen peer then skipped else kept

unfoldable pub dedupe_peer_ids : List String → List String
unfolding dedupe_from
dedupe_peer_ids peers = dedupe_from [] peers

-- The hops from an index on, with the peers that there are.
unfoldable pub create_hops_from : ℕ → ℕ → List String → List HopState
create_hops_from index zero peers = []
create_hops_from index (suc n) peers =
    record {
      hop_index = index;
      peer_id = get_elem? peers 0;
      status = pending;
      last_seen_ts = none;
      rtt_ms = none;
    }
    ∷ create_hops_from (suc index) n (rest_of peers)
  where
    rest_of : List String → List String
    rest_of [] = []
    rest_of (p ∷ ps) = ps

unfoldable pub create_hops : ℕ → List String → List HopState
unfolding create_hops_from
create_hops desired peers = create_hops_from 1 desired peers

abbrev pub is_ok : HopStatus → Bool
is_ok ok = true
is_ok _ = false

unfoldable pub compute_established_hops : List HopState → ℕ
compute_established_hops [] = 0
compute_established_hops (h ∷ hs) = (if is_ok h.status then 1 else 0) + compute_established_hops hs

-- `hops.map(hop => hop.hopIndex === index ? f(hop) : hop)`
unfoldable pub update_hop : ℕ → (HopState → HopState) → List HopState → List HopState
update_hop index f [] = []
update_hop index f (h ∷ hs) = (if h.hop_index == index then f h else h) ∷ update_hop index f hs

-- The entries of the maps from hop indices.
unfoldable pub find_ack : ℕ → List PendingAck → Option PendingAck
find_ack i [] = none
find_ack i (p ∷ ps) = if p.hop_index == i then some p else find_ack i ps

unfoldable pub delete_ack : ℕ → List PendingAck → List PendingAck
delete_ack i [] = []
delete_ack i (p ∷ ps) = let rest = delete_ack i ps in if p.hop_index == i then rest else p ∷ rest

unfoldable pub find_ping : ℕ → List PendingPing → Option PendingPing
find_ping i [] = none
find_ping i (p ∷ ps) = if p.hop_index == i then some p else find_ping i ps

unfoldable pub delete_ping : ℕ → List PendingPing → List PendingPing
delete_ping i [] = []
delete_ping i (p ∷ ps) = let rest = delete_ping i ps in if p.hop_index == i then rest else p ∷ rest

abbrev pub is_circuit : Option String → String → Bool
is_circuit none id = false
is_circuit (some c) id = not (str_eq c "") && str_eq id c

abbrev pub reject_all : String → List PendingAck → List Job
reject_all code = map λ p. record { build = p.build; outcome = rejected code }

-- `clearPendingHelloAcks`
unfoldable pub clear_pending_acks : String → Manager → Manager
clear_pending_acks code m = record m {
  pending_acks = [];
  jobs = m.jobs ++ reject_all code m.pending_acks;
}

-- The delay at an index, or else the last one.
unfoldable pub rebuild_delay : List ℕ → ℕ → ℕ
rebuild_delay delays index =
    or_default (get_elem? delays (min index (length delays - 1)))
      (or_default (get_elem? delays (length delays - 1)) 0)

unfoldable pub schedule_rebuild : Config → String → Manager → Manager
schedule_rebuild c reason m =
    if m.running
    then record m {
      rebuild_timer = some (record {
        reason = reason;
        delay_ms = rebuild_delay c.rebuild_backoff_ms m.backoff_index;
      });
      backoff_index = min (m.backoff_index + 1) (length c.rebuild_backoff_ms - 1);
    }
    else m

-- A new list of hops in the route, with the count that goes with it.
unfoldable pub with_hops : ℕ → List HopState → RouteState → RouteState
with_hops now hops r = record r {
  established_hops = compute_established_hops hops;
  hops = hops;
  updated_at_ts = now;
}

unfoldable pub handle_hello_ack : HopAck → Manager → Manager
handle_hello_ack msg m =
    if is_circuit m.circuit msg.circuit_id
    then elim (find_ack msg.hop_index m.pending_acks) [
      | none ↦ m
      | some p ↦ record m {
        pending_acks = delete_ack msg.hop_index m.pending_acks;
        jobs =
            m.jobs
            ++ record {
              build = p.build;
              outcome =
                  if not msg.accepted
                  then rejected "HOP_ACK_REJECTED"
                  else if str_eq msg.relay_peer_id p.peer_id
                  then resolved msg
                  else rejected "HOP_ACK_PEER_MISMATCH";
            }
              ∷ [];
      }
    ]
    else m

-- The callback of the timer that `sendHelloAndAwaitAck` sets.
unfoldable pub ack_timeout : ℕ → Manager → Manager
ack_timeout i m = elim (find_ack i m.pending_acks) [
  | none ↦ m
  | some p ↦ record m {
    pending_acks = delete_ack i m.pending_acks;
    jobs = m.jobs ++ record { build = p.build; outcome = rejected "HOP_ACK_TIMEOUT" } ∷ [];
  }
]

unfoldable pub handle_ping_pong : Env → HopPong → Manager → Manager
handle_ping_pong e msg m =
    if is_circuit m.circuit msg.circuit_id
    then elim (find_ping msg.hop_index m.pending_pings) [
      | none ↦ m
      | some p ↦ record m {
        pending_pings = delete_ping msg.hop_index m.pending_pings;
        route =
            with_hops e.now
              (update_hop msg.hop_index
                (λ h. record h {
                  status = ok;
                  last_seen_ts = some msg.ts;
                  rtt_ms = some (e.now - p.sent_ts);
                })
                m.route.hops)
              m.route;
      }
    ]
    else m
