-- ===== src/InternalOnion/RouteManager/Completion.antt =====
-- A build of src/net/internalOnion/routeManager.ts whose relays all answer, from its first hello on.
mod Counts
use nkc.Base.{
  ℕ, zero, suc, ◌+◌, ◌≤◌, ◌<◌, ◌≡◌, refl, sym, ◌∙◌, ap, subst, Bool, true, false, Option, none,
  some, List, [], ◌∷◌, ◌++◌, String, length, arith, inl, inr, if◌then◌else◌, ◌-◌, not, str_eq,
  eq_refl, ◌&&◌, min, take, keep, length-take-le, ◌==◌,
}
use nkc.InternalOnion.{RouteStatus, RouteState, HopAck, ready, building}
use nkc.InternalOnion.RouteManager.{
  Build, PendingAck, resolved, Job, Config, Env, Manager, find_ack, delete_ack, is_circuit,
  with_hops, clamp_desired_hops, create_hops, compute_established_hops, update_hop,
  clear_pending_acks, reject_all, dedupe_peer_ids,
}
use nkc.InternalOnion.RouteManager.Steps.{
  resume, run_jobs, handle, turn, run, Event, acks, builds, build_route, is_ready,
  build_route_internal, begin_build, send_hello, select_peers, next_hop, finish_build, acked_route,
}
use nkc.Base.Text.{trim}
use nkc.InternalOnion.RouteManager.Teardown.{clamp_desired_hops-clamped}
use nkc.InternalOnion.RouteManager.Acks.{run_jobs_idle, turn_ack-hit, outcome_of, without}
use nkc.InternalOnion.RouteManager.Invariant.Lists.{
  length-update_hop, length-create_hops, established-create_hops,
}
use Counts.{Open, answered, Open-answered, Open-create_hops, established-map-revived}

-- The manager waits for the answer of this peer, and the hops from the one asked on are pending.
record Waits (m : Manager) (b : Build) (peer : String) : Type 0 where
  idle_queue : m.jobs ≡ []
  circuit : m.circuit ≡ some b.circuit_id
  entry :
      find_ack b.hop_index m.pending_acks
      ≡ some (record { hop_index = b.hop_index; peer_id = peer; build = b })
  at_least_one : 1 ≤ b.hop_index
  open_hops : Open b.hop_index 1 m.route.hops
  counted : compute_established_hops m.route.hops + 1 ≡ b.hop_index
  room : b.hop_index + length b.later_peers ≤ length m.route.hops

-- A route of `n` hops that have answered.
pub record Complete (m : Manager) (id : String) (n : ℕ) : Type 0 where
  pub is_ready : is_ready m.route.status ≡ true
  pub circuit_id : m.route.circuit_id ≡ some id
  pub established : m.route.established_hops ≡ n
  pub keepalive : m.keepalive_timer ≡ true
  pub no_backoff : m.backoff_index ≡ 0

-- The answer of a peer to the hello of a hop.
abbrev pub answer_of : Env → String → ℕ → String → HopAck
answer_of e id hop peer = record {
  circuit_id = id;
  hop_index = hop;
  ts = e.now;
  relay_peer_id = peer;
  accepted = true;
}

-- Each peer answers in its turn.
abbrev pub answers : Env → String → ℕ → List String → List (Env × Event)
answers e id hop [] = []
answers e id hop (peer ∷ later) = (e, acks (answer_of e id hop peer)) ∷ answers e id (suc hop) later

module _ (c : Config) (emits : c.emits ≡ true) where
  send_hello-Waits :
      (e : Env) (b : Build) (peer : String) (m : Manager)
      → m.jobs ≡ []
      → m.circuit ≡ some b.circuit_id
      → 1 ≤ b.hop_index
      → Open b.hop_index 1 m.route.hops
      → compute_established_hops m.route.hops + 1 ≡ b.hop_index
      → b.hop_index + length b.later_peers ≤ length m.route.hops
      → Waits (send_hello c e b peer m) b peer
  unfolding send_hello find_ack
  send_hello-Waits e b peer m idle_queue circuit at_least_one open_hops counted room =
      simp emits (record {
        idle_queue = idle_queue;
        circuit = circuit;
        entry = ground arith;
        at_least_one = at_least_one;
        open_hops = open_hops;
        counted = counted;
        room = room;
      })

  answered-outcome :
      (e : Env) (b : Build) (peer : String)
      → let a = answer_of e b.circuit_id b.hop_index peer in
        outcome_of a (record { hop_index = b.hop_index; peer_id = peer; build = b }) ≡ resolved a
  answered-outcome e b peer = simp (eq_refl peer) refl

  next_hop-idle :
      (e : Env) (b : Build) (later : List String) (m : Manager)
      → m.jobs ≡ []
      → (next_hop c e b later m).jobs ≡ []
  unfolding next_hop finish_build send_hello
  next_hop-idle e b [] m h = h
  next_hop-idle e b (peer ∷ later) m h = simp emits h

  turn-answer :
      (e : Env) (b : Build) (peer : String) (m : Manager)
      → str_eq b.circuit_id "" ≡ false
      → Waits m b peer
      → let a = answer_of e b.circuit_id b.hop_index peer in
        turn c (e, acks a) m
        ≡ next_hop c e b b.later_peers (record (without a m) { route = acked_route e b a m.route })
  unfolding resume
  turn-answer e b peer m some_id w =
      let a = answer_of e b.circuit_id b.hop_index peer in
      turn_ack-hit c e a (record { hop_index = b.hop_index; peer_id = peer; build = b }) m
        w.idle_queue current w.entry
        (rw (answered-outcome e b peer) (next_hop-idle e b b.later_peers _ refl))
      ∙ rw (answered-outcome e b peer) refl
    where
      current : is_circuit m.circuit b.circuit_id ≡ true
      current = rw w.circuit (simp (some_id, eq_refl b.circuit_id) refl)

  answered-Waits :
      (e : Env) (b : Build) (peer : String) (m : Manager) (a : HopAck)
      → Waits m b peer
      → let hops = update_hop b.hop_index (answered a) m.route.hops in
        Open (suc b.hop_index) 1 hops
        × (compute_established_hops hops ≡ b.hop_index)
        × (length hops ≡ length m.route.hops)
  answered-Waits e b peer m a w =
      let next =
        Open-answered a b.hop_index 1 m.route.hops w.at_least_one (omega (arith, w.room))
          w.open_hops in
      (
        next.1,
        omega (arith, next.0, w.counted),
        length-update_hop b.hop_index (answered a) m.route.hops,
      )

  answers-Complete :
      (e : Env) (later : List String) (b : Build) (peer : String) (m : Manager)
      → str_eq b.circuit_id "" ≡ false
      → b.later_peers ≡ later
      → Waits m b peer
      → Complete
          (run c (answers e b.circuit_id b.hop_index (peer ∷ later)) m)
          b.circuit_id
          (b.hop_index + length later)
  unfolding run next_hop finish_build acked_route with_hops
  answers-Complete e [] b peer m some_id last w =
      let a = answer_of e b.circuit_id b.hop_index peer in
      let next = answered-Waits e b peer m a w in
      subst (λ n. Complete n b.circuit_id (b.hop_index + 0))
        (sym (turn-answer e b peer m some_id w))
        (rw (last, next_hop)
          (record {
            is_ready = refl;
            circuit_id = refl;
            established = omega (
              arith,
              next.1,
              established-map-revived (update_hop b.hop_index (answered a) m.route.hops),
            );
            keepalive = refl;
            no_backoff = refl;
          }))
  answers-Complete e (q ∷ qs) b peer m some_id last w =
      let a = answer_of e b.circuit_id b.hop_index peer in
      let next = answered-Waits e b peer m a w in
      let b' = record b { hop_index = b.hop_index + 1; later_peers = qs } in
      let m' = record (without a m) { route = acked_route e b a m.route } in
      let begun : turn c (e, acks a) m ≡ send_hello c e b' q m' =
        turn-answer e b peer m some_id w ∙ ap (λ l. next_hop c e b l m') last in
      let w' =
        send_hello-Waits e b' q m' refl w.circuit (omega arith)
          (subst (λ i. Open i 1 m'.route.hops) one next.0) (omega (arith, next.1))
          (omega (arith, next.2, w.room, ap length last)) in
      let done = answers-Complete e qs b' q (send_hello c e b' q m') some_id refl w' in
      subst
        (λ n.
          Complete (run c (answers e b.circuit_id (suc b.hop_index) (q ∷ qs)) n) b.circuit_id
            (b.hop_index + suc (length qs)))
        (sym begun)
        (subst
          (λ i.
            Complete (run c (answers e b.circuit_id i (q ∷ qs)) (send_hello c e b' q m'))
              b.circuit_id (b.hop_index + suc (length qs)))
          (sym one)
          (subst
            (λ t.
              Complete
                (run c (answers e b.circuit_id (b.hop_index + 1) (q ∷ qs)) (send_hello c e b' q m'))
                b.circuit_id t)
            (omega arith) done))
    where
      one : suc b.hop_index ≡ b.hop_index + 1
      one = omega arith

  -- The manager as the first hello goes out.
  begun : Env → ℕ → Manager → String → List String → Manager
  begun e hops m peer later =
      record (record (clear_pending_acks "BUILD_REPLACED" m) {
        desired_hops = hops;
        keepalive_timer = false;
        pending_pings = [];
      }) {
        circuit = some e.random_id;
        route = record {
          desired_hops = hops;
          established_hops = 0;
          status = building;
          circuit_id = some e.random_id;
          hops = create_hops hops (peer ∷ later);
          last_error = none;
          updated_at_ts = e.now;
        };
      }

  first_build : Env → ℕ → List String → Build
  first_build e hops later = record {
    circuit_id = e.random_id;
    desired_hops = hops;
    hop_index = 1;
    later_peers = later;
    failure_reason = "BUILD_FAILED";
  }

  build_route-begins :
      (e : Env) (n : ℕ) (m : Manager) (peer : String) (later : List String)
      → select_peers e (clamp_desired_hops n) ≡ peer ∷ later
      → build_route c e n m
        ≡ send_hello c e
            (first_build e (clamp_desired_hops n) later)
            peer
            (begun e (clamp_desired_hops n) m peer later)
  unfolding build_route build_route_internal begun first_build begin_build
  build_route-begins e n m peer later peers =
      rw (clamp_desired_hops-clamped n) (rw (peers, begin_build) refl)

  begun-Waits :
      (e : Env) (hops : ℕ) (m : Manager) (peer : String) (later : List String)
      → m.jobs ≡ []
      → m.pending_acks ≡ []
      → select_peers e hops ≡ peer ∷ later
      → Waits
          (send_hello c e (first_build e hops later) peer (begun e hops m peer later))
          (first_build e hops later)
          peer
  unfolding begun first_build select_peers clear_pending_acks
  begun-Waits e hops m peer later idle_queue none_waits peers =
      send_hello-Waits e (first_build e hops later) peer (begun e hops m peer later)
        (simp (idle_queue, none_waits) refl) refl (omega arith)
        (Open-create_hops hops (peer ∷ later))
        (omega (arith, established-create_hops hops (peer ∷ later)))
        (omega (
          arith,
          length-create_hops hops (peer ∷ later),
          ap length peers,
          length-take-le hops
              (keep (λ p. not (str_eq p (trim e.local_peer))) (dedupe_peer_ids e.relay_peers)),
        ))

  -- A build for which there are relays, told to a control plane, between turns and while no other
  -- build waits: when each of the relays that it selects has acknowledged its hello, in turn, the
  -- route is ready under the circuit of the build, as many hops are established as there are relays
  -- selected, the hops are kept alive, and the next rebuild would wait for the first delay. The
  -- circuit has a name that is not empty.
  pub build_route-completes :
      (e later_e : Env) (n : ℕ) (m : Manager) (peer : String) (later : List String)
      → m.jobs ≡ []
      → m.pending_acks ≡ []
      → str_eq e.random_id "" ≡ false
      → select_peers e (clamp_desired_hops n) ≡ peer ∷ later
      → Complete
          (run c ((e, builds n) ∷ answers later_e e.random_id 1 (peer ∷ later)) m)
          e.random_id
          (length (peer ∷ later))
  unfolding run turn handle first_build
  build_route-completes e later_e n m peer later idle_queue none_waits some_id peers =
      let hops = clamp_desired_hops n in
      let w = begun-Waits e hops m peer later idle_queue none_waits peers in
      let first : turn c (e, builds n) m
          ≡ send_hello c e (first_build e hops later) peer (begun e hops m peer later) =
        ap (run_jobs c e) (build_route-begins e n m peer later peers)
        ∙ run_jobs_idle c e _ w.idle_queue in
      subst
        (λ r.
          Complete (run c (answers later_e e.random_id 1 (peer ∷ later)) r) e.random_id
            (suc (length later)))
        (sym first)
        (subst
          (λ t.
            Complete
              (run c (answers later_e e.random_id 1 (peer ∷ later))
                (send_hello c e (first_build e hops later) peer (begun e hops m peer later)))
              e.random_id t)
          (omega arith)
          (answers-Complete later_e later (first_build e hops later) peer _ some_id refl w))
