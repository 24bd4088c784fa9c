-- ===== src/InternalOnion/RouteManager/Acks.antt =====
-- Acknowledgements of hops: which ones count, and that a build whose relays all answer is finished
-- (src/net/internalOnion/routeManager.ts).
use nkc.Base.{
  ◌||◌, ℕ, zero, suc, ◌≡◌, refl, sym, ◌∙◌, ap, subst, Bool, true, false, none, some, List, [], ◌∷◌,
  String, length, arith, Bool-cases, inl, inr, ◌⊎◌, if◌then◌else◌, is_some, not, str_eq, ◌&&◌,
}
use nkc.InternalOnion.{HopAck}
use nkc.InternalOnion.RouteManager.{
  Build, PendingAck, Outcome, rejected, resolved, Job, Config, Env, Manager, find_ack, delete_ack,
  is_circuit, handle_hello_ack, schedule_rebuild,
}
use nkc.InternalOnion.RouteManager.Steps.{
  degraded_route, resume, work, settle, run_jobs, handle, turn, acks,
}
use nkc.InternalOnion.RouteManager.Teardown.{resume-rejected}

-- A round of `settle` on a manager with this queue.
abbrev with_queue : Config → Env → ℕ → Manager → List Job → Manager
with_queue c e fuel m js = elim js [
  | [] ↦ m
  | job ∷ rest ↦ settle c e fuel (resume c e job (record m { jobs = rest }))
]

settle_idle : (c : Config) (e : Env) (fuel : ℕ) (m : Manager) → m.jobs ≡ [] → settle c e fuel m ≡ m
unfolding settle
settle_idle c e zero m h = refl
settle_idle c e (suc fuel) m h = subst (λ js. with_queue c e fuel m js ≡ m) (sym h) refl

pub run_jobs_idle : (c : Config) (e : Env) (m : Manager) → m.jobs ≡ [] → run_jobs c e m ≡ m
unfolding run_jobs
run_jobs_idle c e m h = settle_idle c e _ m h

settle_next :
    (c : Config) (e : Env) (fuel : ℕ) (j : Job) (rest : List Job) (m : Manager)
    → m.jobs ≡ j ∷ rest
    → settle c e (suc fuel) m ≡ settle c e fuel (resume c e j (record m { jobs = rest }))
unfolding settle
settle_next c e fuel j rest m queue =
    subst
      (λ js. with_queue c e fuel m js ≡ settle c e fuel (resume c e j (record m { jobs = rest })))
      (sym queue) refl

-- A single settled promise runs its build, and that is all.
run_one :
    (c : Config) (e : Env) (j : Job) (m : Manager)
    → m.jobs ≡ j ∷ []
    → (resume c e j (record m { jobs = [] })).jobs ≡ []
    → run_jobs c e m ≡ resume c e j (record m { jobs = [] })
unfolding run_jobs work
run_one c e j m queue then_idle =
    ap (λ n. settle c e n m) one ∙ settle_next c e _ j [] m queue ∙ settle_idle c e _ _ then_idle
  where
    one : work m.jobs ≡ suc (length j.build.later_peers)
    one = ap work queue ∙ omega arith

unchanged :
    (a : HopAck) (m : Manager)
    → (is_circuit m.circuit a.circuit_id ≡ false) ⊎ (find_ack a.hop_index m.pending_acks ≡ none)
    → handle_hello_ack a m ≡ m
unfolding handle_hello_ack
unchanged a m (inl other) = simp other refl
unchanged a m (inr nobody) = elim (Bool-cases (is_circuit m.circuit a.circuit_id)) [
  | inl same ↦ simp (same, nobody) refl
  | inr other ↦ simp other refl
]

-- Between turns, an acknowledgement for another circuit, or for a hop that no build waits for,
-- changes nothing.
pub turn_ack-stale :
    (c : Config) (e : Env) (a : HopAck) (m : Manager)
    → m.jobs ≡ []
    → (is_circuit m.circuit a.circuit_id ≡ false) ⊎ (find_ack a.hop_index m.pending_acks ≡ none)
    → turn c (e, acks a) m ≡ m
unfolding turn handle run_jobs
turn_ack-stale c e a m idle_queue stale = ap (run_jobs c e) same ∙ settle_idle c e _ m idle_queue
  where
    same : handle_hello_ack a m ≡ m
    same = unchanged a m stale

-- How an acknowledgement settles the promise that waits for it.
abbrev pub outcome_of : HopAck → PendingAck → Outcome
outcome_of a p =
    if not a.accepted
    then rejected "HOP_ACK_REJECTED"
    else if str_eq a.relay_peer_id p.peer_id
    then resolved a
    else rejected "HOP_ACK_PEER_MISMATCH"

outcome_of-refused :
    (a : HopAck) (p : PendingAck)
    → (a.accepted && str_eq a.relay_peer_id p.peer_id) ≡ false
    → (code : String) × (outcome_of a p ≡ rejected code)
outcome_of-refused a p refused = by_tests a.accepted (str_eq a.relay_peer_id p.peer_id) refused
  where
    by_tests :
        (accepted same : Bool)
        → (accepted && same) ≡ false
        → (code : String) × ((if not accepted
              then rejected "HOP_ACK_REJECTED"
              else if same
              then resolved a
              else rejected "HOP_ACK_PEER_MISMATCH")
            ≡ rejected code)
    by_tests false same h = ("HOP_ACK_REJECTED", refl)
    by_tests true false h = ("HOP_ACK_PEER_MISMATCH", refl)
    by_tests true true h = cc

-- The manager without the entry of the hop, and with nothing on its queue.
abbrev pub without : HopAck → Manager → Manager
without a m = record m { pending_acks = delete_ack a.hop_index m.pending_acks; jobs = [] }

hit_queue :
    (a : HopAck) (p : PendingAck) (m : Manager)
    → m.jobs ≡ []
    → is_circuit m.circuit a.circuit_id ≡ true
    → find_ack a.hop_index m.pending_acks ≡ some p
    → handle_hello_ack a m
      ≡ record (without a m) { jobs = record { build = p.build; outcome = outcome_of a p } ∷ [] }
unfolding handle_hello_ack
hit_queue a p m idle_queue current waits = simp (current, waits, idle_queue) refl

-- An acknowledgement that a build waits for goes on with that build.
pub turn_ack-hit :
    (c : Config) (e : Env) (a : HopAck) (p : PendingAck) (m : Manager)
    → m.jobs ≡ []
    → is_circuit m.circuit a.circuit_id ≡ true
    → find_ack a.hop_index m.pending_acks ≡ some p
    → (resume c e (record { build = p.build; outcome = outcome_of a p }) (without a m)).jobs ≡ []
    → turn c (e, acks a) m
      ≡ resume c e (record { build = p.build; outcome = outcome_of a p }) (without a m)
unfolding turn handle
turn_ack-hit c e a p m idle_queue current waits then_idle =
    ap (run_jobs c e) hit
    ∙ run_one c e (record { build = p.build; outcome = outcome_of a p }) queued refl then_idle
  where
    queued : Manager
    queued = record (without a m) {
      jobs = record { build = p.build; outcome = outcome_of a p } ∷ [];
    }

    hit : handle_hello_ack a m ≡ queued
    hit = hit_queue a p m idle_queue current waits

-- Between turns, an acknowledgement of the current circuit that a build waits for, but that refuses
-- or names another peer than the one asked, kills the hop: the route is degraded with the reason of
-- the build, the build is given up, and a running manager has a rebuild ahead.
pub turn_ack-refused :
    (c : Config) (e : Env) (a : HopAck) (p : PendingAck) (m : Manager)
    → m.jobs ≡ []
    → is_circuit m.circuit a.circuit_id ≡ true
    → find_ack a.hop_index m.pending_acks ≡ some p
    → (a.accepted && str_eq a.relay_peer_id p.peer_id) ≡ false
    → let n = turn c (e, acks a) m in
      (n.route ≡ degraded_route e p.build.hop_index p.build.failure_reason m.route)
      × (n.pending_acks ≡ delete_ack a.hop_index m.pending_acks)
      × (n.jobs ≡ [])
      × (is_some n.rebuild_timer ≡ is_some m.rebuild_timer || m.running)
unfolding resume schedule_rebuild
turn_ack-refused c e a p m idle_queue current waits refused =
    let code = outcome_of-refused a p refused in
    let given = resume-rejected c e p.build code.0 (without a m) in
    let is = turn_ack-hit c e a p m idle_queue current waits (rw code.1 given.1) in
    rw is (rw code.1 (route_of p.build code.0, pending_of p.build code.0, given.1, given.3))
  where
    route_of :
        (b : Build) (code : String)
        → (resume c e (record { build = b; outcome = rejected code }) (without a m)).route
          ≡ degraded_route e b.hop_index b.failure_reason m.route
    route_of b code = ground arith

    pending_of :
        (b : Build) (code : String)
        → (resume c e (record { build = b; outcome = rejected code }) (without a m)).pending_acks
          ≡ delete_ack a.hop_index m.pending_acks
    pending_of b code = ground arith
