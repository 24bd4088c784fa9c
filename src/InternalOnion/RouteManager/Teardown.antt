-- ===== src/InternalOnion/RouteManager/Teardown.antt =====
-- What a build that waits for an acknowledgement does when `stop` or another build replaces it
-- (src/net/internalOnion/routeManager.ts).
use nkc.Base.{
  ℕ, zero, suc, ◌≤◌, ◌≡◌, refl, sym, ◌∙◌, ◌||◌, ◌&&◌, ap, subst, Bool, true, false, List, [], ◌∷◌,
  String, length, arith, is_some,
}
use nkc.InternalOnion.{RouteStatus, degraded, building}
use nkc.InternalOnion.RouteManager.{
  Build, PendingAck, rejected, Config, Env, Manager, clamp_desired_hops, clear_pending_acks,
  reject_all, schedule_rebuild, with_hops,
}
use nkc.InternalOnion.RouteManager.Steps.{
  degraded_route, resume, work, settle, run_jobs, stop, handle, turn, stops, builds, build_route,
  build_route_internal, begin_build, send_hello, select_peers,
}

-- The status after builds have been given up: that of the route if there was none.
abbrev pub status_after : List PendingAck → RouteStatus → RouteStatus
status_after [] status = status
status_after (p ∷ ps) status = degraded

abbrev pub is_some_pending : List PendingAck → Bool
is_some_pending [] = false
is_some_pending (p ∷ ps) = true

status_after-degraded : (ps : List PendingAck) → status_after ps degraded ≡ degraded
status_after-degraded [] = refl
status_after-degraded (p ∷ ps) = refl

pub resume-rejected :
    (c : Config) (e : Env) (b : Build) (code : String) (m : Manager)
    → let n = resume c e (record { build = b; outcome = rejected code }) m in
      (n.route.status ≡ degraded)
      × (n.jobs ≡ m.jobs)
      × (n.running ≡ m.running)
      × (is_some n.rebuild_timer ≡ is_some m.rebuild_timer || m.running)
unfolding resume schedule_rebuild degraded_route with_hops
resume-rejected c e b code m = ground arith

-- The queue of builds that are given up, with enough fuel: the last one has degraded the route, and
-- a running manager has a rebuild ahead.
settle_rejected :
    (c : Config) (e : Env) (code : String) (ps : List PendingAck) (fuel : ℕ) (m : Manager)
    → length ps ≤ fuel
    → m.jobs ≡ reject_all code ps
    → ((settle c e fuel m).route.status ≡ status_after ps m.route.status)
      × (is_some (settle c e fuel m).rebuild_timer
          ≡ is_some m.rebuild_timer || (m.running && is_some_pending ps))
unfolding settle
settle_rejected c e code [] zero m enough queue = (refl, ground arith)
settle_rejected c e code [] (suc fuel) m enough queue = rw (settle, queue) (refl, ground arith)
settle_rejected c e code (p ∷ ps) zero m enough queue = absurd (omega arith)
settle_rejected c e code (p ∷ ps) (suc fuel) m enough queue =
    let rest = record m { jobs = reject_all code ps } in
    let given = resume-rejected c e p.build code rest in
    let later =
      settle_rejected c e code ps fuel
        (resume c e (record { build = p.build; outcome = rejected code }) rest) (omega arith)
        given.1 in
    rw (settle, queue)
      (
        later.0 ∙ ap (status_after ps) given.0 ∙ status_after-degraded ps,
        ground (arith, later.1, given.2, given.3),
      )

length-reject_all : (code : String) (ps : List PendingAck) → length ps ≤ work (reject_all code ps)
unfolding work
length-reject_all code [] = omega arith
length-reject_all code (p ∷ ps) = omega (arith, length-reject_all code ps)

given_up :
    (c : Config) (e : Env) (code : String) (ps : List PendingAck) (m : Manager)
    → m.jobs ≡ reject_all code ps
    → ((run_jobs c e m).route.status ≡ status_after ps m.route.status)
      × (is_some (run_jobs c e m).rebuild_timer
          ≡ is_some m.rebuild_timer || (m.running && is_some_pending ps))
unfolding run_jobs
given_up c e code ps m queue =
    settle_rejected c e code ps (work m.jobs) m
      (subst (λ q. length ps ≤ work q) (sym queue) (length-reject_all code ps)) queue

-- Between turns, `stop` ends with the status that it is given if no build waits for an
-- acknowledgement; if one does, the builds that it rejects run afterwards, and the stopped route
-- ends degraded.
pub stop-status :
    (c : Config) (e : Env) (status : RouteStatus) (m : Manager)
    → m.jobs ≡ []
    → (turn c (e, stops status) m).route.status ≡ status_after m.pending_acks status
unfolding turn handle stop clear_pending_acks
stop-status c e status m idle_queue =
    (given_up c e "ROUTE_STOPPED" m.pending_acks (stop e status m) (rw idle_queue refl)).0

pub clamp_desired_hops-clamped :
    (n : ℕ) → clamp_desired_hops (clamp_desired_hops n) ≡ clamp_desired_hops n
unfolding clamp_desired_hops
clamp_desired_hops-clamped n = omega arith

build_route-begins :
    (c : Config) (e : Env) (n : ℕ) (m : Manager) (peer : String) (later : List String)
    → m.jobs ≡ []
    → c.emits ≡ true
    → select_peers e (clamp_desired_hops n) ≡ peer ∷ later
    → let b = build_route c e n m in
      (b.jobs ≡ reject_all "BUILD_REPLACED" m.pending_acks)
      × (b.route.status ≡ building)
      × (b.running ≡ m.running)
      × (b.rebuild_timer ≡ m.rebuild_timer)
unfolding build_route build_route_internal clear_pending_acks begin_build send_hello
build_route-begins c e n m peer later idle_queue emits peers =
    rw (clamp_desired_hops-clamped n)
      (rw (peers, begin_build) (simp (emits, idle_queue) (refl, refl, refl, refl)))

-- Between turns, a build for which there is a relay, told to a control plane: if no other build
-- waits for an acknowledgement, its turn ends with the route building and the rebuild timer as it
-- was; if one does, the one that it replaces leaves the new route degraded, and a running manager
-- has a rebuild ahead.
pub build_route-replaces :
    (c : Config) (e : Env) (n : ℕ) (m : Manager) (peer : String) (later : List String)
    → m.jobs ≡ []
    → c.emits ≡ true
    → select_peers e (clamp_desired_hops n) ≡ peer ∷ later
    → ((turn c (e, builds n) m).route.status ≡ status_after m.pending_acks building)
      × (is_some (turn c (e, builds n) m).rebuild_timer
          ≡ is_some m.rebuild_timer || (m.running && is_some_pending m.pending_acks))
unfolding turn handle
build_route-replaces c e n m peer later idle_queue emits peers =
    let begun = build_route-begins c e n m peer later idle_queue emits peers in
    let end = given_up c e "BUILD_REPLACED" m.pending_acks (build_route c e n m) begun.0 in
    (end.0 ∙ ap (status_after m.pending_acks) begun.1, ground (arith, end.1, begun.2, begun.3))
