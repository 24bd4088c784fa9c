-- ===== src/InternalOnion/RouteManager/Invariant/Queue.antt =====
-- The queue of settled promises empties in every turn.
use nkc.Base.{
  ℕ, zero, suc, ◌+◌, ◌≤◌, ◌≡◌, refl, subst, inl, inr, some, List, [], ◌∷◌, ◌++◌, String, length,
  arith, Bool-cases,
}
use nkc.InternalOnion.{HopAck}
use nkc.InternalOnion.RouteManager.{
  Build, PendingAck, Job, Outcome, resolved, rejected, Config, Env, Manager, find_ack, is_circuit,
  handle_hello_ack, schedule_rebuild,
}
use nkc.InternalOnion.RouteManager.Steps.{
  send_hello, finish_build, next_hop, resume, work, settle, run_jobs,
}

work-append : (js ks : List Job) → work (js ++ ks) ≡ work js + work ks
unfolding work
work-append [] ks = omega arith
work-append (j ∷ js) ks = omega (arith, work-append js ks)

work-snoc :
    (js : List Job) (b : Build) (o : Outcome)
    → work (js ++ record { build = b; outcome = o } ∷ []) ≡ work js + suc (length b.later_peers)
unfolding work
work-snoc js b o = omega (arith, work-append js (record { build = b; outcome = o } ∷ []))

-- An acknowledgement for the newest entry goes on with that entry's build.
newest_ack-work :
    (a : HopAck) (p : PendingAck) (ps : List PendingAck) (m : Manager)
    → m.pending_acks ≡ p ∷ ps
    → p.hop_index ≡ a.hop_index
    → work (handle_hello_ack a m).jobs ≤ work m.jobs + suc (length p.build.later_peers)
unfolding handle_hello_ack find_ack
newest_ack-work a p ps m newest same = elim (Bool-cases (is_circuit m.circuit a.circuit_id)) [
  | inr other ↦ simp other (omega arith)
  | inl current ↦
      let hit : find_ack a.hop_index m.pending_acks ≡ some p = found in
      simp (current, hit, handle_hello_ack) (omega (arith, work-snoc m.jobs p.build _))
]
  where
    found : find_ack a.hop_index m.pending_acks ≡ some p
    found = rw newest (ground arith)

-- A manager that answers itself goes on with the build of the entry that was just set.
send_hello-work :
    (c : Config) (e : Env) (b : Build) (peer : String) (m : Manager)
    → work (send_hello c e b peer m).jobs ≤ work m.jobs + suc (length b.later_peers)
unfolding send_hello
send_hello-work c e b peer m = elim (Bool-cases c.emits) [
  | inl emits ↦ simp emits (omega arith)
  | inr alone ↦ simp alone (newest_ack-work _ _ _ _ refl refl)
]

next_hop-work :
    (c : Config) (e : Env) (b : Build) (later : List String) (m : Manager)
    → work (next_hop c e b later m).jobs ≤ work m.jobs + length later
unfolding next_hop finish_build
next_hop-work c e b [] m = omega arith
next_hop-work c e b (peer ∷ later) m =
    send_hello-work c e (record b { hop_index = b.hop_index + 1; later_peers = later }) peer m

resume-work :
    (c : Config) (e : Env) (b : Build) (o : Outcome) (m : Manager)
    → work (resume c e (record { build = b; outcome = o }) m).jobs
      ≤ work m.jobs + length b.later_peers
unfolding resume schedule_rebuild
resume-work c e b (resolved a) m = next_hop-work c e b b.later_peers _
resume-work c e b (rejected code) m = ground arith

settle_empties :
    (c : Config) (e : Env) (fuel : ℕ) (m : Manager)
    → work m.jobs ≤ fuel
    → (settle c e fuel m).jobs ≡ []
unfolding settle work
settle_empties c e zero m h = no_work m.jobs h
  where
    no_work : (js : List Job) → work js ≤ 0 → js ≡ []
    no_work [] h' = refl
    no_work (j ∷ js) h' = absurd (omega arith)
settle_empties c e (suc fuel) m h = by_queue (settle_empties c e fuel) m.jobs refl
  where
    by_queue :
        ((n : Manager) → work n.jobs ≤ fuel → (settle c e fuel n).jobs ≡ [])
        → (js : List Job) → m.jobs ≡ js
        → (elim js as (λ _. Manager) [
          | [] ↦ m
          | job ∷ rest ↦ settle c e fuel (resume c e job (record m { jobs = rest }))
        ]).jobs
          ≡ []
    by_queue later [] eq = eq
    by_queue later (j ∷ js) eq =
        let all : work (j ∷ js) ≤ suc fuel = subst (λ q. work q ≤ suc fuel) eq h in
        later _ (omega (arith, resume-work c e j.build j.outcome (record m { jobs = js })))

-- The fuel that a turn takes is enough: it leaves no settled promise behind.
pub run_jobs_empties : (c : Config) (e : Env) (m : Manager) → (run_jobs c e m).jobs ≡ []
unfolding run_jobs
run_jobs_empties c e m = settle_empties c e (work m.jobs) m (omega arith)
