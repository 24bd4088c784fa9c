-- ===== src/InternalOnion/RouteManager/Invariant/Builds.antt =====
-- The invariant of the route manager, and the builds that keep it.
use nkc.Base.{
  ℕ, zero, suc, ◌+◌, ◌-◌, ◌≤◌, ◌≡◌, refl, sym, ◌∙◌, subst, Bool, true, false, none, some, List, [],
  ◌∷◌, ◌++◌, String, if◌then◌else◌, length, All, min, arith,
}
use nkc.InternalOnion.{RouteStatus, RouteState}
use nkc.InternalOnion.RouteManager.{
  Build, Job, Outcome, resolved, rejected, Config, Env, Manager, Job, clamp_desired_hops,
  compute_established_hops, with_hops, rebuild_delay, schedule_rebuild, clear_pending_acks,
  reject_all,
}
use nkc.InternalOnion.RouteManager.Steps.{
  finish_build, next_hop, acked_route, degraded_route, resume, settle, begin_build,
  build_route_internal, stop, select_peers,
}
use nkc.InternalOnion.RouteManager.Invariant.Lists.{
  length-update_hop, length-map-revived, length-create_hops, established-create_hops,
  All-reject_all, JobFits,
}
use nkc.InternalOnion.RouteManager.Invariant.Frames.{Same, Fits, send_hello-Same, send_hello-Fits}

-- The count of established hops is right, the route has one hop for each that is wanted, as many as
-- the manager wants, between one and six, the index into the delays is in range, and a stopped
-- manager has no rebuild ahead; and no build of another number of hops can go on.
pub record Sound (c : Config) (m : Manager) : Type 0 where
  pub counted : m.route.established_hops ≡ compute_established_hops m.route.hops
  pub sized : length m.route.hops ≡ m.route.desired_hops
  pub agreed : m.route.desired_hops ≡ m.desired_hops
  pub at_least_one : 1 ≤ m.desired_hops
  pub at_most_six : m.desired_hops ≤ 6
  pub in_range : m.backoff_index ≤ length c.rebuild_backoff_ms - 1
  pub quiet : m.running ≡ false → m.rebuild_timer ≡ none
  pub fits : Fits m.route.desired_hops m

module _ (c : Config) where
  pub Same-Sound : (m n : Manager) → Same m n → Fits m.route.desired_hops n → Sound c m → Sound c n
  Same-Sound m n s f v = record {
    counted = ground arith;
    sized = ground arith;
    agreed = ground (arith, v.agreed);
    at_least_one = ground arith;
    at_most_six = ground arith;
    in_range = ground arith;
    quiet = λ h. ground (arith, v.quiet);
    fits = subst (λ (r : RouteState). Fits r.desired_hops n) (sym s.route) f;
  }

  pub schedule_rebuild-Sound :
      (reason : String) (m : Manager) → Sound c m → Sound c (schedule_rebuild c reason m)
  unfolding schedule_rebuild
  schedule_rebuild-Sound reason m v = by_running m.running refl
    where
      by_running :
          (on : Bool)
          → m.running ≡ on
          → Sound c (
              if on
              then record m {
                rebuild_timer = some (record {
                  reason = reason;
                  delay_ms = rebuild_delay c.rebuild_backoff_ms m.backoff_index;
                });
                backoff_index = min (m.backoff_index + 1) (length c.rebuild_backoff_ms - 1);
              }
              else m)
      by_running false off = v
      by_running true on = record {
        counted = v.counted;
        sized = v.sized;
        agreed = v.agreed;
        at_least_one = v.at_least_one;
        at_most_six = v.at_most_six;
        in_range = omega arith;
        quiet = λ h. cc;
        fits = record { entries = v.fits.entries; queue = v.fits.queue };
      }

  -- A route with other hops, as many, and their count.
  pub rerouted-Sound :
      (m : Manager) (r : RouteState)
      → r.established_hops ≡ compute_established_hops r.hops
      → length r.hops ≡ r.desired_hops
      → r.desired_hops ≡ m.route.desired_hops
      → Sound c m
      → Sound c (record m { route = r })
  rerouted-Sound m r counted sized same v = record {
    counted = counted;
    sized = sized;
    agreed = same ∙ v.agreed;
    at_least_one = v.at_least_one;
    at_most_six = v.at_most_six;
    in_range = v.in_range;
    quiet = v.quiet;
    fits = rw same (record { entries = v.fits.entries; queue = v.fits.queue });
  }

  pub finish_build-Sound :
      (e : Env) (b : Build) (m : Manager)
      → b.desired_hops ≡ m.route.desired_hops
      → Sound c m
      → Sound c (finish_build e b m)
  unfolding finish_build
  finish_build-Sound e b m same v = record {
    counted = refl;
    sized = omega (arith, length-map-revived m.route.hops);
    agreed = same ∙ v.agreed;
    at_least_one = v.at_least_one;
    at_most_six = v.at_most_six;
    in_range = omega arith;
    quiet = v.quiet;
    fits = rw same (record { entries = v.fits.entries; queue = v.fits.queue });
  }

  pub next_hop-Sound :
      (e : Env) (b : Build) (later : List String) (m : Manager)
      → b.desired_hops ≡ m.route.desired_hops
      → Sound c m
      → Sound c (next_hop c e b later m)
  unfolding next_hop
  next_hop-Sound e b [] m same v = finish_build-Sound e b m same v
  next_hop-Sound e b (peer ∷ later) m same v =
      Same-Sound m _ (send_hello-Same c e _ peer m)
        (send_hello-Fits c e (record b { hop_index = b.hop_index + 1; later_peers = later }) peer
          m.route.desired_hops m same v.fits)
        v

  pub resume-Sound :
      (e : Env) (b : Build) (o : Outcome) (m : Manager)
      → JobFits m.route.desired_hops (record { build = b; outcome = o })
      → Sound c m
      → Sound c (resume c e (record { build = b; outcome = o }) m)
  unfolding resume acked_route degraded_route with_hops
  resume-Sound e b (resolved a) m same v =
      next_hop-Sound e b b.later_peers _ same
        (rerouted-Sound m _ refl (length-update_hop b.hop_index _ m.route.hops ∙ v.sized) refl v)
  resume-Sound e b (rejected code) m same v =
      schedule_rebuild-Sound b.failure_reason _
        (rerouted-Sound m _ refl (length-update_hop b.hop_index _ m.route.hops ∙ v.sized) refl v)

  pub dequeue-Sound :
      (m : Manager) (j : Job) (js : List Job)
      → m.jobs ≡ j ∷ js
      → Sound c m
      → JobFits m.route.desired_hops j × Sound c (record m { jobs = js })
  dequeue-Sound m j js e v =
      let queue : All (JobFits m.route.desired_hops) (j ∷ js) =
        subst (All (JobFits m.route.desired_hops)) e v.fits.queue in
      (
        queue.0,
        record {
          counted = v.counted;
          sized = v.sized;
          agreed = v.agreed;
          at_least_one = v.at_least_one;
          at_most_six = v.at_most_six;
          in_range = v.in_range;
          quiet = v.quiet;
          fits = record { entries = v.fits.entries; queue = queue.1 };
        },
      )

  pub settle-Sound : (e : Env) (fuel : ℕ) (m : Manager) → Sound c m → Sound c (settle c e fuel m)
  unfolding settle
  settle-Sound e zero m v = v
  settle-Sound e (suc fuel) m v = by_queue (settle-Sound e fuel) m.jobs refl
    where
      by_queue :
          ((n : Manager) → Sound c n → Sound c (settle c e fuel n))
          → (js : List Job) → m.jobs ≡ js
          → Sound c (elim js [
            | [] ↦ m
            | job ∷ rest ↦ settle c e fuel (resume c e job (record m { jobs = rest }))
          ])
      by_queue later [] eq = v
      by_queue later (j ∷ js) eq =
          let (fits, w) = dequeue-Sound m j js eq v in
          later _ (resume-Sound e j.build j.outcome (record m { jobs = js }) fits w)

  -- A manager with a new route, once its builds have been given up.
  cleared-Fits :
      (d : ℕ) (code : String) (m : Manager)
      → m.jobs ≡ []
      → All (JobFits d) (m.jobs ++ reject_all code m.pending_acks)
  cleared-Fits d code m none_left = rw none_left (All-reject_all d code m.pending_acks)

  pub begin_build-Sound :
      (e : Env) (d : ℕ) (again : Bool) (reason : String) (peers : List String) (m : Manager)
      → m.pending_acks ≡ []
      → All (JobFits d) m.jobs
      → d ≡ m.desired_hops
      → 1 ≤ m.desired_hops
      → m.desired_hops ≤ 6
      → m.backoff_index ≤ length c.rebuild_backoff_ms - 1
      → (m.running ≡ false → m.rebuild_timer ≡ none)
      → Sound c (begin_build c e d again reason peers m)
  unfolding begin_build
  begin_build-Sound e d again reason [] m no_acks queue wanted low high index quiet =
      schedule_rebuild-Sound "NO_RELAY_PEERS" _ (record {
        counted = sym (established-create_hops d []);
        sized = length-create_hops d [];
        agreed = wanted;
        at_least_one = low;
        at_most_six = high;
        in_range = index;
        quiet = quiet;
        fits = record { entries = rw no_acks tt; queue = queue };
      })
  begin_build-Sound e d again reason (peer ∷ later) m no_acks queue wanted low high index quiet =
      Same-Sound _ _ (send_hello-Same c e _ peer _)
        (send_hello-Fits c e _ peer d _ refl (record { entries = rw no_acks tt; queue = queue }))
        (record {
          counted = sym (established-create_hops d (peer ∷ later));
          sized = length-create_hops d (peer ∷ later);
          agreed = wanted;
          at_least_one = low;
          at_most_six = high;
          in_range = index;
          quiet = quiet;
          fits = record { entries = rw no_acks tt; queue = queue };
        })

  pub clamp_bounds : (n : ℕ) → (1 ≤ clamp_desired_hops n) × (clamp_desired_hops n ≤ 6)
  unfolding clamp_desired_hops
  clamp_bounds n = omega arith

  pub build_route_internal-Sound :
      (e : Env) (d : ℕ) (again : Bool) (reason : String) (m : Manager)
      → m.jobs ≡ []
      → m.backoff_index ≤ length c.rebuild_backoff_ms - 1
      → (m.running ≡ false → m.rebuild_timer ≡ none)
      → Sound c (build_route_internal c e d again reason m)
  unfolding build_route_internal clear_pending_acks
  build_route_internal-Sound e d again reason m none_left index quiet =
      let hops = clamp_desired_hops d in
      begin_build-Sound e hops again reason (select_peers e hops) _ refl
        (cleared-Fits hops "BUILD_REPLACED" m none_left) refl (clamp_bounds d).0 (clamp_bounds d).1
        index quiet

  pub stop-Sound :
      (e : Env) (status : RouteStatus) (m : Manager)
      → m.jobs ≡ []
      → Sound c m
      → Sound c (stop e status m)
  unfolding stop clear_pending_acks
  stop-Sound e status m none_left v = record {
    counted = sym (established-create_hops m.desired_hops []);
    sized = length-create_hops m.desired_hops [];
    agreed = refl;
    at_least_one = v.at_least_one;
    at_most_six = v.at_most_six;
    in_range = omega arith;
    quiet = λ h. refl;
    fits = record { entries = tt; queue = cleared-Fits m.desired_hops "ROUTE_STOPPED" m none_left };
  }
