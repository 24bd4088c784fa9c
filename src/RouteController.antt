-- ===== src/RouteController.antt =====
-- The choice of a transport: src/net/routeController.ts, and src/net/transportPolicy.ts that asks it.
-- Times are milliseconds, as natural numbers. Shares are compared by cross-multiplication, which
-- agrees with the source's floating point for the lists of at most 200 and 20 entries kept here.
pub mod Histories
pub mod Fallback
use nkc.Base.{
  ℕ, zero, suc, ◌+◌, ◌-◌, ◌*◌, ◌/◌, Bool, true, false, ◌&&◌, ◌||◌, Option, none, some, List, [],
  ◌∷◌, ◌++◌, ltb, leb, if◌then◌else◌, length, get_elem?, keep, drop,
}
use nkc.Base.Sort

pub data Mode : Type 0 where
  direct_p2p self_onion onion_router : Mode

-- The fields of `NetConfig` that are read here.
pub record NetConfig : Type 0 where
  pub mode : Mode
  pub self_onion_enabled : Bool
  pub self_onion_min_relays : ℕ
  pub onion_enabled : Bool

pub data SendEvent : Type 0 where
  acked send_fail : SendEvent

-- Both histories have their oldest entry first.
pub record Controller : Type 0 where
  pub ack_rtts : List ℕ
  pub send_history : List SendEvent
  pub route_build_fail_streak : ℕ
  pub relay_pool_size : ℕ
  pub p95_over_since : Option ℕ
  pub fallback_until : ℕ

abbrev pub new_controller : Controller
new_controller = record {
  ack_rtts = [];
  send_history = [];
  route_build_fail_streak = 0;
  relay_pool_size = 0;
  p95_over_since = none;
  fallback_until = 0;
}

abbrev pub hold_ms : ℕ
hold_ms = 2 * 60 * 1000

-- `xs.push(x); if (xs.length > limit) xs.shift();`
unfoldable pub track : {A : Type 0} → ℕ → A → List A → List A
track limit x xs =
    let pushed = xs ++ (x ∷ []) in if ltb limit (length pushed) then drop 1 pushed else pushed

unfoldable pub track_rtt : ℕ → Controller → Controller
unfolding track
track_rtt rtt c = record c { ack_rtts = track 200 rtt c.ack_rtts }

unfoldable pub track_send_event : SendEvent → Controller → Controller
unfolding track
track_send_event event c = record c { send_history = track 20 event c.send_history }

unfoldable pub report_ack : ℕ → Controller → Controller
unfolding track_rtt track_send_event
report_ack rtt c = track_send_event acked (track_rtt rtt (record c { route_build_fail_streak = 0 }))

unfoldable pub report_send_fail : Controller → Controller
unfolding track_send_event
report_send_fail c = track_send_event send_fail c

unfoldable pub report_route_build_fail : Controller → Controller
report_route_build_fail c = record c { route_build_fail_streak = c.route_build_fail_streak + 1 }

unfoldable pub report_relay_pool_size : ℕ → Controller → Controller
report_relay_pool_size n c = record c { relay_pool_size = n }

-- `none` for an empty history.
unfoldable pub get_p95 : List ℕ → Option ℕ
get_p95 rtts = get_elem? (Sort.sort leb rtts) (length rtts * 95 / 100 - 1)

abbrev pub is_failure : SendEvent → Bool
is_failure send_fail = true
is_failure acked = false

-- More than three in ten of a full history have failed.
unfoldable pub too_many_failures : List SendEvent → Bool
too_many_failures history =
    leb 20 (length history) && ltb (3 * length history) (10 * length (keep is_failure history))

abbrev pub is_slow : Option ℕ → Bool
is_slow none = false
is_slow (some p95) = ltb 10000 p95

unfoldable pub should_fallback : NetConfig → ℕ → Controller → Bool × Controller
should_fallback config now c =
    if leb 3 c.route_build_fail_streak
    then (true, c)
    else if ltb 0 c.relay_pool_size && ltb c.relay_pool_size config.self_onion_min_relays
    then (true, c)
    else if too_many_failures c.send_history
    then (true, c)
    else if is_slow (get_p95 c.ack_rtts)
    then elim c.p95_over_since [
      | none ↦ (false, record c { p95_over_since = some now })
      | some since ↦ (leb hold_ms (now - since), c)
    ]
    else (false, record c { p95_over_since = none })

unfoldable pub decide_self_onion : NetConfig → ℕ → Controller → Mode × Controller
decide_self_onion config now c =
    if ltb now c.fallback_until
    then (onion_router, c)
    else (let (falls_back, next) = should_fallback config now c in
        if falls_back
        then (onion_router, record next { fallback_until = now + hold_ms })
        else (self_onion, next))

unfoldable pub decide_transport : NetConfig → ℕ → Controller → Mode × Controller
unfolding decide_self_onion
decide_transport config now c = elim config.mode [
  | direct_p2p ↦ (direct_p2p, c)
  | onion_router ↦ (onion_router, c)
  | self_onion ↦
      if config.self_onion_enabled then decide_self_onion config now c else (onion_router, c)
]

-- `decideRouterTransport` of src/net/transportPolicy.ts. There is no fourth mode, so its last line,
-- which asks the controller, is never reached.
unfoldable pub decide_router_transport : NetConfig → Mode
decide_router_transport config = if config.onion_enabled then onion_router else elim config.mode [
  | onion_router ↦ onion_router
  | self_onion ↦ self_onion
  | direct_p2p ↦ direct_p2p
]

pub data Event : Type 0 where
  acks : ℕ → Event
  send_fails build_fails : Event
  pool_has : ℕ → Event
  decides : NetConfig → ℕ → Event

unfoldable pub handle : Event → Controller → Controller
handle (acks rtt) c = report_ack rtt c
handle send_fails c = report_send_fail c
handle build_fails c = report_route_build_fail c
handle (pool_has n) c = report_relay_pool_size n c
handle (decides config now) c = (decide_transport config now c).1

unfoldable pub run : List Event → Controller → Controller
run [] c = c
run (x ∷ xs) c = run xs (handle x c)
