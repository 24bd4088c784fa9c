-- ===== src/RouteController/Histories.antt =====
-- The histories of src/net/routeController.ts stay short, and hold the newest entries.
use nkc.Base.{ℕ, ◌≤◌, ◌≡◌, ap, List, [], ◌∷◌, length, length-append, arith}
use nkc.RouteController.{
  Controller, Event, NetConfig, track, report_ack, report_send_fail, track_rtt, track_send_event,
  report_route_build_fail, report_relay_pool_size, should_fallback, decide_self_onion,
  decide_transport, handle, run, acks, send_fails, build_fails, pool_has, decides,
}

length-track :
    {A : Type 0} (limit : ℕ) (x : A) (xs : List A)
    → length xs ≤ limit
    → length (track limit x xs) ≤ limit
unfolding track
length-track limit x [] h = ground arith
length-track limit x (y ∷ ys) h = ground (arith, length-append ys (x ∷ []))

-- The histories have at most 200 and 20 entries.
pub record Short (c : Controller) : Type 0 where
  pub rtts : length c.ack_rtts ≤ 200
  pub history : length c.send_history ≤ 20

decide_transport-keeps :
    (config : NetConfig) (now : ℕ) (c : Controller)
    → ((decide_transport config now c).1.ack_rtts ≡ c.ack_rtts)
      × ((decide_transport config now c).1.send_history ≡ c.send_history)
unfolding decide_transport decide_self_onion should_fallback
decide_transport-keeps config now c = ground arith

handle-Short : (x : Event) (c : Controller) → Short c → Short (handle x c)
unfolding handle report_ack report_send_fail track_rtt track_send_event report_route_build_fail
    report_relay_pool_size
handle-Short (acks rtt) c v = record {
  rtts = length-track 200 rtt c.ack_rtts v.rtts;
  history = length-track 20 _ c.send_history v.history;
}
handle-Short send_fails c v = record {
  rtts = v.rtts;
  history = length-track 20 _ c.send_history v.history;
}
handle-Short build_fails c v = record { rtts = v.rtts; history = v.history }
handle-Short (pool_has n) c v = record { rtts = v.rtts; history = v.history }
handle-Short (decides config now) c v =
    let same = decide_transport-keeps config now c in
    record {
      rtts = omega (arith, v.rtts, ap length same.0);
      history = omega (arith, v.history, ap length same.1);
    }

-- From histories of at most 200 round trips and 20 sends, whatever is reported and decided, the
-- histories stay within these bounds.
pub run-Short : (xs : List Event) (c : Controller) → Short c → Short (run xs c)
unfolding run
run-Short [] c v = v
run-Short (x ∷ xs) c v = run-Short xs (handle x c) (handle-Short x c v)
