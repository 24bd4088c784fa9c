-- ===== src/Tests/Routes.antt =====
-- A controller that falls back after three failed builds, and a transfer window.
use nkc.Base.{◌≡◌, refl, true, false, [], ◌∷◌, arith, if◌then◌else◌, leb}
use nkc.RouteController.{
  Controller, NetConfig, self_onion, onion_router, new_controller, acks, run, decide_transport,
  decide_self_onion, should_fallback,
}
use nkc.RouteController.Fallback.{decide_transport-holds}
use nkc.TransferWindow.{after, streak, after_lem}

abbrev config : NetConfig
config = record {
  mode = self_onion;
  self_onion_enabled = true;
  self_onion_min_relays = 3;
  onion_enabled = false;
}

abbrev failing : Controller
failing = record new_controller { route_build_fail_streak = 3 }

decide_transport-holds_example :
    decide_transport config 100 (run (acks 20 ∷ []) (decide_transport config 10 failing).1)
    ≡ (onion_router, run (acks 20 ∷ []) (decide_transport config 10 failing).1)
unfolding decide_transport decide_self_onion should_fallback
decide_transport-holds_example =
    decide_transport-holds config 10 100 (acks 20 ∷ []) failing refl refl (omega arith) refl
      (omega arith)

after_lem_example :
    (after 2 3 (true ∷ true ∷ true ∷ false ∷ [])).window
    ≡ (if leb 3 (streak 2 3 (true ∷ true ∷ true ∷ false ∷ [])) then 2 else 1)
after_lem_example = after_lem 2 3 (true ∷ true ∷ true ∷ false ∷ []) (omega arith) (omega arith)
