-- ===== src/Sync/Connection/Lifetimes/Traffic.antt =====
-- What is sent, received and timed keeps a manager sound: src/sync/connectionManager.ts.
use nkc.Base.{
  ℕ, ◌≡◌, refl, sym, ap, true, false, none, some, ◌∷◌, String, is_some, ◌||◌, ◌&&◌, ◌==◌, ltb, ◌-◌,
  not, ◌∙◌, arith, if◌then◌else◌,
}
use nkc.Sync.Connection.{
  refuses, writes, pongs, pings, is_connected, has, awaits_schedule, no_task, Options, Manager,
  schedule_reconnect_if_needed, fail_opening, handle_connection_lost, open_connection, start,
  detach_connection, stop_heartbeat, emit, asks_outbox,
}
use nkc.Sync.Connection.Events.{
  is_awaited, without, left_running, handle_incoming, maybe_send_ping, send, ping_sent,
  pong_times_out, stray_times_out, reconnect_fires, ping, pong, data_bytes, Received,
}
use nkc.Sync.Connection.Lifetimes.Openings.{
  IsSound, open_lem, if-holds, elim-holds, kept, dropped-IsSound, schedule-IsSound,
  open_connection-IsSound,
}

-- The outbox is being asked, unless there is no need.
pub is_asked :
    (m : Manager)
    → (m.closed || is_some m.reconnect_timer) ≡ false
    → (schedule_reconnect_if_needed m).scheduling ≡ true
unfolding schedule_reconnect_if_needed
is_asked m e =
    if-holds (λ n. n.scheduling ≡ true) (m.closed || (is_some m.reconnect_timer || m.scheduling))
      {x = m} {y = emit asks_outbox (record m { scheduling = true })} (λ f. ground arith)
      (λ f. refl)

pub true-false : true ≡ false → ⊥
true-false e = cc

module _ (o : Options) (m : Manager) (s : IsSound o m) where
  pub fail_opening-IsSound : IsSound o (fail_opening m)
  unfolding fail_opening
  fail_opening-IsSound =
      let detached = detach_connection (stop_heartbeat m) in
      let d = dropped-IsSound o m s in
      let e = schedule-IsSound o detached d in
      if-holds (IsSound o) (detached.closed || is_some detached.reconnect_timer)
        {x = record detached { opening = no_task }}
        {y = record (schedule_reconnect_if_needed detached) { opening = awaits_schedule }}
        (λ e. kept o detached _ d refl refl refl refl refl d.ping_lem (λ w. cc))
        (λ f. kept o _ _ e refl refl refl refl refl e.ping_lem (λ w. is_asked detached f))

  pub handle_connection_lost-IsSound : (c : ℕ) → IsSound o (handle_connection_lost c m)
  unfolding handle_connection_lost
  handle_connection_lost-IsSound c =
      elim-holds (IsSound o) m.connection {x = m}
        {f = λ d.
          if m.closed || not (c == d)
          then m
          else schedule_reconnect_if_needed (detach_connection (stop_heartbeat m))}
        (λ e. s)
        (λ d e.
          if-holds (IsSound o) (m.closed || not (c == d)) {x = m}
            {y = schedule_reconnect_if_needed (detach_connection (stop_heartbeat m))} (λ f. s)
            (λ f. schedule-IsSound o _ (dropped-IsSound o m s)))

  pub start-IsSound : IsSound o (start m)
  unfolding start
  start-IsSound =
      let live = record m { closed = false } in
      let l : IsSound o live =
        open_lem o live refl s.heartbeat_lem s.ping_lem s.bounded s.waiting in
      if-holds (IsSound o) (is_some m.connection && is_connected m.state) {x = live}
        {y = open_connection live} (λ e. l) (λ e. open_connection-IsSound o live l)

  pub send-IsSound : IsSound o (send m)
  unfolding send
  send-IsSound =
      let t = schedule_reconnect_if_needed m in
      let again : IsSound o (emit refuses t) =
        let u = schedule-IsSound o m s in
        kept o t _ u refl refl refl refl refl u.ping_lem u.waiting in
      elim-holds (IsSound o) m.connection {x = emit refuses t}
        {f = λ c. if is_connected m.state then emit (writes c) m else emit refuses t} (λ e. again)
        (λ c e.
          if-holds (IsSound o) (is_connected m.state) {x = emit (writes c) m} {y = emit refuses t}
            (λ f. kept o m _ s refl refl refl refl refl s.ping_lem s.waiting) (λ f. again))

  pub handle_incoming-IsSound : (r : Received) (now : ℕ) → IsSound o (handle_incoming r now m)
  unfolding handle_incoming
  handle_incoming-IsSound (ping id) now =
      elim-holds (IsSound o) m.connection {x = record m { last_activity = now }}
        {f = λ c. emit (pongs c id) (record m { last_activity = now })}
        (λ e. kept o m _ s refl refl refl refl refl s.ping_lem s.waiting)
        (λ c e. kept o m _ s refl refl refl refl refl s.ping_lem s.waiting)
  handle_incoming-IsSound (pong id) now =
      if-holds (IsSound o) (is_awaited m.pending_ping id)
        {x = record m { last_activity = now; pending_ping = none; pong_timer = none }}
        {y = record m { last_activity = now }}
        (λ e. kept o m _ s refl refl refl refl refl (λ h. refl) s.waiting)
        (λ e. kept o m _ s refl refl refl refl refl s.ping_lem s.waiting)
  handle_incoming-IsSound (data_bytes b) now =
      kept o m _ s refl refl refl refl refl s.ping_lem s.waiting

  pub maybe_send_ping-IsSound : (now : ℕ) (id : String) → IsSound o (maybe_send_ping o now id m)
  unfolding maybe_send_ping
  maybe_send_ping-IsSound now id =
      let sent = λ (c : ℕ).
        emit (pings c id) (record m { pending_ping = some id; pinging = c ∷ m.pinging }) in
      elim-holds (IsSound o) m.connection {x = m}
        {f = λ c.
          if not (is_connected m.state) || is_some m.pending_ping
          then m
          else if ltb (now - m.last_activity) o.heartbeat_interval_ms
          then m
          else sent c}
        (λ e. s)
        (λ c e.
          if-holds (IsSound o) (not (is_connected m.state) || is_some m.pending_ping) {x = m}
            {y = if ltb (now - m.last_activity) o.heartbeat_interval_ms then m else sent c} (λ f. s)
            (λ f.
              if-holds (IsSound o) (ltb (now - m.last_activity) o.heartbeat_interval_ms) {x = m}
                {y = sent c} (λ g. s)
                (λ g.
                  kept o m (sent c) s refl refl refl refl refl
                    (λ h. absurd (true-false (sym (ap is_some e) ∙ sym s.heartbeat_lem ∙ h)))
                    s.waiting)))

  pub ping_sent-IsSound : (c : ℕ) → IsSound o (ping_sent c m)
  unfolding ping_sent
  ping_sent-IsSound c =
      if-holds (IsSound o) (has c m.pinging)
        {x = record m {
          pinging = without c m.pinging;
          pong_timer = some c;
          strays = left_running m.pong_timer m.strays;
        }}
        {y = m} (λ e. kept o m _ s refl refl refl refl refl s.ping_lem s.waiting) (λ e. s)

module _ (o : Options) (m : Manager) (s : IsSound o m) where
  pub pong_times_out-IsSound : IsSound o (pong_times_out m)
  unfolding pong_times_out
  pong_times_out-IsSound =
      elim-holds (IsSound o) m.pong_timer {x = m}
        {f = λ c. handle_connection_lost c (record m { pong_timer = none })} (λ e. s)
        (λ c e.
          handle_connection_lost-IsSound o (record m { pong_timer = none })
            (kept o m _ s refl refl refl refl refl s.ping_lem s.waiting) c)

  pub stray_times_out-IsSound : (c : ℕ) → IsSound o (stray_times_out c m)
  unfolding stray_times_out
  stray_times_out-IsSound c =
      let fired = record m { strays = without c m.strays } in
      if-holds (IsSound o) (has c m.strays) {x = handle_connection_lost c fired} {y = m}
        (λ e.
          handle_connection_lost-IsSound o fired
            (kept o m fired s refl refl refl refl refl s.ping_lem s.waiting) c)
        (λ e. s)

  pub reconnect_fires-IsSound : IsSound o (reconnect_fires m)
  unfolding reconnect_fires
  reconnect_fires-IsSound =
      let fired = record m { reconnect_timer = none } in
      elim-holds (IsSound o) m.reconnect_timer {x = m} {f = λ d. open_connection fired} (λ e. s)
        (λ d e. open_connection-IsSound o fired (record {
          state_lem = s.state_lem;
          connection_lem = s.connection_lem;
          timer_lem = λ c. refl;
          heartbeat_lem = s.heartbeat_lem;
          ping_lem = s.ping_lem;
          bounded = λ d t. cc;
          waiting = s.waiting;
        }))
