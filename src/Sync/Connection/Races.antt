-- ===== src/Sync/Connection/Races.antt =====
-- Orders of events that break a good connection: src/sync/connectionManager.ts.
use nkc.Base.{
  ℕ, ◌-◌, ◌≡◌, refl, sym, subst, true, false, none, some, List, [], ◌∷◌, ◌++◌, String, eq_refl, ltb,
  is_some, ◌==◌, arith, ◌≤◌, ◌||◌,
}
use nkc.Sync.Connection.Lifetimes.Openings.{if-holds}
use nkc.Sync.Connection.{
  emit, detach_connection, stop_heartbeat, idle, connected, no_task, awaits_connect, Options,
  Manager, connects, asks_outbox, flushes, refuses, closes, schedule_reconnect_if_needed,
  open_connection, start, opened, plan_reconnect, planned, handle_connection_lost,
}
use nkc.Sync.Connection.Events.{
  Event, starts, sends, flushed, reconnects, connects_with, outbox_answers, receives, closes_itself,
  beats, ping_out, pong_late, Received, ping, pong, data_bytes, step, run, handle_incoming,
  maybe_send_ping, send, ping_sent, pong_times_out, reconnect_fires,
}

-- While the first connection is being made, of a manager that is not stopped and neither asks the
-- outbox nor waits to connect again, a call of `send` has the outbox asked. If something is pending
-- there, a timer for another connection starts, and the connection that is then made is closed for
-- the other when the timer fires, although nothing was wrong with it.
pub send_while_connecting :
    (o : Options) (m : Manager) (a b now later : ℕ)
    → m.closed ≡ false
    → m.opening ≡ awaits_connect
    → m.connection ≡ none
    → m.reconnect_timer ≡ none
    → m.scheduling ≡ false
    → let after = run o m (
        sends
        ∷ outbox_answers (some true)
        ∷ connects_with a now
        ∷ flushed
        ∷ reconnects
        ∷ connects_with b later
        ∷ []) in
      (after.connection ≡ some b)
      × (after.effects
          ≡ flushes ∷ closes a ∷ connects ∷ flushes ∷ refuses ∷ asks_outbox ∷ m.effects)
unfolding run step send schedule_reconnect_if_needed plan_reconnect planned opened reconnect_fires
    open_connection
send_while_connecting o m a b now later live opening none_yet no_timer unasked =
    let given : Path Manager
        (record m {
          closed = false;
          opening = awaits_connect;
          connection = none;
          reconnect_timer = none;
          scheduling = false;
        })
        m =
      λ i. record m {
        closed = sym live i;
        opening = sym opening i;
        connection = sym none_yet i;
        reconnect_timer = sym no_timer i;
        scheduling = sym unasked i;
      } in
    let es =
      sends
      ∷ outbox_answers (some true)
      ∷ connects_with a now
      ∷ flushed
      ∷ reconnects
      ∷ connects_with b later
      ∷ [] in
    subst
      (λ n.
        ((run o n es).connection ≡ some b)
        × ((run o n es).effects
            ≡ flushes ∷ closes a ∷ connects ∷ flushes ∷ refuses ∷ asks_outbox ∷ n.effects))
      given (refl, refl)

-- A manager that is not stopped loses its connection, while no opening, question or timer is under
-- way, and is started again while the outbox is being asked. The new connection is attached, but the
-- answer that nothing is pending makes the manager idle: a call of `send` is refused, and asks the
-- outbox again, although the connection is there.
pub start_while_asking :
    (o : Options) (m : Manager) (c d now : ℕ)
    → m.closed ≡ false
    → m.opening ≡ no_task
    → m.connection ≡ some c
    → m.reconnect_timer ≡ none
    → m.scheduling ≡ false
    → let after = run o m (
        closes_itself c
        ∷ starts
        ∷ connects_with d now
        ∷ flushed
        ∷ outbox_answers (some false)
        ∷ []) in
      (after.connection ≡ some d)
      × (after.state ≡ idle)
      × ((send after).effects ≡ refuses ∷ asks_outbox ∷ after.effects)
unfolding run step send handle_connection_lost schedule_reconnect_if_needed start open_connection
    opened plan_reconnect planned
start_while_asking o m c d now live opening attached no_timer unasked =
    let given : Path Manager
        (record m {
          closed = false;
          opening = no_task;
          connection = some c;
          reconnect_timer = none;
          scheduling = false;
        })
        m =
      λ i. record m {
        closed = sym live i;
        opening = sym opening i;
        connection = sym attached i;
        reconnect_timer = sym no_timer i;
        scheduling = sym unasked i;
      } in
    let es =
      closes_itself c ∷ starts ∷ connects_with d now ∷ flushed ∷ outbox_answers (some false) ∷ [] in
    let same : (c == c) ≡ true = ground arith in
    subst
      (λ n.
        ((run o n es).connection ≡ some d)
        × ((run o n es).state ≡ idle)
        × ((send (run o n es)).effects ≡ refuses ∷ asks_outbox ∷ (run o n es).effects))
      given (rw same (refl, refl, refl))

-- A connection without a pending ping whose timer for a pong runs.
record IsTimed (c : ℕ) (m : Manager) : Type 0 where
  live : m.closed ≡ false
  attached : m.connection ≡ some c
  timed : m.pong_timer ≡ some c
  unasked : m.pending_ping ≡ none

handle_incoming-IsTimed :
    (c : ℕ) (r : Received) (now : ℕ) (m : Manager)
    → IsTimed c m
    → IsTimed c (handle_incoming r now m)
unfolding handle_incoming
handle_incoming-IsTimed c (ping id) now m t =
    rw t.attached (record { live = t.live; attached = refl; timed = t.timed; unasked = t.unasked })
handle_incoming-IsTimed c (pong id) now m t =
    rw t.unasked (record { live = t.live; attached = t.attached; timed = t.timed; unasked = refl })
handle_incoming-IsTimed c (data_bytes b) now m t = record {
  live = t.live;
  attached = t.attached;
  timed = t.timed;
  unasked = t.unasked;
}

abbrev pub all_received : List (Received × ℕ) → List Event
all_received [] = []
all_received ((r, now) ∷ rs) = receives r now ∷ all_received rs

step-IsTimed :
    (o : Options) (c : ℕ) (r : Received) (now : ℕ) (m : Manager)
    → IsTimed c m
    → IsTimed c (step o m (receives r now))
unfolding step
step-IsTimed o c r now m t =
    if-holds (IsTimed c) (is_some m.connection) {x = handle_incoming r now m} {y = m}
      (λ e. handle_incoming-IsTimed c r now m t) (λ e. t)

schedule-connection : (m : Manager) → (schedule_reconnect_if_needed m).connection ≡ m.connection
unfolding schedule_reconnect_if_needed
schedule-connection m =
    if-holds (λ n. n.connection ≡ m.connection)
      (m.closed || (is_some m.reconnect_timer || m.scheduling)) {x = m}
      {y = emit asks_outbox (record m { scheduling = true })} (λ e. refl) (λ e. refl)

pong_times_out-IsTimed : (c : ℕ) (m : Manager) → IsTimed c m → (pong_times_out m).connection ≡ none
unfolding pong_times_out handle_connection_lost
pong_times_out-IsTimed c m t =
    let given : Path Manager (record m { closed = false; connection = some c; pong_timer = some c })
        m =
      λ i. record m {
        closed = sym t.live i;
        connection = sym t.attached i;
        pong_timer = sym t.timed i;
      } in
    let same : (c == c) ≡ true = ground arith in
    let lost = record m { closed = false; connection = some c; pong_timer = none } in
    subst (λ n. (pong_times_out n).connection ≡ none) given
      (rw same (schedule-connection (detach_connection (stop_heartbeat lost))))

run-IsTimed :
    (o : Options) (c : ℕ) (rs : List (Received × ℕ)) (m : Manager)
    → IsTimed c m
    → (run o m (all_received rs ++ (pong_late ∷ []))).connection ≡ none
unfolding run
run-IsTimed o c [] m t = pong_times_out-IsTimed c m t
run-IsTimed o c ((r, now) ∷ rs) m t =
    run-IsTimed o c rs (step o m (receives r now)) (step-IsTimed o c r now m t)

-- A connected manager that is not stopped, has its heartbeat on and has heard nothing for the interval
-- of the heartbeat sends a ping. If the pong comes before the sending is known to have ended, the
-- timer for the pong is started all the same, and when it fires the connection is closed, whatever
-- has been received over it in the meantime.
pub early_pong :
    (o : Options) (m : Manager) (c now soon : ℕ) (id : String) (rs : List (Received × ℕ))
    → m.closed ≡ false
    → m.state ≡ connected
    → m.connection ≡ some c
    → m.heartbeat ≡ true
    → m.pending_ping ≡ none
    → o.heartbeat_interval_ms ≤ now - m.last_activity
    → let after = run o m (
        beats now id
        ∷ receives (pong id) soon
        ∷ ping_out c
        ∷ (all_received rs ++ (pong_late ∷ []))) in
      after.connection ≡ none
unfolding run step maybe_send_ping handle_incoming ping_sent
early_pong o m c now soon id rs live state attached beating unasked quiet =
    let given : Path Manager
        (record m {
          closed = false;
          state = connected;
          connection = some c;
          heartbeat = true;
          pending_ping = none;
        })
        m =
      λ i. record m {
        closed = sym live i;
        state = sym state i;
        connection = sym attached i;
        heartbeat = sym beating i;
        pending_ping = sym unasked i;
      } in
    let es = beats now id ∷ receives (pong id) soon ∷ ping_out c ∷ [] in
    let due : ltb (now - m.last_activity) o.heartbeat_interval_ms ≡ false = ground arith in
    let same : (c == c) ≡ true = ground arith in
    run-IsTimed o c rs (run o m es) (
      subst (λ n. IsTimed c (run o n es)) given
        (rw (due, eq_refl id, same)
          (record { live = refl; attached = refl; timed = refl; unasked = refl })))
