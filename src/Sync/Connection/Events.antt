-- ===== src/Sync/Connection/Events.antt =====
-- What comes to a connection manager, and what it does: src/sync/connectionManager.ts.
use nkc.Base.{
  ℕ, ◌-◌, Bool, true, false, not, ◌||◌, Option, none, some, List, [], ◌∷◌, String, str_eq, ◌==◌,
  ltb, is_some, if◌then◌else◌,
}
use nkc.Sync.Connection.{
  Manager, Opening, Options, awaits_connect, awaits_flush, awaits_schedule, delivers, emit,
  fail_opening, handle_connection_lost, has, is_connected, no_task, open_connection, opened, pings,
  plan_reconnect, pongs, refuses, schedule_reconnect_if_needed, start, stop, writes,
}

pub data Received : Type 0 where
  ping pong : String → Received
  data_bytes : ℕ → Received

abbrev pub is_awaited : Option String → String → Bool
is_awaited none id = false
is_awaited (some p) id = str_eq id p

unfoldable pub handle_incoming : Received → ℕ → Manager → Manager
handle_incoming (ping id) now m = elim m.connection [
  | none ↦ record m { last_activity = now }
  | some c ↦ emit (pongs c id) (record m { last_activity = now })
]
handle_incoming (pong id) now m =
    if is_awaited m.pending_ping id
    then record m { last_activity = now; pending_ping = none; pong_timer = none }
    else record m { last_activity = now }
handle_incoming (data_bytes b) now m = emit (delivers b) (record m { last_activity = now })

unfoldable pub maybe_send_ping : Options → ℕ → String → Manager → Manager
maybe_send_ping o now id m = elim m.connection [
  | none ↦ m
  | some c ↦
      if not (is_connected m.state) || is_some m.pending_ping
      then m
      else if ltb (now - m.last_activity) o.heartbeat_interval_ms
      then m
      else emit (pings c id) (record m { pending_ping = some id; pinging = c ∷ m.pinging })
]

unfoldable pub send : Manager → Manager
unfolding schedule_reconnect_if_needed
send m = elim m.connection [
  | none ↦ emit refuses (schedule_reconnect_if_needed m)
  | some c ↦
      if is_connected m.state
      then emit (writes c) m
      else emit refuses (schedule_reconnect_if_needed m)
]

-- One timer of the connection less.
abbrev pub without : ℕ → List ℕ → List ℕ
without c [] = []
without c (d ∷ ds) = if d == c then ds else d ∷ without c ds

abbrev pub left_running : Option ℕ → List ℕ → List ℕ
left_running none strays = strays
left_running (some c) strays = c ∷ strays

-- A ping has been sent: its timer starts, also where its pong has come in the meantime.
unfoldable pub ping_sent : ℕ → Manager → Manager
ping_sent c m =
    if has c m.pinging
    then record m {
      pinging = without c m.pinging;
      pong_timer = some c;
      strays = left_running m.pong_timer m.strays;
    }
    else m

unfoldable pub pong_times_out : Manager → Manager
unfolding handle_connection_lost
pong_times_out m = elim m.pong_timer [
  | none ↦ m
  | some c ↦ handle_connection_lost c (record m { pong_timer = none })
]

unfoldable pub stray_times_out : ℕ → Manager → Manager
unfolding handle_connection_lost
stray_times_out c m =
    if has c m.strays
    then handle_connection_lost c (record m { strays = without c m.strays })
    else m

unfoldable pub reconnect_fires : Manager → Manager
unfolding open_connection
reconnect_fires m = elim m.reconnect_timer [
  | none ↦ m
  | some delay ↦ open_connection (record m { reconnect_timer = none })
]

-- What may come. An answer that nothing awaits does not come.
pub data Event : Type 0 where
  starts stops sends connect_fails flushed flush_fails reconnects pong_late : Event
  connects_with : ℕ → ℕ → Event
  outbox_answers : Option Bool → Event
  receives : Received → ℕ → Event
  closes_itself write_fails ping_out stray_late written : ℕ → Event
  beats : ℕ → String → Event

abbrev pub is_connecting : Opening → Bool
is_connecting no_task = false
is_connecting awaits_connect = true
is_connecting awaits_flush = false
is_connecting awaits_schedule = false

abbrev pub is_flushing : Opening → Bool
is_flushing no_task = false
is_flushing awaits_connect = false
is_flushing awaits_flush = true
is_flushing awaits_schedule = false

unfoldable pub step : Options → Manager → Event → Manager
unfolding start stop send opened fail_opening plan_reconnect handle_incoming handle_connection_lost
    maybe_send_ping ping_sent pong_times_out stray_times_out reconnect_fires
step o m starts = start m
step o m stops = stop m
step o m sends = send m
step o m (connects_with c now) = if is_connecting m.opening then opened c now m else m
step o m connect_fails = if is_connecting m.opening then fail_opening m else m
step o m flushed = if is_flushing m.opening then record m { opening = no_task } else m
step o m flush_fails = if is_flushing m.opening then fail_opening m else m
step o m (outbox_answers answer) = if m.scheduling then plan_reconnect o answer m else m
step o m reconnects = reconnect_fires m
step o m (receives r now) = if is_some m.connection then handle_incoming r now m else m
step o m (closes_itself c) = handle_connection_lost c m
step o m (write_fails c) = handle_connection_lost c m
step o m (written now) = record m { last_activity = now }
step o m (beats now id) = if m.heartbeat then maybe_send_ping o now id m else m
step o m (ping_out c) = ping_sent c m
step o m pong_late = pong_times_out m
step o m (stray_late c) = stray_times_out c m

unfoldable pub run : Options → Manager → List Event → Manager
unfolding step
run o m [] = m
run o m (e ∷ es) = run o (step o m e) es
