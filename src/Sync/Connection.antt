-- ===== src/Sync/Connection.antt =====
-- The connection to a peer that is opened, watched and opened again:
-- src/sync/connectionManager.ts. A connection is a number; its `close` returns at once, as in both
-- kinds that the source makes. What else is awaited is settled by an event.
pub mod Events
pub mod Lifetimes
pub mod Recovery
pub mod Races
use nkc.Base.{
  ℕ, ◌+◌, ◌-◌, ◌*◌, ◌^◌, Bool, true, false, not, ◌&&◌, ◌||◌, Option, none, some, List, [], ◌∷◌,
  String, str_eq, ◌==◌, ltb, is_some, if◌then◌else◌, min,
}

pub data ConnectionState : Type 0 where
  idle connecting connected reconnecting closed : ConnectionState

-- Where the task of `openInFlight` stands: it awaits the connection, the outbox, or the planning of
-- the next attempt.
pub data Opening : Type 0 where
  no_task awaits_connect awaits_flush awaits_schedule : Opening

-- What the manager asks of its surroundings.
pub data Effect : Type 0 where
  connects asks_outbox flushes refuses : Effect
  closes writes delivers : ℕ → Effect
  pings pongs : ℕ → String → Effect

pub record Options : Type 0 where
  pub heartbeat_interval_ms : ℕ
  pub max_backoff_ms : ℕ

-- `reconnect_timer` has the delay, `pong_timer` the connection that it watches. `strays` are the
-- timers of pongs that still run while the field holds a later one. `pinging` are the connections
-- over which a ping is being sent. `effects` has the latest first.
pub record Manager : Type 0 where
  pub state : ConnectionState
  pub connection : Option ℕ
  pub reconnect_timer : Option ℕ
  pub heartbeat : Bool
  pub pong_timer : Option ℕ
  pub strays : List ℕ
  pub pending_ping : Option String
  pub pinging : List ℕ
  pub reconnect_attempt : ℕ
  pub last_activity : ℕ
  pub closed : Bool
  pub opening : Opening
  pub scheduling : Bool
  pub effects : List Effect

abbrev pub has : ℕ → List ℕ → Bool
has c [] = false
has c (d ∷ ds) = d == c || has c ds

abbrev pub new_manager : Manager
new_manager = record {
  state = idle;
  connection = none;
  reconnect_timer = none;
  heartbeat = false;
  pong_timer = none;
  strays = [];
  pending_ping = none;
  pinging = [];
  reconnect_attempt = 0;
  last_activity = 0;
  closed = false;
  opening = no_task;
  scheduling = false;
  effects = [];
}

abbrev pub emit : Effect → Manager → Manager
emit e m = record m { effects = e ∷ m.effects }

unfoldable pub backoff_delay_ms : ℕ → ℕ → ℕ
backoff_delay_ms attempt max_backoff_ms = min (2 ^ attempt * 1000) max_backoff_ms

abbrev pub stop_heartbeat : Manager → Manager
stop_heartbeat m = record m { heartbeat = false; pong_timer = none; pending_ping = none }

abbrev pub detach_connection : Manager → Manager
detach_connection m = elim m.connection [
  | none ↦ m
  | some c ↦ emit (closes c) (record m { connection = none })
]

-- The heartbeat starts anew, with no ping pending.
abbrev pub start_heartbeat : Manager → Manager
start_heartbeat m = record (stop_heartbeat m) { heartbeat = true }

abbrev pub attach_connection : ℕ → ℕ → Manager → Manager
attach_connection c now m = record (detach_connection m) {
  connection = some c;
  last_activity = now;
}

-- The outbox is asked whether to connect again, unless that is planned or being asked already.
unfoldable pub schedule_reconnect_if_needed : Manager → Manager
schedule_reconnect_if_needed m =
    if m.closed || (is_some m.reconnect_timer || m.scheduling)
    then m
    else emit asks_outbox (record m { scheduling = true })

-- The task of an opening goes on until the planning that it waits for is done.
unfoldable pub fail_opening : Manager → Manager
unfolding schedule_reconnect_if_needed
fail_opening m =
    let detached = detach_connection (stop_heartbeat m) in
    if detached.closed || is_some detached.reconnect_timer
    then record detached { opening = no_task }
    else record (schedule_reconnect_if_needed detached) { opening = awaits_schedule }

unfoldable pub handle_connection_lost : ℕ → Manager → Manager
unfolding schedule_reconnect_if_needed
handle_connection_lost c m = elim m.connection [
  | none ↦ m
  | some d ↦
      if m.closed || not (c == d)
      then m
      else schedule_reconnect_if_needed (detach_connection (stop_heartbeat m))
]

abbrev pub is_idle : Opening → Bool
is_idle no_task = true
is_idle awaits_connect = false
is_idle awaits_flush = false
is_idle awaits_schedule = false

abbrev pub is_connected : ConnectionState → Bool
is_connected idle = false
is_connected connecting = false
is_connected connected = true
is_connected reconnecting = false
is_connected closed = false

-- An opening that is going on is joined.
unfoldable pub open_connection : Manager → Manager
open_connection m =
    if m.closed || not (is_idle m.opening)
    then m
    else emit connects (record m { state = connecting; opening = awaits_connect })

unfoldable pub start : Manager → Manager
unfolding open_connection
start m =
    let opened = record m { closed = false } in
    if is_some m.connection && is_connected m.state then opened else open_connection opened

unfoldable pub stop : Manager → Manager
stop m =
    detach_connection
      (stop_heartbeat (record m { closed = true; state = closed; reconnect_timer = none }))

-- `connectFn` resolves with a connection.
unfoldable pub opened : ℕ → ℕ → Manager → Manager
opened c now m =
    if m.closed
    then emit (closes c) (record m { opening = no_task })
    else emit flushes (
        start_heartbeat (record (attach_connection c now m) {
          reconnect_attempt = 0;
          state = connected;
          opening = awaits_flush;
        }))

abbrev pub after_schedule : Opening → Opening
after_schedule no_task = no_task
after_schedule awaits_connect = awaits_connect
after_schedule awaits_flush = awaits_flush
after_schedule awaits_schedule = no_task

-- `hasPendingOutbox` answers; `none`: it rejects.
unfoldable pub planned : Options → Option Bool → Manager → Manager
unfolding backoff_delay_ms
planned o none m = m
planned o (some false) m = record m { state = idle }
planned o (some true) m = record m {
  reconnect_timer = some (backoff_delay_ms m.reconnect_attempt o.max_backoff_ms);
  reconnect_attempt = m.reconnect_attempt + 1;
  state = reconnecting;
}

unfoldable pub plan_reconnect : Options → Option Bool → Manager → Manager
unfolding planned
plan_reconnect o answer m =
    let ended = record m { scheduling = false; opening = after_schedule m.opening } in
    if m.closed || is_some m.reconnect_timer then ended else planned o answer ended
