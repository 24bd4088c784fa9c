-- ===== src/Sync/Connection/Lifetimes.antt =====
-- What holds of a connection manager after any history: src/sync/connectionManager.ts.
pub mod Openings
mod Traffic
use nkc.Base.{
  ℕ, ◌≤◌, ◌≡◌, sym, ap, ◌⊎◌, inl, inr, Bool, true, false, Option, none, some, String, ◌||◌, ◌&&◌,
  ◌==◌, ltb, ◌-◌, not, ◌∙◌, ◌^◌, ◌*◌, subst, or_default, arith, Bool-cases, Option-cases, min,
  if◌then◌else◌,
}
use native.Mathlib.Nat.{min-le_right}
use nkc.Sync.Connection.{
  refuses, writes, pongs, pings, is_connected, has, ConnectionState, closed, Opening,
  awaits_schedule, awaits_connect, awaits_flush, schedule_reconnect_if_needed,
  handle_connection_lost, open_connection, start, stop, planned, detach_connection,
  backoff_delay_ms, stop_heartbeat, is_idle, emit, asks_outbox, connects, closes, flushes,
  start_heartbeat, attach_connection, connecting, connected, after_schedule, idle, reconnecting,
}
use nkc.Sync.Connection.Events.{
  is_awaited, without, left_running, send, ping_sent, pong_times_out, stray_times_out,
  reconnect_fires, ping, pong, data_bytes, Received,
}
use nkc.Sync.Connection.Lifetimes.Openings.{
  elim-holds, dropped-IsSound, schedule-IsSound, open_connection-IsSound,
}
