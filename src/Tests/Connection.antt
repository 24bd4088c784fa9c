-- ===== src/Tests/Connection.antt =====
-- A connection that is made, watched, lost and made again.
use nkc.Base.{◌+◌, ◌*◌, ◌^◌, ◌≡◌, refl, true, false, none, some, [], ◌∷◌, ◌++◌, arith, min}
use nkc.Sync.Connection.{
  Options, Manager, new_manager, refuses, asks_outbox, flushes, connects, closes, idle, connecting,
  connected, reconnecting, awaits_connect,
}
use nkc.Sync.Connection.Events.{
  starts, sends, flushed, reconnects, connects_with, outbox_answers, closes_itself, write_fails,
  receives, beats, ping_out, pong_late, pong, data_bytes, run, send,
}
use nkc.Sync.Connection.Recovery.{failed_attempts, lost_connection_recovers}
use nkc.Sync.Connection.Races.{all_received, send_while_connecting, start_while_asking, early_pong}

abbrev options : Options
options = record { heartbeat_interval_ms = 30; max_backoff_ms = 60000 }

-- A manager whose first connection has been asked for, and one with a connection.
abbrev asked : Manager
asked = record new_manager { state = connecting; opening = awaits_connect }

abbrev up : Manager
up = record new_manager { state = connected; connection = some 1; heartbeat = true }

lost_connection_recovers_example :
    let waits =
      run options up (write_fails 1 ∷ outbox_answers (some true) ∷ failed_attempts 2 []) in
    let after = run options up (
      write_fails 1
      ∷ outbox_answers (some true)
      ∷ failed_attempts 2 (reconnects ∷ connects_with 2 9 ∷ [])) in
    (waits.state ≡ reconnecting)
    × (waits.reconnect_timer ≡ some (min (2 ^ (0 + 2) * 1000) 60000))
    × (after.connection ≡ some 2)
    × (after.state ≡ connected)
    × (after.reconnect_attempt ≡ 0)
lost_connection_recovers_example =
    lost_connection_recovers options up 1 2 2 9 refl refl refl refl refl

early_pong_example :
    let after = run options up (
      beats 40 "p"
      ∷ receives (pong "p") 41
      ∷ ping_out 1
      ∷ (all_received ((data_bytes 7, 42) ∷ []) ++ (pong_late ∷ []))) in
    after.connection ≡ none
early_pong_example =
    early_pong options up 1 40 41 "p" ((data_bytes 7, 42) ∷ []) refl refl refl refl refl
      (omega arith)

send_while_connecting_example :
    let after = run options asked (
      sends
      ∷ outbox_answers (some true)
      ∷ connects_with 1 5
      ∷ flushed
      ∷ reconnects
      ∷ connects_with 2 9
      ∷ []) in
    (after.connection ≡ some 2)
    × (after.effects ≡ flushes ∷ closes 1 ∷ connects ∷ flushes ∷ refuses ∷ asks_outbox ∷ [])
send_while_connecting_example = send_while_connecting options asked 1 2 5 9 refl refl refl refl refl

start_while_asking_example :
    let after =
      run options up (
        closes_itself 1
        ∷ starts
        ∷ connects_with 2 9
        ∷ flushed
        ∷ outbox_answers (some false)
        ∷ []) in
    (after.connection ≡ some 2)
    × (after.state ≡ idle)
    × ((send after).effects ≡ refuses ∷ asks_outbox ∷ after.effects)
start_while_asking_example = start_while_asking options up 1 2 9 refl refl refl refl refl
