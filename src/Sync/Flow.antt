-- ===== src/Sync/Flow.antt =====
-- Flow control of a response in several frames: the outgoing flow sessions of src/sync/syncEngine.ts.
-- Sending, the timer of a frame and its acknowledgement are events. A timer that has been cleared
-- or that was never set does not fire.
pub mod Windows
pub mod Sessions
pub mod Transfers
pub mod Silence
use nkc.Base.{
  ℕ, zero, suc, ◌+◌, ◌≡◌, Bool, true, false, ◌&&◌, ◌||◌, Option, none, some, List, [], ◌∷◌, ◌++◌,
  map, String, ltb, leb, ◌==◌, if◌then◌else◌, length, get_elem?,
}
use nkc.Base.Dict.{Dict, get, set, delete}
use nkc.Sync.{SyncRes, FlowInfo}

abbrev pub sync_flow_window : ℕ
sync_flow_window = 2

abbrev pub sync_flow_max_retries : ℕ
sync_flow_max_retries = 3

-- `armed`: the timer of the retry is set.
pub record Entry : Type 0 where
  pub attempts : ℕ
  pub armed : Bool

abbrev pub InFlight : Type 0
InFlight = List (ℕ × Entry)

pub record Session : Type 0 where
  pub conv_id : String
  pub frames : List SyncRes
  pub next_to_send : ℕ
  pub in_flight : InFlight

-- A frame that has been handed to the transport, with its conversation.
abbrev pub Sent : Type 0
Sent = String × SyncRes

unfoldable pub find_entry : InFlight → ℕ → Option Entry
find_entry [] k = none
find_entry ((j, e) ∷ m) k = if j == k then some e else find_entry m k

unfoldable pub set_entry : InFlight → ℕ → Entry → InFlight
set_entry [] k e = (k, e) ∷ []
set_entry ((j, d) ∷ m) k e =
    let rest = set_entry m k e in if j == k then (j, e) ∷ m else (j, d) ∷ rest

unfoldable pub delete_entry : InFlight → ℕ → InFlight
delete_entry [] k = []
delete_entry ((j, d) ∷ m) k = let rest = delete_entry m k in if j == k then rest else (j, d) ∷ rest

abbrev pub can_send : Session → Bool
can_send s = ltb s.next_to_send (length s.frames) && ltb (length s.in_flight) sync_flow_window

abbrev pub first_attempt : Session → Session
first_attempt s = record s {
  next_to_send = suc s.next_to_send;
  in_flight = set_entry s.in_flight s.next_to_send (record { attempts = 1; armed = false });
}

abbrev pub and_send : SyncRes → Session × List SyncRes → Session × List SyncRes
and_send f (s, out) = (s, f ∷ out)

-- The `while` of pumpFlowSession, on fuel.
unfoldable pub pump_loop : ℕ → Session → Session × List SyncRes
unfolding set_entry delete_entry
pump_loop zero s = (s, [])
pump_loop (suc fuel) s =
    let round : Session × List SyncRes = elim (get_elem? s.frames s.next_to_send) [
      | none ↦
          let t = first_attempt s in
          pump_loop fuel (record t { in_flight = delete_entry t.in_flight s.next_to_send })
      | some f ↦ and_send f (pump_loop fuel (first_attempt s))
    ] in
    if can_send s then round else (s, [])

abbrev pub is_over : Session → Bool
is_over s = leb (length s.frames) s.next_to_send && length s.in_flight == 0

abbrev pub Sessions : Type 0
Sessions = Dict Session

-- Each round sends one more frame, so that there are at most as many rounds as frames.
unfoldable pub pump_session : Sessions → String → Session → Sessions × List Sent
unfolding pump_loop
pump_session m id s =
    let (t, out) = pump_loop (length s.frames) s in
    (if is_over t then delete m id else set m id t, map (λ f. (s.conv_id, f)) out)

unfoldable pub pump_flow_session : Sessions → String → Sessions × List Sent
unfolding pump_session
pump_flow_session m id = elim (get m id) [ none ↦ (m, []) | some s ↦ pump_session m id s ]

unfoldable pub clear_flow_session : Sessions → String → Sessions
clear_flow_session m id = delete m id

-- The session starts; an old one of the same name is dropped.
unfoldable pub open_session : Sessions → String → String → List SyncRes → Sessions × List Sent
unfolding pump_flow_session clear_flow_session
open_session m id conv frames =
    let s : Session = record {
      conv_id = conv;
      frames = frames;
      next_to_send = 0;
      in_flight = [];
    } in
    pump_flow_session (set (clear_flow_session m id) id s) id

unfoldable pub send_sync_response_frames : Sessions → String → List SyncRes → Sessions × List Sent
unfolding open_session
send_sync_response_frames m conv [] = (m, [])
send_sync_response_frames m conv (f ∷ []) = (m, (conv, f) ∷ [])
send_sync_response_frames m conv (f ∷ g ∷ fs) = elim f.flow [
  | none ↦ (m, (conv, f) ∷ [])
  | some flow ↦ open_session m flow.session_id conv (f ∷ g ∷ fs)
]

-- A frame has been sent, whether or not the transport failed: scheduleFlowRetry sets its timer.
unfoldable pub schedule_flow_retry : Sessions → String → ℕ → Sessions
unfolding find_entry set_entry
schedule_flow_retry m id chunk = elim (get m id) [
  | none ↦ m
  | some s ↦ elim (find_entry s.in_flight chunk) [
    | none ↦ m
    | some e ↦
        set m id (record s { in_flight = set_entry s.in_flight chunk (record e { armed = true }) })
  ]
]

-- The handler of a timer that fires.
unfoldable pub retry : Sessions → String → ℕ → Session → Entry → Sessions × List Sent
unfolding set_entry delete_entry clear_flow_session pump_session
retry m id chunk s e =
    if leb sync_flow_max_retries e.attempts
    then (clear_flow_session m id, [])
    else elim (get_elem? s.frames chunk) [
      | none ↦ pump_session m id (record s { in_flight = delete_entry s.in_flight chunk })
      | some f ↦ (
        set m id (record s {
          in_flight =
              set_entry s.in_flight chunk (record { attempts = suc e.attempts; armed = false });
        }),
        (s.conv_id, f) ∷ [],
      )
    ]

unfoldable pub retry_fires : Sessions → String → ℕ → Sessions × List Sent
unfolding find_entry retry
retry_fires m id chunk = elim (get m id) [
  | none ↦ (m, [])
  | some s ↦ elim (find_entry s.in_flight chunk) [
    | none ↦ (m, [])
    | some e ↦ if e.armed then retry m id chunk s e else (m, [])
  ]
]

unfoldable pub handle_sync_flow_ack : Sessions → String → ℕ → Sessions × List Sent
unfolding delete_entry pump_session
handle_sync_flow_ack m id chunk = elim (get m id) [
  | none ↦ (m, [])
  | some s ↦ pump_session m id (record s { in_flight = delete_entry s.in_flight chunk })
]

pub data FlowEvent : Type 0 where
  respond : String → List SyncRes → FlowEvent
  sent : String → ℕ → FlowEvent
  fires : String → ℕ → FlowEvent
  acked : String → ℕ → FlowEvent

unfoldable pub flow_step : Sessions → FlowEvent → Sessions × List Sent
unfolding send_sync_response_frames schedule_flow_retry retry_fires handle_sync_flow_ack
flow_step m (respond conv frames) = send_sync_response_frames m conv frames
flow_step m (sent id chunk) = (schedule_flow_retry m id chunk, [])
flow_step m (fires id chunk) = retry_fires m id chunk
flow_step m (acked id chunk) = handle_sync_flow_ack m id chunk

unfoldable pub flow_run : Sessions → List FlowEvent → Sessions × List Sent
unfolding flow_step
flow_run m [] = (m, [])
flow_run m (e ∷ es) =
    let (m', out) = flow_step m e in let (last, rest) = flow_run m' es in (last, out ++ rest)
