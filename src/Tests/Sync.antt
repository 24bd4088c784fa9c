-- ===== src/Tests/Sync.antt =====
-- A response of seventeen events, in two frames.
use nkc.Base.{
  ℕ, zero, suc, ◌≤◌, ◌<◌, ◌≡◌, refl, ◌↔◌, Bool, true, false, none, some, List, [], ◌∷◌, String,
  str_eq, arith, ◌*◌, length, Elem,
}
use nkc.Base.Dict.{get}
use nkc.Table.Memory.{memory, get as stored}
use nkc.Sync.{EnvelopeEvent, EventRecord, event_key, SyncReq, SyncRes, Scope, scope_conv_id}
use nkc.Sync.Responses.{Base, to_envelope_event, create_sync_response_frames, answer_sync_req}
use nkc.Sync.Responses.Chunks.{
  concat, chunks_of, IsNumbered, AllFit, create_sync_response_frames_lem,
}
use nkc.Sync.Responses.Answers.{carried, last_next, answer_sync_req_complete}
use nkc.Sync.Lamports.{seen_at}
use nkc.Sync.Flow.{
  Session, FlowEvent, respond, sent, fires, acked, flow_step, flow_run, can_send, pump_loop,
  find_entry,
}
use nkc.Sync.Flow.Windows.{Pumped, pump_loop-Pumped}
use nkc.Sync.Flow.Sessions.{AllOpen}
use nkc.Sync.Flow.Silence.{flow_run-AllOpen}
use nkc.Sync.Flow.Transfers.{with_conv, acked_transfer}
use nkc.Base.Dict.{set, delete}

abbrev event : ℕ → EnvelopeEvent
event n = record {
  event_id = "e";
  conv_id = "chat";
  author_device_id = "phone";
  lamport = some n;
  ts = n;
  envelope_json = "";
}

abbrev events_to : ℕ → List EnvelopeEvent
events_to zero = []
events_to (suc n) = event n ∷ events_to n

abbrev chat : Base
chat = record { scope = Scope.conv; conv_id = some "chat" }

-- Every event counts for a thousand bytes.
abbrev bytes_of : SyncRes → ℕ
bytes_of f = 1000 * length f.events

abbrev locale_le : String → String → Bool
locale_le a b = str_eq a b

create_sync_response_frames_lem_example :
    let frames = create_sync_response_frames bytes_of chat "s" (events_to 17) [] true in
    IsNumbered "s" (length frames) [] 0 frames
    × (concat (chunks_of frames) ≡ events_to 17)
    × AllFit bytes_of chat "s" 0 (chunks_of frames)
create_sync_response_frames_lem_example =
    create_sync_response_frames_lem bytes_of chat "s" (events_to 17) [] (omega arith)

abbrev row : ℕ → EventRecord
row n = record {
  event_id = "e";
  conv_id = "chat";
  author_device_id = "phone";
  lamport = n;
  ts = n;
  envelope_json = "";
  prev_hash = none;
  event_hash = "h";
  conflict = none;
}

abbrev request : SyncReq
request = record { scope = Scope.conv; conv_id = some "chat"; since = ("phone", 3) ∷ [] }

answer_sync_req_complete_example :
    let answer =
      answer_sync_req (memory event_key) bytes_of locale_le "s" "chat" true request (row 5 ∷ []) in
    (Elem (to_envelope_event (row 5)) (carried answer) ↔ (seen_at (("phone", 3) ∷ []) "phone" < 5))
    × (5 ≤ seen_at (last_next answer) "phone")
unfolding stored scope_conv_id
answer_sync_req_complete_example =
    answer_sync_req_complete (memory event_key) bytes_of locale_le "s" "chat" true request
      (row 5 ∷ []) (row 5) refl refl

abbrev flow_frame : ℕ → SyncRes
flow_frame n = record {
  scope = Scope.conv;
  conv_id = some "chat";
  events = event n ∷ [];
  next = [];
  flow = some (record { session_id = "s"; chunk_index = n; total_chunks = 3; final = false });
}

abbrev three_frames : List SyncRes
three_frames = flow_frame 0 ∷ flow_frame 1 ∷ flow_frame 2 ∷ []

abbrev opening : List FlowEvent
opening = respond "chat" three_frames ∷ sent "s" 0 ∷ fires "s" 0 ∷ acked "s" 1 ∷ []

abbrev silence : List FlowEvent
silence = sent "s" 2 ∷ fires "s" 2 ∷ sent "s" 2 ∷ fires "s" 2 ∷ sent "s" 2 ∷ fires "s" 2 ∷ []

flow_run-AllOpen_example :
    let m = (flow_run [] opening).0 in AllOpen m × (length (flow_run m silence).1 ≤ 4)
flow_run-AllOpen_example =
    flow_run-AllOpen opening silence "s" (refl, (refl, (refl, (refl, (refl, (refl, tt))))))

-- The second frame is acknowledged before the first.
abbrev acks : List FlowEvent
acks = sent "s" 0 ∷ acked "s" 1 ∷ acked "s" 0 ∷ acked "s" 2 ∷ []

acked_transfer_example :
    let (after, out) = flow_run [] (respond "chat" three_frames ∷ acks) in
    (get after "s" ≡ none) × (out ≡ with_conv "chat" three_frames)
unfolding flow_step get set delete find_entry
acked_transfer_example =
    acked_transfer [] "chat" (flow_frame 0) (flow_frame 1) (flow_frame 2 ∷ [])
      (record { session_id = "s"; chunk_index = 0; total_chunks = 3; final = false }) acks refl
      (
        refl,
        (
          refl,
          (record { attempts = 1; armed = false }, refl),
          (
            refl,
            (record { attempts = 1; armed = true }, refl),
            (refl, (record { attempts = 1; armed = false }, refl), tt),
          ),
        ),
      )
      refl

abbrev three_to_send : Session
three_to_send = record { conv_id = "chat"; frames = three_frames; next_to_send = 0; in_flight = [] }

pump_loop-Pumped_example :
    Pumped three_to_send (pump_loop 3 three_to_send).0 (pump_loop 3 three_to_send).1
    × (can_send (pump_loop 3 three_to_send).0 ≡ false)
pump_loop-Pumped_example =
    pump_loop-Pumped 3 three_to_send (omega arith) (omega arith) (omega arith)
