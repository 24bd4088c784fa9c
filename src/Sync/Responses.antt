-- ===== src/Sync/Responses.antt =====
-- Answering a request for events: createSyncResponseFrames, buildNextMap and handleSyncReq of
-- src/sync/syncEngine.ts.
pub mod Chunks
pub mod Answers
use nkc.Base.{
  ℕ, suc, ◌+◌, ◌-◌, ◌*◌, ◌≡◌, Bool, true, false, not, ◌&&◌, ◌||◌, Option, none, some, List, [], ◌∷◌,
  ◌++◌, map, String, str_eq, ltb, leb, ◌==◌, if◌then◌else◌, or_default, length, keep,
}
use nkc.Base.Dict.{Dict, get, set}
use nkc.Base.Sort.{sort}
use nkc.Table.{Table}
use nkc.Sync.{
  EnvelopeEvent, EventRecord, event_key, SyncReq, FlowInfo, SyncRes, Scope, raise, scope_conv_id,
}

abbrev pub max_sync_chunk_events : ℕ
max_sync_chunk_events = 16

abbrev pub max_sync_chunk_bytes : ℕ
max_sync_chunk_bytes = 96 * 1024

-- A frame of a response before it is cut: `base` of the source.
pub record Base : Type 0 where
  pub scope : Scope
  pub conv_id : Option String

abbrev pub frame : Base → List EnvelopeEvent → Dict ℕ → Option FlowInfo → SyncRes
frame b events next flow = record {
  scope = b.scope;
  conv_id = b.conv_id;
  events = events;
  next = next;
  flow = flow;
}

unfoldable pub build_next_map : List EventRecord → Dict ℕ → Dict ℕ
unfolding raise
build_next_map [] next = next
build_next_map (e ∷ es) next = build_next_map es (raise next e.author_device_id e.lamport)

unfoldable pub to_envelope_event : EventRecord → EnvelopeEvent
to_envelope_event r = record {
  event_id = r.event_id;
  conv_id = r.conv_id;
  author_device_id = r.author_device_id;
  lamport = some r.lamport;
  ts = r.ts;
  envelope_json = r.envelope_json;
}

-- A difference with a value that is no number is read as 0 by `sort`.
abbrev pub lamport_le : Option ℕ → Option ℕ → Bool
lamport_le (some a) (some b) = leb a b
lamport_le (some a) none = true
lamport_le none b = true

-- The comparator of sortEventsDeterministic; `locale_le a b` is `a.localeCompare(b) <= 0`.
unfoldable pub event_le : (String → String → Bool) → EnvelopeEvent → EnvelopeEvent → Bool
event_le locale_le a b =
    if not (a.ts == b.ts)
    then leb a.ts b.ts
    else if not (str_eq a.author_device_id b.author_device_id)
    then locale_le a.author_device_id b.author_device_id
    else lamport_le a.lamport b.lamport

unfoldable pub sort_events_deterministic :
    (String → String → Bool) → List EnvelopeEvent → List EnvelopeEvent
unfolding event_le
sort_events_deterministic locale_le = sort (event_le locale_le)

-- `bytes_of` is the length of a frame as UTF-8 text of JSON.
module _ (bytes_of : SyncRes → ℕ) (base : Base) (session_id : String) where
  -- An event does not fit behind the events of the chunk that is being filled.
  unfoldable pub too_large : ℕ → List EnvelopeEvent → EnvelopeEvent → Bool
  too_large chunks current e =
      let candidate = current ++ e ∷ [] in
      let flow : FlowInfo = record {
        session_id = session_id;
        chunk_index = chunks;
        total_chunks = 1;
        final = false;
      } in
      ltb 0 (length current)
      && (ltb max_sync_chunk_events (length candidate)
          || ltb max_sync_chunk_bytes (bytes_of (frame base candidate [] (some flow))))

  unfoldable pub fill_chunks :
      List (List EnvelopeEvent)
      → List EnvelopeEvent
      → List EnvelopeEvent
      → List (List EnvelopeEvent)
  unfolding too_large
  fill_chunks chunks current [] = if ltb 0 (length current) then chunks ++ current ∷ [] else chunks
  fill_chunks chunks current (e ∷ es) =
      let full = too_large (length chunks) current e in
      fill_chunks (if full then chunks ++ current ∷ [] else chunks)
        (if full then e ∷ [] else current ++ e ∷ []) es

  unfoldable pub number_chunks : ℕ → Dict ℕ → ℕ → List (List EnvelopeEvent) → List SyncRes
  number_chunks total next index [] = []
  number_chunks total next index (chunk ∷ chunks) =
      let final = index == total - 1 in
      let flow : FlowInfo = record {
        session_id = session_id;
        chunk_index = index;
        total_chunks = total;
        final = final;
      } in
      frame base chunk (if final then next else []) (some flow)
      ∷ number_chunks total next (suc index) chunks

  unfoldable pub create_sync_response_frames : List EnvelopeEvent → Dict ℕ → Bool → List SyncRes
  unfolding fill_chunks number_chunks
  create_sync_response_frames events next flow_control =
      if not flow_control || leb (length events) max_sync_chunk_events
      then frame base events next none ∷ []
      else let chunks = fill_chunks [] [] events in number_chunks (length chunks) next 0 chunks

-- The peer has not seen the event.
unfoldable pub is_wanted : Dict ℕ → EventRecord → Bool
is_wanted since e = ltb (or_default (get since e.author_device_id) 0) e.lamport

abbrev pub by_lamport : EventRecord → EventRecord → Bool
by_lamport a b = leb a.lamport b.lamport

module _ (T : Table EventRecord event_key) where
  -- listEventsByConv of src/db/repo.ts
  unfoldable pub list_events_by_conv : T.Store → String → List EventRecord
  list_events_by_conv s conv = sort by_lamport (T.query s (λ e. str_eq e.conv_id conv))

  -- The frames that handleSyncReq sends, to a peer that may synchronise.
  unfoldable pub answer_sync_req :
      (SyncRes → ℕ)
      → (String → String → Bool)
      → String
      → String
      → Bool
      → SyncReq
      → T.Store
      → List SyncRes
  unfolding list_events_by_conv is_wanted to_envelope_event sort_events_deterministic build_next_map
      create_sync_response_frames scope_conv_id
  answer_sync_req bytes_of locale_le session_id conv flow_control r s =
      let all = list_events_by_conv s (scope_conv_id r.scope r.conv_id conv) in
      let events = map to_envelope_event (keep (is_wanted r.since) all) in
      create_sync_response_frames bytes_of (record { scope = r.scope; conv_id = r.conv_id })
        session_id (sort_events_deterministic locale_le events) (build_next_map all []) flow_control
