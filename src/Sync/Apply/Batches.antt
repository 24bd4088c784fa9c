-- ===== src/Sync/Apply/Batches.antt =====
-- The events of a batch, one by one, and the response that brings them: applyEnvelopeEvents,
-- isDeviceSyncAllowed and handleSyncRes of src/sync/syncEngine.ts.
use nkc.Base.{
  ℕ, Bool, true, false, ◌||◌, Option, none, some, List, [], ◌∷◌, String, str_eq, leb, if◌then◌else◌,
  is_some, length, map,
}
use nkc.Base.Text.{non_empty, first_of}
use nkc.Base.Dict.{Dict, get, set}
use nkc.Table.{Table}
use nkc.Sync.{
  EnvelopeEvent, EventRecord, event_key, PeerContext, device, SyncRes, Seen, update_lamport_seen,
  get_lamport_seen, scope_conv_id,
}
use nkc.Sync.Responses.{sort_events_deterministic}
use nkc.Sync.Apply.{ApplyDeps, State, apply_envelope, same_hash}

module _ (T : Table EventRecord event_key) (D : ApplyDeps) where
  -- One event that is not a replay.
  unfoldable pub apply_new : Dict PeerContext → String → EnvelopeEvent → ℕ → State T D → State T D
  unfolding apply_envelope
  apply_new peers conv event lamport s = elim (T.get s.events event.event_id) [
    | some known ↦ record s {
      seen = update_lamport_seen s.seen event.conv_id event.author_device_id lamport;
    }
    | none ↦ elim (D.parse_envelope event.envelope_json) [
      | none ↦ s
      | some e ↦ apply_envelope T D peers conv event lamport e s
    ]
  ]

  unfoldable pub apply_event : Dict PeerContext → String → EnvelopeEvent → State T D → State T D
  unfolding apply_new
  apply_event peers conv event s = elim event.lamport [
    | none ↦ s
    | some lamport ↦
        if leb lamport (get_lamport_seen s.seen event.conv_id event.author_device_id)
        then s
        else apply_new peers conv event lamport s
  ]

  unfoldable pub apply_each : Dict PeerContext → String → List EnvelopeEvent → State T D → State T D
  unfolding apply_event
  apply_each peers conv [] s = s
  apply_each peers conv (e ∷ es) s = apply_each peers conv es (apply_event peers conv e s)

  -- The events by their id: the last of an id counts, in the place of the first.
  unfoldable pub unique_from : List EnvelopeEvent → Dict EnvelopeEvent → Dict EnvelopeEvent
  unique_from [] unique = unique
  unique_from (e ∷ es) unique =
      unique_from es (if str_eq e.event_id "" then unique else set unique e.event_id e)

  unfoldable pub apply_envelope_events :
      Dict PeerContext → String → List EnvelopeEvent → State T D → State T D
  unfolding apply_each unique_from sort_events_deterministic
  apply_envelope_events peers conv events s =
      apply_each peers conv
        (sort_events_deterministic D.locale_le (map (λ (k, e). e) (unique_from events []))) s

  -- `approved_by d`: who approved the device `d`, if its approval is valid.
  unfoldable pub is_device_sync_allowed :
      Dict PeerContext → (String → Option String) → String → Bool
  is_device_sync_allowed peers approved_by conv = elim (get peers conv) [
    | none ↦ true
    | some p ↦ elim p.kind [
      | some device ↦ elim (non_empty (first_of p.peer_device_id p.friend_key_id)) [
        | none ↦ false
        | some d ↦ is_some (approved_by d) || same_hash T D (approved_by D.local_device_id) (some d)
      ]
      | _ ↦ true
    ]
  ]

  pub record FlowAck : Type 0 where
    pub session_id : String
    pub chunk_index : ℕ
    pub received_events : ℕ

  unfoldable pub raise_all : String → Dict ℕ → Seen → Seen
  raise_all log [] seen = seen
  raise_all log ((author, lamport) ∷ next) seen =
      raise_all log next (update_lamport_seen seen log author lamport)

  abbrev pub with_seen : State T D → Seen → State T D
  with_seen s seen = record s { seen = seen }

  -- The entries of `next` that are no finite numbers are skipped, and are not part of the model.
  unfoldable pub handle_sync_res :
      Dict PeerContext
      → (String → Option String)
      → String
      → SyncRes
      → State T D
      → State T D × Option FlowAck
  unfolding is_device_sync_allowed apply_envelope_events raise_all scope_conv_id
  handle_sync_res peers approved_by conv r s =
      let after = apply_envelope_events peers conv r.events s in
      let raised =
        with_seen after (raise_all (scope_conv_id r.scope r.conv_id conv) r.next after.seen) in
      if is_device_sync_allowed peers approved_by conv
      then elim r.flow [
        | none ↦ (raised, none)
        | some flow ↦
            let ack : FlowAck = record {
              session_id = flow.session_id;
              chunk_index = flow.chunk_index;
              received_events = length r.events;
            } in
            (if flow.final then raised else after, some ack)
      ]
      else (s, none)
