-- ===== src/Sync/Responses/Chunks.antt =====
-- How a response is cut into frames: createSyncResponseFrames of src/sync/syncEngine.ts.
use nkc.Base.{
  ℕ, suc, ◌+◌, ◌-◌, ◌≤◌, ◌<◌, ◌≡◌, refl, sym, ap, ◌∙◌, ◌⊎◌, inl, inr, Bool, true, false, not, ◌||◌,
  some, List, [], ◌∷◌, ◌++◌, append-nil, append_assoc, String, leb, ◌==◌, if◌then◌else◌, arith,
  length, Bool-cases, subst, lt→ltb,
}
use nkc.Base.Dict.{Dict}
use nkc.Sync.{EnvelopeEvent, SyncRes}
use nkc.Sync.Responses.{
  Base, frame, too_large, fill_chunks, number_chunks, create_sync_response_frames,
  max_sync_chunk_events, max_sync_chunk_bytes,
}

abbrev pub concat : List (List EnvelopeEvent) → List EnvelopeEvent
concat [] = []
concat (c ∷ cs) = c ++ concat cs

concat-append_last :
    (cs : List (List EnvelopeEvent)) (c : List EnvelopeEvent)
    → concat (cs ++ c ∷ []) ≡ concat cs ++ c
concat-append_last [] c = append-nil c
concat-append_last (d ∷ cs) c = simp (concat-append_last cs c, append_assoc)

-- The events of the frames, one frame after the other.
abbrev pub chunks_of : List SyncRes → List (List EnvelopeEvent)
chunks_of [] = []
chunks_of (f ∷ fs) = f.events ∷ chunks_of fs

-- The frames from a position on are numbered without a gap, and the last alone is final and has the
-- new lamport numbers.
abbrev pub IsNumbered : String → ℕ → Dict ℕ → ℕ → List SyncRes → Type 0
IsNumbered session total next index [] = index ≡ total
IsNumbered session total next index (f ∷ fs) =
    (f.flow
      ≡ some (record {
        session_id = session;
        chunk_index = index;
        total_chunks = total;
        final = suc index == total;
      }))
    × (f.next ≡ (if suc index == total then next else []))
    × IsNumbered session total next (suc index) fs

module _ (bytes_of : SyncRes → ℕ) (base : Base) (session_id : String) where
  -- A chunk is not empty, holds at most sixteen events, and where it holds more than one, it was
  -- within the limit of bytes as an inner frame.
  abbrev pub Fits : ℕ → List EnvelopeEvent → Type 0
  Fits index c =
      (0 < length c)
      × (length c ≤ max_sync_chunk_events)
      × ((length c ≤ 1)
          ⊎ (bytes_of (
                frame base c [] (
                  some (record {
                    session_id = session_id;
                    chunk_index = index;
                    total_chunks = 1;
                    final = false;
                  })))
              ≤ max_sync_chunk_bytes))

  abbrev pub AllFit : ℕ → List (List EnvelopeEvent) → Type 0
  AllFit index [] = Unit
  AllFit index (c ∷ cs) = Fits index c × AllFit (suc index) cs

  AllFit-append_last :
      (index n : ℕ) (cs : List (List EnvelopeEvent)) (c : List EnvelopeEvent)
      → AllFit index cs
      → n ≡ index + length cs
      → Fits n c
      → AllFit index (cs ++ c ∷ [])
  AllFit-append_last index n [] c h e f =
      let same : n ≡ index = omega arith in (subst (λ k. Fits k c) same f, tt)
  AllFit-append_last index n (d ∷ cs) c h e f =
      (h.0, AllFit-append_last (suc index) n cs c h.1 (omega arith) f)

  -- Nothing is lost, repeated or moved.
  pub concat-fill_chunks :
      (chunks : List (List EnvelopeEvent)) (current es : List EnvelopeEvent)
      → concat (fill_chunks bytes_of base session_id chunks current es)
        ≡ concat chunks ++ (current ++ es)
  unfolding fill_chunks
  concat-fill_chunks chunks [] [] = sym (append-nil (concat chunks))
  concat-fill_chunks chunks (x ∷ current) [] =
      rw (lt→ltb 0 (suc (length current)) (omega arith))
        (simp (concat-append_last chunks (x ∷ current), append-nil))
  concat-fill_chunks chunks current (e ∷ es) =
      elim (Bool-cases (too_large bytes_of base session_id (length chunks) current e)) [
        | inl full ↦ rw full (
            simp (
              concat-fill_chunks (chunks ++ current ∷ []) (e ∷ []) es,
              concat-append_last chunks current,
              append_assoc,
            ))
        | inr room ↦ rw room (simp (concat-fill_chunks chunks (current ++ e ∷ []) es, append_assoc))
      ]

  -- The chunk that is being filled is empty only at the start.
  abbrev Filling : ℕ → List EnvelopeEvent → Type 0
  Filling index current = (length current ≡ 0) ⊎ Fits index current

  Fits-append_last :
      (index : ℕ) (current : List EnvelopeEvent) (e : EnvelopeEvent)
      → too_large bytes_of base session_id index current e ≡ false
      → Fits index (current ++ e ∷ [])
  unfolding too_large
  Fits-append_last index [] e room = (omega arith, omega arith, inl (omega arith))
  Fits-append_last index (x ∷ current) e room = ground arith

  Fits-full :
      (index : ℕ) (current : List EnvelopeEvent) (e : EnvelopeEvent)
      → too_large bytes_of base session_id index current e ≡ true
      → Filling index current
      → Fits index current
  unfolding too_large
  Fits-full index current e full (inl empty) = absurd (ground arith)
  Fits-full index current e full (inr f) = f

  AllFit-fill_chunks :
      (chunks : List (List EnvelopeEvent)) (current es : List EnvelopeEvent)
      → AllFit 0 chunks
      → Filling (length chunks) current
      → AllFit 0 (fill_chunks bytes_of base session_id chunks current es)
  unfolding fill_chunks
  AllFit-fill_chunks chunks [] [] h f = h
  AllFit-fill_chunks chunks (x ∷ current) [] h (inl empty) = absurd (omega arith)
  AllFit-fill_chunks chunks (x ∷ current) [] h (inr f) =
      rw (lt→ltb 0 (suc (length current)) (omega arith))
        (AllFit-append_last 0 (length chunks) chunks (x ∷ current) h (omega arith) f)
  AllFit-fill_chunks chunks current (e ∷ es) h f =
      elim (Bool-cases (too_large bytes_of base session_id (length chunks) current e)) [
        | inl full ↦ rw full (
            AllFit-fill_chunks (chunks ++ current ∷ []) (e ∷ []) es
              (AllFit-append_last 0 (length chunks) chunks current h (omega arith)
                (Fits-full (length chunks) current e full f))
              (inr (omega arith, omega arith, inl (omega arith))))
        | inr room ↦ rw room (
            AllFit-fill_chunks chunks (current ++ e ∷ []) es h
              (inr (Fits-append_last (length chunks) current e room)))
      ]

  IsNumbered-number_chunks :
      (total : ℕ) (next : Dict ℕ) (index : ℕ) (cs : List (List EnvelopeEvent))
      → index + length cs ≡ total
      → IsNumbered session_id total next index
          (number_chunks bytes_of base session_id total next index cs)
        × (chunks_of (number_chunks bytes_of base session_id total next index cs) ≡ cs)
  unfolding number_chunks
  IsNumbered-number_chunks total next index [] e = (omega arith, refl)
  IsNumbered-number_chunks total next index (c ∷ cs) e =
      let ih = IsNumbered-number_chunks total next (suc index) cs (omega arith) in
      let same : (index == total - 1) ≡ (suc index == total) = ground arith in
      ((rw same refl, rw same refl, ih.0), ap (λ ds. c ∷ ds) ih.1)

  length-chunks_of : (fs : List SyncRes) → length (chunks_of fs) ≡ length fs
  length-chunks_of [] = refl
  length-chunks_of (f ∷ fs) = omega (arith, length-chunks_of fs)

  pub concat-create_sync_response_frames :
      (events : List EnvelopeEvent) (next : Dict ℕ) (flow_control : Bool)
      → concat (
          chunks_of (create_sync_response_frames bytes_of base session_id events next flow_control))
        ≡ events
  unfolding create_sync_response_frames
  concat-create_sync_response_frames events next flow_control =
      elim (Bool-cases (not flow_control || leb (length events) max_sync_chunk_events)) [
        | inl whole ↦ rw whole (append-nil events)
        | inr cut ↦
            let cs = fill_chunks bytes_of base session_id [] [] events in
            rw cut (
              ap concat (IsNumbered-number_chunks (length cs) next 0 cs (omega arith)).1
              ∙ concat-fill_chunks [] [] events)
      ]

  create-eq-number_chunks :
      (events : List EnvelopeEvent) (next : Dict ℕ)
      → max_sync_chunk_events < length events
      → let cs = fill_chunks bytes_of base session_id [] [] events in
        create_sync_response_frames bytes_of base session_id events next true
        ≡ number_chunks bytes_of base session_id (length cs) next 0 cs
  unfolding create_sync_response_frames
  create-eq-number_chunks events next long =
      let cut : leb (length events) max_sync_chunk_events ≡ false = ground arith in rw cut refl

  -- A response of more than sixteen events to a peer with flow control is cut into frames that are
  -- numbered from 0 under the name of the session. The last frame alone is final and has the new
  -- lamport numbers. Together they hold the events in their order. Each frame has an event and at
  -- most sixteen, and one with several events was within 96 KiB before it was numbered.
  pub create_sync_response_frames_lem :
      (events : List EnvelopeEvent) (next : Dict ℕ)
      → max_sync_chunk_events < length events
      → let frames = create_sync_response_frames bytes_of base session_id events next true in
        IsNumbered session_id (length frames) next 0 frames
        × (concat (chunks_of frames) ≡ events)
        × AllFit 0 (chunks_of frames)
  create_sync_response_frames_lem events next long =
      let cs = fill_chunks bytes_of base session_id [] [] events in
      let (numbered, same) = IsNumbered-number_chunks (length cs) next 0 cs (omega arith) in
      let count =
        sym (length-chunks_of (number_chunks bytes_of base session_id (length cs) next 0 cs))
        ∙ ap length same in
      rw (create-eq-number_chunks events next long) (
        subst
            (λ n.
              IsNumbered session_id n next 0
                (number_chunks bytes_of base session_id (length cs) next 0 cs))
            (sym count) numbered,
        rw same (concat-fill_chunks [] [] events),
        rw same (AllFit-fill_chunks [] [] events tt (inl (omega arith))),
      )
