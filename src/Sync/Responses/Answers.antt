-- ===== src/Sync/Responses/Answers.antt =====
-- What a peer is sent when it asks for events: handleSyncReq of src/sync/syncEngine.ts.
use nkc.Base.{
  ℕ, suc, ◌+◌, ◌≤◌, ◌<◌, ◌≡◌, refl, sym, ap, ◌↔◌, inl, inr, Bool, true, none, some, List, [], ◌∷◌,
  map, String, str_eq, leb, arith, length, keep, All, All-elem, Elem, Bool-cases, eq_iff, subst,
  ltb→lt, lt→ltb, All-map, not, ◌||◌, ◌==◌, ◌-◌, eq_refl,
}
use nkc.Base.Dict.{Dict}
use nkc.Base.Sort.{All-sort, Elem-sort}
use nkc.Table.{Table}
use nkc.Sync.{EnvelopeEvent, EventRecord, event_key, SyncReq, SyncRes, raise, scope_conv_id}
use nkc.Sync.Responses.{
  Base, number_chunks, fill_chunks, max_sync_chunk_events, build_next_map, to_envelope_event,
  event_le, sort_events_deterministic, is_wanted, by_lamport, list_events_by_conv, answer_sync_req,
  create_sync_response_frames,
}
use nkc.Sync.Responses.Chunks.{
  concat, chunks_of, concat-create_sync_response_frames, concat-fill_chunks,
}
use nkc.Sync.Lamports.{seen_at, get-raise}

-- The events that a response carries, over all its frames.
abbrev pub carried : List SyncRes → List EnvelopeEvent
carried frames = concat (chunks_of frames)

Elem-keep :
    {A : Type 0} (p : A → Bool) (a : A) (xs : List A) → Elem a xs → p a ≡ true → Elem a (keep p xs)
Elem-keep p a [] m h = absurd m
Elem-keep p a (x ∷ xs) (inl e) h =
    let kept : p x ≡ true = subst (λ b. p b ≡ true) e h in rw kept (inl e)
Elem-keep p a (x ∷ xs) (inr m) h = elim (Bool-cases (p x)) [
  | inl e ↦ rw e (inr (Elem-keep p a xs m h))
  | inr e ↦ rw e (Elem-keep p a xs m h)
]

All-keep_test : {A : Type 0} (p : A → Bool) (xs : List A) → All (λ a. p a ≡ true) (keep p xs)
All-keep_test p [] = tt
All-keep_test p (x ∷ xs) = elim (Bool-cases (p x)) [
  | inl e ↦ rw e (e, All-keep_test p xs)
  | inr e ↦ rw e (All-keep_test p xs)
]

Elem-map : {A B : Type 0} (f : A → B) (a : A) (xs : List A) → Elem a xs → Elem (f a) (map f xs)
Elem-map f a [] m = absurd m
Elem-map f a (x ∷ xs) (inl e) = inl (ap f e)
Elem-map f a (x ∷ xs) (inr m) = inr (Elem-map f a xs m)

All-image :
    {A B : Type 0} (P : B → Type 0) (f : A → B) (xs : List A)
    → All (λ a. P (f a)) xs
    → All P (map f xs)
All-image P f [] h = tt
All-image P f (x ∷ xs) h = (h.0, All-image P f xs h.1)

-- The new lamport numbers of a response: those of its last frame.
abbrev pub last_next : List SyncRes → Dict ℕ
last_next [] = []
last_next (f ∷ []) = f.next
last_next (f ∷ g ∷ fs) = last_next (g ∷ fs)

last_next-number_chunks :
    (bytes_of : SyncRes → ℕ) (base : Base) (session : String) (total : ℕ) (next : Dict ℕ)
    (index : ℕ) (c : List EnvelopeEvent) (cs : List (List EnvelopeEvent))
    → index + suc (length cs) ≡ total
    → last_next (number_chunks bytes_of base session total next index (c ∷ cs)) ≡ next
unfolding number_chunks
last_next-number_chunks bytes_of base session total next index c [] e =
    let final : (index == total - 1) ≡ true = ground arith in rw final refl
last_next-number_chunks bytes_of base session total next index c (d ∷ cs) e =
    last_next-number_chunks bytes_of base session total next (suc index) d cs (omega arith)

last_next-number_chunks_any :
    (bytes_of : SyncRes → ℕ) (base : Base) (session : String) (next : Dict ℕ)
    (cs : List (List EnvelopeEvent))
    → 0 < length (concat cs)
    → last_next (number_chunks bytes_of base session (length cs) next 0 cs) ≡ next
last_next-number_chunks_any bytes_of base session next [] h = absurd (omega arith)
last_next-number_chunks_any bytes_of base session next (c ∷ cs) h =
    last_next-number_chunks bytes_of base session (length (c ∷ cs)) next 0 c cs (omega arith)

last_next-create :
    (bytes_of : SyncRes → ℕ) (base : Base) (session : String) (events : List EnvelopeEvent)
    (next : Dict ℕ) (flow_control : Bool)
    → last_next (create_sync_response_frames bytes_of base session events next flow_control) ≡ next
unfolding create_sync_response_frames
last_next-create bytes_of base session events next flow_control =
    elim (Bool-cases (not flow_control || leb (length events) max_sync_chunk_events)) [
      | inl whole ↦ rw whole refl
      | inr cut ↦
          let long : 0 < length events = ground arith in
          let all = concat-fill_chunks bytes_of base session [] [] events in
          rw cut (
            last_next-number_chunks_any bytes_of base session next
              (fill_chunks bytes_of base session [] [] events)
              (subst (λ es. 0 < length es) (sym all) long))
    ]

-- The numbers of a list of rows bound each of them.
build_next_map_mono :
    (es : List EventRecord) (next : Dict ℕ) (k : String)
    → seen_at next k ≤ seen_at (build_next_map es next) k
unfolding build_next_map
build_next_map_mono [] next k = omega arith
build_next_map_mono (e ∷ es) next k = ground (
  arith,
  get-raise next e.author_device_id e.lamport k,
  build_next_map_mono es (raise next e.author_device_id e.lamport) k,
)

build_next_map-bounds :
    (es : List EventRecord) (next : Dict ℕ) (e : EventRecord)
    → Elem e es
    → e.lamport ≤ seen_at (build_next_map es next) e.author_device_id
unfolding build_next_map
build_next_map-bounds [] next e m = absurd m
build_next_map-bounds (x ∷ es) next e (inl same) =
    subst
      (λ y.
        y.lamport
        ≤ seen_at (build_next_map es (raise next x.author_device_id x.lamport)) y.author_device_id)
      (sym same)
      (ground (
        arith,
        get-raise next x.author_device_id x.lamport x.author_device_id,
        eq_refl x.author_device_id,
        build_next_map_mono es (raise next x.author_device_id x.lamport) x.author_device_id,
      ))
build_next_map-bounds (x ∷ es) next e (inr m) =
    build_next_map-bounds es (raise next x.author_device_id x.lamport) e m

-- An event that comes after what the other side has seen of its author.
abbrev pub IsNews : Dict ℕ → EnvelopeEvent → Type 0
IsNews since e = elim e.lamport [ none ↦ ⊥ | some n ↦ seen_at since e.author_device_id < n ]

module _ (T : Table EventRecord event_key) (bytes_of : SyncRes → ℕ)
    (locale_le : String → String → Bool) (session_id log : String) (flow_control : Bool)
    (r : SyncReq) (s : T.Store) where
  abbrev answer : List SyncRes
  answer = answer_sync_req T bytes_of locale_le session_id log flow_control r s

  wanted : List EventRecord
  wanted = keep (is_wanted r.since) (list_events_by_conv T s (scope_conv_id r.scope r.conv_id log))

  carried-answer :
      carried answer ≡ sort_events_deterministic locale_le (map to_envelope_event wanted)
  unfolding wanted answer_sync_req
  carried-answer =
      let all = list_events_by_conv T s (scope_conv_id r.scope r.conv_id log) in
      concat-create_sync_response_frames bytes_of (record { scope = r.scope; conv_id = r.conv_id })
        session_id (sort_events_deterministic locale_le (map to_envelope_event wanted))
        (build_next_map all []) flow_control

  listed :
      (e : EventRecord)
      → T.get s e.event_id ≡ some e
      → e.conv_id ≡ scope_conv_id r.scope r.conv_id log
      → Elem e (list_events_by_conv T s (scope_conv_id r.scope r.conv_id log))
  unfolding list_events_by_conv
  listed e stored same =
      let here = λ (x : EventRecord). str_eq x.conv_id (scope_conv_id r.scope r.conv_id log) in
      Elem-sort by_lamport e (T.query s here) (
        T.query_complete s here e stored
          ((eq_iff e.conv_id (scope_conv_id r.scope r.conv_id log)).1 same))

  wanted-IsNews : All (λ e. IsNews r.since (to_envelope_event e)) wanted
  unfolding wanted is_wanted to_envelope_event
  wanted-IsNews =
      let rows = list_events_by_conv T s (scope_conv_id r.scope r.conv_id log) in
      All-map (λ e. is_wanted r.since e ≡ true) (λ e. IsNews r.since (to_envelope_event e))
        (λ e h. ltb→lt (seen_at r.since e.author_device_id) e.lamport h) wanted
        (All-keep_test (is_wanted r.since) rows)

  carried-IsNews : All (IsNews r.since) (carried answer)
  unfolding sort_events_deterministic
  carried-IsNews = rw carried-answer (
      All-sort (event_le locale_le) (IsNews r.since) (map to_envelope_event wanted)
        (All-image (IsNews r.since) to_envelope_event wanted wanted-IsNews))

  carried-wanted : (e : EventRecord) → Elem e wanted → Elem (to_envelope_event e) (carried answer)
  unfolding sort_events_deterministic
  carried-wanted e m = rw carried-answer (
      Elem-sort (event_le locale_le) (to_envelope_event e) (map to_envelope_event wanted)
        (Elem-map to_envelope_event e wanted m))

  last_next-answer :
      last_next answer
      ≡ build_next_map (list_events_by_conv T s (scope_conv_id r.scope r.conv_id log)) []
  unfolding answer_sync_req wanted
  last_next-answer =
      let all = list_events_by_conv T s (scope_conv_id r.scope r.conv_id log) in
      last_next-create bytes_of (record { scope = r.scope; conv_id = r.conv_id }) session_id
        (sort_events_deterministic locale_le (map to_envelope_event wanted)) (build_next_map all [])
        flow_control

  -- A stored event of the log that a peer asks for is in one of the frames of the response exactly
  -- when its lamport number is above what the peer has seen of its author; and in either case it
  -- is not above the new numbers that the last frame gives the peer.
  pub answer_sync_req_complete :
      (e : EventRecord)
      → T.get s e.event_id ≡ some e
      → e.conv_id ≡ scope_conv_id r.scope r.conv_id log
      → (Elem (to_envelope_event e) (carried answer)
          ↔ (seen_at r.since e.author_device_id < e.lamport))
        × (e.lamport ≤ seen_at (last_next answer) e.author_device_id)
  unfolding to_envelope_event wanted is_wanted
  answer_sync_req_complete e stored same =
      let all = list_events_by_conv T s (scope_conv_id r.scope r.conv_id log) in
      (
        (
          λ m. All-elem (IsNews r.since) (to_envelope_event e) (carried answer) carried-IsNews m,
          λ news. carried-wanted e (
              Elem-keep (is_wanted r.since) e all (listed e stored same)
                (lt→ltb (seen_at r.since e.author_device_id) e.lamport news)),
        ),
        rw last_next-answer (build_next_map-bounds all [] e (listed e stored same)),
      )
