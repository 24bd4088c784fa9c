-- ===== src/Sync/Apply/Once.antt =====
-- That no event is applied twice: applyEnvelopeEvents of src/sync/syncEngine.ts.
use nkc.Base.{
  ℕ, ◌≤◌, ◌≡◌, refl, ◌⊎◌, inl, inr, ◌&&◌, Option, none, some, List, [], ◌∷◌, String, str_eq, leb,
  ◌==◌, is_some, arith, le→leb, Bool-cases, Option-cases, map,
}
use nkc.Base.Dict.{Dict}
use nkc.Table.{Table}
use nkc.Sync.{EnvelopeEvent, EventRecord, event_key, PeerContext, Seen, get_lamport_seen}
use nkc.Sync.Lamports.{get_lamport_seen_mono, get_lamport_seen_self}
use nkc.Sync.Responses.{sort_events_deterministic}
use nkc.Sync.Apply.{
  ApplyDeps, State, Envelope, Rk, get_peer_verify_key, resolve_ratchet_base_key, resolve_legacy_key,
  commit_body, apply_v2, apply_v1, apply_legacy, apply_by_rk, apply_envelope,
}
use nkc.Sync.Apply.Batches.{apply_new, apply_event, apply_each, unique_from, apply_envelope_events}

-- Nothing that has been seen is forgotten.
pub record Grows (s t : Seen) : Type 0 where
  pub grows : (log author : String) → get_lamport_seen s log author ≤ get_lamport_seen t log author

pub Grows-refl : (s : Seen) → Grows s s
Grows-refl s = record { grows = λ l a. omega arith }

pub Grows-trans : {s t u : Seen} → Grows s t → Grows t u → Grows s u
Grows-trans g h = record { grows = λ l a. omega (arith, g.grows l a, h.grows l a) }

-- A batch of events, with the contexts of the peers at its time and its conversation.
abbrev pub Batch : Type 0
Batch = Dict PeerContext × String × List EnvelopeEvent

module _ (T : Table EventRecord event_key) (D : ApplyDeps) where
  open D use {World, Key, Body}

  -- What an event may do to the stored events: nothing, or it counts as seen.
  abbrev Settles : EnvelopeEvent → ℕ → State T D → State T D → Type 0
  Settles event lamport s t =
      Grows s.seen t.seen
      × ((lamport ≤ get_lamport_seen t.seen event.conv_id event.author_device_id)
          ⊎ ((t.seen ≡ s.seen) × (t.events ≡ s.events)))

  Settles-refl : (event : EnvelopeEvent) (lamport : ℕ) (s : State T D) → Settles event lamport s s
  Settles-refl event lamport s = (Grows-refl s.seen, inr (refl, refl))

  commit_body-Settles :
      (conv : String) (event : EnvelopeEvent) (lamport : ℕ) (e : Envelope) (body : Option Body)
      (w : World) (s : State T D)
      → Settles event lamport s (commit_body T D conv event lamport e body w s)
  unfolding commit_body
  commit_body-Settles conv event lamport e none w s = Settles-refl event lamport s
  commit_body-Settles conv event lamport e (some body) w s = (
    record { grows = get_lamport_seen_mono s.seen event.conv_id event.author_device_id lamport },
    inl (get_lamport_seen_self s.seen event.conv_id event.author_device_id lamport),
  )

  module _ (peers : Dict PeerContext) (conv : String) (event : EnvelopeEvent) (lamport : ℕ)
      (e : Envelope) (verify_key : Key) where
    apply_v2-Settles :
        (rk : Rk) (s : State T D)
        → Settles event lamport s (apply_v2 T D peers conv event lamport e verify_key rk s)
    unfolding apply_v2
    apply_v2-Settles rk s =
        elim (Option-cases (resolve_ratchet_base_key T D peers s.world conv e.header.conv_id)) [
          | inl x ↦ rw (x, apply_v2) (Settles-refl event lamport s)
          | inr (base, x) ↦
              elim (Option-cases (D.try_recv_dh_key s.world e.header.conv_id base rk)) [
                | inl y ↦ rw (x, y, apply_v2) (Settles-refl event lamport s)
                | inr ((key, commit), y) ↦
                    rw (x, y, apply_v2)
                      (commit_body-Settles conv event lamport e
                        (D.decrypt_envelope key e verify_key) (commit s.world) s)
              ]
        ]

    apply_v1-Settles :
        (i : ℕ) (s : State T D)
        → Settles event lamport s (apply_v1 T D peers conv event lamport e verify_key i s)
    unfolding apply_v1
    apply_v1-Settles i s =
        elim (Option-cases (resolve_ratchet_base_key T D peers s.world conv e.header.conv_id)) [
          | inl x ↦ rw (x, apply_v1) (Settles-refl event lamport s)
          | inr (base, x) ↦
              let moved : State T D = record s {
                world = (D.try_recv_key s.world e.header.conv_id base i).0;
              } in
              elim (Option-cases (D.try_recv_key s.world e.header.conv_id base i).1) [
                | inl y ↦ rw (x, y, apply_v1) (Settles-refl event lamport moved)
                | inr (key, y) ↦
                    rw (x, y, apply_v1)
                      (commit_body-Settles conv event lamport e
                        (D.decrypt_envelope key e verify_key) moved.world moved)
              ]
        ]

    apply_legacy-Settles :
        (s : State T D)
        → Settles event lamport s (apply_legacy T D peers conv event lamport e verify_key s)
    unfolding apply_legacy
    apply_legacy-Settles s = elim (Option-cases (resolve_legacy_key T D peers s.world conv)) [
      | inl x ↦ rw (x, apply_legacy) (Settles-refl event lamport s)
      | inr (key, x) ↦
          rw (x, apply_legacy)
            (commit_body-Settles conv event lamport e (D.decrypt_envelope key e verify_key) s.world
              s)
    ]

    apply_by_rk-Settles :
        (rk : Option Rk) (s : State T D)
        → Settles event lamport s (apply_by_rk T D peers conv event lamport e verify_key rk s)
    unfolding apply_by_rk
    apply_by_rk-Settles none s = apply_legacy-Settles s
    apply_by_rk-Settles (some rk) s =
        elim (Bool-cases (rk.v == 2 && (is_some rk.i && is_some rk.dh))) [
          | inl two ↦ rw two (apply_v2-Settles rk s)
          | inr other ↦ elim (Bool-cases (rk.v == 1)) [
            | inr zero ↦ rw (other, zero) (apply_legacy-Settles s)
            | inl one ↦ elim (Option-cases rk.i) [
              | inl x ↦ rw (other, one, x, apply_by_rk) (apply_legacy-Settles s)
              | inr (i, x) ↦ rw (other, one, x, apply_by_rk) (apply_v1-Settles i s)
            ]
          ]
        ]

  apply_envelope-Settles :
      (peers : Dict PeerContext) (conv : String) (event : EnvelopeEvent) (lamport : ℕ)
      (e : Envelope) (s : State T D)
      → Settles event lamport s (apply_envelope T D peers conv event lamport e s)
  unfolding apply_envelope
  apply_envelope-Settles peers conv event lamport e s =
      elim (Bool-cases (str_eq e.header.event_id event.event_id)) [
        | inr x ↦ rw x (Settles-refl event lamport s)
        | inl x ↦
            elim (Option-cases (get_peer_verify_key T D peers conv e.header.author_device_id)) [
              | inl y ↦ rw (x, y, apply_envelope) (Settles-refl event lamport s)
              | inr (key, y) ↦ elim (Bool-cases (D.verify_envelope_signature e key)) [
                | inr z ↦ rw (x, y, z, apply_envelope) (Settles-refl event lamport s)
                | inl z ↦
                    rw (x, y, z, apply_envelope)
                      (apply_by_rk-Settles peers conv event lamport e key e.header.rk s)
              ]
            ]
      ]

  apply_new-Settles :
      (peers : Dict PeerContext) (conv : String) (event : EnvelopeEvent) (lamport : ℕ)
      (s : State T D)
      → Settles event lamport s (apply_new T D peers conv event lamport s)
  unfolding apply_new
  apply_new-Settles peers conv event lamport s =
      elim (Option-cases (T.get s.events event.event_id)) [
        | inr (known, x) ↦
            rw (x, apply_new)
              (
                record {
                  grows = get_lamport_seen_mono s.seen event.conv_id event.author_device_id lamport;
                },
                inl (get_lamport_seen_self s.seen event.conv_id event.author_device_id lamport),
              )
        | inl x ↦ elim (Option-cases (D.parse_envelope event.envelope_json)) [
          | inl y ↦ rw (x, y, apply_new) (Settles-refl event lamport s)
          | inr (e, y) ↦ rw (x, y, apply_new) (apply_envelope-Settles peers conv event lamport e s)
        ]
      ]

  pub apply_event-Settles :
      (peers : Dict PeerContext) (conv : String) (event : EnvelopeEvent) (lamport : ℕ)
      (s : State T D)
      → event.lamport ≡ some lamport
      → Settles event lamport s (apply_event T D peers conv event s)
  unfolding apply_event
  apply_event-Settles peers conv event lamport s l =
      elim (Bool-cases
        (leb lamport (get_lamport_seen s.seen event.conv_id event.author_device_id))) [
          | inl x ↦ rw (l, x, apply_event) (Settles-refl event lamport s)
          | inr x ↦ rw (l, x, apply_event) (apply_new-Settles peers conv event lamport s)
        ]

  apply_event-Grows :
      (peers : Dict PeerContext) (conv : String) (event : EnvelopeEvent) (s : State T D)
      → Grows s.seen (apply_event T D peers conv event s).seen
  unfolding apply_event
  apply_event-Grows peers conv event s = elim (Option-cases event.lamport) [
    | inl l ↦ rw (l, apply_event) (Grows-refl s.seen)
    | inr (lamport, l) ↦ (apply_event-Settles peers conv event lamport s l).0
  ]

  apply_each-Grows :
      (peers : Dict PeerContext) (conv : String) (es : List EnvelopeEvent) (s : State T D)
      → Grows s.seen (apply_each T D peers conv es s).seen
  unfolding apply_each
  apply_each-Grows peers conv [] s = Grows-refl s.seen
  apply_each-Grows peers conv (e ∷ es) s =
      Grows-trans (apply_event-Grows peers conv e s)
        (apply_each-Grows peers conv es (apply_event T D peers conv e s))

  pub apply_envelope_events-Grows :
      (peers : Dict PeerContext) (conv : String) (es : List EnvelopeEvent) (s : State T D)
      → Grows s.seen (apply_envelope_events T D peers conv es s).seen
  unfolding apply_envelope_events
  apply_envelope_events-Grows peers conv es s = apply_each-Grows peers conv (batch es) s
    where
      batch : List EnvelopeEvent → List EnvelopeEvent
      batch es = sort_events_deterministic D.locale_le (map (λ (k, e). e) (unique_from T D es []))

  abbrev pub apply_batches : List Batch → State T D → State T D
  apply_batches [] s = s
  apply_batches ((peers, conv, es) ∷ bs) s =
      apply_batches bs (apply_envelope_events T D peers conv es s)

  pub apply_batches-Grows :
      (bs : List Batch) (s : State T D) → Grows s.seen (apply_batches bs s).seen
  apply_batches-Grows [] s = Grows-refl s.seen
  apply_batches-Grows ((peers, conv, es) ∷ bs) s =
      Grows-trans (apply_envelope_events-Grows peers conv es s)
        (apply_batches-Grows bs (apply_envelope_events T D peers conv es s))

  pub seen-apply_event :
      (peers : Dict PeerContext) (conv : String) (event : EnvelopeEvent) (lamport : ℕ)
      (s : State T D)
      → event.lamport ≡ some lamport
      → lamport ≤ get_lamport_seen s.seen event.conv_id event.author_device_id
      → apply_event T D peers conv event s ≡ s
  unfolding apply_event
  seen-apply_event peers conv event lamport s l h =
      let replay =
        le→leb lamport (get_lamport_seen s.seen event.conv_id event.author_device_id) h in
      rw (l, replay, apply_event) refl

  -- An event that is taken from a peer either changes no stored event and no lamport number, or is a
  -- replay from then on: whatever batches are applied in between, it does nothing when it comes
  -- again, from any peer.
  pub apply_event_once :
      (peers peers' : Dict PeerContext) (conv conv' : String) (event : EnvelopeEvent) (lamport : ℕ)
      (s : State T D) (bs : List Batch)
      → event.lamport ≡ some lamport
      → let t = apply_event T D peers conv event s in
        let u = apply_batches bs t in
        ((t.seen ≡ s.seen) × (t.events ≡ s.events)) ⊎ (apply_event T D peers' conv' event u ≡ u)
  apply_event_once peers peers' conv conv' event lamport s bs l =
      let t = apply_event T D peers conv event s in
      let later = (apply_batches-Grows bs t).grows event.conv_id event.author_device_id in
      elim (apply_event-Settles peers conv event lamport s l).1 [
        | inr same ↦ inl same
        | inl h ↦ inr (
            seen-apply_event peers' conv' event lamport (apply_batches bs t) l
              (omega (arith, later)))
      ]
