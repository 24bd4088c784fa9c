-- ===== src/Sync/Apply/Losses.antt =====
-- Events that are lost: applyEnvelopeEvents and handleSyncRes of src/sync/syncEngine.ts.
use nkc.Base.{
  ℕ, ◌≤◌, ◌<◌, ◌≡◌, refl, ap, subst, ◌∙◌, inl, inr, true, false, Option, none, some, List, [], ◌∷◌,
  String, str_eq, leb, arith, leb→le, ◌==◌, Bool-cases, Option-cases, Elem,
}
use nkc.Base.Dict.{Dict, set}
use nkc.Base.Sort.{sort, insert}
use nkc.Table.{Table}
use nkc.Sync.{
  EnvelopeEvent, EventRecord, event_key, PeerContext, SyncRes, Seen, update_lamport_seen,
  get_lamport_seen, get_since_map, scope_conv_id,
}
use nkc.Sync.Lamports.{get_lamport_seen_mono, get_lamport_seen_self}
use nkc.Sync.Responses.{event_le, is_wanted, sort_events_deterministic}
use nkc.Sync.Apply.{ApplyDeps, State}
use nkc.Sync.Apply.Batches.{
  apply_new, apply_event, apply_each, apply_envelope_events, unique_from, handle_sync_res,
  is_device_sync_allowed, raise_all,
}
use nkc.Sync.Apply.Once.{
  Grows, Grows-refl, Grows-trans, Batch, apply_batches, apply_batches-Grows, seen-apply_event,
}

-- The response ends the exchange: it is not an inner frame of a flow.
abbrev pub IsLast : SyncRes → Type 0
IsLast r = elim r.flow [ none ↦ Unit {0} | some flow ↦ flow.final ≡ true ]

module _ (T : Table EventRecord event_key) (D : ApplyDeps) where
  raise_all-Grows :
      (log : String) (next : Dict ℕ) (seen : Seen) → Grows seen (raise_all T D log next seen)
  unfolding raise_all
  raise_all-Grows log [] seen = Grows-refl seen
  raise_all-Grows log ((author, n) ∷ next) seen =
      Grows-trans (record { grows = get_lamport_seen_mono seen log author n })
        (raise_all-Grows log next (update_lamport_seen seen log author n))

  raise_all-raises :
      (log : String) (next : Dict ℕ) (seen : Seen) (author : String) (n : ℕ)
      → Elem (author, n) next
      → n ≤ get_lamport_seen (raise_all T D log next seen) log author
  unfolding raise_all
  raise_all-raises log [] seen author n m = absurd m
  raise_all-raises log ((a, k) ∷ next) seen author n (inl e) =
      let same : author ≡ a = ap (λ p. p.0) e in
      let number : n ≡ k = ap (λ p. p.1) e in
      let now = get_lamport_seen_self seen log a k in
      let later = (raise_all-Grows log next (update_lamport_seen seen log a k)).grows log a in
      rw (same, number) (omega (arith, now, later))
  raise_all-raises log ((a, k) ∷ next) seen author n (inr m) =
      raise_all-raises log next (update_lamport_seen seen log a k) author n m

  -- The last frame of a response raises the numbers of its log, whether or not the events were
  -- applied.
  handle_sync_res-raises :
      (peers : Dict PeerContext) (approved_by : String → Option String) (conv : String)
      (r : SyncRes) (s : State T D) (author : String) (n : ℕ)
      → is_device_sync_allowed T D peers approved_by conv ≡ true
      → IsLast r
      → Elem (author, n) r.next
      → n
        ≤ get_lamport_seen
            (handle_sync_res T D peers approved_by conv r s).0.seen
            (scope_conv_id r.scope r.conv_id conv)
            author
  unfolding handle_sync_res
  handle_sync_res-raises peers approved_by conv r s author n allowed last m =
      let after = apply_envelope_events T D peers conv r.events s in
      let raised =
        raise_all-raises (scope_conv_id r.scope r.conv_id conv) r.next after.seen author n m in
      elim (Option-cases r.flow) [
        | inl e ↦ rw (allowed, e, handle_sync_res) raised
        | inr (flow, e) ↦
            let final : flow.final ≡ true =
              subst (λ o. elim o [ none ↦ Unit {0} | some f ↦ f.final ≡ true ]) e last in
            rw (allowed, e, final, handle_sync_res) raised
      ]

  -- The lamport number is asked for no more: `since` of a request for the log excludes it.
  not_wanted :
      (seen : Seen) (log : String) (row : EventRecord)
      → row.lamport ≤ get_lamport_seen seen log row.author_device_id
      → is_wanted (get_since_map seen (some log)) row ≡ false
  unfolding is_wanted get_since_map get_lamport_seen
  not_wanted seen log row h = ground arith

  -- The last frame of a response that gives an author the number `n` is final for the author's
  -- events up to `n`, also for those that were not stored because their keys were missing, their
  -- message was deferred or they could not be read: whatever batches come afterwards, such an event
  -- does nothing when it comes again, and no request for the log asks for it.
  pub handle_sync_res-skips :
      (peers peers' : Dict PeerContext) (approved_by : String → Option String) (conv conv' : String)
      (r : SyncRes) (s : State T D) (bs : List Batch) (event : EnvelopeEvent) (row : EventRecord)
      (lamport n : ℕ)
      → is_device_sync_allowed T D peers approved_by conv ≡ true
      → IsLast r
      → Elem (event.author_device_id, n) r.next
      → event.conv_id ≡ scope_conv_id r.scope r.conv_id conv
      → event.lamport ≡ some lamport
      → lamport ≤ n
      → row.author_device_id ≡ event.author_device_id
      → row.lamport ≡ lamport
      → let u = apply_batches T D bs (handle_sync_res T D peers approved_by conv r s).0 in
        (apply_event T D peers' conv' event u ≡ u)
        × (is_wanted (get_since_map u.seen (some event.conv_id)) row ≡ false)
  handle_sync_res-skips peers peers' approved_by conv conv' r s bs event row lamport n allowed last
        m log l le author same =
      let t = (handle_sync_res T D peers approved_by conv r s).0 in
      let u = apply_batches T D bs t in
      let raised =
        handle_sync_res-raises peers approved_by conv r s event.author_device_id n allowed last m in
      let later =
        (apply_batches-Grows T D bs t).grows (scope_conv_id r.scope r.conv_id conv)
          event.author_device_id in
      let seen : lamport ≤ get_lamport_seen u.seen event.conv_id event.author_device_id =
        rw log (omega (arith, later, raised)) in
      (
        seen-apply_event T D peers' conv' event lamport u l seen,
        not_wanted u.seen event.conv_id row (rw author (omega (arith, seen, same))),
      )

  known_raises :
      (peers : Dict PeerContext) (conv : String) (forged : EnvelopeEvent) (known : EventRecord)
      (n : ℕ) (s : State T D)
      → T.get s.events forged.event_id ≡ some known
      → forged.lamport ≡ some n
      → n
        ≤ get_lamport_seen
            (apply_event T D peers conv forged s).seen
            forged.conv_id
            forged.author_device_id
  unfolding apply_event apply_new
  known_raises peers conv forged known n s stored f =
      elim (Bool-cases (leb n (get_lamport_seen s.seen forged.conv_id forged.author_device_id))) [
        | inl x ↦
            rw (f, x, apply_event)
              (leb→le n (get_lamport_seen s.seen forged.conv_id forged.author_device_id) x)
        | inr x ↦
            rw (f, x, apply_event, stored, apply_new)
              (get_lamport_seen_self s.seen forged.conv_id forged.author_device_id n)
      ]

  -- Of an event whose id is stored nothing is checked, neither its signature nor that its log, its
  -- author and its number are those of the stored event. It raises the number of the author that it
  -- names, and every other event of that author in that log up to the number is dropped from then
  -- on, whatever batches come in between.
  pub apply_event-known :
      (peers peers' : Dict PeerContext) (conv conv' : String) (forged victim : EnvelopeEvent)
      (known : EventRecord) (n lamport : ℕ) (s : State T D) (bs : List Batch)
      → T.get s.events forged.event_id ≡ some known
      → forged.lamport ≡ some n
      → victim.lamport ≡ some lamport
      → lamport ≤ n
      → victim.conv_id ≡ forged.conv_id
      → victim.author_device_id ≡ forged.author_device_id
      → let u = apply_batches T D bs (apply_event T D peers conv forged s) in
        apply_event T D peers' conv' victim u ≡ u
  apply_event-known peers peers' conv conv' forged victim known n lamport s bs stored f l le log
        author =
      let t = apply_event T D peers conv forged s in
      let u = apply_batches T D bs t in
      let raised = known_raises peers conv forged known n s stored f in
      let later = (apply_batches-Grows T D bs t).grows forged.conv_id forged.author_device_id in
      let seen : lamport ≤ get_lamport_seen u.seen victim.conv_id victim.author_device_id =
        rw (log, author) (omega (arith, raised, later)) in
      seen-apply_event T D peers' conv' victim lamport u l seen

  two_events :
      (peers : Dict PeerContext) (conv : String) (first second : EnvelopeEvent) (s : State T D)
      → str_eq first.event_id "" ≡ false
      → str_eq second.event_id "" ≡ false
      → str_eq first.event_id second.event_id ≡ false
      → second.ts < first.ts
      → apply_envelope_events T D peers conv (first ∷ second ∷ []) s
        ≡ apply_event T D peers conv first (apply_event T D peers conv second s)
  unfolding apply_envelope_events apply_each unique_from set sort_events_deterministic sort insert
      event_le
  two_events peers conv first second s a b c late =
      let other : (first.ts == second.ts) ≡ false = ground arith in
      let after : leb first.ts second.ts ≡ false = ground arith in rw (a, b, c, other, after) refl

  -- A batch is applied in the order of the times of its events. Of two events of one author in one
  -- log, where the one with the lower number has the later time, the one with the lower number is
  -- lost once the other has been applied: the batch does what the other event alone does.
  pub apply_envelope_events-late :
      (peers : Dict PeerContext) (conv : String) (first second : EnvelopeEvent) (low high : ℕ)
      (s : State T D)
      → str_eq first.event_id "" ≡ false
      → str_eq second.event_id "" ≡ false
      → str_eq first.event_id second.event_id ≡ false
      → first.conv_id ≡ second.conv_id
      → first.author_device_id ≡ second.author_device_id
      → first.lamport ≡ some low
      → low ≤ high
      → second.ts < first.ts
      → high
        ≤ get_lamport_seen
            (apply_event T D peers conv second s).seen
            second.conv_id
            second.author_device_id
      → apply_envelope_events T D peers conv (first ∷ second ∷ []) s
        ≡ apply_event T D peers conv second s
  apply_envelope_events-late peers conv first second low high s a b c log author l le late seen =
      two_events peers conv first second s a b c late
      ∙ seen-apply_event T D peers conv first low (apply_event T D peers conv second s) l
          (rw (log, author) (omega (arith, seen)))
