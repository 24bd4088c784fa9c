-- ===== src/Delivery/Scheduler/Sent.antt =====
-- What one tick of src/delivery/deliveryScheduler.ts hands to the sender.
use nkc.Base.{
  ℕ, ◌≡◌, refl, ap, ◌*◌, inl, inr, Bool, true, false, Option, none, some, List, [], ◌∷◌, String,
  str_eq, leb, if◌then◌else◌, contains, find, arith, Bool-cases, Option-cases, All, subst, sym,
  All-map, ◌∙◌, eq_refl, eq_iff, Elem,
}
use nkc.Table.{Table}
use nkc.Outbox.{OutboxRecord, record_key, list_retryable_outbox}
use nkc.Outbox.Listing.{list_retryable_outbox_lem, IsDueRow}
use nkc.Receipts.{ReceiptRecord, receipt_key}
use nkc.Media.{MediaTransferProgress, progress_key}
use nkc.Delivery.Scheduler.{
  PlanRequest, Planned, Options, Worker, attempted, selected_rows, planned_by_id, attempt,
  deliver_one, deliver_each, deliver_planned, candidates, prepared, native_plan, tick, delete_id,
}

find-All :
    (P : OutboxRecord → Type 0) (p : OutboxRecord → Bool) (xs : List OutboxRecord)
    (r : OutboxRecord)
    → All P xs
    → find p xs ≡ some r
    → P r
find-All P p [] r h e = cc
find-All P p (x ∷ xs) r h e = elim (Bool-cases (p x)) [
  | inl t ↦ let same : x ≡ r = ground arith in subst P same h.0
  | inr f ↦ find-All P p xs r h.1 (ground arith)
]

selected_rows-All :
    (P : OutboxRecord → Type 0) (plan : List Planned) (rows : List OutboxRecord)
    → All P rows
    → All P (selected_rows plan rows)
unfolding selected_rows
selected_rows-All P [] rows h = tt
selected_rows-All P (x ∷ xs) rows h = elim (Option-cases (find (λ r. str_eq r.id x.id) rows)) [
  | inl e ↦ rw (e, selected_rows) (selected_rows-All P xs rows h)
  | inr (r, e) ↦
      rw (e, selected_rows)
        (find-All P (λ r. str_eq r.id x.id) rows r h e, selected_rows-All P xs rows h)
]

planned_by_id-Elem :
    (plan : List Planned) (id : String) (p : Planned)
    → planned_by_id plan id ≡ some p
    → Elem p plan × (p.id ≡ id)
unfolding planned_by_id
planned_by_id-Elem [] id p h = cc
planned_by_id-Elem (x ∷ xs) id p h = elim (Option-cases (planned_by_id xs id)) [
  | inr (y, e) ↦
      let found : some y ≡ some p = rw e at h in
      let ih = planned_by_id-Elem xs id p (e ∙ found) in (inr ih.0, ih.1)
  | inl e ↦ elim (Bool-cases (str_eq x.id id)) [
    | inl t ↦
        let found : some x ≡ some p = rw (e, t) at h in
        let same : p ≡ x = cc in (inl same, ap (λ (y : Planned). y.id) same ∙ (eq_iff x.id id).0 t)
    | inr t ↦ let missing : none ≡ some p = rw (e, t) at h in cc
  ]
]

delete_id_absent : (xs : List String) (id : String) → contains xs id ≡ false → delete_id xs id ≡ xs
unfolding delete_id
delete_id_absent [] id h = refl
delete_id_absent (x ∷ xs) id h = ground (arith, delete_id_absent xs id)

module _ (T : Table OutboxRecord record_key) (R : Table ReceiptRecord receipt_key)
    (M : Table MediaTransferProgress progress_key) (o : Options T R M) (now : ℕ) where
  -- A record that is sent is a stored row that is due, with the numbers of its own entry of the
  -- plan that the planner made of the candidates.
  abbrev pub SentRow : T.Store → OutboxRecord → Type 0
  SentRow s r =
      (plan : List Planned) × (p : Planned) × (row : OutboxRecord) × (native_plan T R M o now
          (candidates T R M o now s)
        ≡ some plan)
      × Elem p plan
      × (p.id ≡ row.id)
      × (r ≡ record row {
        attempts = some p.attempts;
        last_attempt_at_ms = some now;
        next_attempt_at_ms = some p.next_attempt_at_ms;
      })
      × IsDueRow T s now row

  -- What may be made of a row by an entry of the plan.
  abbrev CanSend : (OutboxRecord → Type 0) → List Planned → OutboxRecord → Type 0
  CanSend P plan r = (p : Planned) → planned_by_id plan r.id ≡ some p → P (attempted now p r)

  attempt-keeps :
      (P : OutboxRecord → Type 0) (plan : Planned) (r : OutboxRecord) (w : Worker T R M)
      → contains w.in_flight r.id ≡ false
      → P (attempted now plan r)
      → All P w.sent
      → let after = attempt T R M o now plan r w in
        All P after.sent × (after.in_flight ≡ w.in_flight) × (after.running ≡ w.running)
  unfolding attempt delete_id
  attempt-keeps P plan r w absent p h =
      ((p, h), rw (eq_refl r.id) (delete_id_absent w.in_flight r.id absent), refl)

  -- One row adds at most one record to what was sent, and is in flight no longer than that.
  deliver_one-keeps :
      (P : OutboxRecord → Type 0) (plan : List Planned) (r : OutboxRecord) (w : Worker T R M)
      → CanSend P plan r
      → All P w.sent
      → let after = deliver_one T R M o now plan r w in
        All P after.sent × (after.in_flight ≡ w.in_flight) × (after.running ≡ w.running)
  unfolding deliver_one
  deliver_one-keeps P plan r w ok h =
      by_tests (contains w.in_flight r.id) refl (leb r.expires_at_ms now) (planned_by_id plan r.id)
        refl
    where
      by_tests :
          (held : Bool)
          → contains w.in_flight r.id ≡ held
          → (late : Bool) (found : Option Planned) → planned_by_id plan r.id ≡ found
          → let after =
              if held
              then w
              else if late
              then w
              else elim found [ none ↦ w | some p ↦ attempt T R M o now p r w ] in
            All P after.sent × (after.in_flight ≡ w.in_flight) × (after.running ≡ w.running)
      by_tests true e late found x = (h, refl, refl)
      by_tests false e true found x = (h, refl, refl)
      by_tests false e false none x = (h, refl, refl)
      by_tests false e false (some p) x = attempt-keeps P p r w e (ok p x) h

  deliver_each-keeps :
      (P : OutboxRecord → Type 0) (plan : List Planned) (rs : List OutboxRecord) (w : Worker T R M)
      → All (CanSend P plan) rs
      → All P w.sent
      → let after = deliver_each T R M o now plan rs w in
        All P after.sent × (after.in_flight ≡ w.in_flight) × (after.running ≡ w.running)
  unfolding deliver_each
  deliver_each-keeps P plan [] w ok h = (h, refl, refl)
  deliver_each-keeps P plan (r ∷ rs) w ok h =
      let one = deliver_one-keeps P plan r w ok.0 h in
      let (sent, held, run) =
        deliver_each-keeps P plan rs (deliver_one T R M o now plan r w) ok.1 one.0 in
      (sent, held ∙ one.1, run ∙ one.2)

  candidates-IsDueRow : (s : T.Store) → All (IsDueRow T s now) (candidates T R M o now s)
  unfolding candidates
  candidates-IsDueRow s = by_plan o.plan_delivery
    where
      by_plan :
          (plan : Option (PlanRequest → Option (List Planned)))
          → All (IsDueRow T s now) (elim plan [
            | none ↦ list_retryable_outbox T now o.batch_size s
            | some _ ↦ list_retryable_outbox T now (o.batch_size * 4) s
          ])
      by_plan none = (list_retryable_outbox_lem T s now o.batch_size).0
      by_plan (some f) = (list_retryable_outbox_lem T s now (o.batch_size * 4)).0

  deliver_planned-keeps :
      (s : T.Store) (rows : List OutboxRecord) (plan : Option (List Planned)) (w : Worker T R M)
      → native_plan T R M o now (candidates T R M o now s) ≡ plan
      → All (IsDueRow T s now) rows
      → All (SentRow s) w.sent
      → let after = deliver_planned T R M o now rows plan w in
        All (SentRow s) after.sent × (after.in_flight ≡ w.in_flight)
  unfolding deliver_planned attempted
  deliver_planned-keeps s rows none w e ok h = (h, refl)
  deliver_planned-keeps s rows (some plan) w e ok h =
      let can_send =
        All-map (IsDueRow T s now) (CanSend (SentRow s) plan)
          (λ r due p x.
            let (listed, id) = planned_by_id-Elem plan r.id p x in
            (plan, p, r, e, listed, id, refl, due))
          rows ok in
      let kept =
        deliver_each-keeps (SentRow s) plan (selected_rows plan rows) w
          (selected_rows-All (CanSend (SentRow s) plan) plan rows can_send) h in
      (kept.0, kept.1)

  -- From an empty history of sends, every record that a tick hands to the sender is a row that,
  -- after the sweep, was stored, pending, due and not expired, with the attempts and the time of the
  -- next attempt of an entry for its id of the plan that the planner made of the candidates, and
  -- the time of the tick as its last attempt; and the tick leaves in flight what was in flight
  -- before.
  pub tick_sends_listed :
      (w : Worker T R M)
      → w.sent ≡ []
      → let after = tick T R M o now w in
        All (SentRow (prepared T R M o now w.stores).outbox) after.sent
        × (after.in_flight ≡ w.in_flight)
        × (after.running ≡ w.running)
  unfolding tick
  tick_sends_listed w none_sent = by_tests w.running refl o.is_online
    where
      s : T.Store
      s = (prepared T R M o now w.stores).outbox

      start : All (SentRow s) w.sent
      start = rw none_sent tt

      rows : List OutboxRecord
      rows = candidates T R M o now s

      ready : Worker T R M
      ready = record w { running = true; stores = prepared T R M o now w.stores }

      by_tests :
          (running : Bool)
          → w.running ≡ running
          → (online : Bool)
          → let after =
              if running
              then w
              else if online
              then record (deliver_planned T R M o now rows (native_plan T R M o now rows) ready) {
                running = false;
              }
              else w in
            All (SentRow s) after.sent
            × (after.in_flight ≡ w.in_flight)
            × (after.running ≡ w.running)
      by_tests true e online = (start, refl, refl)
      by_tests false e false = (start, refl, refl)
      by_tests false e true =
          let kept =
            deliver_planned-keeps s rows (native_plan T R M o now rows) ready refl
              (candidates-IsDueRow s) start in
          (kept.0, kept.1, sym e)

  native_plan-none :
      ((f : PlanRequest → Option (List Planned)) (q : PlanRequest)
        → o.plan_delivery ≡ some f
        → f q ≡ none)
      → (rows : List OutboxRecord) → native_plan T R M o now rows ≡ none
  unfolding native_plan
  native_plan-none no_plan rows = elim (Option-cases o.plan_delivery) [
    | inl e ↦ rw (e, native_plan)
    | inr (f, e) ↦ rw (e, native_plan) (no_plan f _ e)
  ]

  -- A tick of an idle worker that is online but gets no plan sends nothing: it sweeps, and queues
  -- overdue rows again.
  pub tick_unplanned :
      (w : Worker T R M)
      → w.running ≡ false
      → o.is_online ≡ true
      → ((f : PlanRequest → Option (List Planned)) (q : PlanRequest)
          → o.plan_delivery ≡ some f
          → f q ≡ none)
      → tick T R M o now w ≡ record w { stores = prepared T R M o now w.stores }
  unfolding tick
  tick_unplanned w idle online no_plan =
      let rows = candidates T R M o now (prepared T R M o now w.stores).outbox in
      ground (arith, native_plan-none no_plan rows)
