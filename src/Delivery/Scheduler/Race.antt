-- ===== src/Delivery/Scheduler/Race.antt =====
-- An acknowledgement that comes in while a message is being sent is never undone: src/delivery/
-- deliveryScheduler.ts with `markOutboxInFlightUnlessAcked`.
use nkc.Base.{
  ℕ, ◌+◌, ◌≡◌, refl, false, Option, some, List, ◌∷◌, String, str_eq, if◌then◌else◌, contains, arith,
  leb,
}
use nkc.Table.{Table}
use nkc.Outbox.{OutboxRecord, record_key}
use nkc.Outbox.Acks.{marked, mark_outbox_in_flight_unless_acked_lem}
use nkc.Receipts.{ReceiptRecord, receipt_key}
use nkc.Media.{MediaTransferProgress, progress_key}
use nkc.Delivery.{Stores}
use nkc.Delivery.Scheduler.{
  Planned, Options, Worker, SendOutcome, ok, threw, failed, attempted, planned_by_id, attempt,
  after_send, deliver_one,
}

-- The row of a message after its send, from the row as the send left it.
abbrev pub after_outcome : ℕ → ℕ → SendOutcome → Option OutboxRecord → Option OutboxRecord
after_outcome now timeout ok row = marked now (now + timeout) row
after_outcome now timeout (failed retryable) row = row
after_outcome now timeout threw row = row

module _ (T : Table OutboxRecord record_key) (R : Table ReceiptRecord receipt_key)
    (M : Table MediaTransferProgress progress_key) (o : Options T R M) (now : ℕ) where
  get-after_send :
      (id k : String) (outcome : SendOutcome) (s : Stores T R M)
      → T.get (after_send T R M o now id outcome s).outbox k ≡ (
          if str_eq id k
          then after_outcome now o.ack_timeout_ms outcome (T.get s.outbox k)
          else T.get s.outbox k)
  unfolding after_send
  get-after_send id k ok s =
      (mark_outbox_in_flight_unless_acked_lem T id now (now + o.ack_timeout_ms) s.outbox k).1
  get-after_send id k (failed retryable) s = ground arith
  get-after_send id k threw s = ground arith

  -- What the sender is given, and the stores when it starts.
  abbrev pub sending : Planned → OutboxRecord → Worker T R M → SendOutcome × Stores T R M
  sending plan r w =
      o.send (attempted now plan r)
        (record w.stores { outbox = T.update w.stores.outbox r.id (attempted now plan) })

  -- A row that is due, not in flight and planned is sent once. Afterwards its stored row is the one
  -- that the send left, in flight with a deadline if the send succeeded and the row was there and
  -- not acknowledged meanwhile; every other row is as the send left it.
  pub deliver_one_outcome :
      (plan : List Planned) (p : Planned) (r : OutboxRecord) (w : Worker T R M) (k : String)
      → contains w.in_flight r.id ≡ false
      → leb r.expires_at_ms now ≡ false
      → planned_by_id plan r.id ≡ some p
      → let (outcome, during) = sending p r w in
        let after = deliver_one T R M o now plan r w in
        (after.sent ≡ attempted now p r ∷ w.sent)
        × (T.get after.stores.outbox k ≡ (
            if str_eq r.id k
            then after_outcome now o.ack_timeout_ms outcome (T.get during.outbox k)
            else T.get during.outbox k))
  unfolding deliver_one
  deliver_one_outcome plan p r w k free soon planned =
      rw (free, soon, planned, deliver_one) (attempt_outcome p r w k)
    where
      attempt_outcome :
          (p : Planned) (r : OutboxRecord) (w : Worker T R M) (k : String)
          → let (outcome, during) = sending p r w in
            let after = attempt T R M o now p r w in
            (after.sent ≡ attempted now p r ∷ w.sent)
            × (T.get after.stores.outbox k ≡ (
                if str_eq r.id k
                then after_outcome now o.ack_timeout_ms outcome (T.get during.outbox k)
                else T.get during.outbox k))
      attempt_outcome p r w k = (refl, get-after_send r.id k (sending p r w).0 (sending p r w).1)
