-- ===== src/Delivery/Policy.antt =====
-- Queueing a message and settling its acknowledgement: src/policies/deliveryPolicy.ts.
use nkc.Base.{
  ℕ, ◌+◌, ◌≤◌, ◌<◌, ◌≡◌, refl, ap, ◌∙◌, inl, inr, true, false, Option, none, some, String, str_eq,
  eq_iff, eq_refl, if◌then◌else◌, arith, Option-cases,
}
use nkc.Table.{Table}
use nkc.Outbox.{OutboxRecord, record_key, transient, is_retryable, is_timed_out}
use nkc.Receipts.{ReceiptRecord, receipt_key, put_receipt, ◌<>◌}
use nkc.Media.{MediaTransferProgress, progress_key}
use nkc.Delivery.{
  Outgoing, Stores, ttl_ms, normalize_outgoing, enqueue_outgoing, set_acked, delivered_row,
  mark_chunk, settle, on_ack_received,
}

-- The row of a message once it has been acknowledged.
abbrev pub settled_row : Option OutboxRecord → Option OutboxRecord
settled_row none = none
settled_row (some r) = elim r.retention [ some transient ↦ none | _ ↦ some (set_acked r) ]

-- The receipt of a message, from its row and from what is stored under the receipt's key.
abbrev pub receipt_for :
    ℕ → String → Option OutboxRecord → Option ReceiptRecord → Option ReceiptRecord
receipt_for now message none stored = stored
receipt_for now message (some r) stored = some (delivered_row now message r)

module _ (T : Table OutboxRecord record_key) (R : Table ReceiptRecord receipt_key)
    (M : Table MediaTransferProgress progress_key) where
  -- A message that comes with no times and no status of its own can be sent from the moment it is
  -- queued until its life of twelve hours is over.
  pub enqueue_outgoing-retryable :
      (now later : ℕ) (o : Outgoing) (s : Stores T R M)
      → o.created_at_ms ≡ none
      → o.expires_at_ms ≡ none
      → o.fields.status ≡ none
      → o.fields.next_attempt_at_ms ≡ none
      → now ≤ later
      → later < now + ttl_ms
      → (T.get (enqueue_outgoing T R M now o s).outbox o.fields.id
          ≡ some (normalize_outgoing now o))
        × (is_retryable later (normalize_outgoing now o) ≡ true)
  unfolding enqueue_outgoing normalize_outgoing is_retryable
  enqueue_outgoing-retryable now later o s a b c d from until = (
    T.get-put s.outbox (normalize_outgoing now o) o.fields.id ∙ rw (eq_refl o.fields.id) refl,
    ground arith,
  )

  mark_chunk-outbox :
      (now : ℕ) (r : OutboxRecord) (s : Stores T R M)
      → ((mark_chunk T R M now r s).outbox ≡ s.outbox)
        × ((mark_chunk T R M now r s).receipts ≡ s.receipts)
  unfolding mark_chunk
  mark_chunk-outbox now r s = ground arith

  get-settle :
      (now : ℕ) (message : String) (r : OutboxRecord) (s : Stores T R M) (k : String)
      → T.get s.outbox message ≡ some r
      → (T.get (settle T R M now message r s).outbox k
          ≡ (if str_eq message k then settled_row (T.get s.outbox k) else T.get s.outbox k))
        × ((settle T R M now message r s).receipts ≡ s.receipts)
  unfolding settle set_acked
  get-settle now message r s k e = ground (
    arith,
    mark_chunk-outbox now r s,
    T.get-delete s.outbox message k,
    T.get-delete (mark_chunk T R M now r s).outbox message k,
    T.get-update s.outbox message set_acked k (λ x. refl),
    eq_iff message k,
    ap (T.get s.outbox) {x = message} {y = k},
  )

  -- An acknowledgement deletes a transient row, marks any other as acknowledged, and leaves every
  -- other row alone; and it stores a receipt if and only if the message is known.
  pub on_ack_received_lem :
      (now : ℕ) (message : String) (s : Stores T R M) (k : String)
      → let after = on_ack_received T R M now message s in
        (T.get after.outbox k
          ≡ (if str_eq message k then settled_row (T.get s.outbox k) else T.get s.outbox k))
        × (R.get after.receipts ("delivered:" <> message)
            ≡ receipt_for now message
                (T.get s.outbox message)
                (R.get s.receipts ("delivered:" <> message)))
  unfolding on_ack_received put_receipt delivered_row
  on_ack_received_lem now message s k = elim (Option-cases (T.get s.outbox message)) [
    | inl e ↦
        rw (e, on_ack_received)
          (ground (arith, eq_iff message k, ap (T.get s.outbox) {x = message} {y = k}), refl)
    | inr (r, e) ↦
        let stored =
          R.get-put (settle T R M now message r s).receipts (delivered_row now message r)
            ("delivered:" <> message) in
        rw (e, on_ack_received)
          (
            (get-settle now message r s k e).0,
            ground (arith, stored, eq_refl ("delivered:" <> message)),
          )
  ]

  -- A message that has been acknowledged is neither sent again nor awaited: no listing of a later
  -- tick has its row.
  pub on_ack_received_stops :
      (now later : ℕ) (message : String) (s : Stores T R M) (row : OutboxRecord)
      → T.get (on_ack_received T R M now message s).outbox message ≡ some row
      → (is_retryable later row ≡ false) × (is_timed_out later row ≡ false)
  unfolding is_retryable is_timed_out set_acked
  on_ack_received_stops now later message s row stored =
      let settled = (on_ack_received_lem now message s message).0 in
      ground (arith, settled, eq_refl message)
