-- ===== src/Delivery.antt =====
-- Delivery of outgoing messages: src/policies/deliveryPolicy.ts and src/policies/ttl.ts over the
-- outbox, the receipts and the progress of media transfers. The three tables are parameters. The
-- `catch` clauses, which only log a failing database, have nothing to model.
pub mod Policy
pub mod Scheduler
use mathlib.Core.Option
use nkc.Base.{ℕ, ◌+◌, ◌*◌, Bool, Option, none, some, String, or_default, str_eq, if◌then◌else◌}
use nkc.Table.{Table}
use nkc.Outbox.{
  OutboxRecord, record_key, Priority, Status, pending, acked, Retention, standard, transient,
  put_outbox, delete_expired_outbox,
}
use nkc.Receipts.{ReceiptRecord, receipt_key, delivered, put_receipt, ◌<>◌}
use nkc.Media.{MediaTransferProgress, progress_key, mark_media_transfer_acked}

abbrev pub ttl_ms : ℕ
ttl_ms = 12 * 60 * 60 * 1000

unfoldable pub compute_expires_at : ℕ → ℕ
compute_expires_at created = created + ttl_ms

-- A record as it comes from the router: what `enqueueOutgoing` may have to fill in is optional.
pub record Outgoing : Type 0 where
  pub fields : OutboxRecord
  pub created_at_ms : Option ℕ
  pub expires_at_ms : Option ℕ

unfoldable pub normalize_outgoing : ℕ → Outgoing → OutboxRecord
unfolding compute_expires_at
normalize_outgoing now o =
    let created = or_default o.created_at_ms now in
    record o.fields {
      created_at_ms = created;
      expires_at_ms = or_default o.expires_at_ms (compute_expires_at created);
      status = some (or_default o.fields.status pending);
      attempts = some (or_default o.fields.attempts 0);
      next_attempt_at_ms = some (or_default o.fields.next_attempt_at_ms created);
    }

unfoldable pub set_acked : OutboxRecord → OutboxRecord
set_acked r = record r { status = some acked }

unfoldable pub delivered_row : ℕ → String → OutboxRecord → ReceiptRecord
delivered_row now message r = record {
  id = "delivered:" <> message;
  conv_id = r.conv_id;
  msg_id = message;
  kind = delivered;
  ts = now;
  actor_id = none;
  cursor_ts = none;
  anchor_msg_id = none;
}

module _ (T : Table OutboxRecord record_key) (R : Table ReceiptRecord receipt_key)
    (M : Table MediaTransferProgress progress_key) where
  -- The stores that the policies change, and whether the vault is unlocked.
  pub record Stores : Type 0 where
    pub outbox : T.Store
    pub receipts : R.Store
    pub media : M.Store
    pub unlocked : Bool

  unfoldable pub enqueue_outgoing : ℕ → Outgoing → Stores → Stores
  unfolding put_outbox
  enqueue_outgoing now o s = record s { outbox = put_outbox T (normalize_outgoing now o) s.outbox }

  -- The cursor of a media transfer moves where the record names a transfer and a chunk.
  pub mark_chunk : ℕ → OutboxRecord → Stores → Stores
  mark_chunk now r s = elim r.transfer_id [
    | none ↦ s
    | some id ↦ elim r.chunk_index [
      | none ↦ s
      | some chunk ↦
          if str_eq id ""
          then s
          else record s { media = (mark_media_transfer_acked M s.unlocked now id chunk s.media).1 }
    ]
  ]

  pub settle : ℕ → String → OutboxRecord → Stores → Stores
  unfolding set_acked
  settle now message r s = elim r.retention [
    | some transient ↦
        let marked = mark_chunk now r s in record marked { outbox = T.delete marked.outbox message }
    | _ ↦ record s { outbox = T.update s.outbox message set_acked }
  ]

  unfoldable pub on_ack_received : ℕ → String → Stores → Stores
  unfolding delivered_row
  on_ack_received now message s = elim (T.get s.outbox message) [
    | none ↦ s
    | some r ↦
        let settled = settle now message r s in
        record settled { receipts = put_receipt R (delivered_row now message r) settled.receipts }
  ]

  unfoldable pub sweep_expired : ℕ → Stores → ℕ × Stores
  sweep_expired now s =
      let (n, outbox) = delete_expired_outbox T now s.outbox in (n, record s { outbox = outbox })
