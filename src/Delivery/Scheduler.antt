-- ===== src/Delivery/Scheduler.antt =====
-- The delivery worker: src/delivery/deliveryScheduler.ts. One tick is a function; what happens to
-- the stores while a `send` is awaited, such as an acknowledgement that comes in, is part of the
-- argument `send`. The native planner and the sender are arguments. Logging and the interval timer
-- are not modelled.
pub mod Sent
pub mod Race
use mathlib.Core.Option
use nkc.Base.{
  ℕ, ◌+◌, ◌*◌, Bool, true, false, Option, none, some, List, [], ◌∷◌, ◌++◌, map, String, str_eq, ltb,
  leb, if◌then◌else◌, or_default, contains, find,
}
use nkc.Table.{Table}
use nkc.Outbox.{
  OutboxRecord, record_key, Priority, normal, Status, pending, list_retryable_outbox,
  list_in_flight_timed_out, mark_outbox_in_flight_unless_acked,
}
use nkc.Receipts.{ReceiptRecord, receipt_key}
use nkc.Media.{MediaTransferProgress, progress_key}
use nkc.Delivery.{Stores, sweep_expired}

pub data NetMode : Type 0 where
  direct tor onion : NetMode

pub data SendOutcome : Type 0 where
  ok threw : SendOutcome
  failed : (retryable : Bool) → SendOutcome

pub record PlanItem : Type 0 where
  pub id : String
  pub priority : Priority
  pub attempts : ℕ
  pub next_attempt_at_ms : Option ℕ
  pub expires_at_ms : ℕ
  pub created_at_ms : ℕ

pub record PlanRequest : Type 0 where
  pub now : ℕ
  pub mode : NetMode
  pub batch_size : ℕ
  pub items : List PlanItem

pub record Planned : Type 0 where
  pub id : String
  pub attempts : ℕ
  pub next_attempt_at_ms : ℕ

unfoldable pub to_plan_item : OutboxRecord → PlanItem
to_plan_item r = record {
  id = r.id;
  priority = or_default r.priority normal;
  attempts = or_default r.attempts 0;
  next_attempt_at_ms = r.next_attempt_at_ms;
  expires_at_ms = r.expires_at_ms;
  created_at_ms = r.created_at_ms;
}

-- `new Map(selected.map(…)).get(id)`: the last entry for an id counts.
unfoldable pub planned_by_id : List Planned → String → Option Planned
planned_by_id [] id = none
planned_by_id (x ∷ xs) id = elim (planned_by_id xs id) [
  | some later ↦ some later
  | none ↦ if str_eq x.id id then some x else none
]

-- The selected rows that are among the candidates, in the order of the selection.
unfoldable pub selected_rows : List Planned → List OutboxRecord → List OutboxRecord
selected_rows [] candidates = []
selected_rows (x ∷ xs) candidates =
    let rest = selected_rows xs candidates in
    elim (find (λ r. str_eq r.id x.id) candidates) [ none ↦ rest | some r ↦ r ∷ rest ]

-- The patch before a send, and the record that is handed to the sender.
unfoldable pub attempted : ℕ → Planned → OutboxRecord → OutboxRecord
attempted now plan r = record r {
  attempts = some plan.attempts;
  last_attempt_at_ms = some now;
  next_attempt_at_ms = some plan.next_attempt_at_ms;
}

-- The patch of a row whose acknowledgement is overdue.
unfoldable pub requeued : ℕ → OutboxRecord → OutboxRecord
requeued now r = record r {
  status = some pending;
  ack_deadline_ms = none;
  in_flight_at_ms = none;
  next_attempt_at_ms = some now;
}

-- `inFlight.delete(id)`
unfoldable pub delete_id : List String → String → List String
delete_id [] id = []
delete_id (x ∷ xs) id = let rest = delete_id xs id in if str_eq x id then rest else x ∷ rest

module _ (T : Table OutboxRecord record_key) (R : Table ReceiptRecord receipt_key)
    (M : Table MediaTransferProgress progress_key) where
  pub record Options : Type 0 where
    pub batch_size : ℕ
    pub ack_timeout_ms : ℕ
    pub net_mode : NetMode
    pub is_online : Bool
    -- No planner, or its answer; `none` where it has no plan or fails.
    pub plan_delivery : Option (PlanRequest → Option (List Planned))
    pub send : OutboxRecord → Stores T R M → SendOutcome × Stores T R M

  -- `sent` is the history of what the sender was called with, newest first.
  pub record Worker : Type 0 where
    pub running : Bool
    pub in_flight : List String
    pub stores : Stores T R M
    pub sent : List OutboxRecord

  unfoldable pub requeue_each : ℕ → List OutboxRecord → T.Store → T.Store
  requeue_each now [] s = s
  requeue_each now (r ∷ rs) s =
      requeue_each now rs (if leb r.expires_at_ms now then s else T.update s r.id (requeued now))

  after_send : Options → ℕ → String → SendOutcome → Stores T R M → Stores T R M
  after_send o now id ok s = record s {
    outbox = (mark_outbox_in_flight_unless_acked T id now (now + o.ack_timeout_ms) s.outbox).1;
  }
  after_send o now id (failed retryable) s = s
  after_send o now id threw s = s

  attempt : Options → ℕ → Planned → OutboxRecord → Worker → Worker
  unfolding after_send attempted
  attempt o now plan r w =
      let before = record w.stores {
        outbox = T.update w.stores.outbox r.id (attempted now plan);
      } in
      let (outcome, during) = o.send (attempted now plan r) before in
      record w {
        stores = after_send o now r.id outcome during;
        sent = attempted now plan r ∷ w.sent;
        in_flight = delete_id (r.id ∷ w.in_flight) r.id;
      }

  unfoldable pub deliver_one : Options → ℕ → List Planned → OutboxRecord → Worker → Worker
  unfolding attempt
  deliver_one o now plan r w =
      if contains w.in_flight r.id
      then w
      else if leb r.expires_at_ms now
      then w
      else elim (planned_by_id plan r.id) [ none ↦ w | some p ↦ attempt o now p r w ]

  unfoldable pub deliver_each : Options → ℕ → List Planned → List OutboxRecord → Worker → Worker
  deliver_each o now plan [] w = w
  deliver_each o now plan (r ∷ rs) w = deliver_each o now plan rs (deliver_one o now plan r w)

  -- The rows among which a plan is made.
  unfoldable pub candidates : Options → ℕ → T.Store → List OutboxRecord
  candidates o now s = elim o.plan_delivery [
    | none ↦ list_retryable_outbox T now o.batch_size s
    | some _ ↦ list_retryable_outbox T now (o.batch_size * 4) s
  ]

  pub native_plan : Options → ℕ → List OutboxRecord → Option (List Planned)
  native_plan o now rows = elim o.plan_delivery [
    | none ↦ none
    | some plan ↦ plan (record {
      now = now;
      mode = o.net_mode;
      batch_size = o.batch_size;
      items = map to_plan_item rows;
    })
  ]

  -- The stores after the sweep and after the overdue rows have been queued again.
  unfoldable pub prepared : Options → ℕ → Stores T R M → Stores T R M
  prepared o now s =
      let swept = (sweep_expired T R M now s).1 in
      let overdue = list_in_flight_timed_out T now o.batch_size swept.outbox in
      record swept { outbox = requeue_each now overdue swept.outbox }

  deliver_planned : Options → ℕ → List OutboxRecord → Option (List Planned) → Worker → Worker
  deliver_planned o now rows none w = w
  deliver_planned o now rows (some plan) w = deliver_each o now plan (selected_rows plan rows) w

  unfoldable pub tick : Options → ℕ → Worker → Worker
  unfolding deliver_planned
  tick o now w =
      if w.running
      then w
      else if o.is_online
      then (let ready = record w { running = true; stores = prepared o now w.stores } in
          let rows = candidates o now ready.stores.outbox in
          let done = deliver_planned o now rows (native_plan o now rows) ready in
          record done { running = false })
      else w
