-- ===== src/Tests/Delivery.antt =====
-- A worker with a message that is due, a planner and a sender that succeeds.
use nkc.Base.{◌≡◌, refl, true, false, some, none, List, [], ◌∷◌, map, All, Option}
use nkc.Table.{Table}
use nkc.Table.Memory.{memory, get}
use nkc.Outbox.{record_key}
use nkc.Receipts.{receipt_key, ◌<>◌}
use nkc.Media.{MediaTransferProgress, progress_key}
use nkc.Delivery.{Outgoing, Stores, on_ack_received}
use nkc.Delivery.Policy.{settled_row, receipt_for, on_ack_received_lem}
use nkc.Delivery.Scheduler.{
  direct, ok, Options, Worker, PlanRequest, Planned, planned_by_id, attempted, deliver_one,
  prepared, tick,
}
use nkc.Delivery.Scheduler.Sent.{SentRow, tick_sends_listed}
use nkc.Delivery.Scheduler.Race.{sending, after_outcome, deliver_one_outcome}
use nkc.Tests.Outbox.{three, message, table}
use nkc.Tests.Receipts.{table as receipts_table}

abbrev media : Table MediaTransferProgress progress_key
media = memory progress_key

abbrev stores : Stores table receipts_table media
stores = record { outbox = three; receipts = []; media = []; unlocked = true }

abbrev plan_all : PlanRequest → Option (List Planned)
plan_all q = some (map (λ i. record { id = i.id; attempts = 1; next_attempt_at_ms = 5000 }) q.items)

abbrev options : Options table receipts_table media
options = record {
  batch_size = 2;
  ack_timeout_ms = 30;
  net_mode = direct;
  is_online = true;
  plan_delivery = some plan_all;
  send = λ r s. (ok, s);
}

abbrev worker : Worker table receipts_table media
worker = record { running = false; in_flight = []; stores = stores; sent = [] }

tick_sends_listed_example :
    let after = tick table receipts_table media options 100 worker in
    All
      (SentRow table receipts_table media options 100
        (prepared table receipts_table media options 100 stores).outbox)
      after.sent
    × (after.in_flight ≡ [])
    × (after.running ≡ false)
tick_sends_listed_example = tick_sends_listed table receipts_table media options 100 worker refl

abbrev unplanned : Options table receipts_table media
unplanned = record options { plan_delivery = some (λ q. none) }

abbrev plan : Planned
plan = record { id = "b"; attempts = 1; next_attempt_at_ms = 5000 }

deliver_one_outcome_example :
    let (outcome, during) =
      sending table receipts_table media options 100 plan (message "b" 10) worker in
    let after =
      deliver_one table receipts_table media options 100 (plan ∷ []) (message "b" 10) worker in
    (after.sent ≡ attempted 100 plan (message "b" 10) ∷ [])
    × (get record_key after.stores.outbox "b"
        ≡ after_outcome 100 30 outcome (get record_key during.outbox "b"))
unfolding planned_by_id
deliver_one_outcome_example =
    deliver_one_outcome table receipts_table media options 100 (plan ∷ []) plan (message "b" 10)
      worker "b" refl refl refl

abbrev fresh : Outgoing
fresh = record {
  fields = record (message "n" 0) { status = none; next_attempt_at_ms = none };
  created_at_ms = none;
  expires_at_ms = none;
}

on_ack_received_lem_example :
    let after = on_ack_received table receipts_table media 100 "a" stores in
    (get record_key after.outbox "a" ≡ settled_row (get record_key three "a"))
    × (get receipt_key after.receipts ("delivered:" <> "a")
        ≡ receipt_for 100 "a" (get record_key three "a") none)
unfolding get
on_ack_received_lem_example = on_ack_received_lem table receipts_table media 100 "a" stores "a"
