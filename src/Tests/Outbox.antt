-- ===== src/Tests/Outbox.antt =====
-- An outbox of three messages.
use nkc.Base.{ℕ, ◌≤◌, some, none, List, [], ◌∷◌, String, All, length}
use nkc.Table.{Table}
use nkc.Table.Memory.{memory}
use nkc.Outbox.{OutboxRecord, record_key, pending, list_retryable_outbox}
use nkc.Outbox.Listing.{IsDueRow, IsInOrder, IsServed, list_retryable_outbox_lem}

-- Passed on to the other tests.
abbrev pub table : Table OutboxRecord record_key
table = memory record_key

abbrev pub message : String → ℕ → OutboxRecord
message id due = record {
  id = id;
  conv_id = "conv";
  ciphertext = "cipher";
  priority = none;
  created_at_ms = 0;
  expires_at_ms = 1000;
  last_attempt_at_ms = none;
  next_attempt_at_ms = some due;
  attempts = some 0;
  status = some pending;
  in_flight_at_ms = none;
  ack_deadline_ms = none;
  retention = none;
  transfer_id = none;
  chunk_index = none;
}

abbrev pub three : List OutboxRecord
three = message "a" 30 ∷ message "b" 10 ∷ message "c" 200 ∷ []

list_retryable_outbox_lem_example :
    let rows = list_retryable_outbox table 100 2 three in
    All (IsDueRow table three 100) rows
    × IsInOrder rows
    × (length rows ≤ 2)
    × ((r : OutboxRecord) → IsDueRow table three 100 r → IsServed table 2 rows r)
list_retryable_outbox_lem_example = list_retryable_outbox_lem table three 100 2

abbrev unscheduled : List OutboxRecord
unscheduled = record (message "d" 0) { next_attempt_at_ms = none } ∷ []
