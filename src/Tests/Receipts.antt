-- ===== src/Tests/Receipts.antt =====
-- A read cursor that is moved forward and back.
use nkc.Base.{ℕ, ◌≤◌, some, List, []}
use nkc.Table.{Table}
use nkc.Table.Memory.{memory}
use nkc.Receipts.{ReceiptRecord, receipt_key, CursorUpdate, put_read_cursor}
use nkc.Receipts.Cursors.{cursor_of, put_read_cursor_mono}

abbrev pub table : Table ReceiptRecord receipt_key
table = memory receipt_key

abbrev update_to : ℕ → CursorUpdate
update_to at = record {
  conv_id = "conv";
  actor_id = "alice";
  cursor_ts = some at;
  anchor_msg_id = some "m1";
}

abbrev after_first : List ReceiptRecord
after_first = put_read_cursor table 1 (update_to 500) []

put_read_cursor_mono_example :
    cursor_of table after_first "conv" "alice"
    ≤ cursor_of table (put_read_cursor table 2 (update_to 300) after_first) "conv" "alice"
put_read_cursor_mono_example =
    put_read_cursor_mono table 2 (update_to 300) after_first "conv" "alice"
