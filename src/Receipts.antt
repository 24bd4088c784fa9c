-- ===== src/Receipts.antt =====
-- Receipts and read cursors: src/storage/receiptStore.ts over ReceiptRecord of src/db/schema.ts.
pub mod Cursors
use Prim.Native.String
use nkc.Base.{
  ℕ, Bool, true, false, ◌&&◌, ◌||◌, Option, none, some, List, [], ◌∷◌, String, str_eq, ltb,
  if◌then◌else◌, or_default, max, not,
}
use nkc.Table.{Table}

pub data ReceiptKind : Type 0 where
  delivered read read_cursor : ReceiptKind

pub record ReceiptRecord : Type 0 where
  pub id : String
  pub conv_id : String
  pub msg_id : String
  pub kind : ReceiptKind
  pub ts : ℕ
  pub actor_id : Option String
  pub cursor_ts : Option ℕ
  pub anchor_msg_id : Option String

abbrev pub receipt_key : ReceiptRecord → String
receipt_key r = r.id

infixr 66 ◌<>◌
abbrev pub ◌<>◌ : String → String → String
a <> b = String.◌++◌ a b

abbrev pub is_delivered : ReceiptKind → Bool
is_delivered delivered = true
is_delivered _ = false

abbrev pub is_read : ReceiptKind → Bool
is_read read = true
is_read _ = false

abbrev pub is_cursor : ReceiptKind → Bool
is_cursor read_cursor = true
is_cursor _ = false

-- `some(test)`
abbrev pub any {ℓ} : {A : Type ℓ} → (A → Bool) → List A → Bool
any p [] = false
any p (x ∷ xs) = p x || any p xs

pub record CursorUpdate : Type 0 where
  pub conv_id : String
  pub actor_id : String
  pub cursor_ts : Option ℕ
  pub anchor_msg_id : Option String

abbrev pub cursor_id : String → String → String
cursor_id conv actor = "read_cursor:" <> conv <> ":" <> actor

abbrev pub stored_cursor : Option ReceiptRecord → ℕ
stored_cursor none = 0
stored_cursor (some r) = or_default r.cursor_ts 0

unfoldable pub cursor_row : ℕ → CursorUpdate → ℕ → ReceiptRecord
cursor_row now u at = record {
  id = cursor_id u.conv_id u.actor_id;
  conv_id = u.conv_id;
  msg_id = or_default u.anchor_msg_id (cursor_id u.conv_id u.actor_id);
  kind = read_cursor;
  ts = now;
  actor_id = some u.actor_id;
  cursor_ts = some at;
  anchor_msg_id = u.anchor_msg_id;
}

unfoldable pub read_row : CursorUpdate → String → ℕ → ReceiptRecord
read_row u anchor at = record {
  id = "read:" <> anchor <> ":" <> u.actor_id;
  conv_id = u.conv_id;
  msg_id = anchor;
  kind = read;
  ts = at;
  actor_id = some u.actor_id;
  cursor_ts = none;
  anchor_msg_id = none;
}

module _ (T : Table ReceiptRecord receipt_key) where
  open T use {Store, get, put, query}

  unfoldable pub put_receipt : ReceiptRecord → Store → Store
  put_receipt r s = put s r

  put_anchor : CursorUpdate → ℕ → Store → Store
  unfolding read_row
  put_anchor u at s = elim u.anchor_msg_id [
    | none ↦ s
    | some anchor ↦ if str_eq anchor "" then s else put s (read_row u anchor at)
  ]

  put_cursor : ℕ → CursorUpdate → ℕ → Store → Store
  unfolding cursor_row put_anchor
  put_cursor now u at s =
      let next = max (stored_cursor (get s (cursor_id u.conv_id u.actor_id))) at in
      put_anchor u next (put s (cursor_row now u next))

  -- A time that is no finite number is `none`. The row is read and written in one step, where the
  -- source awaits between the two: calls for one cursor are taken one after another.
  unfoldable pub put_read_cursor : ℕ → CursorUpdate → Store → Store
  unfolding put_cursor
  put_read_cursor now u s = elim u.cursor_ts [
    | none ↦ s
    | some at ↦ if str_eq u.conv_id "" || str_eq u.actor_id "" then s else put_cursor now u at s
  ]

  unfoldable pub get_receipt_state : String → Store → Bool × Bool
  get_receipt_state msg s =
      let records = query s (λ r. str_eq r.msg_id msg) in
      (any (λ r. is_delivered r.kind) records, any (λ r. is_read r.kind) records)

  unfoldable pub list_receipts_by_conv : String → Store → List ReceiptRecord
  list_receipts_by_conv conv s = query s (λ r. str_eq r.conv_id conv)
