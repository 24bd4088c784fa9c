-- ===== src/Media.antt =====
-- The progress of a media transfer: src/storage/mediaTransferStore.ts. The source counts from -1:
-- `stored_next` and `acked_next` are its `storedThrough` and `ackedThrough`, each one higher, so the
-- next chunk that is missing. The encryption of the row is not modelled; `unlocked` says whether
-- there is a vault key, without which a row is neither read nor written.
pub mod Cursor
pub mod Completion
use nkc.Base.{
  ℕ, zero, suc, ◌+◌, Bool, true, false, ◌||◌, List, [], ◌∷◌, String, ltb, leb, ◌==◌, if◌then◌else◌,
  length, Option, none, some,
}
use nkc.Base.Sort
use nkc.Table.{Table}

pub data TransferStatus : Type 0 where
  active complete failed : TransferStatus

pub record MediaTransferProgress : Type 0 where
  pub transfer_id : String
  pub conv_id : String
  pub total_chunks : ℕ
  pub stored_next : ℕ
  pub acked_next : ℕ
  pub acked_out_of_order : List ℕ
  pub status : TransferStatus
  pub updated_at : ℕ

-- A `Set` of numbers, as the list of its members without repeats.
unfoldable pub has : List ℕ → ℕ → Bool
has [] i = false
has (x ∷ xs) i = x == i || has xs i

unfoldable pub add : List ℕ → ℕ → List ℕ
unfolding has
add xs i = if has xs i then xs else i ∷ xs

unfoldable pub remove : List ℕ → ℕ → List ℕ
remove [] i = []
remove (x ∷ xs) i = let rest = remove xs i in if x == i then rest else x ∷ rest

unfoldable pub to_set : List ℕ → List ℕ
unfolding add
to_set [] = []
to_set (x ∷ xs) = add (to_set xs) x

-- `while (pending.delete(ackedThrough + 1)) ackedThrough += 1;`
unfoldable pub advance : ℕ → ℕ → List ℕ → ℕ × List ℕ
unfolding has remove
advance zero next pending = (next, pending)
advance (suc fuel) next pending = elim (has pending next) [
  | true ↦ advance fuel (suc next) (remove pending next)
  | false ↦ (next, pending)
]

abbrev pub after_status : Bool → TransferStatus → TransferStatus
after_status done status = if done then complete else status

-- The members of `pending` before the loop.
pending_with : ℕ → MediaTransferProgress → List ℕ
unfolding to_set add
pending_with chunk p =
    let known = to_set p.acked_out_of_order in
    if leb p.acked_next chunk then add known chunk else known

-- The update of `markMediaTransferAcked`, past its guards. Each round removes a member, so one
-- round more than there are members is enough fuel.
unfoldable pub ack_chunk : ℕ → MediaTransferProgress → MediaTransferProgress
unfolding pending_with advance
ack_chunk chunk p =
    let pending = pending_with chunk p in
    let (next, rest) = advance (suc (length pending)) p.acked_next pending in
    record p {
      acked_next = next;
      acked_out_of_order = Sort.sort leb rest;
      status = after_status (next == p.total_chunks) p.status;
    }

-- `createMediaTransferProgress`.
unfoldable pub fresh_progress : String → String → (total now : ℕ) → MediaTransferProgress
fresh_progress transfer conv total now = record {
  transfer_id = transfer;
  conv_id = conv;
  total_chunks = total;
  stored_next = 0;
  acked_next = 0;
  acked_out_of_order = [];
  status = active;
  updated_at = now;
}

-- The rows, and whether there is a vault key.
abbrev pub progress_key : MediaTransferProgress → String
progress_key p = p.transfer_id

module _ (T : Table MediaTransferProgress progress_key) where
  open T use {Store, get, put}

  read_unlocked : Bool → String → Store → Option MediaTransferProgress
  read_unlocked unlocked id s = if unlocked then get s id else none

  write_unlocked : Bool → ℕ → MediaTransferProgress → Store → Bool × Store
  write_unlocked unlocked now p s =
      if unlocked then (true, put s (record p { updated_at = now })) else (false, s)

  unfoldable pub create_media_transfer_progress :
      Bool → ℕ → String → String → ℕ → Store → Bool × Store
  unfolding write_unlocked fresh_progress
  create_media_transfer_progress unlocked now id conv total s =
      write_unlocked unlocked now (fresh_progress id conv total now) s

  unfoldable pub mark_media_transfer_stored : Bool → ℕ → String → ℕ → Store → Bool × Store
  unfolding read_unlocked write_unlocked
  mark_media_transfer_stored unlocked now id chunk s = elim (read_unlocked unlocked id s) [
    | none ↦ (false, s)
    | some current ↦
        if ltb chunk current.stored_next
        then (false, s)
        else write_unlocked unlocked now (record current { stored_next = suc chunk }) s
  ]

  unfoldable pub mark_media_transfer_acked : Bool → ℕ → String → ℕ → Store → Bool × Store
  unfolding read_unlocked write_unlocked ack_chunk
  mark_media_transfer_acked unlocked now id chunk s = elim (read_unlocked unlocked id s) [
    | none ↦ (false, s)
    | some current ↦
        if leb current.total_chunks chunk
        then (false, s)
        else write_unlocked unlocked now (ack_chunk chunk current) s
  ]
