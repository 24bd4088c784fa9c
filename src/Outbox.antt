-- ===== src/Outbox.antt =====
-- The outbox: src/storage/outboxStore.ts over the record type of src/db/schema.ts. Times are
-- milliseconds as natural numbers; `Date.now()` is an argument; an absent field is `none`.
pub mod Sweep
pub mod Listing
pub mod Acks
use nkc.Base.{
  ℕ, ◌+◌, Bool, true, false, ◌&&◌, ◌||◌, Option, none, some, List, [], ◌∷◌, map, String, str_eq,
  ltb, leb, ◌==◌, not, if◌then◌else◌, or_default, length, take, keep,
}
use nkc.Base.Sort
use nkc.Table.{Table}

pub data Priority : Type 0 where
  high normal : Priority

pub data Status : Type 0 where
  pending in_flight acked expired : Status

pub data Retention : Type 0 where
  standard transient : Retention

pub record OutboxRecord : Type 0 where
  pub id : String
  pub conv_id : String
  pub ciphertext : String
  pub priority : Option Priority
  pub created_at_ms : ℕ
  pub expires_at_ms : ℕ
  pub last_attempt_at_ms : Option ℕ
  pub next_attempt_at_ms : Option ℕ
  pub attempts : Option ℕ
  pub status : Option Status
  pub in_flight_at_ms : Option ℕ
  pub ack_deadline_ms : Option ℕ
  pub retention : Option Retention
  pub transfer_id : Option String
  pub chunk_index : Option ℕ

abbrev pub record_key : OutboxRecord → String
record_key r = r.id

-- `record.status === …`
abbrev pub is_pending : Option Status → Bool
is_pending (some pending) = true
is_pending _ = false

abbrev pub is_in_flight : Option Status → Bool
is_in_flight (some in_flight) = true
is_in_flight _ = false

abbrev pub is_acked : Option Status → Bool
is_acked (some acked) = true
is_acked _ = false

-- The range of a compound index: a row without the number has no entry.
abbrev pub at_most : Option ℕ → ℕ → Bool
at_most none n = false
at_most (some a) n = leb a n

-- The tests of the queries.
unfoldable pub is_retryable : ℕ → OutboxRecord → Bool
is_retryable now r =
    (is_pending r.status && at_most r.next_attempt_at_ms now) && ltb now r.expires_at_ms

unfoldable pub is_timed_out : ℕ → OutboxRecord → Bool
is_timed_out now r =
    (is_in_flight r.status && at_most r.ack_deadline_ms now) && ltb now r.expires_at_ms

unfoldable pub is_expired : ℕ → OutboxRecord → Bool
is_expired now r = leb r.expires_at_ms now && (is_pending r.status || is_in_flight r.status)

unfoldable pub has_failed : ℕ → OutboxRecord → Bool
has_failed min_attempts r = is_pending r.status && leb min_attempts (or_default r.attempts 0)

-- The comparator of `listRetryableOutbox`, on rows that have a time for the next attempt.
abbrev pub due_at : OutboxRecord → ℕ
due_at r = or_default r.next_attempt_at_ms 0

unfoldable pub due_le : OutboxRecord → OutboxRecord → Bool
due_le a b =
    ltb (due_at a) (due_at b) || ((due_at a == due_at b) && leb a.created_at_ms b.created_at_ms)

unfoldable pub deadline_le : OutboxRecord → OutboxRecord → Bool
deadline_le a b = leb (or_default a.ack_deadline_ms 0) (or_default b.ack_deadline_ms 0)

-- `record.nextAttemptAtMs === undefined || record.nextAttemptAtMs === null`
abbrev pub is_unscheduled : OutboxRecord → Bool
is_unscheduled r = elim r.next_attempt_at_ms [ none ↦ true | some _ ↦ false ]

unfoldable pub fill_defaults : OutboxRecord → OutboxRecord
fill_defaults r = record r {
  next_attempt_at_ms = some r.created_at_ms;
  attempts = some (or_default r.attempts 0);
  status = some (or_default r.status pending);
}

unfoldable pub to_in_flight : (in_flight_at ack_deadline : ℕ) → OutboxRecord → OutboxRecord
to_in_flight at deadline r = record r {
  in_flight_at_ms = some at;
  ack_deadline_ms = some deadline;
  status = some in_flight;
}

module _ (T : Table OutboxRecord record_key) where
  open T use {Store, get, put, delete, bulk_delete, query, update}

  -- The patches of `Promise.all` touch distinct rows, so their order does not matter.
  unfoldable pub fill_each : List OutboxRecord → Store → Store
  fill_each [] s = s
  fill_each (r ∷ rs) s = fill_each rs (update s r.id fill_defaults)

  -- The flag is `normalizedDefaults`.
  unfoldable pub ensure_outbox_defaults : Bool × Store → Bool × Store
  unfolding fill_each
  ensure_outbox_defaults (done, s) =
      if done then (done, s) else (true, fill_each (query s is_unscheduled) s)

  unfoldable pub put_outbox : OutboxRecord → Store → Store
  put_outbox r s = put s r

  unfoldable pub list_pending_outbox : Store → List OutboxRecord
  list_pending_outbox s = query s (λ r. is_pending r.status)

  unfoldable pub list_retryable_outbox : (now limit : ℕ) → Store → List OutboxRecord
  list_retryable_outbox now limit s = take limit (Sort.sort due_le (query s (is_retryable now)))

  unfoldable pub list_in_flight_timed_out : (now limit : ℕ) → Store → List OutboxRecord
  list_in_flight_timed_out now limit s =
      take limit (Sort.sort deadline_le (query s (is_timed_out now)))

  unfoldable pub mark_outbox_in_flight_unless_acked :
      String → (in_flight_at ack_deadline : ℕ) → Store → Bool × Store
  unfolding to_in_flight
  mark_outbox_in_flight_unless_acked id at deadline s = elim (get s id) [
    | none ↦ (false, s)
    | some current ↦
        if is_acked current.status
        then (false, s)
        else (true, update s id (to_in_flight at deadline))
  ]

  unfoldable pub delete_expired_outbox : ℕ → Store → ℕ × Store
  delete_expired_outbox now s =
      let expired_rows = query s (is_expired now) in
      (length expired_rows, bulk_delete s (map record_key expired_rows))

  unfoldable pub delete_failed_outbox : ℕ → Store → ℕ × Store
  delete_failed_outbox min_attempts s =
      let failed = query s (has_failed min_attempts) in
      (length failed, bulk_delete s (map record_key failed))

  unfoldable pub list_outbox_by_conv : String → Store → List OutboxRecord
  list_outbox_by_conv conv s = keep (λ r. str_eq r.conv_id conv) (query s (λ _. true))
