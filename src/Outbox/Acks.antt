-- ===== src/Outbox/Acks.antt =====
-- `markOutboxInFlightUnlessAcked` of src/storage/outboxStore.ts on every branch.
use nkc.Base.{
  ℕ, ◌≡◌, refl, inl, inr, Bool, true, false, not, Option, none, some, String, str_eq, eq_iff,
  if◌then◌else◌, arith, Bool-cases, Option-cases, ap,
}
use nkc.Table.{Table}
use nkc.Outbox.{
  OutboxRecord, record_key, is_acked, to_in_flight, mark_outbox_in_flight_unless_acked,
}

-- Whether a stored row can go in flight.
abbrev pub can_mark : Option OutboxRecord → Bool
can_mark none = false
can_mark (some r) = not (is_acked r.status)

abbrev pub marked : ℕ → ℕ → Option OutboxRecord → Option OutboxRecord
marked at deadline none = none
marked at deadline (some r) =
    if is_acked r.status then some r else some (to_in_flight at deadline r)

module _ (T : Table OutboxRecord record_key) where
  open T use {Store, get}

  -- The call reports whether the row is there and not yet acknowledged; then, and only then, it
  -- sends that row in flight; every other row stays as it was.
  pub mark_outbox_in_flight_unless_acked_lem :
      (id : String) (at deadline : ℕ) (s : Store) (k : String)
      → let after = mark_outbox_in_flight_unless_acked T id at deadline s in
        (after.0 ≡ can_mark (get s id))
        × (get after.1 k ≡ (if str_eq id k then marked at deadline (get s k) else get s k))
  unfolding mark_outbox_in_flight_unless_acked
  mark_outbox_in_flight_unless_acked_lem id at deadline s k = elim (Option-cases (get s id)) [
    | inl e ↦ rw (e, mark_outbox_in_flight_unless_acked) (refl, absent e)
    | inr (r, e) ↦ elim (Bool-cases (is_acked r.status)) [
      | inl h ↦ rw (e, mark_outbox_in_flight_unless_acked, h) (refl, unchanged r e h)
      | inr h ↦ rw (e, mark_outbox_in_flight_unless_acked, h) (refl, changed r e h)
    ]
  ]
    where
      absent :
          get s id ≡ none
          → get s k ≡ (if str_eq id k then marked at deadline (get s k) else get s k)
      absent e = ground (arith, eq_iff id k, ap (get s) {x = id} {y = k})

      unchanged :
          (r : OutboxRecord)
          → get s id ≡ some r
          → is_acked r.status ≡ true
          → get s k ≡ (if str_eq id k then marked at deadline (get s k) else get s k)
      unchanged r e h = ground (arith, eq_iff id k, ap (get s) {x = id} {y = k})

      changed :
          (r : OutboxRecord)
          → get s id ≡ some r
          → is_acked r.status ≡ false
          → get (T.update s id (to_in_flight at deadline)) k
            ≡ (if str_eq id k then marked at deadline (get s k) else get s k)
      changed r e h = ground (
        arith,
        eq_iff id k,
        ap (get s) {x = id} {y = k},
        T.get-update s id (to_in_flight at deadline) k (λ x. refl),
      )
