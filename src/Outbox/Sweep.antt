-- ===== src/Outbox/Sweep.antt =====
-- What the sweeps of src/storage/outboxStore.ts delete and what they leave.
use mathlib.Core.Option
use nkc.Base.{
  ℕ, ◌≡◌, refl, ◌∙◌, Bool, true, false, Option, none, some, List, [], ◌∷◌, map, String,
  if◌then◌else◌, contains, arith,
}
use nkc.Table.{Table}
use nkc.Table.Laws.{keep_unless, get-bulk_delete-query, contains-map_key-query}
use nkc.Outbox.{
  OutboxRecord, record_key, is_expired, has_failed, is_unscheduled, fill_defaults, fill_each,
  ensure_outbox_defaults, delete_expired_outbox, delete_failed_outbox,
}

module _ (T : Table OutboxRecord record_key) where
  open T use {Store, get, query, update}

  -- A sweep deletes exactly the rows that have run out and are pending or in flight.
  pub get-delete_expired_outbox :
      (s : Store) (now : ℕ) (k : String)
      → get (delete_expired_outbox T now s).1 k ≡ keep_unless (is_expired now) (get s k)
  unfolding delete_expired_outbox
  get-delete_expired_outbox s now k = get-bulk_delete-query T s (is_expired now) k

  pub get-delete_failed_outbox :
      (s : Store) (least : ℕ) (k : String)
      → get (delete_failed_outbox T least s).1 k ≡ keep_unless (has_failed least) (get s k)
  unfolding delete_failed_outbox
  get-delete_failed_outbox s least k = get-bulk_delete-query T s (has_failed least) k

  get-fill_each :
      (rs : List OutboxRecord) (s : Store) (k : String)
      → get (fill_each T rs s) k
        ≡ (if contains (map record_key rs) k then Option.map fill_defaults (get s k) else get s k)
  unfolding fill_each fill_defaults
  get-fill_each [] s k = refl
  get-fill_each (r ∷ rs) s k = ground (
    arith,
    get-fill_each rs (update s r.id fill_defaults) k,
    T.get-update s r.id fill_defaults k (λ r. refl),
  )

  abbrev pub filled : Option OutboxRecord → Option OutboxRecord
  filled none = none
  filled (some r) = if is_unscheduled r then some (fill_defaults r) else some r

  -- A key that is filled is a key of an unscheduled row.
  unscheduled_keys :
      (s : Store) (k : String) → get (fill_each T (query s is_unscheduled) s) k ≡ filled (get s k)
  unscheduled_keys s k = get-fill_each (query s is_unscheduled) s k ∙ at_key (get s k) refl
    where
      at_key :
          (o : Option OutboxRecord)
          → get s k ≡ o
          → (if contains (map record_key (query s is_unscheduled)) k
              then Option.map fill_defaults (get s k)
              else get s k)
            ≡ filled o
      at_key none e = rw e (ground arith)
      at_key (some r) e = rw (e, contains-map_key-query T s is_unscheduled k r e) refl

  -- The first call fills the defaults of exactly the rows that have no time for the next attempt;
  -- a later call changes nothing.
  pub get-ensure_outbox_defaults :
      (done : Bool) (s : Store) (k : String)
      → let after = ensure_outbox_defaults T (done, s) in
        (after.0 ≡ true)
        × (get after.1 k ≡ (if done then get s k else filled (get s k)))
        × (ensure_outbox_defaults T after ≡ after)
  unfolding ensure_outbox_defaults
  get-ensure_outbox_defaults true s k = (refl, refl, refl)
  get-ensure_outbox_defaults false s k = (refl, unscheduled_keys s k, refl)
